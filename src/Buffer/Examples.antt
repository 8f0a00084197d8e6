-- ===== src/Buffer/Examples.antt =====
-- The theorems about the socket buffer at concrete inputs, and tests.
use mstone.Base.{
  ◌≡◌, refl, true, false, List, [], ◌∷◌, some, Bytes, codes, pos, arith, starts_with, c_string,
}
use mstone.Transfer.{Reply, moved, interrupted, Turn, retry_read, read_reply}
use mstone.Buffer.{
  SocketBuffer, sb_new, refill, store, consume, find, search, searched, go_on, refilled,
  resume_discard, sb_discard,
}
use mstone.Buffer.Refill.{content}
use mstone.Buffer.Discard.{Discards, sb_discard-Discards}

abbrev turn : Reply → Turn
turn reply = record { expired = false; ready = true; reply = reply; ready_again = true }

abbrev cut : List (List Turn)
cut = (turn interrupted ∷ turn (moved 3) ∷ []) ∷ (turn (moved 2) ∷ []) ∷ (turn (moved 9) ∷ []) ∷ []

abbrev mail : Bytes
mail = codes "+OK\r\n\r\nbody"

abbrev fresh : SocketBuffer
fresh = record { len = 8; buf = []; eof = false }

sb_discard-Discards_example :
    Discards (codes "\r\n\r\n") (content fresh mail) (sb_discard cut fresh (codes "\r\n\r\n") mail)
sb_discard-Discards_example = sb_discard-Discards cut fresh (codes "\r\n\r\n") mail (omega arith)

-- The delimiter is found although two reads cut it.
body_left :
    sb_discard cut (sb_new 8) (codes "\r\n\r\n") mail
    ≡ some (record {
      sb = record { len = 8; buf = codes "bod"; eof = false };
      unread = codes "y";
      ret = pos 0;
    })
unfolding sb_discard sb_new resume_discard refilled go_on refill store consume find search searched
    retry_read read_reply starts_with c_string
body_left = refl
