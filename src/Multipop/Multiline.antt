-- ===== src/Multipop/Multiline.antt =====
-- src/multipop.c: mpop_multiline_cmd, which sends a command and reads a response up to a line with a
-- dot. Of its buffer only the last 5 bytes read count.
pub mod Received
use mathlib.Core.List.{append_assoc}
use mstone.Base.{
  ℕ, zero, suc, ◌+◌, ◌-◌, ◌≤◌, ◌≡◌, refl, sym, ap, ◌∙◌, subst, Bool, true, false, ◌&&◌, not, List,
  [], ◌∷◌, ◌++◌, Option, none, some, arith, ltb, ◌==◌, if◌then◌else◌, if_cases, length,
  length-append, length-drop, take, drop, take-append-drop, ℤ, pos, negsuc, is_negative, Bytes,
  codes, starts_with,
}
use mstone.Transfer.{Round, ReadResult, got, failed, retry_read, Written, send_command}
use mstone.Transfer.Reads.{Reads, retry_read-Reads}
use mstone.Pish.{Call}

-- What the reading leaves: `nread` or -1, and what the server has still to deliver.
pub record Lines : Type 0 where
  pub ret : ℤ
  pub unread : Bytes

-- What the command leaves.
pub record Fetched : Type 0 where
  pub ret : ℤ
  pub wire : Bytes
  pub unread : Bytes

-- the last 5 bytes
pub last5 : Bytes → Bytes
last5 s = drop (length s - 5) s

-- `EOM`
abbrev pub eom : Bytes
eom = codes "\r\n.\r\n"

pub after_more :
    (Bytes → ℕ → Bytes → Option Lines) → Bytes → ℕ → Option (ReadResult × Bytes) → Option Lines
unfolding last5
after_more onward window nread none = none
after_more onward window nread (some (failed, s)) = some (record { ret = negsuc 0; unread = s })
after_more onward window nread (some (got bs, s)) =
    onward (last5 (window ++ bs)) (nread + length bs) s

-- `while (memcmp (buf + len, EOM, EOM_LEN) != 0)`, with a script for each call of `retryRead`
pub more : List Round → Bytes → ℕ → Bytes → Option Lines
unfolding after_more
more [] window nread s =
    if starts_with eom window then some (record { ret = pos nread; unread = s }) else none
more (r ∷ rs) window nread s =
    let rest =
      after_more (λ window' nread' s'. more rs window' nread' s') window nread
        (retry_read 4091 r.turns s) in
    if starts_with eom window then some (record { ret = pos nread; unread = s }) else rest

-- the first bytes; with less than 5 of them the code compares what is in front of the buffer, which
-- gives `none`
pub judged : List Round → Bytes → Bytes → Option Lines
unfolding more last5
judged rs bs s =
    if not (starts_with (codes "+") bs)
    then some (record { ret = negsuc 0; unread = s })
    else if ltb (length bs) 5
    then none
    else more rs (last5 bs) (length bs) s

pub after_first : (Bytes → Option Lines) → List Round → Option (ReadResult × Bytes) → Option Lines
unfolding judged
after_first again rs none = none
after_first again rs (some (failed, s)) = some (record { ret = negsuc 0; unread = s })
after_first again rs (some (got [], s)) = again s
after_first again rs (some (got (c ∷ cs), s)) = judged rs (c ∷ cs) s

-- the loop up to the first bytes
pub read_text : List Round → Bytes → Option Lines
unfolding after_first
read_text [] s = none
read_text (r ∷ rs) s = after_first (λ s'. read_text rs s') rs (retry_read 4096 r.turns s)

pub lines_read : Bytes → Option Lines → Option Fetched
lines_read wire none = none
lines_read wire (some l) = some (record { ret = l.ret; wire = wire; unread = l.unread })

pub command_sent : Call → Bytes → Option Written → Option Fetched
unfolding lines_read read_text
command_sent c s none = none
command_sent c s (some w) =
    if is_negative w.ret
    then some (record { ret = negsuc 0; wire = w.wire; unread = s })
    else lines_read w.wire (read_text c.reads s)

-- `mpop_multiline_cmd`
unfoldable pub multiline : Call → Bytes → Bytes → Option Fetched
unfolding command_sent
multiline c command s = command_sent c s (send_command c.writes command 0 [])
