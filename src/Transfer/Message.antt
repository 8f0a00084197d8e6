-- ===== src/Transfer/Message.antt =====
-- `retrMsg`: what it is to find the end of a message wherever the network cuts the stream.
pub mod Buffer
pub mod Exact
pub mod Progress
use mathlib.Core.List.{append_assoc, append-nil}
use mstone.Base.{
  ℕ, zero, suc, ◌+◌, ◌-◌, ◌≤◌, ◌<◌, ◌≡◌, refl, sym, ap, ◌∙◌, ◌⊎◌, inl, inr, Bool, true, false, List,
  [], ◌∷◌, ◌++◌, Option, none, some, arith, ltb, if◌then◌else◌, length, length-append, take, drop,
  length-drop, take-append-drop, Bool-cases, ℤ, pos, negsuc, Bytes, codes, contains,
  contains_window, starts_with, c_string, c_string-NoNul, NoNul, NoNul-append, NoNul-left,
  NoNul-right, not, ◌||◌, leb, ◌==◌, min,
}
use mstone.Transfer.{
  Round, ReadResult, got, failed, retry_read, Reply, moved, interrupted, again, broken, stale, Turn,
  Written, retry_write, send_command, InTime,
}
use mstone.Transfer.Reads.{Reads, retry_read-Reads}

-- "\r\n.\r\n"
abbrev pub terminator : Bytes
terminator = b'\r' ∷ b'\n' ∷ b'.' ∷ b'\r' ∷ b'\n' ∷ []

-- `sizeof (garbage) - 1`
abbrev pub garbage_size : ℕ
garbage_size = 9999

-- the tests of `retrMsg` on its scratch buffer, and the shuffle of its last 5 bytes to the start
pub data Verdict : Type 0 where
  complete refused : Verdict
  more : Bytes → Verdict

unfoldable pub judge : Bytes → Verdict
judge buffer =
    if contains terminator (c_string buffer)
    then complete
    else if starts_with (codes "-ERR") buffer
    then refused
    else more (if ltb 5 (length buffer) then drop (length buffer - 5) buffer else buffer)

-- What `retrMsg` leaves: its return value, the growth of `ptcx->bytesread`, and what the peer has
-- still to deliver.
pub record Retrieved : Type 0 where
  pub ret : ℤ
  pub bytesread : ℕ
  pub unread : Bytes

-- what follows the tests: `total` bytes stand in the buffer, and `bytesread` were counted
unfoldable pub conclude :
    Verdict → Bytes → ℕ → ℕ → (Bytes → Bytes → ℕ → Option Retrieved) → Option Retrieved
conclude complete s total bytesread onward =
    some (record { ret = pos total; bytesread = bytesread; unread = s })
conclude refused s total bytesread onward =
    some (record { ret = negsuc 0; bytesread = bytesread; unread = s })
conclude (more kept) s total bytesread onward = onward kept s bytesread

-- what follows the call of `retryRead`
unfoldable pub after_read :
    Bytes
    → ℕ
    → (Bytes → Bytes → ℕ → Option Retrieved)
    → Option (ReadResult × Bytes)
    → Option Retrieved
after_read window bytesread onward none = none
after_read window bytesread onward (some (failed, s)) =
    some (record { ret = negsuc 0; bytesread = bytesread; unread = s })
after_read window bytesread onward (some (got [], s)) =
    some (record { ret = negsuc 0; bytesread = bytesread; unread = s })
after_read window bytesread onward (some (got (b ∷ bs), s)) =
    let buffer = window ++ (b ∷ bs) in
    conclude (judge buffer) s (length buffer) (bytesread + length (b ∷ bs)) onward

-- `retrMsg`, from the bytes that the scratch buffer holds
unfoldable pub retrieve : Bytes → List Round → Bytes → ℕ → Option Retrieved
retrieve window [] s bytesread = none
retrieve window (r ∷ rs) s bytesread =
    let late = some (record { ret = pos (length window); bytesread = bytesread; unread = s }) in
    let next =
      after_read window bytesread (λ kept s' n. retrieve kept rs s' n)
        (retry_read (garbage_size - length window) r.turns s) in
    if r.expired then late else next

abbrev pub retr_msg : List Round → Bytes → Option Retrieved
retr_msg rounds s = retrieve [] rounds s 0

-- What the scratch buffer holds after the bytes `gone ++ window`: all of them, or the last 5.
abbrev pub IsWindow : Bytes → Bytes → Type 0
IsWindow gone window = ((gone ≡ []) × (length window ≤ 5)) ⊎ (length window ≡ 5)

-- The terminator was received in full: not yet before the last read, but with it.
pub record Completes (read taken : Bytes) (r : Retrieved) : Type 0 where
  pub returned : ℕ
  pub before : Bytes
  pub last : Bytes
  pub ret_is : r.ret ≡ pos returned
  pub splits : taken ≡ before ++ last
  pub not_before : contains terminator (read ++ before) ≡ false
  pub then_there : contains terminator (read ++ (before ++ last)) ≡ true

-- How a call ends that had read `read` before, with `s` to come and `bytesread` counted: it takes
-- `taken` off the stream and counts that, and it fails with the terminator not yet received, or
-- succeeds at the first read that completes it.
pub record Ends (read s : Bytes) (bytesread : ℕ) (r : Retrieved) : Type 0 where
  pub taken : Bytes
  pub stream : s ≡ taken ++ r.unread
  pub counted : r.bytesread ≡ bytesread + length taken
  pub outcome :
      ((r.ret ≡ negsuc 0) × (contains terminator (read ++ taken) ≡ false)) ⊎ Completes read taken r

abbrev pub Ending : Bytes → Bytes → ℕ → Option Retrieved → Type 0
Ending read s bytesread none = Unit {0}
Ending read s bytesread (some r) = Ends read s bytesread r
