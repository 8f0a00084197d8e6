-- ===== src/Transfer.antt =====
-- src/bench.c: the blocking reads and writes over a socket, on which every protocol stands. What
-- the network does is a script: each pass of a retry loop meets one `Turn`. A script that ends
-- while a loop still waits gives `none`. Error texts are left out.
pub mod Reads
pub mod Writes
pub mod Message
pub mod Output
pub mod Line
pub mod Command
pub mod Expiry
mod Examples
use mstone.Base.{
  ℕ, zero, suc, ◌≡◌, ◌+◌, ◌-◌, Bool, true, false, not, ◌||◌, List, [], ◌∷◌, ◌++◌, Option, none,
  some, ltb, leb, ◌==◌, if◌then◌else◌, min, length, take, drop, ℤ, pos, negsuc, Bytes, codes,
  starts_with, contains, c_string,
}

-- What `read` or `write` returns: a count of bytes, `EINTR`, `EAGAIN`, another error, or 0 with
-- `errno` still at `EAGAIN`.
pub data Reply : Type 0 where
  moved : ℕ → Reply
  interrupted again broken stale : Reply

-- One pass of a retry loop: whether `gf_timeexpired` has reached `EXIT_FAST`, whether the poll
-- before the call finds the socket ready, the call's reply, and whether a poll after `EAGAIN` does.
pub record Turn : Type 0 where
  pub expired : Bool
  pub ready : Bool
  pub reply : Reply
  pub ready_again : Bool

-- What `retryRead` returns: the bytes it stored, none of them if it returns 0, or -1.
pub data ReadResult : Type 0 where
  got : Bytes → ReadResult
  failed : ReadResult

-- The reply to a call of `read`; `retry` is what another pass of the loop gives.
unfoldable pub read_reply :
    Reply → Bool → ℕ → Bytes → Option (ReadResult × Bytes) → Option (ReadResult × Bytes)
read_reply (moved n) ready_again count s retry =
    some (got (take (min n count) s), drop (min n count) s)
read_reply interrupted ready_again count s retry = retry
read_reply again ready_again count s retry = if ready_again then retry else some (failed, s)
read_reply broken ready_again count s retry = some (failed, s)
read_reply stale ready_again count s retry = retry

-- `retryRead (ptcx, sock, buf, count)`; the last argument is what the peer has still to deliver.
unfoldable pub retry_read : ℕ → List Turn → Bytes → Option (ReadResult × Bytes)
retry_read count [] s = if count == 0 then some (got [], s) else none
retry_read count (t ∷ ts) s =
    let called = read_reply t.reply t.ready_again count s (retry_read count ts s) in
    if count == 0 || (t.expired || not t.ready) then some (got [], s) else called

-- What a write loop leaves: its return value, and the bytes that it put on the wire.
pub record Written : Type 0 where
  pub ret : ℤ
  pub wire : Bytes

-- the way out of the loop of `retryWrite` on an error: -1 if nothing was written before
unfoldable pub write_error : ℕ → Bytes → Written
write_error zero wire = record { ret = negsuc 0; wire = wire }
write_error (suc n) wire = record { ret = pos (suc n); wire = wire }

-- The reply to a call of `write`; `retry` is what another pass of the loop gives, and `onward` what
-- the passes after a count of bytes give.
unfoldable pub write_reply :
    Reply → Bool → ℕ → Bytes → Option Written → (ℕ → Option Written) → Option Written
unfolding write_error
write_reply (moved n) ready_again byteswritten wire retry onward = onward n
write_reply interrupted ready_again byteswritten wire retry onward = retry
write_reply again ready_again byteswritten wire retry onward =
    if ready_again then retry else some (write_error byteswritten wire)
write_reply broken ready_again byteswritten wire retry onward = some (write_error byteswritten wire)
write_reply stale ready_again byteswritten wire retry onward = retry

-- `retryWrite (ptcx, sock, buf, count)` with `byteswritten` and the bytes on the wire so far
unfoldable pub retry_write : List Turn → Bytes → ℕ → Bytes → Option Written
retry_write [] buf byteswritten wire =
    if length buf == 0 then some (record { ret = pos byteswritten; wire = wire }) else none
retry_write (t ∷ ts) buf byteswritten wire =
    let called =
      write_reply t.reply t.ready_again byteswritten wire (retry_write ts buf byteswritten wire)
        λ n.
          retry_write ts (drop n buf) (byteswritten + length (take n buf)) (wire ++ take n buf) in
    if length buf == 0 || t.expired
    then some (record { ret = pos byteswritten; wire = wire })
    else called

-- One round of a loop that calls `retryRead` or `retryWrite`: the script of that call, and whether
-- the loop's own test finds the time expired (before a read, after a write).
pub record Round : Type 0 where
  pub turns : List Turn
  pub expired : Bool

-- what `sendCommand` does with the value that `retryWrite` returned
unfoldable pub resume : ℤ → Bool → ℕ → Bytes → (ℕ → Bytes → Option Written) → Option Written
resume (negsuc n) expired sentbytes wire onward = some (record { ret = negsuc 0; wire = wire })
resume (pos sent) true sentbytes wire onward =
    some (record { ret = pos (sentbytes + sent); wire = wire })
resume (pos sent) false sentbytes wire onward = onward sent wire

unfoldable pub after_write :
    Bool → ℕ → Bytes → (ℕ → Bytes → Option Written) → Option Written → Option Written
unfolding resume
after_write expired sentbytes wire onward none = none
after_write expired sentbytes wire onward (some w) =
    resume w.ret expired sentbytes (wire ++ w.wire) onward

-- `sendCommand`: what is still to be sent, `sentbytes`, and the bytes on the wire so far.
-- `ptcx->byteswritten` grows by the count that is returned, and not at all on an error.
unfoldable pub send_command : List Round → Bytes → ℕ → Bytes → Option Written
send_command [] command sentbytes wire =
    if length command == 0 then some (record { ret = pos sentbytes; wire = wire }) else none
send_command (r ∷ rs) command sentbytes wire =
    let written =
      after_write r.expired sentbytes wire
        (λ sent wire'. send_command rs (drop sent command) (sentbytes + sent) wire')
        (retry_write r.turns command 0 []) in
    if length command == 0 then some (record { ret = pos sentbytes; wire = wire }) else written

-- The tests of the rounds never find the time expired.
abbrev pub InTime : List Round → Type 0
InTime [] = Unit {0}
InTime (r ∷ rs) = (r.expired ≡ false) × InTime rs
