-- ===== src/Buffer.antt =====
-- src/sb.c: the buffer between a socket and the readers of a message. Its state is the part of the
-- buffer that holds data; the network is a script for each call of `retryRead`, as in Transfer.
pub mod Refill
pub mod Skip
pub mod Missed
pub mod Discard
mod Examples
use mstone.Base.{
  ℕ, zero, suc, ◌+◌, ◌-◌, Bool, true, false, if◌then◌else◌, ltb, List, [], ◌∷◌, ◌++◌, Option, none,
  some, ℤ, pos, negsuc, Bytes, length, drop, starts_with, c_string,
}
use mstone.Transfer.{Turn, ReadResult, got, failed, retry_read}

-- `socket_buffer`: its size, the first `data` bytes of `buf`, and `eof`
pub record SocketBuffer : Type 0 where
  pub len : ℕ
  pub buf : Bytes
  pub eof : Bool

-- `sb_new`
pub sb_new : ℕ → SocketBuffer
sb_new len = record { len = len; buf = []; eof = false }

-- What a call leaves: the buffer, what the peer has still to deliver, and the value returned.
pub record Served : Type 0 where
  pub sb : SocketBuffer
  pub unread : Bytes
  pub ret : ℤ

-- what `_sb_refill` does with the answer of `retryRead`
pub store : SocketBuffer → Option (ReadResult × Bytes) → Option Served
store sb none = none
store sb (some (failed, s)) =
    some (record { sb = record sb { eof = true }; unread = s; ret = negsuc 0 })
store sb (some (got [], s)) =
    some (record { sb = record sb { eof = true }; unread = s; ret = negsuc 0 })
store sb (some (got (b ∷ bs), s)) = some (record {
  sb = record sb { buf = sb.buf ++ (b ∷ bs) };
  unread = s;
  ret = pos (length (b ∷ bs));
})

-- `_sb_refill`
pub refill : List Turn → SocketBuffer → Bytes → Option Served
unfolding store
refill turns sb s =
    if sb.eof
    then some (record { sb = sb; unread = s; ret = negsuc 0 })
    else store sb (retry_read (sb.len - length sb.buf) turns s)

-- `_sb_consume`
pub consume : SocketBuffer → ℕ → SocketBuffer
consume sb len = record sb { buf = drop len sb.buf }

-- `strstr (s, pat)`: the offset of the first occurrence
pub find : Bytes → Bytes → Option ℕ
find pat [] = if starts_with pat [] then some 0 else none
find pat (c ∷ s) =
    let rest = find pat s in
    if starts_with pat (c ∷ s) then some 0 else elim rest [ none ↦ none | some n ↦ some (suc n) ]

-- the passes of `sb_discard` that do not read: the delimiter is found and consumed, or the buffer
-- is cut down to less than its length
pub data Search : Type 0 where
  done : SocketBuffer → Search
  short : SocketBuffer → Search

pub searched : SocketBuffer → Bytes → Option ℕ → Search
unfolding consume
searched sb pat (some n) = done (consume sb (n + length pat))
searched sb pat none = short (consume sb (length sb.buf - (length pat - 1)))

pub search : SocketBuffer → Bytes → Search
unfolding find searched
search sb pat =
    if ltb (length sb.buf) (length pat)
    then short sb
    else searched sb pat (find pat (c_string sb.buf))

-- what follows a refill, by the value that it returned: the loop goes on, or ends with `lost`
pub go_on :
    ℤ → SocketBuffer → Bytes → Served → (SocketBuffer → Bytes → Option Served) → Option Served
go_on (pos n) sb s lost onward = onward sb s
go_on (negsuc n) sb s lost onward = some lost

-- in `sb_discard`, which consumes all data at the end of the stream
pub refilled : (SocketBuffer → Bytes → Option Served) → Option Served → Option Served
unfolding consume go_on
refilled onward none = none
refilled onward (some r) =
    go_on r.ret r.sb r.unread
      (record { sb = consume r.sb (length r.sb.buf); unread = r.unread; ret = negsuc 0 }) onward

-- `sb_discard`, behind its search
pub resume_discard : Search → Bytes → (SocketBuffer → Option Served) → Option Served
resume_discard (done sb) s read = some (record { sb = sb; unread = s; ret = pos 0 })
resume_discard (short sb) s read = read sb

-- `sb_discard`, one script for each refill
pub sb_discard : List (List Turn) → SocketBuffer → Bytes → Bytes → Option Served
unfolding search resume_discard refilled refill
sb_discard [] sb pat s = resume_discard (search sb pat) s (λ sb'. none)
sb_discard (turns ∷ rounds) sb pat s =
    resume_discard (search sb pat) s
      (λ sb'. refilled (λ sb'' s'. sb_discard rounds sb'' pat s') (refill turns sb' s))

-- in `sb_discardn`, which returns no value, so that `ret` stays 0
pub refilled_n : (SocketBuffer → Bytes → Option Served) → Option Served → Option Served
unfolding go_on
refilled_n onward none = none
refilled_n onward (some r) =
    go_on r.ret r.sb r.unread (record { sb = r.sb; unread = r.unread; ret = pos 0 }) onward

-- `sb_discardn`
pub sb_discardn : List (List Turn) → SocketBuffer → ℕ → Bytes → Option Served
unfolding consume refilled_n refill
sb_discardn [] sb n s =
    if ltb n (length sb.buf)
    then some (record { sb = consume sb n; unread = s; ret = pos 0 })
    else none
sb_discardn (turns ∷ rounds) sb n s =
    let onward =
      refilled_n (λ sb' s'. sb_discardn rounds sb' (n - length sb.buf) s')
        (refill turns (consume sb (length sb.buf)) s) in
    if ltb n (length sb.buf)
    then some (record { sb = consume sb n; unread = s; ret = pos 0 })
    else onward
