-- ===== src/Transfer/Reads.antt =====
-- `retryRead` loses nothing, makes nothing up, and stays within its buffer.
use mstone.Base.{
  ℕ, ◌≤◌, ◌≡◌, refl, sym, Bool, true, false, not, ◌||◌, List, [], ◌∷◌, ◌++◌, Option, none, some,
  arith, min, length, take, drop, take-append-drop, length-take, Bytes, Bool-cases, ◌==◌, inl, inr,
}
use mstone.Transfer.{
  Reply, Turn, ReadResult, moved, interrupted, again, broken, stale, got, failed, read_reply,
  retry_read,
}

-- What is read is the front of what the peer had to deliver, at most `count` bytes of it.
abbrev pub Reads : ℕ → Bytes → Option (ReadResult × Bytes) → Type 0
Reads count s none = Unit {0}
Reads count s (some (failed, s')) = s' ≡ s
Reads count s (some (got bs, s')) = (s ≡ bs ++ s') × (length bs ≤ count)

moved-Reads :
    (count n : ℕ) (s : Bytes)
    → Reads count s (some (got (take (min n count) s), drop (min n count) s))
moved-Reads count n s =
    (sym (take-append-drop (min n count) s), omega (arith, length-take (min n count) s))

nothing-Reads : (count : ℕ) (s : Bytes) → Reads count s (some (got [], s))
nothing-Reads count s = (refl, omega arith)

read_reply-Reads :
    (reply : Reply) (ready_again : Bool) (count : ℕ) (s : Bytes)
    (retry : Option (ReadResult × Bytes))
    → Reads count s retry
    → Reads count s (read_reply reply ready_again count s retry)
unfolding read_reply
read_reply-Reads (moved n) ready_again count s retry h = moved-Reads count n s
read_reply-Reads interrupted ready_again count s retry h = h
read_reply-Reads again true count s retry h = h
read_reply-Reads again false count s retry h = refl
read_reply-Reads broken ready_again count s retry h = refl
read_reply-Reads stale ready_again count s retry h = h

-- Whatever the network does, a call of `retryRead` that returns has either failed and taken nothing
-- off the stream, or stored its first bytes, in order and no more than `count` of them.
pub retry_read-Reads :
    (count : ℕ) (ts : List Turn) (s : Bytes) → Reads count s (retry_read count ts s)
unfolding retry_read
retry_read-Reads count [] s = ground (arith, nothing-Reads count s)
retry_read-Reads count (t ∷ ts) s = elim (Bool-cases (count == 0 || (t.expired || not t.ready))) [
  | inl stop ↦ rw stop (nothing-Reads count s)
  | inr go ↦ rw go (
      read_reply-Reads t.reply t.ready_again count s (retry_read count ts s)
        (retry_read-Reads count ts s))
]
