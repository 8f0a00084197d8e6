-- ===== src/Buffer/Refill.antt =====
-- src/sb.c, `_sb_refill` and `_sb_consume`: no byte is lost between the stream and the buffer.
use mathlib.Core.List.{append_assoc}
use mstone.Base.{
  ℕ, ◌-◌, ◌≡◌, refl, sym, ap, ◌∙◌, ◌⊎◌, inl, inr, true, if_cases, List, [], ◌∷◌, ◌++◌, Option, none,
  some, pos, negsuc, Bytes, length, take, drop, take-append-drop,
}
use mstone.Transfer.{Turn, ReadResult, got, failed, retry_read}
use mstone.Transfer.Reads.{Reads, retry_read-Reads}
use mstone.Buffer.{SocketBuffer, Served, store, refill, consume}

-- all that is still to come, from the buffer first
abbrev pub content : SocketBuffer → Bytes → Bytes
content sb s = sb.buf ++ s

-- a refill moves the front of the stream into the buffer, or fails and leaves all where it is
abbrev pub Refills : SocketBuffer → Bytes → Option Served → Type 0
Refills sb s none = Unit {0}
Refills sb s (some r) =
    (content r.sb r.unread ≡ content sb s)
    × (((n : ℕ) × (r.ret ≡ pos n))
        ⊎ ((n : ℕ) × (r.ret ≡ negsuc n) × (r.sb.eof ≡ true) × (r.sb.buf ≡ sb.buf)))

store-Refills :
    (sb : SocketBuffer) (s : Bytes) (count : ℕ) (x : Option (ReadResult × Bytes))
    → Reads count s x
    → Refills sb s (store sb x)
unfolding store
store-Refills sb s count none h = tt
store-Refills sb s count (some (failed, s')) h = (ap (◌++◌ sb.buf) h, inr (0, refl, refl, refl))
store-Refills sb s count (some (got [], s')) h =
    (ap (◌++◌ sb.buf) (sym h.0), inr (0, refl, refl, refl))
store-Refills sb s count (some (got (b ∷ bs), s')) h =
    (append_assoc sb.buf (b ∷ bs) s' ∙ ap (◌++◌ sb.buf) (sym h.0), inl (length (b ∷ bs), refl))

pub refill-Refills :
    (turns : List Turn) (sb : SocketBuffer) (s : Bytes) → Refills sb s (refill turns sb s)
unfolding refill
refill-Refills turns sb s =
    if_cases (Refills sb s) sb.eof (λ e. (refl, inr (0, refl, e, refl)))
      λ e.
        store-Refills sb s (sb.len - length sb.buf) (retry_read (sb.len - length sb.buf) turns s)
          (retry_read-Reads (sb.len - length sb.buf) turns s)

pub taken_lem :
    (sb : SocketBuffer) (s : Bytes) (n : ℕ)
    → content sb s ≡ take n sb.buf ++ content (consume sb n) s
unfolding consume
taken_lem sb s n =
    ap (λ l. l ++ s) (sym (take-append-drop n sb.buf))
    ∙ append_assoc (take n sb.buf) (drop n sb.buf) s

pub drop_all : (l : Bytes) → drop (length l) l ≡ []
drop_all [] = refl
drop_all (c ∷ l) = drop_all l

pub consume_all : (sb : SocketBuffer) → (consume sb (length sb.buf)).buf ≡ []
unfolding consume
consume_all sb = drop_all sb.buf

pub taken_all :
    (sb : SocketBuffer) (s : Bytes)
    → content sb s ≡ sb.buf ++ content (consume sb (length sb.buf)) s
taken_all sb s = ap (λ l. sb.buf ++ (l ++ s)) (sym (consume_all sb))
