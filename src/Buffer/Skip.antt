-- ===== src/Buffer/Skip.antt =====
-- src/sb.c, `sb_discardn`: what it takes off the stream.
use mathlib.Core.List.{append_assoc}
use mstone.Base.{
  ℕ, ◌+◌, ◌-◌, ◌≤◌, ◌≡◌, sym, ap, ◌∙◌, ◌⊎◌, inl, inr, true, if_cases, ltb, List, [], ◌∷◌, ◌++◌,
  Option, none, some, pos, Bytes, length, length-append, length-take, take, arith, subst,
}
use mstone.Transfer.{Turn}
use mstone.Buffer.{SocketBuffer, Served, refill, consume, go_on, refilled_n, sb_discardn}
use mstone.Buffer.Refill.{content, Refills, refill-Refills, taken_lem, consume_all, taken_all}

-- What `sb_discardn` leaves of `t`, the bytes to come: it has taken exactly `n` bytes; or the stream
-- is at its end, all data was taken, and that was no more than `n` bytes.
abbrev pub Skips : ℕ → Bytes → Option Served → Type 0
Skips n t none = Unit {0}
Skips n t (some r) =
    (gone : Bytes) × (t ≡ gone ++ content r.sb r.unread)
    × ((length gone ≡ n) ⊎ ((r.sb.eof ≡ true) × (r.sb.buf ≡ []) × (length gone ≤ n)))

Skips-append :
    (n m : ℕ) (front t : Bytes) (o : Option Served)
    → length front + m ≡ n
    → Skips m t o
    → Skips n (front ++ t) o
Skips-append n m front t none e h = tt
Skips-append n m front t (some r) e (gone, f, k) = (
  front ++ gone,
  ap (◌++◌ front) f ∙ sym (append_assoc front gone (content r.sb r.unread)),
  ground (arith, length-append front gone, k, e),
)

refilled_n-Skips :
    (n : ℕ) (sb : SocketBuffer) (s : Bytes) (o : Option Served)
    (onward : SocketBuffer → Bytes → Option Served)
    → sb.buf ≡ []
    → Refills sb s o
    → ((sb' : SocketBuffer) (s' : Bytes) → Skips n (content sb' s') (onward sb' s'))
    → Skips n (content sb s) (refilled_n onward o)
unfolding refilled_n go_on
refilled_n-Skips n sb s none onward e h k = tt
refilled_n-Skips n sb s (some r) onward e (same, inl (i, ret)) k =
    rw (sym same) (rw ret (k r.sb r.unread))
refilled_n-Skips n sb s (some r) onward e (same, inr (i, ret, eof, still)) k =
    rw ret ([], sym same, inr (eof, still ∙ e, omega arith))

taken-Skips :
    (sb : SocketBuffer) (s : Bytes) (n : ℕ)
    → n ≤ length sb.buf
    → Skips n (content sb s) (some (record { sb = consume sb n; unread = s; ret = pos 0 }))
taken-Skips sb s n h = (take n sb.buf, taken_lem sb s n, inl (omega (arith, length-take n sb.buf)))

-- Whatever the network does, a call of `sb_discardn` that returns has taken exactly the next `n`
-- bytes, first those in the buffer and then from the stream, and nothing behind them; or the stream
-- is at its end, and it has taken what there was in the buffer and no more than `n` bytes.
pub sb_discardn-Skips :
    (rounds : List (List Turn)) (sb : SocketBuffer) (n : ℕ) (s : Bytes)
    → Skips n (content sb s) (sb_discardn rounds sb n s)
unfolding sb_discardn
sb_discardn-Skips [] sb n s =
    if_cases (Skips n (content sb s)) (ltb n (length sb.buf))
      (λ h. taken-Skips sb s n (ground arith)) λ h. tt
sb_discardn-Skips (turns ∷ rounds) sb n s =
    let empty = consume sb (length sb.buf) in
    if_cases (Skips n (content sb s)) (ltb n (length sb.buf))
      (λ h. taken-Skips sb s n (ground arith))
      λ h.
        subst
          (λ t. Skips n t (
            refilled_n (λ sb' s'. sb_discardn rounds sb' (n - length sb.buf) s')
              (refill turns empty s)))
          (sym (taken_all sb s))
          (Skips-append n (n - length sb.buf) sb.buf (content empty s) _ (ground arith) (
            refilled_n-Skips (n - length sb.buf) empty s (refill turns empty s)
              (λ sb' s'. sb_discardn rounds sb' (n - length sb.buf) s') (consume_all sb)
              (refill-Refills turns empty s)
              λ sb' s'. sb_discardn-Skips rounds sb' (n - length sb.buf) s'))
