-- ===== src/Range/Next.antt =====
-- `rangeNext`: every value drawn lies in the range, and a sequential range runs through all of it.
use mstone.Base.{
  ℕ, ◌+◌, ◌-◌, ◌%◌, ◌≤◌, ◌<◌, ◌≡◌, refl, ap, ◌∙◌, Option, none, some, List, [], ◌∷◌, true, arith,
  length, u64_mod, is_positive, is_negative,
}
use mstone.Range.{Range, next, wrap, draw}
use mstone.Range.Loops.{mod_step}

-- A range as the setup functions build it: its span is exact, and the counters cannot wrap.
pub record IsValid (r : Range) : Type 0 where
  pub ends : r.last ≡ r.first + r.span
  pub fits : r.last + 1 < u64_mod

-- The call returns, and what it returns lies in the range.
abbrev pub Lands : Range → Option ℕ → Type 0
Lands r none = ⊥
Lands r (some n) = (r.first ≤ n) × (n ≤ r.last)

draw_lem :
    (r : Range) (random : ℕ) → IsValid r → draw r random ≡ some (r.first + random % (r.span + 1))
unfolding draw
draw_lem r random v = ground arith

-- On a valid range `rangeNext` returns, its assertion included, in every direction and whatever
-- the previous value and the random number were, and the value lies between `first` and `last`.
pub next-Lands : (r : Range) (prev random : ℕ) → IsValid r → Lands r (next r prev random)
unfolding next wrap
next-Lands r prev random v = ground (arith, draw_lem r random v)

-- Position `k` of an incrementing range, and of a decrementing one.
abbrev pub ascending : Range → ℕ → ℕ
ascending r k = r.first + k % (r.span + 1)

abbrev pub descending : Range → ℕ → ℕ
descending r k = r.last - k % (r.span + 1)

next-ascending :
    (r : Range) (k random : ℕ)
    → IsValid r
    → is_positive r.sequential ≡ true
    → next r (ascending r k) random ≡ some (ascending r (k + 1))
unfolding next wrap
next-ascending r k random v up = ground (arith, mod_step k r.span)

next-descending :
    (r : Range) (k random : ℕ)
    → IsValid r
    → is_negative r.sequential ≡ true
    → 0 < r.first
    → next r (descending r k) random ≡ some (descending r (k + 1))
unfolding next wrap
next-descending r k random v down low = ground (arith, mod_step k r.span)

-- The callers keep the value returned and pass it to the next call, here once for each random
-- number of a list: `stats->lastLogin = rangeNext(range, stats->lastLogin)`.
pub advance : Range → ℕ → List ℕ → Option ℕ
advance r prev [] = some prev
advance r prev (x ∷ xs) = elim (next r prev x) [ none ↦ none | some n ↦ advance r n xs ]

-- From position `k` of a valid incrementing range, `length xs` calls lead to position
-- `k + length xs`, so `span + 1` calls visit every value once and come back.
pub advance-ascending :
    (r : Range) (k : ℕ) (xs : List ℕ)
    → IsValid r
    → is_positive r.sequential ≡ true
    → advance r (ascending r k) xs ≡ some (ascending r (k + length xs))
unfolding advance
advance-ascending r k [] v up = ground arith
advance-ascending r k (x ∷ xs) v up =
    rw (next-ascending r k x v up, advance)
      (advance-ascending r (k + 1) xs v up ∙ ap (λ (n : ℕ). some (ascending r n)) (omega arith))

-- The same downwards, for a valid decrementing range whose first value is not 0.
pub advance-descending :
    (r : Range) (k : ℕ) (xs : List ℕ)
    → IsValid r
    → is_negative r.sequential ≡ true
    → 0 < r.first
    → advance r (descending r k) xs ≡ some (descending r (k + length xs))
unfolding advance
advance-descending r k [] v down low = ground arith
advance-descending r k (x ∷ xs) v down low =
    rw (next-descending r k x v down low, advance)
      (advance-descending r (k + 1) xs v down low
        ∙ ap (λ (n : ℕ). some (descending r n)) (omega arith))

next_stuck :
    (r : Range) (random : ℕ)
    → IsValid r
    → is_negative r.sequential ≡ true
    → r.first ≡ 0
    → next r 0 random ≡ some 0
unfolding next wrap
next_stuck r random v down low = ground arith

-- A valid decrementing range that starts at 0 never wraps to its last value: `last - 1` wraps
-- round to the largest `unsigned long`, which the first test takes back to 0, for ever.
pub advance_stuck :
    (r : Range) (xs : List ℕ)
    → IsValid r
    → is_negative r.sequential ≡ true
    → r.first ≡ 0
    → advance r 0 xs ≡ some 0
unfolding advance
advance_stuck r [] v down low = refl
advance_stuck r (x ∷ xs) v down low =
    rw (next_stuck r x v down low, advance) (advance_stuck r xs v down low)
