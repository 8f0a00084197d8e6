-- ===== src/Range/Setup.antt =====
-- `rangeSetFirstLast` and `rangeSetFirstCount` build valid ranges.
use mstone.Base.{ℕ, ◌+◌, ◌<◌, ◌≡◌, min, max, arith, u64_mod, ℤ}
use mstone.Range.{set_first_last, set_first_count}
use mstone.Range.Next.{IsValid}

-- Whatever the order of its two bounds, `rangeSetFirstLast` builds a valid range from the smaller
-- to the larger, provided that neither is the largest `unsigned long`.
pub set_first_last-IsValid :
    (first last : ℕ) (dir : ℤ)
    → first + 1 < u64_mod
    → last + 1 < u64_mod
    → IsValid (set_first_last first last dir)
      × ((set_first_last first last dir).first ≡ min first last)
      × ((set_first_last first last dir).last ≡ max first last)
unfolding set_first_last
set_first_last-IsValid first last dir h k = ground arith

-- A range of a first value and a positive count is valid and holds as many values as the count
-- says, provided that the value behind its end is an `unsigned long`.
pub set_first_count-IsValid :
    (first num : ℕ) (dir : ℤ)
    → 0 < num
    → first + num < u64_mod
    → IsValid (set_first_count first num dir)
      × ((set_first_count first num dir).first ≡ first)
      × ((set_first_count first num dir).last + 1 ≡ first + num)
unfolding set_first_count
set_first_count-IsValid first num dir p h = ground arith
