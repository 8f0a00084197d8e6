-- ===== src/Range/Examples.antt =====
-- The theorems about ranges at concrete inputs, and tests.
use mstone.Base.{ℕ, ◌≡◌, ◌<◌, refl, some, [], ◌∷◌, arith, pos, negsuc}
use mstone.Range.{Range, Workers, next, set_first_count, split, share, fold_back, wrap, draw, place}
use mstone.Range.Next.{IsValid, Lands, next-Lands, advance, advance-ascending, advance-descending}
use mstone.Range.Split.Even.{IsEven}
use mstone.Range.Split.Tiling.{Holds, split_covers, split_disjoint}
use mstone.Range.Split.Uneven.{IsUneven, split_overlaps}

-- Ten logins from 100 on, upwards, downwards and at random.
abbrev upwards : Range
upwards = record { first = 100; last = 109; span = 9; sequential = pos 1 }

abbrev downwards : Range
downwards = record { first = 100; last = 109; span = 9; sequential = negsuc 0 }

abbrev downwards_to_zero : Range
downwards_to_zero = record { first = 0; last = 9; span = 9; sequential = negsuc 0 }

abbrev shuffled : Range
shuffled = record { first = 100; last = 109; span = 9; sequential = pos 0 }

abbrev five_processes : Workers
five_processes = record { numprocs = 5; numthreads = 2 }

abbrev three_processes : Workers
three_processes = record { numprocs = 3; numthreads = 1 }

next_random : next shuffled 0 1234567 ≡ some 107
unfolding next wrap draw
next_random = refl

split_three_0 :
    split three_processes upwards 0 0
    ≡ some (record { first = 100; last = 103; span = 3; sequential = pos 1 })
unfolding split place share fold_back set_first_count
split_three_0 = refl

split_three_1 :
    split three_processes upwards 1 0
    ≡ some (record { first = 103; last = 105; span = 2; sequential = pos 1 })
unfolding split place share fold_back set_first_count
split_three_1 = refl

-- More workers than logins: the starts wrap.
split_wraps :
    split (record { numprocs = 20; numthreads = 1 }) upwards 13 0
    ≡ some (record { first = 103; last = 103; span = 0; sequential = pos 1 })
unfolding split place share fold_back set_first_count
split_wraps = refl

upwards-IsValid : IsValid upwards
upwards-IsValid = omega arith

downwards-IsValid : IsValid downwards
downwards-IsValid = omega arith

zero-IsValid : IsValid downwards_to_zero
zero-IsValid = omega arith

shuffled-IsValid : IsValid shuffled
shuffled-IsValid = omega arith

next-Lands_example : Lands shuffled (next shuffled 0 1234567)
next-Lands_example = next-Lands shuffled 0 1234567 shuffled-IsValid

advance-ascending_example : advance upwards 107 (4 ∷ 5 ∷ 6 ∷ []) ≡ some 100
advance-ascending_example = advance-ascending upwards 7 (4 ∷ 5 ∷ 6 ∷ []) upwards-IsValid refl

advance-descending_example : advance downwards 102 (4 ∷ 5 ∷ 6 ∷ []) ≡ some 109
advance-descending_example =
    advance-descending downwards 7 (4 ∷ 5 ∷ 6 ∷ []) downwards-IsValid refl (omega arith)

five-IsEven : IsEven five_processes upwards 1
five-IsEven = omega arith

split_covers_example :
    (pnum : ℕ) × (tnum : ℕ) × (pnum < 5)
    × (tnum < 2)
    × Holds (split five_processes upwards pnum tnum) 106
split_covers_example =
    split_covers five_processes upwards 1 five-IsEven upwards-IsValid refl 106 (omega arith)
      (omega arith)

held : Holds (split five_processes upwards 3 0) 106
unfolding split place share fold_back set_first_count
held = omega arith

split_disjoint_example : (◌≡◌ {A = ℕ} 3 3) × (◌≡◌ {A = ℕ} 0 0)
split_disjoint_example =
    split_disjoint five_processes upwards 1 five-IsEven upwards-IsValid refl 3 0 3 0 106
      (omega arith) (omega arith) (omega arith) (omega arith) held held

three-IsUneven : IsUneven three_processes upwards
three-IsUneven = omega arith

split_overlaps_example :
    Holds (split three_processes upwards 0 0) 103 × Holds (split three_processes upwards 1 0) 103
split_overlaps_example = split_overlaps three_processes upwards three-IsUneven upwards-IsValid refl
