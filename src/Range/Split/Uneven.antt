-- ===== src/Range/Split/Uneven.antt =====
-- `rangeSplit` when the range does not divide evenly among the processes, with one thread each.
-- Process 0 rounds its share up and starts at the front, while the starts of all others are
-- counted in shares that are rounded down, so its block runs into the next and the end is left over.
use native.Mathlib.Nat.{
  mod-lt, mod-eq_of_lt, div-add-mod, div-eq_of_lt-le, mul-le-mul_left, mul-le-mul_right,
}
use mstone.Base.{
  ℕ, zero, suc, ◌+◌, ◌-◌, ◌*◌, ◌/◌, ◌%◌, ◌≤◌, ◌<◌, ◌≡◌, ◌≢◌, ◌↔◌, false, arith, u64_mod, is_zero,
}
use mstone.Range.{Range, Workers, share, split}
use mstone.Range.Next.{IsValid}
use mstone.Range.Split.{per_process, block_offset, block_count, split_lem}
use mstone.Range.Split.Tiling.{Holds, set_first_count-Holds}

-- More processes than one, at least one value for each, and a remainder.
pub record IsUneven (w : Workers) (whole : Range) : Type 0 where
  pub one_thread : w.numthreads ≡ 1
  pub many_procs : 1 < w.numprocs
  pub enough : w.numprocs ≤ whole.span + 1
  pub remainder : (whole.span + 1) % w.numprocs ≢ 0
  pub small : whole.first + whole.span + 1 + w.numprocs < u64_mod

module _ (w : Workers) (whole : Range) (u : IsUneven w whole) (v : IsValid whole)
    (seq : is_zero whole.sequential ≡ false) where
  abbrev pub each : ℕ
  each = (whole.span + 1) / w.numprocs

  size_lem : whole.span + 1 ≡ w.numprocs * each + (whole.span + 1) % w.numprocs
  size_lem = omega (arith, div-add-mod (whole.span + 1) w.numprocs)

  each_pos : 0 < each
  each_pos =
      grind (arith, size_lem, u.enough, mod-lt (whole.span + 1) {m = w.numprocs} (omega arith))

  share_first : per_process w whole 0 ≡ each + 1
  unfolding share
  share_first =
      let up : (whole.span + 1 + w.numprocs - 1) / w.numprocs ≡ each + 1 =
        div-eq_of_lt-le w.numprocs (omega (arith, size_lem, u.remainder)) (
          omega (
            arith,
            size_lem,
            mod-lt (whole.span + 1) {m = w.numprocs} (omega (arith, u.many_procs)),
          )) in
      ground (arith, up, u.small, u.many_procs)

  share_later : (pnum : ℕ) → 0 < pnum → per_process w whole pnum ≡ each
  unfolding share
  share_later pnum p = ground (arith, each_pos)

  block_one :
      (pnum : ℕ)
      → (block_offset w whole pnum 0 ≡ per_process w whole pnum * pnum)
        × (block_count w whole pnum 0 ≡ per_process w whole pnum)
  block_one pnum = ground (arith, u.one_thread)

  split-Holds :
      (pnum count value : ℕ)
      → per_process w whole pnum ≡ count
      → 0 < count
      → count * pnum + count ≤ whole.span + 1
      → Holds (split w whole pnum 0) value
        ↔ ((whole.first + count * pnum ≤ value) × (value < whole.first + count * pnum + count))
  split-Holds pnum count value s p fits =
      rw
        (
          split_lem w whole pnum 0 v seq (ground (arith, u.one_thread, s, u.small)),
          (block_one pnum).0,
          (block_one pnum).1,
          s,
          mod-eq_of_lt {n = count * pnum} {m = whole.span + 1} (omega arith),
        )
        (set_first_count-Holds (whole.first + count * pnum) count value whole.sequential p
          (omega (arith, u.small)))

  split_first :
      (value : ℕ)
      → Holds (split w whole 0 0) value
        ↔ ((whole.first ≤ value) × (value < whole.first + (each + 1)))
  split_first value =
      let room : each + 1 ≤ whole.span + 1 = omega (
        arith,
        size_lem,
        u.remainder,
        mul-le-mul_right {m = 2} {n = w.numprocs} each u.many_procs,
      ) in
      let block = split-Holds 0 (each + 1) value share_first (omega arith) (omega arith) in
      (λ h. omega (arith, block.0 h), λ h. block.1 (omega arith))

  split_later :
      (pnum value : ℕ)
      → 0 < pnum
      → pnum < w.numprocs
      → Holds (split w whole pnum 0) value
        ↔ ((whole.first + each * pnum ≤ value) × (value < whole.first + each * pnum + each))
  split_later pnum value p lt =
      split-Holds pnum each value (share_later pnum p) each_pos
        (omega (arith, size_lem, mul-le-mul_left {m = suc pnum} {n = w.numprocs} each lt))

  -- When there are more processes than one, each with one thread, and a sequential range has at least
  -- as many values as there are processes and does not divide evenly among them, without
  -- wrap-around, processes 0 and 1 are both given the value `first + size / numprocs`.
  pub split_overlaps :
      Holds (split w whole 0 0) (whole.first + each)
      × Holds (split w whole 1 0) (whole.first + each)
  split_overlaps = (
    (split_first _).1 (omega arith, omega arith),
    (split_later 1 _ (omega arith) u.many_procs).1 (omega arith, omega (arith, each_pos)),
  )

  -- Under the same conditions no process is given the last value of the range.
  pub split_misses_last : (pnum : ℕ) → pnum < w.numprocs → ¬ Holds (split w whole pnum 0) whole.last
  split_misses_last zero p h = omega (
    arith,
    (split_first _).0 h,
    v.ends,
    size_lem,
    each_pos,
    u.remainder,
    mul-le-mul_right {m = 2} {n = w.numprocs} each u.many_procs,
  )
  split_misses_last (suc pnum) p h = omega (
    arith,
    (split_later (suc pnum) _ (omega arith) p).0 h,
    v.ends,
    size_lem,
    u.remainder,
    mul-le-mul_left {m = suc (suc pnum)} {n = w.numprocs} each p,
  )
