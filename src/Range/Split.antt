-- ===== src/Range/Split.antt =====
-- `rangeSplit`: how the workers share a range.
pub mod Even
pub mod Tiling
pub mod Uneven
use native.Mathlib.Nat.{mod-lt}
use mstone.Base.{
  ℕ, ◌+◌, ◌*◌, ◌%◌, ◌≤◌, ◌<◌, ◌≡◌, refl, Option, none, some, false, arith, ltb, if◌then◌else◌,
  Option-cases, inl, inr, u64_mod, is_zero,
}
use mstone.Range.{Range, Workers, share, place, split, set_first_count}
use mstone.Range.Loops.{fold_back_lem}
use mstone.Range.Next.{IsValid}

-- The share of a process, the share of a thread, the distance of a worker's block from the start
-- of the range before it is wrapped, and the block's size.
abbrev pub per_process : Workers → Range → ℕ → ℕ
per_process w whole pnum = share (whole.span + 1) w.numprocs pnum

abbrev pub per_thread : Workers → Range → ℕ → ℕ → ℕ
per_thread w whole pnum tnum = share (per_process w whole pnum) w.numthreads tnum

abbrev pub block_offset : Workers → Range → ℕ → ℕ → ℕ
block_offset w whole pnum tnum =
    per_process w whole pnum * pnum
    + (if ltb 1 w.numthreads then per_thread w whole pnum tnum * tnum else 0)

abbrev pub block_count : Workers → Range → ℕ → ℕ → ℕ
block_count w whole pnum tnum =
    if ltb 1 w.numthreads then per_thread w whole pnum tnum else per_process w whole pnum

place_lem :
    (whole : Range) (offset count : ℕ)
    → IsValid whole
    → whole.first + offset < u64_mod
    → place whole (whole.first + offset) count
      ≡ some (set_first_count (whole.first + offset % (whole.span + 1)) count whole.sequential)
unfolding place
place_lem whole offset count v fits = ground (
  arith,
  fold_back_lem (whole.first + offset + 1) whole.first (whole.span + 1) offset (omega arith) fits
      (omega arith),
)

-- Worker `pnum`, `tnum` gets its block, its start wrapped into the range.
pub split_lem :
    (w : Workers) (whole : Range) (pnum tnum : ℕ)
    → IsValid whole
    → is_zero whole.sequential ≡ false
    → whole.first + block_offset w whole pnum tnum < u64_mod
    → split w whole pnum tnum
      ≡ some (
          set_first_count
            (whole.first + block_offset w whole pnum tnum % (whole.span + 1))
            (block_count w whole pnum tnum)
            whole.sequential)
unfolding split
split_lem w whole pnum tnum v seq fits =
    ground (
      arith,
      place_lem whole (block_offset w whole pnum tnum) (block_count w whole pnum tnum) v fits,
    )
