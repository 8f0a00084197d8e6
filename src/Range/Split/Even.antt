-- ===== src/Range/Split/Even.antt =====
-- `rangeSplit` when the range divides evenly among processes and threads.
use native.Mathlib.Nat.{mul-le-mul_right, one-le-mul, mul-add-div, mod-eq_of_lt, div-eq_of_lt}
use native.Mathlib.Decide.{dec_lt}
use mstone.Base.{
  ℕ, suc, ◌+◌, ◌-◌, ◌*◌, ◌≤◌, ◌<◌, ◌≡◌, ap, ◌∙◌, some, false, arith, u64_mod, is_zero,
}
use mstone.Range.{Range, Workers, share, split, set_first_count}
use mstone.Range.Next.{IsValid}
use mstone.Range.Split.{per_process, per_thread, block_offset, block_count, split_lem}

share_even :
    (parts each index : ℕ)
    → 0 < parts
    → 0 < each
    → parts * each + parts < u64_mod
    → share (parts * each) parts index ≡ each
unfolding share
share_even parts each index p e fits = ground (
  arith,
  mul-add-div p each 0,
  mul-add-div p each (parts - 1),
  div-eq_of_lt {n = 0} {m = parts} p,
  div-eq_of_lt {n = parts - 1} {m = parts} (omega arith),
)

-- Block `index` of process `pnum` ends within the range.
pub block_fits :
    (procs threads each pnum tnum : ℕ)
    → pnum < procs
    → tnum < threads
    → (pnum * threads + tnum) * each + each ≤ procs * (threads * each)
block_fits procs threads each pnum tnum p t = omega (
  arith,
  mul-le-mul_right {m = suc pnum} {n = procs} (threads * each) p,
  mul-le-mul_right {m = suc tnum} {n = threads} each t,
)

-- The range is `numprocs * numthreads` blocks of `each` values.
pub record IsEven (w : Workers) (whole : Range) (each : ℕ) : Type 0 where
  pub divides : whole.span + 1 ≡ w.numprocs * (w.numthreads * each)
  pub some_procs : 0 < w.numprocs
  pub some_threads : 0 < w.numthreads
  pub some_each : 0 < each
  pub small : whole.first + whole.span + 1 + w.numprocs + w.numthreads < u64_mod

module _ (w : Workers) (whole : Range) (each pnum tnum : ℕ) (e : IsEven w whole each) where
  per_process_even : per_process w whole pnum ≡ w.numthreads * each
  per_process_even = rw e.divides (
      share_even w.numprocs (w.numthreads * each) pnum e.some_procs
        (one-le-mul e.some_threads e.some_each) (omega (arith, e.divides, e.small)))

  per_process-le : w.numthreads * each ≤ whole.span + 1
  per_process-le = omega (
    arith,
    e.divides,
    mul-le-mul_right {m = 1} {n = w.numprocs} (w.numthreads * each) e.some_procs,
  )

  per_thread_even : per_thread w whole pnum tnum ≡ each
  per_thread_even = rw per_process_even (
      share_even w.numthreads each tnum e.some_threads e.some_each
        (omega (arith, per_process-le, e.small)))

  one_thread :
      w.numthreads ≡ 1
      → tnum < w.numthreads
      → (block_offset w whole pnum tnum ≡ (pnum * w.numthreads + tnum) * each)
        × (block_count w whole pnum tnum ≡ each)
  one_thread one t =
      let first_thread : tnum ≡ 0 = omega arith in
      ground (
        arith,
        per_process_even,
        ap (λ (t : ℕ). t * each) one,
        ap (λ (t : ℕ). t * each) first_thread,
      )

  many_threads :
      1 < w.numthreads
      → (block_offset w whole pnum tnum ≡ (pnum * w.numthreads + tnum) * each)
        × (block_count w whole pnum tnum ≡ each)
  many_threads many = ground (arith, per_process_even, per_thread_even)

  block_even :
      tnum < w.numthreads
      → (block_offset w whole pnum tnum ≡ (pnum * w.numthreads + tnum) * each)
        × (block_count w whole pnum tnum ≡ each)
  block_even t = elim (dec_lt 1 w.numthreads) [
    | yes many ↦ many_threads many
    | no few ↦ one_thread (omega (arith, e.some_threads)) t
  ]

  -- When the range divides evenly, thread `tnum` of process `pnum` gets the block of `each` values
  -- whose number is `pnum * numthreads + tnum`.
  pub split_even :
      IsValid whole
      → is_zero whole.sequential ≡ false
      → pnum < w.numprocs
      → tnum < w.numthreads
      → split w whole pnum tnum
        ≡ some (
            set_first_count
              (whole.first + (pnum * w.numthreads + tnum) * each)
              each
              whole.sequential)
  split_even v seq p t =
      let fits = block_fits w.numprocs w.numthreads each pnum tnum p t in
      let inside : (pnum * w.numthreads + tnum) * each < whole.span + 1 =
        omega (arith, e.divides, e.some_each, fits) in
      split_lem w whole pnum tnum v seq (ground (arith, block_even t, e.small, inside))
      ∙ rw ((block_even t).0, (block_even t).1, mod-eq_of_lt inside)
