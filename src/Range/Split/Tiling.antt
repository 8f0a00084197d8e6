-- ===== src/Range/Split/Tiling.antt =====
-- An evenly divided range is tiled by its workers' blocks.
use native.Mathlib.Nat.{
  mod-lt, div-lt_iff_lt-mul, div-mul-le_self, lt-div-mul-add, div-add-mod', div-eq_of_lt-le,
}
use mstone.Base.{
  ℕ, ◌+◌, ◌-◌, ◌*◌, ◌/◌, ◌%◌, ◌≤◌, ◌<◌, ◌≡◌, ◌↔◌, sym, ap, ◌∙◌, Option, none, some, false, arith,
  u64_mod, is_zero, ℤ,
}
use mstone.Range.{Range, Workers, split, set_first_count}
use mstone.Range.Next.{IsValid}
use mstone.Range.Split.Even.{IsEven, block_fits, split_even}

-- `value` lies in what the call returned.
abbrev pub Holds : Option Range → ℕ → Type 0
Holds none value = ⊥
Holds (some sub) value = (sub.first ≤ value) × (value ≤ sub.last)

-- A block holds the values from its first on, `each` of them.
pub set_first_count-Holds :
    (first each value : ℕ) (dir : ℤ)
    → 0 < each
    → first + each < u64_mod
    → Holds (some (set_first_count first each dir)) value
      ↔ ((first ≤ value) × (value < first + each))
unfolding set_first_count
set_first_count-Holds first each value dir p fits = ground arith

module _ (w : Workers) (whole : Range) (each : ℕ) (e : IsEven w whole each) (v : IsValid whole)
    (seq : is_zero whole.sequential ≡ false) where
  abbrev start : ℕ → ℕ → ℕ
  start pnum tnum = whole.first + (pnum * w.numthreads + tnum) * each

  split-Holds :
      (pnum tnum value : ℕ)
      → pnum < w.numprocs
      → tnum < w.numthreads
      → Holds (split w whole pnum tnum) value
        ↔ ((start pnum tnum ≤ value) × (value < start pnum tnum + each))
  split-Holds pnum tnum value p t = rw (split_even w whole each pnum tnum e v seq p t) (
      set_first_count-Holds (start pnum tnum) each value whole.sequential e.some_each
        (omega (arith, e.divides, e.small, block_fits w.numprocs w.numthreads each pnum tnum p t)))

  -- When a sequential range divides evenly among processes and threads, without wrap-around, every
  -- value of it is in the block of some worker.
  pub split_covers :
      (value : ℕ)
      → whole.first ≤ value
      → value ≤ whole.last
      → (pnum : ℕ) × (tnum : ℕ) × (pnum < w.numprocs)
        × (tnum < w.numthreads)
        × Holds (split w whole pnum tnum) value
  split_covers value lo hi =
      let block = (value - whole.first) / each in
      let p : block / w.numthreads < w.numprocs =
        (div-lt_iff_lt-mul e.some_threads).1
          ((div-lt_iff_lt-mul e.some_each).1 (omega (arith, e.divides, v.ends))) in
      let t : block % w.numthreads < w.numthreads = mod-lt block e.some_threads in
      let number : block / w.numthreads * w.numthreads + block % w.numthreads ≡ block =
        div-add-mod' block w.numthreads in
      let below : block * each ≤ value - whole.first = div-mul-le_self (value - whole.first) each in
      let above : value - whole.first < block * each + each = lt-div-mul-add e.some_each in
      (
        block / w.numthreads,
        block % w.numthreads,
        p,
        t,
        (split-Holds _ _ value p t).1 (rw number (omega arith, omega arith)),
      )

  block_number :
      (pnum tnum value : ℕ)
      → pnum < w.numprocs
      → tnum < w.numthreads
      → Holds (split w whole pnum tnum) value
      → (value - whole.first) / each ≡ pnum * w.numthreads + tnum
  block_number pnum tnum value p t h =
      let (below, above) = (split-Holds pnum tnum value p t).0 h in
      div-eq_of_lt-le each (omega arith) (omega arith)

  -- When a sequential range divides evenly among processes and threads, without wrap-around, no value
  -- is in the blocks of two workers.
  pub split_disjoint :
      (pnum tnum pnum' tnum' value : ℕ)
      → pnum < w.numprocs
      → tnum < w.numthreads
      → pnum' < w.numprocs
      → tnum' < w.numthreads
      → Holds (split w whole pnum tnum) value
      → Holds (split w whole pnum' tnum') value
      → (pnum ≡ pnum') × (tnum ≡ tnum')
  split_disjoint pnum tnum pnum' tnum' value p t p' t' h h' =
      let same : pnum * w.numthreads + tnum ≡ pnum' * w.numthreads + tnum' =
        sym (block_number pnum tnum value p t h) ∙ block_number pnum' tnum' value p' t' h' in
      let row : pnum ≡ pnum' =
        sym (div-eq_of_lt-le w.numthreads (omega arith) (omega arith))
        ∙ div-eq_of_lt-le w.numthreads {m = pnum * w.numthreads + tnum} (omega arith)
            (omega arith) in
      (row, omega (arith, same, ap (λ (n : ℕ). n * w.numthreads) row))
