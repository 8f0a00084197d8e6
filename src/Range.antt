-- ===== src/Range.antt =====
-- src/bench.c and src/bench.h: the shared numeric ranges from which logins, domains and addresses
-- are drawn. `unsigned long` arithmetic wraps at 2 ^ 64; `RANDOM()` is an argument; a failed
-- `assert` is `none`.
mod Loops
pub mod Next
pub mod Setup
pub mod Split
mod Examples
use mstone.Base.{
  ℕ, zero, suc, ◌+◌, ◌-◌, ◌*◌, ◌/◌, ◌%◌, Bool, ◌&&◌, Option, none, some, ltb, leb, ◌==◌,
  if◌then◌else◌, u64, u64_mod, ℤ, neg, is_positive, is_negative, is_zero,
}

-- `range_t`
pub record Range : Type 0 where
  pub first : ℕ
  pub last : ℕ
  pub span : ℕ
  pub sequential : ℤ

-- the two tests that close `rangeNext`
wrap : Range → ℕ → ℕ
wrap r n = let m = if ltb r.last n then r.first else n in if ltb m r.first then r.last else m

-- the random branch, with its assertion
draw : Range → ℕ → Option ℕ
draw r random =
    let n = u64 (r.first + random % u64 (r.span + 1)) in
    if leb r.first n && leb n r.last then some n else none

-- `rangeNext`
unfoldable pub next : Range → ℕ → ℕ → Option ℕ
unfolding wrap draw
next r prev random =
    if r.span == 0
    then some r.first
    else if is_positive r.sequential
    then some (wrap r (u64 (prev + 1)))
    else if is_negative r.sequential
    then some (wrap r (u64 (prev + u64_mod - 1)))
    else elim (draw r random) [ none ↦ none | some n ↦ some (wrap r n) ]

-- `rangeSetFirstLast`
pub set_first_last : ℕ → ℕ → ℤ → Range
set_first_last first last dir =
    if ltb first last
    then record {
      first = first;
      last = last;
      span = u64 (last + u64_mod - first);
      sequential = dir;
    }
    else record {
      first = last;
      last = first;
      span = u64 (first + u64_mod - last);
      sequential = neg dir;
    }

-- `rangeSetFirstCount`
pub set_first_count : ℕ → ℕ → ℤ → Range
set_first_count first num dir =
    let n = if ltb 0 num then num - 1 else num in
    record { first = first; span = n; last = u64 (first + n); sequential = dir }

-- `gn_numprocs` and `gn_numthreads`
pub record Workers : Type 0 where
  pub numprocs : ℕ
  pub numthreads : ℕ

-- `if (n <= 0) n = 1`
at_least_one : ℕ → ℕ
at_least_one n = if n == 0 then 1 else n

-- The share of one of `parts` workers: number 0 rounds up, all others round down.
pub share : ℕ → ℕ → ℕ → ℕ
unfolding at_least_one
share total parts index =
    at_least_one (if ltb 0 index then total / parts else u64 (total + parts + u64_mod - 1) / parts)

-- `while (first >= bound) first -= step;`, on fuel; `none` when the fuel runs out
pub fold_back : ℕ → ℕ → ℕ → ℕ → Option ℕ
fold_back zero bound step first = none
fold_back (suc fuel) bound step first =
    let rest = fold_back fuel bound step (u64 (first + u64_mod - step)) in
    if leb bound first then rest else some first

-- The wrapping of a worker's start, and the assertion behind it. Every round of the loop takes a
-- positive step off `first`, so `first + 1` rounds of fuel are enough.
place : Range → ℕ → ℕ → Option Range
place whole first count =
    elim (fold_back (first + 1) (u64 (whole.first + whole.span + 1)) (u64 (whole.span + 1)) first) [
      | none ↦ none
      | some start ↦
          if leb whole.first start
          then some (set_first_count start count whole.sequential)
          else none
    ]

-- `rangeSplit`, the share of thread `tnum` of process `pnum`
pub split : Workers → Range → ℕ → ℕ → Option Range
split w whole pnum tnum =
    let perproc = share (u64 (whole.span + 1)) w.numprocs pnum in
    let perthread = share perproc w.numthreads tnum in
    let base = u64 (whole.first + u64 (perproc * pnum)) in
    if is_zero whole.sequential
    then some whole
    else if ltb 1 w.numthreads
    then place whole (u64 (base + u64 (perthread * tnum))) perthread
    else place whole base perproc
