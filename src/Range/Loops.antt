-- ===== src/Range/Loops.antt =====
-- Remainders, and the loop of `rangeSplit`.
use native.Mathlib.Decide.{dec_lt}
use native.Mathlib.Nat.{mod-add-mod, mod-eq_of_lt, mod_self, mod-lt, mod-eq-sub-mod}
use mstone.Base.{
  ℕ, zero, suc, ◌+◌, ◌-◌, ◌%◌, ◌<◌, ◌≡◌, sym, ◌∙◌, ◌⊎◌, inl, inr, some, arith, u64_mod,
}
use mstone.Range.{fold_back}

-- Counting one further either steps the remainder or takes it back to 0.
pub mod_step :
    (k m : ℕ)
    → (((k + 1) % (m + 1) ≡ k % (m + 1) + 1) × (k % (m + 1) < m))
      ⊎ (((k + 1) % (m + 1) ≡ 0) × (k % (m + 1) ≡ m))
mod_step k m = elim (dec_lt (k % (m + 1)) m) [
  | yes h ↦ inl (sym (mod-add-mod k (m + 1) 1) ∙ mod-eq_of_lt (omega arith), h)
  | no h ↦
      let top : k % (m + 1) ≡ m = omega (arith, mod-lt k {m = m + 1} (omega arith)) in
      inr (sym (mod-add-mod k (m + 1) 1) ∙ rw top (mod_self (m + 1)), top)
]

-- Taking `step` off until the value is below `bound` leaves the remainder, and `first + 1` rounds
-- of fuel are enough.
pub fold_back_lem :
    (fuel lo step offset : ℕ)
    → 0 < step
    → lo + offset < u64_mod
    → offset < fuel
    → fold_back fuel (lo + step) step (lo + offset) ≡ some (lo + offset % step)
unfolding fold_back
fold_back_lem zero lo step offset p fits h = absurd (omega arith)
fold_back_lem (suc fuel) lo step offset p fits h = elim (dec_lt offset step) [
  | yes small ↦ ground (arith, mod-eq_of_lt small)
  | no big ↦ ground (
    arith,
    mod-eq-sub-mod {n = offset} {m = step} (omega arith),
    fold_back_lem fuel lo step (offset - step) p (omega arith) (omega arith),
  )
]
