-- ===== src/Client/Weight.antt =====
-- src/client.c, `clientLoop`: the choice of a command block by weight, and the loop over blocks.
-- Weights are not negative and the counts stay below 2 ^ 31.
use mstone.Base.{
  ℕ, zero, suc, ◌+◌, ◌-◌, ◌≤◌, ◌<◌, ◌≡◌, ◌↔◌, ◌≢◌, refl, ap, inl, inr, Bool, true, false, ◌%◌, List,
  [], ◌∷◌, Option, none, some, arith, ltb, ltb→lt, true_not_false, if_cases, if◌then◌else◌, ◌==◌,
  length, take, get_elem?, min, Bool-cases,
}
use native.Mathlib.Decide.{dec_lt}
use native.Mathlib.Nat.{mod-lt}

-- the sum of the weights, `gn_total_weight`
abbrev pub total : List ℕ → ℕ
total [] = 0
total (w ∷ ws) = w + total ws

next_index : Option ℕ → Option ℕ
next_index none = none
next_index (some i) = some (suc i)

-- `while (ran_number >= 0) ran_number -= weight`: the index of the weight that makes the number
-- negative. Past the end of the list the loop reads what is not there, which is `none`.
pub weighted : List ℕ → ℕ → Option ℕ
unfolding next_index
weighted [] ran_number = none
weighted (w ∷ ws) ran_number =
    let later = next_index (weighted ws (ran_number - w)) in
    if ltb ran_number w then some 0 else later

-- the block to run: the only one, or a choice by a random number
pub choose : List ℕ → ℕ → Option ℕ
unfolding weighted
choose weights random =
    if ltb 1 (length weights) then weighted weights (random % total weights) else some 0

-- The index is right: its weight covers the number, when those of all before are taken off.
abbrev Covers : List ℕ → ℕ → ℕ → Type 0
Covers ws ran i = (total (take i ws) ≤ ran) × (ran < total (take (suc i) ws))

next_index-some : (o : Option ℕ) (i : ℕ) → (next_index o ≡ some (suc i)) ↔ (o ≡ some i)
unfolding next_index
next_index-some none i = (λ e. absurd (cc), λ e. absurd (cc))
next_index-some (some j) i = (λ e. ground arith, λ e. ground arith)

next_index_zero : (o : Option ℕ) → next_index o ≢ some 0
unfolding next_index
next_index_zero none e = absurd (cc)
next_index_zero (some j) e = absurd (ground arith)

weighted_iff :
    (ws : List ℕ) (ran i : ℕ) → (weighted ws ran ≡ some i) ↔ ((i < length ws) × Covers ws ran i)
unfolding weighted
weighted_iff [] ran i = (λ e. absurd (cc), λ h. absurd (omega (arith, h.0)))
weighted_iff (w ∷ ws) ran zero =
    if_cases (λ (o : Option ℕ). (o ≡ some 0) ↔ ((0 < length (w ∷ ws)) × Covers (w ∷ ws) ran 0))
      (ltb ran w)
      (λ lt. (λ e. (omega arith, (omega arith, omega (arith, ltb→lt ran w lt))), λ h. refl))
      (λ ge. (
        λ e. absurd (next_index_zero (weighted ws (ran - w)) e),
        λ h. absurd (ground (arith, h.1)),
      ))
weighted_iff (w ∷ ws) ran (suc i) =
    let ih = weighted_iff ws (ran - w) i in
    if_cases
      (λ (o : Option ℕ).
        (o ≡ some (suc i)) ↔ ((suc i < length (w ∷ ws)) × Covers (w ∷ ws) ran (suc i)))
      (ltb ran w) (λ lt. (λ e. absurd (cc), λ h. absurd (omega (arith, ltb→lt ran w lt, h.1.0))))
      (λ ge.
        let le : w ≤ ran = ground arith in
        (
          λ e.
              let h = ih.0 ((next_index-some (weighted ws (ran - w)) i).0 e) in
              (omega (arith, h.0), (omega (arith, h.1.0, le), omega (arith, h.1.1, le))),
          λ h.
              (next_index-some (weighted ws (ran - w)) i).1
                (ih.1 (omega (arith, h.0), (omega (arith, h.1.0, le), omega (arith, h.1.1, le)))),
        ))

weighted-some : (ws : List ℕ) (ran : ℕ) → ran < total ws → (i : ℕ) × (weighted ws ran ≡ some i)
unfolding weighted next_index
weighted-some [] ran h = absurd (omega (arith, h))
weighted-some (w ∷ ws) ran h =
    if_cases (λ (o : Option ℕ). (i : ℕ) × (o ≡ some i)) (ltb ran w) (λ lt. (0, refl))
      (λ ge.
        let (i, e) = weighted-some ws (ran - w) (ground (arith, h)) in (suc i, ap next_index e))

index_is : Option ℕ → ℕ → Bool
index_is none i = false
index_is (some j) i = j == i

-- How many of the numbers below `n` choose the block `i`.
pub chosen : List ℕ → ℕ → ℕ → ℕ
unfolding index_is
chosen ws i zero = 0
chosen ws i (suc n) = (if index_is (weighted ws n) i then 1 else 0) + chosen ws i n

index_is_iff : (o : Option ℕ) (i : ℕ) → (index_is o i ≡ true) ↔ (o ≡ some i)
unfolding index_is
index_is_iff none i = (λ e. absurd (cc), λ e. absurd (cc))
index_is_iff (some j) i = (λ e. ground arith, λ e. ground arith)

take_mono : (ws : List ℕ) (i : ℕ) → total (take i ws) ≤ total (take (suc i) ws)
take_mono [] zero = omega arith
take_mono [] (suc i) = omega arith
take_mono (w ∷ ws) zero = omega arith
take_mono (w ∷ ws) (suc i) = omega (arith, take_mono ws i)

-- a number outside the stretch from `a` to `b`
chosen_other :
    (n c a b : ℕ)
    → c + min n a ≡ min n b
    → a ≤ b
    → (a ≤ n → n < b → 1 ≤ 0)
    → 0 + c + min (suc n) a ≡ min (suc n) b
chosen_other n c a b e le out = elim (dec_lt n a) [
  | yes lt ↦ omega (arith, e, le, lt)
  | no ge ↦ elim (dec_lt n b) [
    | yes lt ↦ absurd (omega (arith, out (omega (arith, ge)) lt))
    | no big ↦ omega (arith, e, ge, big)
  ]
]

chosen_between :
    (ws : List ℕ) (i n : ℕ)
    → i < length ws
    → chosen ws i n + min n (total (take i ws)) ≡ min n (total (take (suc i) ws))
unfolding chosen
chosen_between ws i zero h = ground arith
chosen_between ws i (suc n) h =
    let ih = chosen_between ws i n h in
    let w = weighted_iff ws n i in
    let t = index_is_iff (weighted ws n) i in
    elim (Bool-cases (index_is (weighted ws n) i)) [
      | inl this ↦ let c = (w.0 (t.0 this)).1 in rw this (omega (arith, ih, c.0, c.1))
      | inr other ↦ rw other (
          chosen_other n (chosen ws i n) (total (take i ws)) (total (take (suc i) ws)) ih
            (take_mono ws i)
            λ le lt.
              absurd (true_not_false (index_is (weighted ws n) i) (t.1 (w.1 (h, (le, lt)))) other))
    ]

total-take : (ws : List ℕ) (i : ℕ) → total (take i ws) ≤ total ws
total-take ws zero = omega arith
total-take [] (suc i) = omega arith
total-take (w ∷ ws) (suc i) = omega (arith, total-take ws i)

total-take-suc :
    (ws : List ℕ) (i w : ℕ)
    → get_elem? ws i ≡ some w
    → (i < length ws) × (total (take (suc i) ws) ≡ total (take i ws) + w)
total-take-suc [] i w e = absurd (cc)
total-take-suc (v ∷ ws) zero w e = (omega arith, ground arith)
total-take-suc (v ∷ ws) (suc i) w e =
    let ih = total-take-suc ws i w e in (omega (arith, ih.0), omega (arith, ih.1))

-- Of the numbers below the total weight, as many choose a block as its weight.
pub chosen_weight :
    (weights : List ℕ) (i w : ℕ)
    → get_elem? weights i ≡ some w
    → chosen weights i (total weights) ≡ w
chosen_weight weights i w e =
    let s = total-take-suc weights i w e in
    omega (
      arith,
      chosen_between weights i (total weights) s.0,
      s.1,
      total-take weights i,
      total-take weights (suc i),
    )

weighted_in : (ws : List ℕ) (ran i : ℕ) → weighted ws ran ≡ some i → i < length ws
weighted_in ws ran i e = ((weighted_iff ws ran i).0 e).0

length_positive : (ws : List ℕ) → 0 < total ws → 0 < length ws
length_positive [] h = absurd (omega (arith, h))
length_positive (w ∷ ws) h = omega arith

-- With a total weight above 0 the choice never reads past the list of blocks: its
-- result is the index of one.
pub choose-length :
    (weights : List ℕ) (random : ℕ)
    → 0 < total weights
    → (i : ℕ) × (choose weights random ≡ some i) × (i < length weights)
unfolding choose
choose-length weights random positive =
    if_cases (λ (o : Option ℕ). (i : ℕ) × (o ≡ some i) × (i < length weights))
      (ltb 1 (length weights))
      (λ many.
        let (i, e) = weighted-some weights (random % total weights) (mod-lt random positive) in
        (i, e, weighted_in weights (random % total weights) i e))
      (λ one. (0, refl, length_positive weights positive))
