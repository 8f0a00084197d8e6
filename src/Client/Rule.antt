-- ===== src/Client/Rule.antt =====
-- The loop of `do_command`, src/client.c: the rule for its invariants, and the laws of a trace.
use mstone.Base.{
  ℕ, ◌+◌, ◌≤◌, ◌<◌, ◌⊎◌, inl, inr, List, [], ◌∷◌, Option, none, some, arith, leb, leb→le, if_cases,
}
use mstone.Client.{
  Run, Pass, Block, Protocol, Outcome, goes_on, leaves, hangs, exit_fast, pass, passes, after_pass,
}

-- A predicate of what a run that returns leaves.
abbrev pub Ends {ℓ} : {W : Type 0} → (Run W → Type ℓ) → Option (Run W) → Type ℓ
Ends P none = Unit
Ends P (some r) = P r

-- Some pass found that `gf_timeexpired` had reached `EXIT_FAST`.
abbrev pub Aborted : {E : Type 0} → List (Pass E) → Type 0
Aborted [] = 1 ≤ 0
Aborted (e ∷ es) = (exit_fast ≤ e.expired) ⊎ Aborted es

module _ {W : Type 0} (Inv : ℕ → Run W → Type 0) (Post : Run W → Type 0) where
  -- what a pass has to establish
  abbrev pub Keeps : Outcome W → Type 0
  Keeps (goes_on cnt r) = Inv cnt r
  Keeps (leaves r) = Post r
  Keeps hangs = Unit

  after_pass-Ends :
      (next : ℕ → Run W → Option (Run W)) (o : Outcome W)
      → ((cnt : ℕ) (r : Run W) → Inv cnt r → Ends Post (next cnt r))
      → Keeps o
      → Ends Post (after_pass next o)
  unfolding after_pass
  after_pass-Ends next (goes_on cnt r) h k = h cnt r k
  after_pass-Ends next (leaves r) h k = k
  after_pass-Ends next hangs h k = tt

  module _ {E : Type 0} (p : Protocol E W) (b : Block) (Fast : Type 0) where
    -- The loop leaves what its passes establish.
    pub passes-Ends :
        (step : (e : Pass E) (cnt : ℕ) (r : Run W)
          → (exit_fast ≤ e.expired → Fast)
          → cnt ≤ b.num_loops + 1
          → Inv cnt r
          → Keeps (pass p b e cnt r))
        (exit : (cnt : ℕ) (r : Run W) → Inv cnt r → b.num_loops + 1 < cnt → Post r)
        (es : List (Pass E)) (cnt : ℕ) (r : Run W)
        → (Aborted es → Fast)
        → Inv cnt r
        → Ends Post (passes p b es cnt r)
    unfolding passes
    passes-Ends step exit [] cnt r fast i =
        if_cases (Ends Post) (leb cnt (b.num_loops + 1)) (λ h. tt)
          (λ h. exit cnt r i (ground arith))
    passes-Ends step exit (e ∷ es) cnt r fast i =
        if_cases (Ends Post) (leb cnt (b.num_loops + 1))
          (λ h.
            after_pass-Ends (λ cnt' r'. passes p b es cnt' r') (pass p b e cnt r)
              (λ cnt' r' i'. passes-Ends step exit es cnt' r' (λ a. fast (inr a)) i')
              (step e cnt r (λ f. fast (inl f)) (leb→le cnt (b.num_loops + 1) h) i))
          (λ h. exit cnt r i (ground arith))
