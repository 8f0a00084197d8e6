-- ===== src/Client/Returns.antt =====
-- src/client.c: the loop of `do_command` ends.
use mstone.Base.{
  IsSome, ℕ, zero, suc, ◌+◌, ◌≤◌, ◌<◌, ◌≡◌, ◌≢◌, refl, Bool, true, false, List, [], ◌∷◌, Option,
  none, some, arith, leb, leb→le, if_cases, ◌==◌, ℤ, length,
}
use mstone.Client.{
  Run, Pass, Block, Protocol, Outcome, goes_on, leaves, hangs, exit_fast, exit_soon, pass, passes,
  after_pass, do_command, after_start, after_loop, after_end, first_pass, loop_pass, later_pass,
  selected, fill_block, start_delayed,
}

-- Every call of the protocol comes back when the environment is good to it, whatever the state.
pub record Responds {E W : Type 0} (p : Protocol E W) (Good : E → Type 0) : Type 0 where
  pub start : (e : E) → Good e → (w : W) → IsSome (p.cmd_start e w)
  pub loop :
      (f : E → W → Option (Bool × W))
      → p.cmd_loop ≡ some f
      → (e : E) → Good e
      → (w : W) → IsSome (f e w)
  pub end :
      (f : E → W → Option W) → p.cmd_end ≡ some f → (e : E) → Good e → (w : W) → IsSome (f e w)
  pub has_end : p.cmd_end ≢ none

-- The environment is good to the call of every pass.
abbrev pub Each : {E : Type 0} → (E → Type 0) → List (Pass E) → Type 0
Each Good [] = Unit
Each Good (e ∷ es) = Good e.env × Each Good es

-- The pass leaves the loop or raises the count.
abbrev Onward : {W : Type 0} → ℕ → Outcome W → Type 0
Onward cnt (goes_on cnt' r) = cnt < cnt'
Onward cnt (leaves r) = Unit
Onward cnt hangs = 1 ≤ 0

module _ {E W : Type 0} (p : Protocol E W) (Good : E → Type 0) (live : Responds p Good)
    (b : Block) where
  after_start-Onward :
      (e : Pass E) (r : Run W) (o : Option (Bool × W)) → IsSome o → Onward 0 (after_start e r o)
  unfolding after_start
  after_start-Onward e r none h = h
  after_start-Onward e r (some (true, w)) h = omega arith
  after_start-Onward e r (some (false, w)) h = tt

  after_loop-Onward :
      (e : Pass E) (r : Run W) (c : ℕ) (o : Option (Bool × W))
      → c < b.num_loops
      → IsSome o
      → Onward (suc c) (after_loop b e (suc c) r o)
  unfolding after_loop
  after_loop-Onward e r c none less h = h
  after_loop-Onward e r c (some (true, w)) less h = omega arith
  after_loop-Onward e r c (some (false, w)) less h = omega (arith, less)

  loop_pass-Onward :
      (loop : Option (E → W → Option (Bool × W)))
      → p.cmd_loop ≡ loop
      → (e : Pass E) → Good e.env
      → (r : Run W) (c : ℕ) → c < b.num_loops
      → Onward (suc c) (loop_pass loop b e (suc c) r)
  unfolding loop_pass
  loop_pass-Onward none is e g r c less = omega arith
  loop_pass-Onward (some f) is e g r c less =
      after_loop-Onward e r c (f e.env r.world) less (live.loop f is e.env g r.world)

  after_end-Onward : (cnt : ℕ) (r : Run W) (o : Option W) → IsSome o → Onward cnt (after_end r o)
  unfolding after_end
  after_end-Onward cnt r none h = h
  after_end-Onward cnt r (some w) h = tt

  later_pass-Onward :
      (end : Option (E → W → Option W))
      → p.cmd_end ≡ end
      → (e : Pass E) → Good e.env
      → (r : Run W) (c : ℕ) → c ≤ b.num_loops
      → Onward (suc c) (later_pass end p.cmd_loop b e (suc c) r)
  unfolding later_pass
  later_pass-Onward none is e g r c le = absurd (live.has_end is)
  later_pass-Onward (some end) is e g r c le =
      if_cases (Onward (suc c)) (suc c == b.num_loops + 1)
        (λ last. after_end-Onward (suc c) r (end e.env r.world) (live.end end is e.env g r.world))
        (λ more. loop_pass-Onward p.cmd_loop refl e g r c (ground (arith, le)))

  selected-Onward :
      (e : Pass E)
      → Good e.env
      → (cnt : ℕ) (r : Run W) → cnt ≤ suc b.num_loops
      → Onward cnt (selected p b e cnt r)
  unfolding selected first_pass
  selected-Onward e g zero r le =
      let r' = start_delayed b.start_delay b.startedtime r in
      after_start-Onward e (record r' { totalcommands = r'.totalcommands + 1 })
        (p.cmd_start e.env r'.world) (live.start e.env g r'.world)
  selected-Onward e g (suc c) r le = later_pass-Onward p.cmd_end refl e g r c (omega (arith, le))

  Onward-weaken : (c c' : ℕ) (o : Outcome W) → c ≤ c' → Onward c' o → Onward c o
  Onward-weaken c c' (goes_on cnt r) le h = omega (arith, le, h)
  Onward-weaken c c' (leaves r) le h = tt
  Onward-weaken c c' hangs le h = h

  pass-Onward :
      (e : Pass E)
      → Good e.env
      → (cnt : ℕ) (r : Run W) → cnt ≤ suc b.num_loops
      → Onward cnt (pass p b e cnt r)
  unfolding pass
  pass-Onward e g cnt r le =
      if_cases (Onward cnt) (leb exit_fast e.expired) (λ h. tt)
        (λ h.
          if_cases (Onward cnt) (leb exit_soon e.expired)
            (λ soon.
              if_cases (Onward cnt) r.state
                (λ live.
                  Onward-weaken cnt (suc b.num_loops) (selected p b e (suc b.num_loops) r) le
                    (selected-Onward e g (suc b.num_loops) r (omega arith)))
                (λ idle. tt))
            (λ early. selected-Onward e g cnt r le))

  after_pass-IsSome :
      (cnt : ℕ) (next : ℕ → Run W → Option (Run W)) (o : Outcome W)
      → ((cnt' : ℕ) (r : Run W) → cnt < cnt' → IsSome (next cnt' r))
      → Onward cnt o
      → IsSome (after_pass next o)
  unfolding after_pass
  after_pass-IsSome cnt next (goes_on cnt' r) h k = h cnt' r k
  after_pass-IsSome cnt next (leaves r) h k = tt
  after_pass-IsSome cnt next hangs h k = k

  passes-IsSome :
      (es : List (Pass E))
      → Each Good es
      → (cnt : ℕ) (r : Run W) → b.num_loops + 2 ≤ cnt + length es
      → IsSome (passes p b es cnt r)
  unfolding passes
  passes-IsSome [] good cnt r h =
      if_cases IsSome (leb cnt (b.num_loops + 1))
        (λ le. absurd (omega (arith, h, leb→le cnt (b.num_loops + 1) le))) (λ gt. tt)
  passes-IsSome (e ∷ es) (g, good) cnt r h =
      if_cases IsSome (leb cnt (b.num_loops + 1))
        (λ le.
          after_pass-IsSome cnt (λ cnt' r'. passes p b es cnt' r') (pass p b e cnt r)
            (λ cnt' r' lt. passes-IsSome es good cnt' r' (omega (arith, h, lt)))
            (pass-Onward e g cnt r (omega (arith, leb→le cnt (b.num_loops + 1) le))))
        (λ gt. tt)

fill_block-IsSome :
    {W : Type 0} (delay : ℤ) (x now : ℕ) (o : Option (Run W))
    → IsSome o
    → IsSome (fill_block delay x now o)
unfolding fill_block
fill_block-IsSome delay x now none h = h
fill_block-IsSome delay x now (some r) h = tt

-- On a protocol that has a `cmdEnd`, and whose calls come back when the environment is good to
-- them, a command block with no negative `numLoops`, to which it is good in every pass, comes back
-- within `numLoops + 2` passes of its loop.
pub do_command-IsSome :
    {E W : Type 0} (p : Protocol E W) (Good : E → Type 0)
    → Responds p Good
    → (b : Block) (es : List (Pass E)) (delay : ℤ) (x now total : ℕ) (w : W) → Each Good es
    → b.num_loops + 2 ≤ length es
    → IsSome (do_command p b es delay x now total w)
unfolding do_command
do_command-IsSome {E} {W} p Good live b es delay x now total w good h =
    let first : Run W = record {
      state = false;
      block_start = b.block_start;
      totalcommands = total;
      world = w;
      acts = [];
    } in
    fill_block-IsSome delay x now (passes p b es 0 first)
      (passes-IsSome p Good live b es good 0 first (omega (arith, h)))
