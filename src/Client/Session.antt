-- ===== src/Client/Session.antt =====
-- src/client.c, `do_command`: what a session is, for a protocol that keeps its contract.
pub mod Passes
pub mod Order
use mstone.Base.{
  ℕ, zero, suc, ◌+◌, ◌≤◌, ◌<◌, ◌≡◌, refl, sym, ◌⊎◌, inl, inr, Bool, true, false, List, [], Option,
  none, some, arith, leb, leb→le, if_cases, true_not_false, ◌==◌, ◌∙◌, ℤ, subst,
}
use mstone.Client.{
  started, looped, ended, Run, Pass, Block, Protocol, Outcome, exit_fast, exit_soon, pass, passes,
  do_command, did, start_delayed, after_start, after_loop, after_end, first_pass, loop_pass,
  later_pass, selected, fill_block,
}
use mstone.Client.Rule.{Ends, Aborted, Keeps, passes-Ends}
use mstone.Client.Calls.{
  Phase, ready, over, serving, Reaches, did-Reaches, delayed-IsQuiet, idle_after_start-IsQuiet,
  start_delayed-IsQuiet,
}
use mstone.Client.Contract.{Contract, Yields, Leaves}

module _ {E W : Type 0} (p : Protocol E W) (law : Contract p) (b : Block) (Fast : Type 0) where
  -- The work is done only when the count is at the end.
  abbrev pub AtCount : ℕ → W → Type 0
  AtCount c w = law.Live w ⊎ (law.Done w × (c ≡ b.num_loops))

  abbrev pub AtEnd : Bool → W → Type 0
  AtEnd true w = law.Ready w ⊎ (Fast × (law.Live w ⊎ law.Done w))
  AtEnd false w = law.Ready w

  pub record Waiting (r : Run W) : Type 0 where
    pub idle_is : r.state ≡ false
    pub phase : Reaches b.num_loops r ready
    pub at : law.Ready r.world

  pub record Serving (c : ℕ) (r : Run W) : Type 0 where
    pub live_is : r.state ≡ true
    pub left : ℕ
    pub phase : Reaches b.num_loops r (serving left)
    pub enough : b.num_loops ≤ left + c
    pub low : c ≤ b.num_loops
    pub at : AtCount c r.world

  -- The phase that the count stands for.
  abbrev pub Inv : ℕ → Run W → Type 0
  Inv zero r = Waiting r
  Inv (suc c) r = Serving c r

  -- How a block ends: its calls follow the session, to the end if `cmdStart` returned a state,
  -- and the protocol is ready for the next block, except in a fast exit.
  pub record Served (r : Run W) : Type 0 where
    pub last : Phase
    pub follows : Reaches b.num_loops r last
    pub ended_is : r.state ≡ true → (last ≡ over) ⊎ Fast
    pub at : AtEnd r.state r.world

  abbrev pub Kept : Outcome W → Type 0
  Kept = Keeps Inv Served
