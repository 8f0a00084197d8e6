-- ===== src/Client/Examples.antt =====
-- Tests of src/client.c.
use mstone.Base.{
  IsSome, ℕ, zero, suc, ◌+◌, ◌*◌, ◌<◌, subst, ◌≤◌, ◌≡◌, refl, Bool, true, false, List, [], ◌∷◌,
  Option, none, some, pos, arith, length,
}
use mstone.Client.{Protocol, Pass, Block, Run, Act, started, looped, ended, idled, do_command}
use mstone.Client.Rule.{Ends, Aborted}
use mstone.Client.Contract.{Contract, Yields, Leaves}
use mstone.Client.Session.{Served}
use mstone.Client.Session.Order.{do_command-Served}
use mstone.Client.Weight.{chosen, total, chosen_weight}
use mstone.Client.Loop
use mstone.Client.Loop.{Turn, Thread, client_loop, fresh, client_loop-IsWithin}
use mstone.Client.Wait.{Deadlines, time_up, hang_up, Tick, Waited, wait_threads}
use mstone.Client.Wait.Ending.{Ticking, wait_threads_lem}
use mstone.Client.Wait.Patience.{Patient, wait_threads-Patient}

-- A protocol that transfers so many items and then is done. Its state is the number of items left,
-- with 1 added while it runs.
abbrev open_items : Unit {0} → ℕ → Option (Bool × ℕ)
open_items e w = some (true, 3)

abbrev transfer : Unit {0} → ℕ → Option (Bool × ℕ)
transfer e zero = some (false, 0)
transfer e (suc zero) = some (false, 1)
transfer e (suc (suc n)) = some (true, suc n)

abbrev close_items : Unit {0} → ℕ → Option ℕ
close_items e w = some 0

abbrev items : Protocol Unit ℕ
items = record { cmd_start = open_items; cmd_loop = some transfer; cmd_end = some close_items }

abbrev Running : ℕ → Type 0
Running n = 0 < n

transfer_keeps : (e : Unit {0}) (w : ℕ) → Running w → Yields Running Running (transfer e w)
transfer_keeps e zero h = h
transfer_keeps e (suc zero) h = h
transfer_keeps e (suc (suc n)) h = omega arith

same_transfer : (f : Unit {0} → ℕ → Option (Bool × ℕ)) → items.cmd_loop ≡ some f → transfer ≡ f
same_transfer f e = cc

same_close : (f : Unit {0} → ℕ → Option ℕ) → items.cmd_end ≡ some f → close_items ≡ f
same_close f e = cc

abbrev items_law : Contract items
items_law = record {
  Ready = λ w. w ≡ 0;
  Live = Running;
  Done = Running;
  has_end = λ e. absurd (cc);
  start_keeps = λ e w h. omega arith;
  loop_keeps = λ f is e w h.
      subst (λ (g : Unit {0} → ℕ → Option (Bool × ℕ)). Yields Running Running (g e w))
        (same_transfer f is) (transfer_keeps e w h);
  end_keeps = λ f is e w h.
      subst (λ (g : Unit {0} → ℕ → Option ℕ). Leaves (λ w. w ≡ 0) (g e w)) (same_close f is) refl;
}

-- a pass at some time, with a delay and a reading of `gf_timeexpired`
abbrev pass_at : ℕ → ℕ → ℕ → Pass Unit
pass_at expired time delay = record {
  expired = expired;
  env = tt;
  before = time;
  delay = pos delay;
  expired_after = expired;
  after = time + 2000;
}

abbrev block : ℕ → Block
block n = record { num_loops = n; start_delay = pos 5; startedtime = 0; block_start = 1000 }

abbrev quiet : List (Pass Unit)
quiet =
    pass_at 0 1000 0
    ∷ pass_at 0 3000 10
    ∷ pass_at 0 9000 0
    ∷ pass_at 0 9000 0
    ∷ pass_at 0 9000 0
    ∷ []

abbrev acts_of : Option (Run ℕ) → Option (List Act)
acts_of none = none
acts_of (some r) = some r.acts

-- The third call of the loop finds nothing left, and the end is called.
items_run :
    acts_of (do_command items (block 9) quiet (pos 20) 0 11000 0 0)
    ≡ some (started ∷ looped ∷ idled 8 ∷ looped ∷ looped ∷ ended ∷ idled 10 ∷ [])
unfolding do_command
items_run = refl

-- At most `numLoops` calls are made, and `EXIT_SOON` leads to the end at once.
items_limited :
    acts_of (do_command items (block 1) quiet (pos 0) 0 0 0 0)
    ≡ some (started ∷ looped ∷ idled 8 ∷ ended ∷ [])
unfolding do_command
items_limited = refl

items_stopped :
    acts_of (do_command items (block 9) (pass_at 0 1000 0 ∷ pass_at 1 3000 10 ∷ []) (pos 0) 0 0 0 0)
    ≡ some (started ∷ ended ∷ [])
unfolding do_command
items_stopped = refl

do_command-Served_example :
    Ends
      (Served items items_law (block 9) (Aborted quiet))
      (do_command items (block 9) quiet (pos 20) 0 11000 0 0)
do_command-Served_example =
    do_command-Served items items_law (block 9) quiet (pos 20) 0 11000 0 0 refl

abbrev weights : List ℕ
weights = 10 ∷ 0 ∷ 5 ∷ []

chosen_weight_example : chosen weights 2 (total weights) ≡ 5
chosen_weight_example = chosen_weight weights 2 5 refl

abbrev turns : List Turn
turns =
    record { expired = 0; random = 3; expired_after = 0 }
    ∷ record { expired = 0; random = 12; expired_after = 0 }
    ∷ record { expired = 0; random = 4; expired_after = 0 }
    ∷ []

abbrev noted : ℕ → List ℕ → Option (List ℕ)
noted i w = some (i ∷ w)

client_loop-IsWithin_example :
    Loop.Leaves weights 2 noted (client_loop weights 2 noted turns (fresh []))
    × (((i : ℕ) (v : List ℕ) → IsSome (noted i v))
        → 0 < 2
        → 2 ≤ length turns
        → IsSome (client_loop weights 2 noted turns (fresh [])))
client_loop-IsWithin_example = client_loop-IsWithin weights 2 noted turns [] (omega arith)

abbrev deadlines : Deadlines
deadlines = record { timeexpired = 47; shutdowntime = 10; bailtime = 10; aborttime = 20 }

abbrev tick : ℕ → Tick
tick n = record { interrupts = []; now = n; running = true }

abbrev ticks : List Tick
ticks = tick 11 ∷ tick 12 ∷ tick 13 ∷ tick 14 ∷ tick 15 ∷ tick 16 ∷ tick 17 ∷ []

-- a hang-up before the second look
abbrev hung_up : List Tick
hung_up =
    tick 11
    ∷ record { interrupts = time_up ∷ hang_up 12 ∷ []; now = 12; running = true }
    ∷ tick 13
    ∷ tick 14
    ∷ tick 15
    ∷ tick 16
    ∷ tick 17
    ∷ []

hung_up_in_order : Ticking 10 hung_up
hung_up_in_order = ground arith

wait_threads_lem_example : IsSome (wait_threads 1 hung_up deadlines 0)
wait_threads_lem_example = wait_threads_lem 1 10 hung_up deadlines hung_up_in_order (omega arith)

wait_threads-Patient_example : Patient (10 + 2 * 1) ticks (wait_threads 1 ticks deadlines 0)
wait_threads-Patient_example = wait_threads-Patient 1 2 ticks deadlines refl (ground arith)

abbrev quiet_deadlines : Deadlines
quiet_deadlines = record { timeexpired = 0; shutdowntime = 90; bailtime = 90; aborttime = 99 }

abbrev forced_of : Option Waited → Option (ℕ × Bool)
forced_of none = none
forced_of (some w) = some (w.deadlines.bailtime, w.forced)

-- Three hang-ups close the sockets at the next look.
hang_up_run :
    forced_of (
      wait_threads 1
        (record { interrupts = hang_up 11 ∷ hang_up 11 ∷ hang_up 11 ∷ []; now = 11; running = true }
          ∷ [])
        quiet_deadlines
        0)
    ≡ some (11, true)
unfolding wait_threads
hang_up_run = refl
