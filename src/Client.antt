-- ===== src/Client.antt =====
-- src/client.c: how a thread runs a command block, on any protocol. A protocol is the record of the
-- functions that it registers. What another thread or a signal may change, the clock, and the
-- samples of the delays are read from a script with one `Pass` for each pass of the loop.
pub mod Rule
pub mod Calls
pub mod Contract
pub mod Weight
pub mod Loop
pub mod Wait
mod Examples
pub mod Session
pub mod Returns
use mstone.Base.{
  ℕ, zero, suc, ◌+◌, ◌-◌, ◌*◌, ◌/◌, Bool, true, false, List, [], ◌∷◌, ◌++◌, Option, none, some, ltb,
  leb, ◌==◌, if◌then◌else◌, ℤ, pos, negsuc,
}
use mstone.Timer.{exit_fast}

-- `EXIT_SOON`
abbrev pub exit_soon : ℕ
exit_soon = 1

-- The functions of a protocol that a command block calls: `E` is what the environment adds to a
-- call, `W` is the state that the calls work on. A call that does not return gives `none`. The
-- result tells whether `cmdStart` returned a state, or whether `cmdLoop` returned 0 or more.
pub record Protocol (E W : Type 0) : Type 0 where
  pub cmd_start : E → W → Option (Bool × W)
  pub cmd_loop : Option (E → W → Option (Bool × W))
  pub cmd_end : Option (E → W → Option W)

-- What a pass finds: `gf_timeexpired` at its start, the environment of the call, the time before
-- the call, the sample of the delay, and `gf_timeexpired` and the time after the call. Times are
-- in microseconds, delays in milliseconds. The code reads `gf_timeexpired` twice at the start; as
-- it never decreases, two readings lead where the first of them or a lower one does.
pub record Pass (E : Type 0) : Type 0 where
  pub expired : ℕ
  pub env : E
  pub before : ℕ
  pub delay : ℤ
  pub expired_after : ℕ
  pub after : ℕ

-- What a block does, in order: the calls of the protocol, `MS_idle` for some milliseconds, and the
-- same between `event_start` and `event_stop` of the `idle` timer.
pub data Act : Type 0 where
  started looped ended : Act
  waited idled : ℕ → Act

-- The variables of `do_command`: whether `state` is set, `block_start`, the `totalcommands` of the
-- block, what the protocol works on, and what has been done so far.
pub record Run (W : Type 0) : Type 0 where
  pub state : Bool
  pub block_start : ℕ
  pub totalcommands : ℕ
  pub world : W
  pub acts : List Act

-- The parts of a block that are fixed before the loop: `numLoops`, the sample of the start delay,
-- `gt_startedtime` in seconds, and `block_start`. A negative `numLoops`, with which `cmdEnd` is never
-- reached, is left out.
pub record Block : Type 0 where
  pub num_loops : ℕ
  pub start_delay : ℤ
  pub startedtime : ℕ
  pub block_start : ℕ

-- `tot_delay` with a positive delay and `min_delay` 0. The conversion to `int` rounds towards 0.
pub tot_delay : ℕ → ℕ → ℕ → ℕ
tot_delay delay start_time now_time =
    (delay + (start_time - now_time) / 1000) - (now_time - start_time) / 1000

pub did : {W : Type 0} → Act → Run W → Run W
did a r = record r { acts = r.acts ++ (a ∷ []) }

-- `if (delay > 0) { event_start; MS_idle; event_stop }`
pub idle_for : {W : Type 0} → ℕ → Run W → Run W
unfolding did
idle_for zero r = r
idle_for (suc n) r = did (idled (suc n)) r

-- the delay behind a loop or a block: `delay > 0 && gf_timeexpired < EXIT_SOON`
pub delayed : {W : Type 0} → ℤ → ℕ → ℕ → ℕ → Run W → Run W
unfolding tot_delay idle_for
delayed (pos zero) expired start_time now_time r = r
delayed (pos (suc n)) expired start_time now_time r =
    if ltb expired exit_soon then idle_for (tot_delay (suc n) start_time now_time) r else r
delayed (negsuc n) expired start_time now_time r = r

-- the idle time behind the start, reduced by the time that the block has taken
pub idle_left : ℤ → ℕ → ℕ → ℕ
idle_left (pos zero) start_time now_time = 0
idle_left (pos (suc n)) start_time now_time = (suc n * 1000 + start_time - now_time) / 1000
idle_left (negsuc n) start_time now_time = (start_time - now_time - (n + 1) * 1000) / 1000

pub idle_after_start : {W : Type 0} → ℤ → ℕ → ℕ → Run W → Run W
unfolding idle_left idle_for
idle_after_start delay expired now_time r =
    if ltb expired exit_soon then idle_for (idle_left delay r.block_start now_time) r else r

-- the wait before the start: up to `real_start`, in microseconds, if that is still to come
pub wait_until : {W : Type 0} → ℕ → Run W → Run W
unfolding did
wait_until real_start r =
    if ltb r.block_start real_start
    then record (did (waited ((real_start - r.block_start) / 1000)) r) { block_start = real_start }
    else r

pub start_delayed : {W : Type 0} → ℤ → ℕ → Run W → Run W
unfolding wait_until
start_delayed (pos zero) startedtime r = r
start_delayed (pos (suc n)) startedtime r = wait_until ((startedtime + suc n / 1000) * 1000000) r
start_delayed (negsuc n) startedtime r = r

-- How a pass ends: the loop goes on with the next count, or it is left.
pub data Outcome (W : Type 0) : Type 0 where
  goes_on : ℕ → Run W → Outcome W
  leaves : Run W → Outcome W
  hangs : Outcome W

-- what `cmdEnd` left
pub after_end : {W : Type 0} → Run W → Option W → Outcome W
unfolding did
after_end r none = hangs
after_end r (some w) = leaves (did ended (record r { world = w }))

pub after_pass : {W : Type 0} → (ℕ → Run W → Option (Run W)) → Outcome W → Option (Run W)
after_pass next (goes_on cnt r) = next cnt r
after_pass next (leaves r) = some r
after_pass next hangs = none

-- the delay that fills up the block: its sample, then `gf_timeexpired` and the time
pub fill_block : {W : Type 0} → ℤ → ℕ → ℕ → Option (Run W) → Option (Run W)
unfolding delayed
fill_block delay expired now_time none = none
fill_block delay expired now_time (some r) = some (delayed delay expired r.block_start now_time r)

module _ {E W : Type 0} where
  -- what `cmdStart` returned
  pub after_start : Pass E → Run W → Option (Bool × W) → Outcome W
  unfolding did idle_after_start
  after_start p r none = hangs
  after_start p r (some (true, w)) = goes_on 1 (
      idle_after_start p.delay p.expired_after p.after
        (did started (record r { state = true; world = w })))
  after_start p r (some (false, w)) = leaves (did started (record r { state = false; world = w }))

  -- what `cmdLoop` returned: `cnt = cntEnd - 1` on an error, then the delay and `cnt++`
  pub after_loop : Block → Pass E → ℕ → Run W → Option (Bool × W) → Outcome W
  unfolding did delayed
  after_loop b p cnt r none = hangs
  after_loop b p cnt r (some (ok, w)) =
      goes_on (if ok then suc cnt else suc b.num_loops)
        (delayed p.delay p.expired_after p.before p.after (did looped (record r { world = w })))

  pub first_pass : Protocol E W → Block → Pass E → Run W → Outcome W
  unfolding start_delayed after_start
  first_pass p b e r =
      let r' = start_delayed b.start_delay b.startedtime r in
      after_start e (record r' { totalcommands = r'.totalcommands + 1 })
        (p.cmd_start e.env r'.world)

  -- `if (comm->proto->cmdLoop)`
  pub loop_pass : Option (E → W → Option (Bool × W)) → Block → Pass E → ℕ → Run W → Outcome W
  unfolding after_loop
  loop_pass none b e cnt r = goes_on (suc cnt) r
  loop_pass (some loop) b e cnt r = after_loop b e cnt r (loop e.env r.world)

  -- `if ((cntEnd == cnt) && comm->proto->cmdEnd)`
  pub later_pass :
      Option (E → W → Option W)
      → Option (E → W → Option (Bool × W))
      → Block
      → Pass E
      → ℕ
      → Run W
      → Outcome W
  unfolding after_end loop_pass
  later_pass none loop b e cnt r = loop_pass loop b e cnt r
  later_pass (some end) loop b e cnt r =
      if cnt == b.num_loops + 1 then after_end r (end e.env r.world) else loop_pass loop b e cnt r

  -- the call that the count selects
  pub selected : Protocol E W → Block → Pass E → ℕ → Run W → Outcome W
  unfolding first_pass later_pass
  selected p b e zero r = first_pass p b e r
  selected p b e (suc c) r = later_pass p.cmd_end p.cmd_loop b e (suc c) r

  -- one pass of the loop
  pub pass : Protocol E W → Block → Pass E → ℕ → Run W → Outcome W
  unfolding selected
  pass p b e cnt r =
      if leb exit_fast e.expired
      then leaves r
      else if leb exit_soon e.expired
      then if r.state then selected p b e (suc b.num_loops) r else leaves r
      else selected p b e cnt r

  -- `for (cnt = 0; cnt <= cntEnd; cnt++)`, from `cnt` on
  pub passes : Protocol E W → Block → List (Pass E) → ℕ → Run W → Option (Run W)
  unfolding after_pass pass
  passes p b [] cnt r = if leb cnt (b.num_loops + 1) then none else some r
  passes p b (e ∷ es) cnt r =
      let onward = after_pass (λ cnt' r'. passes p b es cnt' r') (pass p b e cnt r) in
      if leb cnt (b.num_loops + 1) then onward else some r

  -- `do_command` on the state `world` of the protocol
  unfoldable pub do_command :
      Protocol E W → Block → List (Pass E) → ℤ → ℕ → ℕ → ℕ → W → Option (Run W)
  unfolding passes fill_block
  do_command p b es delay expired now_time totalcommands world = fill_block delay expired now_time (
      passes p b es 0 (record {
        state = false;
        block_start = b.block_start;
        totalcommands = totalcommands;
        world = world;
        acts = [];
      }))
