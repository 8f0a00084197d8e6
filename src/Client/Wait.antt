-- ===== src/Client/Wait.antt =====
-- src/client.c and src/sysdep.c: the end of a run. `beginShutdown`, `MS_idle`, the handlers of the
-- signals, and the loop of `clientProc` that waits for its threads. Times are in seconds; what the
-- clock, the threads and the signals do is a script of ticks. A thread or a handler acts between two
-- looks of the loop, so that it does not fall inside `++gf_timeexpired`, which is not atomic; the
-- exit of the process by a SIGHUP at `EXIT_FASTEST` or later is left out.
pub mod Ending
pub mod Patience
use mstone.Base.{
  ℕ, zero, suc, ◌+◌, ◌-◌, ◌*◌, ◌/◌, ◌≤◌, ◌<◌, ◌≡◌, refl, ap, subst, ◌⊎◌, inl, inr, Bool, true,
  false, List, [], ◌∷◌, Option, none, some, arith, ltb, leb, ltb→lt, if_cases, if◌then◌else◌,
  length,
}
use mstone.Client.{exit_soon, exit_fast}

-- `EXIT_FASTEST`
abbrev pub exit_fastest : ℕ
exit_fastest = 50

-- `gf_timeexpired`, `gt_shutdowntime`, `bailtime` and `gt_aborttime`
pub record Deadlines : Type 0 where
  pub timeexpired : ℕ
  pub shutdowntime : ℕ
  pub bailtime : ℕ
  pub aborttime : ℕ

-- `beginShutdown`, with `gt_stopinterval` and the time
pub begin_shutdown : ℕ → ℕ → Deadlines → Deadlines
begin_shutdown stopinterval now d = if leb exit_soon d.timeexpired then d else record {
  timeexpired = exit_soon;
  shutdowntime = now;
  bailtime = now;
  aborttime = now + stopinterval * 2 * exit_fastest;
}

-- `if (gf_timeexpired < EXIT_SOON) gf_timeexpired = EXIT_SOON`
pub time_is_up : Deadlines → Deadlines
time_is_up d = if ltb d.timeexpired exit_soon then record d { timeexpired = exit_soon } else d

-- `MS_idle`: the microseconds that it sleeps, 0 if it does not, and what it does to the deadlines
pub ms_idle : ℕ → ℕ → Deadlines → ℕ × Deadlines
unfolding time_is_up
ms_idle idle_millis now d = if leb d.shutdowntime now then (0, time_is_up d) else (
  (if ltb (d.shutdowntime - now) (idle_millis / 1000)
        then (d.shutdowntime - now) * 1000
        else idle_millis)
      * 1000,
  d,
)

-- What threads and signal handlers do to the deadlines: a call of `beginShutdown` at a time, a thread
-- behind `MS_idle` or a SIGALRM, and a SIGHUP at a time.
pub data Interrupt : Type 0 where
  shutdown : ℕ → Interrupt
  time_up : Interrupt
  hang_up : ℕ → Interrupt

-- `alarmHandler`
pub alarm_handler : Deadlines → Deadlines
unfolding time_is_up
alarm_handler d = time_is_up d

-- `hupHandler`, which ends the process when `gf_timeexpired` is at least `EXIT_FASTEST`
pub hup_handler : ℕ → ℕ → Deadlines → Deadlines
unfolding begin_shutdown
hup_handler stopinterval now d =
    if ltb d.timeexpired exit_soon
    then begin_shutdown stopinterval now d
    else if ltb d.timeexpired exit_fast
    then record d { timeexpired = exit_fast }
    else if ltb d.timeexpired exit_fastest
    then record d { timeexpired = exit_fastest }
    else d

pub interrupt : ℕ → Interrupt → Deadlines → Deadlines
unfolding begin_shutdown alarm_handler hup_handler
interrupt stopinterval (shutdown now) d = begin_shutdown stopinterval now d
interrupt stopinterval time_up d = alarm_handler d
interrupt stopinterval (hang_up now) d = hup_handler stopinterval now d

pub interrupted : ℕ → List Interrupt → Deadlines → Deadlines
unfolding interrupt
interrupted stopinterval [] d = d
interrupted stopinterval (i ∷ is) d = interrupted stopinterval is (interrupt stopinterval i d)

-- One look of the waiting loop: what has happened since the last one, the time, and whether threads
-- are still running.
pub record Tick : Type 0 where
  pub interrupts : List Interrupt
  pub now : ℕ
  pub running : Bool

-- How the wait ends: the deadlines, whether the sockets were closed by force, and how often the
-- alarm was sent to wake the threads.
pub record Waited : Type 0 where
  pub deadlines : Deadlines
  pub forced : Bool
  pub alarms : ℕ

-- `if (tm > bailtime) { ++gf_timeexpired; bailtime += gt_stopinterval; }`
pub escalate : ℕ → ℕ → Deadlines → Deadlines
escalate stopinterval now d =
    if ltb d.bailtime now
    then record d { timeexpired = d.timeexpired + 1; bailtime = d.bailtime + stopinterval }
    else d

-- `kill (0, SIGALRM)`
pub alarm : ℕ → Deadlines → ℕ → ℕ
alarm now d alarms =
    if ltb d.bailtime now
    then if leb exit_fast (d.timeexpired + 1) then alarms + 1 else alarms
    else alarms

-- `while (FinishedThreads < StartedThreads)`
unfoldable pub wait_threads : ℕ → List Tick → Deadlines → ℕ → Option Waited
unfolding interrupted escalate alarm
wait_threads stopinterval [] d alarms = none
wait_threads stopinterval (t ∷ ts) d0 alarms =
    let d = interrupted stopinterval t.interrupts d0 in
    let d' = escalate stopinterval t.now d in
    let alarms' = alarm t.now d alarms in
    let rest = wait_threads stopinterval ts d' alarms' in
    if t.running
    then if leb exit_fastest d'.timeexpired
      then some (record { deadlines = d'; forced = true; alarms = alarms' })
      else rest
    else some (record { deadlines = d; forced = false; alarms = alarms })

-- what follows the wait: the summary thread is told to exit
pub after_wait : Waited → Deadlines
after_wait w =
    if ltb w.deadlines.timeexpired exit_fast
    then record w.deadlines { timeexpired = exit_fast }
    else w.deadlines

-- `MS_idle` never lowers `gf_timeexpired`, and sleeps to less than a second behind the shutdown
-- time; when that has been reached it does not sleep and `gf_timeexpired` is at least `EXIT_SOON`.
pub ms_idle-Bounds :
    (idle_millis now : ℕ) (d : Deadlines)
    → let (slept, d') = ms_idle idle_millis now d in
      (d.timeexpired ≤ d'.timeexpired)
      × (slept ≤ idle_millis * 1000)
      × ((d.shutdowntime ≤ now) → (slept ≡ 0) × (exit_soon ≤ d'.timeexpired))
      × ((now < d.shutdowntime) → now * 1000000 + slept < (d.shutdowntime + 1) * 1000000)
unfolding ms_idle time_is_up
ms_idle-Bounds idle_millis now d = ground arith
