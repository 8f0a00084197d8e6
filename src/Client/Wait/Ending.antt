-- ===== src/Client/Wait/Ending.antt =====
-- src/client.c: the loop of `clientProc` that waits for its threads ends.
use native.Mathlib.Nat.{suc-mul, zero-mul}
use mstone.Base.{
  IsSome, ℕ, zero, suc, ◌+◌, ◌-◌, ◌*◌, ◌≤◌, ◌<◌, ◌≡◌, refl, sym, ◌⊎◌, inl, inr, true, List, [], ◌∷◌,
  some, arith, ltb, leb, if_cases, if◌then◌else◌, length,
}
use mstone.Client.{exit_soon, exit_fast}
use mstone.Client.Wait.{
  exit_fastest, Deadlines, begin_shutdown, time_is_up, Interrupt, shutdown, time_up, hang_up,
  alarm_handler, hup_handler, interrupt, interrupted, Tick, escalate, alarm, wait_threads,
}

-- The interrupts come at times up to one.
abbrev pub HaveCome : ℕ → List Interrupt → Type 0
HaveCome now [] = Unit {0}
HaveCome now (shutdown time ∷ is) = (time ≤ now) × HaveCome now is
HaveCome now (time_up ∷ is) = HaveCome now is
HaveCome now (hang_up time ∷ is) = (time ≤ now) × HaveCome now is

-- The ticks come at least a second apart, and what is noted with each has happened by its time.
abbrev pub Ticking : ℕ → List Tick → Type 0
Ticking before [] = Unit {0}
Ticking before (t ∷ ts) = (before < t.now) × HaveCome t.now t.interrupts × Ticking t.now ts

-- `gf_timeexpired` does not go back, and if `bailtime` moves, to a time that has come, then
-- `gf_timeexpired` takes a step.
abbrev Sooner : ℕ → Deadlines → Deadlines → Type 0
Sooner now d d' =
    ((d'.bailtime ≡ d.bailtime) × (d.timeexpired ≤ d'.timeexpired))
    ⊎ ((d'.bailtime ≤ now) × (d.timeexpired < d'.timeexpired) × (d.timeexpired < exit_fastest))

Sooner-trans : (now : ℕ) (a b c : Deadlines) → Sooner now a b → Sooner now b c → Sooner now a c
Sooner-trans now a b c h k = ground (arith, h, k)

begin_shutdown-Sooner :
    (stopinterval time now : ℕ) (d : Deadlines)
    → time ≤ now
    → Sooner now d (begin_shutdown stopinterval time d)
unfolding begin_shutdown
begin_shutdown-Sooner stopinterval time now d h =
    if_cases (Sooner now d) (leb exit_soon d.timeexpired) (λ ends. ground arith)
      (λ first. ground (arith, h, first))

time_is_up-Sooner : (now : ℕ) (d : Deadlines) → Sooner now d (time_is_up d)
unfolding time_is_up
time_is_up-Sooner now d =
    if_cases (Sooner now d) (ltb d.timeexpired exit_soon) (λ first. ground (arith, first))
      (λ ends. ground arith)

hup_handler-Sooner :
    (stopinterval time now : ℕ) (d : Deadlines)
    → time ≤ now
    → Sooner now d (hup_handler stopinterval time d)
unfolding hup_handler
hup_handler-Sooner stopinterval time now d h =
    if_cases (Sooner now d) (ltb d.timeexpired exit_soon)
      (λ first. begin_shutdown-Sooner stopinterval time now d h)
      (λ later.
        if_cases (Sooner now d) (ltb d.timeexpired exit_fast) (λ second. ground (arith, second))
          (λ later2.
            if_cases (Sooner now d) (ltb d.timeexpired exit_fastest)
              (λ third. ground (arith, third)) (λ ends. ground arith)))

interrupted-Sooner :
    (stopinterval now : ℕ) (is : List Interrupt) (d : Deadlines)
    → HaveCome now is
    → Sooner now d (interrupted stopinterval is d)
unfolding interrupted interrupt alarm_handler
interrupted-Sooner stopinterval now [] d h = ground arith
interrupted-Sooner stopinterval now (shutdown time ∷ is) d (at, h) =
    let d' = begin_shutdown stopinterval time d in
    Sooner-trans now d d' (interrupted stopinterval is d')
      (begin_shutdown-Sooner stopinterval time now d at)
      (interrupted-Sooner stopinterval now is d' h)
interrupted-Sooner stopinterval now (time_up ∷ is) d h =
    let d' = time_is_up d in
    Sooner-trans now d d' (interrupted stopinterval is d') (time_is_up-Sooner now d)
      (interrupted-Sooner stopinterval now is d' h)
interrupted-Sooner stopinterval now (hang_up time ∷ is) d (at, h) =
    let d' = hup_handler stopinterval time d in
    Sooner-trans now d d' (interrupted stopinterval is d')
      (hup_handler-Sooner stopinterval time now d at) (interrupted-Sooner stopinterval now is d' h)

-- The seconds that the steps up to `EXIT_FASTEST` take.
abbrev steps : ℕ → Deadlines → ℕ
steps interval d = (exit_fastest - d.timeexpired) * interval

more_steps : (m n k : ℕ) → m ≤ n → m * k ≤ n * k
more_steps zero n k h = rw (zero-mul k) (omega arith)
more_steps (suc m) zero k h = absurd (omega (arith, h))
more_steps (suc m) (suc n) k h =
    let r = more_steps m n k (omega (arith, h)) in
    rw (suc-mul m k) (rw (suc-mul n k) (omega (arith, r)))

one_step_more : (m n k : ℕ) → m < n → m * k + k ≤ n * k
one_step_more m n k h = rw (sym (suc-mul m k)) (more_steps (suc m) n k (omega (arith, h)))

-- What is left when the loop looks: less than the ticks to come, or the time of a step has come.
abbrev Left : ℕ → ℕ → ℕ → Deadlines → Type 0
Left interval now ticks d =
    ((d.bailtime - now) + steps interval d < ticks)
    ⊎ ((d.bailtime < now) × (steps interval d < suc ticks))

interrupted-Left :
    (interval before now ticks : ℕ) (d d' : Deadlines)
    → before < now
    → Sooner now d d'
    → 0 < interval
    → (d.bailtime - before) + steps interval d < suc ticks
    → Left interval now ticks d'
interrupted-Left interval before now ticks d d' lt (inl (same, le)) p h =
    let r =
      more_steps (exit_fastest - d'.timeexpired) (exit_fastest - d.timeexpired) interval
        (omega (arith, le)) in
    ground (arith, same, r, h, lt)
interrupted-Left interval before now ticks d d' lt (inr (at, le, few)) p h =
    let r =
      one_step_more (exit_fastest - d'.timeexpired) (exit_fastest - d.timeexpired) interval
        (omega (arith, le, few)) in
    ground (arith, at, r, h, p)

-- Each step takes a `stopinterval` and the tick of the look.
escalate-Left :
    (stopinterval now ticks : ℕ) (d d' : Deadlines)
    → d'.timeexpired ≡ d.timeexpired + 1
    → d'.bailtime ≡ d.bailtime + stopinterval
    → d.bailtime < now
    → d.timeexpired < exit_fastest
    → Left (stopinterval + 1) now ticks d
    → (d'.bailtime - now) + steps (stopinterval + 1) d' < ticks
escalate-Left stopinterval now ticks d d' e b late few h =
    let r =
      one_step_more (exit_fastest - d'.timeexpired) (exit_fastest - d.timeexpired)
        (stopinterval + 1) (omega (arith, e, few)) in
    ground (arith, b, late, r, h)

wait_threads-IsSome :
    (stopinterval before : ℕ) (ts : List Tick) (d : Deadlines) (alarms : ℕ)
    → Ticking before ts
    → (d.bailtime - before) + (exit_fastest - d.timeexpired) * (stopinterval + 1) < length ts
    → IsSome (wait_threads stopinterval ts d alarms)
unfolding wait_threads escalate
wait_threads-IsSome stopinterval before [] d alarms t h = absurd (omega (arith, h))
wait_threads-IsSome stopinterval before (t ∷ ts) d0 alarms (lt, come, tick) h =
    let d = interrupted stopinterval t.interrupts d0 in
    let alarms' = alarm t.now d alarms in
    let left : Left (stopinterval + 1) t.now (length ts) d =
      interrupted-Left (stopinterval + 1) before t.now (length ts) d0 d lt
        (interrupted-Sooner stopinterval t.now t.interrupts d0 come) (omega arith) h in
    if_cases IsSome t.running
      (λ running.
        if_cases
          (λ (d' : Deadlines). IsSome (
            if leb exit_fastest d'.timeexpired
            then some (record { deadlines = d'; forced = true; alarms = alarms' })
            else wait_threads stopinterval ts d' alarms'))
          (ltb d.bailtime t.now)
          (λ late.
            let d' : Deadlines = record d {
              timeexpired = d.timeexpired + 1;
              bailtime = d.bailtime + stopinterval;
            } in
            if_cases IsSome (leb exit_fastest (d.timeexpired + 1)) (λ forced. tt)
              (λ more. wait_threads-IsSome stopinterval t.now ts d' alarms' tick (
                escalate-Left stopinterval t.now (length ts) d d' refl refl (ground (arith, late))
                  (ground (arith, more)) left)))
          (λ early.
            if_cases IsSome (leb exit_fastest d.timeexpired) (λ forced. tt)
              (λ more.
                wait_threads-IsSome stopinterval t.now ts d alarms' tick
                  (ground (arith, early, left)))))
      (λ finished. tt)

-- The wait for the threads ends, whatever they do, and whatever calls of `beginShutdown`, ends of
-- `MS_idle`, alarms and hang-ups come between its looks, within the ticks, of at least a second, up
-- to `bailtime` and a `stopinterval` and one for each step of `gf_timeexpired` that is left up to
-- `EXIT_FASTEST`; the process may exit before, at a hang-up when `gf_timeexpired` is there.
pub wait_threads_lem :
    (stopinterval before : ℕ) (ts : List Tick) (d : Deadlines)
    → Ticking before ts
    → (d.bailtime - before) + (exit_fastest - d.timeexpired) * (stopinterval + 1) < length ts
    → IsSome (wait_threads stopinterval ts d 0)
wait_threads_lem stopinterval before ts d t h = wait_threads-IsSome stopinterval before ts d 0 t h
