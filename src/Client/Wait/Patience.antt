-- ===== src/Client/Wait/Patience.antt =====
-- src/client.c: how long the loop of `clientProc` that waits for its threads lets them run.
use native.Mathlib.Nat.{suc-mul, zero-mul}
use mstone.Base.{
  ℕ, zero, suc, ◌+◌, ◌-◌, ◌*◌, ◌≤◌, ◌<◌, ◌≡◌, refl, ap, subst, ◌⊎◌, inl, inr, true, List, [], ◌∷◌,
  Option, none, some, arith, ltb, leb, ltb→lt, if_cases, if◌then◌else◌,
}
use mstone.Client.Wait.{
  exit_fastest, Deadlines, interrupted, Tick, Waited, escalate, alarm, wait_threads,
}

steps_left : (n s : ℕ) → 0 < n → n * s ≡ (n - 1) * s + s
steps_left zero s h = absurd (omega (arith, h))
steps_left (suc n) s h = rw (suc-mul n s) (ap (λ (k : ℕ). k * s + s) (omega arith))

-- Some look is later than a time.
abbrev pub LateTick : ℕ → List Tick → Type 0
LateTick time [] = 1 ≤ 0
LateTick time (t ∷ ts) = (time < t.now) ⊎ LateTick time ts

-- The sockets are closed by force only at a look behind a time.
abbrev pub Patient : ℕ → List Tick → Option Waited → Type 0
Patient time ts none = Unit
Patient time ts (some w) = w.forced ≡ true → LateTick time ts

Patient-later :
    (time time' : ℕ) (t : Tick) (ts : List Tick) (o : Option Waited)
    → time ≡ time'
    → Patient time ts o
    → Patient time' (t ∷ ts) o
Patient-later time time' t ts none e h = tt
Patient-later time time' t ts (some w) e h = λ f. inr (subst (λ time. LateTick time ts) e (h f))

no_steps : (left s a b : ℕ) → left ≡ 0 → a < b → a + left * s < b
no_steps zero s a b e h = rw (zero-mul s) (omega (arith, h))
no_steps (suc left) s a b e h = absurd (omega (arith, e))

-- No thread and no signal changes the deadlines.
abbrev pub Quiet : List Tick → Type 0
Quiet [] = Unit {0}
Quiet (t ∷ ts) = (t.interrupts ≡ []) × Quiet ts

waiting-Patient :
    (stopinterval left : ℕ) (ts : List Tick) (d : Deadlines) (alarms : ℕ)
    → d.timeexpired + suc left ≡ exit_fastest
    → Quiet ts
    → Patient (d.bailtime + left * stopinterval) ts (wait_threads stopinterval ts d alarms)
unfolding wait_threads interrupted escalate
waiting-Patient stopinterval left [] d alarms e q = tt
waiting-Patient stopinterval left (t ∷ ts) d alarms e (none_now, q) = rw none_now (
    let alarms' = alarm t.now d alarms in
    let time = d.bailtime + left * stopinterval in
    if_cases (Patient time (t ∷ ts)) t.running
      (λ running.
        if_cases
          (λ (d' : Deadlines). Patient time (t ∷ ts) (
            if leb exit_fastest d'.timeexpired
            then some (record { deadlines = d'; forced = true; alarms = alarms' })
            else wait_threads stopinterval ts d' alarms'))
          (ltb d.bailtime t.now)
          (λ late.
            if_cases (Patient time (t ∷ ts)) (leb exit_fastest (d.timeexpired + 1))
              (λ forced f. inl (
                no_steps left stopinterval d.bailtime t.now (ground (arith, e))
                  (ltb→lt d.bailtime t.now late)))
              (λ more.
                let pos : 0 < left = ground (arith, e) in
                let d' : Deadlines = record d {
                  timeexpired = d.timeexpired + 1;
                  bailtime = d.bailtime + stopinterval;
                } in
                Patient-later (d'.bailtime + (left - 1) * stopinterval) time t ts
                  (wait_threads stopinterval ts d' alarms')
                  (omega (arith, steps_left left stopinterval pos))
                  (waiting-Patient stopinterval (left - 1) ts d' alarms' (omega (arith, e, pos))
                    q)))
          (λ early.
            if_cases (Patient time (t ∷ ts)) (leb exit_fastest d.timeexpired)
              (λ forced. absurd (ground (arith, e)))
              (λ more.
                Patient-later time time t ts (wait_threads stopinterval ts d alarms') refl
                  (waiting-Patient stopinterval left ts d alarms' e q))))
      (λ finished f. absurd (cc)))

-- When `gf_timeexpired` is less than `EXIT_FASTEST`, and no thread and no signal changes the deadlines
-- during the wait, it closes the sockets by force only at a look by which all but one of the
-- `stopinterval`s, one for each step of `gf_timeexpired` that is left, have passed behind
-- `bailtime`.
pub wait_threads-Patient :
    (stopinterval left : ℕ) (ts : List Tick) (d : Deadlines)
    → d.timeexpired + suc left ≡ exit_fastest
    → Quiet ts
    → Patient (d.bailtime + left * stopinterval) ts (wait_threads stopinterval ts d 0)
wait_threads-Patient stopinterval left ts d e q = waiting-Patient stopinterval left ts d 0 e q
