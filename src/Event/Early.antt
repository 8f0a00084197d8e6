-- ===== src/Event/Early.antt =====
-- When a worker executes an event.
use mstone.Base.{
  ℕ, ◌+◌, ◌^◌, ◌≤◌, ◌<◌, ◌≡◌, refl, ap, sym, ◌∙◌, int_of, true, false, if_cases, ◌-◌, ◌%◌, u32_mod,
  arith, List, [], ◌∷◌, pos, lt_int,
}
use mstone.Timer.{Timeval, timevaldouble}
use mstone.Event.{
  Event, Queue, Location, waits, executes, leaves, leave, idle, dispatch, turn, sleeptime,
}

-- The event is due less than 2 ^ 31 microseconds from now, which is nearly 36 minutes.
abbrev pub IsNear : Timeval → Timeval → Type 0
IsNear time now = timevaldouble time < timevaldouble now + 2 ^ 31

-- What a worker does in one turn: it executes an event only while the queue is not finishing, takes
-- the head of the queue for it, and does so less than `m` microseconds before the event is due; in
-- every other case it leaves the events alone.
abbrev pub Turned : ℕ → Queue → Timeval → Queue × Location → Type 0
Turned m q now (q', executes e) =
    (q.finish ≡ false)
    × (q.head ≡ e ∷ q'.head)
    × (IsNear e.time now → timevaldouble e.time < timevaldouble now + m)
Turned m q now (q', waits) = (q.finish ≡ false) × (q'.head ≡ q.head)
Turned m q now (q', leaves last) = q'.head ≡ q.head

soon_lem :
    (due now m : ℕ)
    → due < now + 2 ^ 31
    → lt_int (int_of (due % u32_mod + (u32_mod - now % u32_mod))) (pos m) ≡ true
    → due < now + m
soon_lem due now m near h = ground arith

idle-Turned : (m : ℕ) (q : Queue) (now : Timeval) → q.finish ≡ false → Turned m q now (idle q)
unfolding idle leave
idle-Turned m q now f =
    if_cases (Turned m q now) (lt_int q.p.hiwat (pos (q.waiting_threads + 1))) (λ many. refl)
      λ few. (f, refl)

dispatch-Turned :
    (m : ℕ) (q : Queue) (now : Timeval) (es : List Event)
    → q.p.min_sleep ≡ pos m
    → q.finish ≡ false
    → q.head ≡ es
    → Turned m q now (dispatch q now es)
unfolding dispatch sleeptime
dispatch-Turned m q now [] p f h = idle-Turned m q now f
dispatch-Turned m q now (e ∷ es) p f h =
    if_cases (Turned m q now) (lt_int (sleeptime e.time now) q.p.min_sleep)
      (λ soon. (
        f,
        h,
        λ near.
            soon_lem (timevaldouble e.time) (timevaldouble now) m near
              (sym (ap (lt_int (sleeptime e.time now)) p) ∙ soon),
      ))
      λ late. idle-Turned m q now f

-- One turn of a worker, on every branch: see `Turned`. In particular no event is executed `m` or
-- more microseconds early, where `m` is `min_sleep`, unless it is due 2 ^ 31 microseconds from now
-- or later.
pub turn-Turned :
    (m : ℕ) (q : Queue) (now : Timeval) → q.p.min_sleep ≡ pos m → Turned m q now (turn q now)
unfolding turn leave
turn-Turned m q now p =
    if_cases (Turned m q now) q.finish (λ finishing. refl)
      λ f. dispatch-Turned m q now q.head p f refl

early_lem :
    (due now m : ℕ)
    → now + 2 ^ 31 ≤ due
    → due < now + 2 ^ 32
    → lt_int (int_of (due % u32_mod + (u32_mod - now % u32_mod))) (pos m) ≡ true
early_lem due now m h k = ground arith

-- An event that is due at least 2 ^ 31 and less than 2 ^ 32 microseconds from now, 36 to 71 minutes,
-- is executed at once when it is the head: its distance does not fit into an `int` and is taken
-- for a negative one.
pub turn_early :
    (m : ℕ) (q : Queue) (now : Timeval) (e : Event) (es : List Event)
    → q.p.min_sleep ≡ pos m
    → q.finish ≡ false
    → q.head ≡ e ∷ es
    → timevaldouble now + 2 ^ 31 ≤ timevaldouble e.time
    → timevaldouble e.time < timevaldouble now + 2 ^ 32
    → turn q now ≡ (record q { head = es }, executes e)
unfolding turn dispatch sleeptime
turn_early m q now e es p f h near far =
    let due : lt_int (sleeptime e.time now) q.p.min_sleep ≡ true =
      ap (lt_int (sleeptime e.time now)) p
      ∙ early_lem (timevaldouble e.time) (timevaldouble now) m near far in
    simp (f, h, due)
