-- ===== src/Timer/Merge.antt =====
-- `event_sum` merges the timers of two histories into the timer of both.
use mstone.Base.{
  ℕ, Bool, ◌<◌, ◌≡◌, refl, sym, ap, ◌∙◌, List, [], ◌∷◌, ◌++◌, arith, u64_mod, Bool-cases, inl, inr,
  leb,
}
use mstone.Timer.{
  Context, EventTimer, Exchange, Timeval, event_reset, event_sum, event_add, event_stop,
  count_error, exchange, run, compdifftime_double, exit_fast,
}

run-append :
    (c : Context) (e : EventTimer) (xs ys : List Exchange)
    → run c e (xs ++ ys) ≡ run c (run c e xs) ys
unfolding run
run-append c e [] ys = refl
run-append c e (x ∷ xs) ys = run-append c (exchange c e x) xs ys

event_sum-event_add :
    (c : Context) (s e : EventTimer) (t : ℕ)
    → event_sum s (event_add e c t) ≡ event_add (event_sum s e) c t
unfolding event_sum event_add
event_sum-event_add c s e t = ground arith

event_sum-event_stop :
    (timeexpired : ℕ) (c : Context) (now : Timeval) (s e : EventTimer)
    → event_sum s (event_stop timeexpired c now e) ≡ event_stop timeexpired c now (event_sum s e)
unfolding event_stop
event_sum-event_stop timeexpired c now s e = elim (Bool-cases (leb exit_fast timeexpired)) [
  | inl late ↦ rw late
  | inr running ↦ rw running (event_sum-event_add c s e (compdifftime_double now c.starttime))
]

event_sum-count_error :
    (failed : Bool) (s e : EventTimer)
    → event_sum s (count_error failed e) ≡ count_error failed (event_sum s e)
unfolding event_sum count_error
event_sum-count_error failed s e = ground arith

-- Adding a sample to the second timer or to the sum is the same.
event_sum-exchange :
    (c : Context) (s e : EventTimer) (x : Exchange)
    → event_sum s (exchange c e x) ≡ exchange c (event_sum s e) x
unfolding exchange
event_sum-exchange c s e x = rw (event_sum-count_error, event_sum-event_stop)

event_sum-run :
    (c : Context) (s e : EventTimer) (xs : List Exchange)
    → event_sum s (run c e xs) ≡ run c (event_sum s e) xs
unfolding run
event_sum-run c s e [] = refl
event_sum-run c s e (x ∷ xs) =
    event_sum-run c s (exchange c e x) xs ∙ ap (λ t. run c t xs) (event_sum-exchange c s e x)

-- The counters are `unsigned long`s.
pub record Fits (e : EventTimer) : Type 0 where
  pub trys : e.trys < u64_mod
  pub errs : e.errs < u64_mod

event_sum-event_reset : (s e : EventTimer) → Fits s → event_sum s (event_reset e) ≡ s
unfolding event_sum event_reset
event_sum-event_reset s e f = ground arith

pub exchange-Fits : (c : Context) (e : EventTimer) (x : Exchange) → Fits e → Fits (exchange c e x)
unfolding exchange event_stop event_add count_error
exchange-Fits c e x f = ground arith

run-Fits : (c : Context) (e : EventTimer) (xs : List Exchange) → Fits e → Fits (run c e xs)
unfolding run
run-Fits c e [] f = f
run-Fits c e (x ∷ xs) f = run-Fits c (exchange c e x) xs (exchange-Fits c e x f)

pub event_reset-Fits : (e : EventTimer) → Fits (event_reset e)
unfolding event_reset
event_reset-Fits e = omega arith

-- Adding the timers of two histories of exchanges, each kept from a reset timer, gives the timer
-- of the first history followed by the second, in every field and for every way of splitting the
-- work, aborted and failed exchanges included.
pub event_sum-runs :
    (c : Context) (e : EventTimer) (xs ys : List Exchange)
    → event_sum (run c (event_reset e) xs) (run c (event_reset e) ys)
      ≡ run c (event_reset e) (xs ++ ys)
event_sum-runs c e xs ys =
    event_sum-run c (run c (event_reset e) xs) (event_reset e) ys
    ∙ ap (λ t. run c t ys)
        (event_sum-event_reset (run c (event_reset e) xs) e
          (run-Fits c (event_reset e) xs (event_reset-Fits e)))
    ∙ sym (run-append c (event_reset e) xs ys)
