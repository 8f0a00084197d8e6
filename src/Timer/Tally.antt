-- ===== src/Timer/Tally.antt =====
-- What a timer reports of a history of exchanges.
use mstone.Base.{
  ℕ, true, false, ◌+◌, ◌*◌, min, max, ◌≡◌, List, [], ◌∷◌, arith, length, ltb, ◌==◌, if◌then◌else◌,
  u64, Bool-cases, inl, inr,
}
use mstone.Timer.{
  Context, EventTimer, Exchange, event_reset, event_start, event_stop, event_add, count_error,
  count_bytes, exchange, run, compdifftime_double, exit_fast,
}
use mstone.Timer.Merge.{Fits, exchange-Fits, event_reset-Fits}

-- The exchanges that ended before the run was being aborted.
abbrev pub counted : List Exchange → List Exchange
counted [] = []
counted (x ∷ xs) = if ltb x.timeexpired exit_fast then x ∷ counted xs else counted xs

abbrev pub span : Exchange → ℕ
span x = compdifftime_double x.stopped x.started

abbrev pub total : (Exchange → ℕ) → List Exchange → ℕ
total f [] = 0
total f (x ∷ xs) = f x + total f xs

abbrev pub longest : List Exchange → ℕ
longest [] = 0
longest (x ∷ xs) = max (span x) (longest xs)

-- The smaller of two times that are not 0.
abbrev pub shorter : ℕ → ℕ → ℕ
shorter a b = if a == 0 then b else if b == 0 then a else min a b

abbrev pub shortest : List Exchange → ℕ
shortest [] = 0
shortest (x ∷ xs) = shorter (span x) (shortest xs)

abbrev pub failure : Exchange → ℕ
failure x = if x.failed then 1 else 0

-- Timer `e'` is `e` with the exchanges `xs` added, all of them counted.
pub record Adds (e : EventTimer) (xs : List Exchange) (e' : EventTimer) : Type 0 where
  pub trys : e'.trys ≡ u64 (e.trys + length xs)
  pub errs : e'.errs ≡ u64 (e.errs + total failure xs)
  pub bytesread : e'.bytesread ≡ e.bytesread + total (λ x. x.received) xs
  pub byteswritten : e'.byteswritten ≡ e.byteswritten + total (λ x. x.sent) xs
  pub elapsedtime : e'.elapsedtime ≡ e.elapsedtime + total span xs
  pub elapsedtimesq : e'.elapsedtimesq ≡ e.elapsedtimesq + total (λ x. span x * span x) xs
  pub maxtime : e'.maxtime ≡ max e.maxtime (longest xs)
  pub mintime : e'.mintime ≡ shorter e.mintime (shortest xs)

exchange-late :
    (c : Context) (e : EventTimer) (x : Exchange)
    → ltb x.timeexpired exit_fast ≡ false
    → exchange c e x ≡ e
unfolding exchange event_stop count_error
exchange-late c e x late = ground arith

exchange-Adds :
    (c : Context) (e : EventTimer) (x : Exchange)
    → Fits e
    → ltb x.timeexpired exit_fast ≡ true
    → Adds e (x ∷ []) (exchange c e x)
unfolding exchange event_start event_stop event_add count_error count_bytes
exchange-Adds c e x f soon = ground arith

Adds-cons :
    {e e' e'' : EventTimer} (x : Exchange) (xs : List Exchange)
    → Adds e (x ∷ []) e'
    → Adds e' xs e''
    → Adds e (x ∷ xs) e''
Adds-cons x xs a b = record {
  trys = omega (arith, a.trys, b.trys);
  errs = omega (arith, a.errs, b.errs);
  bytesread = omega (arith, a.bytesread, b.bytesread);
  byteswritten = omega (arith, a.byteswritten, b.byteswritten);
  elapsedtime = omega (arith, a.elapsedtime, b.elapsedtime);
  elapsedtimesq = omega (arith, a.elapsedtimesq, b.elapsedtimesq);
  maxtime = omega (arith, a.maxtime, b.maxtime);
  mintime = ground (arith, a.mintime, b.mintime);
}

Adds-nil : (e : EventTimer) → Fits e → Adds e [] e
Adds-nil e f = ground arith

run-Adds :
    (c : Context) (e : EventTimer) (xs : List Exchange) → Fits e → Adds e (counted xs) (run c e xs)
unfolding run
run-Adds c e [] f = Adds-nil e f
run-Adds c e (x ∷ xs) f = elim (Bool-cases (ltb x.timeexpired exit_fast)) [
  | inl soon ↦ rw soon (
      Adds-cons x (counted xs) (exchange-Adds c e x f soon)
        (run-Adds c (exchange c e x) xs (exchange-Fits c e x f)))
  | inr late ↦ rw (late, exchange-late c e x late) (run-Adds c e xs f)
]

-- A timer that was reset reports, of the exchanges that ended before the run was being aborted:
-- their number and the failed ones (each as an `unsigned long`), the bytes moved, the sum of their
-- times and of the squares, the longest time, and the shortest time that is not 0, or 0 if there is
-- none. A clock that was set back counts as a time of 0.
pub run-reports :
    (c : Context) (e : EventTimer) (xs : List Exchange)
    → Adds (event_reset e) (counted xs) (run c (event_reset e) xs)
run-reports c e xs = run-Adds c (event_reset e) xs (event_reset-Fits e)
