-- ===== src/Timer/Examples.antt =====
-- The theorems about timers at concrete inputs, and tests.
use mstone.Base.{ℕ, ◌≡◌, refl, Bool, true, false, List, [], ◌∷◌, ◌++◌}
use mstone.Timer.{
  Timeval, Context, EventTimer, Exchange, event_start, event_stop, event_add, event_reset,
  event_sum, count_error, count_bytes, compdifftime_double, exchange, run,
}
use mstone.Timer.Merge.{event_sum-runs}
use mstone.Timer.Tally.{Adds, counted, run-reports}

abbrev at : ℕ → ℕ → Timeval
at sec usec = record { tv_sec = sec; tv_usec = usec }

abbrev idle : Context
idle = record { starttime = at 0 0; bytesread = 0; byteswritten = 0 }

abbrev zero_timer : EventTimer
zero_timer = record {
  trys = 0;
  errs = 0;
  bytesread = 0;
  byteswritten = 0;
  elapsedtime = 0;
  elapsedtimesq = 0;
  maxtime = 0;
  mintime = 0;
}

abbrev took : Timeval → Timeval → Bool → ℕ → Exchange
took started stopped failed timeexpired = record {
  started = started;
  stopped = stopped;
  received = 100;
  sent = 7;
  failed = failed;
  timeexpired = timeexpired;
}

abbrev morning : List Exchange
morning = took (at 5 900000) (at 6 100) false 0 ∷ took (at 7 0) (at 7 30) true 0 ∷ []

abbrev evening : List Exchange
evening = took (at 9 0) (at 8 0) false 1 ∷ took (at 9 5) (at 9 9) false 50 ∷ []

run-morning : run idle zero_timer morning ≡ record {
  trys = 2;
  errs = 1;
  bytesread = 200;
  byteswritten = 14;
  elapsedtime = 100130;
  elapsedtimesq = 10020010900;
  maxtime = 100100;
  mintime = 30;
}
unfolding run exchange count_error event_stop event_add count_bytes event_start compdifftime_double
run-morning = refl

event_sum-runs_example :
    event_sum
      (run idle (event_reset zero_timer) morning)
      (run idle (event_reset zero_timer) evening)
    ≡ run idle (event_reset zero_timer) (morning ++ evening)
event_sum-runs_example = event_sum-runs idle zero_timer morning evening

run-reports_example :
    Adds (event_reset zero_timer) (counted evening) (run idle (event_reset zero_timer) evening)
run-reports_example = run-reports idle zero_timer evening
