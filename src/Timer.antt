-- ===== src/Timer.antt =====
-- src/bench.c, src/bench.h and src/timefunc.c: the timers behind every reported number. The code
-- keeps times as `double` seconds; here they are exact numbers of microseconds (and squares of
-- these), so rounding is not modelled. Byte counts are exact too; `unsigned long` counters wrap.
pub mod Tally
pub mod Merge
mod Examples
use mstone.Base.{
  ℕ, ◌+◌, ◌-◌, ◌*◌, Bool, ◌&&◌, ◌||◌, List, [], ◌∷◌, ltb, leb, ◌==◌, if◌then◌else◌, u64,
}

-- `struct timeval`
pub record Timeval : Type 0 where
  pub tv_sec : ℕ
  pub tv_usec : ℕ

-- `event_timer_t`
pub record EventTimer : Type 0 where
  pub trys : ℕ
  pub errs : ℕ
  pub bytesread : ℕ
  pub byteswritten : ℕ
  pub elapsedtime : ℕ
  pub elapsedtimesq : ℕ
  pub maxtime : ℕ
  pub mintime : ℕ

-- The fields of `struct thread_context` that `event_start` and `event_stop` share. The counts, there
-- of type `int`, are those of one exchange and are taken not to overflow.
pub record Context : Type 0 where
  pub starttime : Timeval
  pub bytesread : ℕ
  pub byteswritten : ℕ

-- `EXIT_FAST`
abbrev pub exit_fast : ℕ
exit_fast = 20

-- `timevaldouble`, in microseconds
abbrev pub timevaldouble : Timeval → ℕ
timevaldouble t = t.tv_sec * 1000000 + t.tv_usec

-- `compdifftime_double`: a negative difference counts as 0, which is where `-` on ℕ stops.
pub compdifftime_double : Timeval → Timeval → ℕ
compdifftime_double end_time start_time = timevaldouble end_time - timevaldouble start_time

-- `event_start`, with the time of day as an argument
pub event_start : Context → Timeval → Context
event_start c now = record { starttime = now; bytesread = 0; byteswritten = 0 }

-- the closing part of `event_stop`: one sample of `t` microseconds
event_add : EventTimer → Context → ℕ → EventTimer
event_add e c t = record {
  trys = u64 (e.trys + 1);
  errs = e.errs;
  bytesread = e.bytesread + c.bytesread;
  byteswritten = e.byteswritten + c.byteswritten;
  elapsedtime = e.elapsedtime + t;
  elapsedtimesq = e.elapsedtimesq + t * t;
  maxtime = if ltb e.maxtime t then t else e.maxtime;
  mintime = if e.mintime == 0 || ltb 0 t && ltb t e.mintime then t else e.mintime;
}

-- `event_stop`, with `gf_timeexpired` and the time of day as arguments
pub event_stop : ℕ → Context → Timeval → EventTimer → EventTimer
event_stop timeexpired c now e =
    if leb exit_fast timeexpired then e else event_add e c (compdifftime_double now c.starttime)

-- `event_reset`
pub event_reset : EventTimer → EventTimer
event_reset e = record {
  trys = 0;
  errs = 0;
  bytesread = 0;
  byteswritten = 0;
  elapsedtime = 0;
  elapsedtimesq = 0;
  maxtime = 0;
  mintime = 0;
}

-- `event_sum`
pub event_sum : EventTimer → EventTimer → EventTimer
event_sum s i = record {
  trys = u64 (s.trys + i.trys);
  errs = u64 (s.errs + i.errs);
  bytesread = s.bytesread + i.bytesread;
  byteswritten = s.byteswritten + i.byteswritten;
  elapsedtime = s.elapsedtime + i.elapsedtime;
  elapsedtimesq = s.elapsedtimesq + i.elapsedtimesq;
  maxtime = if ltb s.maxtime i.maxtime then i.maxtime else s.maxtime;
  mintime =
      if s.mintime == 0 || ltb 0 i.mintime && ltb i.mintime s.mintime then i.mintime else s.mintime;
}

-- One timed exchange as the protocols write it: start the timer, count the bytes moved, stop the
-- timer, and count an error if the exchange failed before the run was being aborted.
pub record Exchange : Type 0 where
  pub started : Timeval
  pub stopped : Timeval
  pub received : ℕ
  pub sent : ℕ
  pub failed : Bool
  pub timeexpired : ℕ

-- `errs++`
count_error : Bool → EventTimer → EventTimer
count_error failed e = if failed then record e { errs = u64 (e.errs + 1) } else e

-- `ptcx->bytesread += n` and `ptcx->byteswritten += n`
count_bytes : Context → ℕ → ℕ → Context
count_bytes c received sent = record c {
  bytesread = c.bytesread + received;
  byteswritten = c.byteswritten + sent;
}

pub exchange : Context → EventTimer → Exchange → EventTimer
exchange c e x =
    let moved = count_bytes (event_start c x.started) x.received x.sent in
    count_error (x.failed && ltb x.timeexpired exit_fast)
      (event_stop x.timeexpired moved x.stopped e)

-- The exchanges of a thread, in order.
pub run : Context → EventTimer → List Exchange → EventTimer
run c e [] = e
run c e (x ∷ xs) = run c (exchange c e x) xs
