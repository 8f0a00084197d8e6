-- ===== src/Event/Clock.antt =====
-- `ev_after` and `ev_queue_destroy`: the times they compute.
use mstone.Base.{ℕ, ◌+◌, ◌*◌, ◌≤◌, ◌<◌, ◌≡◌, arith}
use mstone.Timer.{Timeval, timevaldouble}
use mstone.Event.{ev_after, Timespec, destroy_deadline}

abbrev pub IsNormal : Timeval → Type 0
IsNormal t = t.tv_usec < 1000000

-- The time for which `ev_after` schedules is exactly `millis` milliseconds from now, and its
-- microseconds are less than a second, as those of the clock are.
pub ev_after-exact :
    (now : Timeval) (millis : ℕ)
    → IsNormal now
    → IsNormal (ev_after now millis)
      × (timevaldouble (ev_after now millis) ≡ timevaldouble now + millis * 1000)
unfolding ev_after
ev_after-exact now millis h = ground arith

-- a `struct timespec` in nanoseconds
abbrev pub nanoseconds : Timespec → ℕ
nanoseconds t = t.ts_sec * 1000000000 + t.ts_nsec

-- `ev_queue_destroy` waits until a time that does not depend on the microseconds of the clock,
-- unless they carry: with a timeout that is smaller than the clock's microseconds, counted as
-- milliseconds, and that does not carry, the time it waits for has passed already.
pub destroy_deadline_passed :
    (now : Timeval) (msec : ℕ)
    → now.tv_usec + msec * 1000 ≤ 1000000
    → msec ≤ now.tv_usec
    → nanoseconds (destroy_deadline now msec) ≤ timevaldouble now * 1000
unfolding destroy_deadline
destroy_deadline_passed now msec h k = ground arith
