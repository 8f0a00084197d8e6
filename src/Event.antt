-- ===== src/Event.antt =====
-- src/event.c and src/event.h: the queue of timed events and its pool of worker threads. A worker
-- runs from one point where it does not hold the queue's lock to the next, so each operation below
-- is what happens under the lock. The time of day is an argument, and so is whether
-- `pthread_create` succeeds; a callback and its argument are addresses.
pub mod Place
pub mod Clock
pub mod Early
pub mod Pool
mod Examples
use mstone.Base.{
  ℕ, zero, suc, ◌+◌, ◌-◌, ◌*◌, ◌/◌, ◌%◌, Bool, true, false, not, ◌&&◌, ◌||◌, ◌==◌, ltb, leb,
  if◌then◌else◌, List, [], ◌∷◌, Option, none, some, ℤ, pos, negsuc, lt_int, int_of, u32_mod, length,
}
use mstone.Timer.{Timeval, timevaldouble}

-- `struct ev_queue_params`
pub record Params : Type 0 where
  pub min_sleep : ℤ
  pub lowat : ℤ
  pub hiwat : ℤ

-- `Event`
pub record Event : Type 0 where
  pub func : ℕ
  pub arg : ℕ
  pub time : Timeval

-- `struct ev_Queue`, its lock and condition variables left out
pub record Queue : Type 0 where
  pub p : Params
  pub waiting_threads : ℕ
  pub threads : ℕ
  pub finish : Bool
  pub head : List Event

-- `EV_DEFAULTS`
abbrev pub ev_defaults : Params
ev_defaults = record { min_sleep = pos 1000; lowat = pos 4; hiwat = pos 8 }

-- `x == EV_Q_UNSPEC`, which is -1, takes the default
specified : ℤ → ℤ → ℤ
specified (negsuc zero) default = default
specified (negsuc (suc n)) default = negsuc (suc n)
specified (pos n) default = pos n

-- the parameters that `ev_queue_create` copies into the queue
pub resolve : Option Params → Params
unfolding specified
resolve none = ev_defaults
resolve (some p) = record {
  min_sleep = specified p.min_sleep ev_defaults.min_sleep;
  lowat = specified p.lowat ev_defaults.lowat;
  hiwat = specified p.hiwat ev_defaults.hiwat;
}

-- `ev_queue_create` before it starts its workers
pub ev_queue_create : Option Params → Queue
ev_queue_create params = record {
  p = resolve params;
  waiting_threads = 0;
  threads = 0;
  finish = false;
  head = [];
}

-- `for (i = 0; i < lowat; i++)`: the number of workers that `ev_queue_create` starts
abbrev pub workers : ℤ → ℕ
workers (pos n) = n
workers (negsuc n) = 0

-- `timercmp (a, b, >)`
unfoldable pub timer_gt : Timeval → Timeval → Bool
timer_gt a b = ltb b.tv_sec a.tv_sec || a.tv_sec == b.tv_sec && ltb b.tv_usec a.tv_usec

-- The search of `ev_at` for the new element's place: how many elements it passes, and the list with
-- the element linked in.
pub d_place : Event → List Event → ℕ
d_place new_elt [] = 0
d_place new_elt (e ∷ es) =
    let rest = d_place new_elt es in if timer_gt new_elt.time e.time then rest + 1 else 0

pub link : Event → List Event → List Event
link new_elt [] = new_elt ∷ []
link new_elt (e ∷ es) =
    let rest = link new_elt es in
    if timer_gt new_elt.time e.time then e ∷ rest else new_elt ∷ e ∷ es

-- `ev_at` under the lock
pub insert : Event → Queue → Queue
insert new_elt q = record q { head = link new_elt q.head }

-- whether `ev_at` signals `available`: `q->head->next == NULL || q->head == new_elt`
pub signals : Event → Queue → Bool
signals new_elt q = length (link new_elt q.head) == 1 || d_place new_elt q.head == 0

-- the time for which `ev_after` calls `ev_at`
pub ev_after : Timeval → ℕ → Timeval
ev_after now millis =
    let sec = now.tv_sec + millis / 1000 in
    let usec = now.tv_usec + millis % 1000 * 1000 in
    if leb 1000000 usec
    then record { tv_sec = sec + 1; tv_usec = usec - 1000000 }
    else record { tv_sec = sec; tv_usec = usec }

-- `struct timespec`
pub record Timespec : Type 0 where
  pub ts_sec : ℕ
  pub ts_nsec : ℕ

-- the time until which `ev_queue_destroy` waits when `msec` is not 0
pub destroy_deadline : Timeval → ℕ → Timespec
destroy_deadline now msec =
    let wait = msec * 1000 % u32_mod in
    let usec = now.tv_usec + wait in
    if ltb 1000000 usec
    then record { ts_sec = now.tv_sec + usec / 1000000; ts_nsec = wait }
    else record { ts_sec = now.tv_sec; ts_nsec = wait }

-- whether `ev_queue_create_worker` starts a thread; `ok` says whether `pthread_create` succeeds
pub create_worker : Queue → Bool → Bool
create_worker q ok = not q.finish && ok

-- where a worker is when it has given up the lock; `leaves true` is the last one, which signals
-- `finished`
pub data Location : Type 0 where
  waits : Location
  executes : Event → Location
  leaves : Bool → Location

-- behind the worker's loop
leave : Queue → Queue × Location
leave q = (record q { threads = q.threads - 1 }, leaves (q.threads - 1 == 0))

-- the idle branches of the loop: too many idle threads, or a wait
idle : Queue → Queue × Location
unfolding leave
idle q =
    if lt_int q.p.hiwat (pos (q.waiting_threads + 1))
    then leave q
    else (record q { waiting_threads = q.waiting_threads + 1 }, waits)

-- `sleeptime`: a `long` number of microseconds, kept in an `int`
pub sleeptime : Timeval → Timeval → ℤ
sleeptime time now = int_of (timevaldouble time % u32_mod + (u32_mod - timevaldouble now % u32_mod))

-- the body of the worker's loop, by the state of the list
unfoldable dispatch : Queue → Timeval → List Event → Queue × Location
unfolding idle
dispatch q now [] = idle q
dispatch q now (e ∷ es) =
    if lt_int (sleeptime e.time now) q.p.min_sleep
    then (record q { head = es }, executes e)
    else idle q

-- `ev_queue_worker` from the test of its loop to the point where it gives up the lock
pub turn : Queue → Timeval → Queue × Location
unfolding leave dispatch
turn q now = if q.finish then leave q else dispatch q now q.head

-- a new worker takes the lock
pub start : Queue → Queue
start q = record q { threads = q.threads + 1 }

-- a waiting worker gets the lock back, and whether it then starts another worker
pub wake : Queue → Queue
wake q = record q { waiting_threads = q.waiting_threads - 1 }

pub spawns : Queue → Bool → Bool
unfolding create_worker
spawns q ok = lt_int (pos (q.waiting_threads - 1)) q.p.lowat && create_worker q ok
