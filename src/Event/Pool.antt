-- ===== src/Event/Pool.antt =====
-- src/event.c, the queue with its threads as a system of steps: each step is what one thread does
-- between taking the queue's lock and giving it up. Wake-ups may be spurious, and a step may come at
-- any time of day, so every order in which threads can run is a sequence of these steps.
pub mod Counts
pub mod Kept
pub mod Shutdown
mod Examples
use mstone.Base.{
  ℕ, suc, ◌+◌, ◌≡◌, Bool, true, false, ◌||◌, if◌then◌else◌, List, [], ◌∷◌, ◌++◌, Option,
}
use mstone.Timer.{Timeval}
use mstone.Event.{
  Params, Event, Queue, Location, waits, executes, leaves, ev_queue_create, workers, insert, turn,
  start, wake, spawns,
}

-- The queue, the threads by where they are, and the events by what has become of them: `arriving`
-- events are those for which `ev_at` has passed its test of `finish` and waits for the lock;
-- `scheduled` are all that it has let pass. `finished` says whether that condition was signalled.
pub record System : Type 0 where
  pub queue : Queue
  pub starting : ℕ
  pub waiting : ℕ
  pub executing : List Event
  pub arriving : List Event
  pub executed : List Event
  pub scheduled : List Event
  pub finished : Bool

-- the system that `ev_queue_create` leaves
pub create : Option Params → System
create params =
    let q = ev_queue_create params in
    record {
      queue = q;
      starting = workers q.p.lowat;
      waiting = 0;
      executing = [];
      arriving = [];
      executed = [];
      scheduled = [];
      finished = false;
    }

-- where a worker is after its turn
pub settle : System → Queue × Location → System
settle s (q, waits) = record s { queue = q; waiting = s.waiting + 1 }
settle s (q, executes e) = record s { queue = q; executing = e ∷ s.executing }
settle s (q, leaves last) = record s { queue = q; finished = s.finished || last }

-- `ev_at` in two parts, in front of the lock and under it
pub arrive : System → Event → System
arrive s e = record s { arriving = e ∷ s.arriving; scheduled = e ∷ s.scheduled }

pub schedule : System → List Event → Event → System
schedule s others e = record s { queue = insert e s.queue; arriving = others }

-- a new worker's first turn
pub begin : System → ℕ → Timeval → System
begin s n now = settle (record s { starting = n }) (turn (start s.queue) now)

-- a worker's turn after a wait
pub resume : System → ℕ → Bool → Timeval → System
resume s n ok now =
    settle
      (record s {
        waiting = n;
        starting = if spawns s.queue ok then s.starting + 1 else s.starting;
      })
      (turn (wake s.queue) now)

-- a worker's turn after it has executed an event
pub complete : System → List Event → Event → Timeval → System
complete s others e now =
    settle (record s { executing = others; executed = e ∷ s.executed }) (turn s.queue now)

-- the first statement of `ev_queue_destroy`
pub finish : System → System
finish s = record s { queue = record s.queue { finish = true } }

-- A worker's turn after a wait, when `finish` is set between its call of `ev_queue_create_worker` and
-- the test of its loop.
pub resume_finishing : System → ℕ → Bool → Timeval → System
resume_finishing s n ok now =
    settle
      (record s {
        waiting = n;
        starting = if spawns s.queue ok then s.starting + 1 else s.starting;
      })
      (turn (record (wake s.queue) { finish = true }) now)

-- The turns of the workers.
pub data Turns : System → System → Type 0 where
  begins : (s : System) (n : ℕ) (now : Timeval) → s.starting ≡ suc n → Turns s (begin s n now)
  resumes :
      (s : System) (n : ℕ) (ok : Bool) (now : Timeval)
      → s.waiting ≡ suc n
      → Turns s (resume s n ok now)
  completes :
      (s : System) (before after : List Event) (e : Event) (now : Timeval)
      → s.executing ≡ before ++ (e ∷ after)
      → Turns s (complete s (before ++ after) e now)

-- All steps. `ev_queue_destroy` sets `finish` without the lock, so at any time. A turn reads it in the
-- test of the worker's loop, and before, after a wait, when it starts another worker. If it is set
-- before the first of these, or behind the test, the turn is as if it was set before or behind it.
pub data Step : System → System → Type 0 where
  arrives : (s : System) (e : Event) → s.queue.finish ≡ false → Step s (arrive s e)
  schedules :
      (s : System) (before after : List Event) (e : Event)
      → s.arriving ≡ before ++ (e ∷ after)
      → Step s (schedule s (before ++ after) e)
  turns : {s t : System} → Turns s t → Step s t
  finishes : (s : System) → Step s (finish s)
  finishes_inside :
      (s : System) (n : ℕ) (ok : Bool) (now : Timeval)
      → s.waiting ≡ suc n
      → Step s (resume_finishing s n ok now)

-- The systems that a new queue can become.
pub data Reachable (params : Option Params) : System → Type 0 where
  created : Reachable params (create params)
  stepped : {s t : System} → Reachable params s → Step s t → Reachable params t
