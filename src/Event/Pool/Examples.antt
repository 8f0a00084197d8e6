-- ===== src/Event/Pool/Examples.antt =====
-- The theorems about the event queue's threads at concrete inputs, and tests.
use mstone.Base.{ℕ, ◌≡◌, refl, true, [], ◌∷◌, some, pos, negsuc, arith}
use mstone.Timer.{Timeval}
use mstone.Event.{
  Params, Event, ev_queue_create, resolve, insert, link, turn, dispatch, idle, leave, start,
  specified, sleeptime,
}
use mstone.Event.Pool.{
  System, create, begin, arrive, schedule, finish, begins, arrives, schedules, turns, finishes,
  Reachable, created, stepped, settle,
}
use mstone.Event.Pool.Counts.{IsConsistent, Reachable-IsConsistent}
use mstone.Event.Pool.Kept.{IsKept, Reachable-IsKept}
use mstone.Event.Pool.Shutdown.{Drains, Turns-Drains, rest, turned, Winds, finish-Winds}

abbrev clock : Timeval
clock = record { tv_sec = 100; tv_usec = 900000 }

abbrev event_at : ℕ → ℕ → Event
event_at func sec = record { func = func; arg = 0; time = record { tv_sec = sec; tv_usec = 0 } }

abbrev small : Params
small = record { min_sleep = negsuc 0; lowat = pos 2; hiwat = pos 3 }

abbrev asked : System
asked = schedule (arrive (create (some small)) (event_at 1 90)) [] (event_at 1 90)

asked-Reachable : Reachable (some small) asked
unfolding create ev_queue_create arrive
asked-Reachable =
    stepped (stepped created (arrives (create (some small)) (event_at 1 90) refl))
      (schedules (arrive (create (some small)) (event_at 1 90)) [] [] (event_at 1 90) refl)

abbrev under_way : System
under_way = begin asked 1 clock

under_way-Reachable : Reachable (some small) under_way
unfolding create ev_queue_create arrive schedule resolve specified
under_way-Reachable = stepped asked-Reachable (turns (begins asked 1 clock refl))

Reachable-IsConsistent_example : IsConsistent 3 under_way
unfolding resolve specified
Reachable-IsConsistent_example =
    Reachable-IsConsistent (some small) 3 under_way refl under_way-Reachable

Reachable-IsKept_example : IsKept under_way
Reachable-IsKept_example = Reachable-IsKept (some small) under_way under_way-Reachable

under_way_executes : under_way.executing ≡ event_at 1 90 ∷ []
unfolding create ev_queue_create arrive schedule resolve specified begin settle turn dispatch idle
    insert link start sleeptime
under_way_executes = refl

abbrev closing : System
closing = finish asked

Turns-Drains_example : Drains closing (begin closing 1 clock)
unfolding create ev_queue_create arrive schedule resolve specified finish
Turns-Drains_example = Turns-Drains (begins closing 1 clock refl) refl

finish-Winds_example : Winds 1 closing (begin closing 1 clock)
unfolding create ev_queue_create arrive schedule resolve specified finish
finish-Winds_example =
    finish-Winds 3 clock 1 closing (begin closing 1 clock)
      (Reachable-IsConsistent (some small) 3 closing refl
        (stepped asked-Reachable (finishes asked)))
      refl (omega arith) (turned (begins closing 1 clock refl) rest)

-- `finished` is signalled by the first worker that leaves although the second has not started.
signalled_early : ((begin closing 1 clock).finished ≡ true) × ((begin closing 1 clock).starting ≡ 1)
unfolding create ev_queue_create arrive schedule resolve specified begin settle turn leave start
    finish insert
signalled_early = (refl, refl)
