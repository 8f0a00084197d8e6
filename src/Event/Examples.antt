-- ===== src/Event/Examples.antt =====
-- The theorems about the event queue at concrete inputs, and tests.
use mathlib.Core.List.{Perm}
use mstone.Base.{ℕ, ◌+◌, ◌*◌, ◌≤◌, ◌≡◌, refl, ◌↔◌, true, false, [], ◌∷◌, pos, negsuc, arith}
use mstone.Timer.{Timeval, timevaldouble}
use mstone.Event.{
  Params, Event, Queue, insert, signals, link, timer_gt, ev_after, destroy_deadline, turn,
}
use mstone.Event.Clock.{IsNormal, ev_after-exact, nanoseconds, destroy_deadline_passed}
use mstone.Event.Place.{IsSorted, insert-IsSorted, Placed, insert-Placed, signals-insert}
use mstone.Event.Early.{Turned, turn-Turned}

abbrev clock : Timeval
clock = record { tv_sec = 100; tv_usec = 900000 }

abbrev event_at : ℕ → ℕ → Event
event_at func sec = record { func = func; arg = 0; time = record { tv_sec = sec; tv_usec = 0 } }

abbrev small : Params
small = record { min_sleep = negsuc 0; lowat = pos 2; hiwat = pos 3 }

abbrev busy : Queue
busy = record {
  p = record { min_sleep = pos 1000; lowat = pos 2; hiwat = pos 3 };
  waiting_threads = 0;
  threads = 1;
  finish = false;
  head = event_at 1 90 ∷ event_at 2 200 ∷ [];
}

ev_after-exact_example :
    IsNormal (ev_after clock 1250)
    × (timevaldouble (ev_after clock 1250) ≡ timevaldouble clock + 1250 * 1000)
ev_after-exact_example = ev_after-exact clock 1250 (omega arith)

destroy_deadline_passed_example :
    nanoseconds (destroy_deadline clock 100) ≤ timevaldouble clock * 1000
destroy_deadline_passed_example = destroy_deadline_passed clock 100 (omega arith) (omega arith)

insert-IsSorted_example :
    IsSorted (insert (event_at 3 200) busy).head
    × Perm (insert (event_at 3 200) busy).head (event_at 3 200 ∷ busy.head)
unfolding timer_gt
insert-IsSorted_example = insert-IsSorted (event_at 3 200) busy ((refl, tt), (tt, tt))

insert-Placed_example : Placed (event_at 3 200) busy.head (insert (event_at 3 200) busy).head
unfolding timer_gt
insert-Placed_example = insert-Placed (event_at 3 200) busy ((refl, tt), (tt, tt))

signals-insert_example :
    (signals (event_at 3 200) busy ≡ true)
    ↔ ((insert (event_at 3 200) busy).head ≡ event_at 3 200 ∷ busy.head)
signals-insert_example = signals-insert (event_at 3 200) busy

-- Of two events for the same time the one scheduled last comes first.
tie_order :
    (insert (event_at 3 200) busy).head ≡ event_at 1 90 ∷ event_at 3 200 ∷ event_at 2 200 ∷ []
unfolding insert link timer_gt
tie_order = refl

turn-Turned_example : Turned 1000 busy clock (turn busy clock)
turn-Turned_example = turn-Turned 1000 busy clock refl

abbrev far : Queue
far = record busy { head = event_at 1 3000 ∷ [] }
