-- ===== src/Event/Pool/Counts.antt =====
-- The queue's counters and the threads that have taken the lock.
use mstone.Base.{
  ℕ, ◌+◌, ◌≤◌, ◌≡◌, refl, sym, ap, ◌∙◌, if_cases, arith, List, [], ◌∷◌, ◌++◌, Option, length,
  length-append, pos, lt_int, true,
}
use mstone.Timer.{Timeval}
use mstone.Event.{
  Params, Event, Queue, ev_queue_create, resolve, insert, leave, idle, dispatch, turn, start, wake,
  sleeptime,
}
use mstone.Event.Place.{IsSorted, insert-IsSorted}
use mstone.Event.Pool.{
  System, create, settle, arrive, schedule, begin, resume, complete, finish, resume_finishing,
  Turns, begins, resumes, completes, Step, arrives, schedules, turns, finishes, finishes_inside,
  Reachable, created, stepped,
}

-- The counters `waiting_threads` and `threads` count the waiting threads, and these with the
-- executing ones; no more than `hiwat` threads wait; and the queue is sorted.
pub record IsConsistent (hiwat : ℕ) (s : System) : Type 0 where
  pub high : s.queue.p.hiwat ≡ pos hiwat
  pub waiting_is : s.queue.waiting_threads ≡ s.waiting
  pub threads_is : s.queue.threads ≡ s.waiting + length s.executing
  pub few_wait : s.waiting ≤ hiwat
  pub sorted : IsSorted s.queue.head

-- what holds under the lock, where the running worker is one more thread
record IsHeld (hiwat waiting busy : ℕ) (q : Queue) : Type 0 where
  high : q.p.hiwat ≡ pos hiwat
  waiting_is : q.waiting_threads ≡ waiting
  threads_is : q.threads ≡ waiting + busy + 1
  few_wait : waiting ≤ hiwat
  sorted : IsSorted q.head

leave-Consistent :
    (hiwat : ℕ) (s : System) (q : Queue)
    → IsHeld hiwat s.waiting (length s.executing) q
    → IsConsistent hiwat (settle s (leave q))
unfolding settle leave
leave-Consistent hiwat s q h = record {
  high = h.high;
  waiting_is = h.waiting_is;
  threads_is = omega (arith, h.threads_is);
  few_wait = h.few_wait;
  sorted = h.sorted;
}

idle-Consistent :
    (hiwat : ℕ) (s : System) (q : Queue)
    → IsHeld hiwat s.waiting (length s.executing) q
    → IsConsistent hiwat (settle s (idle q))
unfolding settle idle
idle-Consistent hiwat s q h =
    if_cases (λ x. IsConsistent hiwat (settle s x)) (lt_int q.p.hiwat (pos (q.waiting_threads + 1)))
      (λ many. leave-Consistent hiwat s q h)
      λ few. record {
        high = h.high;
        waiting_is = omega (arith, h.waiting_is);
        threads_is = omega (arith, h.threads_is);
        few_wait = ground (
          arith,
          h.waiting_is,
          sym (ap (λ z. lt_int z (pos (q.waiting_threads + 1))) h.high) ∙ few,
        );
        sorted = h.sorted;
      }

dispatch-Consistent :
    (hiwat : ℕ) (s : System) (q : Queue) (now : Timeval) (es : List Event)
    → IsHeld hiwat s.waiting (length s.executing) q
    → IsSorted es
    → IsConsistent hiwat (settle s (dispatch q now es))
unfolding settle dispatch
dispatch-Consistent hiwat s q now [] h k = idle-Consistent hiwat s q h
dispatch-Consistent hiwat s q now (e ∷ es) h k =
    if_cases (λ x. IsConsistent hiwat (settle s x)) (lt_int (sleeptime e.time now) q.p.min_sleep)
      (λ soon. record {
        high = h.high;
        waiting_is = h.waiting_is;
        threads_is = omega (arith, h.threads_is);
        few_wait = h.few_wait;
        sorted = k.1;
      })
      λ late. idle-Consistent hiwat s q h

turn-Consistent :
    (hiwat : ℕ) (s : System) (q : Queue) (now : Timeval)
    → IsHeld hiwat s.waiting (length s.executing) q
    → IsConsistent hiwat (settle s (turn q now))
unfolding turn
turn-Consistent hiwat s q now h =
    if_cases (λ x. IsConsistent hiwat (settle s x)) q.finish (λ f. leave-Consistent hiwat s q h)
      λ f. dispatch-Consistent hiwat s q now q.head h h.sorted

pub Turns-IsConsistent :
    (hiwat : ℕ) {s t : System} → Turns s t → IsConsistent hiwat s → IsConsistent hiwat t
unfolding begin resume complete start wake
Turns-IsConsistent hiwat (begins s n now e) c =
    turn-Consistent hiwat (record s { starting = n }) (start s.queue) now
      (record {
        high = c.high;
        waiting_is = c.waiting_is;
        threads_is = omega (arith, c.threads_is);
        few_wait = c.few_wait;
        sorted = c.sorted;
      })
Turns-IsConsistent hiwat (resumes s n ok now e) c =
    turn-Consistent hiwat _ (wake s.queue) now (record {
      high = c.high;
      waiting_is = omega (arith, e, c.waiting_is);
      threads_is = omega (arith, e, c.threads_is);
      few_wait = omega (arith, e, c.few_wait);
      sorted = c.sorted;
    })
Turns-IsConsistent hiwat (completes s before after x now e) c =
    turn-Consistent hiwat (record s { executing = before ++ after; executed = x ∷ s.executed })
      s.queue now
      (record {
        high = c.high;
        waiting_is = c.waiting_is;
        threads_is = omega (
          arith,
          c.threads_is,
          ap length e,
          length-append before (x ∷ after),
          length-append before after,
        );
        few_wait = c.few_wait;
        sorted = c.sorted;
      })

Step-IsConsistent :
    (hiwat : ℕ) {s t : System} → Step s t → IsConsistent hiwat s → IsConsistent hiwat t
unfolding arrive schedule finish insert resume_finishing wake
Step-IsConsistent hiwat (arrives s e f) c = record {
  high = c.high;
  waiting_is = c.waiting_is;
  threads_is = c.threads_is;
  few_wait = c.few_wait;
  sorted = c.sorted;
}
Step-IsConsistent hiwat (schedules s before after x e) c = record {
  high = c.high;
  waiting_is = c.waiting_is;
  threads_is = c.threads_is;
  few_wait = c.few_wait;
  sorted = (insert-IsSorted x s.queue c.sorted).0;
}
Step-IsConsistent hiwat (turns t) c = Turns-IsConsistent hiwat t c
Step-IsConsistent hiwat (finishes s) c = record {
  high = c.high;
  waiting_is = c.waiting_is;
  threads_is = c.threads_is;
  few_wait = c.few_wait;
  sorted = c.sorted;
}
Step-IsConsistent hiwat (finishes_inside s n ok now e) c =
    turn-Consistent hiwat _ (record (wake s.queue) { finish = true }) now
      (record {
        high = c.high;
        waiting_is = omega (arith, e, c.waiting_is);
        threads_is = omega (arith, e, c.threads_is);
        few_wait = omega (arith, e, c.few_wait);
        sorted = c.sorted;
      })

-- In every state that a queue whose `hiwat` is not negative can reach: `waiting_threads` counts the
-- threads that wait, `threads` these and the ones that execute an event, but none that has been
-- created and has not yet taken the lock; no more than `hiwat` threads wait, and the queue is sorted.
pub Reachable-IsConsistent :
    (params : Option Params) (hiwat : ℕ) (s : System)
    → (resolve params).hiwat ≡ pos hiwat
    → Reachable params s
    → IsConsistent hiwat s
unfolding create ev_queue_create
Reachable-IsConsistent params hiwat s h created = record {
  high = h;
  waiting_is = refl;
  threads_is = refl;
  few_wait = omega arith;
  sorted = tt;
}
Reachable-IsConsistent params hiwat s h (stepped r t) =
    Step-IsConsistent hiwat t (Reachable-IsConsistent params hiwat _ h r)
