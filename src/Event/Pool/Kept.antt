-- ===== src/Event/Pool/Kept.antt =====
-- No event is lost, and none is executed twice.
use mathlib.Core.List.{Perm, perm_middle}
use mathlib.Core.List.Perm
use mstone.Base.{
  ◌+◌, ◌≡◌, refl, sym, subst, if_cases, List, [], ◌∷◌, ◌++◌, Option, pos, lt_int, true,
}
use mstone.Timer.{Timeval}
use mstone.Event.{
  Params, Event, Queue, Location, waits, executes, leaves, ev_queue_create, insert, leave, idle,
  dispatch, turn, start, wake, sleeptime, link,
}
use mstone.Event.Place.{link-Perm}
use mstone.Event.Pool.{
  System, create, settle, arrive, schedule, begin, resume, complete, finish, resume_finishing,
  Turns, begins, resumes, completes, Step, arrives, schedules, turns, finishes, finishes_inside,
  Reachable, created, stepped,
}

-- all events in the system, by what has become of them
abbrev pub everywhere : System → List Event
everywhere s = s.arriving ++ (s.queue.head ++ (s.executing ++ s.executed))

-- Every event that `ev_at` let pass is in one place, as often as it was scheduled.
abbrev pub IsKept : System → Type 0
IsKept s = Perm s.scheduled (everywhere s)

abbrev Keeps : System → List Event → Queue × Location → Type 0
Keeps s head x =
    Perm (s.arriving ++ (head ++ (s.executing ++ s.executed))) (everywhere (settle s x))

leave-Keeps : (s : System) (q : Queue) → Keeps s q.head (leave q)
unfolding settle leave
leave-Keeps s q = Perm.refl (s.arriving ++ (q.head ++ (s.executing ++ s.executed)))

idle-Keeps : (s : System) (q : Queue) → Keeps s q.head (idle q)
unfolding settle idle
idle-Keeps s q =
    if_cases (Keeps s q.head) (lt_int q.p.hiwat (pos (q.waiting_threads + 1)))
      (λ many. leave-Keeps s q)
      λ few. Perm.refl (s.arriving ++ (q.head ++ (s.executing ++ s.executed)))

dispatch-Keeps :
    (s : System) (q : Queue) (now : Timeval) (es : List Event)
    → q.head ≡ es
    → Keeps s es (dispatch q now es)
unfolding settle dispatch
dispatch-Keeps s q now [] h = subst (λ es. Keeps s es (idle q)) h (idle-Keeps s q)
dispatch-Keeps s q now (e ∷ es) h =
    if_cases (Keeps s (e ∷ es)) (lt_int (sleeptime e.time now) q.p.min_sleep)
      (λ soon. Perm.append_left s.arriving (Perm.symm (perm_middle es (s.executing ++ s.executed))))
      λ late. subst (λ es. Keeps s es (idle q)) h (idle-Keeps s q)

turn-Keeps : (s : System) (q : Queue) (now : Timeval) → Keeps s q.head (turn q now)
unfolding turn
turn-Keeps s q now =
    if_cases (Keeps s q.head) q.finish (λ f. leave-Keeps s q)
      λ f. dispatch-Keeps s q now q.head refl

settle_scheduled : (s : System) (x : Queue × Location) → (settle s x).scheduled ≡ s.scheduled
unfolding settle
settle_scheduled s (q, waits) = refl
settle_scheduled s (q, executes e) = refl
settle_scheduled s (q, leaves last) = refl

turn-IsKept :
    (s : System) (q : Queue) (now : Timeval)
    → Perm s.scheduled (s.arriving ++ (q.head ++ (s.executing ++ s.executed)))
    → IsKept (settle s (turn q now))
turn-IsKept s q now h =
    subst (λ l. Perm l (everywhere (settle s (turn q now)))) (sym (settle_scheduled s (turn q now)))
      (Perm.trans h (turn-Keeps s q now))

pub completed_kept :
    (before after executed : List Event) (e : Event)
    → Perm ((before ++ (e ∷ after)) ++ executed) ((before ++ after) ++ (e ∷ executed))
completed_kept before after executed e =
    Perm.trans (Perm.append_right executed (perm_middle before after))
      (Perm.symm (perm_middle (before ++ after) executed))

scheduled_kept :
    (before after head rest : List Event) (e : Event)
    → Perm ((before ++ (e ∷ after)) ++ (head ++ rest)) ((before ++ after) ++ (link e head ++ rest))
scheduled_kept before after head rest e =
    Perm.trans (Perm.append_right (head ++ rest) (perm_middle before after)) (
      Perm.trans (Perm.symm (perm_middle (before ++ after) (head ++ rest))) (
        Perm.append_left (before ++ after) (Perm.append_right rest (Perm.symm (link-Perm e head)))))

Turns-IsKept : {s t : System} → Turns s t → IsKept s → IsKept t
unfolding begin resume complete start wake
Turns-IsKept (begins s n now h) k = turn-IsKept (record s { starting = n }) (start s.queue) now k
Turns-IsKept (resumes s n ok now h) k = turn-IsKept _ (wake s.queue) now k
Turns-IsKept (completes s before after e now h) k =
    turn-IsKept (record s { executing = before ++ after; executed = e ∷ s.executed }) s.queue now
      (Perm.trans
        (subst (λ l. Perm s.scheduled (s.arriving ++ (s.queue.head ++ (l ++ s.executed)))) h k)
        (Perm.append_left s.arriving
          (Perm.append_left s.queue.head (completed_kept before after s.executed e))))

Step-IsKept : {s t : System} → Step s t → IsKept s → IsKept t
unfolding arrive schedule finish insert resume_finishing wake
Step-IsKept (arrives s e f) k = Perm.cons e k
Step-IsKept (schedules s before after e h) k =
    Perm.trans
      (subst (λ l. Perm s.scheduled (l ++ (s.queue.head ++ (s.executing ++ s.executed)))) h k)
      (scheduled_kept before after s.queue.head (s.executing ++ s.executed) e)
Step-IsKept (turns t) k = Turns-IsKept t k
Step-IsKept (finishes s) k = k
Step-IsKept (finishes_inside s n ok now h) k =
    turn-IsKept _ (record (wake s.queue) { finish = true }) now k

-- In every state that a new queue can reach, every event that `ev_at` has accepted is either on its
-- way into the queue, or in it, or being executed by one worker, or executed: none is lost and none
-- is executed twice, whatever the threads do.
pub Reachable-IsKept : (params : Option Params) (s : System) → Reachable params s → IsKept s
unfolding create ev_queue_create
Reachable-IsKept params s created = Perm.refl []
Reachable-IsKept params s (stepped r t) = Step-IsKept t (Reachable-IsKept params _ r)
