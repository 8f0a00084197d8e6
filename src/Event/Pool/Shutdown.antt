-- ===== src/Event/Pool/Shutdown.antt =====
-- What happens to the threads and the events once `ev_queue_destroy` has set `finish`.
use mathlib.Core.List.{Perm}
use mathlib.Core.List.Perm
use mstone.Base.{
  zero, ◌<◌, ◌⊎◌, inl, inr, if◌then◌else◌, ℕ, suc, ◌+◌, ◌≡◌, refl, sym, ap, subst, Bool, true,
  false, List, [], ◌∷◌, ◌++◌, arith, length, length-append,
}
use mstone.Timer.{Timeval}
use mstone.Event.{Event, Queue, leave, turn, start, wake, spawns, create_worker}
use mstone.Event.Pool.Counts.{IsConsistent, Turns-IsConsistent}
use mstone.Event.Pool.Kept.{completed_kept}
use mstone.Event.Pool.{System, settle, begin, resume, complete, Turns, begins, resumes, completes}

-- the threads that there are
abbrev pub threads : System → ℕ
threads s = s.starting + s.waiting + length s.executing

-- What one worker's turn does in a queue that is finishing: a thread goes, no event is started, and
-- the events in the queue stay there.
pub record Drains (s t : System) : Type 0 where
  pub still : t.queue.finish ≡ true
  pub one_less : threads s ≡ suc (threads t)
  pub pending : t.queue.head ≡ s.queue.head
  pub begun : Perm (t.executing ++ t.executed) (s.executing ++ s.executed)

turn_finishing : (q : Queue) (now : Timeval) → q.finish ≡ true → turn q now ≡ leave q
unfolding turn
turn_finishing q now f = simp f

finishing-spawns : (q : Queue) (ok : Bool) → q.finish ≡ true → spawns q ok ≡ false
unfolding spawns create_worker
finishing-spawns q ok f = ground arith

leaving-Drains :
    (s s' : System) (q : Queue) (now : Timeval)
    → q.finish ≡ true
    → q.head ≡ s.queue.head
    → threads s ≡ suc (threads s')
    → Perm (s'.executing ++ s'.executed) (s.executing ++ s.executed)
    → Drains s (settle s' (turn q now))
unfolding settle leave
leaving-Drains s s' q now f head less same =
    subst (λ x. Drains s (settle s' x)) (sym (turn_finishing q now f))
      (record { still = f; one_less = less; pending = head; begun = same })

resumed_less :
    (starting waiting n : ℕ) (b : Bool) (rest : ℕ)
    → b ≡ false
    → waiting ≡ suc n
    → starting + waiting + rest ≡ suc ((if b then starting + 1 else starting) + n + rest)
resumed_less starting waiting n b rest h k = ground arith

-- Once `finish` is set every turn of a worker, whichever it is, ends that worker, starts no other,
-- and takes no event off the queue: the events that are still in the queue are not executed.
pub Turns-Drains : {s t : System} → Turns s t → s.queue.finish ≡ true → Drains s t
unfolding begin resume complete start wake
Turns-Drains (begins s n now h) f =
    leaving-Drains s (record s { starting = n }) (start s.queue) now f refl (omega (arith, h))
      (Perm.refl (s.executing ++ s.executed))
Turns-Drains (resumes s n ok now h) f =
    leaving-Drains s _ (wake s.queue) now f refl
      (resumed_less s.starting s.waiting n (spawns s.queue ok) (length s.executing)
        (finishing-spawns s.queue ok f) h)
      (Perm.refl (s.executing ++ s.executed))
Turns-Drains (completes s before after e now h) f =
    leaving-Drains s (record s { executing = before ++ after; executed = e ∷ s.executed }) s.queue
      now f refl
      (omega (arith, ap length h, length-append before (e ∷ after), length-append before after))
      (subst (λ l. Perm ((before ++ after) ++ (e ∷ s.executed)) (l ++ s.executed)) (sym h)
        (Perm.symm (completed_kept before after s.executed e)))

-- `n` turns of workers, one after the other.
pub data Run : ℕ → System → System → Type 0 where
  rest : {s : System} → Run 0 s s
  turned : {n : ℕ} {s t u : System} → Turns s t → Run n t u → Run (suc n) s u

-- All threads have ended, and `finished` has been signalled.
pub record IsDown (s : System) : Type 0 where
  pub none_left : threads s ≡ 0
  pub signalled : s.finished ≡ true

leaving_signals :
    (s : System) (q : Queue) (now : Timeval)
    → q.finish ≡ true
    → (threads s ≡ 0 → q.threads ≡ 1)
    → threads (settle s (turn q now)) ≡ 0
    → (settle s (turn q now)).finished ≡ true
unfolding settle leave
leaving_signals s q now f one =
    subst (λ x. threads (settle s x) ≡ 0 → (settle s x).finished ≡ true)
      (sym (turn_finishing q now f)) (λ none. ground (arith, one none))

Turns-signals :
    (hiwat : ℕ) {s t : System}
    → Turns s t
    → s.queue.finish ≡ true
    → IsConsistent hiwat s
    → threads t ≡ 0
    → t.finished ≡ true
unfolding begin resume complete start wake
Turns-signals hiwat (begins s n now h) f c =
    leaving_signals (record s { starting = n }) (start s.queue) now f
      λ none. omega (arith, none, c.threads_is)
Turns-signals hiwat (resumes s n ok now h) f c =
    leaving_signals _ (wake s.queue) now f λ none. omega (arith, none, h, c.threads_is)
Turns-signals hiwat (completes s before after e now h) f c =
    leaving_signals (record s { executing = before ++ after; executed = e ∷ s.executed }) s.queue
      now f
      λ none. omega (
        arith,
        none,
        ap length h,
        length-append before (e ∷ after),
        length-append before after,
        c.threads_is,
      )

zero_or_more : (n : ℕ) → (n ≡ 0) ⊎ (0 < n)
zero_or_more zero = inl refl
zero_or_more (suc n) = inr (omega arith)

abbrev pub Turning : System → Type 0
Turning s = (t : System) × Turns s t

turning :
    (now : Timeval) (s : System) (starting waiting : ℕ) (executing : List Event)
    → s.starting ≡ starting
    → s.waiting ≡ waiting
    → s.executing ≡ executing
    → 0 < starting + waiting + length executing
    → Turning s
turning now s (suc n) w x hs hw hx p = (begin s n now, begins s n now hs)
turning now s zero (suc n) x hs hw hx p = (resume s n false now, resumes s n false now hw)
turning now s zero zero (e ∷ es) hs hw hx p = (complete s es e now, completes s [] es e now hx)
turning now s zero zero [] hs hw hx p = absurd (omega arith)

-- Behind a run, every thread that has not ended can take a turn, and if there is none, `finished`
-- has been signalled.
pub record Winds (n : ℕ) (s u : System) : Type 0 where
  pub counts : n + threads u ≡ threads s
  pub ends : IsDown u ⊎ ((0 < threads u) × Turning u)

ends_or_goes_on :
    (now : Timeval) (u : System)
    → (threads u ≡ 0 → u.finished ≡ true)
    → IsDown u ⊎ ((0 < threads u) × Turning u)
ends_or_goes_on now u signalled = elim (zero_or_more (threads u)) [
  | inl e ↦ inl (record { none_left = e; signalled = signalled e })
  | inr p ↦ inr (p, turning now u u.starting u.waiting u.executing refl refl refl p)
]

Run-Winds :
    (hiwat : ℕ) (now : Timeval) {n : ℕ} {s u : System}
    → Run n s u
    → IsConsistent hiwat s
    → s.queue.finish ≡ true
    → (threads s ≡ 0 → s.finished ≡ true)
    → Winds n s u
Run-Winds hiwat now {n = zero} {s = s} rest c f signalled = record {
  counts = omega arith;
  ends = ends_or_goes_on now s signalled;
}
Run-Winds hiwat now {n = suc n} (turned turn run) c f signalled =
    let d = Turns-Drains turn f in
    let w =
      Run-Winds hiwat now run (Turns-IsConsistent hiwat turn c) d.still
        (Turns-signals hiwat turn f c) in
    record { counts = omega (arith, w.counts, d.one_less); ends = w.ends }

-- From every consistent state in which `finish` is set and there are threads, whichever turns the
-- workers take and in whatever order: each turn ends one thread and makes none; as long as there is
-- a thread, one can take a turn; and when there is none, `finished` has been signalled, for which
-- `ev_queue_destroy` waits.
pub finish-Winds :
    (hiwat : ℕ) (now : Timeval) (n : ℕ) (s u : System)
    → IsConsistent hiwat s
    → s.queue.finish ≡ true
    → 0 < threads s
    → Run n s u
    → Winds n s u
finish-Winds hiwat now n s u c f p run =
    Run-Winds hiwat now run c f λ none. absurd (omega (arith, none, p))
