-- ===== src/Event/Place.antt =====
-- `ev_at` keeps the list of events sorted by time, and links in the new event.
use mathlib.Core.List.{Perm, head-eq_of_cons-eq}
use mathlib.Core.List.Perm
use mstone.Base.{
  ◌+◌, ◌≡◌, refl, ◌↔◌, true, false, inl, inr, Bool-cases, arith, List, [], ◌∷◌, ◌++◌, ap, ◌==◌,
  ◌||◌, length,
}
use mstone.Timer.{Timeval}
use mstone.Event.{Event, Queue, timer_gt, link, d_place, insert, signals}

-- No event of the list is due before `t`.
abbrev pub AllFrom : Timeval → List Event → Type 0
AllFrom t [] = Unit {0}
AllFrom t (e ∷ es) = (timer_gt t e.time ≡ false) × AllFrom t es

-- Every event is due no later than those behind it.
abbrev pub IsSorted : List Event → Type 0
IsSorted [] = Unit {0}
IsSorted (e ∷ es) = AllFrom e.time es × IsSorted es

timer_gt_trans :
    (a b c : Timeval) → timer_gt a b ≡ false → timer_gt b c ≡ false → timer_gt a c ≡ false
unfolding timer_gt
timer_gt_trans a b c h k = ground arith

timer_gt_asym : (a b : Timeval) → timer_gt a b ≡ true → timer_gt b a ≡ false
unfolding timer_gt
timer_gt_asym a b h = ground arith

AllFrom-trans :
    (a b : Timeval) (es : List Event) → timer_gt a b ≡ false → AllFrom b es → AllFrom a es
AllFrom-trans a b [] h k = tt
AllFrom-trans a b (e ∷ es) h k = (timer_gt_trans a b e.time h k.0, AllFrom-trans a b es h k.1)

link-AllFrom :
    (t : Timeval) (n : Event) (es : List Event)
    → timer_gt t n.time ≡ false
    → AllFrom t es
    → AllFrom t (link n es)
unfolding link
link-AllFrom t n [] h k = (h, tt)
link-AllFrom t n (e ∷ es) h k = elim (Bool-cases (timer_gt n.time e.time)) [
  | inl later ↦ rw later (k.0, link-AllFrom t n es h k.1)
  | inr here ↦ rw here (h, k)
]

link-IsSorted : (n : Event) (es : List Event) → IsSorted es → IsSorted (link n es)
unfolding link
link-IsSorted n [] h = (tt, tt)
link-IsSorted n (e ∷ es) h = elim (Bool-cases (timer_gt n.time e.time)) [
  | inl later ↦
      rw later
        (link-AllFrom e.time n es (timer_gt_asym n.time e.time later) h.0, link-IsSorted n es h.1)
  | inr here ↦ rw here ((here, AllFrom-trans n.time e.time es here h.0), h)
]

pub link-Perm : (n : Event) (es : List Event) → Perm (link n es) (n ∷ es)
unfolding link
link-Perm n [] = Perm.refl (n ∷ [])
link-Perm n (e ∷ es) = elim (Bool-cases (timer_gt n.time e.time)) [
  | inl later ↦ rw later (Perm.trans (Perm.cons e (link-Perm n es)) (Perm.swap n e es))
  | inr here ↦ rw here (Perm.refl (n ∷ e ∷ es))
]

-- `ev_at` keeps the queue sorted by time: the head is always an earliest event. It adds the new
-- event and neither loses nor repeats one.
pub insert-IsSorted :
    (n : Event) (q : Queue)
    → IsSorted q.head
    → IsSorted (insert n q).head × Perm (insert n q).head (n ∷ q.head)
unfolding insert
insert-IsSorted n q h = (link-IsSorted n q.head h, link-Perm n q.head)

-- Every event of the list is due before `t`.
abbrev pub AllBefore : Timeval → List Event → Type 0
AllBefore t [] = Unit {0}
AllBefore t (e ∷ es) = (timer_gt t e.time ≡ true) × AllBefore t es

-- Where `n` stands in the new list: behind the events that are due before it, in front of all the
-- others, those for the same time included.
pub record Placed (n : Event) (old new : List Event) : Type 0 where
  pub passed : List Event
  pub behind : List Event
  pub old_is : old ≡ passed ++ behind
  pub new_is : new ≡ passed ++ (n ∷ behind)
  pub earlier : AllBefore n.time passed
  pub later : AllFrom n.time behind

Placed-cons :
    (n e : Event) (old new : List Event)
    → timer_gt n.time e.time ≡ true
    → Placed n old new
    → Placed n (e ∷ old) (e ∷ new)
Placed-cons n e old new later h = record {
  passed = e ∷ h.passed;
  behind = h.behind;
  old_is = ap (◌∷◌ e) h.old_is;
  new_is = ap (◌∷◌ e) h.new_is;
  earlier = (later, h.earlier);
  later = h.later;
}

link-Placed : (n : Event) (es : List Event) → IsSorted es → Placed n es (link n es)
unfolding link
link-Placed n [] h = record {
  passed = [];
  behind = [];
  old_is = refl;
  new_is = refl;
  earlier = tt;
  later = tt;
}
link-Placed n (e ∷ es) h = elim (Bool-cases (timer_gt n.time e.time)) [
  | inl later ↦ rw later (Placed-cons n e es (link n es) later (link-Placed n es h.1))
  | inr here ↦ rw here (record {
    passed = [];
    behind = e ∷ es;
    old_is = refl;
    new_is = refl;
    earlier = tt;
    later = (here, AllFrom-trans n.time e.time es here h.0);
  })
]

-- In a sorted queue `ev_at` places the new event behind those that are due before it and in front
-- of all the others: of events for the same time, the one scheduled last is executed first.
pub insert-Placed : (n : Event) (q : Queue) → IsSorted q.head → Placed n q.head (insert n q).head
unfolding insert
insert-Placed n q h = link-Placed n q.head h

length-link : (n : Event) (es : List Event) → length (link n es) ≡ length es + 1
unfolding link
length-link n [] = refl
length-link n (e ∷ es) = ground (arith, length-link n es)

not_after_itself : (t : Timeval) → timer_gt t t ≡ false
unfolding timer_gt
not_after_itself t = ground arith

passed_itself : (n e : Event) → timer_gt n.time e.time ≡ true → e ≡ n → ⊥
passed_itself n e h same =
    ground (arith, not_after_itself n.time, ap (λ (x : Event). timer_gt n.time x.time) same)

link_first :
    (n : Event) (es : List Event)
    → ((length (link n es) == 1 || d_place n es == 0) ≡ true) ↔ (link n es ≡ n ∷ es)
unfolding link d_place
link_first n [] = (λ h. refl, λ h. refl)
link_first n (e ∷ es) = elim (Bool-cases (timer_gt n.time e.time)) [
  | inl later ↦ rw later (
      (
        λ h. absurd (ground (arith, length-link n es)),
        λ h. absurd (passed_itself n e later (head-eq_of_cons-eq h)),
      ))
  | inr here ↦ rw here (λ h. refl, λ h. ground arith)
]

-- `ev_at` signals a waiting worker exactly when the new event becomes the head of the queue.
pub signals-insert :
    (n : Event) (q : Queue) → (signals n q ≡ true) ↔ ((insert n q).head ≡ n ∷ q.head)
unfolding signals insert
signals-insert n q = link_first n q.head
