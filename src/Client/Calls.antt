-- ===== src/Client/Calls.antt =====
-- src/client.c, `do_command`: the calls of a protocol follow a session.
use mstone.Base.{
  ℕ, zero, suc, ◌+◌, ◌-◌, ◌≡◌, refl, List, [], ◌∷◌, ◌++◌, Option, none, some, ltb, if_cases, ℤ, pos,
  negsuc, ap, ◌∙◌, ◌*◌, ◌/◌,
}
use mstone.Client.{
  Act, started, looped, ended, waited, idled, Run, exit_soon, did, idle_for, delayed, tot_delay,
  idle_left, idle_after_start, wait_until, start_delayed,
}

-- What a protocol is promised, as an automaton: no call before the start, then at most so many
-- calls of its loop, then one end, and no call behind it. Idle time is allowed everywhere.
pub data Phase : Type 0 where
  ready over : Phase
  serving : ℕ → Phase

abbrev pub on_start : ℕ → Phase → Option Phase
on_start n ready = some (serving n)
on_start n over = none
on_start n (serving k) = none

abbrev pub on_loop : Phase → Option Phase
on_loop ready = none
on_loop over = none
on_loop (serving zero) = none
on_loop (serving (suc k)) = some (serving k)

abbrev pub on_end : Phase → Option Phase
on_end ready = none
on_end over = none
on_end (serving k) = some over

abbrev pub on_act : ℕ → Act → Phase → Option Phase
on_act n started s = on_start n s
on_act n looped s = on_loop s
on_act n ended s = on_end s
on_act n (waited t) s = some s
on_act n (idled t) s = some s

abbrev pub onward : ℕ → Act → Option Phase → Option Phase
onward n a none = none
onward n a (some s) = on_act n a s

-- The phase that some acts lead to, if the session allows them.
abbrev pub follow : ℕ → Option Phase → List Act → Option Phase
follow n o [] = o
follow n o (a ∷ l) = follow n (onward n a o) l

abbrev pub Reaches : {W : Type 0} → ℕ → Run W → Phase → Type 0
Reaches n r s = follow n (some ready) r.acts ≡ some s

follow-append :
    (n : ℕ) (o : Option Phase) (xs ys : List Act)
    → follow n o (xs ++ ys) ≡ follow n (follow n o xs) ys
follow-append n o [] ys = refl
follow-append n o (x ∷ xs) ys = follow-append n (onward n x o) xs ys

module _ {W : Type 0} where
  pub did-Reaches :
      (n : ℕ) (a : Act) (r : Run W) (s t : Phase)
      → Reaches n r s
      → on_act n a s ≡ some t
      → Reaches n (did a r) t
  unfolding did
  did-Reaches n a r s t h k = follow-append n (some ready) r.acts (a ∷ []) ∙ ap (onward n a) h ∙ k

  -- What a delay leaves alone: the state and the world of the protocol, and the phase.
  pub record IsQuiet (n : ℕ) (r r' : Run W) : Type 0 where
    pub state_is : r'.state ≡ r.state
    pub world_is : r'.world ≡ r.world
    pub phase : (s : Phase) → Reaches n r s → Reaches n r' s

  same : (n : ℕ) (r : Run W) → IsQuiet n r r
  same n r = record { state_is = refl; world_is = refl; phase = λ s h. h }

  did-IsQuiet :
      (n : ℕ) (a : Act) (r : Run W) → ((s : Phase) → on_act n a s ≡ some s) → IsQuiet n r (did a r)
  unfolding did
  did-IsQuiet n a r k = record {
    state_is = refl;
    world_is = refl;
    phase = λ s h. did-Reaches n a r s s h (k s);
  }

  idle_for-IsQuiet : (n d : ℕ) (r : Run W) → IsQuiet n r (idle_for d r)
  unfolding idle_for
  idle_for-IsQuiet n zero r = same n r
  idle_for-IsQuiet n (suc d) r = did-IsQuiet n (idled (suc d)) r (λ s. refl)

  pub delayed-IsQuiet : (n : ℕ) (d : ℤ) (x a b : ℕ) (r : Run W) → IsQuiet n r (delayed d x a b r)
  unfolding delayed
  delayed-IsQuiet n (pos zero) x a b r = same n r
  delayed-IsQuiet n (pos (suc d)) x a b r =
      if_cases (λ (r' : Run W). IsQuiet n r r') (ltb x exit_soon)
        (λ e. idle_for-IsQuiet n (tot_delay (suc d) a b) r) (λ e. same n r)
  delayed-IsQuiet n (negsuc d) x a b r = same n r

  pub idle_after_start-IsQuiet :
      (n : ℕ) (d : ℤ) (x b : ℕ) (r : Run W) → IsQuiet n r (idle_after_start d x b r)
  unfolding idle_after_start
  idle_after_start-IsQuiet n d x b r =
      if_cases (λ (r' : Run W). IsQuiet n r r') (ltb x exit_soon)
        (λ e. idle_for-IsQuiet n (idle_left d r.block_start b) r) (λ e. same n r)

  wait_until-IsQuiet : (n t : ℕ) (r : Run W) → IsQuiet n r (wait_until t r)
  unfolding wait_until did
  wait_until-IsQuiet n t r =
      if_cases (λ (r' : Run W). IsQuiet n r r') (ltb r.block_start t)
        (λ e. record {
          state_is = refl;
          world_is = refl;
          phase = λ s h. did-Reaches n (waited ((t - r.block_start) / 1000)) r s s h refl;
        })
        (λ e. same n r)

  pub start_delayed-IsQuiet :
      (n : ℕ) (d : ℤ) (t : ℕ) (r : Run W) → IsQuiet n r (start_delayed d t r)
  unfolding start_delayed
  start_delayed-IsQuiet n (pos zero) t r = same n r
  start_delayed-IsQuiet n (pos (suc d)) t r = wait_until-IsQuiet n ((t + suc d / 1000) * 1000000) r
  start_delayed-IsQuiet n (negsuc d) t r = same n r
