-- ===== src/Multipop/Check/Safe.antt =====
-- src/multipop.c under `do_command`, src/client.c: the list of users is there between
-- MPopCheckStart and MPopCheckEnd, and freed once.
use mstone.Base.{
  ℕ, zero, suc, ◌+◌, ◌*◌, ◌≡◌, refl, subst, ◌⊎◌, inl, inr, Bool, true, false, List, [], ◌∷◌, Option,
  none, some, ℤ, u64,
}
use mstone.Range.{next}
use mstone.Client.{Pass, Block, Run, do_command}
use mstone.Client.Rule.{Ends, Aborted}
use mstone.Client.Session.{Served, AtEnd}
use mstone.Client.Session.Order.{do_command-Served}
use mstone.Client.Contract.{Yields, Leaves, Contract}
use mstone.Pish.{freed}
use mstone.Multipop.{User, Session, Config, Visit}
use mstone.Multipop.Check.{
  check_users, checked, check_list, check, Env, new_user, with_login, with_domain, identities,
  started, begun, start, loop, all_freed, end, multipop,
}
use mstone.Multipop.Kept.{Holds, Held}
use mstone.Multipop.Check.Memory.{check_users-Held}

-- No list, and none misused.
abbrev pub IsFree : Session → Type 0
IsFree = Holds none

-- Between `MPopCheckStart` and `MPopCheckEnd`.
pub record IsHeld (w : Session) : Type 0 where
  pub users : List User
  pub holds : Holds (some users) w

checked-Leaves :
    (us : List User) (r : Option (List User × Session))
    → Held (some us) r
    → Leaves IsHeld (checked r)
unfolding checked
checked-Leaves us none h = tt
checked-Leaves us (some (us', w)) h = record {
  users = us';
  holds = record { me_is = refl; sound = h.sound };
}

check_list-Leaves :
    (vs : List Visit) (w : Session) (o : Option (List User)) (us : List User)
    → o ≡ some us
    → Holds (some us) w
    → Leaves IsHeld (check_list vs w o)
unfolding check_list
check_list-Leaves vs w none us e h = absurd (cc)
check_list-Leaves vs w (some us') us e h =
    checked-Leaves us (check_users us' vs w) (check_users-Held (some us) us' vs w h)

check-Leaves : (vs : List Visit) (w : Session) → IsHeld w → Leaves IsHeld (check vs w)
unfolding check
check-Leaves vs w h = check_list-Leaves vs w w.me h.users h.holds.me_is h.holds

started-Yields :
    (No : Session → Type 0) (o : Option Session) → Leaves IsHeld o → Yields No IsHeld (started o)
unfolding started
started-Yields No none h = tt
started-Yields No (some w) h = h

loop-Yields : (e : Env) (w : Session) → IsHeld w → Yields IsHeld IsHeld (loop e w)
unfolding loop
loop-Yields e w h = started-Yields IsHeld (check e.visits w) (check-Leaves e.visits w h)

freed-IsFree :
    (o : Option (List User)) (us : List User) (w : Session)
    → o ≡ some us
    → Holds (some us) w
    → IsFree (freed o w)
unfolding freed
freed-IsFree none us w e h = absurd (cc)
freed-IsFree (some us') us w e h = record { me_is = refl; sound = h.sound }

all_freed-Leaves : (o : Option Session) → Leaves IsHeld o → Leaves IsFree (all_freed o)
unfolding all_freed
all_freed-Leaves none h = tt
all_freed-Leaves (some w) h = freed-IsFree w.me h.users w h.holds.me_is h.holds

end-Leaves : (e : Env) (w : Session) → IsHeld w → Leaves IsFree (end e w)
unfolding end
end-Leaves e w h = all_freed-Leaves (check e.visits w) (check-Leaves e.visits w h)

module _ (c : Config) where
  with_login-Held :
      (d : ℕ) (onward : User → Session → Option (List User × Session)) (w : Session) (o : Option ℕ)
      → IsFree w
      → ((u : User) (w' : Session) → IsFree w' → Held none (onward u w'))
      → Held none (with_login c d onward w o)
  unfolding with_login
  with_login-Held d onward w none h go = tt
  with_login-Held d onward w (some n) h go =
      go (new_user c d n) (record w { last_login = n })
        (record { me_is = h.me_is; sound = h.sound })

  with_domain-Held :
      (r : ℕ) (onward : User → Session → Option (List User × Session)) (w : Session) (o : Option ℕ)
      → IsFree w
      → ((u : User) (w' : Session) → IsFree w' → Held none (onward u w'))
      → Held none (with_domain c r onward w o)
  unfolding with_domain
  with_domain-Held r onward w none h go = tt
  with_domain-Held r onward w (some domain) h go =
      with_login-Held domain onward (record w { last_domain = domain })
        (next c.login_range w.last_login r) (record { me_is = h.me_is; sound = h.sound }) go

  identities-Held :
      (users : ℕ) (rs : List (ℕ × ℕ)) (mp : List User) (w : Session)
      → IsFree w
      → Held none (identities c users rs mp w)
  unfolding identities
  identities-Held zero rs mp w h = h
  identities-Held (suc users) [] mp w h = tt
  identities-Held (suc users) ((d, r) ∷ rs) mp w h =
      with_domain-Held r (λ u w'. identities c users rs (u ∷ mp) w') w
        (next c.domain_range w.last_domain d) h (λ u w' h'. identities-Held users rs (u ∷ mp) w' h')

begun-Yields :
    (e : Env) (r : Option (List User × Session)) → Held none r → Yields IsFree IsHeld (begun e r)
unfolding begun
begun-Yields e none h = tt
begun-Yields e (some ([], w)) h = h
begun-Yields e (some (u ∷ us, w)) h =
    let w' : Session = record w { me = some (u ∷ us) } in
    started-Yields IsFree (check e.visits w') (
      check-Leaves e.visits w'
        (record { users = u ∷ us; holds = record { me_is = refl; sound = h.sound } }))

start-Yields : (c : Config) (e : Env) (w : Session) → IsFree w → Yields IsFree IsHeld (start c e w)
unfolding start
start-Yields c e w h =
    let w' : Session = record w { wire = []; said = [] } in
    let users = c.active (u64 ((c.login_range.span + 1) * (c.domain_range.span + 1))) in
    begun-Yields e (identities c users e.randoms [] w')
      (identities-Held c users e.randoms [] w' (record { me_is = h.me_is; sound = h.sound }))

same_loop :
    (c : Config) (f : Env → Session → Option (Bool × Session))
    → (multipop c).cmd_loop ≡ some f
    → loop ≡ f
same_loop c f e = cc

same_end :
    (c : Config) (f : Env → Session → Option Session) → (multipop c).cmd_end ≡ some f → end ≡ f
same_end c f e = cc

-- What MULTIPOP promises to `do_command`.
abbrev contract : (c : Config) → Contract (multipop c)
contract c = record {
  Ready = IsFree;
  Live = IsHeld;
  Done = IsHeld;
  has_end = λ e. absurd (cc);
  start_keeps = λ e w h. start-Yields c e w h;
  loop_keeps = λ f is e w h.
      subst (λ (g : Env → Session → Option (Bool × Session)). Yields IsHeld IsHeld (g e w))
        (same_loop c f is) (loop-Yields e w h);
  end_keeps = λ f is e w h.
      subst (λ (g : Env → Session → Option Session). Leaves IsFree (g e w)) (same_end c f is)
        (elim h [ inl live ↦ end-Leaves e w live | inr left ↦ end-Leaves e w left ]);
}

-- The list of users was neither used nor freed after it was freed; it has been freed, or the run
-- was aborted.
pub record IsSafe (es : List (Pass Env)) (r : Run Session) : Type 0 where
  pub sound : r.world.fault ≡ false
  pub left : (r.world.me ≡ none) ⊎ Aborted es

IsSafe-at :
    (c : Config) (b : Block) (es : List (Pass Env)) (s : Bool) (r : Run Session)
    → AtEnd (multipop c) (contract c) b (Aborted es) s r.world
    → IsSafe es r
IsSafe-at c b es true r (inl h) = record { sound = h.sound; left = inl h.me_is }
IsSafe-at c b es true r (inr (fast, inl h)) = record { sound = h.holds.sound; left = inr fast }
IsSafe-at c b es true r (inr (fast, inr h)) = record { sound = h.holds.sound; left = inr fast }
IsSafe-at c b es false r h = record { sound = h.sound; left = inl h.me_is }

Served-IsSafe :
    (c : Config) (b : Block) (es : List (Pass Env)) (o : Option (Run Session))
    → Ends (Served (multipop c) (contract c) b (Aborted es)) o
    → Ends (IsSafe es) o
Served-IsSafe c b es none h = tt
Served-IsSafe c b es (some r) h = IsSafe-at c b es r.state r h.at

-- A MULTIPOP block with no negative `numLoops` that comes back, whatever the servers, the network
-- and the clock do: if it began without a list of users, it has neither used nor freed its list
-- after freeing it, and it has freed it, or some pass found that `gf_timeexpired` had reached
-- `EXIT_FAST`.
pub multipop_command-IsSafe :
    (c : Config) (b : Block) (es : List (Pass Env)) (delay : ℤ) (x now total : ℕ) (w : Session)
    → IsFree w
    → Ends (IsSafe es) (do_command (multipop c) b es delay x now total w)
multipop_command-IsSafe c b es delay x now total w h =
    Served-IsSafe c b es (do_command (multipop c) b es delay x now total w)
      (do_command-Served (multipop c) (contract c) b es delay x now total w h)
