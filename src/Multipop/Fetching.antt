-- ===== src/Multipop/Fetching.antt =====
-- src/multipop.c: which messages the loop of MPopCheck fetches and deletes, and what it counts.
use mstone.Base.{
  ℕ, ◌+◌, ◌≡◌, refl, ap, ◌∙◌, subst, sym, Bool, true, false, List, [], ◌∷◌, ◌++◌, Option, none,
  some, if◌then◌else◌, if_cases, leb, ℤ, pos, is_negative, lt_int, Bytes, codes,
}
use mstone.Timer.{exit_fast}
use mstone.Pish.{Timed, msgread, cmd, timed, spoken}
use mstone.Pop3.Stat.{decimal}
use mstone.Transfer.Command.{Answer, do_command_response}
use mstone.Multipop.{
  Verb, retr, dele, User, Session, Fetch, resplen, is_ok, blamed, answered, cmd_resp,
}
use mstone.Multipop.Commands.{deleted, disposed, retrieved, fetch_new}
use mstone.Multipop.Multiline.{Fetched, multiline}

-- What `mpop_retr` and `mpop_dele` get for message `n + 1`, on the stream `s` of the server.
abbrev retr_result : Fetch → ℕ → Bytes → Option Fetched
retr_result f n s = multiline f.retr_call (codes "RETR " ++ (decimal (n + 1) ++ codes "\r\n")) s

abbrev dele_result : Fetch → ℕ → Bytes → Option Answer
dele_result f n s =
    do_command_response f.dele_call.writes f.dele_call.reads
      (codes "DELE " ++ (decimal (n + 1) ++ codes "\r\n")) resplen s

-- From the commands `l`, the scripts `fs0`, the stream `s0` and a number of messages on, so many
-- have been fetched, in order: each RETR has returned no error, and each message that is not to be
-- left on the server is deleted by a DELE that has been answered with a line that starts with "+".
-- With what is left of the scripts and the stream.
pub data Gets (leave : Bool) (start : ℕ) (fs0 : List Fetch) (l : List Verb) (s0 : Bytes)
    : List Fetch → ℕ → List Verb → Bytes → Type 0 where
  begins : Gets leave start fs0 l s0 fs0 start l s0
  keeps :
      {f : Fetch} {fs : List Fetch} {n : ℕ} {m : List Verb} {s : Bytes} (x : Fetched)
      → leave ≡ true
      → retr_result f n s ≡ some x
      → is_negative x.ret ≡ false
      → Gets leave start fs0 l s0 (f ∷ fs) n m s
      → Gets leave start fs0 l s0 fs (n + 1) (retr (n + 1) ∷ m) x.unread
  removes :
      {f : Fetch} {fs : List Fetch} {n : ℕ} {m : List Verb} {s : Bytes} (x : Fetched) (a : Answer)
      → leave ≡ false
      → retr_result f n s ≡ some x
      → is_negative x.ret ≡ false
      → dele_result f n x.unread ≡ some a
      → is_ok a ≡ true
      → Gets leave start fs0 l s0 (f ∷ fs) n m s
      → Gets leave start fs0 l s0 fs (n + 1) (dele (n + 1) ∷ retr (n + 1) ∷ m) a.unread

-- How the loop ends behind `n` messages: there is none left to fetch, or the RETR of the next one
-- has returned an error, or its DELE has not been answered with "+"; that is the last command.
pub data EndsAt (leave : Bool) (new_msgs : ℤ) (fs : List Fetch) (n : ℕ) (m : List Verb) (s : Bytes)
    (w : Session) : Type 0 where
  all_fetched :
      lt_int (pos n) new_msgs ≡ false
      → w.said ≡ m
      → w.incoming ≡ s
      → EndsAt leave new_msgs fs n m s w
  retr_failed :
      (f : Fetch) (rest : List Fetch) (x : Fetched)
      → lt_int (pos n) new_msgs ≡ true
      → fs ≡ f ∷ rest
      → retr_result f n s ≡ some x
      → is_negative x.ret ≡ true
      → w.said ≡ retr (n + 1) ∷ m
      → w.incoming ≡ x.unread
      → EndsAt leave new_msgs fs n m s w
  dele_failed :
      (f : Fetch) (rest : List Fetch) (x : Fetched) (a : Answer)
      → lt_int (pos n) new_msgs ≡ true
      → leave ≡ false
      → fs ≡ f ∷ rest
      → retr_result f n s ≡ some x
      → is_negative x.ret ≡ false
      → dele_result f n x.unread ≡ some a
      → is_ok a ≡ false
      → w.said ≡ dele (n + 1) ∷ retr (n + 1) ∷ m
      → w.incoming ≡ a.unread
      → EndsAt leave new_msgs fs n m s w

-- The messages have been fetched up to number `n`, where the loop has ended; `old_msgs` counts the
-- messages that stay on the server.
pub record Fetches (leave : Bool) (start : ℕ) (new_msgs : ℤ) (fs0 : List Fetch) (l : List Verb)
    (s0 : Bytes) (u : User) (w : Session) : Type 0 where
  pub fs : List Fetch
  pub n : ℕ
  pub m : List Verb
  pub s : Bytes
  pub gets : Gets leave start fs0 l s0 fs n m s
  pub ends : EndsAt leave new_msgs fs n m s w
  pub counts : u.old_msgs ≡ (if leave then n else start)

timed-said : (t : Timed) (x : ℕ) (w : Session) → (timed t x w).said ≡ w.said
unfolding timed
timed-said t x w =
    if_cases (λ (v : Session). v.said ≡ w.said) (leb exit_fast x) (λ e. refl) (λ e. refl)

timed-incoming : (t : Timed) (x : ℕ) (w : Session) → (timed t x w).incoming ≡ w.incoming
unfolding timed
timed-incoming t x w =
    if_cases (λ (v : Session). v.incoming ≡ w.incoming) (leb exit_fast x) (λ e. refl) (λ e. refl)

count_next :
    (leave : Bool) (old n start : ℕ)
    → leave ≡ true
    → old ≡ (if leave then n else start)
    → old + 1 ≡ (if leave then n + 1 else start)
count_next true old n start e h = ap (λ (k : ℕ). k + 1) h
count_next false old n start e h = absurd (cc)

count_same :
    (leave : Bool) (old n start : ℕ)
    → leave ≡ false
    → old ≡ (if leave then n else start)
    → old ≡ (if leave then n + 1 else start)
count_same true old n start e h = absurd (cc)
count_same false old n start e h = h

module _ (leave : Bool) (start : ℕ) (new_msgs : ℤ) (fs0 : List Fetch) (l : List Verb)
    (s0 : Bytes) where
  abbrev pub Fetching : Option (User × Session) → Type 0
  Fetching none = Unit {0}
  Fetching (some (u, w)) = Fetches leave start new_msgs fs0 l s0 u w

  -- Where the loop stands before message `n + 1`.
  record AtMessage (fs : List Fetch) (n : ℕ) (u : User) (w : Session) : Type 0 where
    gets : Gets leave start fs0 l s0 fs n w.said w.incoming
    leave_is : u.leave_on_server ≡ leave
    counts : u.old_msgs ≡ (if leave then n else start)

  module _ (f : Fetch) (fs : List Fetch) (n : ℕ) (more : lt_int (pos n) new_msgs ≡ true)
      (onward : User → Session → Option (User × Session))
      (go : (u : User) (w : Session) → AtMessage fs (n + 1) u w → Fetching (onward u w)) where
    deleted-Fetching :
        (u : User) (w : Session) (x : Fetched) (o : Option Answer)
        → AtMessage (f ∷ fs) n u w
        → u.leave_on_server ≡ false
        → retr_result f n w.incoming ≡ some x
        → is_negative x.ret ≡ false
        → dele_result f n x.unread ≡ o
        → (w' : Session) → w'.said ≡ retr (n + 1) ∷ w.said
        → Fetching (deleted f u onward (answered (dele (n + 1)) w' o))
    unfolding deleted answered spoken blamed
    deleted-Fetching u w x none h gone got fine is w' said_is = tt
    deleted-Fetching u w x (some a) h gone got fine is w' said_is =
        let y = spoken (dele (n + 1)) a.wire a.unread w' in
        let v = timed cmd f.dele_call.expired y in
        let out : leave ≡ false = sym h.leave_is ∙ gone in
        let said_v : v.said ≡ dele (n + 1) ∷ retr (n + 1) ∷ w.said =
          timed-said cmd f.dele_call.expired y ∙ ap (◌∷◌ (dele (n + 1))) said_is in
        let unread_v : v.incoming ≡ a.unread = timed-incoming cmd f.dele_call.expired y in
        if_cases Fetching (is_ok a)
          (λ ok. go u v (record {
            gets =
                subst (λ m. Gets leave start fs0 l s0 fs (n + 1) m v.incoming) (sym said_v)
                  (subst
                    (Gets leave start fs0 l s0 fs (n + 1) (dele (n + 1) ∷ retr (n + 1) ∷ w.said))
                    (sym unread_v) (removes x a out got fine is ok h.gets));
            leave_is = h.leave_is;
            counts = count_same leave u.old_msgs n start out h.counts;
          }))
          (λ bad. record {
            fs = f ∷ fs;
            n = n;
            m = w.said;
            s = w.incoming;
            gets = h.gets;
            ends = dele_failed f fs x a more out refl got fine is bad said_v unread_v;
            counts = h.counts;
          })

    retrieved-Fetching :
        (u : User) (w : Session) (o : Option Fetched)
        → AtMessage (f ∷ fs) n u w
        → retr_result f n w.incoming ≡ o
        → Fetching (retrieved f u (n + 1) onward w o)
    unfolding retrieved spoken blamed disposed cmd_resp
    retrieved-Fetching u w none h is = tt
    retrieved-Fetching u w (some x) h is =
        let w0 = spoken (retr (n + 1)) x.wire x.unread w in
        let v = timed msgread f.retr_call.expired w0 in
        let said_v : v.said ≡ retr (n + 1) ∷ w.said = timed-said msgread f.retr_call.expired w0 in
        let unread_v : v.incoming ≡ x.unread = timed-incoming msgread f.retr_call.expired w0 in
        if_cases Fetching (is_negative x.ret)
          (λ bad. record {
            fs = f ∷ fs;
            n = n;
            m = w.said;
            s = w.incoming;
            gets = h.gets;
            ends = retr_failed f fs x more refl is bad said_v unread_v;
            counts = h.counts;
          })
          (λ fine.
            if_cases Fetching u.leave_on_server
              (λ stays.
                let kept : leave ≡ true = sym h.leave_is ∙ stays in
                go (record u { old_msgs = u.old_msgs + 1 }) v
                  (record {
                    gets =
                        subst (λ m. Gets leave start fs0 l s0 fs (n + 1) m v.incoming) (sym said_v)
                          (subst (Gets leave start fs0 l s0 fs (n + 1) (retr (n + 1) ∷ w.said))
                            (sym unread_v) (keeps x kept is fine h.gets));
                    leave_is = h.leave_is;
                    counts = count_next leave u.old_msgs n start kept h.counts;
                  }))
              (λ gone.
                deleted-Fetching u w x (dele_result f n v.incoming) h gone is fine
                  (ap (dele_result f n) (sym unread_v)) v said_v))

  all-Fetches :
      (fs : List Fetch) (n : ℕ) (u : User) (w : Session)
      → AtMessage fs n u w
      → lt_int (pos n) new_msgs ≡ false
      → Fetches leave start new_msgs fs0 l s0 u w
  all-Fetches fs n u w h done = record {
    fs = fs;
    n = n;
    m = w.said;
    s = w.incoming;
    gets = h.gets;
    ends = all_fetched done refl refl;
    counts = h.counts;
  }

  fetch_new-Fetching :
      (fs : List Fetch) (n : ℕ) (u : User) (w : Session)
      → AtMessage fs n u w
      → Fetching (fetch_new fs n new_msgs u w)
  unfolding fetch_new
  fetch_new-Fetching [] n u w h =
      if_cases Fetching (lt_int (pos n) new_msgs) (λ more. tt) (all-Fetches [] n u w h)
  fetch_new-Fetching (f ∷ fs) n u w h =
      if_cases Fetching (lt_int (pos n) new_msgs)
        (λ more.
          retrieved-Fetching f fs n more (λ u' w'. fetch_new fs (n + 1) new_msgs u' w')
            (λ u' w' h'. fetch_new-Fetching fs (n + 1) u' w' h') u w (retr_result f n w.incoming) h
            refl)
        (all-Fetches (f ∷ fs) n u w h)

if_self : (b : Bool) (n : ℕ) → n ≡ (if b then n else n)
if_self true n = refl
if_self false n = refl

-- The check of a user, whatever the server and the network do, if it comes back: the loop fetches
-- the messages behind `old_msgs` one by one, in order, each with a RETR that returns no error, and
-- deletes each that is not to be left on the server with a DELE that is answered with "+", up to the
-- number that STAT gave or to the first RETR that returns an error or DELE that is answered
-- otherwise, which is the last command; `old_msgs` then counts the messages that have been fetched
-- and left, and does not change if none is left.
pub fetch_new_lem :
    (fs : List Fetch) (new_msgs : ℤ) (u : User) (w : Session)
    → Fetching u.leave_on_server u.old_msgs new_msgs fs w.said w.incoming
        (fetch_new fs u.old_msgs new_msgs u w)
fetch_new_lem fs new_msgs u w =
    fetch_new-Fetching u.leave_on_server u.old_msgs new_msgs fs w.said w.incoming fs u.old_msgs u w
      (record { gets = begins; leave_is = refl; counts = if_self u.leave_on_server u.old_msgs })
