-- ===== src/Multipop/Kept.antt =====
-- src/multipop.c: no command of a check touches the memory of the list of users.
use mstone.Base.{
  ℕ, ◌+◌, ◌≡◌, false, List, [], ◌∷◌, ◌++◌, Option, none, some, if_cases, if◌then◌else◌, leb, ltb, ℤ,
  pos, negsuc, is_negative, lt_int, Bytes, codes, c_string,
}
use mstone.Timer.{exit_fast}
use mstone.Transfer.Command.{Answer, do_command_response}
use mstone.Client.Contract.{Leaves}
use mstone.Pish.{Call, Timed, cmd, login, msgread, logout, Reply, timed, counted, spoken}
use mstone.Pop3.Stat.{scan_stat, decimal}
use mstone.Multipop.{
  resplen, Verb, pass, uidl, retr, dele, quit, User, Session, Fetch, Visit, blamed, answered,
  cmd_resp,
}
use mstone.Multipop.Commands.{
  pass_answered, user_answered, msgs_of, stat_answered, deleted, disposed, retrieved, fetch_new,
  listed, quitted, mpop_quit,
}
use mstone.Multipop.Multiline.{Fetched, multiline}

-- What the state of the thread points to, and no fault so far.
pub record Holds (o : Option (List User)) (w : Session) : Type 0 where
  pub me_is : w.me ≡ o
  pub sound : w.fault ≡ false

module _ (o : Option (List User)) where
  pub timed-Holds : (t : Timed) (x : ℕ) (w : Session) → Holds o w → Holds o (timed t x w)
  unfolding timed
  timed-Holds t x w h =
      if_cases (Holds o) (leb exit_fast x) (λ e. h)
        (λ e. record { me_is = h.me_is; sound = h.sound })

  pub counted-Holds : (t : Timed) (x : ℕ) (w : Session) → Holds o w → Holds o (counted t x w)
  unfolding counted
  counted-Holds t x w h =
      if_cases (Holds o) (ltb x exit_fast) (λ e. record { me_is = h.me_is; sound = h.sound })
        (λ e. h)

  pub blamed-Holds : (t : Timed) (w : Session) → Holds o w → Holds o (blamed t w)
  unfolding blamed
  blamed-Holds t w h = record { me_is = h.me_is; sound = h.sound }

  pub spoken-Holds : (v : Verb) (x y : Bytes) (w : Session) → Holds o w → Holds o (spoken v x y w)
  unfolding spoken
  spoken-Holds v x y w h = record { me_is = h.me_is; sound = h.sound }

  abbrev pub Heard : Option (Reply Verb (List User)) → Type 0
  Heard none = Unit {0}
  Heard (some r) = Holds o r.session

  abbrev pub Held : {A : Type 0} → Option (A × Session) → Type 0
  Held none = Unit {0}
  Held (some (u, w)) = Holds o w

  answered-Heard : (v : Verb) (w : Session) (a : Option Answer) → Holds o w → Heard (answered v w a)
  unfolding answered
  answered-Heard v w none h = tt
  answered-Heard v w (some a) h = spoken-Holds v a.wire a.unread w h

  pub cmd_resp-Heard :
      (c : Call) (v : Verb) (command : Bytes) (rlen : ℕ) (w : Session)
      → Holds o w
      → Heard (cmd_resp c v command rlen w)
  unfolding cmd_resp
  cmd_resp-Heard c v command rlen w h =
      answered-Heard v w (do_command_response c.writes c.reads command rlen w.incoming) h

  pass_answered-Held :
      (v : Visit) (r : Option (Reply Verb (List User))) → Heard r → Held (pass_answered v r)
  unfolding pass_answered
  pass_answered-Held v none h = tt
  pass_answered-Held v (some r) h =
      timed-Holds login v.pass_call.expired (if r.ok then r.session else blamed login r.session)
        (if_cases (Holds o) r.ok (λ ok. h) (λ bad. blamed-Holds login r.session h))

  pub user_answered-Held :
      (v : Visit) (u : User) (r : Option (Reply Verb (List User)))
      → Heard r
      → Held (user_answered v u r)
  unfolding user_answered
  user_answered-Held v u none h = tt
  user_answered-Held v u (some r) h =
      if_cases Held r.ok
        (λ ok.
          pass_answered-Held v
            (cmd_resp v.pass_call pass (codes "PASS " ++ (u.passwd ++ codes "\r\n")) resplen
              r.session)
            (cmd_resp-Heard v.pass_call pass (codes "PASS " ++ (u.passwd ++ codes "\r\n")) resplen
              r.session h))
        (λ bad. timed-Holds login v.user_call.expired r.session h)

  -- What every step that follows does.
  abbrev pub Keeps : (User → Session → Option (User × Session)) → Type 0
  Keeps f = (u : User) (w : Session) → Holds o w → Held (f u w)

  pub stat_answered-Held :
      (v : Visit) (onward : ℤ → Session → Option (User × Session))
      (r : Option (Reply Verb (List User)))
      → Heard r
      → ((msgs : ℤ) (w : Session) → Holds o w → Held (onward msgs w))
      → Held (stat_answered v onward r)
  unfolding stat_answered
  stat_answered-Held v onward none h go = tt
  stat_answered-Held v onward (some r) h go =
      let w = timed cmd v.stat_call.expired r.session in
      let h' = timed-Holds cmd v.stat_call.expired r.session h in
      let msgs = if r.ok then msgs_of (scan_stat (c_string r.response)) else negsuc 0 in
      go msgs (if is_negative msgs then blamed cmd w else w)
        (if_cases (Holds o) (is_negative msgs) (λ bad. blamed-Holds cmd w h') (λ ok. h'))

  deleted-Held :
      (f : Fetch) (u : User) (onward : User → Session → Option (User × Session))
      (r : Option (Reply Verb (List User)))
      → Heard r
      → Keeps onward
      → Held (deleted f u onward r)
  unfolding deleted
  deleted-Held f u onward none h go = tt
  deleted-Held f u onward (some r) h go =
      let w = timed cmd f.dele_call.expired r.session in
      let h' = timed-Holds cmd f.dele_call.expired r.session h in
      if_cases Held r.ok (λ ok. go u w h') (λ bad. blamed-Holds cmd w h')

  disposed-Held :
      (f : Fetch) (u : User) (n : ℕ) (onward : User → Session → Option (User × Session))
      (w : Session)
      → Holds o w
      → Keeps onward
      → Held (disposed f u n onward w)
  unfolding disposed
  disposed-Held f u n onward w h go =
      let command = codes "DELE " ++ (decimal n ++ codes "\r\n") in
      if_cases Held u.leave_on_server (λ stays. go (record u { old_msgs = u.old_msgs + 1 }) w h)
        (λ gone.
          deleted-Held f u onward (cmd_resp f.dele_call (dele n) command resplen w)
            (cmd_resp-Heard f.dele_call (dele n) command resplen w h) go)

  retrieved-Held :
      (f : Fetch) (u : User) (n : ℕ) (onward : User → Session → Option (User × Session))
      (w : Session) (x : Option Fetched)
      → Holds o w
      → Keeps onward
      → Held (retrieved f u n onward w x)
  unfolding retrieved
  retrieved-Held f u n onward w none h go = tt
  retrieved-Held f u n onward w (some x) h go =
      let w0 = spoken (retr n) x.wire x.unread w in
      let w' = timed msgread f.retr_call.expired w0 in
      let h' =
        timed-Holds msgread f.retr_call.expired w0 (spoken-Holds (retr n) x.wire x.unread w h) in
      if_cases Held (is_negative x.ret) (λ bad. blamed-Holds msgread w' h')
        (λ ok. disposed-Held f u n onward w' h' go)

  pub fetch_new-Held : (fs : List Fetch) (i : ℕ) (new_msgs : ℤ) → Keeps (fetch_new fs i new_msgs)
  unfolding fetch_new
  fetch_new-Held [] i new_msgs u w h =
      if_cases Held (lt_int (pos i) new_msgs) (λ waits. tt) (λ done. h)
  fetch_new-Held (f ∷ fs) i new_msgs u w h =
      if_cases Held (lt_int (pos i) new_msgs)
        (λ goes.
          retrieved-Held f u (i + 1) (λ u' w'. fetch_new fs (i + 1) new_msgs u' w') w
            (multiline f.retr_call (codes "RETR " ++ (decimal (i + 1) ++ codes "\r\n")) w.incoming)
            h (fetch_new-Held fs (i + 1) new_msgs))
        (λ done. h)

  pub listed-Held :
      (v : Visit) (w : Session) (x : Option Fetched) (onward : Session → Option (User × Session))
      → Holds o w
      → ((w' : Session) → Holds o w' → Held (onward w'))
      → Held (listed v w x onward)
  unfolding listed
  listed-Held v w none onward h go = tt
  listed-Held v w (some x) onward h go =
      let w0 = spoken uidl x.wire x.unread w in
      let w' = timed cmd v.uidl_call.expired w0 in
      let h' = timed-Holds cmd v.uidl_call.expired w0 (spoken-Holds uidl x.wire x.unread w h) in
      go (if is_negative x.ret then blamed cmd w' else w')
        (if_cases (Holds o) (is_negative x.ret) (λ bad. blamed-Holds cmd w' h') (λ ok. h'))

  quitted-Leaves :
      (v : Visit) (r : Option (Reply Verb (List User))) → Heard r → Leaves (Holds o) (quitted v r)
  unfolding quitted
  quitted-Leaves v none h = tt
  quitted-Leaves v (some r) h =
      let w0 : Session = record r.session { sock = false } in
      let w = timed logout v.quit_call.expired w0 in
      let h' =
        timed-Holds logout v.quit_call.expired w0 (record { me_is = h.me_is; sound = h.sound }) in
      if_cases (Holds o) r.ok (λ ok. h') (λ bad. blamed-Holds logout w h')

  pub mpop_quit-Leaves : (v : Visit) (w : Session) → Holds o w → Leaves (Holds o) (mpop_quit v w)
  unfolding mpop_quit
  mpop_quit-Leaves v w h =
      if_cases (Leaves (Holds o)) v.drops
        (λ drop.
          timed-Holds logout v.quit_call.expired (record w { sock = false })
            (record { me_is = h.me_is; sound = h.sound }))
        (λ stay.
          quitted-Leaves v (cmd_resp v.quit_call quit (codes "QUIT\r\n") resplen w)
            (cmd_resp-Heard v.quit_call quit (codes "QUIT\r\n") resplen w h))
