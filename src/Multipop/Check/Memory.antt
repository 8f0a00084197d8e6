-- ===== src/Multipop/Check/Memory.antt =====
-- src/multipop.c: no check touches the memory of the list of users.
use mstone.Base.{
  Bool, true, false, ◌&&◌, List, [], ◌∷◌, ◌++◌, Option, none, some, if_cases, ℤ, pos, is_positive,
  is_negative, lt_int, Bytes, codes,
}
use mstone.Transfer.Line.{Response, read_response}
use mstone.Client.Contract.{Leaves}
use mstone.Pish.{connect, banner, timed}
use mstone.Multipop.{resplen, user, stat, User, Session, Visit, cmd_resp}
use mstone.Multipop.Commands.{mpop_login, fetch_new, mpop_quit}
use mstone.Multipop.Multiline.{multiline}
use mstone.Multipop.Check.{
  counted_new, entered, check_done, banner_read, check_user, with_user, after_user, check_users,
}
use mstone.Multipop.Kept.{
  Holds, Held, timed-Holds, counted-Holds, cmd_resp-Heard, user_answered-Held, stat_answered-Held,
  fetch_new-Held, listed-Held, mpop_quit-Leaves,
}

module _ (o : Option (List User)) where
  counted_new-Held :
      (v : Visit) (u : User) (msgs : ℤ) (w : Session) → Holds o w → Held o (counted_new v u msgs w)
  unfolding counted_new
  counted_new-Held v u msgs w h =
      if_cases (Held o) (is_negative msgs) (λ bad. h)
        (λ ok.
          if_cases (Held o) (lt_int (pos 0) msgs && u.leave_on_server)
            (λ list.
              listed-Held o v w (multiline v.uidl_call (codes "UIDL\r\n") w.incoming)
                (λ w'. fetch_new v.messages u.old_msgs msgs u w') h
                (λ w' h'. fetch_new-Held o v.messages u.old_msgs msgs u w' h'))
            (λ short. fetch_new-Held o v.messages u.old_msgs msgs u w h))

  entered-Held :
      (v : Visit) (u : User) (r : Option (Bool × Session)) → Held o r → Held o (entered v u r)
  unfolding entered
  entered-Held v u none h = tt
  entered-Held v u (some (false, w)) h = h
  entered-Held v u (some (true, w)) h =
      stat_answered-Held o v (counted_new v u) (cmd_resp v.stat_call stat (codes "STAT\r\n") 511 w)
        (cmd_resp-Heard o v.stat_call stat (codes "STAT\r\n") 511 w h) (counted_new-Held v u)

  over_quit :
      (u : User) (r : Option Session)
      → Leaves (Holds o) r
      → Held o {A = User} (elim r [ none ↦ none | some w' ↦ some (u, w') ])
  over_quit u none h = tt
  over_quit u (some w) h = h

  check_done-Held : (v : Visit) (r : Option (User × Session)) → Held o r → Held o (check_done v r)
  unfolding check_done
  check_done-Held v none h = tt
  check_done-Held v (some (u, w)) h = over_quit u (mpop_quit v w) (mpop_quit-Leaves o v w h)

  banner_read-Held :
      (v : Visit) (u : User) (w : Session) (r : Option Response)
      → Holds o w
      → Held o (banner_read v u w r)
  unfolding banner_read mpop_login
  banner_read-Held v u w none h = tt
  banner_read-Held v u w (some r) h =
      let w0 : Session = record w { incoming = r.unread } in
      let w' = timed banner v.greeting.expired w0 in
      let h' =
        timed-Holds o banner v.greeting.expired w0 (record { me_is = h.me_is; sound = h.sound }) in
      let command = codes "USER " ++ (u.login ++ codes "\r\n") in
      let heard = cmd_resp-Heard o v.user_call user command resplen w' h' in
      if_cases (Held o) (is_positive r.ret)
        (λ ok. check_done-Held v (entered v u (mpop_login v u w')) (
          entered-Held v u (mpop_login v u w')
            (user_answered-Held o v u (cmd_resp v.user_call user command resplen w') heard)))
        (λ bad. counted-Holds o banner v.greeting.expired w' h')

  check_user-Held :
      (v : Visit) (u : User) (w : Session) (stream : Option Bytes)
      → Holds o w
      → Held o (check_user v u w stream)
  unfolding check_user
  check_user-Held v u w none h =
      let w0 : Session = record w { sock = false } in
      counted-Holds o connect v.connecting.expired (timed connect v.connecting.expired w0) (
        timed-Holds o connect v.connecting.expired w0 (record { me_is = h.me_is; sound = h.sound }))
  check_user-Held v u w (some stream) h =
      let w0 : Session = record w { sock = true; incoming = stream } in
      banner_read-Held v u (timed connect v.connecting.expired w0)
        (read_response v.greeting.reads resplen [] stream)
        (timed-Holds o connect v.connecting.expired w0
          (record { me_is = h.me_is; sound = h.sound }))

  with_user-Held : (u : User) (r : Option (List User × Session)) → Held o r → Held o (with_user u r)
  unfolding with_user
  with_user-Held u none h = tt
  with_user-Held u (some (us, w)) h = h

  after_user-Held :
      (onward : Session → Option (List User × Session)) (r : Option (User × Session))
      → Held o r
      → ((w : Session) → Holds o w → Held o (onward w))
      → Held o (after_user onward r)
  unfolding after_user
  after_user-Held onward none h go = tt
  after_user-Held onward (some (u, w)) h go = with_user-Held u (onward w) (go w h)

  pub check_users-Held :
      (us : List User) (vs : List Visit) (w : Session) → Holds o w → Held o (check_users us vs w)
  unfolding check_users
  check_users-Held [] vs w h = h
  check_users-Held (u ∷ us) [] w h = tt
  check_users-Held (u ∷ us) (v ∷ vs) w h =
      after_user-Held (λ w'. check_users us vs w') (check_user v u w v.connection)
        (check_user-Held v u w v.connection h) (λ w' h'. check_users-Held us vs w' h')
