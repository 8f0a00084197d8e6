-- ===== src/Pop3/Run/Login.antt =====
-- src/pop3.c: `doPop3Start` opens a session or leaves nothing behind.
use mstone.Base.{
  ℕ, ◌≡◌, refl, sym, subst, inl, true, false, List, [], ◌∷◌, Option, none, some, if_cases, pos,
  is_positive, leb, ltb, Bytes, c_string,
}
use mstone.Range.{next}
use mstone.Transfer.Line.{Response, read_response}
use mstone.Timer.{exit_fast}
use mstone.Client.Contract.{Yields}
use mstone.Pish.{
  max_response_len, Call, Timed, connect, banner, cmd, login, timed, counted, free_me,
}
use mstone.Pish.Open.{IsOpen, timed-IsOpen, freed-IsShut, abandon-Yields}
use mstone.Pop3.{Env, Verb, user, pass, stat, Session, Config, line}
use mstone.Pop3.Run.{
  exchange, stored, empty_mailbox, stat_mailbox, pop_login, draw_login, draw_domain, greeted,
  connected, start,
}
use mstone.Pop3.Stat.{Matches, scan_stat, no_match, end_of_input, one, two}
use mstone.Pop3.Run.Dialogue.{
  Talks, anonymous, named, authorised, mailbox, Says, nothing, says_user, says_pass, says_stat,
  IsClosed, IsLive, exchange-Yields,
}

-- A new state, and no connection yet.
record IsFresh (w : Session) : Type 0 where
  me_is : w.me ≡ some empty_mailbox
  sound : w.fault ≡ false
  said_is : w.said ≡ []
  sock_is : w.sock ≡ false

timed-IsFresh : (t : Timed) (x : ℕ) (w : Session) → IsFresh w → IsFresh (timed t x w)
unfolding timed
timed-IsFresh t x w h =
    if_cases IsFresh (leb exit_fast x) (λ e. h)
      (λ e. record { me_is = h.me_is; sound = h.sound; said_is = h.said_is; sock_is = h.sock_is })

counted-IsFresh : (t : Timed) (x : ℕ) (w : Session) → IsFresh w → IsFresh (counted t x w)
unfolding counted
counted-IsFresh t x w h =
    if_cases IsFresh (ltb x exit_fast)
      (λ e. record { me_is = h.me_is; sound = h.sound; said_is = h.said_is; sock_is = h.sock_is })
      (λ e. h)

stored-Yields :
    (c : Call) (x : Matches) (l : List Verb) (w : Session)
    → Says l authorised
    → IsOpen (stat ∷ l) empty_mailbox w
    → Yields IsClosed IsLive (stored c x w empty_mailbox)
unfolding stored
stored-Yields c no_match l w k h =
    abandon-Yields Talks IsClosed IsLive (λ w h. h) cmd c.expired (stat ∷ l) empty_mailbox w h
      (mailbox (pos 0) 0, says_stat (pos 0) k)
stored-Yields c end_of_input l w k h = record {
  l = stat ∷ l;
  m = empty_mailbox;
  is_open = h;
  at = inl (says_stat (pos 0) k);
}
stored-Yields c (one n) l w k h = record {
  l = stat ∷ l;
  m = record empty_mailbox { num_msgs = n };
  is_open = record { sock_is = h.sock_is; me_is = refl; sound = h.sound; said_is = h.said_is };
  at = inl (says_stat n k);
}
stored-Yields c (two n t) l w k h = record {
  l = stat ∷ l;
  m = record empty_mailbox { num_msgs = n; total_msg_length = t };
  is_open = record { sock_is = h.sock_is; me_is = refl; sound = h.sound; said_is = h.said_is };
  at = inl (says_stat n k);
}

module _ (c : Config) (e : Env) where
  stat_mailbox-Yields :
      (d n : ℕ) (l : List Verb) (w : Session)
      → Says l authorised
      → IsOpen l empty_mailbox w
      → Yields IsClosed IsLive (stat_mailbox c e d n w)
  unfolding stat_mailbox
  stat_mailbox-Yields d n l w k h =
      exchange-Yields IsClosed IsLive (λ w h. h) e.third cmd cmd stat (line c d n stat)
        (λ response w'. stored e.third (scan_stat (c_string response)) w' empty_mailbox) w l
        empty_mailbox (mailbox (pos 0) 0, says_stat (pos 0) k) h
        (λ r w' h'. stored-Yields e.third (scan_stat (c_string r)) l w' k h')

  pop_login-Yields :
      (d n : ℕ) (w : Session)
      → IsOpen [] empty_mailbox w
      → Yields IsClosed IsLive (pop_login c e d n w)
  unfolding pop_login
  pop_login-Yields d n w h =
      exchange-Yields IsClosed IsLive (λ w h. h) e.first cmd login user (line c d n user)
        (λ _. exchange e.second login login pass (line c d n pass) (λ _. stat_mailbox c e d n)) w []
        empty_mailbox (named, says_user nothing) h
        (λ r w' h'.
          exchange-Yields IsClosed IsLive (λ w h. h) e.second login login pass (line c d n pass)
            (λ _. stat_mailbox c e d n) w' (user ∷ []) empty_mailbox
            (authorised, says_pass (says_user nothing)) h'
            (λ r' w'' h''.
              stat_mailbox-Yields d n (pass ∷ user ∷ []) w'' (says_pass (says_user nothing)) h''))

  draw_login-Yields :
      (d : ℕ) (w : Session) (o : Option ℕ)
      → IsOpen [] empty_mailbox w
      → Yields IsClosed IsLive (draw_login c e d w o)
  unfolding draw_login
  draw_login-Yields d w none h = tt
  draw_login-Yields d w (some n) h =
      pop_login-Yields d n (record w { last_login = n })
        (record { sock_is = h.sock_is; me_is = h.me_is; sound = h.sound; said_is = h.said_is })

  draw_domain-Yields :
      (w : Session) (o : Option ℕ)
      → IsOpen [] empty_mailbox w
      → Yields IsClosed IsLive (draw_domain c e w o)
  unfolding draw_domain
  draw_domain-Yields w none h = tt
  draw_domain-Yields w (some d) h =
      draw_login-Yields d (record w { last_domain = d })
        (next c.login_range w.last_login e.random_login)
        (record { sock_is = h.sock_is; me_is = h.me_is; sound = h.sound; said_is = h.said_is })

  greeted-Yields :
      (w : Session) (o : Option Response)
      → IsOpen [] empty_mailbox w
      → Yields IsClosed IsLive (greeted c e w o)
  unfolding greeted
  greeted-Yields w none h = tt
  greeted-Yields w (some r) h =
      let w0 : Session = record w { incoming = r.unread } in
      let w' = timed banner e.greeting.expired w0 in
      let h' =
        timed-IsOpen banner e.greeting.expired [] empty_mailbox w0
          (record { sock_is = h.sock_is; me_is = h.me_is; sound = h.sound; said_is = h.said_is }) in
      if_cases (Yields IsClosed IsLive) (is_positive r.ret)
        (λ ok. draw_domain-Yields w' (next c.domain_range w'.last_domain e.random_domain) h')
        (λ bad.
          abandon-Yields Talks IsClosed IsLive (λ w h. h) banner e.greeting.expired [] empty_mailbox
            w' h' (anonymous, nothing))

  connected-Yields :
      (w : Session) (o : Option Bytes) → IsFresh w → Yields IsClosed IsLive (connected c e w o)
  unfolding connected free_me
  connected-Yields w none h =
      let w' = counted connect e.connecting.expired w in
      let h' = counted-IsFresh connect e.connecting.expired w h in
      freed-IsShut Talks w'.me empty_mailbox w' h'.me_is h'.sock_is h'.sound
        (anonymous, subst (λ l. Says l anonymous) (sym h'.said_is) nothing)
  connected-Yields w (some stream) h =
      greeted-Yields (record w { sock = true; incoming = stream })
        (read_response e.greeting.reads max_response_len [] stream)
        (record { sock_is = refl; me_is = h.me_is; sound = h.sound; said_is = h.said_is })

  pub start-Yields : (w : Session) → IsClosed w → Yields IsClosed IsLive (start c e w)
  unfolding start
  start-Yields w h =
      let w0 : Session = record w { me = some empty_mailbox; wire = []; said = []; sock = false } in
      connected-Yields (timed connect e.connecting.expired w0) e.connection (
        timed-IsFresh connect e.connecting.expired w0
          (record { me_is = refl; sound = h.sound; said_is = refl; sock_is = refl }))
