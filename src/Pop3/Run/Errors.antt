-- ===== src/Pop3/Run/Errors.antt =====
-- src/pop3.c: what the calls count as errors.
use mstone.Base.{
  ℕ, ◌+◌, ◌<◌, refl, Bool, true, false, ◌||◌, not, [], Option, none, some, ◌==◌, if_cases,
  is_positive, is_negative, Bytes, c_string,
}
use mstone.Range.{next}
use mstone.Transfer.{Written}
use mstone.Transfer.Line.{Response, read_response}
use mstone.Transfer.Command.{Answer, do_command_response}
use mstone.Transfer.Message.{Retrieved, retr_msg}
use mstone.Timer.{exit_fast}
use mstone.Pish.{
  max_response_len, Call, Timed, connect, banner, cmd, login, msgread, timed, counted, free_me,
  spoken,
}
use mstone.Pop3.{Env, Mailbox, Verb, user, pass, stat, retr, dele, Session, Config, line}
use mstone.Pop3.Run.{
  judge_answer, command_response, exchange, stored, empty_mailbox, stat_mailbox, pop_login,
  draw_login, draw_domain, greeted, connected, start, delete, retrieved, sent,
}
use mstone.Pop3.Stat.{Matches, scan_stat, no_match, end_of_input, one, two}
use mstone.Pish.Counting.{
  errors, Errs, timed-Errs, counted-Errs, freed-Errs, Counts, abandon-Counts, HeardWith,
  after_reply-Counts,
}

-- The calls of a script come back before `gf_timeexpired` has reached `EXIT_FAST`.
pub record InTime (e : Env) : Type 0 where
  pub connecting : e.connecting.expired < exit_fast
  pub greeting : e.greeting.expired < exit_fast
  pub first : e.first.expired < exit_fast
  pub second : e.second.expired < exit_fast
  pub third : e.third.expired < exit_fast

module _ (n : ℕ) where
  judge_answer-HeardWith :
      (v : Verb) (w : Session) (o : Option Answer) → Errs n w → HeardWith n (judge_answer v w o)
  unfolding judge_answer spoken
  judge_answer-HeardWith v w none h = tt
  judge_answer-HeardWith v w (some a) h = h

  exchange-Counts :
      (c : Call) (t blame : Timed) (v : Verb) (command : Bytes)
      (onward : Bytes → Session → Option (Bool × Session)) (w : Session)
      → c.expired < exit_fast
      → Errs n w
      → ((r : Bytes) (w' : Session) → Errs n w' → Counts n (onward r w'))
      → Counts n (exchange c t blame v command onward w)
  unfolding exchange command_response
  exchange-Counts c t blame v command onward w lt h go =
      after_reply-Counts n c t blame onward (command_response c v command w) lt
        (judge_answer-HeardWith v w
          (do_command_response c.writes c.reads command max_response_len w.incoming) h)
        go

  stored-Counts :
      (c : Call) (x : Matches) (w : Session) (m : Mailbox)
      → c.expired < exit_fast
      → Errs n w
      → Counts n (stored c x w m)
  unfolding stored
  stored-Counts c no_match w m lt h = abandon-Counts n cmd c.expired w lt h
  stored-Counts c end_of_input w m lt h = h
  stored-Counts c (one i) w m lt h = h
  stored-Counts c (two i t) w m lt h = h

  module _ (c : Config) (e : Env) (t : InTime e) where
    stat_mailbox-Counts : (i j : ℕ) (w : Session) → Errs n w → Counts n (stat_mailbox c e i j w)
    unfolding stat_mailbox
    stat_mailbox-Counts i j w h =
        exchange-Counts e.third cmd cmd stat (line c i j stat)
          (λ response w'. stored e.third (scan_stat (c_string response)) w' empty_mailbox) w t.third
          h (λ r w' h'. stored-Counts e.third (scan_stat (c_string r)) w' empty_mailbox t.third h')

    pop_login-Counts : (i j : ℕ) (w : Session) → Errs n w → Counts n (pop_login c e i j w)
    unfolding pop_login
    pop_login-Counts i j w h =
        exchange-Counts e.first cmd login user (line c i j user)
          (λ _. exchange e.second login login pass (line c i j pass) (λ _. stat_mailbox c e i j)) w
          t.first h
          (λ r w' h'.
            exchange-Counts e.second login login pass (line c i j pass) (λ _. stat_mailbox c e i j)
              w' t.second h' (λ r' w'' h''. stat_mailbox-Counts i j w'' h''))

    draw_login-Counts :
        (i : ℕ) (w : Session) (o : Option ℕ) → Errs n w → Counts n (draw_login c e i w o)
    unfolding draw_login
    draw_login-Counts i w none h = tt
    draw_login-Counts i w (some j) h = pop_login-Counts i j (record w { last_login = j }) h

    draw_domain-Counts : (w : Session) (o : Option ℕ) → Errs n w → Counts n (draw_domain c e w o)
    unfolding draw_domain
    draw_domain-Counts w none h = tt
    draw_domain-Counts w (some i) h =
        draw_login-Counts i (record w { last_domain = i })
          (next c.login_range w.last_login e.random_login) h

    greeted-Counts : (w : Session) (o : Option Response) → Errs n w → Counts n (greeted c e w o)
    unfolding greeted
    greeted-Counts w none h = tt
    greeted-Counts w (some r) h =
        let w' = timed banner e.greeting.expired (record w { incoming = r.unread }) in
        let h' = timed-Errs banner e.greeting.expired n (record w { incoming = r.unread }) h in
        if_cases (Counts n) (is_positive r.ret)
          (λ ok. draw_domain-Counts w' (next c.domain_range w'.last_domain e.random_domain) h')
          (λ bad. abandon-Counts n banner e.greeting.expired w' t.greeting h')

    connected-Counts : (w : Session) (o : Option Bytes) → Errs n w → Counts n (connected c e w o)
    unfolding connected free_me
    connected-Counts w none h =
        let w' = counted connect e.connecting.expired w in
        freed-Errs w'.me (n + 1) w' (counted-Errs connect e.connecting.expired n w t.connecting h)
    connected-Counts w (some stream) h =
        greeted-Counts (record w { sock = true; incoming = stream })
          (read_response e.greeting.reads max_response_len [] stream) h

    delete-Counts : (k : ℕ) (w : Session) → Errs n w → Counts n (delete c e k w)
    unfolding delete
    delete-Counts k w h =
        if_cases (Counts n) (not c.leave_mail_on_server || e.leave_sample == 0)
          (λ gone.
            exchange-Counts e.second cmd cmd (dele k) (line c 0 0 (dele k))
              (λ _ w'. some (true, w')) w t.second h (λ r w' h'. h'))
          (λ kept. h)

    retrieved-Counts :
        (k : ℕ) (w : Session) (o : Option Retrieved) → Errs n w → Counts n (retrieved c e k w o)
    unfolding retrieved
    retrieved-Counts k w none h = tt
    retrieved-Counts k w (some r) h =
        let w' = timed msgread e.first.expired (record w { incoming = r.unread }) in
        let h' = timed-Errs msgread e.first.expired n (record w { incoming = r.unread }) h in
        if_cases (Counts n) (is_negative r.ret)
          (λ bad. abandon-Counts n msgread e.first.expired w' t.first h')
          (λ ok. delete-Counts k w' h')

    sent-Counts : (k : ℕ) (w : Session) (o : Option Written) → Errs n w → Counts n (sent c e k w o)
    unfolding sent spoken
    sent-Counts k w none h = tt
    sent-Counts k w (some x) h =
        let w' = spoken (retr k) x.wire w.incoming w in
        if_cases (Counts n) (is_negative x.ret)
          (λ bad.
            abandon-Counts n msgread e.first.expired (timed msgread e.first.expired w') t.first
              (timed-Errs msgread e.first.expired n w' h))
          (λ ok. retrieved-Counts k w' (retr_msg e.first.reads w.incoming) h)

-- `doPop3Start`, as long as no time expires: it counts one error, on one timer, if it returns NULL,
-- whichever step failed, and none if it returns a state.
pub start_errors :
    (c : Config) (e : Env) (w : Session) → InTime e → Counts (errors w.tally) (start c e w)
unfolding start
start_errors c e w t =
    let w0 : Session = record w { me = some empty_mailbox; wire = []; said = []; sock = false } in
    connected-Counts (errors w.tally) c e t (timed connect e.connecting.expired w0) e.connection
      (timed-Errs connect e.connecting.expired (errors w.tally) w0 refl)
