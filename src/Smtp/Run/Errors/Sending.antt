-- ===== src/Smtp/Run/Errors/Sending.antt =====
-- src/smtp.c: what sendSMTPLoop counts as errors.
use mstone.Base.{
  ℕ, ◌+◌, ◌<◌, refl, Bool, true, List, [], ◌∷◌, ◌++◌, Option, none, some, if_cases, pos,
  is_positive, is_negative, is_zero, lt_int, Bytes, codes,
}
use mstone.Range.{next}
use mstone.Transfer.{Written}
use mstone.Transfer.Line.{Response, read_response}
use mstone.Timer.{exit_fast}
use mstone.Pish.{max_response_len, cmd, msgwrite, timed, spoken}
use mstone.Pish.Counting.{errors, timed-Errs, Counts, abandon-Counts}
use mstone.Smtp.{mail, rset, rcpt, data_, body, Session, Config}
use mstone.Smtp.SendFile.{send_file}
use mstone.Smtp.Exchange.{Recipient, Env, succeeded, data_accepted}
use mstone.Smtp.Run.{
  start, answered, body_sent, send_data, send_rcpt, draw_rcpt, send_rcpts, address, file_entry,
  mail_line, send_mail, loop,
}
use mstone.Smtp.Run.Errors.{RcptsInTime, InTime, Tells, exchange-Counts}
use mstone.Smtp.Run.Errors.Opening.{start-Counts}

module _ (n : ℕ) where
  module _ (c : Config) (e : Env) (t : InTime e) where
    answered-Counts : (o : Option Response) → Tells n (λ w. answered e w o)
    unfolding answered
    answered-Counts none w h = tt
    answered-Counts (some r) w h =
        let w0 : Session = record w { incoming = r.unread } in
        let w' = timed msgwrite e.third.expired w0 in
        let h' = timed-Errs msgwrite e.third.expired n w0 h in
        if_cases (Counts n) (is_positive r.ret) (λ ok. h')
          (λ bad. abandon-Counts n msgwrite e.third.expired w' t.third h')

    body_sent-Counts : (o : Option Written) → Tells n (λ w. body_sent e w o)
    unfolding body_sent spoken
    body_sent-Counts none w h = tt
    body_sent-Counts (some x) w h =
        let w' = spoken body x.wire w.incoming w in
        if_cases (Counts n) (is_negative x.ret)
          (λ bad.
            abandon-Counts n msgwrite e.third.expired (timed msgwrite e.third.expired w') t.third
              (timed-Errs msgwrite e.third.expired n w' h))
          (λ ok. answered-Counts (read_response e.third.reads max_response_len [] w.incoming) w' h)

    send_data-Counts : Tells n (send_data e)
    unfolding send_data
    send_data-Counts =
        exchange-Counts n e.second cmd cmd data_accepted data_ (codes "DATA\r\n")
          (λ _ w'. body_sent e w' (send_file e.file e.trailer)) t.second
          (λ r. body_sent-Counts (send_file e.file e.trailer))

    module _ (r : Recipient) (onward : Session → Option (Bool × Session))
        (lt : r.call.expired < exit_fast) (go : Tells n onward) where
      send_rcpt-Counts : (d : ℕ) (o : Option ℕ) → Tells n (λ w. send_rcpt c r onward d w o)
      unfolding send_rcpt
      send_rcpt-Counts d none w h = tt
      send_rcpt-Counts d (some i) w h =
          exchange-Counts n r.call cmd cmd succeeded rcpt
            (codes "RCPT TO:<" ++ (c.address_format i d ++ codes ">\r\n")) (λ _. onward) lt
            (λ _. go) (record w { last_address = i }) h

      draw_rcpt-Counts : (o : Option ℕ) → Tells n (λ w. draw_rcpt c r onward w o)
      unfolding draw_rcpt
      draw_rcpt-Counts none w h = tt
      draw_rcpt-Counts (some d) w h =
          send_rcpt-Counts d (next c.address_range w.last_address r.random_address)
            (record w { last_domain = d }) h

    send_rcpts-Counts :
        (rs : List Recipient) (jj : ℕ) → RcptsInTime rs → Tells n (send_rcpts c e rs jj)
    unfolding send_rcpts
    send_rcpts-Counts [] jj lt w h =
        if_cases (Counts n) (lt_int (pos jj) e.num_recips) (λ more. tt)
          (λ done. send_data-Counts w h)
    send_rcpts-Counts (r ∷ rs) jj lt w h =
        if_cases (Counts n) (lt_int (pos jj) e.num_recips)
          (λ more.
            draw_rcpt-Counts r (λ w'. send_rcpts c e rs (jj + 1) w') lt.0
              (send_rcpts-Counts rs (jj + 1) lt.1)
              (next c.domain_range w.last_domain r.random_domain) w h)
          (λ done. send_data-Counts w h)

    address-Counts : Tells n (address c e)
    unfolding address
    address-Counts w h =
        if_cases (Counts n) (is_zero e.num_recips)
          (λ nobody.
            exchange-Counts n e.second cmd cmd succeeded rset (codes "RSET\r\n")
              (λ _ w'. some (true, w')) t.second (λ r w' h'. h') w h)
          (λ several. send_rcpts-Counts e.recipients 0 t.recipients w h)

    send_mail-Counts : (o : Option (Option Bytes)) → Tells n (λ w. send_mail c e w o)
    unfolding send_mail
    send_mail-Counts none w h = tt
    send_mail-Counts (some sender) w h =
        exchange-Counts n e.first cmd cmd succeeded (mail e.num_recips) (mail_line c sender)
          (λ _. address c e) t.first (λ r. address-Counts) w h

    loop-Counts : Tells n (loop c e)
    unfolding loop
    loop-Counts w h = send_mail-Counts (file_entry c.senders e.random_file) w h

-- Calls of sendSMTPStart and of sendSMTPLoop that come back, as long as no time expires: each
-- counts one error, on one timer, if it returns NULL or -1, whichever step failed, and none if it
-- returns a state or 0.
pub smtp_errors :
    (c : Config) (e : Env) (w : Session)
    → InTime e
    → Counts (errors w.tally) (start c e w) × Counts (errors w.tally) (loop c e w)
smtp_errors c e w t =
    (start-Counts (errors w.tally) c e t w refl, loop-Counts (errors w.tally) c e t w refl)
