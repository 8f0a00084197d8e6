-- ===== src/Smtp/Run/Sending.antt =====
-- src/smtp.c: `sendSMTPLoop` and `sendSMTPEnd` keep the order of the session and its memory.
use mstone.Base.{
  ℕ, ◌+◌, ◌≡◌, ◌⊎◌, inl, inr, Bool, true, false, List, [], ◌∷◌, ◌++◌, Option, none, some,
  if◌then◌else◌, if_cases, true_not_false, pos, is_positive, is_negative, is_zero, lt_int, Bytes,
  codes,
}
use mstone.Range.{next}
use mstone.Transfer.{Written}
use mstone.Transfer.Line.{Response, read_response}
use mstone.Client.Contract.{Leaves}
use mstone.Pish.{
  max_response_len, Call, cmd, msgwrite, logout, Reply, timed, counted, abandon, spoken,
}
use mstone.Pish.Open.{
  IsOpen, timed-IsOpen, counted-IsOpen, spoken-IsOpen, Heard, exit-IsShut, abandon-Yields,
}
use mstone.Smtp.{Verb, mail, rset, rcpt, data_, body, quit, Session, Config, smtp_command_response}
use mstone.Smtp.SendFile.{send_file}
use mstone.Smtp.Exchange.{Recipient, Env, succeeded, data_accepted, reply}
use mstone.Smtp.Run.{
  answered, body_sent, send_data, send_rcpt, draw_rcpt, send_rcpts, address, file_entry, mail_line,
  send_mail, loop, quitted, end,
}
use mstone.Smtp.Run.Order.{
  Stage, between, addressed, content, closed, Says, says_mail, says_next, says_rset, says_rcpt,
  says_data, says_body, says_quit, says_leave, Talks, AtRest, IsClosed, IsLive, reply-Heard, Goes,
  exchange-Goes,
}

abandon-Goes :
    (x : ℕ) (s : Stage) (l : List Verb) (w : Session)
    → Says l s
    → IsOpen l tt w
    → Goes (abandon msgwrite x w)
abandon-Goes x s l w k h =
    abandon-Yields Talks IsClosed IsLive (λ w closed. closed) msgwrite x l tt w h (s, k)

module _ (c : Config) (e : Env) where
  answered-Goes :
      (l : List Verb) (w : Session) (o : Option Response)
      → Says l between
      → IsOpen l tt w
      → Goes (answered e w o)
  unfolding answered
  answered-Goes l w none k h = tt
  answered-Goes l w (some r) k h =
      let w0 : Session = record w { incoming = r.unread } in
      let w' = timed msgwrite e.third.expired w0 in
      let h' =
        timed-IsOpen msgwrite e.third.expired l tt w0
          (record { sock_is = h.sock_is; me_is = h.me_is; sound = h.sound; said_is = h.said_is }) in
      if_cases Goes (is_positive r.ret) (λ ok. record { l = l; is_open = h'; at = inr k })
        (λ bad. abandon-Goes e.third.expired between l w' k h')

  body_sent-Goes :
      (l : List Verb) (w : Session) (o : Option Written)
      → Says l content
      → IsOpen l tt w
      → Goes (body_sent e w o)
  unfolding body_sent
  body_sent-Goes l w none k h = tt
  body_sent-Goes l w (some x) k h =
      let w' = spoken body x.wire w.incoming w in
      let h' = spoken-IsOpen body x.wire w.incoming l tt w h in
      if_cases Goes (is_negative x.ret)
        (λ bad.
          abandon-Goes e.third.expired between (body ∷ l) (timed msgwrite e.third.expired w')
            (says_body k) (timed-IsOpen msgwrite e.third.expired (body ∷ l) tt w' h'))
        (λ ok.
          answered-Goes (body ∷ l) w' (read_response e.third.reads max_response_len [] w.incoming)
            (says_body k) h')

  send_data-Goes :
      (l : List Verb) (jj : ℕ) (w : Session)
      → is_zero e.num_recips ≡ false
      → lt_int (pos jj) e.num_recips ≡ false
      → Says l (addressed e.num_recips jj)
      → IsOpen l tt w
      → Goes (send_data e w)
  unfolding send_data
  send_data-Goes l jj w z done k h =
      exchange-Goes e.second cmd cmd data_accepted data_ (codes "DATA\r\n")
        (λ _ w'. body_sent e w' (send_file e.file e.trailer)) w l (content, says_data z done k) h
        (λ r w' h'.
          body_sent-Goes (data_ ∷ l) w' (send_file e.file e.trailer) (says_data z done k) h')

  module _ (r : Recipient) (onward : Session → Option (Bool × Session)) (l : List Verb) (s : Stage)
      (k : Says (rcpt ∷ l) s)
      (go : (w' : Session) → IsOpen (rcpt ∷ l) tt w' → Goes (onward w')) where
    send_rcpt-Goes :
        (d : ℕ) (w : Session) (o : Option ℕ) → IsOpen l tt w → Goes (send_rcpt c r onward d w o)
    unfolding send_rcpt
    send_rcpt-Goes d w none h = tt
    send_rcpt-Goes d w (some n) h =
        exchange-Goes r.call cmd cmd succeeded rcpt
          (codes "RCPT TO:<" ++ (c.address_format n d ++ codes ">\r\n")) (λ _. onward)
          (record w { last_address = n }) l (s, k)
          (record { sock_is = h.sock_is; me_is = h.me_is; sound = h.sound; said_is = h.said_is })
          (λ _ w' h'. go w' h')

    draw_rcpt-Goes : (w : Session) (o : Option ℕ) → IsOpen l tt w → Goes (draw_rcpt c r onward w o)
    unfolding draw_rcpt
    draw_rcpt-Goes w none h = tt
    draw_rcpt-Goes w (some d) h =
        send_rcpt-Goes d (record w { last_domain = d })
          (next c.address_range w.last_address r.random_address)
          (record { sock_is = h.sock_is; me_is = h.me_is; sound = h.sound; said_is = h.said_is })

  send_rcpts-Goes :
      (rs : List Recipient) (jj : ℕ) (l : List Verb) (w : Session)
      → is_zero e.num_recips ≡ false
      → Says l (addressed e.num_recips jj)
      → IsOpen l tt w
      → Goes (send_rcpts c e rs jj w)
  unfolding send_rcpts
  send_rcpts-Goes [] jj l w z k h =
      if_cases Goes (lt_int (pos jj) e.num_recips) (λ more. tt)
        (λ done. send_data-Goes l jj w z done k h)
  send_rcpts-Goes (r ∷ rs) jj l w z k h =
      if_cases Goes (lt_int (pos jj) e.num_recips)
        (λ more.
          draw_rcpt-Goes r (λ w'. send_rcpts c e rs (jj + 1) w') l (addressed e.num_recips (jj + 1))
            (says_rcpt z more k)
            (λ w' h'. send_rcpts-Goes rs (jj + 1) (rcpt ∷ l) w' z (says_rcpt z more k) h') w
            (next c.domain_range w.last_domain r.random_domain) h)
        (λ done. send_data-Goes l jj w z done k h)

  address-Goes :
      (l : List Verb) (w : Session)
      → Says l (addressed e.num_recips 0)
      → IsOpen l tt w
      → Goes (address c e w)
  unfolding address
  address-Goes l w k h =
      if_cases Goes (is_zero e.num_recips)
        (λ nobody.
          exchange-Goes e.second cmd cmd succeeded rset (codes "RSET\r\n") (λ _ w'. some (true, w'))
            w l (between, says_rset nobody k) h
            (λ r w' h'. record { l = rset ∷ l; is_open = h'; at = inr (says_rset nobody k) }))
        (λ several. send_rcpts-Goes e.recipients 0 l w several k h)

  Says-mail : (l : List Verb) → AtRest l → Says (mail e.num_recips ∷ l) (addressed e.num_recips 0)
  Says-mail l (inl k) = says_mail e.num_recips k
  Says-mail l (inr k) = says_next e.num_recips k

  send_mail-Goes :
      (l : List Verb) (w : Session) (o : Option (Option Bytes))
      → AtRest l
      → IsOpen l tt w
      → Goes (send_mail c e w o)
  unfolding send_mail
  send_mail-Goes l w none k h = tt
  send_mail-Goes l w (some sender) k h =
      exchange-Goes e.first cmd cmd succeeded (mail e.num_recips) (mail_line c sender)
        (λ _. address c e) w l (addressed e.num_recips 0, Says-mail l k) h
        (λ r w' h'. address-Goes (mail e.num_recips ∷ l) w' (Says-mail l k) h')

  pub loop-Goes : (w : Session) → IsLive w → Goes (loop c e w)
  unfolding loop
  loop-Goes w h = send_mail-Goes h.l w (file_entry c.senders e.random_file) h.at h.is_open

  quitted-Leaves :
      (k : Call) (o : Option (Reply Verb Unit)) (l : List Verb)
      → Says l closed
      → Heard l tt o
      → Leaves IsClosed (quitted k o)
  unfolding quitted
  quitted-Leaves k none l s h = tt
  quitted-Leaves k (some r) l s h =
      let w = timed logout k.expired r.session in
      let o = timed-IsOpen logout k.expired l tt r.session h in
      exit-IsShut Talks l tt (if r.ok then w else counted logout k.expired w)
        (if_cases (IsOpen l tt) r.ok (λ ok. o) (λ bad. counted-IsOpen logout k.expired l tt w o))
        (closed, s)

  Says-end : (l : List Verb) → AtRest l → Says (quit ∷ l) closed
  Says-end l (inl k) = says_quit k
  Says-end l (inr k) = says_leave k

  pub end-Leaves : (w : Session) → IsLive w ⊎ IsClosed w → Leaves IsClosed (end c e w)
  unfolding end
  end-Leaves w (inl h) =
      if_cases (Leaves IsClosed) w.sock
        (λ up.
          let o = smtp_command_response e.first (codes "QUIT\r\n") w.incoming in
          quitted-Leaves e.first (reply succeeded quit w o) (quit ∷ h.l) (Says-end h.l h.at)
            (reply-Heard succeeded quit h.l w o h.is_open))
        (λ down. absurd (true_not_false w.sock h.is_open.sock_is down))
  end-Leaves w (inr h) =
      if_cases (Leaves IsClosed) w.sock (λ up. absurd (true_not_false w.sock up h.sock_is))
        (λ down. h)
