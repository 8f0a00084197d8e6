-- ===== src/Smtp/Run/Errors.antt =====
-- src/smtp.c: what an exchange counts as an error.
pub mod Opening
pub mod Sending
use mstone.Base.{
  ℕ, ◌+◌, ◌<◌, ◌≡◌, refl, Bool, true, false, not, List, [], ◌∷◌, ◌++◌, Option, none, some, if_cases,
  pos, is_positive, is_negative, is_zero, lt_int, Bytes, codes, c_string, contains,
}
use mstone.Range.{next}
use mstone.Transfer.{Written, send_command}
use mstone.Transfer.Line.{Response, read_response}
use mstone.Timer.{exit_fast}
use mstone.Pish.{
  max_response_len, Call, Timed, connect, banner, cmd, login, msgwrite, Reply, timed, counted,
  free_me, exit, abandon, spoken, adjust, Tally,
}
use mstone.Pish.Counting.{
  errors, adjust_errs, Errs, timed-Errs, counted-Errs, freed-Errs, exit-Errs, Counts,
  abandon-Counts, HeardWith, after_reply-Counts,
}
use mstone.Smtp.{
  Verb, hello, auth, mail, rset, rcpt, data_, body, Session, Greeting, helo, ehlo, lhlo, Auth,
  no_auth, auth_plain, auth_login, Config, is_smtp_response, is_smtp_response_ok, Outcome,
  smtp_command_response,
}
use mstone.Smtp.Base64.{str_to_base64}
use mstone.Smtp.Hello.{Hello, read_hello}
use mstone.Smtp.SendFile.{send_file}
use mstone.Smtp.Exchange.{Recipient, Env, succeeded, data_accepted, reply, exchange}
use mstone.Smtp.Login.{
  encoded, credential, plain, ask_password, ask_user, draw_login, draw_domain, offered,
  authenticate,
}
use mstone.Smtp.Run.{
  hello_answered, hello_sent, extended, greet, banner_line, read_banner, connected, start, answered,
  body_sent, send_data, send_rcpt, draw_rcpt, send_rcpts, address, file_entry, mail_line, send_mail,
  loop,
}

abbrev pub AreInTime : List Call → Type 0
AreInTime [] = Unit {0}
AreInTime (c ∷ cs) = (c.expired < exit_fast) × AreInTime cs

abbrev pub RcptsInTime : List Recipient → Type 0
RcptsInTime [] = Unit {0}
RcptsInTime (r ∷ rs) = (r.call.expired < exit_fast) × RcptsInTime rs

-- The calls of a script come back before `gf_timeexpired` has reached `EXIT_FAST`.
pub record InTime (e : Env) : Type 0 where
  pub connecting : e.connecting.expired < exit_fast
  pub banners : AreInTime e.banners
  pub greeting : e.greeting.expired < exit_fast
  pub first : e.first.expired < exit_fast
  pub second : e.second.expired < exit_fast
  pub third : e.third.expired < exit_fast
  pub recipients : RcptsInTime e.recipients

module _ (n : ℕ) where
  -- What counts right from every session with the errors so far.
  abbrev pub Tells : (Session → Option (Bool × Session)) → Type 0
  Tells f = (w : Session) → Errs n w → Counts n (f w)

  abbrev pub Asks : (Bytes → Session → Option (Bool × Session)) → Type 0
  Asks onward = (text : Bytes) → Tells (onward text)

  reply-HeardWith :
      (good : Outcome → Bool) (v : Verb) (w : Session) (o : Option Outcome)
      → Errs n w
      → HeardWith n (reply good v w o)
  unfolding reply spoken
  reply-HeardWith good v w none h = tt
  reply-HeardWith good v w (some o) h = h

  pub exchange-Counts :
      (c : Call) (t blame : Timed) (good : Outcome → Bool) (v : Verb) (command : Bytes)
      (onward : Bytes → Session → Option (Bool × Session))
      → c.expired < exit_fast
      → Asks onward
      → Tells (exchange c t blame good v command onward)
  unfolding exchange
  exchange-Counts c t blame good v command onward lt go w h =
      let o = smtp_command_response c command w.incoming in
      after_reply-Counts n c t blame onward (reply good v w o) lt (reply-HeardWith good v w o h) go

  pub encoded-Counts :
      (onward : Bytes → Session → Option (Bool × Session)) (o : Option Bytes)
      → Asks onward
      → Tells (encoded onward o)
  unfolding encoded
  encoded-Counts onward none go w h =
      let tally = adjust login (λ (y : Tally). record y { errs = y.errs + 1 }) w.tally in
      exit-Errs (n + 1) (record w { tally = tally }) (rw (adjust_errs login w.tally, h))
  encoded-Counts onward (some text) go w h = go (text ++ codes "\r\n") w h

  pub credential-Counts : (c : Call) → c.expired < exit_fast → Asks (credential c)
  unfolding credential
  credential-Counts c lt text =
      exchange-Counts c login login succeeded auth text (λ _ w. some (true, w)) lt (λ r w h. h)
