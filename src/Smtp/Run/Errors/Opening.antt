-- ===== src/Smtp/Run/Errors/Opening.antt =====
-- src/smtp.c: what sendSMTPStart counts as errors.
use mstone.Base.{
  ℕ, ◌+◌, ◌<◌, Bool, true, false, not, List, [], ◌∷◌, ◌++◌, Option, none, some, if_cases,
  is_positive, is_negative, Bytes, codes, c_string, contains,
}
use mstone.Range.{next}
use mstone.Transfer.{Written, send_command}
use mstone.Transfer.Line.{Response, read_response}
use mstone.Timer.{exit_fast}
use mstone.Pish.{
  max_response_len, Call, connect, banner, cmd, login, timed, counted, free_me, spoken,
}
use mstone.Pish.Counting.{
  Errs, timed-Errs, counted-Errs, freed-Errs, Counts, abandon-Counts, HeardWith, after_reply-Counts,
}
use mstone.Smtp.{
  hello, auth, Session, Greeting, helo, ehlo, lhlo, Auth, no_auth, auth_plain, auth_login, Config,
  is_smtp_response, is_smtp_response_ok,
}
use mstone.Smtp.Base64.{str_to_base64}
use mstone.Smtp.Hello.{Hello, read_hello}
use mstone.Smtp.Exchange.{Env, succeeded}
use mstone.Smtp.Login.{
  encoded, credential, plain, ask_password, ask_user, draw_login, draw_domain, offered,
  authenticate,
}
use mstone.Smtp.Run.{
  hello_answered, hello_sent, extended, greet, banner_line, read_banner, connected, start,
}
use mstone.Smtp.Run.Errors.{
  AreInTime, InTime, Tells, Asks, exchange-Counts, encoded-Counts, credential-Counts,
}

module _ (n : ℕ) where
  module _ (c : Config) (e : Env) (t : InTime e) where
    plain-Counts : (user password : Bytes) → Tells n (plain e user password)
    unfolding plain
    plain-Counts user password =
        let text = str_to_base64 (0 ∷ user ++ (0 ∷ password)) 1024 in
        exchange-Counts n e.first cmd login succeeded auth (codes "AUTH PLAIN\r\n")
          (λ _. encoded (credential e.second) text) t.first
          (λ r. encoded-Counts n (credential e.second) text (credential-Counts n e.second t.second))

    ask_password-Counts : (password : Bytes) → Asks n (ask_password e password)
    unfolding ask_password
    ask_password-Counts password text =
        let secret = str_to_base64 password 1024 in
        exchange-Counts n e.second cmd login succeeded auth text
          (λ _. encoded (credential e.third) secret) t.second
          (λ r. encoded-Counts n (credential e.third) secret (credential-Counts n e.third t.third))

    ask_user-Counts : (user password : Bytes) → Tells n (ask_user e user password)
    unfolding ask_user
    ask_user-Counts user password =
        let name = str_to_base64 user 1024 in
        exchange-Counts n e.first cmd login succeeded auth (codes "AUTH LOGIN\r\n")
          (λ _. encoded (ask_password e password) name) t.first
          (λ r. encoded-Counts n (ask_password e password) name (ask_password-Counts password))

    module _ (onward : Bytes → Bytes → Session → Option (Bool × Session))
        (go : (user password : Bytes) → Tells n (onward user password)) where
      draw_login-Counts : (d : ℕ) (o : Option ℕ) → Tells n (λ w. draw_login c e onward d w o)
      unfolding draw_login
      draw_login-Counts d none w h = tt
      draw_login-Counts d (some i) w h =
          go (c.login_format i d) (c.passwd_format i) (record w { last_login = i }) h

      draw_domain-Counts : (o : Option ℕ) → Tells n (λ w. draw_domain c e onward w o)
      unfolding draw_domain
      draw_domain-Counts none w h = tt
      draw_domain-Counts (some d) w h =
          draw_login-Counts d (next c.login_range w.last_login e.random_login)
            (record w { last_domain = d }) h

      offered-Counts : (mark response : Bytes) → Tells n (offered mark c e onward response)
      unfolding offered
      offered-Counts mark response w h =
          if_cases (Counts n) (contains mark (c_string response))
            (λ yes. draw_domain-Counts (next c.domain_range w.last_domain e.random_domain) w h)
            (λ no. h)

    authenticate-Counts : (a : Auth) → Asks n (authenticate a c e)
    unfolding authenticate
    authenticate-Counts no_auth response w h = h
    authenticate-Counts auth_plain response w h =
        offered-Counts (plain e) plain-Counts (codes "AUTH PLAIN LOGIN") response w h
    authenticate-Counts auth_login response w h =
        offered-Counts (ask_user e) ask_user-Counts (codes "AUTH=LOGIN") response w h

    hello_answered-HeardWith :
        (wire : Bytes) (w : Session) (o : Option Hello)
        → Errs n w
        → HeardWith n (hello_answered wire w o)
    unfolding hello_answered spoken
    hello_answered-HeardWith wire w none h = tt
    hello_answered-HeardWith wire w (some x) h = h

    hello_sent-HeardWith :
        (w : Session) (o : Option Written) → Errs n w → HeardWith n (hello_sent e w o)
    unfolding hello_sent spoken
    hello_sent-HeardWith w none h = tt
    hello_sent-HeardWith w (some x) h =
        if_cases (HeardWith n) (is_negative x.ret) (λ bad. h)
          (λ ok.
            hello_answered-HeardWith x.wire w (read_hello e.hello_reads e.left_over w.incoming) h)

    extended-Counts : (command : Bytes) → Tells n (extended c e command)
    unfolding extended
    extended-Counts command w h =
        let o = send_command e.greeting.writes command 0 [] in
        after_reply-Counts n e.greeting cmd cmd (authenticate c.authentication c e)
          (hello_sent e w o) t.greeting (hello_sent-HeardWith w o h)
          (authenticate-Counts c.authentication)

    greet-Counts : (g : Greeting) → Tells n (greet g c e)
    unfolding greet
    greet-Counts helo w h =
        exchange-Counts n e.greeting cmd cmd succeeded hello
          (codes "HELO " ++ (c.hostname ++ codes "\r\n")) (authenticate c.authentication c e)
          t.greeting (authenticate-Counts c.authentication) w h
    greet-Counts ehlo w h = extended-Counts (codes "EHLO " ++ (c.hostname ++ codes "\r\n")) w h
    greet-Counts lhlo w h = extended-Counts (codes "LHLO " ++ (c.hostname ++ codes "\r\n")) w h

    banner_line-Counts :
        (again : Session → Option (Bool × Session)) (b : Call) (w : Session) (o : Option Response)
        → b.expired < exit_fast
        → Errs n w
        → Tells n again
        → Counts n (banner_line again c e b w o)
    unfolding banner_line
    banner_line-Counts again b w none lt h go = tt
    banner_line-Counts again b w (some r) lt h go =
        let w0 : Session = record w { incoming = r.unread } in
        let w' = timed banner b.expired w0 in
        let h' = timed-Errs banner b.expired n w0 h in
        let gone = abandon-Counts n banner b.expired w' lt h' in
        if_cases (Counts n) (not (is_positive r.ret)) (λ bad. gone)
          (λ ok.
            if_cases (Counts n) (is_smtp_response r.buffer)
              (λ last.
                if_cases (Counts n) (is_smtp_response_ok r.buffer)
                  (λ good. greet-Counts c.greeting w' h') (λ bad. gone))
              (λ more. go w0 h))

    read_banner-Counts : (bs : List Call) → AreInTime bs → Tells n (read_banner c e bs)
    unfolding read_banner
    read_banner-Counts [] lt w h = tt
    read_banner-Counts (b ∷ bs) lt w h =
        banner_line-Counts (λ w'. read_banner c e bs w') b w
          (read_response b.reads max_response_len [] w.incoming) lt.0 h (read_banner-Counts bs lt.1)

    connected-Counts : (o : Option Bytes) → Tells n (λ w. connected c e w o)
    unfolding connected free_me
    connected-Counts none w h =
        let w' = counted connect e.connecting.expired w in
        freed-Errs w'.me (n + 1) w' (counted-Errs connect e.connecting.expired n w t.connecting h)
    connected-Counts (some stream) w h =
        read_banner-Counts e.banners t.banners (record w { sock = true; incoming = stream }) h

    pub start-Counts : Tells n (start c e)
    unfolding start
    start-Counts w h =
        let w0 : Session = record w { me = some tt; wire = []; said = []; sock = false } in
        connected-Counts e.connection (timed connect e.connecting.expired w0)
          (timed-Errs connect e.connecting.expired n w0 h)
