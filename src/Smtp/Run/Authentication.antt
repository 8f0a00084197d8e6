-- ===== src/Smtp/Run/Authentication.antt =====
-- src/smtp.c: smtpAuthPlain and smtpAuthLogin keep the order of the session and its memory.
use mstone.Base.{
  ℕ, ◌+◌, inl, Bool, true, List, ◌∷◌, ◌++◌, Option, none, some, if_cases, Bytes, codes, c_string,
  contains,
}
use mstone.Range.{next}
use mstone.Pish.{Call, Timed, cmd, login, adjust, Tally}
use mstone.Pish.Open.{IsOpen, exit-IsShut}
use mstone.Smtp.{Verb, auth, Session, Auth, no_auth, auth_plain, auth_login, Config}
use mstone.Smtp.Base64.{str_to_base64}
use mstone.Smtp.Exchange.{Env, succeeded, exchange}
use mstone.Smtp.Login.{
  encoded, credential, plain, ask_password, ask_user, draw_login, draw_domain, offered,
  authenticate,
}
use mstone.Smtp.Run.Order.{Talks, greeted, Says, says_auth, IsLive, Goes, exchange-Goes}

-- A session that has been greeted is one to send mail with.
live : (l : List Verb) (w : Session) → Says l greeted → IsOpen l tt w → IsLive w
live l w k h = record { l = l; is_open = h; at = inl k }

-- What follows a line of an authentication, wherever it is in it.
abbrev pub Follows : (Session → Option (Bool × Session)) → Type 0
Follows f = (l : List Verb) (w : Session) → Says l greeted → IsOpen l tt w → Goes (f w)

abbrev pub Asks : (Bytes → Session → Option (Bool × Session)) → Type 0
Asks onward = (text : Bytes) → Follows (onward text)

encoded-Goes :
    (onward : Bytes → Session → Option (Bool × Session)) (o : Option Bytes)
    → Asks onward
    → Follows (encoded onward o)
unfolding encoded
encoded-Goes onward none go l w k h =
    let tally = adjust login (λ (y : Tally). record y { errs = y.errs + 1 }) w.tally in
    exit-IsShut Talks l tt (record w { tally = tally })
      (record { sock_is = h.sock_is; me_is = h.me_is; sound = h.sound; said_is = h.said_is })
      (greeted, k)
encoded-Goes onward (some text) go l w k h = go (text ++ codes "\r\n") l w k h

auth-Goes :
    (c : Call) (t : Timed) (command : Bytes) (onward : Bytes → Session → Option (Bool × Session))
    → Asks onward
    → Follows (exchange c t login succeeded auth command onward)
auth-Goes c t command onward go l w k h =
    exchange-Goes c t login succeeded auth command onward w l (greeted, says_auth k) h
      (λ r w' h'. go r (auth ∷ l) w' (says_auth k) h')

credential-Goes : (c : Call) → Asks (credential c)
unfolding credential
credential-Goes c text = auth-Goes c login text (λ _ w. some (true, w)) (λ r l w k h. live l w k h)

module _ (c : Config) (e : Env) where
  plain-Goes : (user password : Bytes) → Follows (plain e user password)
  unfolding plain
  plain-Goes user password =
      let text = str_to_base64 (0 ∷ user ++ (0 ∷ password)) 1024 in
      auth-Goes e.first cmd (codes "AUTH PLAIN\r\n") (λ _. encoded (credential e.second) text)
        (λ r. encoded-Goes (credential e.second) text (credential-Goes e.second))

  ask_password-Goes : (password : Bytes) → Asks (ask_password e password)
  unfolding ask_password
  ask_password-Goes password text =
      let secret = str_to_base64 password 1024 in
      auth-Goes e.second cmd text (λ _. encoded (credential e.third) secret)
        (λ r. encoded-Goes (credential e.third) secret (credential-Goes e.third))

  ask_user-Goes : (user password : Bytes) → Follows (ask_user e user password)
  unfolding ask_user
  ask_user-Goes user password =
      let name = str_to_base64 user 1024 in
      auth-Goes e.first cmd (codes "AUTH LOGIN\r\n") (λ _. encoded (ask_password e password) name)
        (λ r. encoded-Goes (ask_password e password) name (ask_password-Goes password))

  module _ (onward : Bytes → Bytes → Session → Option (Bool × Session))
      (go : (user password : Bytes) → Follows (onward user password)) where
    draw_login-Goes : (d : ℕ) (o : Option ℕ) → Follows (λ w. draw_login c e onward d w o)
    unfolding draw_login
    draw_login-Goes d none l w k h = tt
    draw_login-Goes d (some n) l w k h =
        go (c.login_format n d) (c.passwd_format n) l (record w { last_login = n }) k
          (record { sock_is = h.sock_is; me_is = h.me_is; sound = h.sound; said_is = h.said_is })

    draw_domain-Goes : (o : Option ℕ) → Follows (λ w. draw_domain c e onward w o)
    unfolding draw_domain
    draw_domain-Goes none l w k h = tt
    draw_domain-Goes (some d) l w k h =
        draw_login-Goes d (next c.login_range w.last_login e.random_login) l
          (record w { last_domain = d }) k
          (record { sock_is = h.sock_is; me_is = h.me_is; sound = h.sound; said_is = h.said_is })

    offered-Goes : (mark response : Bytes) → Follows (offered mark c e onward response)
    unfolding offered
    offered-Goes mark response l w k h =
        if_cases Goes (contains mark (c_string response))
          (λ yes. draw_domain-Goes (next c.domain_range w.last_domain e.random_domain) l w k h)
          (λ no. live l w k h)

  pub authenticate-Goes : (a : Auth) → Asks (authenticate a c e)
  unfolding authenticate
  authenticate-Goes no_auth response l w k h = live l w k h
  authenticate-Goes auth_plain response l w k h =
      offered-Goes (plain e) plain-Goes (codes "AUTH PLAIN LOGIN") response l w k h
  authenticate-Goes auth_login response l w k h =
      offered-Goes (ask_user e) ask_user-Goes (codes "AUTH=LOGIN") response l w k h
