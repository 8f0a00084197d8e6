-- ===== src/Smtp/Login.antt =====
-- src/smtp.c: smtpAuthPlain and smtpAuthLogin.
use mstone.Base.{
  ℕ, ◌+◌, Bool, true, false, ◌∷◌, ◌++◌, Option, none, some, if◌then◌else◌, Bytes, codes, contains,
  c_string,
}
use mstone.Range.{next}
use mstone.Pish.{Call, Tally, cmd, login, adjust, exit}
use mstone.Smtp.{auth, Session, Auth, no_auth, auth_plain, auth_login, Config}
use mstone.Smtp.Base64.{str_to_base64}
use mstone.Smtp.Exchange.{Env, succeeded, exchange}

-- what `str_to_base64` returned: an error is counted whatever the time
unfoldable pub encoded :
    (Bytes → Session → Option (Bool × Session)) → Option Bytes → Session → Option (Bool × Session)
unfolding exit
encoded onward none w =
    let tally = adjust login (λ (y : Tally). record y { errs = y.errs + 1 }) w.tally in
    some (false, exit (record w { tally = tally }))
encoded onward (some text) w = onward (text ++ codes "\r\n") w

-- the last line of an authentication
unfoldable pub credential : Call → Bytes → Session → Option (Bool × Session)
unfolding exchange
credential c text w = exchange c login login succeeded auth text (λ _ w'. some (true, w')) w

-- `sizeof(base64_buf)`
abbrev base64_size : ℕ
base64_size = 1024

-- `smtpAuthPlain`, with the user and the password
unfoldable pub plain : Env → Bytes → Bytes → Session → Option (Bool × Session)
unfolding exchange encoded credential
plain e user password w =
    exchange e.first cmd login succeeded auth (codes "AUTH PLAIN\r\n")
      (λ _ w'.
        encoded (credential e.second) (str_to_base64 (0 ∷ user ++ (0 ∷ password)) base64_size) w')
      w

-- `smtpAuthLogin`
unfoldable pub ask_password : Env → Bytes → Bytes → Session → Option (Bool × Session)
unfolding exchange encoded credential
ask_password e password text w =
    exchange e.second cmd login succeeded auth text
      (λ _ w'. encoded (credential e.third) (str_to_base64 password base64_size) w') w

unfoldable pub ask_user : Env → Bytes → Bytes → Session → Option (Bool × Session)
unfolding exchange encoded ask_password
ask_user e user password w =
    exchange e.first cmd login succeeded auth (codes "AUTH LOGIN\r\n")
      (λ _ w'. encoded (ask_password e password) (str_to_base64 user base64_size) w') w

-- the two draws in front of both
unfoldable pub draw_login :
    Config
    → Env
    → (Bytes → Bytes → Session → Option (Bool × Session))
    → ℕ
    → Session
    → Option ℕ
    → Option (Bool × Session)
draw_login c e onward domain_num w none = none
draw_login c e onward domain_num w (some login_num) =
    onward (c.login_format login_num domain_num) (c.passwd_format login_num)
      (record w { last_login = login_num })

unfoldable pub draw_domain :
    Config
    → Env
    → (Bytes → Bytes → Session → Option (Bool × Session))
    → Session
    → Option ℕ
    → Option (Bool × Session)
unfolding draw_login
draw_domain c e onward w none = none
draw_domain c e onward w (some domain_num) =
    draw_login c e onward domain_num (record w { last_domain = domain_num })
      (next c.login_range w.last_login e.random_login)

-- an authentication, if the response offers it
unfoldable pub offered :
    Bytes
    → Config
    → Env
    → (Bytes → Bytes → Session → Option (Bool × Session))
    → Bytes
    → Session
    → Option (Bool × Session)
unfolding draw_domain
offered mark c e onward response w =
    if contains mark (c_string response)
    then draw_domain c e onward w (next c.domain_range w.last_domain e.random_domain)
    else some (true, w)

unfoldable pub authenticate : Auth → Config → Env → Bytes → Session → Option (Bool × Session)
unfolding offered plain ask_user
authenticate no_auth c e response w = some (true, w)
authenticate auth_plain c e response w = offered (codes "AUTH PLAIN LOGIN") c e (plain e) response w
authenticate auth_login c e response w = offered (codes "AUTH=LOGIN") c e (ask_user e) response w
