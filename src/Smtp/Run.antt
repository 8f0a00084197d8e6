-- ===== src/Smtp/Run.antt =====
-- src/smtp.c: the calls of the protocol, sendSMTPStart, sendSMTPLoop and sendSMTPEnd.
pub mod Order
pub mod Authentication
pub mod Opening
pub mod Sending
pub mod Safe
pub mod Errors
mod Examples
use mstone.Base.{
  ℕ, ◌+◌, ◌%◌, Bool, true, false, ◌&&◌, not, List, [], ◌∷◌, ◌++◌, Option, none, some, ltb,
  if◌then◌else◌, length, get_elem?, ℤ, pos, is_positive, is_negative, is_zero, lt_int, Bytes, codes,
  starts_with, contains, c_string,
}
use mstone.Range.{next}
use mstone.Transfer.{Round, Written, send_command}
use mstone.Transfer.Line.{Response, read_response}
use mstone.Client.{Protocol}
use mstone.Pish.{
  max_response_len, Call, Tally, Timed, connect, banner, cmd, login, msgwrite, logout, Conversation,
  Reply, adjust, timed, counted, free_me, exit, abandon, spoken, after_reply,
}
use mstone.Smtp.{
  Verb, hello, auth, mail, rset, rcpt, data_, body, quit, Session, Greeting, helo, ehlo, lhlo, Auth,
  no_auth, auth_plain, auth_login, Config, is_smtp_response_ok, is_smtp_response, Code, success,
  io_error, refused, Outcome, smtp_command_response,
}
use mstone.Smtp.Base64.{str_to_base64}
use mstone.Smtp.Hello.{Hello, read_hello}
use mstone.Smtp.SendFile.{send_file}
use mstone.Smtp.Exchange.{Recipient, Env, succeeded, data_accepted, reply, exchange}
use mstone.Smtp.Login.{
  encoded, credential, plain, ask_password, ask_user, draw_login, draw_domain, offered,
  authenticate,
}

-- the response to EHLO or LHLO
pub hello_answered : Bytes → Session → Option Hello → Option (Reply Verb Unit)
unfolding spoken
hello_answered wire w none = none
hello_answered wire w (some h) =
    some (record { ok = h.ok; response = h.response; session = spoken hello wire h.unread w })

-- what `sendCommand` returned for EHLO or LHLO
pub hello_sent : Env → Session → Option Written → Option (Reply Verb Unit)
unfolding hello_answered spoken
hello_sent e w none = none
hello_sent e w (some x) =
    if is_negative x.ret
    then some (record { ok = false; response = []; session = spoken hello x.wire w.incoming w })
    else hello_answered x.wire w (read_hello e.hello_reads e.left_over w.incoming)

pub extended : Config → Env → Bytes → Session → Option (Bool × Session)
unfolding hello_sent after_reply authenticate
extended c e command w =
    after_reply e.greeting cmd cmd (authenticate c.authentication c e)
      (hello_sent e w (send_command e.greeting.writes command 0 []))

-- the greeting, and what follows it in `sendSMTPStart`
pub greet : Greeting → Config → Env → Session → Option (Bool × Session)
unfolding exchange extended authenticate
greet helo c e w =
    exchange e.greeting cmd cmd succeeded hello (codes "HELO " ++ (c.hostname ++ codes "\r\n"))
      (authenticate c.authentication c e) w
greet ehlo c e w = extended c e (codes "EHLO " ++ (c.hostname ++ codes "\r\n")) w
greet lhlo c e w = extended c e (codes "LHLO " ++ (c.hostname ++ codes "\r\n")) w

-- a line up to the banner: `again` reads the next one
pub banner_line :
    (Session → Option (Bool × Session))
    → Config
    → Env
    → Call
    → Session
    → Option Response
    → Option (Bool × Session)
unfolding greet
banner_line again c e b w none = none
banner_line again c e b w (some r) =
    let w0 : Session = record w { incoming = r.unread } in
    let w' = timed banner b.expired w0 in
    let more = again w0 in
    if not (is_positive r.ret)
    then abandon banner b.expired w'
    else if is_smtp_response r.buffer
    then if is_smtp_response_ok r.buffer
      then greet c.greeting c e w'
      else abandon banner b.expired w'
    else more

pub read_banner : Config → Env → List Call → Session → Option (Bool × Session)
unfolding banner_line
read_banner c e [] w = none
read_banner c e (b ∷ bs) w =
    banner_line (λ w'. read_banner c e bs w') c e b w
      (read_response b.reads max_response_len [] w.incoming)

-- `connectSocket`
pub connected : Config → Env → Session → Option Bytes → Option (Bool × Session)
unfolding read_banner
connected c e w none = some (false, free_me (counted connect e.connecting.expired w))
connected c e w (some stream) =
    read_banner c e e.banners (record w { sock = true; incoming = stream })

-- `sendSMTPStart`
pub start : Config → Env → Session → Option (Bool × Session)
unfolding connected
start c e w =
    connected c e
      (timed connect e.connecting.expired
        (record w { me = some tt; wire = []; said = []; sock = false }))
      e.connection

-- the response to the message
pub answered : Env → Session → Option Response → Option (Bool × Session)
unfolding abandon
answered e w none = none
answered e w (some r) =
    let w' = timed msgwrite e.third.expired (record w { incoming = r.unread }) in
    if is_positive r.ret then some (true, w') else abandon msgwrite e.third.expired w'

-- what `sendFile` returned
pub body_sent : Env → Session → Option Written → Option (Bool × Session)
unfolding answered spoken abandon
body_sent e w none = none
body_sent e w (some x) =
    let w' = spoken body x.wire w.incoming w in
    if is_negative x.ret
    then abandon msgwrite e.third.expired (timed msgwrite e.third.expired w')
    else answered e w' (read_response e.third.reads max_response_len [] w.incoming)

-- DATA and the message
pub send_data : Env → Session → Option (Bool × Session)
unfolding exchange body_sent
send_data e w =
    exchange e.second cmd cmd data_accepted data_ (codes "DATA\r\n")
      (λ _ w'. body_sent e w' (send_file e.file e.trailer)) w

-- RCPT to the address drawn
pub send_rcpt :
    Config
    → Recipient
    → (Session → Option (Bool × Session))
    → ℕ
    → Session
    → Option ℕ
    → Option (Bool × Session)
unfolding exchange
send_rcpt c r onward domain_num w none = none
send_rcpt c r onward domain_num w (some address_num) =
    exchange r.call cmd cmd succeeded rcpt
      (codes "RCPT TO:<" ++ (c.address_format address_num domain_num ++ codes ">\r\n"))
      (λ _. onward) (record w { last_address = address_num })

pub draw_rcpt :
    Config
    → Recipient
    → (Session → Option (Bool × Session))
    → Session
    → Option ℕ
    → Option (Bool × Session)
unfolding send_rcpt
draw_rcpt c r onward w none = none
draw_rcpt c r onward w (some domain_num) =
    send_rcpt c r onward domain_num (record w { last_domain = domain_num })
      (next c.address_range w.last_address r.random_address)

-- `for (jj = 0; jj < numRecips; jj++)`, with a script for each recipient
pub send_rcpts : Config → Env → List Recipient → ℕ → Session → Option (Bool × Session)
unfolding draw_rcpt send_data
send_rcpts c e [] jj w = if lt_int (pos jj) e.num_recips then none else send_data e w
send_rcpts c e (r ∷ rs) jj w =
    let more =
      draw_rcpt c r (λ w'. send_rcpts c e rs (jj + 1) w') w
        (next c.domain_range w.last_domain r.random_domain) in
    if lt_int (pos jj) e.num_recips then more else send_data e w

-- behind MAIL: RSET for a message without recipients
pub address : Config → Env → Session → Option (Bool × Session)
unfolding exchange send_rcpts
address c e w =
    if is_zero e.num_recips
    then exchange e.second cmd cmd succeeded rset (codes "RSET\r\n") (λ _ w'. some (true, w')) w
    else send_rcpts c e e.recipients 0 w

-- `fileEntry->msgMailFrom`; `none` reads through NULL
pub file_entry : List (Option Bytes) → ℕ → Option (Option Bytes)
file_entry files random =
    get_elem? files (if ltb 1 (length files) then random % length files else 0)

pub mail_line : Config → Option Bytes → Bytes
mail_line c none = codes "MAIL FROM:<" ++ (c.mail_from ++ codes ">\r\n")
mail_line c (some sender) = codes "MAIL FROM:" ++ (sender ++ codes "\r\n")

pub send_mail : Config → Env → Session → Option (Option Bytes) → Option (Bool × Session)
unfolding exchange address
send_mail c e w none = none
send_mail c e w (some sender) =
    exchange e.first cmd cmd succeeded (mail e.num_recips) (mail_line c sender) (λ _. address c e) w

-- `sendSMTPLoop`
pub loop : Config → Env → Session → Option (Bool × Session)
unfolding send_mail
loop c e w = send_mail c e w (file_entry c.senders e.random_file)

-- what QUIT left
pub quitted : Call → Option (Reply Verb Unit) → Option Session
quitted c none = none
quitted c (some r) =
    let w = timed logout c.expired r.session in
    some (exit (if r.ok then w else counted logout c.expired w))

-- `sendSMTPEnd`
pub end : Config → Env → Session → Option Session
unfolding reply quitted
end c e w =
    if w.sock
    then quitted e.first
        (reply succeeded quit w (smtp_command_response e.first (codes "QUIT\r\n") w.incoming))
    else some w

-- `SmtpRegister`
abbrev pub smtp : Config → Protocol Env Session
smtp c = record { cmd_start = start c; cmd_loop = some (loop c); cmd_end = some (end c) }
