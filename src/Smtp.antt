-- ===== src/Smtp.antt =====
-- src/smtp.c: an SMTP or LMTP session, built without SOCK_SSL and AUTOGEN. It is a conversation of the
-- kind that Pish has; its state, `doSMTP_state_t`, holds nothing.
pub mod Base64
pub mod Hello
pub mod SendFile
pub mod Exchange
pub mod Login
pub mod Run
use mstone.Base.{
  ℕ, zero, suc, ◌+◌, ◌-◌, ◌≡◌, Bool, true, false, ◌&&◌, ◌||◌, not, List, [], ◌∷◌, ◌++◌, Option,
  none, some, leb, ◌==◌, if◌then◌else◌, length, drop, ℤ, pos, negsuc, is_positive, is_negative,
  Bytes, codes, starts_with, contains,
}
use mathlib.Core.Option
use mstone.Range.{Range}
use mstone.Transfer.{
  Round, Turn, Written, send_command, retry_write, ReadResult, got, failed, retry_read,
}
use mstone.Transfer.Line.{Response, read_response}
use mstone.Pish.{Call, Conversation, max_response_len}

-- What a session sends; `hello` is HELO, EHLO or LHLO, `auth` a line of an authentication; MAIL is
-- noted with the number of recipients, `numRecips`, that the loop has drawn for the message.
pub data Verb : Type 0 where
  hello auth rset rcpt data_ body quit : Verb
  mail : ℤ → Verb

-- A thread and its SMTP session.
abbrev pub Session : Type 0
Session = Conversation Verb Unit

-- How the client greets and authenticates: the flags of the command block.
pub data Greeting : Type 0 where
  helo ehlo lhlo : Greeting

pub data Auth : Type 0 where
  no_auth auth_plain auth_login : Auth

-- The command block: the flags, the host name, the sender of each file, if it has its own, and of the
-- others, the ranges, and the formats of user, password and address, applied to their numbers.
pub record Config : Type 0 where
  pub greeting : Greeting
  pub authentication : Auth
  pub hostname : Bytes
  pub senders : List (Option Bytes)
  pub mail_from : Bytes
  pub domain_range : Range
  pub login_range : Range
  pub address_range : Range
  pub login_format : ℕ → ℕ → Bytes
  pub passwd_format : ℕ → Bytes
  pub address_format : ℕ → ℕ → Bytes

-- `isSmtpResponseOK`
pub is_smtp_response_ok : Bytes → Bool
is_smtp_response_ok [] = false
is_smtp_response_ok (c ∷ s) = c == b'2' || c == b'3'

is_digit : ℕ → Bool
is_digit c = leb b'0' c && leb c b'9'

-- `isSmtpResponse`: three digits and a space
pub is_smtp_response : Bytes → Bool
unfolding is_digit
is_smtp_response (a ∷ b ∷ c ∷ d ∷ s) = is_digit a && (is_digit b && (is_digit c && d == b' '))
is_smtp_response _ = false

-- What `doSmtpCommandResponse` returns: 0, -1 or -2.
pub data Code : Type 0 where
  success io_error refused : Code

pub record Outcome : Type 0 where
  pub code : Code
  pub response : Bytes
  pub wire : Bytes
  pub unread : Bytes

-- the tests on a response line
pub classify : Bytes → Code
unfolding is_smtp_response is_smtp_response_ok
classify response =
    if is_smtp_response response
    then if is_smtp_response_ok response then success else refused
    else io_error

-- what `readResponse` returned
pub after_line : Bytes → Option Response → Option Outcome
unfolding classify
after_line wire none = none
after_line wire (some r) = some (record {
  code = if is_positive r.ret then classify r.buffer else io_error;
  response = r.buffer;
  wire = wire;
  unread = r.unread;
})

-- what `sendCommand` returned
pub after_command : Call → Bytes → Option Written → Option Outcome
unfolding after_line
after_command c s none = none
after_command c s (some w) =
    if is_negative w.ret
    then some (record { code = io_error; response = []; wire = w.wire; unread = s })
    else after_line w.wire (read_response c.reads max_response_len [] s)

-- `doSmtpCommandResponse`
pub smtp_command_response : Call → Bytes → Bytes → Option Outcome
unfolding after_command
smtp_command_response c command s = after_command c s (send_command c.writes command 0 [])
