-- ===== src/Pop3.antt =====
-- src/pop3.c: a POP3 session, built without SOCK_SSL and POP_UIDL and with `genChecksum` at CS_NONE.
-- It is a conversation of the kind that Pish has.
pub mod Stat
pub mod Run
use mstone.Base.{
  ℕ, zero, suc, ◌+◌, ◌%◌, ◌/◌, ◌≡◌, ◌<◌, Bool, true, false, ◌&&◌, ◌||◌, not, List, [], ◌∷◌, ◌++◌,
  Option, none, some, ltb, leb, ◌==◌, if◌then◌else◌, ℤ, pos, negsuc, neg, is_positive, is_negative,
  is_zero, lt_int, Bytes, codes, starts_with,
}
use mstone.Range.{Range, next}
use mstone.Transfer.{Round, Written, send_command}
use mstone.Transfer.Line.{Response, read_response}
use mstone.Transfer.Command.{Answer, do_command_response}
use mstone.Transfer.Message.{Retrieved, retr_msg}
use mstone.Timer.{exit_fast}
use mstone.Pish.{Call, Conversation}
use mstone.Pop3.Stat.{scan_stat, decimal}

-- What the environment adds to one of the calls of the protocol: the stream of the server, if the
-- connection is made, the scripts of the exchanges, the random numbers of the login, and the sample
-- of `leaveMailOnServerDist`.
pub record Env : Type 0 where
  pub connection : Option Bytes
  pub connecting : Call
  pub greeting : Call
  pub first : Call
  pub second : Call
  pub third : Call
  pub random_domain : ℕ
  pub random_login : ℕ
  pub leave_sample : ℕ

-- `doPOP3_state_t`
pub record Mailbox : Type 0 where
  pub num_msgs : ℤ
  pub total_msg_length : ℤ
  pub msg_counter : ℕ

-- What a session sends.
pub data Verb : Type 0 where
  user pass stat : Verb
  retr dele : ℕ → Verb
  quit : Verb

-- A thread and its POP3 session.
abbrev pub Session : Type 0
Session = Conversation Verb Mailbox

-- The command block: the ranges, the formats of the user and the password applied to the numbers,
-- and the flag `leaveMailOnServer`.
pub record Config : Type 0 where
  pub domain_range : Range
  pub login_range : Range
  pub login_format : ℕ → ℕ → Bytes
  pub passwd_format : ℕ → Bytes
  pub leave_mail_on_server : Bool

-- the text of a command; CRLF ends it
pub line : Config → ℕ → ℕ → Verb → Bytes
line c domain_num login_num user =
    codes "USER " ++ (c.login_format login_num domain_num ++ codes "\r\n")
line c domain_num login_num pass = codes "PASS " ++ (c.passwd_format login_num ++ codes "\r\n")
line c domain_num login_num stat = codes "STAT\r\n"
line c domain_num login_num (retr n) = codes "RETR " ++ (decimal n ++ codes "\r\n")
line c domain_num login_num (dele n) = codes "DELE " ++ (decimal n ++ codes "\r\n")
line c domain_num login_num quit = codes "QUIT\r\n"
