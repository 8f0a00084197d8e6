-- ===== src/Multipop.antt =====
-- src/multipop.c: checks of many POP3 mailboxes by one client, built without SOCK_SSL and with
-- `genChecksum` at CS_NONE. The time between the users is not modelled.
pub mod Multiline
pub mod Commands
pub mod Kept
pub mod Fetching
pub mod Check
use mstone.Base.{
  ℕ, zero, suc, ◌+◌, ◌-◌, ◌*◌, Bool, true, false, ◌&&◌, not, List, [], ◌∷◌, ◌++◌, Option, none,
  some, ltb, ◌==◌, if◌then◌else◌, length, take, drop, ℤ, pos, negsuc, is_positive, is_negative,
  lt_int, Bytes, codes, starts_with, c_string, u64,
}
use mstone.Range.{Range, next}
use mstone.Transfer.{Round, Written, send_command}
use mstone.Transfer.Line.{Response, read_response}
use mstone.Transfer.Command.{Answer, do_command_response}
use mstone.Client.{Protocol}
use mstone.Pish.{
  Call, Tally, Timed, connect, banner, cmd, login, msgread, logout, Conversation, Reply, adjust,
  timed, counted, spoken, freed,
}
use mstone.Pop3.Stat.{Matches, no_match, end_of_input, one, two, scan_stat, decimal}
use mstone.Multipop.Multiline.{Fetched, multiline}

-- `RESPLEN`
abbrev pub resplen : ℕ
resplen = 512

-- What a check sends.
pub data Verb : Type 0 where
  user pass stat uidl : Verb
  retr dele : ℕ → Verb
  quit : Verb

-- `MPop`
pub record User : Type 0 where
  pub login : Bytes
  pub passwd : Bytes
  pub old_msgs : ℕ
  pub leave_on_server : Bool

-- A thread, its timers and the list of its users; `none` is a list that has been freed.
abbrev pub Session : Type 0
Session = Conversation Verb (List User)

-- The command block: the ranges, the formats of the login and the password with the sizes of the
-- memory for them less the NUL, the flag `leaveMailOnServer`, and how many of the users of a client
-- are active, `percentActive` of them.
pub record Config : Type 0 where
  pub domain_range : Range
  pub login_range : Range
  pub login_format : ℕ → ℕ → Bytes
  pub login_size : ℕ
  pub passwd_format : ℕ → Bytes
  pub passwd_size : ℕ
  pub leave_mail_on_server : Bool
  pub active : ℕ → ℕ

-- The scripts of RETR and DELE of a message.
pub record Fetch : Type 0 where
  pub retr_call : Call
  pub dele_call : Call

-- What the environment adds to the check of a user.
pub record Visit : Type 0 where
  pub connection : Option Bytes
  pub connecting : Call
  pub greeting : Call
  pub user_call : Call
  pub pass_call : Call
  pub stat_call : Call
  pub uidl_call : Call
  pub messages : List Fetch
  pub drops : Bool
  pub quit_call : Call

-- an error is counted whatever the time
pub blamed : Timed → Session → Session
blamed t w = record w { tally = adjust t (λ (y : Tally). record y { errs = y.errs + 1 }) w.tally }

-- `buf[len] = '\0'`
pub cut_at : ℤ → Bytes → Bytes
cut_at (pos n) buf = take n buf
cut_at (negsuc n) buf = buf

-- the test of `mpop_cmd_resp`
pub is_ok : Answer → Bool
is_ok a = is_positive a.ret && starts_with (codes "+") a.buffer

-- `mpop_cmd_resp`, on what `doCommandResponse` left
pub answered : Verb → Session → Option Answer → Option (Reply Verb (List User))
unfolding spoken cut_at is_ok
answered v w none = none
answered v w (some a) = some (record {
  ok = is_ok a;
  response = cut_at a.ret a.buffer;
  session = spoken v a.wire a.unread w;
})

-- `mpop_cmd_resp`
pub cmd_resp : Call → Verb → Bytes → ℕ → Session → Option (Reply Verb (List User))
unfolding answered
cmd_resp c v command rlen w =
    answered v w (do_command_response c.writes c.reads command rlen w.incoming)
