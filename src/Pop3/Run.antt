-- ===== src/Pop3/Run.antt =====
-- src/pop3.c: the calls of the protocol, from doPopCommandResponse to doPop3End.
pub mod Dialogue
pub mod Login
pub mod Fetching
pub mod Safe
pub mod Errors
pub mod Returns
mod Examples
use mstone.Base.{
  ℕ, zero, suc, ◌+◌, ◌≡◌, Bool, true, false, ◌&&◌, ◌||◌, not, List, [], ◌∷◌, ◌++◌, Option, none,
  some, if◌then◌else◌, ◌==◌, ℤ, pos, negsuc, is_positive, is_negative, lt_int, Bytes, codes,
  starts_with, c_string,
}
use mstone.Range.{Range, next}
use mstone.Transfer.{Round, Written, send_command}
use mstone.Transfer.Line.{Response, read_response}
use mstone.Transfer.Command.{Answer, do_command_response}
use mstone.Transfer.Message.{Retrieved, retr_msg}
use mstone.Client.{Protocol}
use mstone.Pish.{
  max_response_len, Call, Tally, Timed, connect, banner, cmd, login, msgread, msgwrite, logout,
  Conversation, Reply, same_timer, adjust, timed, counted, freed, free_me, exit, abandon, spoken,
  after_reply,
}
use mstone.Pop3.{Env, Mailbox, Verb, user, pass, stat, retr, dele, quit, Session, Config, line}
use mstone.Pop3.Stat.{Matches, no_match, end_of_input, one, two, scan_stat}

-- the test of `doPopCommandResponse`: it does not return when `doCommandResponse` has failed, so
-- what counts is only whether the buffer starts with "+OK"
pub judge_answer : Verb → Session → Option Answer → Option (Reply Verb Mailbox)
unfolding spoken
judge_answer v w none = none
judge_answer v w (some a) = some (record {
  ok = starts_with (codes "+OK") a.buffer;
  response = a.buffer;
  session = spoken v a.wire a.unread w;
})

-- `doPopCommandResponse`
pub command_response : Call → Verb → Bytes → Session → Option (Reply Verb Mailbox)
unfolding judge_answer
command_response c v command w =
    judge_answer v w (do_command_response c.writes c.reads command max_response_len w.incoming)

pub exchange :
    Call
    → Timed
    → Timed
    → Verb
    → Bytes
    → (Bytes → Session → Option (Bool × Session))
    → Session
    → Option (Bool × Session)
unfolding command_response after_reply
exchange c t blame v command onward w =
    after_reply c t blame onward (command_response c v command w)

-- STAT, and its numbers: only a `sscanf` that returns 0 is an error
pub stored : Call → Matches → Session → Mailbox → Option (Bool × Session)
stored c no_match w m = abandon cmd c.expired w
stored c end_of_input w m = some (true, w)
stored c (one n) w m = some (true, record w { me = some (record m { num_msgs = n }) })
stored c (two n t) w m =
    some (true, record w { me = some (record m { num_msgs = n; total_msg_length = t }) })

-- a state that `XCALLOC` has set to 0
abbrev pub empty_mailbox : Mailbox
empty_mailbox = record { num_msgs = pos 0; total_msg_length = pos 0; msg_counter = 0 }

pub stat_mailbox : Config → Env → ℕ → ℕ → Session → Option (Bool × Session)
unfolding exchange stored
stat_mailbox c e domain_num login_num =
    exchange e.third cmd cmd stat (line c domain_num login_num stat)
      λ response w. stored e.third (scan_stat (c_string response)) w empty_mailbox

-- `popLogin`, with the numbers drawn: USER is timed as a command and its error counted as a
-- login's; then what follows in `doPop3Start`
pub pop_login : Config → Env → ℕ → ℕ → Session → Option (Bool × Session)
unfolding exchange stat_mailbox
pop_login c e domain_num login_num =
    exchange e.first cmd login user (line c domain_num login_num user) λ _.
      exchange e.second login login pass (line c domain_num login_num pass)
        λ _. stat_mailbox c e domain_num login_num

-- the two draws of `popLogin`
pub draw_login : Config → Env → ℕ → Session → Option ℕ → Option (Bool × Session)
unfolding pop_login
draw_login c e domain_num w none = none
draw_login c e domain_num w (some login_num) =
    pop_login c e domain_num login_num (record w { last_login = login_num })

pub draw_domain : Config → Env → Session → Option ℕ → Option (Bool × Session)
unfolding draw_login
draw_domain c e w none = none
draw_domain c e w (some domain_num) =
    draw_login c e domain_num (record w { last_domain = domain_num })
      (next c.login_range w.last_login e.random_login)

-- the banner
pub greeted : Config → Env → Session → Option Response → Option (Bool × Session)
unfolding draw_domain
greeted c e w none = none
greeted c e w (some r) =
    let w' = timed banner e.greeting.expired (record w { incoming = r.unread }) in
    if is_positive r.ret
    then draw_domain c e w' (next c.domain_range w'.last_domain e.random_domain)
    else abandon banner e.greeting.expired w'

-- `connectSocket`
pub connected : Config → Env → Session → Option Bytes → Option (Bool × Session)
unfolding greeted
connected c e w none = some (false, free_me (counted connect e.connecting.expired w))
connected c e w (some stream) =
    greeted c e (record w { sock = true; incoming = stream })
      (read_response e.greeting.reads max_response_len [] stream)

-- `doPop3Start`
pub start : Config → Env → Session → Option (Bool × Session)
unfolding connected
start c e w =
    connected c e
      (timed connect e.connecting.expired
        (record w { me = some empty_mailbox; wire = []; said = []; sock = false }))
      e.connection

-- DELE, unless mail is left on the server: `!(flags & leaveMailOnServer) || (leave_on_server == 0)`
pub delete : Config → Env → ℕ → Session → Option (Bool × Session)
unfolding exchange
delete c e n w =
    if not c.leave_mail_on_server || e.leave_sample == 0
    then exchange e.second cmd cmd (dele n) (line c 0 0 (dele n)) (λ _ w'. some (true, w')) w
    else some (true, w)

-- what `retrMsg` returned
pub retrieved : Config → Env → ℕ → Session → Option Retrieved → Option (Bool × Session)
unfolding delete
retrieved c e n w none = none
retrieved c e n w (some r) =
    let w' = timed msgread e.first.expired (record w { incoming = r.unread }) in
    if is_negative r.ret then abandon msgread e.first.expired w' else delete c e n w'

-- what `sendCommand` returned
pub sent : Config → Env → ℕ → Session → Option Written → Option (Bool × Session)
unfolding retrieved spoken
sent c e n w none = none
sent c e n w (some x) =
    let w' = spoken (retr n) x.wire w.incoming w in
    if is_negative x.ret
    then abandon msgread e.first.expired (timed msgread e.first.expired w')
    else retrieved c e n w' (retr_msg e.first.reads w.incoming)

-- RETR of the next message
pub fetch : Config → Env → Mailbox → Session → Option (Bool × Session)
unfolding sent
fetch c e m w =
    let n = m.msg_counter + 1 in
    sent c e n (record w { me = some (record m { msg_counter = n }) })
      (send_command e.first.writes (line c 0 0 (retr n)) 0 [])

-- `doPop3Loop` on the memory of its state; without it, freed memory would be used
pub next_message : Config → Env → Session → Option Mailbox → Option (Bool × Session)
unfolding fetch
next_message c e w none = some (false, record w { fault = true })
next_message c e w (some m) =
    if lt_int (pos m.msg_counter) m.num_msgs then fetch c e m w else some (false, w)

-- `doPop3Loop`
pub loop : Config → Env → Session → Option (Bool × Session)
unfolding next_message
loop c e w = next_message c e w w.me

-- what QUIT left
pub quitted : Call → Option (Reply Verb Mailbox) → Option Session
quitted c none = none
quitted c (some r) =
    let w = timed logout c.expired r.session in
    some (exit (if r.ok then w else counted logout c.expired w))

-- `doPop3End`
pub end : Config → Env → Session → Option Session
unfolding command_response quitted
end c e w =
    if w.sock then quitted e.first (command_response e.first quit (line c 0 0 quit) w) else some w

-- `Pop3Register`
abbrev pub pop3 : Config → Protocol Env Session
pop3 c = record { cmd_start = start c; cmd_loop = some (loop c); cmd_end = some (end c) }
