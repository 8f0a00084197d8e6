-- ===== src/Multipop/Check/Examples.antt =====
-- Tests of src/multipop.c: a check that fetches two messages and leaves them on the server.
use mstone.Base.{
  ℕ, ◌≡◌, refl, Bool, true, false, List, [], ◌∷◌, Option, none, some, pos, Bytes, codes, c_string,
  starts_with,
}
use mstone.Transfer
use mstone.Transfer.{
  Turn, Round, moved, broken, send_command, after_write, retry_write, write_reply, retry_read,
  read_reply,
}
use mstone.Transfer.Line.{read_response, after_line_read, end_of_line, line_length}
use mstone.Transfer.Command.{do_command_response}
use mstone.Pish.{Call, login, timed}
use mstone.Range.{Range, next}
use mstone.Pop3.Stat.{decimal, scan_stat}
use mstone.Multipop.{Verb, user, pass, stat, retr, quit, User, Session, Config, Fetch, Visit}
use mstone.Multipop.Commands.{fetch_new, mpop_login, mpop_quit}
use mstone.Multipop.Multiline.{multiline}
use mstone.Multipop.Multiline.Received.{Receiving, multiline-Receiving}
use mstone.Client.{Pass, Block, Act, Run, do_command, started, looped, ended}
use mstone.Client.Rule.{Ends}
use mstone.Multipop.Check.{Env, start, loop, end, multipop}
use mstone.Multipop.Check.Safe.{IsFree, IsSafe, multipop_command-IsSafe}
use mstone.Multipop.Fetching.{Fetching, fetch_new_lem}

abbrev round : Transfer.Reply → Round
round r = record {
  turns = record { expired = false; ready = true; reply = r; ready_again = true } ∷ [];
  expired = false;
}

-- a call that sends a command and reads so many bytes
abbrev call : ℕ → Call
call n = record { writes = round (moved 100) ∷ []; reads = round (moved n) ∷ []; expired = 0 }

abbrev person : User
person = record { login = codes "u"; passwd = codes "p"; old_msgs = 0; leave_on_server = true }

abbrev session : Session
session = record {
  sock = true;
  incoming = codes "+OK\r\nx\r\n.\r\n+OK\r\ny\r\n.\r\n+OK bye\n";
  wire = [];
  said = [];
  me = none;
  fault = false;
  tally = λ t. record { trys = 0; errs = 0 };
  last_domain = 0;
  last_login = 0;
  last_address = 0;
}

-- The terminator of the first message is cut into two reads.
abbrev first_call : Call
first_call = record {
  writes = round (moved 100) ∷ [];
  reads = round (moved 9) ∷ round (moved 2) ∷ [];
  expired = 0;
}

abbrev fetches : List Fetch
fetches =
    record { retr_call = first_call; dele_call = call 0 }
    ∷ record { retr_call = call 11; dele_call = call 0 }
    ∷ []

multiline-Receiving_example :
    Receiving session.incoming (multiline first_call (codes "RETR 1\r\n") session.incoming)
multiline-Receiving_example = multiline-Receiving first_call (codes "RETR 1\r\n") session.incoming

fetch_new_lem_example :
    Fetching true 0 (pos 2) fetches [] session.incoming (fetch_new fetches 0 (pos 2) person session)
fetch_new_lem_example = fetch_new_lem fetches (pos 2) person session

abbrev outcome : Option (User × Session) → Option (ℕ × List Verb × Bytes)
outcome none = none
outcome (some (u, w)) = some (u.old_msgs, w.said, w.incoming)

-- Both messages are fetched and counted.
fetch_run :
    outcome (fetch_new fetches 0 (pos 2) person session)
    ≡ some (2, retr 2 ∷ retr 1 ∷ [], codes "+OK bye\n")
unfolding fetch_new multiline send_command after_write retry_write write_reply retry_read read_reply
    starts_with timed decimal
fetch_run = refl

abbrev visit : Visit
visit = record {
  connection = none;
  connecting = call 0;
  greeting = call 0;
  user_call = call 5;
  pass_call = call 0;
  stat_call = call 0;
  uidl_call = call 0;
  messages = [];
  drops = false;
  quit_call = call 0;
}

abbrev verdict : Option (Bool × Session) → Option (Bool × List Verb × ℕ)
verdict none = none
verdict (some (ok, w)) = some (ok, w.said, (w.tally login).errs)

-- A server that refuses the user: the login counts as a success, without a password and an error.
refused_user :
    verdict (mpop_login visit person (record session { incoming = codes "-ERR\n" }))
    ≡ some (true, user ∷ [], 0)
unfolding mpop_login do_command_response read_response after_line_read end_of_line line_length
    c_string send_command after_write retry_write write_reply retry_read read_reply starts_with
    timed
refused_user = refl

abbrev numbers : Range
numbers = record { first = 7; last = 7; span = 0; sequential = pos 0 }

abbrev config : Config
config = record {
  domain_range = numbers;
  login_range = numbers;
  login_format = λ n d. codes "user";
  login_size = 9;
  passwd_format = λ n. codes "secret";
  passwd_size = 9;
  leave_mail_on_server = true;
  active = λ n. n;
}

-- an empty mailbox
abbrev empty_visit : Visit
empty_visit = record {
  connection = some (codes "+OK\n+OK\n+OK\n+OK 0 0\n+OK\n");
  connecting = call 0;
  greeting = call 4;
  user_call = call 4;
  pass_call = call 4;
  stat_call = call 8;
  uidl_call = call 0;
  messages = [];
  drops = false;
  quit_call = call 4;
}

abbrev pass_with : Pass Env
pass_with = record {
  expired = 0;
  env = record { visits = empty_visit ∷ []; randoms = (0, 0) ∷ [] };
  before = 0;
  delay = pos 0;
  expired_after = 0;
  after = 0;
}

abbrev block : Block
block = record { num_loops = 1; start_delay = pos 0; startedtime = 0; block_start = 0 }

abbrev script : List (Pass Env)
script = pass_with ∷ pass_with ∷ pass_with ∷ []

abbrev idle_session : Session
idle_session = record session { sock = false; incoming = [] }

abbrev free : IsFree idle_session
free = record { me_is = refl; sound = refl }

abbrev acts_of : Option (Run Session) → Option (List Act × List Verb)
acts_of none = none
acts_of (some r) = some (r.acts, r.world.said)

-- Three checks of one user.
block_run :
    acts_of (do_command (multipop config) block script (pos 0) 0 0 0 idle_session)
    ≡ some (
      started ∷ looped ∷ ended ∷ [],
      quit ∷ stat ∷ pass ∷ user ∷ quit ∷ stat ∷ pass ∷ user ∷ quit ∷ stat ∷ pass ∷ user ∷ [],
    )
unfolding do_command start loop end do_command_response read_response after_line_read end_of_line
    line_length c_string send_command after_write retry_write write_reply retry_read read_reply
    starts_with timed scan_stat next mpop_quit
block_run = refl

multipop_command-IsSafe_example :
    Ends (IsSafe script) (do_command (multipop config) block script (pos 0) 0 0 0 idle_session)
multipop_command-IsSafe_example =
    multipop_command-IsSafe config block script (pos 0) 0 0 0 idle_session free
