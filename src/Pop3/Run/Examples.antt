-- ===== src/Pop3/Run/Examples.antt =====
-- Tests of src/pop3.c: a session that fetches and deletes one message.
use mstone.Base.{
  IsSome, inl, inr, ℕ, ◌≡◌, refl, Bool, true, false, List, [], ◌∷◌, Option, none, some, pos, negsuc,
  Bytes, codes, arith, c_string, starts_with, contains,
}
use mstone.Range.{Range}
use mstone.Transfer
use mstone.Transfer.{Turn, Round, moved, broken}
use mstone.Transfer.{send_command, after_write, retry_write, write_reply, retry_read, read_reply}
use mstone.Transfer.Line.{read_response, after_line_read, end_of_line, line_length}
use mstone.Transfer.Command.{do_command_response}
use mstone.Transfer.Message.{retrieve, judge, conclude, after_read}
use mstone.Range.{next}
use mstone.Client.{Pass, Block, Run, Act, do_command, started, looped, ended}
use mstone.Client.Returns.{do_command-IsSome}
use mstone.Pish.{Call, Reply, timed, exit}
use mstone.Pish.Counting.{Counts}
use mstone.Pop3.{Mailbox, Env, Verb, user, pass, stat, retr, dele, quit, Session, Config, line}
use mstone.Pop3.Stat.{scan_stat, decimal}
use mstone.Pop3.Run.{start, loop, end, pop3, command_response}
use mstone.Pop3.Run.Dialogue.{IsClosed, anonymous, nothing}
use mstone.Pop3.Run.Errors.{InTime, start_errors}
use mstone.Pop3.Run.Returns.{CallRunsOut, EnvRunsOut, HasRanges, pop3-Responds}

abbrev round : Transfer.Reply → Round
round r = record {
  turns = record { expired = false; ready = true; reply = r; ready_again = true } ∷ [];
  expired = false;
}

-- a call that sends a command and reads so many bytes
abbrev call : ℕ → Call
call n = record { writes = round (moved 100) ∷ []; reads = round (moved n) ∷ []; expired = 0 }

abbrev numbers : Range
numbers = record { first = 7; last = 7; span = 0; sequential = pos 0 }

abbrev config : Config
config = record {
  domain_range = numbers;
  login_range = numbers;
  login_format = λ n d. codes "test";
  passwd_format = λ n. codes "secret";
  leave_mail_on_server = false;
}

abbrev server : Bytes
server = codes "+OK hi\n+OK u\n+OK p\n+OK 1 9\n+OK\r\na\r\n.\r\n+OK d\n+OK q\n"

abbrev env : ℕ → ℕ → ℕ → ℕ → Env
env n a b d = record {
  connection = some server;
  connecting = call 0;
  greeting = call n;
  first = call a;
  second = call b;
  third = call d;
  random_domain = 0;
  random_login = 0;
  leave_sample = 0;
}

abbrev idle_session : Session
idle_session = record {
  sock = false;
  incoming = [];
  wire = [];
  said = [];
  me = none;
  fault = false;
  tally = λ t. record { trys = 0; errs = 0 };
  last_domain = 0;
  last_login = 0;
  last_address = 0;
}

abbrev closed : IsClosed idle_session
closed = record { sock_is = refl; me_is = refl; sound = refl; talks = (anonymous, nothing) }

abbrev pass_with : Env → Pass Env
pass_with e = record {
  expired = 0;
  env = e;
  before = 0;
  delay = pos 0;
  expired_after = 0;
  after = 0;
}

abbrev block : Block
block = record { num_loops = 9; start_delay = pos 0; startedtime = 0; block_start = 0 }

abbrev script : List (Pass Env)
script =
    pass_with (env 7 6 6 8)
    ∷ pass_with (env 0 11 6 0)
    ∷ pass_with (env 0 0 0 0)
    ∷ pass_with (env 0 6 0 0)
    ∷ []

abbrev acts_of : Option (Run Session) → Option (List Act × List Verb)
acts_of none = none
acts_of (some r) = some (r.acts, r.world.said)

-- The block starts, fetches and deletes the message, finds no more, and quits.
session_run :
    acts_of (do_command (pop3 config) block script (pos 0) 0 0 0 idle_session)
    ≡ some
        (started ∷ looped ∷ looped ∷ ended ∷ [], quit ∷ dele 1 ∷ retr 1 ∷ stat ∷ pass ∷ user ∷ [])
unfolding do_command start loop end do_command_response retrieve read_response send_command next
    after_line_read retry_read read_reply end_of_line line_length c_string line after_write
    retry_write write_reply timed starts_with scan_stat decimal judge conclude after_read contains
    exit
session_run = refl

abbrev login_env : Env
login_env = env 7 6 6 8

login-InTime : InTime login_env
login-InTime = record {
  connecting = omega arith;
  greeting = omega arith;
  first = omega arith;
  second = omega arith;
  third = omega arith;
}

start_errors_example : Counts 0 (start config login_env idle_session)
start_errors_example = start_errors config login_env idle_session login-InTime

-- The connection breaks after "+OK": the command is taken to have succeeded all the same.
abbrev broken_off : Call
broken_off = record {
  writes = round (moved 100) ∷ [];
  reads = round (moved 3) ∷ round broken ∷ [];
  expired = 0;
}

abbrev accepted : Option (Reply Verb Mailbox) → Option Bool
accepted none = none
accepted (some r) = some r.ok

error_taken_for_success :
    (accepted (
        command_response broken_off stat
          (codes "STAT\r\n")
          (record idle_session { sock = true; incoming = codes "+OK" }))
      ≡ some true)
    × (do_command_response broken_off.writes broken_off.reads (codes "STAT\r\n") 1024 (codes "+OK")
        ≡ some
            (record { ret = negsuc 0; wire = codes "STAT\r\n"; buffer = codes "+OK"; unread = [] }))
unfolding command_response do_command_response read_response send_command after_line_read retry_read
    read_reply end_of_line line_length c_string after_write retry_write write_reply starts_with
error_taken_for_success = (refl, refl)

-- a pass of a retry loop that finds the time expired
abbrev late : Turn
late = record { expired = true; ready = true; reply = moved 0; ready_again = true }

-- the round of a call that moves so many bytes, and the last one, in which the time has expired
abbrev last_rounds : ℕ → List Round
last_rounds n =
    record {
      turns =
          record { expired = false; ready = true; reply = moved n; ready_again = true } ∷ late ∷ [];
      expired = false;
    }
    ∷ record { turns = late ∷ []; expired = true }
    ∷ []

abbrev last_call : ℕ → Call
last_call n = record { writes = last_rounds 100; reads = last_rounds n; expired = 0 }

last_call-RunsOut : (n : ℕ) → CallRunsOut (last_call n)
last_call-RunsOut n =
    ((inr (inl refl), inr (inl refl, inl refl)), (inr (inl refl), inr (inl refl, inl refl)))

-- a server from which some lines are cut
abbrev last_env : ℕ → ℕ → ℕ → ℕ → Env
last_env n a b d = record {
  connection = some server;
  connecting = call 0;
  greeting = last_call n;
  first = last_call a;
  second = last_call b;
  third = last_call d;
  random_domain = 0;
  random_login = 0;
  leave_sample = 0;
}

last_env-RunsOut : (n a b d : ℕ) → EnvRunsOut (last_env n a b d)
last_env-RunsOut n a b d = record {
  greeting = (last_call-RunsOut n).1;
  first = last_call-RunsOut a;
  second = last_call-RunsOut b;
  third = last_call-RunsOut d;
}

config-HasRanges : HasRanges config
config-HasRanges = record {
  domains = record { ends = refl; fits = omega arith };
  logins = record { ends = refl; fits = omega arith };
}

abbrev short_block : Block
short_block = record { num_loops = 1; start_delay = pos 0; startedtime = 0; block_start = 0 }

abbrev short_script : List (Pass Env)
short_script =
    pass_with (last_env 7 6 6 8) ∷ pass_with (last_env 0 11 6 0) ∷ pass_with (last_env 0 6 0 0) ∷ []

do_command-IsSome_example :
    IsSome (do_command (pop3 config) short_block short_script (pos 0) 0 0 0 idle_session)
do_command-IsSome_example =
    do_command-IsSome (pop3 config) EnvRunsOut (pop3-Responds config config-HasRanges) short_block
      short_script (pos 0) 0 0 0 idle_session
      (last_env-RunsOut 7 6 6 8, (last_env-RunsOut 0 11 6 0, (last_env-RunsOut 0 6 0 0, tt)))
      (omega arith)
