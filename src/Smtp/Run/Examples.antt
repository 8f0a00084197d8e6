-- ===== src/Smtp/Run/Examples.antt =====
-- Tests of src/smtp.c: a session that authenticates and sends one message.
use mstone.Base.{
  ℕ, ◌≡◌, refl, true, false, List, [], ◌∷◌, ◌++◌, Option, none, some, pos, Bytes, codes, arith,
  c_string, starts_with, contains,
}
use mstone.Range.{Range, next}
use mstone.Transfer
use mstone.Transfer.{
  Turn, Round, InTime, moved, broken, send_command, after_write, retry_write, write_reply,
  retry_read, read_reply,
}
use mstone.Transfer.Line.{read_response, after_line_read, end_of_line, line_length}
use mstone.Transfer.Writes.{Sending}
use mstone.Client.{Pass, Block, Run, Act, do_command, started, looped, ended}
use mstone.Client.Rule.{Ends}
use mstone.Pish.{Call, timed, exit}
use mstone.Pish.Counting.{Counts}
use mstone.Smtp.{
  is_smtp_response, is_smtp_response_ok, Verb, hello, auth, mail, rcpt, data_, body, quit, Session,
  ehlo, auth_plain, Config, smtp_command_response,
}
use mstone.Smtp.Base64.{str_to_base64}
use mstone.Smtp.Base64.Decoding.{Encodes, str_to_base64-Encodes}
use mstone.Smtp.Hello.{read_hello}
use mstone.Smtp.SendFile.{end_of_file, read_error, Reading, msg_trailer, send_file}
use mstone.Smtp.SendFile.Delivery.{contents, send_file-Sending}
use mstone.Smtp.Exchange.{Env, succeeded, data_accepted}
use mstone.Smtp.Run.{file_entry, mail_line, start, loop, end, smtp}
use mstone.Smtp.Run.Order.{opened, nothing, IsClosed}
use mstone.Smtp.Run.Safe.{IsSafe, smtp_command-IsSafe}
use mstone.Smtp.Run.Errors
use mstone.Smtp.Run.Errors.Sending.{smtp_errors}

abbrev round : Transfer.Reply → Round
round r = record {
  turns = record { expired = false; ready = true; reply = r; ready_again = true } ∷ [];
  expired = false;
}

-- a call that sends a command and reads so many bytes
abbrev call : ℕ → Call
call n = record { writes = round (moved 100) ∷ []; reads = round (moved n) ∷ []; expired = 0 }

abbrev numbers : Range
numbers = record { first = 7; last = 7; span = 0; sequential = pos 0 }

abbrev config : Config
config = record {
  greeting = ehlo;
  authentication = auth_plain;
  hostname = codes "c";
  senders = none ∷ [];
  mail_from = codes "s";
  domain_range = numbers;
  login_range = numbers;
  address_range = numbers;
  login_format = λ n d. codes "u";
  passwd_format = λ n. codes "p";
  address_format = λ n d. codes "r";
}

-- a write that is cut after one byte
abbrev short : Round
short = record {
  turns =
      record { expired = false; ready = true; reply = moved 1; ready_again = true }
      ∷ record { expired = false; ready = true; reply = broken; ready_again = true }
      ∷ [];
  expired = false;
}

-- the file, written in two pieces, and the trailer
abbrev file : Reading
file = record {
  chunks = record { bytes = codes "hi\n"; rounds = short ∷ round (moved 2) ∷ [] } ∷ [];
  ends = end_of_file;
}

abbrev trailer : List Round
trailer = round (moved 5) ∷ []

abbrev server : Bytes
server = codes "220 s\r\n250-s\r\n250 AUTH PLAIN LOGIN\r\n334 \r\n235 ok\r\n"

-- what it answers to a mail
abbrev answers : Bytes
answers = codes "250 \r\n250 \r\n354 \r\n250 \r\n221 \r\n"

abbrev env : ℕ → ℕ → ℕ → Env
env a b d = record {
  connection = some (server ++ answers);
  connecting = call 0;
  banners = call 7 ∷ [];
  greeting = call 0;
  hello_reads = round (moved 7) ∷ round (moved 22) ∷ [];
  left_over = [];
  first = call a;
  second = call b;
  third = call d;
  random_domain = 0;
  random_login = 0;
  random_file = 0;
  num_recips = pos 1;
  recipients = record { call = call 6; random_domain = 0; random_address = 0 } ∷ [];
  file = some file;
  trailer = trailer;
}

abbrev idle_session : Session
idle_session = record {
  sock = false;
  incoming = [];
  wire = [];
  said = [];
  me = none;
  fault = false;
  tally = λ t. record { trys = 0; errs = 0 };
  last_domain = 0;
  last_login = 0;
  last_address = 0;
}

abbrev closed : IsClosed idle_session
closed = record { sock_is = refl; me_is = refl; sound = refl; talks = (opened, nothing) }

abbrev pass_with : Env → Pass Env
pass_with e = record {
  expired = 0;
  env = e;
  before = 0;
  delay = pos 0;
  expired_after = 0;
  after = 0;
}

abbrev block : Block
block = record { num_loops = 1; start_delay = pos 0; startedtime = 0; block_start = 0 }

abbrev script : List (Pass Env)
script = pass_with (env 6 8 0) ∷ pass_with (env 6 6 6) ∷ pass_with (env 6 0 0) ∷ []

abbrev acts_of : Option (Run Session) → Option (List Act × List Verb)
acts_of none = none
acts_of (some r) = some (r.acts, r.world.said)

-- The block starts, authenticates, sends the message, and quits.
session_run :
    acts_of (do_command (smtp config) block script (pos 0) 0 0 0 idle_session)
    ≡ some (
      started ∷ looped ∷ ended ∷ [],
      quit ∷ body ∷ data_ ∷ rcpt ∷ mail (pos 1) ∷ auth ∷ auth ∷ hello ∷ [],
    )
unfolding do_command start loop end smtp_command_response read_response send_command next
    after_line_read retry_read read_reply end_of_line line_length c_string after_write retry_write
    write_reply timed starts_with contains exit read_hello str_to_base64 send_file is_smtp_response
    is_smtp_response_ok succeeded file_entry mail_line data_accepted
session_run = refl

smtp_command-IsSafe_example :
    Ends (IsSafe script) (do_command (smtp config) block script (pos 0) 0 0 0 idle_session)
smtp_command-IsSafe_example =
    smtp_command-IsSafe config block script (pos 0) 0 0 0 idle_session closed

abbrev mail_env : Env
mail_env = env 6 6 6

mail-InTime : Errors.InTime mail_env
mail-InTime = record {
  connecting = omega arith;
  banners = (omega arith, tt);
  greeting = omega arith;
  first = omega arith;
  second = omega arith;
  third = omega arith;
  recipients = (omega arith, tt);
}

smtp_errors_example :
    Counts 0 (start config mail_env idle_session) × Counts 0 (loop config mail_env idle_session)
smtp_errors_example = smtp_errors config mail_env idle_session mail-InTime

send_file-Sending_example :
    Sending (contents file.chunks ++ msg_trailer) 0 [] (send_file (some file) trailer)
send_file-Sending_example = send_file-Sending file trailer ((refl, (refl, tt)), tt) (refl, tt)

-- The file and the trailer are on the wire.
file_run :
    send_file (some file) trailer ≡ some (record { ret = pos 8; wire = codes "hi\n\r\n.\r\n" })
unfolding send_file retry_write write_reply
file_run = refl

-- A read error gives the message that has been read so far, with a trailer behind it.
read_error_run :
    send_file (some (record { chunks = file.chunks; ends = read_error })) trailer
    ≡ some (record { ret = pos 8; wire = codes "hi\n\r\n.\r\n" })
unfolding send_file retry_write write_reply
read_error_run = refl

str_to_base64-Encodes_example : Encodes (codes "Hello") 12 (str_to_base64 (codes "Hello") 12)
str_to_base64-Encodes_example =
    str_to_base64-Encodes (codes "Hello") 12
      (omega arith, (omega arith, (omega arith, (omega arith, (omega arith, tt))))) (omega arith)
      (omega arith)

base64_run :
    (str_to_base64 (codes "Hello") 12 ≡ some (codes "SGVsbG8="))
    × (str_to_base64 (codes "Hello") 10 ≡ none)
unfolding str_to_base64
base64_run = (refl, refl)

-- What an earlier response has left behind the bytes read becomes a part of the next line: the
-- rest of the banner stands between the two lines of the response.
stale_buffer :
    read_hello
      (round (moved 6) ∷ round (moved 7) ∷ [])
      (codes "220 host ready\r\n" ++ (0 ∷ []))
      (codes "250-a\n250 b\n")
    ≡ some (record { ok = true; response = codes "250-a\nst ready\r\n250 b\n"; unread = [] })
unfolding read_hello retry_read read_reply c_string is_smtp_response is_smtp_response_ok
stale_buffer = refl
