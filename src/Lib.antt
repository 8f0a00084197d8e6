-- ===== src/Lib.antt =====
-- Mailstone is a load generator for mail and web servers. A process runs many client threads; each
-- thread repeats commands of a protocol against a server, takes the logins and addresses that it uses
-- from ranges, times every exchange, and reports the sums. This library models the parts of the C
-- program under src/ that all protocols share, and states what makes them correct.
--
-- The parts and how they interact:
--
-- * Range (src/bench.c: rangeNext, rangeSetFirstLast, rangeSetFirstCount, rangeSplit; src/bench.h:
--   range_t). `next`, `set_first_last`, `set_first_count` and `split` are these functions on the
--   record `Range`. The number drawn last is kept by the caller, as in popLogin of src/pop3.c, which
--   `advance` repeats. `unsigned long` is 64 bits wide and wraps; `RANDOM()` is an argument; a failed
--   assertion is `none`.
-- * Timer (src/bench.c: event_start, event_stop, event_reset, event_sum; src/timefunc.c). `exchange`
--   is the pattern of start, transfer, stop and error count that the protocols write around every
--   command, and `run` a thread's sequence of them.
-- * Transfer (src/bench.c: retryRead, retryWrite, readResponse, sendCommand, doCommandResponse,
--   sendOutput, retrMsg). The network is a script: each pass of a retry loop meets a `Turn`, each
--   call of a loop around it a `Round`. A script that ends while a loop waits gives `none`, so
--   that all scripts together are every cut of the stream, every delay and every error. What the peer
--   still has to deliver, and what was put on the wire, are explicit.
-- * Event (src/event.c, src/event.h: ev_queue_create, ev_at, ev_after, ev_queue_destroy and the
--   workers). Event holds what a thread does under the queue's lock; Event/Pool makes a system of
--   them, with a step for each time that a thread takes the lock and gives it up.
-- * Parse (src/parse.c: get_line_from_buffer, paramListAdd, paramListGet, string_unquote, time_atoi,
--   millitime_atoi, check_hostname_attribute, count_num_commands; src/main.c: protocol_get). `get_line`
--   runs on fuel, one more than the length of the buffer, as each recursive call is on a shorter one.
--   A failed assertion is `aborted`.
-- * Words (src/words.c: WordsInit, WordAdd, WordFind, WordDelete, WordPointerDelete, WordRandom,
--   WordSequence, GetSafeFilename, ReadWordDict). `RANDOM()` is any sequence of numbers; a call
--   through NULL is `crashed`. `word_sequence` runs on the size of its buffer and 7 as fuel: each pass
--   makes the text longer or is one of at most 6 failed tries.
-- * Buffer (src/sb.c: sb_new, _sb_refill, _sb_consume, sb_discard, sb_discardn) stands on `retry_read`
--   of Transfer, with one script for each refill. Of its memory only the part that holds data is kept.
-- * Client (src/client.c: do_command with tot_delay, clientLoop, MS_idle, beginShutdown, and the wait of
--   clientProc for its threads; src/sysdep.c: alarmHandler and hupHandler). A protocol is the record of the functions that it registers, and
--   `Contract` what do_command and a protocol owe each other. `Pass`, `Turn` and `Tick` are the scripts
--   of what the clock, other threads and signals do to a pass of the three loops.
-- * Pish (src/pish.h) is what the mail protocols share: the connection, the timers, the memory of the
--   state, explicit with a flag for a use after a free, and what follows every exchange.
-- * Pop3 (src/pop3.c: doPopCommandResponse, popLogin, doPop3Start, doPop3Loop, doPop3End, doPop3Exit)
--   stands on Pish, Transfer and Range, and is run by Client: `pop3` is its record of functions.
-- * Multipop (src/multipop.c: MPopCheckStart, MPopCheck, MPopCheckEnd and the mpop_ functions) keeps
--   the list of its users as the memory of its state; Multipop/Multiline is mpop_multiline_cmd.
-- * Smtp (src/smtp.c) is `smtp`, on the same parts: Smtp/Run has sendSMTPStart, sendSMTPLoop,
--   sendSMTPEnd and doSMTPExit, Smtp/Login smtpAuthPlain and smtpAuthLogin, Smtp/SendFile sendFile,
--   Smtp/Base64 str_to_base64, Smtp/Hello the response to EHLO with what is left in its buffer, and Smtp
--   itself isSmtpResponse, isSmtpResponseOK and doSmtpCommandResponse. The buffers of names
--   and lines are taken to be large enough for what is printed into them.
-- * Base holds the names that all of these share: tests on numbers, lists measured by native numbers,
--   machine integers, and byte strings with the searches of the C library.
--
-- Each part has its definitions in the module of its name, its proofs in child modules named for what
-- they prove, and its theorems at concrete inputs, with tests, in a module Examples.
--
-- Not modelled: rounding of `double` (times are exact microseconds), error texts, what `poll` does
-- inside (a turn says whether it finds the socket ready), and the lock and conditions of the event
-- queue beyond the order of the steps; TLS and the code under SOCK_SSL, POP_UIDL and AUTOGEN; checksums,
-- sb_get and sb_read of src/sb.c; the parsing of the sections of a protocol and the rest of src/parse.c;
-- of src/client.c the periodic summary, the variant on the event queue, and the creation of threads;
-- src/imap4.c, src/http.c, src/wmap.c, src/webmail.c, src/idle.c, src/generate.c and the
-- version control clients; negative numbers of loops, the exit by a third SIGHUP, and what falls inside
-- `++gf_timeexpired`. src/md5.c is a copy of another project's code.
pub mod Base
pub mod Range
pub mod Timer
pub mod Transfer
pub mod Event
pub mod Parse
pub mod Words
pub mod Buffer
pub mod Client
pub mod Pish
pub mod Pop3
pub mod Multipop
pub mod Smtp
