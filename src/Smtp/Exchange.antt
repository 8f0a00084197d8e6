-- ===== src/Smtp/Exchange.antt =====
-- src/smtp.c: a command and its response, and what the environment adds to a call.
use mstone.Base.{ℕ, Bool, true, false, ◌&&◌, List, Option, none, some, ℤ, Bytes, codes, starts_with}
use mstone.Transfer.{Round}
use mstone.Pish.{Call, Timed, Reply, spoken, after_reply}
use mstone.Smtp.{Verb, Session, success, io_error, refused, Outcome, smtp_command_response}
use mstone.Smtp.SendFile.{Reading}

-- What the environment adds for a recipient: the random numbers, and the script of RCPT.
pub record Recipient : Type 0 where
  pub call : Call
  pub random_domain : ℕ
  pub random_address : ℕ

-- What it adds to one of the calls of the protocol: the stream of the server, if the connection is
-- made, the scripts of the exchanges (of the lines up to the banner, of the greeting and its
-- response, and of up to three more), what the buffer of the response holds before the greeting,
-- the random numbers, the sample of `numRecipients`, and what the reads of the file give.
pub record Env : Type 0 where
  pub connection : Option Bytes
  pub connecting : Call
  pub banners : List Call
  pub greeting : Call
  pub hello_reads : List Round
  pub left_over : Bytes
  pub first : Call
  pub second : Call
  pub third : Call
  pub random_domain : ℕ
  pub random_login : ℕ
  pub random_file : ℕ
  pub num_recips : ℤ
  pub recipients : List Recipient
  pub file : Option Reading
  pub trailer : List Round

-- `rc >= 0`
unfoldable pub succeeded : Outcome → Bool
succeeded o = elim o.code [ success ↦ true | io_error ↦ false | refused ↦ false ]

-- the test behind DATA: neither `rc == -1` nor `respBuffer[0] != '3'`
unfoldable pub data_accepted : Outcome → Bool
data_accepted o =
    elim o.code [ success ↦ true | io_error ↦ false | refused ↦ true ]
    && starts_with (codes "3") o.response

unfoldable pub reply : (Outcome → Bool) → Verb → Session → Option Outcome → Option (Reply Verb Unit)
unfolding spoken
reply good v w none = none
reply good v w (some o) =
    some (record { ok = good o; response = o.response; session = spoken v o.wire o.unread w })

-- `doSmtpCommandResponse` between `event_start` and `event_stop`, and what follows it
unfoldable pub exchange :
    Call
    → Timed
    → Timed
    → (Outcome → Bool)
    → Verb
    → Bytes
    → (Bytes → Session → Option (Bool × Session))
    → Session
    → Option (Bool × Session)
unfolding reply after_reply
exchange c t blame good v command onward w =
    after_reply c t blame onward (reply good v w (smtp_command_response c command w.incoming))
