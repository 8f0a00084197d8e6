-- ===== src/Pop3/Run/Dialogue.antt =====
-- src/pop3.c: the order of the commands of a session, as RFC 1939 asks for it, and the memory of its
-- state: what every exchange keeps.
use mstone.Base.{
  ℕ, ◌+◌, ◌≡◌, ◌⊎◌, Bool, true, List, [], ◌∷◌, Option, none, some, ℤ, pos, lt_int, Bytes,
}
use mstone.Transfer.Command.{Answer, do_command_response}
use mstone.Client.Contract.{Yields}
use mstone.Pish.{max_response_len, Call, Timed}
use mstone.Pish.Open.{IsOpen, IsShut, spoken-IsOpen, Heard, after_reply-Yields}
use mstone.Pop3.{Mailbox, Verb, user, pass, stat, retr, dele, quit, Session}
use mstone.Pop3.Run.{judge_answer, command_response, exchange}

-- How far a session is: nobody named, a user named, let in, with a mailbox of so many messages of
-- which the first have been fetched, the last fetched one deleted, or closed.
pub data Stage : Type 0 where
  anonymous named authorised closed : Stage
  mailbox : ℤ → ℕ → Stage
  removed : ℤ → ℕ → Stage

-- The commands that bring a session there, the latest first.
pub data Says : List Verb → Stage → Type 0 where
  nothing : Says [] anonymous
  says_user : {l : List Verb} → Says l anonymous → Says (user ∷ l) named
  says_pass : {l : List Verb} → Says l named → Says (pass ∷ l) authorised
  says_stat : {l : List Verb} (total : ℤ) → Says l authorised → Says (stat ∷ l) (mailbox total 0)
  says_retr :
      {l : List Verb} (total : ℤ) (n : ℕ)
      → lt_int (pos n) total ≡ true
      → Says l (mailbox total n)
      → Says (retr (n + 1) ∷ l) (mailbox total (n + 1))
  says_dele :
      {l : List Verb} (total : ℤ) (n : ℕ)
      → Says l (mailbox total n)
      → Says (dele n ∷ l) (removed total n)
  says_next :
      {l : List Verb} (total : ℤ) (n : ℕ)
      → lt_int (pos n) total ≡ true
      → Says l (removed total n)
      → Says (retr (n + 1) ∷ l) (mailbox total (n + 1))
  says_quit :
      {l : List Verb} (total : ℤ) (n : ℕ) → Says l (mailbox total n) → Says (quit ∷ l) closed
  says_leave :
      {l : List Verb} (total : ℤ) (n : ℕ) → Says l (removed total n) → Says (quit ∷ l) closed

-- The commands so far are a beginning of a session.
abbrev pub Talks : List Verb → Type 0
Talks l = (s : Stage) × Says l s

-- The commands have brought the session to its mailbox.
abbrev pub AtMailbox : List Verb → ℤ → ℕ → Type 0
AtMailbox l total n = Says l (mailbox total n) ⊎ Says l (removed total n)

-- No connection, no memory held or misused, and a session in order.
abbrev pub IsClosed : Session → Type 0
IsClosed = IsShut Talks

-- Between `doPop3Start` and `doPop3End`.
pub record IsLive (w : Session) : Type 0 where
  pub l : List Verb
  pub m : Mailbox
  pub is_open : IsOpen l m w
  pub at : AtMailbox l m.num_msgs m.msg_counter

abbrev pub IsLeft : Session → Type 0
IsLeft w = IsLive w ⊎ IsClosed w

judge_answer-Heard :
    (v : Verb) (l : List Verb) (m : Mailbox) (w : Session) (o : Option Answer)
    → IsOpen l m w
    → Heard (v ∷ l) m (judge_answer v w o)
unfolding judge_answer
judge_answer-Heard v l m w none h = tt
judge_answer-Heard v l m w (some a) h = spoken-IsOpen v a.wire a.unread l m w h

pub command_response-Heard :
    (c : Call) (v : Verb) (command : Bytes) (l : List Verb) (m : Mailbox) (w : Session)
    → IsOpen l m w
    → Heard (v ∷ l) m (command_response c v command w)
unfolding command_response
command_response-Heard c v command l m w h =
    judge_answer-Heard v l m w
      (do_command_response c.writes c.reads command max_response_len w.incoming) h

module _ (No Yes : Session → Type 0) (closes : (w : Session) → IsClosed w → No w) where
  pub exchange-Yields :
      (c : Call) (t blame : Timed) (v : Verb) (command : Bytes)
      (onward : Bytes → Session → Option (Bool × Session)) (w : Session) (l : List Verb)
      (m : Mailbox)
      → Talks (v ∷ l)
      → IsOpen l m w
      → ((r : Bytes) (w' : Session) → IsOpen (v ∷ l) m w' → Yields No Yes (onward r w'))
      → Yields No Yes (exchange c t blame v command onward w)
  unfolding exchange
  exchange-Yields c t blame v command onward w l m k h go =
      after_reply-Yields Talks No Yes closes c t blame onward (command_response c v command w)
        (v ∷ l) m k (command_response-Heard c v command l m w h) go
