-- ===== src/Smtp/Run/Order.antt =====
-- src/smtp.c: the order of the commands of a session, with RSET where it is due, and what every
-- exchange keeps.
use mstone.Base.{
  ℕ, ◌+◌, ◌≡◌, ◌⊎◌, Bool, true, false, List, [], ◌∷◌, Option, none, some, ℤ, pos, is_zero, lt_int,
  Bytes,
}
use mstone.Client.Contract.{Yields}
use mstone.Pish.{Call, Timed}
use mstone.Pish.Open.{IsOpen, IsShut, spoken-IsOpen, Heard, after_reply-Yields}
use mstone.Smtp.{
  Verb, hello, auth, mail, rset, rcpt, data_, body, quit, Session, Outcome, smtp_command_response,
}
use mstone.Smtp.Exchange.{reply, exchange}

-- How far a session is: connected, greeted, with no mail begun after one, with a sender, the number
-- of recipients that the message is to have and the number of RCPT so far, with leave to send the
-- message, or closed.
pub data Stage : Type 0 where
  opened greeted between content closed : Stage
  addressed : ℤ → ℕ → Stage

-- The commands that bring a session there, the latest first.
pub data Says : List Verb → Stage → Type 0 where
  nothing : Says [] opened
  says_hello : {l : List Verb} → Says l opened → Says (hello ∷ l) greeted
  says_auth : {l : List Verb} → Says l greeted → Says (auth ∷ l) greeted
  says_mail : {l : List Verb} (n : ℤ) → Says l greeted → Says (mail n ∷ l) (addressed n 0)
  says_next : {l : List Verb} (n : ℤ) → Says l between → Says (mail n ∷ l) (addressed n 0)
  says_rset :
      {l : List Verb} {n : ℤ} {k : ℕ}
      → is_zero n ≡ true
      → Says l (addressed n k)
      → Says (rset ∷ l) between
  says_rcpt :
      {l : List Verb} {n : ℤ} {k : ℕ}
      → is_zero n ≡ false
      → lt_int (pos k) n ≡ true
      → Says l (addressed n k)
      → Says (rcpt ∷ l) (addressed n (k + 1))
  says_data :
      {l : List Verb} {n : ℤ} {k : ℕ}
      → is_zero n ≡ false
      → lt_int (pos k) n ≡ false
      → Says l (addressed n k)
      → Says (data_ ∷ l) content
  says_body : {l : List Verb} → Says l content → Says (body ∷ l) between
  says_quit : {l : List Verb} → Says l greeted → Says (quit ∷ l) closed
  says_leave : {l : List Verb} → Says l between → Says (quit ∷ l) closed

-- The commands so far are a beginning of a session.
abbrev pub Talks : List Verb → Type 0
Talks l = (s : Stage) × Says l s

-- A mail can begin.
abbrev pub AtRest : List Verb → Type 0
AtRest l = Says l greeted ⊎ Says l between

-- No connection, no memory held or misused, and a session in order.
abbrev pub IsClosed : Session → Type 0
IsClosed = IsShut Talks

-- Between `sendSMTPStart` and `sendSMTPEnd`.
pub record IsLive (w : Session) : Type 0 where
  pub l : List Verb
  pub is_open : IsOpen l tt w
  pub at : AtRest l

pub reply-Heard :
    (good : Outcome → Bool) (v : Verb) (l : List Verb) (w : Session) (o : Option Outcome)
    → IsOpen l tt w
    → Heard (v ∷ l) tt (reply good v w o)
unfolding reply
reply-Heard good v l w none h = tt
reply-Heard good v l w (some o) h = spoken-IsOpen v o.wire o.unread l tt w h

-- Every call ends in a session that is live, or closed.
abbrev pub Goes : Option (Bool × Session) → Type 0
Goes = Yields IsClosed IsLive

pub exchange-Goes :
    (c : Call) (t blame : Timed) (good : Outcome → Bool) (v : Verb) (command : Bytes)
    (onward : Bytes → Session → Option (Bool × Session)) (w : Session) (l : List Verb)
    → Talks (v ∷ l)
    → IsOpen l tt w
    → ((r : Bytes) (w' : Session) → IsOpen (v ∷ l) tt w' → Goes (onward r w'))
    → Goes (exchange c t blame good v command onward w)
unfolding exchange
exchange-Goes c t blame good v command onward w l k h go =
    let o = smtp_command_response c command w.incoming in
    after_reply-Yields Talks IsClosed IsLive (λ w closed. closed) c t blame onward
      (reply good v w o) (v ∷ l) tt k (reply-Heard good v l w o h) go
