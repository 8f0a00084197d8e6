-- ===== src/Pish.antt =====
-- src/pish.h and the protocols that share it, src/pop3.c and src/smtp.c: a conversation with a server.
-- What the network does to a call, and `gf_timeexpired` after it, are read from a script. Of the
-- timers only `trys` and `errs` are kept. A call that does not come back gives `none`.
pub mod Open
pub mod Counting
use mstone.Base.{
  ℕ, ◌+◌, Bool, true, false, List, ◌∷◌, Option, none, some, ltb, leb, if◌then◌else◌, Bytes,
}
use mstone.Transfer.{Round}
use mstone.Timer.{exit_fast}

-- `MAX_RESPONSE_LEN`
abbrev pub max_response_len : ℕ
max_response_len = 1024

-- The script of a call: the rounds of its writes and of its reads, and `gf_timeexpired` after it.
pub record Call : Type 0 where
  pub writes : List Round
  pub reads : List Round
  pub expired : ℕ

-- `trys` and `errs` of a timer
pub record Tally : Type 0 where
  pub trys : ℕ
  pub errs : ℕ

-- the timers of `pish_stats_t`
pub data Timed : Type 0 where
  connect banner login cmd msgread msgwrite logout : Timed

-- A thread and its conversation, with the commands `V` and the state `M` of its protocol: whether
-- `ptcx->sock` is open, what the server has still to deliver, the bytes put on the wire by each
-- command and the commands, the latest first, the memory of the state, whether freed memory has
-- been used or freed again, the timers, and the last numbers drawn.
pub record Conversation (V M : Type 0) : Type 0 where
  pub sock : Bool
  pub incoming : Bytes
  pub wire : List Bytes
  pub said : List V
  pub me : Option M
  pub fault : Bool
  pub tally : Timed → Tally
  pub last_domain : ℕ
  pub last_login : ℕ
  pub last_address : ℕ

pub same_timer : Timed → Timed → Bool
same_timer connect connect = true
same_timer banner banner = true
same_timer cmd cmd = true
same_timer login login = true
same_timer msgread msgread = true
same_timer msgwrite msgwrite = true
same_timer logout logout = true
same_timer _ _ = false

pub adjust : Timed → (Tally → Tally) → (Timed → Tally) → Timed → Tally
unfolding same_timer
adjust t f s t' = if same_timer t t' then f (s t') else s t'

-- What a command leaves: whether it is a success, the response, and the conversation.
pub record Reply (V M : Type 0) : Type 0 where
  pub ok : Bool
  pub response : Bytes
  pub session : Conversation V M

module _ {V M : Type 0} where
  -- `event_stop`
  unfoldable pub timed : Timed → ℕ → Conversation V M → Conversation V M
  unfolding adjust
  timed t expired w =
      if leb exit_fast expired
      then w
      else record w { tally = adjust t (λ (y : Tally). record y { trys = y.trys + 1 }) w.tally }

  -- `if (gf_timeexpired < EXIT_FAST) stats->...errs++`
  unfoldable pub counted : Timed → ℕ → Conversation V M → Conversation V M
  unfolding adjust
  counted t expired w =
      if ltb expired exit_fast
      then record w { tally = adjust t (λ (y : Tally). record y { errs = y.errs + 1 }) w.tally }
      else w

  -- `xfree (me)`, on the memory of the state
  unfoldable pub freed : Option M → Conversation V M → Conversation V M
  freed none w = record w { fault = true }
  freed (some m) w = record w { me = none }

  unfoldable pub free_me : Conversation V M → Conversation V M
  unfolding freed
  free_me w = freed w.me w

  -- `doPop3Exit`, `doSMTPExit`
  unfoldable pub exit : Conversation V M → Conversation V M
  unfolding free_me
  exit w = free_me (record w { sock = false })

  -- an error behind a call: count it, `doPop3Exit`, `doSMTPExit`, and return NULL or -1
  unfoldable pub abandon : Timed → ℕ → Conversation V M → Option (Bool × Conversation V M)
  unfolding counted exit
  abandon t expired w = some (false, exit (counted t expired w))

  -- a command and what it has put on the wire
  unfoldable pub spoken : V → Bytes → Bytes → Conversation V M → Conversation V M
  spoken v wire unread w = record w { incoming = unread; wire = wire ∷ w.wire; said = v ∷ w.said }

  -- A command between `event_start` and `event_stop`; an error is counted, on a timer of its own,
  -- and ends the session. `onward` is what follows a success.
  unfoldable pub after_reply :
      Call
      → Timed
      → Timed
      → (Bytes → Conversation V M → Option (Bool × Conversation V M))
      → Option (Reply V M)
      → Option (Bool × Conversation V M)
  after_reply c t blame onward none = none
  after_reply c t blame onward (some r) =
      let w = timed t c.expired r.session in
      if r.ok then onward r.response w else abandon blame c.expired w
