-- ===== src/Smtp/Run/Safe.antt =====
-- src/smtp.c under `do_command`, src/client.c: the calls keep the contract.
use mstone.Base.{ℕ, ◌≡◌, subst, ◌⊎◌, inl, inr, sym, Bool, true, false, List, Option, none, some, ℤ}
use mstone.Client.{Pass, Block, Run, do_command}
use mstone.Client.Rule.{Ends, Aborted}
use mstone.Client.Session.{Served, AtEnd}
use mstone.Client.Session.Order.{do_command-Served}
use mstone.Client.Contract.{Leaves, Contract}
use mstone.Smtp.{Verb, Session, Config}
use mstone.Smtp.Exchange.{Env}
use mstone.Smtp.Run.{loop, end, smtp}
use mstone.Smtp.Run.Order.{greeted, between, Talks, AtRest, IsClosed, IsLive, Goes}
use mstone.Smtp.Run.Opening.{start-Goes}
use mstone.Smtp.Run.Sending.{loop-Goes, end-Leaves}

same_loop :
    (c : Config) (f : Env → Session → Option (Bool × Session))
    → (smtp c).cmd_loop ≡ some f
    → loop c ≡ f
same_loop c f e = cc

same_end : (c : Config) (f : Env → Session → Option Session) → (smtp c).cmd_end ≡ some f → end c ≡ f
same_end c f e = cc

-- What SMTP promises to `do_command`: no connection and no memory before a start, after an error
-- and after an end.
abbrev contract : (c : Config) → Contract (smtp c)
contract c = record {
  Ready = IsClosed;
  Live = IsLive;
  Done = IsClosed;
  has_end = λ e. absurd (cc);
  start_keeps = λ e w h. start-Goes c e w h;
  loop_keeps = λ f is e w h.
      subst (λ (g : Env → Session → Option (Bool × Session)). Goes (g e w)) (same_loop c f is)
        (loop-Goes c e w h);
  end_keeps = λ f is e w h.
      subst (λ (g : Env → Session → Option Session). Leaves IsClosed (g e w)) (same_end c f is)
        (end-Leaves c e w h);
}

-- The memory of the state was not freed twice, and the commands are a beginning of a session; the
-- connection is closed and the memory freed, or the run was aborted.
pub record IsSafe (es : List (Pass Env)) (r : Run Session) : Type 0 where
  pub sound : r.world.fault ≡ false
  pub talks : Talks r.world.said
  pub left : IsClosed r.world ⊎ Aborted es

rest-Talks : (l : List Verb) → AtRest l → Talks l
rest-Talks l (inl k) = (greeted, k)
rest-Talks l (inr k) = (between, k)

IsSafe-at :
    (c : Config) (b : Block) (es : List (Pass Env)) (s : Bool) (r : Run Session)
    → AtEnd (smtp c) (contract c) b (Aborted es) s r.world
    → IsSafe es r
IsSafe-at c b es true r (inl h) = record { sound = h.sound; talks = h.talks; left = inl h }
IsSafe-at c b es true r (inr (fast, inl h)) = record {
  sound = h.is_open.sound;
  talks = subst Talks (sym h.is_open.said_is) (rest-Talks h.l h.at);
  left = inr fast;
}
IsSafe-at c b es true r (inr (fast, inr h)) = record {
  sound = h.sound;
  talks = h.talks;
  left = inl h;
}
IsSafe-at c b es false r h = record { sound = h.sound; talks = h.talks; left = inl h }

Served-IsSafe :
    (c : Config) (b : Block) (es : List (Pass Env)) (o : Option (Run Session))
    → Ends (Served (smtp c) (contract c) b (Aborted es)) o
    → Ends (IsSafe es) o
Served-IsSafe c b es none h = tt
Served-IsSafe c b es (some r) h = IsSafe-at c b es r.state r h.at

-- An SMTP or LMTP block with no negative `numLoops` that comes back, whatever the server, the
-- network and the clock do: if it began with no connection and no state, it has never freed the
-- memory of its state twice, its commands came in this order: the greeting, the lines of an
-- authentication, then mails, each MAIL followed by RSET if `numRecips` is 0 for it, and otherwise
-- by as many RCPT as `numRecips` says (none if it is negative), DATA and the message, then QUIT;
-- and it has closed the connection and freed the state, or some pass found that `gf_timeexpired`
-- had reached `EXIT_FAST`.
pub smtp_command-IsSafe :
    (c : Config) (b : Block) (es : List (Pass Env)) (delay : ℤ) (x now total : ℕ) (w : Session)
    → IsClosed w
    → Ends (IsSafe es) (do_command (smtp c) b es delay x now total w)
smtp_command-IsSafe c b es delay x now total w h =
    Served-IsSafe c b es (do_command (smtp c) b es delay x now total w)
      (do_command-Served (smtp c) (contract c) b es delay x now total w h)
