-- ===== src/Pop3/Run/Safe.antt =====
-- src/pop3.c under `do_command`, src/client.c: the calls keep the contract.
use mstone.Base.{◌≡◌, subst, ◌⊎◌, Bool, false, List, Option, some}
use mstone.Client.{Pass, Run}
use mstone.Client.Rule.{Aborted}
use mstone.Client.Contract.{Yields, Leaves, Contract}
use mstone.Pop3.{Env, Session, Config}
use mstone.Pop3.Run.{loop, end, pop3}
use mstone.Pop3.Run.Dialogue.{Talks, IsClosed, IsLive, IsLeft}
use mstone.Pop3.Run.Login.{start-Yields}
use mstone.Pop3.Run.Fetching.{loop-Yields, end-Leaves}

same_loop :
    (c : Config) (f : Env → Session → Option (Bool × Session))
    → (pop3 c).cmd_loop ≡ some f
    → loop c ≡ f
same_loop c f e = cc

same_end : (c : Config) (f : Env → Session → Option Session) → (pop3 c).cmd_end ≡ some f → end c ≡ f
same_end c f e = cc

-- What POP3 promises to `do_command`: no connection and no memory before a start and after an end.
abbrev contract : (c : Config) → Contract (pop3 c)
contract c = record {
  Ready = IsClosed;
  Live = IsLive;
  Done = IsLeft;
  has_end = λ e. absurd (cc);
  start_keeps = λ e w h. start-Yields c e w h;
  loop_keeps = λ f is e w h.
      subst (λ (g : Env → Session → Option (Bool × Session)). Yields IsLeft IsLive (g e w))
        (same_loop c f is) (loop-Yields c e w h);
  end_keeps = λ f is e w h.
      subst (λ (g : Env → Session → Option Session). Leaves IsClosed (g e w)) (same_end c f is)
        (end-Leaves c e w h);
}

-- The memory of the state was neither used nor freed after it was freed, and the commands are a
-- beginning of a session; the connection is closed and the memory freed, or the run was aborted.
pub record IsSafe (es : List (Pass Env)) (r : Run Session) : Type 0 where
  pub sound : r.world.fault ≡ false
  pub talks : Talks r.world.said
  pub left : IsClosed r.world ⊎ Aborted es
