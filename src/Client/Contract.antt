-- ===== src/Client/Contract.antt =====
-- src/client.c: what `do_command` and a protocol owe each other.
use mstone.Base.{◌≡◌, ◌≢◌, ◌⊎◌, Bool, true, false, Option, none, some}
use mstone.Client.{Protocol}

-- What a call that returns a flag leaves.
abbrev pub Yields : {W : Type 0} → (W → Type 0) → (W → Type 0) → Option (Bool × W) → Type 0
Yields No Yes none = Unit {0}
Yields No Yes (some (true, w)) = Yes w
Yields No Yes (some (false, w)) = No w

abbrev pub Leaves : {W : Type 0} → (W → Type 0) → Option W → Type 0
Leaves P none = Unit {0}
Leaves P (some w) = P w

-- Which states the calls of a protocol start from and which they leave: `Ready` before `cmdStart`
-- and after `cmdEnd`, `Live` between, `Done` after an error or the end of the work in `cmdLoop`,
-- which is not called again then.
pub record Contract {E W : Type 0} (p : Protocol E W) : Type 1 where
  pub Ready : W → Type 0
  pub Live : W → Type 0
  pub Done : W → Type 0
  pub has_end : p.cmd_end ≢ none
  pub start_keeps : (e : E) (w : W) → Ready w → Yields Ready Live (p.cmd_start e w)
  pub loop_keeps :
      (f : E → W → Option (Bool × W))
      → p.cmd_loop ≡ some f
      → (e : E) (w : W) → Live w
      → Yields Done Live (f e w)
  pub end_keeps :
      (f : E → W → Option W)
      → p.cmd_end ≡ some f
      → (e : E) (w : W) → Live w ⊎ Done w
      → Leaves Ready (f e w)
