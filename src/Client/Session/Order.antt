-- ===== src/Client/Session/Order.antt =====
-- src/client.c: `do_command` calls a protocol in the order that its session asks for, and in the
-- states that its contract asks for.
use mstone.Base.{ℕ, refl, false, List, [], ℤ}
use mstone.Client.{Run, Pass, Block, Protocol, passes, do_command}
use mstone.Client.Rule.{Ends, Aborted, passes-Ends}
use mstone.Client.Contract.{Contract}
use mstone.Client.Session.{Served, Inv}
use mstone.Client.Session.Passes.{pass-Keeps, Inv-low, fill_block-Ends}

-- A command block with no negative `numLoops`, on any protocol that keeps the contract, calls it as
-- its session asks: no call before `cmdStart`, then `cmdLoop` at most `numLoops` times, then
-- `cmdEnd` once and nothing behind it; and if `cmdStart` returned a state, the last call is
-- `cmdEnd` and the protocol is ready again, or a pass found that `gf_timeexpired` had reached
-- `EXIT_FAST`.
pub do_command-Served :
    {E W : Type 0} (p : Protocol E W) (law : Contract p) (b : Block) (es : List (Pass E))
    (delay : ℤ) (x now total : ℕ) (w : W)
    → law.Ready w
    → Ends (Served p law b (Aborted es)) (do_command p b es delay x now total w)
unfolding do_command
do_command-Served {E} {W} p law b es delay x now total w h =
    let Fast = Aborted es in
    let first : Run W = record {
      state = false;
      block_start = b.block_start;
      totalcommands = total;
      world = w;
      acts = [];
    } in
    fill_block-Ends p law b Fast delay x now (passes p b es 0 first) (
      passes-Ends (Inv p law b Fast) (Served p law b Fast) p b Fast (pass-Keeps p law b Fast)
        (Inv-low p law b Fast) es 0 first (λ a. a)
        (record { idle_is = refl; phase = refl; at = h }))
