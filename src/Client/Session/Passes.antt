-- ===== src/Client/Session/Passes.antt =====
-- src/client.c, `do_command`: each pass of the loop keeps the session and the contract.
use mstone.Base.{
  ℕ, zero, suc, ◌+◌, ◌≤◌, ◌<◌, ◌≡◌, refl, sym, ◌⊎◌, inl, inr, Bool, true, false, Option, none, some,
  arith, leb, leb→le, if_cases, true_not_false, ◌==◌, ◌∙◌, ℤ, subst,
}
use mstone.Client.{
  started, looped, ended, Run, Pass, Block, Protocol, exit_fast, exit_soon, pass, did,
  start_delayed, after_start, after_loop, after_end, first_pass, loop_pass, later_pass, selected,
  fill_block,
}
use mstone.Client.Rule.{Ends}
use mstone.Client.Calls.{
  ready, over, serving, Reaches, did-Reaches, delayed-IsQuiet, idle_after_start-IsQuiet,
  start_delayed-IsQuiet,
}
use mstone.Client.Contract.{Contract, Yields, Leaves}
use mstone.Client.Session.{Serving, Served, Inv, Kept, AtCount, AtEnd}

module _ {E W : Type 0} (p : Protocol E W) (law : Contract p) (b : Block) (Fast : Type 0) where
  after_start-Keeps :
      (e : Pass E) (r : Run W) (o : Option (Bool × W))
      → Reaches b.num_loops r ready
      → Yields law.Ready law.Live o
      → (Kept p law b Fast) (after_start e r o)
  unfolding after_start did
  after_start-Keeps e r none h y = tt
  after_start-Keeps e r (some (true, w)) h y =
      let r' = record r { state = true; world = w } in
      let q =
        idle_after_start-IsQuiet b.num_loops e.delay e.expired_after e.after (did started r') in
      record {
        live_is = q.state_is;
        left = b.num_loops;
        phase =
            q.phase (serving b.num_loops)
              (did-Reaches b.num_loops started r' ready (serving b.num_loops) h refl);
        enough = omega arith;
        low = omega arith;
        at = inl (subst law.Live (sym q.world_is) y);
      }
  after_start-Keeps e r (some (false, w)) h y = record {
    last = serving b.num_loops;
    follows =
        did-Reaches b.num_loops started (record r { state = false; world = w }) ready
          (serving b.num_loops) h refl;
    ended_is = λ e. absurd (cc);
    at = y;
  }

  after_loop-Keeps :
      (e : Pass E) (r : Run W) (c k : ℕ) (o : Option (Bool × W))
      → r.state ≡ true
      → Reaches b.num_loops r (serving (suc k))
      → b.num_loops ≤ suc k + c
      → c < b.num_loops
      → Yields law.Done law.Live o
      → (Kept p law b Fast) (after_loop b e (suc c) r o)
  unfolding after_loop did
  after_loop-Keeps e r c k none live h l less y = tt
  after_loop-Keeps e r c k (some (true, w)) live h l less y =
      let r' = record r { world = w } in
      let q =
        delayed-IsQuiet b.num_loops e.delay e.expired_after e.before e.after (did looped r') in
      record {
        live_is = q.state_is ∙ live;
        left = k;
        phase =
            q.phase (serving k)
              (did-Reaches b.num_loops looped r' (serving (suc k)) (serving k) h refl);
        enough = omega (arith, l);
        low = omega (arith, less);
        at = inl (subst law.Live (sym q.world_is) y);
      }
  after_loop-Keeps e r c k (some (false, w)) live h l less y =
      let r' = record r { world = w } in
      let q =
        delayed-IsQuiet b.num_loops e.delay e.expired_after e.before e.after (did looped r') in
      record {
        live_is = q.state_is ∙ live;
        left = k;
        phase =
            q.phase (serving k)
              (did-Reaches b.num_loops looped r' (serving (suc k)) (serving k) h refl);
        enough = omega (arith, l);
        low = omega arith;
        at = inr (subst law.Done (sym q.world_is) y, refl);
      }

  still_live : (c : ℕ) (w : W) → c < b.num_loops → AtCount p law b Fast c w → law.Live w
  still_live c w less (inl live) = live
  still_live c w less (inr (done, e)) = absurd (omega (arith, less, e))

  loop_pass-Keeps :
      (loop : Option (E → W → Option (Bool × W)))
      → p.cmd_loop ≡ loop
      → (e : Pass E) (r : Run W) (c k : ℕ) → r.state ≡ true
      → Reaches b.num_loops r (serving k)
      → b.num_loops ≤ k + c
      → c < b.num_loops
      → law.Live r.world
      → (Kept p law b Fast) (loop_pass loop b e (suc c) r)
  unfolding loop_pass
  loop_pass-Keeps none is e r c k live h l less y = record {
    live_is = live;
    left = k;
    phase = h;
    enough = omega (arith, l);
    low = omega (arith, less);
    at = inl y;
  }
  loop_pass-Keeps (some f) is e r c zero live h l less y = absurd (omega (arith, l, less))
  loop_pass-Keeps (some f) is e r c (suc k) live h l less y =
      after_loop-Keeps e r c k (f e.env r.world) live h l less (law.loop_keeps f is e.env r.world y)

  ready_at : (s : Bool) (w : W) → law.Ready w → AtEnd p law b Fast s w
  ready_at true w h = inl h
  ready_at false w h = h

  after_end-Keeps :
      (r : Run W) (k : ℕ) (o : Option W)
      → Reaches b.num_loops r (serving k)
      → Leaves law.Ready o
      → (Kept p law b Fast) (after_end r o)
  unfolding after_end did
  after_end-Keeps r k none h y = tt
  after_end-Keeps r k (some w) h y = record {
    last = over;
    follows = did-Reaches b.num_loops ended (record r { world = w }) (serving k) over h refl;
    ended_is = λ e. inl refl;
    at = ready_at r.state w y;
  }

  any_count : (c : ℕ) (w : W) → AtCount p law b Fast c w → law.Live w ⊎ law.Done w
  any_count c w (inl live) = inl live
  any_count c w (inr (done, e)) = inr done

  later_pass-Keeps :
      (end : Option (E → W → Option W))
      → p.cmd_end ≡ end
      → (e : Pass E) (r : Run W) (c : ℕ) → Serving p law b Fast c r
      → (Kept p law b Fast) (later_pass end p.cmd_loop b e (suc c) r)
  unfolding later_pass
  later_pass-Keeps none is e r c i = absurd (law.has_end is)
  later_pass-Keeps (some end) is e r c i =
      if_cases (Kept p law b Fast) (suc c == b.num_loops + 1)
        (λ last.
          after_end-Keeps r i.left (end e.env r.world) i.phase
            (law.end_keeps end is e.env r.world (any_count c r.world i.at)))
        (λ more.
          let less : c < b.num_loops = ground (arith, i.low) in
          loop_pass-Keeps p.cmd_loop refl e r c i.left i.live_is i.phase i.enough less
            (still_live c r.world less i.at))

  selected-Keeps :
      (e : Pass E) (cnt : ℕ) (r : Run W)
      → Inv p law b Fast cnt r
      → (Kept p law b Fast) (selected p b e cnt r)
  unfolding selected first_pass
  selected-Keeps e zero r i =
      let q = start_delayed-IsQuiet b.num_loops b.start_delay b.startedtime r in
      let r' = start_delayed b.start_delay b.startedtime r in
      after_start-Keeps e (record r' { totalcommands = r'.totalcommands + 1 })
        (p.cmd_start e.env r'.world) (q.phase ready i.phase)
        (law.start_keeps e.env r'.world (subst law.Ready (sym q.world_is) i.at))
  selected-Keeps e (suc c) r i = later_pass-Keeps p.cmd_end refl e r c i

  fast_at : (s : Bool) (w : W) → Fast → s ≡ true → law.Live w ⊎ law.Done w → AtEnd p law b Fast s w
  fast_at true w fast e h = inr (fast, h)
  fast_at false w fast e h = absurd (cc)

  at_last : (c : ℕ) (w : W) → AtCount p law b Fast c w → AtCount p law b Fast b.num_loops w
  at_last c w (inl live) = inl live
  at_last c w (inr (done, e)) = inr (done, refl)

  -- where a pass leaves the loop at once
  Inv-Served :
      (cnt : ℕ) (r : Run W)
      → Fast ⊎ (r.state ≡ false)
      → Inv p law b Fast cnt r
      → (Served p law b Fast) r
  Inv-Served zero r fast i = record {
    last = ready;
    follows = i.phase;
    ended_is = λ e. absurd (true_not_false r.state e i.idle_is);
    at = ready_at r.state r.world i.at;
  }
  Inv-Served (suc c) r (inl fast) i = record {
    last = serving i.left;
    follows = i.phase;
    ended_is = λ e. inr fast;
    at = fast_at r.state r.world fast i.live_is (any_count c r.world i.at);
  }
  Inv-Served (suc c) r (inr idle) i = absurd (true_not_false r.state i.live_is idle)

  Inv-jump :
      (cnt : ℕ) (r : Run W)
      → r.state ≡ true
      → Inv p law b Fast cnt r
      → Inv p law b Fast (suc b.num_loops) r
  Inv-jump zero r live i = absurd (true_not_false r.state live i.idle_is)
  Inv-jump (suc c) r live i = record {
    live_is = live;
    left = i.left;
    phase = i.phase;
    enough = omega arith;
    low = omega arith;
    at = at_last c r.world i.at;
  }

  pub Inv-low :
      (cnt : ℕ) (r : Run W)
      → Inv p law b Fast cnt r
      → b.num_loops + 1 < cnt
      → (Served p law b Fast) r
  Inv-low zero r i lt = absurd (omega (arith, lt))
  Inv-low (suc c) r i lt = absurd (omega (arith, lt, i.low))

  pub pass-Keeps :
      (e : Pass E) (cnt : ℕ) (r : Run W)
      → (exit_fast ≤ e.expired → Fast)
      → cnt ≤ b.num_loops + 1
      → Inv p law b Fast cnt r
      → (Kept p law b Fast) (pass p b e cnt r)
  unfolding pass
  pass-Keeps e cnt r fast le i =
      if_cases (Kept p law b Fast) (leb exit_fast e.expired)
        (λ h. Inv-Served cnt r (inl (fast (leb→le exit_fast e.expired h))) i)
        (λ h.
          if_cases (Kept p law b Fast) (leb exit_soon e.expired)
            (λ soon.
              if_cases (Kept p law b Fast) r.state
                (λ live. selected-Keeps e (suc b.num_loops) r (Inv-jump cnt r live i))
                (λ idle. Inv-Served cnt r (inr idle) i))
            (λ early. selected-Keeps e cnt r i))

  pub fill_block-Ends :
      (delay : ℤ) (x now : ℕ) (o : Option (Run W))
      → Ends (Served p law b Fast) o
      → Ends (Served p law b Fast) (fill_block delay x now o)
  unfolding fill_block
  fill_block-Ends delay x now none h = tt
  fill_block-Ends delay x now (some r) h =
      let q = delayed-IsQuiet b.num_loops delay x r.block_start now r in
      record {
        last = h.last;
        follows = q.phase h.last h.follows;
        ended_is = λ e. h.ended_is (sym q.state_is ∙ e);
        at = rw q.state_is (rw q.world_is h.at);
      }
