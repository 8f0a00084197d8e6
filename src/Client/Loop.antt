-- ===== src/Client/Loop.antt =====
-- src/client.c, `clientLoop`: a thread runs command blocks until the time is up or its limit is
-- reached. The run of a block is any function on some state; `none` if it does not come back.
use mstone.Base.{
  IsSome, ℕ, ◌+◌, ◌≤◌, ◌<◌, ◌≡◌, refl, Bool, true, false, ◌&&◌, List, [], ◌∷◌, ◌++◌, Option, none,
  some, arith, ltb, leb, if_cases, if◌then◌else◌, length, length-append,
}
use mstone.Client.{exit_soon}
use mstone.Client.Weight.{choose, total, choose-length}

-- What an iteration finds: `gf_timeexpired` before it, `RANDOM()`, and `gf_timeexpired` after the
-- block.
pub record Turn : Type 0 where
  pub expired : ℕ
  pub random : ℕ
  pub expired_after : ℕ

-- The fields of `struct thread_context` that the loop uses, whether it has called `beginShutdown`,
-- what the blocks work on, and which blocks have been run.
pub record Thread (W : Type 0) : Type 0 where
  pub block_count : ℕ
  pub connect_count : ℕ
  pub shutdown : Bool
  pub world : W
  pub blocks : List ℕ

module _ {W : Type 0} (weights : List ℕ) (max_block_cnt : ℕ) (command : ℕ → W → Option W) where
  -- what is left of an iteration behind the block
  pub after_block : Turn → Thread W → Option (Thread W) → Option (Thread W)
  after_block t c rest =
      if leb exit_soon t.expired_after
      then some c
      else if ltb 0 max_block_cnt && leb max_block_cnt c.block_count
      then some (record c { shutdown = true })
      else rest

  counted : ℕ → W → Thread W → Thread W
  counted i w c = record c {
    block_count = c.block_count + 1;
    connect_count = c.connect_count + 1;
    world = w;
    blocks = c.blocks ++ (i ∷ []);
  }

  -- what the block left; `do_command` returns 1
  finished : Turn → ℕ → Thread W → (Thread W → Option (Thread W)) → Option W → Option (Thread W)
  unfolding after_block counted
  finished t i c next none = none
  finished t i c next (some w) = after_block t (counted i w c) (next (counted i w c))

  run_block : Turn → Thread W → (Thread W → Option (Thread W)) → Option ℕ → Option (Thread W)
  unfolding finished
  run_block t c next none = none
  run_block t c next (some i) = finished t i c next (command i c.world)

  -- the loop, from some counts on
  pub client_loop : List Turn → Thread W → Option (Thread W)
  unfolding run_block
  client_loop [] c = none
  client_loop (t ∷ ts) c =
      let block = run_block t c (λ c'. client_loop ts c') (choose weights t.random) in
      if ltb t.expired exit_soon then block else some c

  abbrev InRange : List ℕ → Type 0
  InRange [] = Unit
  InRange (i ∷ is) = (i < length weights) × InRange is

  -- The counts agree with the blocks that were run; each of these is a block of the list, and there
  -- are no more than the limit.
  pub record IsWithin (c : Thread W) : Type 0 where
    pub counts : c.block_count ≡ length c.blocks
    pub connects : c.connect_count ≡ c.block_count
    pub in_range : InRange c.blocks
    pub limit : 0 < max_block_cnt → c.block_count ≤ max_block_cnt

  abbrev pub Leaves : Option (Thread W) → Type 0
  Leaves none = Unit
  Leaves (some c) = IsWithin c

  abbrev Below : Thread W → Type 0
  Below c = IsWithin c × (0 < max_block_cnt → c.block_count < max_block_cnt)

  module _ (positive : 0 < total weights) where
    InRange-append :
        (xs : List ℕ) (i : ℕ) → InRange xs → i < length weights → InRange (xs ++ (i ∷ []))
    InRange-append [] i h l = (l, tt)
    InRange-append (x ∷ xs) i h l = (h.0, InRange-append xs i h.1 l)

    counted-IsWithin :
        (i : ℕ) (w : W) (c : Thread W) → Below c → i < length weights → IsWithin (counted i w c)
    unfolding counted
    counted-IsWithin i w c h l = record {
      counts = omega (arith, h.0.counts, length-append c.blocks (i ∷ []));
      connects = omega (arith, h.0.connects);
      in_range = InRange-append c.blocks i h.0.in_range l;
      limit = λ m. omega (arith, h.1 m);
    }

    finished-Leaves :
        (t : Turn) (i : ℕ) (c : Thread W) (next : Thread W → Option (Thread W)) (o : Option W)
        → Below c
        → i < length weights
        → ((c' : Thread W) → Below c' → Leaves (next c'))
        → Leaves (finished t i c next o)
    unfolding finished after_block
    finished-Leaves t i c next none h l k = tt
    finished-Leaves t i c next (some w) h l k =
        let done = counted-IsWithin i w c h l in
        if_cases Leaves (leb exit_soon t.expired_after) (λ late. done)
          (λ early.
            if_cases Leaves (ltb 0 max_block_cnt && leb max_block_cnt (counted i w c).block_count)
              (λ enough. record {
                counts = done.counts;
                connects = done.connects;
                in_range = done.in_range;
                limit = done.limit;
              })
              (λ more. k (counted i w c) (done, λ m. ground (arith, m))))

    run_block-Leaves :
        (t : Turn) (c : Thread W) (next : Thread W → Option (Thread W)) (o : Option ℕ)
        → Below c
        → (i : ℕ) × (o ≡ some i) × (i < length weights)
        → ((c' : Thread W) → Below c' → Leaves (next c'))
        → Leaves (run_block t c next o)
    unfolding run_block
    run_block-Leaves t c next none h l k = tt
    run_block-Leaves t c next (some j) h (i, e, l) k =
        finished-Leaves t j c next (command j c.world) h (ground (arith, l)) k

    client_loop-Leaves : (ts : List Turn) (c : Thread W) → Below c → Leaves (client_loop ts c)
    unfolding client_loop
    client_loop-Leaves [] c h = tt
    client_loop-Leaves (t ∷ ts) c h =
        if_cases Leaves (ltb t.expired exit_soon)
          (λ early.
            run_block-Leaves t c (λ c'. client_loop ts c') (choose weights t.random) h
              (choose-length weights t.random positive) (λ c' h'. client_loop-Leaves ts c' h'))
          (λ late. h.0)

  module _ (positive : 0 < total weights) (live : (i : ℕ) (w : W) → IsSome (command i w)) where
    finished-IsSome :
        (t : Turn) (i : ℕ) (c : Thread W) (next : Thread W → Option (Thread W)) (o : Option W)
        → IsSome o
        → ((w : W)
            → ((0 < max_block_cnt → (counted i w c).block_count < max_block_cnt))
            → IsSome (next (counted i w c)))
        → IsSome (finished t i c next o)
    unfolding finished after_block counted
    finished-IsSome t i c next none h k = h
    finished-IsSome t i c next (some w) h k =
        if_cases IsSome (leb exit_soon t.expired_after) (λ late. tt)
          (λ early.
            if_cases IsSome (ltb 0 max_block_cnt && leb max_block_cnt (counted i w c).block_count)
              (λ enough. tt) (λ more. k w (λ m. ground (arith, m))))

    run_block-IsSome :
        (t : Turn) (c : Thread W) (next : Thread W → Option (Thread W)) (o : Option ℕ)
        → (i : ℕ) × (o ≡ some i) × (i < length weights)
        → ((i : ℕ) (w : W)
            → ((0 < max_block_cnt → (counted i w c).block_count < max_block_cnt))
            → IsSome (next (counted i w c)))
        → IsSome (run_block t c next o)
    unfolding run_block
    run_block-IsSome t c next none (i, e, l) k = absurd (cc)
    run_block-IsSome t c next (some j) l k =
        finished-IsSome t j c next (command j c.world) (live j c.world) (k j)

    client_loop-IsSome :
        (ts : List Turn) (c : Thread W)
        → 0 < max_block_cnt
        → c.block_count < max_block_cnt
        → max_block_cnt ≤ c.block_count + length ts
        → IsSome (client_loop ts c)
    unfolding client_loop counted
    client_loop-IsSome [] c m less h = omega (arith, less, h)
    client_loop-IsSome (t ∷ ts) c m less h =
        if_cases IsSome (ltb t.expired exit_soon)
          (λ early.
            run_block-IsSome t c (λ c'. client_loop ts c') (choose weights t.random)
              (choose-length weights t.random positive)
              (λ i w l. client_loop-IsSome ts (counted i w c) m (l m) (omega (arith, h))))
          (λ late. tt)

-- where `clientLoop` starts
abbrev pub fresh : {W : Type 0} → W → Thread W
fresh w = record { block_count = 0; connect_count = 0; shutdown = false; world = w; blocks = [] }

-- A thread with blocks and a positive total weight: when its loop ends, the counts agree with the
-- blocks that were run, each was a block of the list, and there were at most `maxBlockCnt`, if that
-- is not 0; and with such a limit, and blocks that come back, the loop ends within as many iterations.
pub client_loop-IsWithin :
    {W : Type 0} (weights : List ℕ) (max_block_cnt : ℕ) (command : ℕ → W → Option W)
    (ts : List Turn) (w : W)
    → 0 < total weights
    → Leaves weights max_block_cnt command (client_loop weights max_block_cnt command ts (fresh w))
      × (((i : ℕ) (v : W) → IsSome (command i v))
          → 0 < max_block_cnt
          → max_block_cnt ≤ length ts
          → IsSome (client_loop weights max_block_cnt command ts (fresh w)))
client_loop-IsWithin weights max_block_cnt command ts w positive = (
  client_loop-Leaves weights max_block_cnt command positive ts (fresh w)
      (record { counts = refl; connects = refl; in_range = tt; limit = λ m. omega arith }, λ m. m),
  λ live m enough.
      client_loop-IsSome weights max_block_cnt command positive live ts (fresh w) m m
        (omega (arith, enough)),
)
