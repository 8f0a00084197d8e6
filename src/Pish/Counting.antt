-- ===== src/Pish/Counting.antt =====
-- src/pish.h: how `event_stop`, the counting of an error and `doPop3Exit` change the timers.
use mstone.Base.{
  ℕ, ◌+◌, Bytes, Bool, ◌≡◌, ◌<◌, refl, ap, ◌∙◌, false, Option, none, some, if_cases, arith, leb,
  ltb,
}
use mstone.Timer.{exit_fast}
use mstone.Pish.{
  Call, Tally, Timed, connect, banner, cmd, login, msgread, msgwrite, logout, Conversation, Reply,
  same_timer, adjust, timed, counted, freed, free_me, exit, abandon, after_reply,
}
use mstone.Client.Contract.{Yields}

-- The errors of all timers.
abbrev pub errors : (Timed → Tally) → ℕ
errors s =
    (s connect).errs
    + (s banner).errs
    + (s cmd).errs
    + (s login).errs
    + (s msgread).errs
    + (s msgwrite).errs
    + (s logout).errs

adjust_trys :
    (t : Timed) (s : Timed → Tally)
    → errors (adjust t (λ (y : Tally). record y { trys = y.trys + 1 }) s) ≡ errors s
unfolding adjust same_timer
adjust_trys connect s = refl
adjust_trys banner s = refl
adjust_trys cmd s = refl
adjust_trys login s = refl
adjust_trys msgread s = refl
adjust_trys msgwrite s = refl
adjust_trys logout s = refl

pub adjust_errs :
    (t : Timed) (s : Timed → Tally)
    → errors (adjust t (λ (y : Tally). record y { errs = y.errs + 1 }) s) ≡ errors s + 1
unfolding adjust same_timer
adjust_errs connect s = omega arith
adjust_errs banner s = omega arith
adjust_errs cmd s = omega arith
adjust_errs login s = omega arith
adjust_errs msgread s = omega arith
adjust_errs msgwrite s = omega arith
adjust_errs logout s = omega arith

module _ {V M : Type 0} where
  abbrev pub Errs : ℕ → Conversation V M → Type 0
  Errs n w = errors w.tally ≡ n

  pub timed-Errs : (t : Timed) (x n : ℕ) (w : Conversation V M) → Errs n w → Errs n (timed t x w)
  unfolding timed
  timed-Errs t x n w h =
      if_cases (Errs n) (leb exit_fast x) (λ e. h) (λ e. adjust_trys t w.tally ∙ h)

  pub counted-Errs :
      (t : Timed) (x n : ℕ) (w : Conversation V M)
      → x < exit_fast
      → Errs n w
      → Errs (n + 1) (counted t x w)
  unfolding counted
  counted-Errs t x n w lt h =
      if_cases (Errs (n + 1)) (ltb x exit_fast)
        (λ e. adjust_errs t w.tally ∙ ap (λ (k : ℕ). k + 1) h) (λ e. absurd (ground (arith, lt)))

  pub freed-Errs : (o : Option M) (n : ℕ) (w : Conversation V M) → Errs n w → Errs n (freed o w)
  unfolding freed
  freed-Errs none n w h = h
  freed-Errs (some m) n w h = h

  pub exit-Errs : (n : ℕ) (w : Conversation V M) → Errs n w → Errs n (exit w)
  unfolding exit free_me
  exit-Errs n w h = freed-Errs w.me n (record w { sock = false }) h

  module _ (n : ℕ) where
    -- One error more after a failure, and none after a success.
    abbrev pub Counts : Option (Bool × Conversation V M) → Type 0
    Counts = Yields (Errs (n + 1)) (Errs n)

    pub abandon-Counts :
        (t : Timed) (x : ℕ) (w : Conversation V M)
        → x < exit_fast
        → Errs n w
        → Counts (abandon t x w)
    unfolding abandon
    abandon-Counts t x w lt h = exit-Errs (n + 1) (counted t x w) (counted-Errs t x n w lt h)

    abbrev pub HeardWith : Option (Reply V M) → Type 0
    HeardWith none = Unit
    HeardWith (some r) = Errs n r.session

    pub after_reply-Counts :
        (c : Call) (t blame : Timed)
        (onward : Bytes → Conversation V M → Option (Bool × Conversation V M))
        (o : Option (Reply V M))
        → c.expired < exit_fast
        → HeardWith o
        → ((r : Bytes) (w : Conversation V M) → Errs n w → Counts (onward r w))
        → Counts (after_reply c t blame onward o)
    unfolding after_reply
    after_reply-Counts c t blame onward none lt h go = tt
    after_reply-Counts c t blame onward (some r) lt h go =
        let w = timed t c.expired r.session in
        let h' = timed-Errs t c.expired n r.session h in
        if_cases Counts r.ok (λ ok. go r.response w h')
          (λ bad. abandon-Counts blame c.expired w lt h')
