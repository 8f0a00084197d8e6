-- ===== src/Pish/Open.antt =====
-- src/pish.h: what every exchange of a conversation keeps of the connection and of the memory.
use mstone.Base.{
  ℕ, ◌≡◌, refl, sym, ap, subst, Bool, true, false, List, ◌∷◌, Option, none, some, if_cases, leb,
  ltb, Bytes,
}
use mstone.Timer.{exit_fast}
use mstone.Client.Contract.{Yields}
use mstone.Pish.{
  Call, Timed, Conversation, Reply, timed, counted, exit, free_me, freed, abandon, spoken,
  after_reply,
}

-- The connection is open, and the state is there.
pub record IsOpen {V M : Type 0} (l : List V) (m : M) (w : Conversation V M) : Type 0 where
  pub sock_is : w.sock ≡ true
  pub me_is : w.me ≡ some m
  pub sound : w.fault ≡ false
  pub said_is : w.said ≡ l

-- No connection, and no memory held or misused.
pub record IsShut {V M : Type 0} (Talks : List V → Type 0) (w : Conversation V M) : Type 0 where
  pub sock_is : w.sock ≡ false
  pub me_is : w.me ≡ none
  pub sound : w.fault ≡ false
  pub talks : Talks w.said

module _ {V M : Type 0} where
  pub timed-IsOpen :
      (t : Timed) (x : ℕ) (l : List V) (m : M) (w : Conversation V M)
      → IsOpen l m w
      → IsOpen l m (timed t x w)
  unfolding timed
  timed-IsOpen t x l m w h =
      if_cases (IsOpen l m) (leb exit_fast x) (λ e. h)
        (λ e. record { sock_is = h.sock_is; me_is = h.me_is; sound = h.sound; said_is = h.said_is })

  pub counted-IsOpen :
      (t : Timed) (x : ℕ) (l : List V) (m : M) (w : Conversation V M)
      → IsOpen l m w
      → IsOpen l m (counted t x w)
  unfolding counted
  counted-IsOpen t x l m w h =
      if_cases (IsOpen l m) (ltb x exit_fast)
        (λ e. record { sock_is = h.sock_is; me_is = h.me_is; sound = h.sound; said_is = h.said_is })
        (λ e. h)

  pub spoken-IsOpen :
      (v : V) (wire unread : Bytes) (l : List V) (m : M) (w : Conversation V M)
      → IsOpen l m w
      → IsOpen (v ∷ l) m (spoken v wire unread w)
  unfolding spoken
  spoken-IsOpen v wire unread l m w h = record {
    sock_is = h.sock_is;
    me_is = h.me_is;
    sound = h.sound;
    said_is = ap (◌∷◌ v) h.said_is;
  }

  -- Where a reply leaves the session.
  abbrev pub Heard : List V → M → Option (Reply V M) → Type 0
  Heard l m none = Unit
  Heard l m (some r) = IsOpen l m r.session

  module _ (Talks : List V → Type 0) where
    pub freed-IsShut :
        (o : Option M) (m : M) (w : Conversation V M)
        → o ≡ some m
        → w.sock ≡ false
        → w.fault ≡ false
        → Talks w.said
        → IsShut Talks (freed o w)
    unfolding freed
    freed-IsShut none m w e s f t = absurd (cc)
    freed-IsShut (some m') m w e s f t = record { sock_is = s; me_is = refl; sound = f; talks = t }

    pub exit-IsShut :
        (l : List V) (m : M) (w : Conversation V M) → IsOpen l m w → Talks l → IsShut Talks (exit w)
    unfolding exit free_me
    exit-IsShut l m w h t =
        freed-IsShut w.me m (record w { sock = false }) h.me_is refl h.sound
          (subst Talks (sym h.said_is) t)

  -- An exchange ends in what follows it, or closed: `No` and `Yes` are what an error and a success
  -- are to leave.
  module _ (Talks : List V → Type 0) (No Yes : Conversation V M → Type 0)
      (closes : (w : Conversation V M) → IsShut Talks w → No w) where
    pub abandon-Yields :
        (t : Timed) (x : ℕ) (l : List V) (m : M) (w : Conversation V M)
        → IsOpen l m w
        → Talks l
        → Yields No Yes (abandon t x w)
    unfolding abandon
    abandon-Yields t x l m w h k =
        closes (exit (counted t x w))
          (exit-IsShut Talks l m (counted t x w) (counted-IsOpen t x l m w h) k)

    pub after_reply-Yields :
        (c : Call) (t blame : Timed)
        (onward : Bytes → Conversation V M → Option (Bool × Conversation V M))
        (o : Option (Reply V M)) (l : List V) (m : M)
        → Talks l
        → Heard l m o
        → ((r : Bytes) (w : Conversation V M) → IsOpen l m w → Yields No Yes (onward r w))
        → Yields No Yes (after_reply c t blame onward o)
    unfolding after_reply
    after_reply-Yields c t blame onward none l m k h go = tt
    after_reply-Yields c t blame onward (some r) l m k h go =
        let w = timed t c.expired r.session in
        let o = timed-IsOpen t c.expired l m r.session h in
        if_cases (Yields No Yes) r.ok (λ ok. go r.response w o)
          (λ bad. abandon-Yields blame c.expired l m w o k)
