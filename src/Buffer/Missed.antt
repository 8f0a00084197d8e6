-- ===== src/Buffer/Missed.antt =====
-- src/sb.c, `sb_discard`: where the delimiter does not start.
use mathlib.Core.List.{append_assoc, append-nil}
use mstone.Base.{
  true_not_false, ℕ, suc, ◌+◌, ◌≤◌, ◌<◌, ◌≡◌, refl, sym, ap, ◌∙◌, subst, true, false, Bool-cases,
  inl, inr, [], ◌∷◌, ◌++◌, Option, none, some, Bytes, length, length-append, drop, starts_with,
  starts_with-append, starts_with_mono, arith, if_cases,
}
use mstone.Buffer.{find}

-- The delimiter starts nowhere in the bytes, with so many behind them.
abbrev pub Missed : Bytes → Bytes → Bytes → Type 0
Missed pat [] rest = Unit {0}
Missed pat (c ∷ s) rest = (starts_with pat (c ∷ (s ++ rest)) ≡ false) × Missed pat s rest

-- More bytes do not matter behind a front that has room for the delimiter,
pub Missed-further :
    (pat s rest more : Bytes)
    → length pat ≤ suc (length rest)
    → Missed pat s rest
    → Missed pat s (rest ++ more)
Missed-further pat [] rest more h m = tt
Missed-further pat (c ∷ s) rest more h m = (
  subst (λ l. starts_with pat (c ∷ l) ≡ false) (append_assoc s rest more)
      (starts_with-append pat (c ∷ (s ++ rest)) more (omega (arith, h, length-append s rest))
        ∙ m.0),
  Missed-further pat s rest more h m.1,
)

not_longer : (pat s more : Bytes) → starts_with pat (s ++ more) ≡ false → starts_with pat s ≡ false
not_longer pat s more h = elim (Bool-cases (starts_with pat s)) [
  | inl there ↦
      absurd (true_not_false (starts_with pat (s ++ more)) (starts_with_mono pat s more there) h)
  | inr missed ↦ missed
]

-- and fewer never do.
pub Missed-nearer : (pat s rest more : Bytes) → Missed pat s (rest ++ more) → Missed pat s rest
Missed-nearer pat [] rest more m = tt
Missed-nearer pat (c ∷ s) rest more m = (
  not_longer pat (c ∷ (s ++ rest)) more
      (subst (λ l. starts_with pat (c ∷ l) ≡ false) (sym (append_assoc s rest more)) m.0),
  Missed-nearer pat s rest more m.1,
)

pub Missed-append :
    (pat s t rest : Bytes) → Missed pat s (t ++ rest) → Missed pat t rest → Missed pat (s ++ t) rest
Missed-append pat [] t rest m k = k
Missed-append pat (c ∷ s) t rest m k = (
  subst (λ l. starts_with pat (c ∷ l) ≡ false) (sym (append_assoc s t rest)) m.0,
  Missed-append pat s t rest m.1 k,
)

-- what is missed in the whole is missed in its front
pub Missed-front : (pat s t rest : Bytes) → Missed pat (s ++ t) rest → Missed pat s (t ++ rest)
Missed-front pat [] t rest m = tt
Missed-front pat (c ∷ s) t rest m = (
  subst (λ l. starts_with pat (c ∷ l) ≡ false) (append_assoc s t rest) m.0,
  Missed-front pat s t rest m.1,
)

too_short : (pat s : Bytes) → length s < length pat → starts_with pat s ≡ false
unfolding starts_with
too_short [] s h = absurd (omega (arith, h))
too_short (p ∷ ps) [] h = refl
too_short (p ∷ ps) (c ∷ s) h = ground (arith, too_short ps s (omega (arith, h)))

-- Nothing starts in fewer bytes than the delimiter has.
pub Missed-short : (pat s : Bytes) → length s < length pat → Missed pat s []
Missed-short pat [] h = tt
Missed-short pat (c ∷ s) h = (
  too_short pat (c ∷ (s ++ [])) (omega (arith, h, length-append s [])),
  Missed-short pat s (omega (arith, h)),
)

-- What `strstr` returns: nothing, and the delimiter starts nowhere; or the offset of the first
-- occurrence.
abbrev pub Found : Bytes → Bytes → Option ℕ → Type 0
Found pat s none = Missed pat s [] × (0 < length pat)
Found pat s (some n) =
    (before : Bytes) × (s ≡ (before ++ pat) ++ drop (n + length pat) s)
    × Missed pat before (pat ++ drop (n + length pat) s)

starts_with-splits : (pat s : Bytes) → starts_with pat s ≡ true → s ≡ pat ++ drop (length pat) s
unfolding starts_with
starts_with-splits [] s h = refl
starts_with-splits (p ∷ ps) [] h = absurd (ground arith)
starts_with-splits (p ∷ ps) (c ∷ s) h = ground (arith, starts_with-splits ps s)

front-Found : (pat s : Bytes) → starts_with pat s ≡ true → Found pat s (some 0)
front-Found pat s h =
    let shift : length pat ≡ 0 + length pat = omega arith in
    ([], starts_with-splits pat s h ∙ ap (λ (m : ℕ). pat ++ drop m s) shift, tt)

Found-cons :
    (pat : Bytes) (c : ℕ) (s : Bytes) (o : Option ℕ)
    → starts_with pat (c ∷ s) ≡ false
    → Found pat s o
    → Found pat (c ∷ s) (elim o [ none ↦ none | some n ↦ some (suc n) ])
Found-cons pat c s none missed (m, p) =
    ((subst (λ l. starts_with pat (c ∷ l) ≡ false) (sym (append-nil s)) missed, m), p)
Found-cons pat c s (some n) missed (before, f, m) =
    let shift : suc (n + length pat) ≡ suc n + length pat = omega arith in
    let splits : s ≡ before ++ (pat ++ drop (n + length pat) s) =
      f ∙ append_assoc before pat (drop (n + length pat) s) in
    subst
      (λ (k : ℕ).
        (b : Bytes) × (c ∷ s ≡ (b ++ pat) ++ drop k (c ∷ s)) × Missed pat b (pat ++ drop k (c ∷ s)))
      shift
      (c ∷ before, ap (◌∷◌ c) f, (subst (λ l. starts_with pat (c ∷ l) ≡ false) splits missed, m))

nonempty : (pat : Bytes) → starts_with pat [] ≡ false → 0 < length pat
unfolding starts_with
nonempty [] h = absurd (ground arith)
nonempty (p ∷ ps) h = omega arith

pub find-Found : (pat s : Bytes) → Found pat s (find pat s)
unfolding find
find-Found pat [] =
    if_cases (Found pat []) (starts_with pat []) (λ h. front-Found pat [] h)
      (λ h. (tt, nonempty pat h))
find-Found pat (c ∷ s) =
    if_cases (Found pat (c ∷ s)) (starts_with pat (c ∷ s)) (λ h. front-Found pat (c ∷ s) h)
      λ h. Found-cons pat c s (find pat s) h (find-Found pat s)
