-- ===== src/Parse/Units.antt =====
-- src/parse.c, `time_atoi` and `millitime_atoi`: times with a unit. `atoi` is that of the C library,
-- which reads white space, a sign and digits; an `int` wraps.
use native.Mathlib.Nat.{add-mul, mul_assoc, pow-succ'}
use mstone.Base.{
  ℕ, suc, ◌+◌, ◌-◌, ◌*◌, ◌%◌, ◌^◌, ◌<◌, ◌≡◌, refl, ap, ◌∙◌, Bool, false, ◌&&◌, ◌||◌, ◌==◌, leb,
  if◌then◌else◌, List, [], ◌∷◌, ◌++◌, Bytes, length, arith, ℤ, pos, negsuc, neg, int_of, u32_mod,
}
use mstone.Parse.Unquote.{is_num, last, digit, last-append}

-- `isspace`
abbrev pub is_space : ℕ → Bool
is_space c = c == b' ' || leb 9 c && leb c 13

-- the digits at the start of a string
pub digits_value : ℕ → Bytes → ℕ
digits_value n [] = n
digits_value n (c ∷ s) =
    let rest = digits_value (n * 10 + (c - b'0')) s in if is_num c then rest else n

-- `atoi`
pub signed_value : Bytes → ℤ
unfolding digits_value
signed_value [] = pos 0
signed_value (c ∷ s) =
    if c == b'-'
    then neg (pos (digits_value 0 s))
    else if c == b'+'
    then pos (digits_value 0 s)
    else pos (digits_value 0 (c ∷ s))

pub atoi : Bytes → ℤ
unfolding signed_value
atoi [] = pos 0
atoi (c ∷ s) = let rest = atoi s in if is_space c then rest else signed_value (c ∷ s)

-- the product of a constant and an `int`
pub times : ℕ → ℤ → ℤ
times k (pos n) = int_of (k * n)
times k (negsuc n) = int_of (u32_mod - k * (n + 1) % u32_mod)

-- the `switch` of `time_atoi` on the last character
pub seconds_in : ℕ → ℕ
seconds_in c =
    if c == b'd' || c == b'D'
    then 24 * 60 * 60
    else if c == b'h' || c == b'H'
    then 60 * 60
    else if c == b'm' || c == b'M'
    then 60
    else 1

-- `time_atoi`
pub time_atoi : Bytes → ℤ
unfolding seconds_in atoi times
time_atoi [] = pos 0
time_atoi (c ∷ s) = times (seconds_in (last (c ∷ s))) (atoi (c ∷ s))

-- the `switch` of `millitime_atoi`
pub millis_in : ℕ → ℕ
millis_in c =
    if c == b'd' || c == b'D'
    then 24 * 60 * 60 * 1000
    else if c == b'h' || c == b'H'
    then 60 * 60 * 1000
    else if c == b'm' || c == b'M'
    then 60 * 1000
    else if c == b's' || c == b'S'
    then 1000
    else 1

-- `millitime_atoi`
pub millitime_atoi : Bytes → ℤ
unfolding millis_in atoi times
millitime_atoi [] = pos 0
millitime_atoi (c ∷ s) = times (millis_in (last (c ∷ s))) (atoi (c ∷ s))

-- The units and the seconds in each.
pub data IsUnit : ℕ → ℕ → Type 0 where
  days : IsUnit b'd' 86400
  days_capital : IsUnit b'D' 86400
  hours : IsUnit b'h' 3600
  hours_capital : IsUnit b'H' 3600
  minutes : IsUnit b'm' 60
  minutes_capital : IsUnit b'M' 60
  seconds : IsUnit b's' 1
  seconds_capital : IsUnit b'S' 1

-- A decimal numeral, its digits as numbers, and the value of it.
abbrev pub AreDigits : List ℕ → Type 0
AreDigits [] = Unit {0}
AreDigits (d ∷ ds) = (d < 10) × AreDigits ds

abbrev pub numeral : List ℕ → Bytes
numeral [] = []
numeral (d ∷ ds) = (b'0' + d) ∷ numeral ds

abbrev pub value : List ℕ → ℕ
value [] = 0
value (d ∷ ds) = d * 10 ^ length ds + value ds

unit_facts :
    {u k : ℕ} → IsUnit u k → (is_num u ≡ false) × (seconds_in u ≡ k) × (millis_in u ≡ k * 1000)
unfolding seconds_in millis_in
unit_facts days = (refl, refl, refl)
unit_facts days_capital = (refl, refl, refl)
unit_facts hours = (refl, refl, refl)
unit_facts hours_capital = (refl, refl, refl)
unit_facts minutes = (refl, refl, refl)
unit_facts minutes_capital = (refl, refl, refl)
unit_facts seconds = (refl, refl, refl)
unit_facts seconds_capital = (refl, refl, refl)

shift_lem : (n d v k : ℕ) → (n * 10 + d) * 10 ^ k + v ≡ n * 10 ^ suc k + (d * 10 ^ k + v)
shift_lem n d v k = omega (
  arith,
  add-mul (n * 10) d (10 ^ k),
  mul_assoc n 10 (10 ^ k),
  ap (λ (p : ℕ). n * p) (pow-succ' 10 k),
)

digits_value-numeral :
    (n : ℕ) (ds : List ℕ) (u : ℕ)
    → AreDigits ds
    → is_num u ≡ false
    → digits_value n (numeral ds ++ (u ∷ [])) ≡ n * 10 ^ length ds + value ds
unfolding digits_value
digits_value-numeral n [] u h k = rw k (omega arith)
digits_value-numeral n (d ∷ ds) u h k = rw (digit d h.0) (
    ap (λ (m : ℕ). digits_value m (numeral ds ++ (u ∷ []))) (omega arith)
    ∙ digits_value-numeral (n * 10 + d) ds u h.1 k
    ∙ shift_lem n d (value ds) (length ds))

last-numeral : (ds : List ℕ) (u : ℕ) → last (numeral ds ++ (u ∷ [])) ≡ u
last-numeral ds u = last-append (numeral ds) u

starting :
    (d : ℕ) (skipped : ℤ) (signed unsigned : ℕ)
    → d < 10
    → (if is_space (b'0' + d)
        then skipped
        else if b'0' + d == b'-'
        then neg (pos signed)
        else if b'0' + d == b'+'
        then pos signed
        else pos unsigned)
      ≡ pos unsigned
starting d skipped signed unsigned h = ground arith

atoi-numeral :
    (d : ℕ) (ds : List ℕ) (u : ℕ)
    → AreDigits (d ∷ ds)
    → is_num u ≡ false
    → atoi (numeral (d ∷ ds) ++ (u ∷ [])) ≡ pos (value (d ∷ ds))
unfolding atoi signed_value
atoi-numeral d ds u h k =
    starting d (atoi (numeral ds ++ (u ∷ []))) (digits_value 0 (numeral ds ++ (u ∷ [])))
      (digits_value 0 (numeral (d ∷ ds) ++ (u ∷ []))) h.0
    ∙ ap pos (digits_value-numeral 0 (d ∷ ds) u h k ∙ omega arith)

times_small : (k n : ℕ) → k * n < 2 ^ 31 → times k (pos n) ≡ pos (k * n)
unfolding times
times_small k n h = ground arith

-- A decimal numeral with a unit behind it: `time_atoi` gives the number of seconds and
-- `millitime_atoi` the number of milliseconds, as long as that fits into an `int`.
pub time_atoi-numeral :
    (d : ℕ) (ds : List ℕ) (u k : ℕ)
    → AreDigits (d ∷ ds)
    → IsUnit u k
    → k * 1000 * value (d ∷ ds) < 2 ^ 31
    → (time_atoi (numeral (d ∷ ds) ++ (u ∷ [])) ≡ pos (k * value (d ∷ ds)))
      × (millitime_atoi (numeral (d ∷ ds) ++ (u ∷ [])) ≡ pos (k * 1000 * value (d ∷ ds)))
unfolding time_atoi millitime_atoi
time_atoi-numeral d ds u k h unit small =
    let (not_digit, seconds_is, millis_is) = unit_facts unit in
    (
      rw (last-numeral (d ∷ ds) u, atoi-numeral d ds u h not_digit, seconds_is)
          (times_small k (value (d ∷ ds)) (omega (arith, small))),
      rw (last-numeral (d ∷ ds) u, atoi-numeral d ds u h not_digit, millis_is)
          (times_small (k * 1000) (value (d ∷ ds)) small),
    )
