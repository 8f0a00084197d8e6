-- ===== src/Parse/Unquote.antt =====
-- src/parse.c, `string_unquote` and `string_tolower`. The replacement of quoted characters runs in
-- place; here it is a machine that takes one character at a time and puts out what is written.
use mstone.Base.{
  ℕ, ◌+◌, ◌-◌, ◌*◌, ◌/◌, ◌%◌, ◌≤◌, ◌<◌, ◌≡◌, refl, ap, ◌∙◌, Bool, true, ◌&&◌, ◌==◌, leb,
  if◌then◌else◌, [], ◌∷◌, ◌++◌, Bytes, length, length-append, arith,
}

-- Where the loop stands: at a plain character, behind a backslash, or behind one or two digits of a
-- decimal code, with the number so far.
pub data State : Type 0 where
  plain slash : State
  one two : ℕ → State

-- `IS_NUM`
abbrev pub is_num : ℕ → Bool
is_num c = leb b'0' c && leb c b'9'

-- a number as a `char`
abbrev pub char : ℕ → ℕ
char n = n % 256

-- at a plain character
pub plain_step : ℕ → Bytes × State
plain_step c = if c == b'\\' then ([], slash) else (c ∷ [], plain)

-- the `switch` behind a backslash
pub quoted : ℕ → ℕ
quoted c = if c == b'n' then b'\n' else if c == b'r' then b'\r' else if c == b't' then b'\t' else c

pub step : State → ℕ → Bytes × State
unfolding plain_step quoted
step plain c = plain_step c
step slash c = if is_num c then ([], one (c - b'0')) else (quoted c ∷ [], plain)
step (one n) c =
    if is_num c
    then ([], two (n * 10 + (c - b'0')))
    else (char n ∷ (plain_step c).0, (plain_step c).1)
step (two n) c =
    if is_num c
    then (char (n * 10 + (c - b'0')) ∷ [], plain)
    else (char n ∷ (plain_step c).0, (plain_step c).1)

-- what is written when the string ends
pub flush : State → Bytes
flush plain = []
flush slash = []
flush (one n) = char n ∷ []
flush (two n) = char n ∷ []

-- the loop of `string_unquote`
pub replace : State → Bytes → Bytes
unfolding step flush
replace st [] = flush st
replace st (c ∷ s) = (step st c).0 ++ replace (step st c).1 s

-- the last character, or 0
pub last : Bytes → ℕ
last [] = 0
last (c ∷ []) = c
last (c ∷ d ∷ s) = last (d ∷ s)

-- all but the last character
pub drop_last : Bytes → Bytes
drop_last [] = []
drop_last (c ∷ []) = []
drop_last (c ∷ d ∷ s) = c ∷ drop_last (d ∷ s)

-- matching double quotes are removed
pub strip : Bytes → Bytes
unfolding last drop_last
strip [] = []
strip (c ∷ s) = if c == b'"' && last (c ∷ s) == b'"' then drop_last s else c ∷ s

pub string_unquote : Bytes → Bytes
string_unquote string = replace plain (strip string)

-- A byte as a decimal code, and a text quoted with such codes.
abbrev pub encode : ℕ → Bytes
encode c = b'\\' ∷ (b'0' + c / 100) ∷ (b'0' + c / 10 % 10) ∷ (b'0' + c % 10) ∷ []

abbrev pub encode_all : Bytes → Bytes
encode_all [] = []
encode_all (c ∷ s) = encode c ++ encode_all s

abbrev pub AreBytes : Bytes → Type 0
AreBytes [] = Unit {0}
AreBytes (c ∷ s) = (c < 256) × AreBytes s

pub digit : (d : ℕ) → d < 10 → is_num (b'0' + d) ≡ true
digit d h = ground arith

replace-encode : (c : ℕ) (s : Bytes) → c < 256 → replace plain (encode c ++ s) ≡ c ∷ replace plain s
unfolding replace step plain_step
replace-encode c s h =
    rw
      (
        digit (c / 100) (omega arith),
        digit (c / 10 % 10) (omega arith),
        digit (c % 10) (omega arith),
      )
      (ap (λ (n : ℕ). n ∷ replace plain s) (omega arith))

replace-encode_all : (s : Bytes) → AreBytes s → replace plain (encode_all s) ≡ s
unfolding replace
replace-encode_all [] h = refl
replace-encode_all (c ∷ s) h =
    replace-encode c (encode_all s) h.0 ∙ ap (◌∷◌ c) (replace-encode_all s h.1)

pub last-append : (s : Bytes) (c : ℕ) → last (s ++ (c ∷ [])) ≡ c
unfolding last
last-append [] c = refl
last-append (d ∷ []) c = refl
last-append (d ∷ e ∷ s) c = last-append (e ∷ s) c

drop_last-append : (s : Bytes) (c : ℕ) → drop_last (s ++ (c ∷ [])) ≡ s
unfolding drop_last
drop_last-append [] c = refl
drop_last-append (d ∷ []) c = refl
drop_last-append (d ∷ e ∷ s) c = ap (◌∷◌ d) (drop_last-append (e ∷ s) c)

strip-quotes : (s : Bytes) → strip (b'"' ∷ (s ++ (b'"' ∷ []))) ≡ s
unfolding strip
strip-quotes s = rw (last-append (b'"' ∷ s) b'"') (drop_last-append s b'"')

-- Every text of bytes can be written in a command file: between double quotes, each byte as a
-- backslash with its three digits, `string_unquote` gives the text back.
pub string_unquote-encode_all :
    (s : Bytes) → AreBytes s → string_unquote (b'"' ∷ (encode_all s ++ (b'"' ∷ []))) ≡ s
unfolding string_unquote
string_unquote-encode_all s h = rw (strip-quotes (encode_all s)) (replace-encode_all s h)

-- what a state can still write for characters that were read
abbrev owed : State → ℕ
owed plain = 0
owed slash = 1
owed (one n) = 2
owed (two n) = 3

step_owes : (st : State) (c : ℕ) → length (step st c).0 + owed (step st c).1 ≤ owed st + 1
unfolding step plain_step quoted
step_owes plain c = ground arith
step_owes slash c = ground arith
step_owes (one n) c = ground arith
step_owes (two n) c = ground arith

replace_shorter : (st : State) (s : Bytes) → length (replace st s) ≤ owed st + length s
unfolding replace flush
replace_shorter plain [] = omega arith
replace_shorter slash [] = omega arith
replace_shorter (one n) [] = omega arith
replace_shorter (two n) [] = omega arith
replace_shorter st (c ∷ s) = omega (
  arith,
  step_owes st c,
  replace_shorter (step st c).1 s,
  length-append (step st c).0 (replace (step st c).1 s),
)

drop_last_shorter : (s : Bytes) → length (drop_last s) ≤ length s
unfolding drop_last
drop_last_shorter [] = omega arith
drop_last_shorter (c ∷ []) = omega arith
drop_last_shorter (c ∷ d ∷ s) = omega (arith, drop_last_shorter (d ∷ s))

strip_shorter : (s : Bytes) → length (strip s) ≤ length s
unfolding strip
strip_shorter [] = omega arith
strip_shorter (c ∷ s) = ground (arith, drop_last_shorter s)

-- The text that `string_unquote` writes over the string is never longer than the string, so the
-- place to write stays inside it.
pub length-string_unquote : (s : Bytes) → length (string_unquote s) ≤ length s
unfolding string_unquote
length-string_unquote s = omega (arith, replace_shorter plain (strip s), strip_shorter s)
