-- ===== src/Pop3/Stat.antt =====
-- src/pop3.c: the numbers that a session prints with `%d` and reads with `sscanf`.
use mstone.Base.{
  ℕ, zero, suc, ◌+◌, ◌-◌, ◌*◌, ◌%◌, ◌/◌, Bool, ◌&&◌, [], ◌∷◌, ◌++◌, ltb, leb, ◌==◌, if◌then◌else◌,
  ℤ, pos, neg, Bytes, codes, starts_with, drop,
}
use mstone.Parse.Units.{is_space}

digits : ℕ → ℕ → Bytes
digits zero n = []
digits (suc fuel) n =
    let front = digits fuel (n / 10) in
    if ltb n 10 then (b'0' + n) ∷ [] else front ++ ((b'0' + n % 10) ∷ [])

-- `%d` of a number that is not negative: it has no more digits than its size and one
unfoldable pub decimal : ℕ → Bytes
unfolding digits
decimal n = digits (suc n) n

-- What a `%d` finds: the end of the input, something else, or a number and what follows it.
pub data Scanned : Type 0 where
  at_end mismatch : Scanned
  number : ℤ → Bytes → Scanned

is_digit : ℕ → Bool
is_digit c = leb b'0' c && leb c b'9'

-- the digits of a number, with its value so far
more_digits : (ℕ → ℤ) → ℕ → Bytes → Scanned
unfolding is_digit
more_digits sign value [] = number (sign value) []
more_digits sign value (c ∷ s) =
    let rest = more_digits sign (value * 10 + (c - b'0')) s in
    if is_digit c then rest else number (sign value) (c ∷ s)

-- at least one digit
some_digits : (ℕ → ℤ) → Bytes → Scanned
unfolding more_digits
some_digits sign [] = mismatch
some_digits sign (c ∷ s) = if is_digit c then more_digits sign (c - b'0') s else mismatch

signed : ℕ → Bytes → Scanned
unfolding some_digits
signed c s =
    if c == b'-'
    then some_digits (λ n. neg (pos n)) s
    else if c == b'+'
    then some_digits (λ n. pos n) s
    else some_digits (λ n. pos n) (c ∷ s)

-- `%d`, which skips white space
pub scan_int : Bytes → Scanned
unfolding signed
scan_int [] = at_end
scan_int (c ∷ s) = let rest = scan_int s in if is_space c then rest else signed c s

-- What `sscanf (s, "+OK %d %d", &numMsgs, &totalMsgLength)` returns is 0 for `no_match`, EOF for
-- `end_of_input`, and 1 or 2 for the numbers it has stored.
pub data Matches : Type 0 where
  no_match end_of_input : Matches
  one : ℤ → Matches
  two : ℤ → ℤ → Matches

second_match : ℤ → Scanned → Matches
second_match n at_end = one n
second_match n mismatch = one n
second_match n (number m s) = two n m

first_match : Scanned → Matches
unfolding second_match
first_match at_end = end_of_input
first_match mismatch = no_match
first_match (number n s) = second_match n (scan_int s)

unfoldable pub scan_stat : Bytes → Matches
unfolding first_match scan_int
scan_stat s = if starts_with (codes "+OK") s then first_match (scan_int (drop 3 s)) else no_match
