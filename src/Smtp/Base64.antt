-- ===== src/Smtp/Base64.antt =====
-- src/smtp.c: str_to_base64, with which the client encodes user names and passwords.
pub mod Decoding
use mstone.Base.{
  ℕ, ◌+◌, ◌-◌, ◌*◌, ◌/◌, ◌%◌, ◌≤◌, ◌<◌, ◌≡◌, refl, [], ◌∷◌, Option, none, some, arith, ltb, leb,
  ◌==◌, if◌then◌else◌, if_cases, length, u32_mod, Bytes, false,
}

-- `basis_64[i]`
pub basis_64 : ℕ → ℕ
basis_64 i =
    if ltb i 26
    then b'A' + i
    else if ltb i 52
    then b'a' + (i - 26)
    else if ltb i 62
    then b'0' + (i - 52)
    else if i == 62
    then b'+'
    else b'/'

-- the four characters of a group of three bytes, from the shifts and masks of the code
pub char1 : ℕ → ℕ
unfolding basis_64
char1 c1 = basis_64 (c1 / 4)

pub char2 : ℕ → ℕ → ℕ
unfolding basis_64
char2 c1 c2 = basis_64 (c1 % 4 * 16 + c2 / 16)

pub char3 : ℕ → ℕ → ℕ
unfolding basis_64
char3 c2 c3 = basis_64 (c2 % 16 * 4 + c3 / 64)

pub char4 : ℕ → ℕ
unfolding basis_64
char4 c3 = basis_64 (c3 % 64)

-- unsigned subtraction of a smaller constant
pub less : ℕ → ℕ → ℕ
less buflen k = (buflen + (u32_mod - k)) % u32_mod

pub put4 : ℕ → ℕ → ℕ → ℕ → Option Bytes → Option Bytes
put4 a b c d none = none
put4 a b c d (some t) = some (a ∷ b ∷ c ∷ d ∷ t)

-- `while (len)`: what the passes write behind the `bufused` bytes there are
pub groups : ℕ → ℕ → Bytes → Option Bytes
unfolding char1 char2 char3 char4 less put4
groups buflen bufused [] = some []
groups buflen bufused (c1 ∷ []) =
    if leb (less buflen 4) bufused then none else some (char1 c1 ∷ char2 c1 0 ∷ b'=' ∷ b'=' ∷ [])
groups buflen bufused (c1 ∷ c2 ∷ []) =
    if leb (less buflen 4) bufused
    then none
    else some (char1 c1 ∷ char2 c1 c2 ∷ char3 c2 0 ∷ b'=' ∷ [])
groups buflen bufused (c1 ∷ c2 ∷ c3 ∷ str) =
    let rest = groups buflen (bufused + 4) str in
    if leb (less buflen 4) bufused
    then none
    else put4 (char1 c1) (char2 c1 c2) (char3 c2 c3) (char4 c3) rest

-- the room for the NUL
pub closed : ℕ → Option Bytes → Option Bytes
unfolding less
closed buflen none = none
closed buflen (some t) = if leb (less buflen 2) (length t) then none else some t

-- `str_to_base64`: the text that it leaves in the buffer, or `none` for -1
unfoldable pub str_to_base64 : Bytes → ℕ → Option Bytes
unfolding groups closed
str_to_base64 str buflen = closed buflen (groups buflen 0 str)
