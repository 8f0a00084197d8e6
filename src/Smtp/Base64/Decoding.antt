-- ===== src/Smtp/Base64/Decoding.antt =====
-- src/smtp.c: what str_to_base64 leaves decodes to the bytes, as RFC 4648 has it.
use mstone.Base.{
  ℕ, ◌+◌, ◌-◌, ◌*◌, ◌/◌, ◌%◌, ◌≤◌, ◌<◌, ◌≡◌, refl, [], ◌∷◌, Option, none, some, arith, leb, ◌==◌,
  if◌then◌else◌, if_cases, length, u32_mod, Bytes, false,
}
use mstone.Smtp.Base64.{
  basis_64, char1, char2, char3, char4, less, put4, groups, closed, str_to_base64,
}

-- RFC 4648: the value of a character, and the bytes of a text.
pub value : ℕ → ℕ
value c =
    if leb b'a' c
    then c - b'a' + 26
    else if leb b'A' c
    then c - b'A'
    else if leb b'0' c
    then c - b'0' + 52
    else if c == b'+'
    then 62
    else 63

join3 : ℕ → ℕ → ℕ → Option Bytes → Option Bytes
join3 a b c none = none
join3 a b c (some s) = some (a ∷ b ∷ c ∷ s)

only_end : Bytes → Bytes → Option Bytes
only_end s [] = some s
only_end s (c ∷ t) = none

pub decode : Bytes → Option Bytes
unfolding value join3 only_end
decode [] = some []
decode (w ∷ x ∷ y ∷ z ∷ t) =
    let rest = decode t in
    if z == b'='
    then if y == b'='
      then only_end ((value w * 4 + value x / 16) ∷ []) t
      else only_end ((value w * 4 + value x / 16) ∷ (value x % 16 * 16 + value y / 4) ∷ []) t
    else join3 (value w * 4 + value x / 16) (value x % 16 * 16 + value y / 4)
        (value y % 4 * 64 + value z) rest
decode _ = none

abbrev pub AreBytes : Bytes → Type 0
AreBytes [] = Unit {0}
AreBytes (c ∷ s) = (c < 256) × AreBytes s

value-basis_64 : (i : ℕ) → i < 64 → value (basis_64 i) ≡ i
unfolding value basis_64
value-basis_64 i h = ground (arith, h)

basis_64_other : (i : ℕ) → i < 64 → (basis_64 i == b'=') ≡ false
unfolding basis_64
basis_64_other i h = ground (arith, h)

first_byte : (a b : ℕ) → b < 256 → a / 4 * 4 + (a % 4 * 16 + b / 16) / 16 ≡ a
first_byte a b h = omega (arith, h)

second_byte :
    (a b c : ℕ)
    → b < 256
    → c < 256
    → (a % 4 * 16 + b / 16) % 16 * 16 + (b % 16 * 4 + c / 64) / 4 ≡ b
second_byte a b c h k = omega (arith, h, k)

third_byte : (b c : ℕ) → c < 256 → (b % 16 * 4 + c / 64) % 4 * 64 + c % 64 ≡ c
third_byte b c h = omega (arith, h)

-- The values that the four characters stand for.
value1 : (c1 : ℕ) → c1 < 256 → value (char1 c1) ≡ c1 / 4
unfolding char1
value1 c1 h = value-basis_64 (c1 / 4) (omega (arith, h))

value2 : (c1 c2 : ℕ) → c2 < 256 → value (char2 c1 c2) ≡ c1 % 4 * 16 + c2 / 16
unfolding char2
value2 c1 c2 h = value-basis_64 (c1 % 4 * 16 + c2 / 16) (omega (arith, h))

value3 : (c2 c3 : ℕ) → c3 < 256 → value (char3 c2 c3) ≡ c2 % 16 * 4 + c3 / 64
unfolding char3
value3 c2 c3 h = value-basis_64 (c2 % 16 * 4 + c3 / 64) (omega (arith, h))

value4 : (c3 : ℕ) → value (char4 c3) ≡ c3 % 64
unfolding char4
value4 c3 = value-basis_64 (c3 % 64) (omega arith)

char3_other : (c2 c3 : ℕ) → c3 < 256 → (char3 c2 c3 == b'=') ≡ false
unfolding char3
char3_other c2 c3 h = basis_64_other (c2 % 16 * 4 + c3 / 64) (omega (arith, h))

char4_other : (c3 : ℕ) → (char4 c3 == b'=') ≡ false
unfolding char4
char4_other c3 = basis_64_other (c3 % 64) (omega arith)

-- What is written decodes to the bytes.
abbrev Decodes : Bytes → Option Bytes → Type 0
Decodes s none = Unit
Decodes s (some t) = decode t ≡ some s

put4-Decodes :
    (c1 c2 c3 : ℕ) (s : Bytes) (o : Option Bytes)
    → c1 < 256
    → c2 < 256
    → c3 < 256
    → Decodes s o
    → Decodes (c1 ∷ c2 ∷ c3 ∷ s) (put4 (char1 c1) (char2 c1 c2) (char3 c2 c3) (char4 c3) o)
unfolding put4 decode
put4-Decodes c1 c2 c3 s none h1 h2 h3 d = tt
put4-Decodes c1 c2 c3 s (some t) h1 h2 h3 d = rw (
  char4_other c3,
  d,
  value1 c1 h1,
  value2 c1 c2 h2,
  value3 c2 c3 h3,
  value4 c3,
  first_byte c1 c2 h2,
  second_byte c1 c2 c3 h2 h3,
  third_byte c2 c3 h3,
)

groups-Decodes : (buflen bufused : ℕ) (s : Bytes) → AreBytes s → Decodes s (groups buflen bufused s)
unfolding groups decode
groups-Decodes buflen bufused [] h = refl
groups-Decodes buflen bufused (c1 ∷ []) h =
    if_cases (Decodes (c1 ∷ [])) (leb (less buflen 4) bufused) (λ full. tt)
      (λ room. rw (value1 c1 h.0, value2 c1 0 (omega arith), first_byte c1 0 (omega arith)))
groups-Decodes buflen bufused (c1 ∷ c2 ∷ []) h =
    if_cases (Decodes (c1 ∷ c2 ∷ [])) (leb (less buflen 4) bufused) (λ full. tt)
      (λ room. rw (
        char3_other c2 0 (omega arith),
        value1 c1 h.0,
        value2 c1 c2 h.1.0,
        value3 c2 0 (omega arith),
        first_byte c1 c2 h.1.0,
        second_byte c1 c2 0 h.1.0 (omega arith),
      ))
groups-Decodes buflen bufused (c1 ∷ c2 ∷ c3 ∷ s) h =
    if_cases (Decodes (c1 ∷ c2 ∷ c3 ∷ s)) (leb (less buflen 4) bufused) (λ full. tt)
      (λ room.
        put4-Decodes c1 c2 c3 s (groups buflen (bufused + 4) s) h.0 h.1.0 h.1.1.0
          (groups-Decodes buflen (bufused + 4) s h.1.1.1))

-- The length of the text for so many bytes.
abbrev pub encoded_length : ℕ → ℕ
encoded_length n = (n + 2) / 3 * 4

-- What is written has that length, or there was no room for it.
abbrev Fits : ℕ → ℕ → Bytes → Option Bytes → Type 0
Fits buflen bufused s none = buflen ≤ bufused + encoded_length (length s)
Fits buflen bufused s (some t) = length t ≡ encoded_length (length s)

put4-Fits :
    (buflen bufused a b c d c1 c2 c3 : ℕ) (s : Bytes) (o : Option Bytes)
    → Fits buflen (bufused + 4) s o
    → Fits buflen bufused (c1 ∷ c2 ∷ c3 ∷ s) (put4 a b c d o)
unfolding put4
put4-Fits buflen bufused a b c d c1 c2 c3 s none h = omega (arith, h)
put4-Fits buflen bufused a b c d c1 c2 c3 s (some t) h = omega (arith, h)

groups-Fits :
    (buflen bufused : ℕ) (s : Bytes)
    → 4 ≤ buflen
    → buflen < u32_mod
    → Fits buflen bufused s (groups buflen bufused s)
unfolding groups less
groups-Fits buflen bufused [] big small = omega arith
groups-Fits buflen bufused (c1 ∷ []) big small =
    if_cases (Fits buflen bufused (c1 ∷ [])) (leb (less buflen 4) bufused)
      (λ full. ground (arith, big, small)) (λ room. omega arith)
groups-Fits buflen bufused (c1 ∷ c2 ∷ []) big small =
    if_cases (Fits buflen bufused (c1 ∷ c2 ∷ [])) (leb (less buflen 4) bufused)
      (λ full. ground (arith, big, small)) (λ room. omega arith)
groups-Fits buflen bufused (c1 ∷ c2 ∷ c3 ∷ s) big small =
    if_cases (Fits buflen bufused (c1 ∷ c2 ∷ c3 ∷ s)) (leb (less buflen 4) bufused)
      (λ full. ground (arith, big, small))
      (λ room.
        put4-Fits buflen bufused (char1 c1) (char2 c1 c2) (char3 c2 c3) (char4 c3) c1 c2 c3 s
          (groups buflen (bufused + 4) s) (groups-Fits buflen (bufused + 4) s big small))

-- What `str_to_base64` returns: a text that decodes to the bytes, has the length for them and leaves
-- three bytes of the buffer, or -1 if that length does not leave as many.
abbrev pub Encodes : Bytes → ℕ → Option Bytes → Type 0
Encodes s buflen none = buflen ≤ encoded_length (length s) + 2
Encodes s buflen (some t) =
    (decode t ≡ some s) × (length t ≡ encoded_length (length s)) × (length t + 2 < buflen)

closed-Encodes :
    (buflen : ℕ) (s : Bytes) (o : Option Bytes)
    → 4 ≤ buflen
    → buflen < u32_mod
    → Decodes s o
    → Fits buflen 0 s o
    → Encodes s buflen (closed buflen o)
unfolding closed less
closed-Encodes buflen s none big small d f = omega (arith, f)
closed-Encodes buflen s (some t) big small d f =
    if_cases (Encodes s buflen) (leb (less buflen 2) (length t))
      (λ full. ground (arith, big, small, f)) (λ room. (d, f, ground (arith, big, small)))

-- For bytes and a buffer of at least 4 bytes, whose size fits into an unsigned int: str_to_base64
-- leaves a text that RFC 4648 decodes to the bytes, four characters for each three of them, and
-- that leaves at least three bytes of the buffer, and it returns -1 exactly when that length does
-- not leave as many.
pub str_to_base64-Encodes :
    (str : Bytes) (buflen : ℕ)
    → AreBytes str
    → 4 ≤ buflen
    → buflen < u32_mod
    → Encodes str buflen (str_to_base64 str buflen)
unfolding str_to_base64
str_to_base64-Encodes str buflen bytes big small =
    closed-Encodes buflen str (groups buflen 0 str) big small (groups-Decodes buflen 0 str bytes)
      (groups-Fits buflen 0 str big small)
