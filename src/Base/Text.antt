-- ===== src/Base/Text.antt =====
-- Byte strings, and the searches of <string.h> over them.
use Prim.Native.Nat.{ℕ, ◌≤◌}
use Prim.Native.Char.{code}
use Prim.Native.String.{String}
use mathlib.Core.Path.{◌≡◌, refl}
use mathlib.Core.Logic.{◌≢◌}
use mathlib.Core.Bool.{Bool, true, false, ◌&&◌, ◌||◌}
use mathlib.Core.List.{List, [], ◌∷◌, ◌++◌, append_assoc}
use native.Mathlib.Omega.{arith}
use mstone.Base.Tests.{◌==◌, if◌then◌else◌}
use mstone.Base.Lists.{length, length-append}

abbrev pub Bytes : Type 0
Bytes = List ℕ

-- The bytes of an ASCII text.
abbrev pub codes : String → Bytes
codes String.[] = []
codes (String.◌∷◌ c s) = code c ∷ codes s

-- `strcmp (a, b) == 0`
unfoldable pub bytes_eq : Bytes → Bytes → Bool
bytes_eq [] [] = true
bytes_eq (x ∷ xs) (y ∷ ys) = x == y && bytes_eq xs ys
bytes_eq _ _ = false

-- `strncmp (s, pat, strlen (pat)) == 0`
unfoldable pub starts_with : Bytes → Bytes → Bool
starts_with [] s = true
starts_with (p ∷ ps) [] = false
starts_with (p ∷ ps) (c ∷ s) = p == c && starts_with ps s

-- `strstr (s, pat) != NULL`, on a string with no NUL
unfoldable pub contains : Bytes → Bytes → Bool
unfolding starts_with
contains pat [] = starts_with pat []
contains pat (c ∷ s) = starts_with pat (c ∷ s) || contains pat s

-- What a `char *` shows of a buffer: the bytes up to the first NUL.
unfoldable pub c_string : Bytes → Bytes
c_string [] = []
c_string (c ∷ s) = if c == 0 then [] else c ∷ c_string s

-- No byte is 0.
abbrev pub NoNul : Bytes → Type 0
NoNul [] = Unit {0}
NoNul (c ∷ s) = (c ≢ 0) × NoNul s

pub c_string-NoNul : (s : Bytes) → NoNul s → c_string s ≡ s
unfolding c_string
c_string-NoNul [] h = refl
c_string-NoNul (c ∷ s) h = ground (arith, c_string-NoNul s h.1)

pub NoNul-append : (s t : Bytes) → NoNul s → NoNul t → NoNul (s ++ t)
NoNul-append [] t h k = k
NoNul-append (c ∷ s) t h k = (h.0, NoNul-append s t h.1 k)

pub NoNul-left : (s t : Bytes) → NoNul (s ++ t) → NoNul s
NoNul-left [] t h = tt
NoNul-left (c ∷ s) t h = (h.0, NoNul-left s t h.1)

pub NoNul-right : (s t : Bytes) → NoNul (s ++ t) → NoNul t
NoNul-right [] t h = h
NoNul-right (c ∷ s) t h = NoNul-right s t h.1

-- A match that fits in front of `t` does not look at `t`.
pub starts_with-append :
    (pat s t : Bytes) → length pat ≤ length s → starts_with pat (s ++ t) ≡ starts_with pat s
unfolding starts_with
starts_with-append [] s t h = refl
starts_with-append (p ∷ ps) [] t h = absurd (omega arith)
starts_with-append (p ∷ ps) (c ∷ s) t h = ground (arith, starts_with-append ps s t (omega arith))

pub starts_with_mono :
    (pat s t : Bytes) → starts_with pat s ≡ true → starts_with pat (s ++ t) ≡ true
unfolding starts_with
starts_with_mono [] s t h = refl
starts_with_mono (p ∷ ps) [] t h = ground arith
starts_with_mono (p ∷ ps) (c ∷ s) t h = ground (arith, starts_with_mono ps s t)

-- A pattern that is not in `p ++ w` and is no longer than `w` is in `p ++ w ++ t` exactly if it is
-- in `w ++ t`: a window of the last bytes is all that a search has to keep.
pub contains_window :
    (pat p w t : Bytes)
    → length pat ≤ length w
    → contains pat (p ++ w) ≡ false
    → contains pat (p ++ (w ++ t)) ≡ contains pat (w ++ t)
unfolding contains
contains_window pat [] w t h k = refl
contains_window pat (c ∷ p) w t h k = ground (
  arith,
  starts_with-append pat (c ∷ (p ++ w)) t (omega (arith, h, length-append p w)),
  append_assoc p w t,
  contains_window pat p w t h,
)

contains-nil : (t : Bytes) → contains [] t ≡ true
unfolding contains
contains-nil [] = refl
contains-nil (c ∷ t) = refl

pub contains-append : (pat s t : Bytes) → contains pat s ≡ true → contains pat (s ++ t) ≡ true
unfolding contains
contains-append [] [] t h = contains-nil t
contains-append (p ∷ ps) [] t h = ground arith
contains-append pat (c ∷ s) t h =
    ground (arith, starts_with_mono pat (c ∷ s) t, contains-append pat s t)

-- What a suffix holds, the whole string holds.
pub contains_suffix : (pat s t : Bytes) → contains pat t ≡ true → contains pat (s ++ t) ≡ true
unfolding contains
contains_suffix pat [] t h = h
contains_suffix pat (c ∷ s) t h = ground (arith, contains_suffix pat s t h)

pub contains_prefix : (pat s : Bytes) → starts_with pat s ≡ true → contains pat s ≡ true
unfolding contains
contains_prefix pat [] h = h
contains_prefix pat (c ∷ s) h = ground arith

pub bytes_eq_refl : (s : Bytes) → bytes_eq s s ≡ true
unfolding bytes_eq
bytes_eq_refl [] = refl
bytes_eq_refl (c ∷ s) = ground (arith, bytes_eq_refl s)

pub bytes_eq→eq : (s t : Bytes) → bytes_eq s t ≡ true → s ≡ t
unfolding bytes_eq
bytes_eq→eq [] [] h = refl
bytes_eq→eq [] (d ∷ t) h = absurd (ground arith)
bytes_eq→eq (c ∷ s) [] h = absurd (ground arith)
bytes_eq→eq (c ∷ s) (d ∷ t) h = ground (arith, bytes_eq→eq s t)
