-- ===== src/Parse/Lines/Clean.antt =====
-- src/parse.c, `get_line_from_buffer`: what the searches in a line find, and where a line ends.

use mstone.Base.{
  ℕ, suc, ◌+◌, ◌<◌, ◌≡◌, ◌≢◌, refl, ap, inl, inr, ◌||◌, ◌==◌, if◌then◌else◌, [], ◌∷◌, ◌++◌, Option,
  none, some, Bytes, length, arith, Bool-cases, if_cases,
}
use mstone.Parse.Lines.{
  next_line, is_white, until_comment, keep_end, trim_end, trim_start, continued, useful,
}

abbrev pub NoNewline : Bytes → Type 0
NoNewline [] = Unit {0}
NoNewline (c ∷ s) = (c ≢ b'\n') × NoNewline s

-- the number of newlines
abbrev pub newlines : Bytes → ℕ
newlines [] = 0
newlines (c ∷ s) = let rest = newlines s in if c == b'\n' then suc rest else rest

-- the first line, and how the buffer goes on
pub record Cut (buffer text : Bytes) (next : Option Bytes) : Type 0 where
  pub clean : NoNewline text
  pub shorter : (rest : Bytes) → next ≡ some rest → buffer ≡ (text ++ (b'\n' ∷ [])) ++ rest

pub next_line-Cut : (buffer : Bytes) → Cut buffer (next_line buffer).0 (next_line buffer).1
unfolding next_line
next_line-Cut [] = record { clean = tt; shorter = λ rest h. ground arith }
next_line-Cut (c ∷ s) = elim (Bool-cases (c == b'\n')) [
  | inl newline ↦ rw newline (record { clean = tt; shorter = λ rest h. ground arith })
  | inr other ↦ rw other (record {
    clean = (λ e. ground arith, (next_line-Cut s).clean);
    shorter = λ rest h. ap (◌∷◌ c) ((next_line-Cut s).shorter rest h);
  })
]

pub until_comment_clean : (s : Bytes) → NoNewline s → NoNewline (until_comment s)
unfolding until_comment
until_comment_clean [] h = tt
until_comment_clean (c ∷ s) h =
    if_cases NoNewline (c == b'#' || c == b'\r') (λ stop. tt) λ go. (h.0, until_comment_clean s h.1)

pub keep_end_clean : (c : ℕ) (s : Bytes) → c ≢ b'\n' → NoNewline s → NoNewline (keep_end c s)
unfolding keep_end
keep_end_clean c [] h k = if_cases NoNewline (is_white c) (λ w. tt) λ b. (h, tt)
keep_end_clean c (d ∷ t) h k = (h, k)

pub trim_end_clean : (s : Bytes) → NoNewline s → NoNewline (trim_end s)
unfolding trim_end
trim_end_clean [] h = tt
trim_end_clean (c ∷ s) h = keep_end_clean c (trim_end s) h.0 (trim_end_clean s h.1)

pub trim_start_clean : (s : Bytes) → NoNewline s → NoNewline (trim_start s)
unfolding trim_start
trim_start_clean [] h = tt
trim_start_clean (c ∷ s) h = if_cases NoNewline (is_white c) (λ w. trim_start_clean s h.1) λ b. h

pub useful_clean : (text : Bytes) → NoNewline text → NoNewline (useful text)
unfolding useful
useful_clean text h =
    trim_start_clean (trim_end (until_comment text))
      (trim_end_clean (until_comment text) (until_comment_clean text h))

pub NoNewline-append : (s t : Bytes) → NoNewline s → NoNewline t → NoNewline (s ++ t)
NoNewline-append [] t h k = k
NoNewline-append (c ∷ s) t h k = (h.0, NoNewline-append s t h.1 k)

pub newlines-append : (s t : Bytes) → newlines (s ++ t) ≡ newlines s + newlines t
newlines-append [] t = omega arith
newlines-append (c ∷ s) t = ground (arith, newlines-append s t)

pub NoNewline-newlines : (s : Bytes) → NoNewline s → newlines s ≡ 0
NoNewline-newlines [] h = refl
NoNewline-newlines (c ∷ s) h = ground (arith, NoNewline-newlines s h.1)

abbrev pub FrontClean : Option Bytes → Type 0
FrontClean none = Unit {0}
FrontClean (some front) = NoNewline front

pub FrontClean-cons :
    (c : ℕ) (o : Option Bytes)
    → c ≢ b'\n'
    → FrontClean o
    → FrontClean (elim o [ none ↦ none | some t ↦ some (c ∷ t) ])
FrontClean-cons c none h k = tt
FrontClean-cons c (some t) h k = (h, k)

pub continued-FrontClean : (s : Bytes) → NoNewline s → FrontClean (continued s)
unfolding continued
continued-FrontClean [] h = tt
continued-FrontClean (c ∷ []) h = if_cases FrontClean (c == b'\\') (λ b. tt) λ o. tt
continued-FrontClean (c ∷ d ∷ s) h =
    FrontClean-cons c (continued (d ∷ s)) h.0 (continued-FrontClean (d ∷ s) h.1)

pub continued_behind :
    (front line : Bytes)
    → 0 < length line
    → continued line ≡ none
    → continued (front ++ line) ≡ none
unfolding continued
continued_behind [] line p h = h
continued_behind (c ∷ []) [] p h = absurd (omega arith)
continued_behind (c ∷ []) (d ∷ t) p h = rw h refl
continued_behind (c ∷ d ∷ s) line p h = rw (continued_behind (d ∷ s) line p h) refl
