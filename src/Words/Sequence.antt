-- ===== src/Words/Sequence.antt =====
-- `WordSequence` fills its buffer and stays inside it.
use mstone.Base.{
  ℕ, zero, suc, ◌+◌, ◌-◌, ◌%◌, ◌≤◌, ◌<◌, ◌≡◌, refl, false, not, ◌&&◌, ◌||◌, ◌==◌, ltb, leb, List,
  [], ◌∷◌, ◌++◌, min, Option, none, some, ℤ, Bytes, length, length-append, get_elem?, inl, inr,
  if_cases, Option-cases, arith,
}
use mstone.Words.{
  Word, Words, entry, try_words, word_random, Filling, filled, crashed, aborted, out_of_fuel,
  Progress, decrement, is_none_left, separator, use_word, fill, max_separators, word_sequence,
}

-- No entry was deleted, and no word is empty.
abbrev pub AllLive : List (Option Word) → Type 0
AllLive [] = Unit {0}
AllLive (none ∷ ws) = ⊥
AllLive (some w ∷ ws) = (0 < length w.text) × AllLive ws

get_live :
    (ws : List (Option Word)) (i : ℕ)
    → AllLive ws
    → i < length ws
    → (w : Word) × (get_elem? ws i ≡ some (some w)) × (0 < length w.text)
get_live [] i h p = absurd (omega arith)
get_live (none ∷ ws) i h p = elim h [ ]
get_live (some w ∷ ws) zero h p = (w, refl, h.0)
get_live (some w ∷ ws) (suc i) h p = get_live ws i h.1 (omega arith)

-- A word that is drawn is not empty.
abbrev Drawn : Option Word × ℕ → Type 0
Drawn (none, k) = ⊥
Drawn (some w, k) = 0 < length w.text

try_words-Drawn :
    (index : List (Option Word)) (random : ℕ → ℕ) (k randnum tries : ℕ)
    → AllLive index
    → 0 < length index
    → 0 < tries
    → Drawn (try_words index random k randnum tries)
unfolding try_words entry
try_words-Drawn index random k randnum zero h p t = absurd (omega arith)
try_words-Drawn index random k randnum (suc tries) h p t =
    let (w, e, long) = get_live index (randnum % length index) h (omega arith) in
    rw (try_words, e) long

word_random-Drawn :
    (dict : Words) (random : ℕ → ℕ) (k : ℕ)
    → AllLive dict.index
    → 0 < length dict.index
    → Drawn (word_random dict random k)
unfolding word_random
word_random-Drawn dict random k h p =
    if_cases Drawn (length dict.index == 0) (λ e. absurd (ground arith))
      λ e.
        try_words-Drawn dict.index random (k + 1) (random k) (min 10 (length dict.index)) h p
          (omega arith)

-- The text fits into the buffer with its NUL, and the fuel is enough.
record Fits (size fuel : ℕ) (p : Progress) : Type 0 where
  room : length p.buff + 1 ≤ size
  enough : 0 < fuel
  going : p.done ≡ false → (size - (length p.buff + 1) + (6 - p.tries) < fuel) × (p.tries ≤ 5)

separator_shorter : (sep_chars : Bytes) (r : ℕ) → length (separator sep_chars r) ≤ 1
unfolding separator
separator_shorter sep_chars r = elim (Option-cases (get_elem? sep_chars (r % length sep_chars))) [
  | inl e ↦ rw (separator, e) (omega arith)
  | inr (c, e) ↦ rw (separator, e) (omega arith)
]

use_word-Fits :
    (size fuel : ℕ) (sep_chars : Bytes) (random : ℕ → ℕ) (p : Progress) (wp : Bytes)
    → Fits size (suc fuel) p
    → p.done ≡ false
    → length p.buff + 1 < size
    → 0 < length wp
    → Fits size fuel (use_word size sep_chars random p wp)
unfolding use_word
use_word-Fits size fuel sep_chars random p wp f on room long =
    let going = f.going on in
    let more = length-append p.buff wp in
    let sep = separator sep_chars (random p.drawn) in
    if_cases (Fits size fuel) (ltb (length p.buff + 1 + length wp) size)
      (λ fits.
        if_cases (Fits size fuel) (is_none_left (decrement p.max_words))
          (λ last. record {
            room = ground (arith, more);
            enough = omega (arith, going);
            going = λ h. ground arith;
          })
          λ next.
            if_cases (Fits size fuel)
              (not (length sep_chars == 0) && ltb (length p.buff + 1 + length wp) size)
              (λ separated. record {
                room = ground (
                  arith,
                  more,
                  length-append (p.buff ++ wp) sep,
                  separator_shorter sep_chars (random p.drawn),
                );
                enough = omega (arith, going);
                going =
                    λ h. (omega (arith, more, going, length-append (p.buff ++ wp) sep), going.1);
              })
              λ joined. record {
                room = ground (arith, more);
                enough = omega (arith, going);
                going = λ h. (omega (arith, more, going), going.1);
              })
      λ tight. record {
        room = f.room;
        enough = omega (arith, going);
        going = λ h. (omega (arith, going), ground arith);
      }

-- The text in the buffer, with its NUL, takes no more than `size` bytes.
abbrev pub Holds : ℕ → Filling → Type 0
Holds size (filled buff) = length buff + 1 ≤ size
Holds size crashed = ⊥
Holds size aborted = ⊥
Holds size out_of_fuel = ⊥

filled_on :
    (size fuel : ℕ) (dict : Words) (sep_chars : Bytes) (random : ℕ → ℕ) (p : Progress)
    (drawn : Option Word × ℕ)
    → Drawn drawn
    → ((wp : Bytes)
        → 0 < length wp
        → Holds size (
            fill fuel size dict sep_chars random
              (use_word size sep_chars random (record p { drawn = drawn.1 }) wp)))
    → Holds size (elim drawn.0 [
      | none ↦ crashed
      | some w ↦
          fill fuel size dict sep_chars random
            (use_word size sep_chars random (record p { drawn = drawn.1 }) w.text)
    ])
filled_on size fuel dict sep_chars random p (none, k) d h = elim d [ ]
filled_on size fuel dict sep_chars random p (some w, k) d h = h w.text d

fill-Holds :
    (fuel size : ℕ) (dict : Words) (sep_chars : Bytes) (random : ℕ → ℕ) (p : Progress)
    → AllLive dict.index
    → 0 < length dict.index
    → Fits size fuel p
    → Holds size (fill fuel size dict sep_chars random p)
unfolding fill
fill-Holds zero size dict sep_chars random p live some_words f = absurd (omega (arith, f.enough))
fill-Holds (suc fuel) size dict sep_chars random p live some_words f =
    if_cases (Holds size) (p.done || leb size (length p.buff + 1)) (λ stop. f.room)
      λ go.
        filled_on size fuel dict sep_chars random p (word_random dict random p.drawn)
          (word_random-Drawn dict random p.drawn live some_words)
          λ wp long. fill-Holds fuel size dict sep_chars random _ live some_words (
            use_word-Fits size fuel sep_chars random
              (record p { drawn = (word_random dict random p.drawn).1 }) wp
              (record { room = f.room; enough = f.enough; going = f.going }) (ground arith)
              (ground arith) long)

-- With a buffer of at least one byte, fewer than 64 * 1024 separators, and a collection that is not
-- empty, none of whose entries was deleted or is an empty word, `WordSequence` ends, for every
-- sequence of random numbers, and leaves a text that fits into the buffer with its NUL.
pub word_sequence-Holds :
    (size : ℕ) (dict : Words) (sep_chars : Bytes) (max_words : ℤ) (random : ℕ → ℕ) (k : ℕ)
    → 0 < size
    → length sep_chars < max_separators
    → 0 < length dict.index
    → AllLive dict.index
    → (r : Filling) × (word_sequence size dict sep_chars max_words random k ≡ some r) × Holds size r
unfolding word_sequence
word_sequence-Holds size dict sep_chars max_words random k room few some_words live =
    let short : leb max_separators (length sep_chars) ≡ false = ground (arith, few) in
    let open_ : (size == 0 || length dict.index == 0) ≡ false = ground arith in
    let p : Progress = record {
      buff = [];
      max_words = max_words;
      tries = 0;
      drawn = k;
      done = false;
    } in
    (
      fill (size + 7) size dict sep_chars random p,
      rw short (rw open_ refl),
      fill-Holds (size + 7) size dict sep_chars random p live some_words (record {
        room = omega arith;
        enough = omega arith;
        going = λ h. (omega arith, omega arith);
      }),
    )
