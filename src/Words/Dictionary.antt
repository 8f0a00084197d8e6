-- ===== src/Words/Dictionary.antt =====
-- src/words.c, `ReadWordDict`: a collection from a file of words. The file is the list of what
-- `fgets` reads from it, the same in both passes; `place` gives the address of the n-th copy.
use mstone.Base.{
  ℕ, zero, suc, ◌+◌, ◌-◌, ◌<◌, ◌≡◌, refl, sym, ap, ◌||◌, ◌==◌, if◌then◌else◌, List, [], ◌∷◌, Option,
  none, some, Bytes, length, if_cases, arith, subst, leb,
}
use mstone.Words.{Word, Words}
use mstone.Words.Sequence.{AllLive}

-- What `_clean_line` leaves of a line: nothing to use, for an apostrophe, or the text in front of
-- the end of the line.
pub data Cleaned : Type 0 where
  skipped : Cleaned
  kept : Bytes → Cleaned

-- a character in front of what `strpbrk` finds
pub put : ℕ → Cleaned → Cleaned
put c skipped = skipped
put c (kept s) = kept (c ∷ s)

-- `_clean_line`
pub clean_line : Bytes → Cleaned
unfolding put
clean_line [] = kept []
clean_line (c ∷ s) =
    let rest = put c (clean_line s) in
    if c == b'\'' then skipped else if c == b'\r' || c == b'\n' then kept [] else rest

-- the word of a line, if it is not skipped and not empty
pub word_of : Cleaned → Option Bytes
word_of skipped = none
word_of (kept []) = none
word_of (kept (c ∷ s)) = some (c ∷ s)

-- the first pass, which counts
pub counted : Option Bytes → ℕ → ℕ
counted none count = count
counted (some word) count = count + 1

pub count_words : List Bytes → ℕ → ℕ
unfolding counted word_of clean_line
count_words [] count = count
count_words (line ∷ lines) count = count_words lines (counted (word_of (clean_line line)) count)

-- the second pass, which stores: the words from the `count`-th on
pub stored : Option Bytes → (ℕ → ℕ) → ℕ → (ℕ → List Word) → List Word
stored none place count onward = onward count
stored (some word) place count onward =
    record { address = place count; text = word } ∷ onward (count + 1)

pub store_words : List Bytes → (ℕ → ℕ) → ℕ → List Word
unfolding stored word_of clean_line
store_words [] place count = []
store_words (line ∷ lines) place count =
    stored (word_of (clean_line line)) place count (λ n. store_words lines place n)

-- the index: pointers to the words, and NULL behind them, as `xcalloc` leaves it
pub fill_index : List Word → ℕ → List (Option Word)
fill_index [] zero = []
fill_index [] (suc n) = none ∷ fill_index [] n
fill_index (w ∷ ws) n = some w ∷ fill_index ws (n - 1)

-- `ReadWordDict` up to its assertion: `none` if there is no file, no word, or the assertion fails
pub read_word_dict : Option (List Bytes) → (ℕ → ℕ) → Option Words
unfolding count_words store_words fill_index
read_word_dict none place = none
read_word_dict (some lines) place =
    let count = count_words lines 0 in
    let words = store_words lines place 0 in
    if count == 0
    then none
    else if leb (length words) count
    then some
        (record { index_size = count; index = fill_index words count; data_list = some words })
    else none

-- the words hold no more and no less than was counted, and none is empty
abbrev AreStored : List Word → Type 0
AreStored [] = Unit {0}
AreStored (w ∷ ws) = (0 < length w.text) × AreStored ws

counted_more :
    (c : Cleaned) (lines : List Bytes) (place : ℕ → ℕ) (count : ℕ)
    → ((n : ℕ)
        → (count_words lines n ≡ n + length (store_words lines place n))
          × AreStored (store_words lines place n))
    → let words = stored (word_of c) place count (λ n. store_words lines place n) in
      (count_words lines (counted (word_of c) count) ≡ count + length words) × AreStored words
unfolding stored counted word_of
counted_more skipped lines place count h = h count
counted_more (kept []) lines place count h = h count
counted_more (kept (c ∷ s)) lines place count h =
    (omega (arith, (h (count + 1)).0), (omega arith, (h (count + 1)).1))

counted_all :
    (lines : List Bytes) (place : ℕ → ℕ) (count : ℕ)
    → (count_words lines count ≡ count + length (store_words lines place count))
      × AreStored (store_words lines place count)
unfolding count_words store_words
counted_all [] place count = (omega arith, tt)
counted_all (line ∷ lines) place count =
    counted_more (clean_line line) lines place count (λ n. counted_all lines place n)

filled_live : (ws : List Word) → AreStored ws → AllLive (fill_index ws (length ws))
unfolding fill_index
filled_live [] h = tt
filled_live (w ∷ ws) h =
    let same : length ws ≡ suc (length ws) - 1 = omega arith in
    (h.0, subst (λ (n : ℕ). AllLive (fill_index ws n)) same (filled_live ws h.1))

length-fill_index : (ws : List Word) → length (fill_index ws (length ws)) ≡ length ws
unfolding fill_index
length-fill_index [] = refl
length-fill_index (w ∷ ws) =
    let same : length ws ≡ suc (length ws) - 1 = omega arith in
    ap suc (subst (λ (n : ℕ). length (fill_index ws n) ≡ length ws) same (length-fill_index ws))

-- What a dictionary is good for: its index is as long as it was allocated, every entry is a word,
-- and no word is empty.
abbrev pub IsReady : Option Words → Type 0
IsReady none = Unit {0}
IsReady (some dict) =
    (length dict.index ≡ dict.index_size) × (0 < length dict.index) × AllLive dict.index

ready :
    (count : ℕ) (ws : List Word)
    → count ≡ length ws
    → AreStored ws
    → 0 < count
    → IsReady
        (some (record { index_size = count; index = fill_index ws count; data_list = some ws }))
ready count ws e h p =
    subst
      (λ (n : ℕ).
        IsReady (some (record { index_size = n; index = fill_index ws n; data_list = some ws })))
      (sym e) (length-fill_index ws, omega (arith, length-fill_index ws, e, p), filled_live ws h)

failed_empty :
    (count : ℕ) (ws : List Word) (dict : Words)
    → count ≡ 0 + length ws
    → (if count == 0 then none else if leb (length ws) count then some dict else none) ≡ none
    → ws ≡ []
failed_empty count [] dict e h = refl
failed_empty count (w ∷ ws) dict e h = absurd (ground arith)

-- `ReadWordDict` on every file: both passes find the same words, so that its assertion holds and
-- the index is full; it fails only on a file without a word. A dictionary that it builds is not
-- empty and has no empty word, which is what `WordSequence` needs.
pub read_word_dict-IsReady :
    (lines : List Bytes) (place : ℕ → ℕ)
    → IsReady (read_word_dict (some lines) place)
      × (read_word_dict (some lines) place ≡ none → store_words lines place 0 ≡ [])
unfolding read_word_dict
read_word_dict-IsReady lines place =
    let (e, h) = counted_all lines place 0 in
    (
      if_cases IsReady (count_words lines 0 == 0) (λ z. tt)
          (λ p.
            if_cases IsReady (leb (length (store_words lines place 0)) (count_words lines 0))
              (λ fits.
                ready (count_words lines 0) (store_words lines place 0) (omega (arith, e)) h
                  (ground arith))
              λ over. tt),
      failed_empty (count_words lines 0) (store_words lines place 0) _ e,
    )
