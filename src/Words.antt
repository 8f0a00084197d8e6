-- ===== src/Words.antt =====
-- src/words.c and src/words.h: the collection of words that texts and file names are drawn from. A
-- word is its text with the address it stands at; `RANDOM()` is a sequence of numbers of which `k`
-- have been drawn.
pub mod Find
pub mod Sequence
pub mod Files
pub mod Dictionary
mod Examples
use mstone.Base.{
  ℕ, zero, suc, ◌+◌, ◌*◌, ◌-◌, ◌%◌, Bool, true, false, not, ◌&&◌, ◌||◌, ◌==◌, ltb, leb,
  if◌then◌else◌, min, List, [], ◌∷◌, ◌++◌, Option, none, some, ℤ, pos, negsuc, Bytes, bytes_eq,
  length, get_elem?,
}

-- what a `char *` into the data points to
pub record Word : Type 0 where
  pub address : ℕ
  pub text : Bytes

-- `words_t`: `indexLen` is the length of `index`, whose deleted entries are NULL; `data`, here
-- `data_list`, is NULL until the collection is initialized.
pub record Words : Type 0 where
  pub index_size : ℕ
  pub index : List (Option Word)
  pub data_list : Option (List Word)

-- `WordsInit`
pub words_init : Words
words_init = record { index_size = 8; index = []; data_list = some [] }

-- `stringListAdd` on `data`
pub data_add : Option (List Word) → Word → Option (List Word)
data_add none word = none
data_add (some l) word = some (l ++ (word ∷ []))

-- `WordAdd` behind its test of `data`
pub add_word : Words → Word → Words
unfolding data_add
add_word dict word = record {
  index_size =
      if leb dict.index_size (length dict.index) then dict.index_size + 8 else dict.index_size;
  index = dict.index ++ (some word ∷ []);
  data_list = data_add dict.data_list word;
}

-- `WordAdd`; the address is that of the copy that it makes
pub word_add : Words → Word → Words
unfolding add_word words_init
word_add dict word = elim dict.data_list [
  | none ↦ add_word words_init word
  | some l ↦ add_word dict word
]

-- The loop of `WordFind`, `WordDelete` and `WordPointerDelete`: the first index that passes a test.
pub scan : (Option Word → Bool) → List (Option Word) → Option ℕ
scan test [] = none
scan test (w ∷ ws) =
    let rest = scan test ws in
    if test w then some 0 else elim rest [ none ↦ none | some n ↦ some (suc n) ]

-- the tests of the three loops: a word with the same text, and the same pointer
pub same_text : Bytes → Option Word → Bool
same_text word none = false
same_text word (some w) = bytes_eq word w.text

pub same_pointer : ℕ → Option Word → Bool
same_pointer address none = false
same_pointer address (some w) = address == w.address

-- `dict->index[index] = NULL`
pub clear : List (Option Word) → ℕ → List (Option Word)
clear [] i = []
clear (w ∷ ws) zero = none ∷ ws
clear (w ∷ ws) (suc i) = w ∷ clear ws i

-- `WordFind`; a missing word is a NULL pointer
pub word_find : Words → Option Bytes → ℤ
unfolding scan same_text
word_find dict none = negsuc 1
word_find dict (some word) =
    if length dict.index == 0
    then negsuc 1
    else elim (scan (same_text word) dict.index) [ none ↦ negsuc 0 | some n ↦ pos n ]

-- what the two deletions do with the index found
pub delete_at : Words → Option ℕ → Words × ℤ
unfolding clear
delete_at dict none = (dict, negsuc 0)
delete_at dict (some n) = (record dict { index = clear dict.index n }, pos 1)

-- `WordDelete`
pub word_delete : Words → Option Bytes → Words × ℤ
unfolding delete_at
word_delete dict none = (dict, negsuc 1)
word_delete dict (some word) =
    if length dict.index == 0
    then (dict, negsuc 1)
    else delete_at dict (scan (same_text word) dict.index)

-- `WordPointerDelete`
pub word_pointer_delete : Words → Option ℕ → Words × ℤ
unfolding delete_at
word_pointer_delete dict none = (dict, negsuc 1)
word_pointer_delete dict (some address) =
    if length dict.index == 0
    then (dict, negsuc 1)
    else delete_at dict (scan (same_pointer address) dict.index)

-- the word of an entry
pub entry : Option (Option Word) → Option Word
entry none = none
entry (some w) = w

-- the loop of `WordRandom`, with the number drawn before
pub try_words : List (Option Word) → (ℕ → ℕ) → ℕ → ℕ → ℕ → Option Word × ℕ
unfolding entry
try_words index random k randnum zero = (none, k)
try_words index random k randnum (suc tries) =
    let rest = try_words index random (k + 1) (random k) tries in
    elim (entry (get_elem? index (randnum % length index))) [ some w ↦ (some w, k) | none ↦ rest ]

-- `WordRandom`: a word or NULL, and how many random numbers have then been drawn
pub word_random : Words → (ℕ → ℕ) → ℕ → Option Word × ℕ
unfolding try_words
word_random dict random k =
    if length dict.index == 0
    then (none, k + 1)
    else try_words dict.index random (k + 1) (random k) (min 10 (length dict.index))

-- How the loop of `WordSequence` ends: with a text in the buffer, by `strlen` of a NULL word, or with
-- the fuel.
pub data Filling : Type 0 where
  filled : Bytes → Filling
  crashed aborted out_of_fuel : Filling

-- The variables of the loop: `len` is the length of `buff` and 1, and `done` is a `break`.
pub record Progress : Type 0 where
  pub buff : Bytes
  pub max_words : ℤ
  pub tries : ℕ
  pub drawn : ℕ
  pub done : Bool

-- `--max_words`
pub decrement : ℤ → ℤ
decrement (pos zero) = negsuc 0
decrement (pos (suc n)) = pos n
decrement (negsuc n) = negsuc (n + 1)

-- `max_words == 0`
abbrev pub is_none_left : ℤ → Bool
is_none_left (pos zero) = true
is_none_left (pos (suc n)) = false
is_none_left (negsuc n) = false

-- the character at a random place of the separators
pub separator : Bytes → ℕ → Bytes
separator sep_chars r = elim (get_elem? sep_chars (r % length sep_chars)) [
  | none ↦ []
  | some c ↦ c ∷ []
]

-- the body of the loop on the word drawn: copy it and perhaps a separator, or count a failed try
pub use_word : ℕ → Bytes → (ℕ → ℕ) → Progress → Bytes → Progress
unfolding decrement separator
use_word size sep_chars random p wp =
    let len = length p.buff + 1 in
    let copied = p.buff ++ wp in
    if ltb (len + length wp) size
    then (if is_none_left (decrement p.max_words)
        then record p { buff = copied; max_words = decrement p.max_words; done = true }
        else if not (length sep_chars == 0) && ltb (len + length wp) size
        then record p {
          buff = copied ++ separator sep_chars (random p.drawn);
          max_words = decrement p.max_words;
          drawn = p.drawn + 1;
        }
        else record p { buff = copied; max_words = decrement p.max_words })
    else record p { tries = p.tries + 1; done = ltb 5 (p.tries + 1) }

-- the loop of `WordSequence`, on fuel
pub fill : ℕ → ℕ → Words → Bytes → (ℕ → ℕ) → Progress → Filling
unfolding word_random use_word
fill zero size dict sep_chars random p = out_of_fuel
fill (suc fuel) size dict sep_chars random p =
    let drawn = word_random dict random p.drawn in
    let next : Filling = elim drawn.0 [
      | none ↦ crashed
      | some w ↦
          fill fuel size dict sep_chars random
            (use_word size sep_chars random (record p { drawn = drawn.1 }) w.text)
    ] in
    if p.done || leb size (length p.buff + 1) then filled p.buff else next

-- the limit of `assert (sep_len < (64*1024))`
abbrev pub max_separators : ℕ
max_separators = 64 * 1024

-- `WordSequence` aborts, or returns -1, or `len`; here the text in the buffer. Every pass makes the text
-- longer or is one of at most 6 failed tries, so `size + 7` rounds of fuel are enough.
pub word_sequence : ℕ → Words → Bytes → ℤ → (ℕ → ℕ) → ℕ → Option Filling
unfolding fill
word_sequence size dict sep_chars max_words random k =
    if leb max_separators (length sep_chars)
    then some aborted
    else if size == 0 || length dict.index == 0
    then none
    else some (
        fill (size + 7) size dict sep_chars random
          (record { buff = []; max_words = max_words; tries = 0; drawn = k; done = false }))
