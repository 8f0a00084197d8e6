-- ===== src/Words/Files.antt =====
-- src/words.c, `GetSafeFilename`: the file that a client may modify or delete.
use mstone.Base.{
  ℕ, zero, suc, ◌+◌, ◌%◌, ◌≡◌, refl, ap, ◌∙◌, inl, inr, Bool, false, ◌||◌, ◌==◌, if◌then◌else◌,
  List, [], ◌∷◌, Option, none, some, Bytes, codes, starts_with, length, get_elem?, min,
  Option-cases, if_cases, arith,
}
use mstone.Words.{Word, Words, entry, try_words, word_random}

-- the file portion of a path: what is behind the last slash, or all of it; `file` is the portion
-- that starts at the last slash seen
unfoldable pub file_portion : Bytes → Bytes → Bytes
file_portion file [] = file
file_portion file (c ∷ s) = file_portion (if c == b'/' then s else file) s

-- `('.' == *fp) || (0 == strncmp (fp, "README", 6))`
unfoldable pub is_kept : Bytes → Bool
is_kept file = starts_with (codes ".") file || starts_with (codes "README") file

-- How a call ends: with a file name, with NULL, or by `strrchr` of a NULL name.
pub data Safe : Type 0 where
  found : Word → Safe
  missing crashed : Safe

-- the loop, with the name at hand
unfoldable pub try_files : ℕ → Words → (ℕ → ℕ) → Option Word → ℕ → Safe
unfolding is_kept file_portion word_random
try_files zero files random filename k = missing
try_files (suc tries) files random none k = crashed
try_files (suc tries) files random (some w) k =
    let drawn = word_random files random k in
    let next = try_files tries files random drawn.0 drawn.1 in
    if is_kept (file_portion w.text w.text) then next else found w

-- the test in front of the loop
unfoldable pub begin_tries : Words → (ℕ → ℕ) → Option Word × ℕ → Safe
unfolding try_files
begin_tries files random (none, k) = missing
begin_tries files random (some w, k) = try_files 10 files random (some w) k

-- `GetSafeFilename`
unfoldable pub get_safe_filename : Words → (ℕ → ℕ) → ℕ → Safe
unfolding begin_tries word_random
get_safe_filename files random k = begin_tries files random (word_random files random k)

-- The word is an entry of the collection.
abbrev pub IsEntry : List (Option Word) → Word → Type 0
IsEntry index w = (i : ℕ) × (get_elem? index i ≡ some (some w))

abbrev AnEntry : List (Option Word) → Option Word × ℕ → Type 0
AnEntry index (none, k) = Unit {0}
AnEntry index (some w, k) = IsEntry index w

entry-IsEntry :
    (index : List (Option Word)) (i : ℕ) (w : Word) (o : Option (Option Word))
    → get_elem? index i ≡ o
    → entry o ≡ some w
    → IsEntry index w
unfolding entry
entry-IsEntry index i w none e h = absurd (ground arith)
entry-IsEntry index i w (some v) e h = (i, e ∙ ap some h)

try_words-AnEntry :
    (index : List (Option Word)) (random : ℕ → ℕ) (k randnum tries : ℕ)
    → AnEntry index (try_words index random k randnum tries)
unfolding try_words
try_words-AnEntry index random k randnum zero = tt
try_words-AnEntry index random k randnum (suc tries) =
    elim (Option-cases (entry (get_elem? index (randnum % length index)))) [
      | inl e ↦ rw (try_words, e) (try_words-AnEntry index random (k + 1) (random k) tries)
      | inr (w, e) ↦
          rw (try_words, e)
            (entry-IsEntry index (randnum % length index) w
              (get_elem? index (randnum % length index)) refl e)
    ]

word_random-AnEntry :
    (files : Words) (random : ℕ → ℕ) (k : ℕ) → AnEntry files.index (word_random files random k)
unfolding word_random
word_random-AnEntry files random k =
    if_cases (AnEntry files.index) (length files.index == 0) (λ e. tt)
      λ e. try_words-AnEntry files.index random (k + 1) (random k) (min 10 (length files.index))

-- A file name that is returned is an entry of the collection, and its file portion starts neither
-- with a dot nor with "README".
abbrev pub Returns : List (Option Word) → Safe → Type 0
Returns index (found w) =
    IsEntry index w
    × (starts_with (codes ".") (file_portion w.text w.text) ≡ false)
    × (starts_with (codes "README") (file_portion w.text w.text) ≡ false)
Returns index missing = Unit {0}
Returns index crashed = Unit {0}

try_files-Returns :
    (tries : ℕ) (files : Words) (random : ℕ → ℕ) (filename : Option Word) (k : ℕ)
    → AnEntry files.index (filename, k)
    → Returns files.index (try_files tries files random filename k)
unfolding try_files is_kept
try_files-Returns zero files random filename k h = tt
try_files-Returns (suc tries) files random none k h = tt
try_files-Returns (suc tries) files random (some w) k h =
    let drawn = word_random files random k in
    if_cases (Returns files.index) (is_kept (file_portion w.text w.text))
      (λ kept.
        try_files-Returns tries files random drawn.0 drawn.1 (word_random-AnEntry files random k))
      λ safe. (h, ground arith, ground arith)

begin_tries-Returns :
    (files : Words) (random : ℕ → ℕ) (drawn : Option Word × ℕ)
    → AnEntry files.index drawn
    → Returns files.index (begin_tries files random drawn)
unfolding begin_tries
begin_tries-Returns files random (none, k) h = tt
begin_tries-Returns files random (some w, k) h = try_files-Returns 10 files random (some w) k h

-- `GetSafeFilename` returns only names of the collection, and never one whose file portion starts
-- with a dot or with "README", whatever the random numbers are.
pub get_safe_filename-Returns :
    (files : Words) (random : ℕ → ℕ) (k : ℕ)
    → Returns files.index (get_safe_filename files random k)
unfolding get_safe_filename
get_safe_filename-Returns files random k =
    begin_tries-Returns files random (word_random files random k)
      (word_random-AnEntry files random k)
