-- ===== src/Words/Find.antt =====
-- `WordFind`, `WordDelete` and `WordPointerDelete` agree, and touch one entry only.
use mstone.Base.{
  ℕ, zero, suc, ◌+◌, ◌≡◌, ◌≢◌, refl, sym, ap, ◌⊎◌, inl, inr, Bool, true, false, ◌==◌, if◌then◌else◌,
  List, [], ◌∷◌, Option, none, some, ℤ, pos, negsuc, Bytes, length, get_elem?, Bool-cases, if_cases,
  leb, ◌++◌, ◌≤◌, length-append, arith,
}
use mstone.Words.{
  Word, Words, scan, same_text, same_pointer, clear, delete_at, word_delete, word_pointer_delete,
  word_add, add_word, words_init,
}

-- No entry passes the test.
abbrev pub NoneOf : (Option Word → Bool) → List (Option Word) → Type 0
NoneOf test [] = Unit {0}
NoneOf test (w ∷ ws) = (test w ≡ false) × NoneOf test ws

-- Entry `n` is the first that passes the test.
abbrev pub FirstAt : (Option Word → Bool) → List (Option Word) → ℕ → Type 0
FirstAt test [] n = ⊥
FirstAt test (w ∷ ws) zero = test w ≡ true
FirstAt test (w ∷ ws) (suc n) = (test w ≡ false) × FirstAt test ws n

abbrev Scanned : (Option Word → Bool) → List (Option Word) → Option ℕ → Type 0
Scanned test ws none = NoneOf test ws
Scanned test ws (some n) = FirstAt test ws n

Scanned-cons :
    (test : Option Word → Bool) (w : Option Word) (ws : List (Option Word)) (o : Option ℕ)
    → test w ≡ false
    → Scanned test ws o
    → Scanned test (w ∷ ws) (elim o [ none ↦ none | some n ↦ some (suc n) ])
Scanned-cons test w ws none h k = (h, k)
Scanned-cons test w ws (some n) h k = (h, k)

scan-Scanned :
    (test : Option Word → Bool) (ws : List (Option Word)) → Scanned test ws (scan test ws)
unfolding scan
scan-Scanned test [] = tt
scan-Scanned test (w ∷ ws) = elim (Bool-cases (test w)) [
  | inl h ↦ rw h h
  | inr h ↦ rw h (Scanned-cons test w ws (scan test ws) h (scan-Scanned test ws))
]

-- What a deletion by a test did: entry `n`, the first that passes the test, is NULL now and all
-- others are as they were, and it returned 1; or no entry passes the test, nothing has changed and
-- it returned -1, or -2 for an empty collection.
abbrev pub Deletes : (Option Word → Bool) → Words → Words × ℤ → Type 0
Deletes test dict (dict', ret) =
    ((ret ≡ pos 1)
      × ((n : ℕ) × FirstAt test dict.index n
          × (dict' ≡ record dict { index = dict'.index })
          × (get_elem? dict'.index n ≡ some none)
          × ((i : ℕ) → i ≢ n → get_elem? dict'.index i ≡ get_elem? dict.index i)))
    ⊎ (((ret ≡ negsuc 0) ⊎ (ret ≡ negsuc 1)) × NoneOf test dict.index × (dict' ≡ dict))

clear_entry :
    (test : Option Word → Bool) (ws : List (Option Word)) (n : ℕ)
    → FirstAt test ws n
    → get_elem? (clear ws n) n ≡ some none
unfolding clear
clear_entry test [] n h = elim h [ ]
clear_entry test (w ∷ ws) zero h = refl
clear_entry test (w ∷ ws) (suc n) h = clear_entry test ws n h.1

clear_others :
    (ws : List (Option Word)) (n i : ℕ) → i ≢ n → get_elem? (clear ws n) i ≡ get_elem? ws i
unfolding clear
clear_others [] n i h = refl
clear_others (w ∷ ws) zero zero h = absurd (h refl)
clear_others (w ∷ ws) zero (suc i) h = refl
clear_others (w ∷ ws) (suc n) zero h = refl
clear_others (w ∷ ws) (suc n) (suc i) h = clear_others ws n i (λ e. h (ap suc e))

delete_at-Deletes :
    (test : Option Word → Bool) (dict : Words) (o : Option ℕ)
    → Scanned test dict.index o
    → Deletes test dict (delete_at dict o)
unfolding delete_at
delete_at-Deletes test dict none h = inr (inl refl, h, refl)
delete_at-Deletes test dict (some n) h =
    inl (refl, (n, h, refl, clear_entry test dict.index n h, λ i k. clear_others dict.index n i k))

empty-NoneOf :
    (test : Option Word → Bool) (ws : List (Option Word)) → (length ws == 0) ≡ true → NoneOf test ws
empty-NoneOf test [] h = tt
empty-NoneOf test (w ∷ ws) h = absurd (ground arith)

guarded-Deletes :
    (test : Option Word → Bool) (dict : Words)
    → Deletes test dict
        (if length dict.index == 0 then (dict, negsuc 1) else delete_at dict (scan test dict.index))
guarded-Deletes test dict =
    if_cases (Deletes test dict) (length dict.index == 0)
      (λ h. inr (inr refl, empty-NoneOf test dict.index h, refl))
      λ h. delete_at-Deletes test dict (scan test dict.index) (scan-Scanned test dict.index)

-- `WordDelete` deletes the first word with the text and `WordPointerDelete` the first with the
-- address: the one entry becomes NULL, every other stays as it was, and 1 is returned. If there is
-- no such word the collection is unchanged and the value returned is -1, or -2.
pub word_delete-Deletes :
    (dict : Words) (word : Bytes) (address : ℕ)
    → Deletes (same_text word) dict (word_delete dict (some word))
      × Deletes (same_pointer address) dict (word_pointer_delete dict (some address))
unfolding word_delete word_pointer_delete
word_delete-Deletes dict word address =
    (guarded-Deletes (same_text word) dict, guarded-Deletes (same_pointer address) dict)

-- The index holds no more entries than were allocated.
abbrev pub IsSized : Words → Type 0
IsSized dict = length dict.index ≤ dict.index_size

sized_lem :
    (ws : List (Option Word)) (size : ℕ) (word : Word)
    → length ws ≤ size
    → length (ws ++ (some word ∷ [])) ≤ (if leb size (length ws) then size + 8 else size)
sized_lem ws size word h = ground (arith, length-append ws (some word ∷ []))

added :
    (dict : Words) (word : Word) (d : Option (List Word))
    → IsSized dict
    → (d ≡ none → dict.index ≡ [])
    → let out : Words = elim d [ none ↦ add_word words_init word | some l ↦ add_word dict word ] in
      IsSized out × (out.index ≡ dict.index ++ (some word ∷ []))
unfolding add_word words_init
added dict word none h k = (omega arith, sym (ap (λ ws. ws ++ (some word ∷ [])) (k refl)))
added dict word (some l) h k = (sized_lem dict.index dict.index_size word h, refl)

-- After `WordAdd` the new word stands in the last entry of the index, which lies inside the
-- allocated part, and all entries before it are as they were.
pub word_add-IsSized :
    (dict : Words) (word : Word)
    → IsSized dict
    → (dict.data_list ≡ none → dict.index ≡ [])
    → IsSized (word_add dict word) × ((word_add dict word).index ≡ dict.index ++ (some word ∷ []))
unfolding word_add add_word words_init
word_add-IsSized dict word h k = added dict word dict.data_list h k
