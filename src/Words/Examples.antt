-- ===== src/Words/Examples.antt =====
-- The theorems about words at concrete inputs, and tests.
use mstone.Base.{
  Bytes, List, ◌+◌, min, ◌≡◌, refl, [], ◌∷◌, none, some, pos, codes, starts_with, arith,
}
use mstone.Words.{Word, Words, word_random, try_words, entry, Filling, crashed, word_sequence, fill}
use mstone.Words.Files
use mstone.Words.Files.{
  Returns, get_safe_filename, get_safe_filename-Returns, begin_tries, try_files, is_kept,
  file_portion,
}
use mstone.Words.Dictionary.{IsReady, read_word_dict, store_words, read_word_dict-IsReady}
use mstone.Words.Sequence.{AllLive, Holds, word_sequence-Holds}

abbrev red : Word
red = record { address = 1000; text = codes "red" }

abbrev blue : Word
blue = record { address = 2000; text = codes "blue" }

abbrev colours : Words
colours = record {
  index_size = 8;
  index = some red ∷ some blue ∷ [];
  data_list = some (red ∷ blue ∷ []);
}

colours-AllLive : AllLive colours.index
colours-AllLive = omega arith

word_sequence-Holds_example :
    (r : Filling) × (word_sequence 12 colours (b' ' ∷ []) (pos 0) (λ k. k) 0 ≡ some r) × Holds 12 r
word_sequence-Holds_example =
    word_sequence-Holds 12 colours (b' ' ∷ []) (pos 0) (λ k. k) 0 (omega arith) (omega arith)
      (omega arith) colours-AllLive

-- A collection whose only word was deleted crashes `WordSequence`: `strlen` of NULL.
abbrev emptied : Words
emptied = record { index_size = 8; index = none ∷ []; data_list = some (red ∷ []) }

emptied_crashes : word_sequence 12 emptied [] (pos 1) (λ k. k) 0 ≡ some crashed
unfolding word_sequence fill word_random try_words entry
emptied_crashes = refl

-- The only file is a README: the tries end with NULL.
abbrev tree : Words
tree = record {
  index_size = 8;
  index = some (record { address = 3000; text = codes "src/README" }) ∷ some red ∷ [];
  data_list = some [];
}

get_safe_filename-Returns_example : Returns tree.index (get_safe_filename tree (λ k. k) 0)
get_safe_filename-Returns_example = get_safe_filename-Returns tree (λ k. k) 0

-- The first name is a README, and the words drawn after it were deleted: `strrchr` gets NULL.
tree_crashes :
    get_safe_filename
      (record tree { index = some (record { address = 3000; text = codes "README" }) ∷ none ∷ [] })
      (λ k. min k 1)
      0
    ≡ Files.crashed
unfolding get_safe_filename begin_tries try_files is_kept file_portion word_random try_words entry
    starts_with
tree_crashes = refl

abbrev dictionary : List Bytes
dictionary = codes "ant\n" ∷ codes "don't\n" ∷ codes "\n" ∷ codes "bee" ∷ []

read_word_dict-IsReady_example :
    IsReady (read_word_dict (some dictionary) (λ n. 100 + n))
    × (read_word_dict (some dictionary) (λ n. 100 + n) ≡ none
        → store_words dictionary (λ n. 100 + n) 0 ≡ [])
read_word_dict-IsReady_example = read_word_dict-IsReady dictionary (λ n. 100 + n)
