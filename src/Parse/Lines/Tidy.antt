-- ===== src/Parse/Lines/Tidy.antt =====
-- `get_line_from_buffer` on a command file without continued lines: nothing is lost.
use mathlib.Core.Option
use mstone.Base.{
  ℕ, zero, suc, ◌+◌, ◌<◌, ◌≤◌, ◌≡◌, refl, sym, ap, ◌∙◌, ◌⊎◌, inl, inr, true, false, List, [], ◌∷◌,
  ◌++◌, Option, none, some, Bytes, length, length-append, arith,
}
use mstone.Parse.Lines.{
  next_line, continued, Result, line_read, aborted, count_line, go_on, finish_line, copy_line,
  useful, skip_or_copy, find_text, get_line, get_line_from_buffer,
}
use mstone.Parse.Lines.Clean.{NoNewline}

-- The file as lines, each with a newline behind it.
abbrev pub unlines : List Bytes → Bytes
unlines [] = []
unlines (l ∷ ls) = l ++ (b'\n' ∷ unlines ls)

-- The useful texts of the lines that have any, which is what the parser is to see.
abbrev pub useful_lines : List Bytes → List Bytes
useful_lines [] = []
useful_lines (l ∷ ls) =
    let rest = useful_lines ls in elim (useful l) [ [] ↦ rest | c ∷ s ↦ (c ∷ s) ∷ rest ]

-- The parser's loop over a buffer: the lines that it sees, until NULL is returned.
unfoldable pub read_on : (Bytes → Option (List Bytes)) → Option Result → Option (List Bytes)
read_on go none = none
read_on go (some aborted) = none
read_on go (some (line_read line none n)) = some []
read_on go (some (line_read line (some rest) n)) = Option.map (◌∷◌ line) (go rest)

unfoldable pub read_lines : ℕ → Bytes → Option (List Bytes)
unfolding read_on
read_lines zero buffer = none
read_lines (suc fuel) buffer = read_on (read_lines fuel) (get_line_from_buffer buffer)

-- Lines that have no newline in them and are not continued.
abbrev pub AreTidy : List Bytes → Type 0
AreTidy [] = Unit {0}
AreTidy (l ∷ ls) = NoNewline l × (continued (useful l) ≡ none) × AreTidy ls

next_line-append : (l rest : Bytes) → NoNewline l → next_line (l ++ (b'\n' ∷ rest)) ≡ (l, some rest)
unfolding next_line
next_line-append [] rest h = refl
next_line-append (c ∷ l) rest h = ground (arith, next_line-append l rest h.1)

get_line_step :
    (fuel : ℕ) (l rest : Bytes)
    → NoNewline l
    → get_line (suc fuel) false (l ++ (b'\n' ∷ rest))
      ≡ Option.map count_line
          (skip_or_copy (useful l) (some rest) (get_line fuel false) (get_line fuel true))
unfolding get_line find_text
get_line_step fuel [] rest h = rw (next_line-append [] rest h) refl
get_line_step fuel (c ∷ l) rest h = rw (next_line-append (c ∷ l) rest h) refl

copy_tidy :
    (c : ℕ) (s rest : Bytes) (skip again : Bytes → Option Result)
    → continued (c ∷ s) ≡ none
    → skip_or_copy (c ∷ s) (some rest) skip again ≡ some (line_read (c ∷ s) (some rest) 0)
unfolding skip_or_copy copy_line finish_line
copy_tidy c s rest skip again h = rw h refl

-- what a call sees in a tidy file
seen : List Bytes → Option Result
seen [] = some (line_read [] none 0)
seen (l ∷ ls) = elim (useful l) [
  | [] ↦ Option.map count_line (seen ls)
  | c ∷ s ↦ some (line_read (c ∷ s) (some (unlines ls)) 1)
]

blank_or_not : (s : Bytes) → (s ≡ []) ⊎ ((c : ℕ) × (t : Bytes) × (s ≡ c ∷ t))
blank_or_not [] = inl refl
blank_or_not (c ∷ t) = inr (c, t, refl)

seen_blank :
    (l : Bytes) (ls : List Bytes) → useful l ≡ [] → seen (l ∷ ls) ≡ Option.map count_line (seen ls)
unfolding seen
seen_blank l ls h = rw (seen, h) refl

seen_text :
    (l : Bytes) (ls : List Bytes) (c : ℕ) (t : Bytes)
    → useful l ≡ c ∷ t
    → seen (l ∷ ls) ≡ some (line_read (c ∷ t) (some (unlines ls)) 1)
unfolding seen
seen_text l ls c t h = rw (seen, h) refl

step_blank :
    (line rest : Bytes) (skip again : Bytes → Option Result)
    → line ≡ []
    → Option.map count_line (skip_or_copy line (some rest) skip again)
      ≡ Option.map count_line (skip rest)
unfolding skip_or_copy go_on
step_blank line rest skip again h = rw h refl

step_text :
    (line rest : Bytes) (c : ℕ) (t : Bytes) (skip again : Bytes → Option Result)
    → line ≡ c ∷ t
    → continued line ≡ none
    → Option.map count_line (skip_or_copy line (some rest) skip again)
      ≡ some (line_read (c ∷ t) (some rest) 1)
unfolding count_line
step_text line rest c t skip again h k =
    rw (h, copy_tidy c t rest skip again (sym (ap continued h) ∙ k)) refl

get_line-seen :
    (ls : List Bytes) (fuel : ℕ)
    → AreTidy ls
    → length (unlines ls) < fuel
    → get_line fuel false (unlines ls) ≡ seen ls
unfolding get_line seen
get_line-seen ls zero tidy h = absurd (omega arith)
get_line-seen [] (suc fuel) tidy h = refl
get_line-seen (l ∷ ls) (suc fuel) (clean, whole, tidy) h = elim (blank_or_not (useful l)) [
  | inl blank ↦
      get_line_step fuel l (unlines ls) clean
      ∙ step_blank (useful l) (unlines ls) (get_line fuel false) (get_line fuel true) blank
      ∙ ap (Option.map count_line)
          (get_line-seen ls fuel tidy (omega (arith, length-append l (b'\n' ∷ unlines ls), h)))
      ∙ sym (seen_blank l ls blank)
  | inr (c, t, e) ↦
      get_line_step fuel l (unlines ls) clean
      ∙ step_text (useful l) (unlines ls) c t (get_line fuel false) (get_line fuel true) e whole
      ∙ sym (seen_text l ls c t e)
]

read_on-count_line :
    (go : Bytes → Option (List Bytes)) (r : Option Result)
    → read_on go (Option.map count_line r) ≡ read_on go r
unfolding read_on count_line
read_on-count_line go none = refl
read_on-count_line go (some aborted) = refl
read_on-count_line go (some (line_read line none n)) = refl
read_on-count_line go (some (line_read line (some rest) n)) = refl

useful_lines_blank :
    (l : Bytes) (ls : List Bytes) → useful l ≡ [] → useful_lines (l ∷ ls) ≡ useful_lines ls
useful_lines_blank l ls h = rw (useful_lines, h) refl

useful_lines_text :
    (l : Bytes) (ls : List Bytes) (c : ℕ) (t : Bytes)
    → useful l ≡ c ∷ t
    → useful_lines (l ∷ ls) ≡ (c ∷ t) ∷ useful_lines ls
useful_lines_text l ls c t h = rw (useful_lines, h) refl

read_on-seen :
    (ls : List Bytes) (fuel : ℕ)
    → AreTidy ls
    → length ls ≤ fuel
    → read_on (read_lines fuel) (seen ls) ≡ some (useful_lines ls)
unfolding read_on seen read_lines
read_on-seen [] fuel tidy h = refl
read_on-seen (l ∷ ls) zero tidy h = absurd (omega arith)
read_on-seen (l ∷ ls) (suc fuel) (clean, whole, tidy) h = elim (blank_or_not (useful l)) [
  | inl blank ↦
      ap (read_on (read_lines (suc fuel))) (seen_blank l ls blank)
      ∙ read_on-count_line (read_lines (suc fuel)) (seen ls)
      ∙ read_on-seen ls (suc fuel) tidy (omega (arith, h))
      ∙ ap some (sym (useful_lines_blank l ls blank))
  | inr (c, t, e) ↦
      ap (read_on (read_lines (suc fuel))) (seen_text l ls c t e)
      ∙ ap (Option.map (◌∷◌ (c ∷ t))) (
          ap (read_on (read_lines fuel))
            (get_line-seen ls (length (unlines ls) + 1) tidy (omega arith))
          ∙ read_on-seen ls fuel tidy (omega (arith, h)))
      ∙ ap some (sym (useful_lines_text l ls c t e))
]

-- A file whose lines all end with a newline and are not continued: the parser's loop ends, sees
-- exactly the useful texts of the lines that have any, each once and in their order, and no
-- assertion fails.
pub read_lines_tidy :
    (ls : List Bytes) (fuel : ℕ)
    → AreTidy ls
    → length ls < fuel
    → read_lines fuel (unlines ls) ≡ some (useful_lines ls)
unfolding read_lines
read_lines_tidy ls zero tidy h = absurd (omega arith)
read_lines_tidy ls (suc fuel) tidy h =
    ap (read_on (read_lines fuel)) (get_line-seen ls (length (unlines ls) + 1) tidy (omega arith))
    ∙ read_on-seen ls fuel tidy (omega (arith, h))
