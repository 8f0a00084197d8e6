-- ===== src/Parse/Lines/Sound.antt =====
-- `get_line_from_buffer` returns, and what it returns is a line.
use mathlib.Core.Option
use mathlib.Core.List.{append_assoc}
use mstone.Base.{
  ℕ, zero, suc, ◌+◌, ◌<◌, ◌≡◌, refl, sym, ap, ◌∙◌, Bool, true, false, [], ◌∷◌, ◌++◌, Option, none,
  some, Bytes, length, length-append, arith,
}
use mstone.Parse.Lines.{
  next_line, finish_line, skip_or_copy, continued, Result, line_read, aborted, count_line,
  append_to, go_on, copy_line, useful, find_text, get_line, get_line_from_buffer,
}
use mstone.Parse.Lines.Clean.{
  Cut, FrontClean, NoNewline, NoNewline-append, NoNewline-newlines, continued-FrontClean,
  continued_behind, newlines, newlines-append, next_line-Cut, useful_clean,
}

-- The line read and the pointer returned: the line has no newline; and unless the pointer is NULL
-- the line is not empty and does not end with a backslash, and the pointer stands behind as many
-- lines of the buffer as were counted.
abbrev pub IsLine : Bytes → Bytes → Option Bytes → ℕ → Type 0
IsLine buffer line none n = NoNewline line
IsLine buffer line (some rest) n =
    NoNewline line
    × (0 < length line)
    × (continued line ≡ none)
    × ((passed : Bytes) × (buffer ≡ passed ++ rest) × (newlines passed ≡ n))

-- A call returns: it reads a line, or it aborts.
abbrev pub Sound : Bytes → Option Result → Type 0
Sound buffer none = ⊥
Sound buffer (some aborted) = Unit {0}
Sound buffer (some (line_read line next n)) = IsLine buffer line next n

counted-Sound :
    (buffer text rest : Bytes) (r : Option Result)
    → NoNewline text
    → buffer ≡ (text ++ (b'\n' ∷ [])) ++ rest
    → Sound rest r
    → Sound buffer (Option.map count_line r)
unfolding count_line
counted-Sound buffer text rest none clean e h = h
counted-Sound buffer text rest (some aborted) clean e h = tt
counted-Sound buffer text rest (some (line_read line none n)) clean e h = h
counted-Sound buffer text rest (some (line_read line (some rest') n)) clean e
      (a, b, c, (passed, f, g)) =
    (
      a,
      b,
      c,
      (
        (text ++ (b'\n' ∷ [])) ++ passed,
        e
            ∙ ap (◌++◌ (text ++ (b'\n' ∷ []))) f
            ∙ sym (append_assoc (text ++ (b'\n' ∷ [])) passed rest'),
        newlines-append (text ++ (b'\n' ∷ [])) passed
            ∙ omega (arith, newlines-append text (b'\n' ∷ []), NoNewline-newlines text clean, g),
      ),
    )

append_to-Sound :
    (buffer front : Bytes) (r : Option Result)
    → NoNewline front
    → Sound buffer r
    → Sound buffer (Option.map (append_to front) r)
unfolding append_to
append_to-Sound buffer front none clean h = h
append_to-Sound buffer front (some aborted) clean h = tt
append_to-Sound buffer front (some (line_read line none n)) clean h =
    NoNewline-append front line clean h
append_to-Sound buffer front (some (line_read line (some rest) n)) clean (a, b, c, d) = (
  NoNewline-append front line clean a,
  omega (arith, length-append front line, b),
  continued_behind front line b c,
  d,
)

finish_line-Sound :
    (o : Option Bytes) (buffer text line : Bytes) (next : Option Bytes)
    (again : Bytes → Option Result)
    → Cut buffer text next
    → NoNewline line
    → 0 < length line
    → FrontClean o
    → (o ≡ none → continued line ≡ none)
    → ((rest : Bytes) → next ≡ some rest → Sound rest (again rest))
    → Sound buffer (Option.map count_line (finish_line o line next again))
unfolding finish_line count_line go_on append_to
finish_line-Sound none buffer text line none again cut clean long front done onward = clean
finish_line-Sound none buffer text line (some rest) again cut clean long front done onward = (
  clean,
  long,
  done refl,
  (
    text ++ (b'\n' ∷ []),
    cut.shorter rest refl,
    omega (arith, newlines-append text (b'\n' ∷ []), NoNewline-newlines text cut.clean),
  ),
)
finish_line-Sound (some f) buffer text line none again cut clean long front done onward = tt
finish_line-Sound (some f) buffer text line (some rest) again cut clean long front done onward =
    counted-Sound buffer text rest (Option.map (append_to f) (again rest)) cut.clean
      (cut.shorter rest refl) (append_to-Sound rest f (again rest) front (onward rest refl))

copy_line-Sound :
    (buffer text line : Bytes) (next : Option Bytes) (again : Bytes → Option Result)
    → Cut buffer text next
    → NoNewline line
    → ((rest : Bytes) → next ≡ some rest → Sound rest (again rest))
    → Sound buffer (Option.map count_line (copy_line line next again))
unfolding copy_line count_line
copy_line-Sound buffer text [] next again cut clean onward = tt
copy_line-Sound buffer text (c ∷ s) next again cut clean onward =
    finish_line-Sound (continued (c ∷ s)) buffer text (c ∷ s) next again cut clean (omega arith)
      (continued-FrontClean (c ∷ s) clean) (λ e. e) onward

skip_or_copy-Sound :
    (buffer text line : Bytes) (next : Option Bytes) (skip again : Bytes → Option Result)
    → Cut buffer text next
    → NoNewline line
    → ((rest : Bytes) → next ≡ some rest → Sound rest (skip rest))
    → ((rest : Bytes) → next ≡ some rest → Sound rest (again rest))
    → Sound buffer (Option.map count_line (skip_or_copy line next skip again))
unfolding skip_or_copy count_line go_on
skip_or_copy-Sound buffer text [] none skip again cut clean skipped onward = tt
skip_or_copy-Sound buffer text [] (some rest) skip again cut clean skipped onward =
    counted-Sound buffer text rest (skip rest) cut.clean (cut.shorter rest refl) (skipped rest refl)
skip_or_copy-Sound buffer text (c ∷ s) next skip again cut clean skipped onward =
    copy_line-Sound buffer text (c ∷ s) next again cut clean onward

find_text-Sound :
    (continuation : Bool) (buffer text : Bytes) (next : Option Bytes)
    (skip again : Bytes → Option Result)
    → Cut buffer text next
    → ((rest : Bytes) → next ≡ some rest → Sound rest (skip rest))
    → ((rest : Bytes) → next ≡ some rest → Sound rest (again rest))
    → Sound buffer (Option.map count_line (find_text continuation text next skip again))
unfolding find_text count_line
find_text-Sound true buffer text none skip again cut skipped onward = tt
find_text-Sound true buffer text (some rest) skip again cut skipped onward =
    copy_line-Sound buffer text text (some rest) again cut cut.clean onward
find_text-Sound false buffer text next skip again cut skipped onward =
    skip_or_copy-Sound buffer text (useful text) next skip again cut (useful_clean text cut.clean)
      skipped onward

pub rest_shorter :
    (buffer rest : Bytes) → (next_line buffer).1 ≡ some rest → length rest < length buffer
rest_shorter buffer rest h =
    let text = (next_line buffer).0 in
    omega (
      arith,
      ap length ((next_line-Cut buffer).shorter rest h),
      length-append (text ++ (b'\n' ∷ [])) rest,
      length-append text (b'\n' ∷ []),
    )

get_line-Sound :
    (fuel : ℕ) (continuation : Bool) (buffer : Bytes)
    → length buffer < fuel
    → Sound buffer (get_line fuel continuation buffer)
unfolding get_line
get_line-Sound zero continuation buffer h = absurd (omega arith)
get_line-Sound (suc fuel) continuation [] h = tt
get_line-Sound (suc fuel) continuation (c ∷ s) h =
    let shorter : (rest : Bytes) → (next_line (c ∷ s)).1 ≡ some rest → length rest < fuel =
      λ rest e. omega (arith, h, rest_shorter (c ∷ s) rest e) in
    find_text-Sound continuation (c ∷ s) (next_line (c ∷ s)).0 (next_line (c ∷ s)).1
      (get_line fuel false) (get_line fuel true) (next_line-Cut (c ∷ s))
      (λ rest e. get_line-Sound fuel false rest (shorter rest e))
      λ rest e. get_line-Sound fuel true rest (shorter rest e)

-- `get_line_from_buffer` returns on every buffer, unless an assertion fails or it copies a line of
-- negative length. The line it leaves has no newline; and if it does not return NULL, the line is
-- not empty and does not end with a backslash, the pointer returned is a place in the buffer, and
-- `*lineCount` grew by the number of newlines in front of it.
pub get_line_from_buffer-Sound : (buffer : Bytes) → Sound buffer (get_line_from_buffer buffer)
get_line_from_buffer-Sound buffer = get_line-Sound (length buffer + 1) false buffer (omega arith)
