-- ===== src/Parse/Lines.antt =====
-- src/parse.c, `get_line_from_buffer`: the next line of a command file, with comments and white
-- space off and continued lines joined. A buffer is the text in front of its NUL.
pub mod Clean
pub mod Sound
pub mod Tidy
mod Examples
use mathlib.Core.Option
use mstone.Base.{
  ℕ, zero, suc, ◌+◌, Bool, true, false, not, ◌||◌, ◌==◌, if◌then◌else◌, List, [], ◌∷◌, ◌++◌, Option,
  none, some, Bytes, length,
}

-- `strchr (buffer, '\n')`: the text in front of the first newline, and what is behind it
pub next_line : Bytes → Bytes × Option Bytes
next_line [] = ([], none)
next_line (c ∷ s) =
    let rest = next_line s in if c == b'\n' then ([], some s) else (c ∷ rest.0, rest.1)

-- `IS_WHITE`
abbrev pub is_white : ℕ → Bool
is_white c = c == b' ' || c == b'\t'

-- what `strcspn (buffer, "#\r\n")` counts, in a line
pub until_comment : Bytes → Bytes
until_comment [] = []
until_comment (c ∷ s) =
    let rest = until_comment s in if c == b'#' || c == b'\r' then [] else c ∷ rest

-- `end` moves down to the last character that is not white
pub keep_end : ℕ → Bytes → Bytes
keep_end c [] = if is_white c then [] else c ∷ []
keep_end c (d ∷ t) = c ∷ d ∷ t

pub trim_end : Bytes → Bytes
unfolding keep_end
trim_end [] = []
trim_end (c ∷ s) = keep_end c (trim_end s)

-- `buffer + strspn (buffer, " \t")`
pub trim_start : Bytes → Bytes
trim_start [] = []
trim_start (c ∷ s) = let rest = trim_start s in if is_white c then rest else c ∷ s

-- the text in front of the last character, if that is a backslash
pub continued : Bytes → Option Bytes
continued [] = none
continued (c ∷ []) = if c == b'\\' then some [] else none
continued (c ∷ d ∷ s) = elim (continued (d ∷ s)) [ none ↦ none | some t ↦ some (c ∷ t) ]

-- What a call leaves: the line, the pointer returned and the growth of `*lineCount`. A failed
-- `assert` is `aborted`, and so is the copy with a negative length that follows when a continued
-- line is the last one and has no newline.
pub data Result : Type 0 where
  line_read : Bytes → Option Bytes → ℕ → Result
  aborted : Result

-- a result with one more line counted, and one with `front` already in the line buffer
pub count_line : Result → Result
count_line (line_read line next n) = line_read line next (n + 1)
count_line aborted = aborted

pub append_to : Bytes → Result → Result
append_to front (line_read line next n) = line_read (front ++ line) next n
append_to front aborted = aborted

-- the recursive calls, whose first statement is `assert (buffer != NULL)`
pub go_on : Option Bytes → (Bytes → Option Result) → Option Result
go_on none call = some aborted
go_on (some buffer) call = call buffer

-- the copy into the line buffer: `again` is the recursive call on a continuation line
pub finish_line : Option Bytes → Bytes → Option Bytes → (Bytes → Option Result) → Option Result
unfolding go_on append_to
finish_line none line next again = some (line_read line next 0)
finish_line (some front) line next again = Option.map (append_to front) (go_on next again)

pub copy_line : Bytes → Option Bytes → (Bytes → Option Result) → Option Result
unfolding finish_line
copy_line [] next again = some aborted
copy_line (c ∷ s) next again = finish_line (continued (c ∷ s)) (c ∷ s) next again

-- the useful text of a line that is no continuation
pub useful : Bytes → Bytes
useful text = trim_start (trim_end (until_comment text))

-- an empty or blank line is skipped by the recursive call `skip`
pub skip_or_copy :
    Bytes → Option Bytes → (Bytes → Option Result) → (Bytes → Option Result) → Option Result
unfolding copy_line go_on
skip_or_copy [] next skip again = go_on next skip
skip_or_copy (c ∷ s) next skip again = copy_line (c ∷ s) next again

-- the two ways to find the text of a line
pub find_text :
    Bool → Bytes → Option Bytes → (Bytes → Option Result) → (Bytes → Option Result) → Option Result
unfolding copy_line skip_or_copy
find_text true text none skip again = some aborted
find_text true text (some next) skip again = copy_line text (some next) again
find_text false text next skip again = skip_or_copy (useful text) next skip again

-- `get_line_from_buffer`, on fuel; `none` when the fuel runs out
pub get_line : ℕ → Bool → Bytes → Option Result
unfolding find_text count_line
get_line zero continuation buffer = none
get_line (suc fuel) continuation [] = some (line_read [] none 0)
get_line (suc fuel) continuation (c ∷ s) =
    let cut = next_line (c ∷ s) in
    Option.map count_line
      (find_text continuation cut.0 cut.1 (get_line fuel false) (get_line fuel true))

-- Every recursive call is on a shorter buffer.
abbrev pub get_line_from_buffer : Bytes → Option Result
get_line_from_buffer buffer = get_line (length buffer + 1) false buffer
