-- ===== src/Parse/Lines/Examples.antt =====
-- The theorems about lines and sections at concrete inputs, and tests.

use mstone.Base.{◌≡◌, refl, List, [], ◌∷◌, ◌++◌, some, Bytes, codes, arith}
use mstone.Parse.Lines.{
  next_line, until_comment, keep_end, trim_end, trim_start, continued, line_read, aborted,
  count_line, append_to, go_on, finish_line, copy_line, useful, skip_or_copy, find_text, get_line,
  get_line_from_buffer,
}
use mstone.Parse.Lines.Sound.{Sound, get_line_from_buffer-Sound}
use mstone.Parse.Lines.Tidy.{unlines, useful_lines, read_on, read_lines, AreTidy, read_lines_tidy}

abbrev nl : Bytes
nl = b'\n' ∷ []

abbrev block : List Bytes
block =
    codes "# defaults"
    ∷ codes "<DEFAULT>  "
    ∷ []
    ∷ codes "  weight 5 # heavy"
    ∷ codes "</DEFAULT>"
    ∷ []

get_line_from_buffer-Sound_example :
    Sound
      (codes "# x" ++ nl ++ codes "ab" ++ nl)
      (get_line_from_buffer (codes "# x" ++ nl ++ codes "ab" ++ nl))
get_line_from_buffer-Sound_example =
    get_line_from_buffer-Sound (codes "# x" ++ nl ++ codes "ab" ++ nl)

block-AreTidy : AreTidy block
unfolding continued useful until_comment trim_end trim_start keep_end
block-AreTidy = grind (arith)

read_lines_tidy_example : read_lines 6 (unlines block) ≡ some (useful_lines block)
read_lines_tidy_example = read_lines_tidy block 6 block-AreTidy (omega arith)

block_seen : useful_lines block ≡ codes "<DEFAULT>" ∷ codes "weight 5" ∷ codes "</DEFAULT>" ∷ []
unfolding useful until_comment trim_end trim_start keep_end
block_seen = refl

-- A continued line is joined to the one behind it, which keeps its white space.
joined_line :
    get_line_from_buffer (codes "ab\\" ++ nl ++ codes " c # d" ++ nl ++ codes "e" ++ nl)
    ≡ some (line_read (codes "ab c # d") (some (codes "e" ++ nl)) 2)
unfolding get_line find_text skip_or_copy copy_line finish_line go_on append_to count_line continued
    useful until_comment trim_end trim_start keep_end next_line
joined_line = refl

-- The last line of a file is lost to the parser's loop if no newline is behind it, and an assertion
-- fails if there is only a comment in it, or if a continued line is followed by an empty one.
last_line_lost : read_lines 3 (codes "a" ++ nl ++ codes "b") ≡ some (codes "a" ∷ [])
unfolding read_lines read_on get_line find_text skip_or_copy copy_line finish_line go_on append_to
    count_line continued useful until_comment trim_end trim_start keep_end next_line
last_line_lost = refl

comment_aborts : get_line_from_buffer (codes "# end") ≡ some aborted
unfolding get_line find_text skip_or_copy copy_line finish_line go_on append_to count_line continued
    useful until_comment trim_end trim_start keep_end next_line
comment_aborts = refl

empty_continuation_aborts : get_line_from_buffer (codes "a\\" ++ nl ++ nl) ≡ some aborted
unfolding get_line find_text skip_or_copy copy_line finish_line go_on append_to count_line continued
    useful until_comment trim_end trim_start keep_end next_line
empty_continuation_aborts = refl
