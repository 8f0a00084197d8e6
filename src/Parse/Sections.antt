-- ===== src/Parse/Sections.antt =====
-- src/parse.c, `count_num_commands` and `check_hostname_attribute`, and src/main.c, `protocol_get`:
-- which sections of a command file are commands of this host.
use mstone.Base.{
  ℕ, zero, suc, ◌+◌, Bool, true, false, not, ◌&&◌, ◌==◌, leb, if◌then◌else◌, List, [], ◌∷◌, Option,
  none, some, ℤ, pos, negsuc, is_negative, Bytes, codes, starts_with, contains,
}
use mstone.Parse.Lines.{Result, line_read, aborted, get_line_from_buffer}

-- `tolower` of an ASCII character
abbrev pub to_lower : ℕ → ℕ
to_lower c = if leb b'A' c && leb c b'Z' then c + 32 else c

-- `0 == strnicmp (s, pat, strlen (pat))`
pub starts_with_nocase : Bytes → Bytes → Bool
starts_with_nocase [] s = true
starts_with_nocase (p ∷ ps) [] = false
starts_with_nocase (p ∷ ps) (c ∷ s) = to_lower p == to_lower c && starts_with_nocase ps s

-- `strstr (s, pat)`: the text from the first occurrence on
pub from_first : Bytes → Bytes → Option Bytes
from_first pat [] = if starts_with pat [] then some [] else none
from_first pat (c ∷ s) =
    let rest = from_first pat s in if starts_with pat (c ∷ s) then some (c ∷ s) else rest

-- the end of `check_hostname_attribute`, at the attribute: `strchr (hostp, '=')` passes its name,
-- which is `hosts`
pub check_hosts : Bytes → Option Bytes → Option Bytes → ℤ
check_hosts parsename (some hostp) upper = if contains parsename hostp then pos 1 else negsuc 0
check_hosts parsename none (some hostp) = if contains parsename hostp then pos 1 else negsuc 0
check_hosts parsename none none = pos 0

-- the text from the equals sign on
pub from_equals : Option Bytes → Option Bytes
unfolding from_first
from_equals none = none
from_equals (some hostp) = from_first (codes "=") hostp

-- `check_hostname_attribute`; `parsename` is `gs_parsename`
pub check_hostname_attribute : Bytes → Bytes → ℤ
unfolding check_hosts from_first from_equals
check_hostname_attribute parsename line =
    check_hosts parsename (from_equals (from_first (codes "hosts=") line))
      (from_equals (from_first (codes "HOSTS=") line))

-- `protocol_get`, on the names in `g_protocols`
pub protocol_get : List Bytes → Bytes → Option Bytes
unfolding starts_with_nocase
protocol_get [] name = none
protocol_get (p ∷ ps) name =
    let rest = protocol_get ps name in if starts_with_nocase p name then some p else rest

-- `line + 1`
pub behind : Bytes → Bytes
behind [] = []
behind (c ∷ s) = s

pub is_some : Option Bytes → Bool
is_some none = false
is_some (some s) = true

-- the tests of `count_num_commands` on a line
pub is_command : Bytes → List Bytes → Bytes → Bool
unfolding starts_with_nocase check_hostname_attribute protocol_get behind is_some
is_command parsename protocols line =
    starts_with (codes "<") line
    && (not (starts_with (codes "/") (behind line))
        && (not (starts_with_nocase (codes "default") (behind line))
            && (not (starts_with_nocase (codes "graph") (behind line))
                && (not (is_negative (check_hostname_attribute parsename line))
                    && is_some (protocol_get protocols (behind line))))))

-- `count_num_commands`, with `num_comms` so far: the loop reads lines as `read_lines` does
pub count_line_if : Bool → ℕ → ℕ
count_line_if true num_comms = num_comms + 1
count_line_if false num_comms = num_comms

pub count_on : Bytes → List Bytes → ℕ → (Bytes → ℕ → Option ℕ) → Option Result → Option ℕ
unfolding is_command count_line_if
count_on parsename protocols num_comms go none = none
count_on parsename protocols num_comms go (some aborted) = none
count_on parsename protocols num_comms go (some (line_read line none n)) = some num_comms
count_on parsename protocols num_comms go (some (line_read line (some rest) n)) =
    go rest (count_line_if (is_command parsename protocols line) num_comms)

pub count_num_commands : ℕ → Bytes → List Bytes → Bytes → ℕ → Option ℕ
unfolding count_on
count_num_commands zero parsename protocols cmdptr num_comms = none
count_num_commands (suc fuel) parsename protocols cmdptr num_comms =
    count_on parsename protocols num_comms
      (λ rest n. count_num_commands fuel parsename protocols rest n) (get_line_from_buffer cmdptr)
