-- ===== src/Parse/Examples.antt =====
-- The theorems about parameters, quoting and units at concrete inputs, and tests.
use mstone.Base.{◌*◌, ◌≡◌, ◌≤◌, List, [], ◌∷◌, ◌++◌, codes, length, pos, arith}
use mstone.Parse.Params.{ParamNode, param_list_add, Rebinds, Adds, param_list_add-get}
use mstone.Parse.Unquote.{
  string_unquote, encode_all, string_unquote-encode_all, length-string_unquote,
}
use mstone.Parse.Units.{time_atoi, millitime_atoi, numeral, value, minutes, time_atoi-numeral}

abbrev defaults : List ParamNode
defaults =
    record { name = codes "numloops"; value = codes "1" }
    ∷ record { name = codes "weight"; value = codes "100" }
    ∷ []

param_list_add-get_example :
    Rebinds defaults
      (codes "weight")
      (codes "5")
      (param_list_add defaults (codes "weight") (codes "5")).0
    × Adds defaults (codes "weight") (param_list_add defaults (codes "weight") (codes "5"))
param_list_add-get_example = param_list_add-get defaults (codes "weight") (codes "5")

string_unquote-encode_all_example :
    string_unquote (b'"' ∷ (encode_all (codes "a\"\\") ++ (b'"' ∷ []))) ≡ codes "a\"\\"
string_unquote-encode_all_example = string_unquote-encode_all (codes "a\"\\") (omega arith)

length-string_unquote_example : length (string_unquote (codes "\"a\\n\"")) ≤ 5
length-string_unquote_example = length-string_unquote (codes "\"a\\n\"")

time_atoi-numeral_example :
    (time_atoi (numeral (1 ∷ 5 ∷ []) ++ (b'm' ∷ [])) ≡ pos (60 * value (1 ∷ 5 ∷ [])))
    × (millitime_atoi (numeral (1 ∷ 5 ∷ []) ++ (b'm' ∷ [])) ≡ pos (60 * 1000 * value (1 ∷ 5 ∷ [])))
time_atoi-numeral_example = time_atoi-numeral 1 (5 ∷ []) b'm' 60 (omega arith) minutes (omega arith)
