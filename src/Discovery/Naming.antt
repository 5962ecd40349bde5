-- ===== src/Discovery/Naming.antt =====
-- internal/discovery/naming.go: readable names.
use Prim.Native.Char.{Char, code}
use gatus_sidecar.Prelude.{
  String, Bool, ◌||◌, List, [], ◌∷◌, ◌==◌, string_eq, num_eq, if◌then◌else◌,
}
use gatus_sidecar.Prelude.Text.{join, fields_func, contains_func, is_upper, capitalise}

-- `r == '-' || r == '_' || r == '.'`
unfoldable pub is_word_separator : Char → Bool
is_word_separator c = num_eq (code c) 45 || num_eq (code c) 95 || num_eq (code c) 46

from_words : String → List String → String
from_words name [] = name
from_words name (w ∷ words) = capitalise (join " " (w ∷ words))

unfoldable pub display_name : String → String
unfolding from_words
display_name name =
    if name == ""
    then ""
    else if contains_func is_upper name
    then name
    else from_words name (fields_func is_word_separator name)
