-- ===== src/Prelude/Text.antt =====
-- The functions of Go's packages strings, strconv and fmt that the program calls, on native texts.
-- `to_lower` maps the letters A to Z and leaves every other character as it is.
pub mod Cut
pub mod Trim
pub mod Split
use Prim.Native.Nat.{ℕ, zero, suc, ◌+◌, ◌*◌, ◌/◌, ◌%◌, ◌-◌}
use Prim.Native.Char.{Char, code}
use Prim.Native.String.{String, [], ◌∷◌, ◌++◌}
use mathlib.Core.Bool.{Bool, true, false, ◌&&◌, ◌||◌}
use mathlib.Core.Option.{Option, none, some}
use mathlib.Core.List as L
use gatus_sidecar.Prelude.Tests.{if◌then◌else◌, leb, ltb, num_eq}
use gatus_sidecar.Prelude.Equality.{◌==◌, string_eq}

-- `fmt.Sprintf` of parts that stand next to one another.
unfoldable pub concat : L.List String → String
concat L.[] = ""
concat (L.◌∷◌ s parts) = s ++ concat parts

-- `strings.Join`
unfoldable pub join : String → L.List String → String
join sep L.[] = ""
join sep (L.◌∷◌ s L.[]) = s
join sep (L.◌∷◌ s (L.◌∷◌ t parts)) = s ++ sep ++ join sep (L.◌∷◌ t parts)

-- White space as `unicode.IsSpace` has it.
pub is_space : ℕ → Bool
is_space c =
    (leb 9 c && leb c 13)
    || num_eq c 32
    || num_eq c 0x85
    || num_eq c 0xa0
    || num_eq c 0x1680
    || (leb 0x2000 c && leb c 0x200a)
    || num_eq c 0x2028
    || num_eq c 0x2029
    || num_eq c 0x202f
    || num_eq c 0x205f
    || num_eq c 0x3000

trim_left : String → String
unfolding is_space
trim_left [] = ""
trim_left (c ∷ s) = let rest = trim_left s in if is_space (code c) then rest else c ∷ s

trim_right : String → String
unfolding is_space
trim_right [] = ""
trim_right (c ∷ s) =
    let rest = trim_right s in if is_space (code c) && rest == "" then "" else c ∷ rest

-- `strings.TrimSpace`
unfoldable pub trim_space : String → String
unfolding trim_left trim_right
trim_space s = trim_right (trim_left s)

translate : String → String → Char → Char
translate [] to c = c
translate (a ∷ from) [] c = c
translate (a ∷ from) (b ∷ to) c = if num_eq (code a) (code c) then b else translate from to c

abbrev upper_letters : String
upper_letters = "ABCDEFGHIJKLMNOPQRSTUVWXYZ"

abbrev lower_letters : String
lower_letters = "abcdefghijklmnopqrstuvwxyz"

-- `strings.ToLower`
unfoldable pub to_lower : String → String
unfolding translate
to_lower [] = ""
to_lower (c ∷ s) =
    (if leb 65 (code c) && leb (code c) 90 then translate upper_letters lower_letters c else c)
    ∷ to_lower s

-- `strings.EqualFold`
unfoldable pub equal_fold : String → String → Bool
unfolding to_lower
equal_fold s t = to_lower s == to_lower t

-- `strings.HasPrefix`
unfoldable pub has_prefix : String → String → Bool
has_prefix s [] = true
has_prefix [] (d ∷ p) = false
has_prefix (c ∷ s) (d ∷ p) = num_eq (code c) (code d) && has_prefix s p

drop_prefix : String → String → String
drop_prefix s [] = s
drop_prefix [] (d ∷ p) = ""
drop_prefix (c ∷ s) (d ∷ p) = drop_prefix s p

-- `strings.Cut` where the separator is found: the text before its first place, and the text behind.
unfoldable pub cut : String → String → Option (String × String)
unfolding has_prefix drop_prefix
cut [] sep = if sep == "" then some ("", "") else none
cut (c ∷ s) sep =
    let rest = cut s sep in
    if has_prefix (c ∷ s) sep
    then some ("", drop_prefix (c ∷ s) sep)
    else elim rest [ none ↦ none | some (before, after) ↦ some (c ∷ before, after) ]

push_first : Char → L.List String → L.List String
push_first c L.[] = L.◌∷◌ (c ∷ "") L.[]
push_first c (L.◌∷◌ w words) = L.◌∷◌ (c ∷ w) words

-- `strings.Split` by a separator of one character.
unfoldable pub split : String → Char → L.List String
unfolding push_first
split [] sep = L.◌∷◌ "" L.[]
split (c ∷ s) sep =
    let rest = split s sep in
    if num_eq (code c) (code sep) then L.◌∷◌ "" rest else push_first c rest

digit : ℕ → String
digit n = get_digit n "0123456789"
  where
    get_digit : ℕ → String → String
    get_digit n [] = ""
    get_digit zero (c ∷ s) = c ∷ ""
    get_digit (suc n) (c ∷ s) = get_digit n s

digits_within : ℕ → ℕ → String
unfolding digit
digits_within zero n = ""
digits_within (suc fuel) n =
    let rest = digits_within fuel (n / 10) in if ltb n 10 then digit n else rest ++ digit (n % 10)

-- `%d`; there are no more digits than the number's value and one.
unfoldable pub decimal : ℕ → String
unfolding digits_within
decimal n = digits_within (suc n) n

push_word : String → L.List String → L.List String
push_word w words = if w == "" then words else L.◌∷◌ w words

split_words : (Char → Bool) → String → String × L.List String
unfolding push_word
split_words is_separator [] = ("", L.[])
split_words is_separator (c ∷ s) =
    let (word, words) = split_words is_separator s in
    if is_separator c then ("", push_word word words) else (c ∷ word, words)

-- `strings.FieldsFunc`
unfoldable pub fields_func : (Char → Bool) → String → L.List String
unfolding split_words push_word
fields_func is_separator s = let (word, words) = split_words is_separator s in push_word word words

-- `strings.ContainsFunc`
unfoldable pub contains_func : (Char → Bool) → String → Bool
contains_func p [] = false
contains_func p (c ∷ s) = p c || contains_func p s

-- `r >= 'A' && r <= 'Z'`, which is `unicode.IsUpper` on the characters of a Kubernetes name.
unfoldable pub is_upper : Char → Bool
is_upper c = leb 65 (code c) && leb (code c) 90

-- `unicode.ToUpper` of the first character, on the letters a to z.
unfoldable pub capitalise : String → String
unfolding translate
capitalise [] = ""
capitalise (c ∷ s) = translate lower_letters upper_letters c ∷ s

-- The digits of a decimal number, from the left, given the value of those before them.
digits_value : ℕ → String → Option ℕ
digits_value n [] = some n
digits_value n (c ∷ s) =
    let rest = digits_value (10 * n + (code c - 48)) s in
    if leb 48 (code c) && leb (code c) 57 then rest else none

-- The digits, at least one.
unfoldable pub parse_digits : String → Option ℕ
unfolding digits_value
parse_digits [] = none
parse_digits (c ∷ s) = digits_value 0 (c ∷ s)
