-- ===== src/Discovery/Annotations.antt =====
-- internal/discovery/annotations.go: the annotations of an object, parsed into one spec for each
-- endpoint. The YAML decoder is a parameter: its answer for a text that is decoded into `any`
-- (`none` for an error), and into `[]any` (a nil list has no items).
pub mod Readers
pub mod Keys
use gatus_sidecar.Prelude.{
  ℕ, String, Bool, true, false, ◌||◌, Option, none, some, List, [], ◌∷◌, ◌==◌, string_eq, num_eq,
  if◌then◌else◌,
}
use Prim.Native.Char.{Char, code}
use gatus_sidecar.Prelude.Assoc
use gatus_sidecar.Prelude.Assoc.{Assoc}
use gatus_sidecar.Prelude.Text.{concat, trim_space, fields_func}
use gatus_sidecar.Value.{
  Value, null, int, float64, text, list, Items, no_items, item, Object, no_fields, field,
}
use gatus_sidecar.Value.Fields.{get}
use gatus_sidecar.Value.Number.{in_int64, decimal_int, whole_number}

abbrev pub Annotations : Type 0
Annotations = Assoc String String

-- `Key`
unfoldable pub key : String → String
unfolding concat
key suffix = concat ("gatus.kalexlab.xyz/" ∷ suffix ∷ [])

unfoldable pub raw_annotation : Annotations → String → Option String
unfolding key
raw_annotation annotations suffix = Assoc.lookup (key suffix) annotations

trimmed : Option String → Option String
trimmed none = none
trimmed (some v) = some (trim_space v)

unfoldable pub annotation : Annotations → String → Option String
unfolding trimmed
annotation annotations suffix = trimmed (raw_annotation annotations suffix)

-- Go's zero value for what is missing.
abbrev pub or_empty_string : Option String → String
or_empty_string none = ""
or_empty_string (some s) = s

abbrev pub is_present {ℓ} : {A : Type ℓ} → Option A → Bool
is_present none = false
is_present (some a) = true

-- Slices that are nil are `none`.
pub record Spec : Type 0 where
  pub name : String
  pub group : String
  pub group_set : Bool
  pub url : String
  pub scheme : String
  pub port : String
  pub path : String
  pub templates : Option (List String)
  pub templates_set : Bool
  pub extra_templates : Option (List String)
  pub patch : Option Object

-- What is wrong with an annotation; a text of the program names the key.
pub data Problem : Type 0 where
  at_key : String → Problem → Problem
  at_item : ℕ → Problem → Problem
  not_yaml : Problem
  not_a_list : Problem
  not_a_mapping : Problem
  not_a_string : String → Problem
  not_a_scalar : String → Problem
  not_whole : String → Problem
  not_strings : String → Problem

pub data Parsed {ℓ} (A : Type ℓ) : Type ℓ where
  ok : A → Parsed A
  bad : Problem → Parsed A

-- `if err != nil { return …, err }`, and what comes after.
unfoldable pub and_then {ℓ κ} : {A : Type ℓ} {B : Type κ} → Parsed A → (A → Parsed B) → Parsed B
and_then (ok a) next = next a
and_then (bad p) next = bad p

unfoldable pub wrap {ℓ} : {A : Type ℓ} → (Problem → Problem) → Parsed A → Parsed A
wrap f (ok a) = ok a
wrap f (bad p) = bad (f p)

unfoldable pub is_list_separator : Char → Bool
is_list_separator c = num_eq (code c) 44 || num_eq (code c) 10

unfoldable pub trim_all : List String → List String
trim_all [] = []
trim_all (p ∷ ps) =
    let rest = trim_all ps in if trim_space p == "" then rest else trim_space p ∷ rest

nil_if_empty : List String → Option (List String)
nil_if_empty [] = none
nil_if_empty (s ∷ ss) = some (s ∷ ss)

unfoldable pub split_list : String → Option (List String)
unfolding nil_if_empty trim_all is_list_separator
split_list v = nil_if_empty (trim_all (fields_func is_list_separator v))

string_in : String → Option Value → Parsed String
string_in k none = ok ""
string_in k (some null) = ok ""
string_in k (some (text s)) = ok (trim_space s)
string_in k (some _) = bad (not_a_string k)

unfoldable pub string_field : Object → String → Parsed String
unfolding string_in
string_field obj k = string_in k (get k obj)

whole : String → Option String → Parsed String
whole k none = bad (not_whole k)
whole k (some s) = ok s

number_text : ℕ → Option String
number_text x = elim (whole_number x) [ none ↦ none | some n ↦ some (decimal_int n) ]

-- An integer that does not fit an int64 arrives as a uint64, which is not accepted.
scalar_in : String → Option Value → Parsed String
unfolding whole number_text
scalar_in k none = ok ""
scalar_in k (some null) = ok ""
scalar_in k (some (text s)) = ok (trim_space s)
scalar_in k (some (int n)) = if in_int64 n then ok (decimal_int n) else bad (not_a_scalar k)
scalar_in k (some (float64 x)) = whole k (number_text x)
scalar_in k (some _) = bad (not_a_scalar k)

unfoldable pub scalar_field : Object → String → Parsed String
unfolding scalar_in
scalar_field obj k = scalar_in k (get k obj)

strings_of : String → Items → Parsed (List String)
unfolding and_then
strings_of k no_items = ok []
strings_of k (item (text s) items) =
    and_then (strings_of k items)
      (λ rest. ok (if trim_space s == "" then rest else trim_space s ∷ rest))
strings_of k (item _ items) = bad (not_strings k)

-- A list that is written out is never nil.
list_in : String → Option Value → Parsed (Option (List String) × Bool)
unfolding strings_of split_list and_then
list_in k none = ok (none, false)
list_in k (some null) = ok (none, false)
list_in k (some (text s)) = ok (split_list s, true)
list_in k (some (list items)) = and_then (strings_of k items) (λ out. ok (some out, true))
list_in k (some _) = bad (not_strings k)

unfoldable pub list_field : Object → String → Parsed (Option (List String) × Bool)
unfolding list_in
list_field obj k = list_in k (get k obj)

abbrev pub is_one_of : String → List String → Bool
is_one_of s [] = false
is_one_of s (t ∷ ts) = t == s || is_one_of s ts

abbrev pub control_keys : List String
control_keys =
    "scheme" ∷ "port" ∷ "path" ∷ "template" ∷ "template-extra" ∷ "enabled" ∷ "exclude"
    ∷ "exclude-route" ∷ "traefik-service" ∷ []

abbrev pub identity_keys : List String
identity_keys = "name" ∷ "group" ∷ "url" ∷ []

unfoldable pub is_consumed : String → Bool
is_consumed k = is_one_of k control_keys || is_one_of k identity_keys

-- The fields that are not consumed; the keys are distinct, so each assignment adds a field.
unfoldable pub patch_of : Object → Object
patch_of no_fields = no_fields
patch_of (field k v obj) = let rest = patch_of obj in if is_consumed k then rest else field k v rest

nil_if_no_fields : Object → Option Object
nil_if_no_fields no_fields = none
nil_if_no_fields (field k v o) = some (field k v o)

-- Whether the key is there, and its value. A group of null is an empty one.
pub group_in : Object → Option Value → Parsed (String × Bool)
unfolding and_then
group_in obj none = ok ("", false)
group_in obj (some null) = ok ("", true)
group_in obj (some _) = and_then (string_field obj "group") (λ g. ok (g, true))

unfoldable pub spec_from_object : Object → Parsed Spec
unfolding and_then group_in nil_if_no_fields patch_of
spec_from_object obj = and_then (string_field obj "name") λ name.
    and_then (string_field obj "url") λ url. and_then (string_field obj "scheme") λ scheme.
      and_then (string_field obj "path") λ path. and_then (scalar_field obj "port") λ port.
        and_then (group_in obj (get "group" obj)) λ group.
          and_then (list_field obj "template") λ templates.
            and_then (list_field obj "template-extra") λ extra. ok (record {
              name = name;
              group = group.0;
              group_set = group.1;
              url = url;
              scheme = scheme;
              port = port;
              path = path;
              templates = templates.0;
              templates_set = templates.1;
              extra_templates = extra.0;
              patch = nil_if_no_fields (patch_of obj);
            })
