-- ===== src/Discovery/Annotations/Readers.antt =====
-- About the readers of single fields in internal/discovery/annotations.go: which values they take.
use gatus_sidecar.Prelude.{
  String, ◌≡◌, refl, subst, Bool, true, false, Option, none, some, List, ◌∷◌, string_eq, ◌==◌,
  if◌then◌else◌, if_elim,
}
use gatus_sidecar.Prelude.Text.{trim_space}
use gatus_sidecar.Value.{Value, ℤ, null, int, float64, text, list, Items, no_items, item, Object}
use gatus_sidecar.Value.Number.{in_int64, decimal_int, whole_number}
use gatus_sidecar.Value.Fields.{get}
use gatus_sidecar.Discovery.Annotations.{
  Parsed, ok, bad, and_then, is_present, string_in, string_field, whole, number_text, scalar_in,
  scalar_field, strings_of, list_in, list_field, group_in,
}

-- What the value under a key must be: nothing, null or a text; or a whole number as well; or a list
-- of texts.
abbrev pub is_text : Option Value → Bool
is_text none = true
is_text (some null) = true
is_text (some (text t)) = true
is_text (some _) = false

abbrev pub is_scalar : Option Value → Bool
is_scalar none = true
is_scalar (some null) = true
is_scalar (some (text t)) = true
is_scalar (some (int n)) = in_int64 n
is_scalar (some (float64 x)) = is_present (whole_number x)
is_scalar (some _) = false

abbrev pub are_texts : Items → Bool
are_texts no_items = true
are_texts (item (text t) items) = are_texts items
are_texts (item _ items) = false

abbrev pub is_names : Option Value → Bool
is_names none = true
is_names (some null) = true
is_names (some (text t)) = true
is_names (some (list items)) = are_texts items
is_names (some _) = false

abbrev pub text_of : Option Value → String
text_of (some (text t)) = trim_space t
text_of _ = ""

-- A value that is as it must be is read, and no other.
abbrev pub Answers : {A : Type 0} → Bool → (A → Type 0) → Parsed A → Type 0
Answers fits P (ok a) = (fits ≡ true) × P a
Answers fits P (bad p) = fits ≡ false

string_in-Answers :
    (k : String) (v : Option Value) → Answers (is_text v) (λ s. s ≡ text_of v) (string_in k v)
unfolding string_in
string_in-Answers k none = (refl, refl)
string_in-Answers k (some null) = (refl, refl)
string_in-Answers k (some (text t)) = (refl, refl)
string_in-Answers k (some _) = refl

pub string_field-Answers :
    (obj : Object) (k : String)
    → Answers (is_text (get k obj)) (λ s. s ≡ text_of (get k obj)) (string_field obj k)
unfolding string_field
string_field-Answers obj k = string_in-Answers k (get k obj)

scalar_in-fits :
    (k : String) (v : Option Value) → Answers (is_scalar v) (λ s. Unit {0}) (scalar_in k v)
unfolding scalar_in whole number_text
scalar_in-fits k none = (refl, tt)
scalar_in-fits k (some null) = (refl, tt)
scalar_in-fits k (some (text t)) = (refl, tt)
scalar_in-fits k (some (int n)) =
    if_elim (Answers (in_int64 n) (λ (s : String). Unit {0})) (in_int64 n) _ _ (λ h. (h, tt))
      (λ h. h)
scalar_in-fits k (some (float64 x)) = of_number (whole_number x)
  where
    of_number :
        (n : Option ℤ)
        → Answers
            (is_present n)
            (λ (s : String). Unit {0})
            (whole k (elim n [ none ↦ none | some m ↦ some (decimal_int m) ]))
    of_number none = unfold whole in refl
    of_number (some m) = unfold whole in (refl, tt)
scalar_in-fits k (some _) = refl

strings_of-fits :
    (k : String) (items : Items) → Answers (are_texts items) (λ l. Unit {0}) (strings_of k items)
unfolding strings_of
strings_of-fits k no_items = (refl, tt)
strings_of-fits k (item (text t) items) = after (strings_of k items) (strings_of-fits k items)
  where
    after :
        (r : Parsed (List String))
        → Answers (are_texts items) (λ l. Unit {0}) r
        → Answers
            (are_texts items)
            (λ l. Unit {0})
            (and_then r (λ rest. ok (if trim_space t == "" then rest else trim_space t ∷ rest)))
    after (ok l) h = unfold and_then in h
    after (bad p) h = unfold and_then in h
strings_of-fits k (item _ items) = refl

list_in-fits : (k : String) (v : Option Value) → Answers (is_names v) (λ l. Unit {0}) (list_in k v)
unfolding list_in
list_in-fits k none = (refl, tt)
list_in-fits k (some null) = (refl, tt)
list_in-fits k (some (text t)) = (refl, tt)
list_in-fits k (some (list items)) = after (strings_of k items) (strings_of-fits k items)
  where
    after :
        (r : Parsed (List String))
        → Answers (are_texts items) (λ l. Unit {0}) r
        → Answers
            (are_texts items)
            (λ l. Unit {0})
            (and_then {B = Option (List String) × Bool} r (λ out. ok (some out, true)))
    after (ok l) h = unfold and_then in h
    after (bad p) h = unfold and_then in h
list_in-fits k (some _) = refl

-- What is read is what the reader gives.
is_read :
    {A : Type 0} (fits : Bool) (r : Parsed A)
    → Answers fits (λ a. Unit {0}) r
    → Answers fits (λ a. r ≡ ok a) r
is_read fits (ok a) h = (h.0, refl)
is_read fits (bad p) h = h

pub scalar_field-Answers :
    (obj : Object) (k : String)
    → Answers (is_scalar (get k obj)) (λ s. scalar_field obj k ≡ ok s) (scalar_field obj k)
unfolding scalar_field
scalar_field-Answers obj k = is_read _ _ (scalar_in-fits k (get k obj))

pub list_field-Answers :
    (obj : Object) (k : String)
    → Answers (is_names (get k obj)) (λ l. list_field obj k ≡ ok l) (list_field obj k)
unfolding list_field
list_field-Answers obj k = is_read _ _ (list_in-fits k (get k obj))

-- A group is there where its key is, whatever the value.
abbrev pub IsGroup : Option Value → String × Bool → Type 0
IsGroup v g = (g.0 ≡ text_of v) × (g.1 ≡ is_present v)

pub group_in-Answers :
    (obj : Object) (v : Option Value)
    → get "group" obj ≡ v
    → Answers (is_text v) (IsGroup v) (group_in obj v)
unfolding group_in
group_in-Answers obj none h = (refl, (refl, refl))
group_in-Answers obj (some null) h = (refl, (refl, refl))
group_in-Answers obj (some v) h = after (string_field obj "group") (
    subst (λ o. Answers (is_text o) (λ s. s ≡ text_of o) (string_field obj "group")) h
      (string_field-Answers obj "group"))
  where
    after :
        (r : Parsed String)
        → Answers (is_text (some v)) (λ s. s ≡ text_of (some v)) r
        → Answers (is_text (some v)) (IsGroup (some v)) (and_then r (λ g. ok (g, true)))
    after (ok s) a = unfold and_then in (a.0, (a.1, refl))
    after (bad p) a = unfold and_then in a
