-- ===== src/Registry/Compare.antt =====
-- `equalEndpoints` of internal/registry/registry.go and what it calls. A comparison that panics is
-- `none`: Go's `==` on two values of type `any` panics where both hold a `map[any]any`.
use gatus_sidecar.Prelude.{
  ℕ, suc, String, Bool, true, false, not, ◌&&◌, ◌||◌, Option, none, some, List, [], ◌∷◌, ◌==◌,
  nat_eq, string_eq, if◌then◌else◌,
}
use gatus_sidecar.Value.{
  ℤ, pos, negsuc, Value, null, boolean, int, float64, text, list, object, any_map, Items, no_items,
  item, Object, no_fields, field,
}
use gatus_sidecar.Value.Fields.{get, size}
use gatus_sidecar.Value.Float.{float_eq}
use gatus_sidecar.Config.Endpoint.{Endpoint}

unfoldable pub int_eq : ℤ → ℤ → Bool
int_eq (pos m) (pos n) = m == n
int_eq (negsuc m) (negsuc n) = m == n
int_eq _ _ = false

unfoldable pub bool_eq : Bool → Bool → Bool
bool_eq true b = b
bool_eq false b = not b

abbrev pub length : Items → ℕ
length no_items = 0
length (item v xs) = suc (length xs)

-- `if !x { return false }; …` where `x` may panic.
abbrev pub and_then : Option Bool → Option Bool → Option Bool
and_then none rest = none
and_then (some false) rest = some false
and_then (some true) rest = rest

-- `other, present := bv[k]; if !present || !equalValue(v, other) { return false }`
abbrev pub if_present : (Value → Option Bool) → Option Value → Option Bool
if_present equal none = some false
if_present equal (some other) = equal other

unfoldable mutual
  unfolding int_eq bool_eq

  pub equal_value : Value → Value → Option Bool
  equal_value (object a) (object b) =
      if not (size a == size b) then some false else equal_fields a b
  equal_value (list a) (list b) = if not (length a == length b) then some false else equal_items a b
  equal_value (any_map a) (any_map b) = none
  equal_value null null = some true
  equal_value (boolean a) (boolean b) = some (bool_eq a b)
  equal_value (int a) (int b) = some (int_eq a b)
  equal_value (float64 a) (float64 b) = some (float_eq a b)
  equal_value (text a) (text b) = some (a == b)
  equal_value _ _ = some false

  pub equal_fields : Object → Object → Option Bool
  equal_fields no_fields b = some true
  equal_fields (field k v a) b = and_then (if_present (equal_value v) (get k b)) (equal_fields a b)

  pub equal_items : Items → Items → Option Bool
  equal_items no_items b = some true
  equal_items (item v a) no_items = some true
  equal_items (item v a) (item w b) = and_then (equal_value v w) (equal_items a b)

unfoldable pub equal_strings : List String → List String → Bool
equal_strings [] [] = true
equal_strings (a ∷ as') (b ∷ bs) = a == b && equal_strings as' bs
equal_strings _ _ = false

-- A nil Object has no fields.
abbrev pub patch_value : Option Object → Value
patch_value none = object no_fields
patch_value (some o) = object o

-- The fields that are compared by `!=`.
unfoldable pub same_plain : Endpoint → Endpoint → Bool
unfolding bool_eq
same_plain a b =
    a.source == b.source
    && a.source_ref == b.source_ref
    && a.name == b.name
    && a.group == b.group
    && a.url == b.url
    && a.host == b.host
    && a.port == b.port
    && a.path == b.path
    && a.scheme == b.scheme
    && bool_eq a.templates_set b.templates_set

unfoldable pub equal_endpoint : Endpoint → Endpoint → Option Bool
unfolding same_plain equal_strings equal_value bool_eq
equal_endpoint a b =
    if not (same_plain a b)
    then some false
    else if not (equal_strings a.templates b.templates)
        || not (equal_strings a.extra_templates b.extra_templates)
    then some false
    else equal_value (patch_value a.patch) (patch_value b.patch)

unfoldable pub same_length {ℓ} : {A : Type ℓ} → List A → List A → Bool
same_length [] [] = true
same_length (a ∷ as') (b ∷ bs) = same_length as' bs
same_length _ _ = false

unfoldable pub equal_pairwise : List Endpoint → List Endpoint → Option Bool
unfolding equal_endpoint
equal_pairwise (a ∷ as') (b ∷ bs) = and_then (equal_endpoint a b) (equal_pairwise as' bs)
equal_pairwise _ _ = some true

unfoldable pub equal_endpoints : List Endpoint → List Endpoint → Option Bool
unfolding same_length equal_pairwise
equal_endpoints a b = if not (same_length a b) then some false else equal_pairwise a b
