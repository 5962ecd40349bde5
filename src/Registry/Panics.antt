-- ===== src/Registry/Panics.antt =====
-- About `equalValue` of internal/registry/registry.go, on values that are compared with themselves.
pub mod Resync
use gatus_sidecar.Prelude.{
  ℕ, ◌≡◌, refl, sym, ap, ◌∙◌, inl, inr, String, Bool, true, false, not, ◌&&◌, ◌||◌, Option, none,
  some, arith, ◌==◌, nat_eq, string_eq, if◌then◌else◌, Bool-cases, beq_refl, beq_of_ne, ne_of_beq,
  none≢some,
}
use gatus_sidecar.Value.{
  ℤ, pos, negsuc, Value, null, boolean, int, float64, text, list, object, any_map, Items, no_items,
  item, Object, no_fields, field,
}
use gatus_sidecar.Value.Fields.{get, size, HasUniqueFields}
use gatus_sidecar.Value.Float.{float_eq, is_nan}
use gatus_sidecar.Registry.Compare.{
  int_eq, bool_eq, length, and_then, equal_value, equal_fields, equal_items,
}

-- A `map[any]any` outside every other `map[any]any`.
unfoldable mutual
  pub has_any_map : Value → Bool
  has_any_map (list xs) = items_have_any_map xs
  has_any_map (object m) = fields_have_any_map m
  has_any_map (any_map m) = true
  has_any_map _ = false

  pub items_have_any_map : Items → Bool
  items_have_any_map no_items = false
  items_have_any_map (item v xs) = has_any_map v || items_have_any_map xs

  pub fields_have_any_map : Object → Bool
  fields_have_any_map no_fields = false
  fields_have_any_map (field k v m) = has_any_map v || fields_have_any_map m

-- Every map has each key once, and no number is a NaN, which Go holds unequal to itself.
unfoldable mutual
  pub IsPlain : Value → Type 0
  IsPlain (float64 x) = is_nan x ≡ false
  IsPlain (list xs) = ItemsArePlain xs
  IsPlain (object m) = HasUniqueFields m × FieldsArePlain m
  IsPlain _ = Unit

  pub ItemsArePlain : Items → Type 0
  ItemsArePlain no_items = Unit
  ItemsArePlain (item v xs) = IsPlain v × ItemsArePlain xs

  pub FieldsArePlain : Object → Type 0
  FieldsArePlain no_fields = Unit
  FieldsArePlain (field k v m) = IsPlain v × FieldsArePlain m

int_eq_refl : (n : ℤ) → int_eq n n ≡ true
unfolding int_eq
int_eq_refl (pos n) = beq_refl n
int_eq_refl (negsuc n) = beq_refl n

pub bool_eq_refl : (b : Bool) → bool_eq b b ≡ true
unfolding bool_eq
bool_eq_refl true = refl
bool_eq_refl false = refl

float_eq_refl : (x : ℕ) → is_nan x ≡ false → float_eq x x ≡ true
unfolding float_eq
float_eq_refl x h = ground arith

-- Every field of `a` stands in `b`.
abbrev IsPart : Object → Object → Type 0
IsPart no_fields b = Unit
IsPart (field k v a) b = (get k b ≡ some v) × IsPart a b

IsPart-field :
    (k : String) (w : Value) (a b : Object) → get k a ≡ none → IsPart a b → IsPart a (field k w b)
unfolding get
IsPart-field k w no_fields b h p = tt
IsPart-field k w (field j v a) b h p = elim (Bool-cases (j == k)) [
  | inl same ↦ absurd (none≢some {a = v} (sym h ∙ rw same))
  | inr other ↦ (
    rw (beq_of_ne k j (λ e. ne_of_beq j k other (sym e))) p.0,
    IsPart-field k w a b (rw other at h) p.1,
  )
]

IsPart-self : (m : Object) → HasUniqueFields m → IsPart m m
unfolding get
IsPart-self no_fields u = tt
IsPart-self (field k v m) u = (rw (beq_refl k), IsPart-field k v m m u.0 (IsPart-self m u.1))

-- The answer for a value that is compared with itself.
abbrev pub self_answer : Bool → Option Bool
self_answer true = none
self_answer false = some true

and_then_self : (a b : Bool) → and_then (self_answer a) (self_answer b) ≡ self_answer (a || b)
and_then_self a b = ground arith

mutual
  unfolding equal_value has_any_map IsPlain

  value_self : (v : Value) → IsPlain v → equal_value v v ≡ self_answer (has_any_map v)
  value_self null p = refl
  value_self (boolean b) p = rw (bool_eq_refl b)
  value_self (int n) p = rw (int_eq_refl n)
  value_self (float64 x) p = rw (float_eq_refl x p)
  value_self (text s) p = rw (beq_refl s)
  value_self (list xs) p = rw (beq_refl (length xs)) (items_self xs p)
  value_self (object m) p = rw (beq_refl (size m)) (fields_self m m (IsPart-self m p.0) p.1)
  value_self (any_map m) p = refl

  items_self :
      (xs : Items) → ItemsArePlain xs → equal_items xs xs ≡ self_answer (items_have_any_map xs)
  items_self no_items p = refl
  items_self (item v xs) p =
      rw (value_self v p.0, items_self xs p.1)
        (and_then_self (has_any_map v) (items_have_any_map xs))

  fields_self :
      (a b : Object)
      → IsPart a b
      → FieldsArePlain a
      → equal_fields a b ≡ self_answer (fields_have_any_map a)
  fields_self no_fields b part p = refl
  fields_self (field k v a) b part p =
      rw (part.0, value_self v p.0, fields_self a b part.1 p.1)
        (and_then_self (has_any_map v) (fields_have_any_map a))

-- A value compared with itself is equal, unless it holds a `map[any]any`: then the comparison panics.
pub equal_value_self : (v : Value) → IsPlain v → equal_value v v ≡ self_answer (has_any_map v)
equal_value_self v p = value_self v p
