-- ===== src/Value/Fields.antt =====
-- Lookup, assignment and deletion in a `map[string]any`, and their laws.
use gatus_sidecar.Prelude.{
  ℕ, suc, String, ◌≡◌, refl, ◌≢◌, inl, inr, Option, none, some, arith, ◌==◌, string_eq,
  if◌then◌else◌, Bool-cases, beq_refl, beq_of_ne,
}
use gatus_sidecar.Value.{Value, Object, no_fields, field}

-- `v, ok := m[k]`
unfoldable pub get : String → Object → Option Value
get k no_fields = none
get k (field j v m) = if j == k then some v else get k m

-- `m[k] = v`
unfoldable pub put : String → Value → Object → Object
put k v no_fields = field k v no_fields
put k v (field j w m) = if j == k then field j v m else field j w (put k v m)

-- `delete(m, k)`
unfoldable pub remove : String → Object → Object
remove k no_fields = no_fields
remove k (field j w m) = let rest = remove k m in if j == k then rest else field j w rest

-- `len(m)`
abbrev pub size : Object → ℕ
size no_fields = 0
size (field j w m) = suc (size m)

abbrev pub HasUniqueFields : Object → Type 0
HasUniqueFields no_fields = Unit
HasUniqueFields (field k v m) = (get k m ≡ none) × HasUniqueFields m

pub get-put :
    (k j : String) (v : Value) (m : Object)
    → get j (put k v m) ≡ (if k == j then some v else get j m)
unfolding get put
get-put k j v no_fields = refl
get-put k j v (field i w m) =
    ground
      (arith, string_eq.beq_iff k j, string_eq.beq_iff i k, string_eq.beq_iff i j, get-put k j v m)

pub get-put_self : (k : String) (v : Value) (m : Object) → get k (put k v m) ≡ some v
get-put_self k v m = rw (get-put k k v m, beq_refl k)

pub get-put_ne : (k j : String) (v : Value) (m : Object) → k ≢ j → get j (put k v m) ≡ get j m
get-put_ne k j v m h = rw (get-put k j v m, beq_of_ne k j h)

pub get-remove :
    (k j : String) (m : Object) → get j (remove k m) ≡ (if k == j then none else get j m)
unfolding get remove
get-remove k j no_fields = ground arith
get-remove k j (field i w m) =
    ground
      (arith, get-remove k j m, string_eq.beq_iff i k, string_eq.beq_iff i j, string_eq.beq_iff k j)

pub put-HasUniqueFields :
    (k : String) (v : Value) (m : Object) → HasUniqueFields m → HasUniqueFields (put k v m)
unfolding put get
put-HasUniqueFields k v no_fields u = (refl, tt)
put-HasUniqueFields k v (field j w m) u = elim (Bool-cases (j == k)) [
  | inl same ↦ rw same u
  | inr other ↦ rw other (
    ground (arith, get-put k j v m, string_eq.beq_iff j k, string_eq.beq_iff k j, u.0),
    put-HasUniqueFields k v m u.1,
  )
]
