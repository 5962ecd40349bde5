-- ===== src/Config/Merge.antt =====
-- internal/config/merge.go: deep copy and deep merge of decoded mappings.
--
-- Go's `mergeInto` and `deepCopyValue` first turn a `map[any]any` with string keys into an Object
-- (`asObject`) and recur on that. Here the recursion goes through the entries of the map itself
-- (`copy_entries`, `merge_entries`).
pub mod Laws
pub mod Layers
pub mod Paths
use gatus_sidecar.Prelude.{
  String, Option, none, some, List, [], ◌∷◌, Bool, true, false, if◌then◌else◌,
}
use gatus_sidecar.Value.{
  Value, null, boolean, int, float64, text, list, object, any_map, Items, no_items, item, Object,
  no_fields, field, AnyMap, no_entries, entry,
}
use gatus_sidecar.Value.Fields.{get, put}

-- The loop of `asObject` over a `map[any]any`; its keys are distinct, so each assignment adds a field.
unfoldable pub string_fields : AnyMap → Option Object
string_fields no_entries = some no_fields
string_fields (entry (text k) v m) = elim (string_fields m) [
  | none ↦ none
  | some o ↦ some (field k v o)
]
string_fields (entry _ v m) = none

unfoldable pub as_object : Value → Option Object
unfolding string_fields
as_object (object m) = some m
as_object (any_map m) = string_fields m
as_object _ = none

abbrev is_some {ℓ} : {A : Type ℓ} → Option A → Bool
is_some none = false
is_some (some a) = true

unfoldable mutual
  unfolding string_fields

  pub copy_value : Value → Value
  copy_value null = null
  copy_value (boolean b) = boolean b
  copy_value (int n) = int n
  copy_value (float64 x) = float64 x
  copy_value (text s) = text s
  copy_value (list xs) = list (copy_items xs)
  copy_value (object m) = object (copy_object m)
  copy_value (any_map m) =
      if is_some (string_fields m) then object (copy_string_entries m) else any_map (copy_entries m)

  pub copy_items : Items → Items
  copy_items no_items = no_items
  copy_items (item v xs) = item (copy_value v) (copy_items xs)

  pub copy_object : Object → Object
  copy_object no_fields = no_fields
  copy_object (field k v m) = field k (copy_value v) (copy_object m)

  -- `deepCopyObject(obj)` for the object that `asObject` makes of the entries.
  pub copy_string_entries : AnyMap → Object
  copy_string_entries no_entries = no_fields
  copy_string_entries (entry (text k) v m) = field k (copy_value v) (copy_string_entries m)
  copy_string_entries (entry _ v m) = no_fields

  -- The keys are not copied.
  pub copy_entries : AnyMap → AnyMap
  copy_entries no_entries = no_entries
  copy_entries (entry k v m) = entry k (copy_value v) (copy_entries m)

unfoldable mutual
  unfolding as_object string_fields copy_value

  -- One round of the loop of `mergeInto` for a key that is present: what is written over `dst`.
  pub merge_value : Value → Value → Value
  merge_value dst (object m) = elim (as_object dst) [
    | none ↦ copy_value (object m)
    | some d ↦ object (merge_into (copy_object d) m)
  ]
  merge_value dst (any_map m) =
      if is_some (string_fields m)
      then elim (as_object dst) [
        | none ↦ copy_value (any_map m)
        | some d ↦ object (merge_entries (copy_object d) m)
      ]
      else copy_value (any_map m)
  merge_value dst null = null
  merge_value dst (boolean b) = boolean b
  merge_value dst (int n) = int n
  merge_value dst (float64 x) = float64 x
  merge_value dst (text s) = text s
  merge_value dst (list xs) = list (copy_items xs)

  pub merge_into : Object → Object → Object
  merge_into dst no_fields = dst
  merge_into dst (field k v src) =
      merge_into (put k (elim (get k dst) [ none ↦ copy_value v | some d ↦ merge_value d v ]) dst)
        src

  -- `mergeInto` from the object that `asObject` makes of the entries.
  pub merge_entries : Object → AnyMap → Object
  merge_entries dst no_entries = dst
  merge_entries dst (entry (text k) v src) =
      merge_entries
        (put k (elim (get k dst) [ none ↦ copy_value v | some d ↦ merge_value d v ]) dst) src
  merge_entries dst (entry _ v src) = dst

-- `Merge(dst, src)`
unfoldable pub merge : Object → Object → Object
merge dst src = merge_into (copy_object dst) src

-- The loop of `MergeAll`: a nil layer is skipped.
merge_layers : Object → List (Option Object) → Object
merge_layers out [] = out
merge_layers out (none ∷ layers) = merge_layers out layers
merge_layers out (some layer ∷ layers) = merge_layers (merge_into out layer) layers

unfoldable pub merge_all : List (Option Object) → Object
unfolding merge_layers
merge_all layers = merge_layers no_fields layers
