-- ===== src/Config/Merge/Laws.antt =====
-- About `mergeInto` of internal/config/merge.go: the value under each key.
use gatus_sidecar.Prelude.{
  String, ◌≡◌, refl, inl, inr, Option, none, some, arith, Option-cases, eq_or_ne, string_eq,
}
use mathlib.Core.Option
use gatus_sidecar.Value.{
  Value, text, object, any_map, Object, no_fields, field, AnyMap, no_entries, entry,
}
use gatus_sidecar.Value.Fields.{get, put, HasUniqueFields, get-put, put-HasUniqueFields}
use gatus_sidecar.Config.Merge.{
  string_fields, as_object, copy_value, copy_object, copy_string_entries, merge_value, merge_into,
  merge_entries,
}

-- The object that `asObject` makes has the copy and the merge that the source computes from it.
pub copy_string_entries_lem :
    (m : AnyMap) (o : Object) → string_fields m ≡ some o → copy_string_entries m ≡ copy_object o
unfolding copy_value string_fields
copy_string_entries_lem no_entries o h = ground arith
copy_string_entries_lem (entry (text k) v m) o h = elim (Option-cases (string_fields m)) [
  | inl e ↦ ground arith
  | inr (o', e) ↦ ground (arith, copy_string_entries_lem m o' e)
]
copy_string_entries_lem (entry _ v m) o h = cc

merge_entries_lem :
    (d : Object) (m : AnyMap) (o : Object)
    → string_fields m ≡ some o
    → merge_entries d m ≡ merge_into d o
unfolding merge_value string_fields
merge_entries_lem d no_entries o h = ground arith
merge_entries_lem d (entry (text k) v m) o h = elim (Option-cases (string_fields m)) [
  | inl e ↦ ground arith
  | inr (o', e) ↦ ground (
    arith,
    merge_entries_lem (put k (elim (get k d) [ none ↦ copy_value v | some w ↦ merge_value w v ]) d)
        m o' e,
  )
]
merge_entries_lem d (entry _ v m) o h = cc

-- What `mergeInto` writes under a key: a copy where the key is new, or the merge of the two values.
abbrev pub overlay : Option Value → Value → Value
overlay none v = copy_value v
overlay (some d) v = merge_value d v

abbrev pub merged : Option Value → Option Value → Option Value
merged d none = d
merged d (some v) = some (overlay d v)

pub merge_into-field :
    (k : String) (v : Value) (dst src : Object)
    → merge_into dst (field k v src) ≡ merge_into (put k (overlay (get k dst) v) dst) src
unfolding merge_value
merge_into-field k v dst src = elim (Option-cases (get k dst)) [ inl e ↦ rw e | inr (w, e) ↦ rw e ]

pub merge_into-no_fields : (dst : Object) → merge_into dst no_fields ≡ dst
unfolding merge_value
merge_into-no_fields dst = refl

-- Under every key of a merge stands the old value where the merged object lacks the key, and what
-- `mergeInto` writes over it otherwise.
pub get-merge_into :
    (j : String) (dst src : Object)
    → HasUniqueFields src
    → get j (merge_into dst src) ≡ merged (get j dst) (get j src)
unfolding get
get-merge_into j dst no_fields u = rw merge_into-no_fields
get-merge_into j dst (field k v src) u =
    let step = get-merge_into j (put k (overlay (get k dst) v) dst) src u.1 in
    rw (merge_into-field k v dst src) (elim (eq_or_ne k j) [
      | inl same ↦
          ground (arith, step, get-put k j (overlay (get k dst) v) dst, string_eq.beq_iff k j)
      | inr other ↦
          ground (arith, step, get-put k j (overlay (get k dst) v) dst, string_eq.beq_iff k j)
    ])

pub merge_into-HasUniqueFields :
    (dst src : Object) → HasUniqueFields dst → HasUniqueFields (merge_into dst src)
merge_into-HasUniqueFields dst no_fields u = rw merge_into-no_fields u
merge_into-HasUniqueFields dst (field k v src) u = rw merge_into-field (
    merge_into-HasUniqueFields (put k (overlay (get k dst) v) dst) src
      (put-HasUniqueFields k (overlay (get k dst) v) dst u))

pub get-copy_object :
    (j : String) (m : Object) → get j (copy_object m) ≡ Option.map copy_value (get j m)
unfolding copy_value get
get-copy_object j no_fields = refl
get-copy_object j (field k v m) = ground (arith, get-copy_object j m)

pub copy_object-HasUniqueFields : (m : Object) → HasUniqueFields m → HasUniqueFields (copy_object m)
unfolding copy_value get
copy_object-HasUniqueFields no_fields u = tt
copy_object-HasUniqueFields (field k v m) u =
    (rw (get-copy_object k m, u.0), copy_object-HasUniqueFields m u.1)

-- mergeInto's round for one key, as the source writes it: two mappings are merged, and anything
-- else is replaced by a copy.
pub merge_value_lem :
    (d v : Value)
    → merge_value d v ≡ elim (as_object v) [
      | none ↦ copy_value v
      | some s ↦ elim (as_object d) [
        | none ↦ copy_value v
        | some m ↦ object (merge_into (copy_object m) s)
      ]
    ]
unfolding merge_value as_object copy_value
merge_value_lem d (any_map m) = elim (Option-cases (string_fields m)) [
  | inl e ↦ ground arith
  | inr (o, e) ↦ elim (Option-cases (as_object d)) [
    | inl f ↦ ground arith
    | inr (p, f) ↦ ground (arith, merge_entries_lem (copy_object p) m o e)
  ]
]
merge_value_lem d (object m) = ground arith
merge_value_lem d _ = refl

-- Any value but a mapping replaces what it is merged over.
pub overlay_opaque :
    (d : Option Value) (v : Value) → as_object v ≡ none → overlay d v ≡ copy_value v
overlay_opaque none v h = refl
overlay_opaque (some d) v h = rw (merge_value_lem d v, h)
