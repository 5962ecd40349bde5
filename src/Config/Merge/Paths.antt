-- ===== src/Config/Merge/Paths.antt =====
-- About `mergeInto` of internal/config/merge.go: the values at paths of keys.
use gatus_sidecar.Prelude.{
  String, ◌≡◌, refl, ◌∙◌, ap, inl, inr, Option, none, some, List, [], ◌∷◌, arith, ◌==◌, subst,
  Bool-cases, sym, string_eq, some_inj, none≢some, Option-cases,
}
use mathlib.Core.Option
use gatus_sidecar.Value.{
  Value, null, boolean, int, float64, text, list, object, any_map, Object, no_fields, field, AnyMap,
  no_entries, entry,
}
use gatus_sidecar.Value.Fields.{get, HasUniqueFields}
use gatus_sidecar.Config.Merge.{
  string_fields, as_object, copy_value, copy_object, copy_entries, merge_value,
}
use gatus_sidecar.Config.Merge.Laws.{
  overlay, merged, get-merge_into, get-copy_object, merge_value_lem, overlay_opaque,
  copy_string_entries_lem,
}

-- Every mapping that can be read as an Object has each key once, at every depth.
unfoldable mutual
  pub WellFormed : Value → Type 0
  WellFormed null = Unit
  WellFormed (boolean b) = Unit
  WellFormed (int n) = Unit
  WellFormed (float64 x) = Unit
  WellFormed (text s) = Unit
  WellFormed (list xs) = Unit
  WellFormed (object m) = HasUniqueFields m × WellFormedFields m
  WellFormed (any_map m) =
      ((o : Object) → string_fields m ≡ some o → HasUniqueFields o) × WellFormedEntries m

  pub WellFormedFields : Object → Type 0
  WellFormedFields no_fields = Unit
  WellFormedFields (field k v m) = WellFormed v × WellFormedFields m

  pub WellFormedEntries : AnyMap → Type 0
  WellFormedEntries no_entries = Unit
  WellFormedEntries (entry k v m) = WellFormed v × WellFormedEntries m

-- The value under a key, where the value is a mapping that has it.
field_of : String → Option Object → Option Value
field_of k none = none
field_of k (some m) = get k m

abbrev child : String → Value → Option Value
child k v = field_of k (as_object v)

-- The value that stands under a path of keys.
unfoldable pub get_path : List String → Value → Option Value
unfolding field_of
get_path [] v = some v
get_path (k ∷ path) v = elim (child k v) [ none ↦ none | some w ↦ get_path path w ]

-- One step of a path, with `child` shut.
get_path-cons :
    (k : String) (path : List String) (v w : Value)
    → child k v ≡ some w
    → get_path (k ∷ path) v ≡ get_path path w
unfolding get_path
get_path-cons k path v w h = rw (h, get_path)

get_path-none :
    (k : String) (path : List String) (v : Value) → child k v ≡ none → get_path (k ∷ path) v ≡ none
unfolding get_path
get_path-none k path v h = rw (h, get_path)

string_fields-WellFormed :
    (m : AnyMap) (o : Object) → string_fields m ≡ some o → WellFormedEntries m → WellFormedFields o
unfolding string_fields WellFormed
string_fields-WellFormed no_entries o h w = subst WellFormedFields (some_inj h) tt
string_fields-WellFormed (entry (text k) v m) o h w = elim (Option-cases (string_fields m)) [
  | inl e ↦ absurd (ground arith)
  | inr (o', e) ↦
      let same : field k v o' ≡ o = ground arith in
      subst WellFormedFields same (w.0, string_fields-WellFormed m o' e w.1)
]
string_fields-WellFormed (entry _ v m) o h w = cc

as_object-WellFormed :
    (v : Value) (o : Object)
    → as_object v ≡ some o
    → WellFormed v
    → HasUniqueFields o × WellFormedFields o
unfolding as_object WellFormed
as_object-WellFormed (object m) o h w =
    subst (λ x. HasUniqueFields x × WellFormedFields x) (some_inj h) w
as_object-WellFormed (any_map m) o h w = (w.0 o h, string_fields-WellFormed m o h w.1)
as_object-WellFormed _ o h w = cc

get-WellFormed :
    (k : String) (m : Object) (v : Value) → get k m ≡ some v → WellFormedFields m → WellFormed v
unfolding get WellFormed
get-WellFormed k no_fields v h w = cc
get-WellFormed k (field j x m) v h w = elim (Bool-cases (j == k)) [
  | inl same ↦ subst WellFormed (some_inj (rw same at h)) w.0
  | inr other ↦ get-WellFormed k m v (rw other at h) w.1
]

copy_entries-opaque : (m : AnyMap) → string_fields m ≡ none → string_fields (copy_entries m) ≡ none
unfolding string_fields copy_value
copy_entries-opaque no_entries h = cc
copy_entries-opaque (entry (text k) v m) h = ground (arith, copy_entries-opaque m)
copy_entries-opaque (entry _ v m) h = refl

-- A mapping is read the same way in a copy.
as_object-copy : (v : Value) → as_object (copy_value v) ≡ Option.map copy_object (as_object v)
unfolding as_object copy_value
as_object-copy (any_map m) = elim (Option-cases (string_fields m)) [
  | inl e ↦ rw e (copy_entries-opaque m e)
  | inr (o, e) ↦ rw e (ap some (copy_string_entries_lem m o e))
]
as_object-copy (object m) = refl
as_object-copy _ = refl

child-copy : (k : String) (v : Value) → child k (copy_value v) ≡ Option.map copy_value (child k v)
unfolding field_of
child-copy k v = elim (Option-cases (as_object v)) [
  | inl e ↦ rw (as_object-copy v, e)
  | inr (m, e) ↦ rw (as_object-copy v, e) (get-copy_object k m)
]

get_path-copy :
    (path : List String) (v : Value)
    → get_path path (copy_value v) ≡ Option.map copy_value (get_path path v)
get_path-copy [] v = unfold get_path in refl
get_path-copy (k ∷ path) v = elim (Option-cases (child k v)) [
  | inl e ↦ rw (
    get_path-none k path v e,
    get_path-none k path (copy_value v) (child-copy k v ∙ ap (Option.map copy_value) e),
  )
  | inr (w, e) ↦
      rw
        (
          get_path-cons k path v w e,
          get_path-cons k path (copy_value v) (copy_value w)
              (child-copy k v ∙ ap (Option.map copy_value) e),
        )
        (get_path-copy path w)
]

-- What the merged value holds under a key is written over something there.
child-merge_value :
    (k : String) (d v x : Value)
    → WellFormed v
    → child k v ≡ some x
    → (o : Option Value) × (child k (merge_value d v) ≡ some (overlay o x))
unfolding field_of
child-merge_value k d v x wf h = elim (Option-cases (as_object v)) [
  | inl e ↦ absurd (none≢some (rw e at h))
  | inr (s, e) ↦
      let at_key : get k s ≡ some x = rw e at h in
      elim (Option-cases (as_object d)) [
        | inl g ↦
            (none, rw (merge_value_lem d v, e, g, as_object-copy v, e, get-copy_object k s, at_key))
        | inr (m, g) ↦ (
          get k (copy_object m),
          rw (merge_value_lem d v, e, g)
              (unfold as_object in
                get-merge_into k (copy_object m) s (as_object-WellFormed v s e wf).0
                ∙ ap (merged (get k (copy_object m))) at_key),
        )
      ]
]

child-WellFormed : (k : String) (v x : Value) → WellFormed v → child k v ≡ some x → WellFormed x
unfolding field_of
child-WellFormed k v x wf h = elim (Option-cases (as_object v)) [
  | inl e ↦ absurd (none≢some (rw e at h))
  | inr (s, e) ↦ get-WellFormed k s x (rw e at h) (as_object-WellFormed v s e wf).1
]

-- Whatever a value is merged over, what it holds under a path stands there afterwards, unless
-- that is itself a mapping.
pub get_path-merge_value :
    (path : List String) (d v w : Value)
    → WellFormed v
    → get_path path v ≡ some w
    → as_object w ≡ none
    → get_path path (merge_value d v) ≡ some (copy_value w)
get_path-merge_value [] d v w wf h opaque =
    let e : v ≡ w = unfold get_path in some_inj h in
    unfold get_path in
    ap some
      (overlay_opaque (some d) v (subst (λ x. as_object x ≡ none) (sym e) opaque) ∙ ap copy_value e)
get_path-merge_value (k ∷ path) d v w wf h opaque = elim (Option-cases (child k v)) [
  | inl e ↦ absurd (none≢some (sym (get_path-none k path v e) ∙ h))
  | inr (x, e) ↦
      let rest : get_path path x ≡ some w = sym (get_path-cons k path v x e) ∙ h in
      let (o, f) = child-merge_value k d v x wf e in
      let wfx = child-WellFormed k v x wf e in
      get_path-cons k path (merge_value d v) (overlay o x) f
      ∙ under o x rest (λ d'. get_path-merge_value path d' x w wfx rest opaque)
]
  where
    under :
        (o : Option Value) (x : Value)
        → get_path path x ≡ some w
        → ((d' : Value) → get_path path (merge_value d' x) ≡ some (copy_value w))
        → get_path path (overlay o x) ≡ some (copy_value w)
    under none x rest ih = get_path-copy path x ∙ ap (Option.map copy_value) rest
    under (some d') x rest ih = ih d'
