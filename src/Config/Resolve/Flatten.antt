-- ===== src/Config/Resolve/Flatten.antt =====
-- What a template stands for: its chain of `extends` flattened by plain recursion, with no cache
-- and no stack, to a depth that is given. This is the specification of internal/config/resolve.go.
use gatus_sidecar.Prelude.{
  string_eq, ℕ, zero, suc, ◌+◌, ◌≤◌, ◌≡◌, refl, sym, ◌∙◌, inl, inr, String, Option, none, some,
  List, [], ◌∷◌, arith, none≢some, some_inj, Option-cases,
}
use native.Mathlib.Decide.{dec_le}
use gatus_sidecar.Prelude.Assoc
use gatus_sidecar.Value.{Object, no_fields}
use gatus_sidecar.Config.Merge.{merge_into}
use gatus_sidecar.Config.Template.{Template, Decoded}
use gatus_sidecar.Config.Resolve.{Templates, Result, ok, decode_endpoint}

merge_next : (Object → Option Object) → Option Object → Option Object
merge_next rest none = none
merge_next rest (some o) = rest o

-- The parents are merged left to right, each flattened by `f`.
unfoldable pub merge_parents : (String → Option Object) → List String → Object → Option Object
unfolding merge_next
merge_parents f [] out = some out
merge_parents f (p ∷ ps) out = merge_next (λ o. merge_parents f ps (merge_into out o)) (f p)

unfoldable pub with_own : Option Object → Result Object → Option Object
with_own (some out) (ok own) = some (merge_into out own)
with_own _ _ = none

module _ (unmarshal : String → Decoded) (by_name : Templates) where
  unfoldable pub flatten_template : (String → Option Object) → Option Template → Option Object
  flatten_template f none = none
  flatten_template f (some t) =
      with_own (merge_parents f t.extends no_fields) (decode_endpoint unmarshal t)

  unfoldable pub flatten : ℕ → String → Option Object
  unfolding flatten_template
  flatten zero name = none
  flatten (suc d) name = flatten_template (flatten d) (Assoc.lookup name by_name)

  -- Some depth is enough to flatten the template, and gives the object.
  abbrev pub Flattens : String → Object → Type 0
  Flattens name o = (d : ℕ) × (flatten d name ≡ some o)

  -- No depth is enough: the chain is cyclic, or something on it is missing or not an object.
  abbrev pub HasNoMeaning : String → Type 0
  HasNoMeaning name = (d : ℕ) → flatten d name ≡ none

abbrev pub Extends : (String → Option Object) → (String → Option Object) → Type 0
Extends f g = (p : String) (o : Object) → f p ≡ some o → g p ≡ some o

pub merge_parents_mono :
    (f g : String → Option Object)
    → Extends f g
    → (ps : List String) (out r : Object) → merge_parents f ps out ≡ some r
    → merge_parents g ps out ≡ some r
unfolding merge_parents
merge_parents_mono f g h [] out r e = e
merge_parents_mono f g h (p ∷ ps) out r e = elim (Option-cases (f p)) [
  | inl n ↦ absurd (none≢some (rw n at e))
  | inr (o, s) ↦ rw (h p o s) (merge_parents_mono f g h ps (merge_into out o) r (rw s at e))
]

module _ (unmarshal : String → Decoded) (by_name : Templates) where
  abbrev flat : ℕ → String → Option Object
  flat = flatten unmarshal by_name

  with_own_mono :
      (m n : Option Object) (own : Result Object) (r : Object)
      → ((x : Object) → m ≡ some x → n ≡ some x)
      → with_own m own ≡ some r
      → with_own n own ≡ some r
  unfolding with_own
  with_own_mono none n own r h e = absurd (none≢some e)
  with_own_mono (some x) n own r h e = rw (h x refl) e

  template_mono :
      (f g : String → Option Object)
      → Extends f g
      → (t : Option Template) (r : Object) → flatten_template unmarshal by_name f t ≡ some r
      → flatten_template unmarshal by_name g t ≡ some r
  unfolding flatten_template
  template_mono f g h none r e = e
  template_mono f g h (some t) r e =
      with_own_mono (merge_parents f t.extends no_fields) (merge_parents g t.extends no_fields)
        (decode_endpoint unmarshal t) r (λ x. merge_parents_mono f g h t.extends no_fields x) e

  pub flatten-suc : (d : ℕ) → Extends (flat d) (flat (suc d))
  unfolding flatten
  flatten-suc zero p o e = absurd (none≢some e)
  flatten-suc (suc d) p o e =
      template_mono (flat d) (flat (suc d)) (flatten-suc d) (Assoc.lookup p by_name) o e

  pub flatten_mono : (d e : ℕ) → d ≤ e → Extends (flat d) (flat e)
  flatten_mono d zero h p o s = let z : d ≡ 0 = omega arith in rw z at s
  flatten_mono d (suc e) h p o s = elim (dec_le d e) [
    | yes le ↦ flatten-suc e p o (flatten_mono d e le p o s)
    | no gt ↦ let same : d ≡ suc e = omega arith in rw same at s
  ]

  -- More depth changes nothing but failures.
  pub flatten_unique :
      (d e : ℕ) (p : String) (a b : Object) → flat d p ≡ some a → flat e p ≡ some b → a ≡ b
  flatten_unique d e p a b s t = some_inj (
      sym (flatten_mono d (d + e) (omega arith) p a s) ∙ flatten_mono e (d + e) (omega arith) p b t)
