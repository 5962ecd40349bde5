-- ===== src/Discovery/Specs/Inherit.antt =====
-- About `inherit` of internal/discovery/annotations.go: what an item of the list takes from the object.
use gatus_sidecar.Prelude.{
  String, ◌≡◌, refl, ap, ◌∙◌, ◌≢◌, ◌⊎◌, inl, inr, true, false, not, ◌&&◌, Option, none, some, List,
  arith, ◌==◌, string_eq, if_true, if_false, beq_of_ne, none≢some,
}
use mathlib.Core.Option
use gatus_sidecar.Value.{Value, Object, no_fields}
use gatus_sidecar.Value.Fields.{get, HasUniqueFields}
use gatus_sidecar.Config.Merge.{as_object, copy_value, copy_object, merge, merge_value}
use gatus_sidecar.Config.Merge.Laws.{get-merge_into, get-copy_object, merged, overlay_opaque}
use gatus_sidecar.Discovery.Annotations.{Spec}
use gatus_sidecar.Discovery.Annotations.Keys.{patch_fields}
use gatus_sidecar.Discovery.Specs.{inherit, inherited_patch, or_inherited}

-- What the item says itself wins, and what it leaves out is the object's, field by field and key by key
-- of the patch; the name is never taken from the object. An item with a group of its own, an empty one too, keeps it.
pub record Inherits (s base result : Spec) : Type 0 where
  pub name : result.name ≡ s.name
  pub url : s.url ≢ "" → result.url ≡ s.url
  pub base_url : s.url ≡ "" → result.url ≡ base.url
  pub scheme : s.scheme ≢ "" → result.scheme ≡ s.scheme
  pub base_scheme : s.scheme ≡ "" → result.scheme ≡ base.scheme
  pub port : s.port ≢ "" → result.port ≡ s.port
  pub base_port : s.port ≡ "" → result.port ≡ base.port
  pub path : s.path ≢ "" → result.path ≡ s.path
  pub base_path : s.path ≡ "" → result.path ≡ base.path
  pub group : s.group_set ≡ true → (result.group ≡ s.group) × (result.group_set ≡ true)
  pub base_group :
      s.group_set ≡ false
      → base.group_set ≡ true
      → (result.group ≡ base.group) × (result.group_set ≡ true)
  pub no_group : s.group_set ≡ false → base.group_set ≡ false → result.group_set ≡ false
  pub templates :
      s.templates_set ≡ true → (result.templates ≡ s.templates) × (result.templates_set ≡ true)
  pub base_templates :
      s.templates_set ≡ false
      → (result.templates ≡ base.templates) × (result.templates_set ≡ base.templates_set)
  pub extra_templates :
      (l : List String) → s.extra_templates ≡ some l → result.extra_templates ≡ some l
  pub base_extra_templates :
      s.extra_templates ≡ none → result.extra_templates ≡ base.extra_templates
  pub patch :
      (j : String) (v : Value)
      → get j (patch_fields s.patch) ≡ some v
      → as_object v ≡ none
      → (get j (patch_fields result.patch) ≡ some v)
        ⊎ (get j (patch_fields result.patch) ≡ some (copy_value v))
  pub base_patch :
      (j : String)
      → get j (patch_fields s.patch) ≡ none
      → get j (patch_fields result.patch) ≡ Option.map copy_value (get j (patch_fields base.patch))
  pub both_patches :
      (j : String) (v w : Value)
      → get j (patch_fields s.patch) ≡ some v
      → get j (patch_fields base.patch) ≡ some w
      → get j (patch_fields result.patch) ≡ some (merge_value (copy_value w) v)

patch_wins :
    (base own : Option Object) (j : String) (v : Value)
    → HasUniqueFields (patch_fields own)
    → get j (patch_fields own) ≡ some v
    → as_object v ≡ none
    → (get j (patch_fields (inherited_patch base own)) ≡ some v)
      ⊎ (get j (patch_fields (inherited_patch base own)) ≡ some (copy_value v))
unfolding inherited_patch merge get
patch_wins none own j v u h k = inl h
patch_wins (some b) none j v u h k = absurd (none≢some h)
patch_wins (some b) (some o) j v u h k =
    inr (get-merge_into j _ o u ∙ rw h (ap some (overlay_opaque _ v k)))

get-inherited_patch :
    (b : Object) (own : Option Object) (j : String)
    → HasUniqueFields (patch_fields own)
    → get j (patch_fields (inherited_patch (some b) own))
      ≡ merged (Option.map copy_value (get j b)) (get j (patch_fields own))
unfolding inherited_patch merge
get-inherited_patch b none j u =
    get-merge_into j (copy_object b) no_fields u
    ∙ ap (λ d. merged d (get j no_fields)) (get-copy_object j b)
get-inherited_patch b (some o) j u =
    get-merge_into j (copy_object b) o u ∙ ap (λ d. merged d (get j o)) (get-copy_object j b)

base_shows :
    (base own : Option Object) (j : String)
    → HasUniqueFields (patch_fields own)
    → get j (patch_fields own) ≡ none
    → get j (patch_fields (inherited_patch base own))
      ≡ Option.map copy_value (get j (patch_fields base))
base_shows none own j u h = unfold inherited_patch get in h
base_shows (some b) own j u h =
    get-inherited_patch b own j u ∙ ap (merged (Option.map copy_value (get j b))) h

both_merge :
    (base own : Option Object) (j : String) (v w : Value)
    → HasUniqueFields (patch_fields own)
    → get j (patch_fields own) ≡ some v
    → get j (patch_fields base) ≡ some w
    → get j (patch_fields (inherited_patch base own)) ≡ some (merge_value (copy_value w) v)
both_merge none own j v w u h k = unfold get in absurd (none≢some k)
both_merge (some b) own j v w u h k = get-inherited_patch b own j u ∙ rw (h, k) refl

-- What an item of the endpoints annotation says itself wins over the annotations of the object, field
-- by field and, for scalars and lists, key by key of the patch, where the item's patch has each key
-- once. Each field that it leaves out, except for the name, is that of the object; a key that its patch
-- lacks has a copy of the object's value, and one that both have the merge of the two.
pub inherit-Inherits :
    (s base : Spec) → HasUniqueFields (patch_fields s.patch) → Inherits s base (inherit s base)
unfolding inherit or_inherited
inherit-Inherits s base u = record {
  name = refl;
  url = λ h. rw (beq_of_ne s.url "" h);
  base_url = λ h. if_true _ _ (ap (λ x. x == "") h);
  port = λ h. rw (beq_of_ne s.port "" h);
  scheme = λ h. rw (beq_of_ne s.scheme "" h);
  base_scheme = λ h. if_true _ _ (ap (λ x. x == "") h);
  base_port = λ h. if_true _ _ (ap (λ x. x == "") h);
  path = λ h. rw (beq_of_ne s.path "" h);
  base_path = λ h. if_true _ _ (ap (λ x. x == "") h);
  group = λ h. (if_false {b = not s.group_set && base.group_set} _ _ (ground arith), ground arith);
  no_group = λ h k. ground arith;
  extra_templates = λ l h. ap (λ x. or_inherited x base.extra_templates) h;
  base_extra_templates = λ h. ap (λ x. or_inherited x base.extra_templates) h;
  base_group =
      λ h k. (if_true {b = not s.group_set && base.group_set} _ _ (ground arith), ground arith);
  templates = λ h. (if_true _ _ h, ground arith);
  base_templates = λ h. (if_false _ _ h, ground arith);
  patch = λ j v h k. patch_wins base.patch s.patch j v u h k;
  base_patch = λ j h. base_shows base.patch s.patch j u h;
  both_patches = λ j v w h k. both_merge base.patch s.patch j v w u h k;
}
