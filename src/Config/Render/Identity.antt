-- ===== src/Config/Render/Identity.antt =====
-- About `renderOne` of internal/config/render.go and its layers.
use mathlib.Core.Option
use gatus_sidecar.Prelude.{
  String, ◌≡◌, refl, ap, ◌∙◌, ◌≢◌, ◌⊎◌, inl, inr, Option, none, some, [], ◌∷◌, arith, ◌==◌,
  string_eq, if◌then◌else◌, Bool-cases, if_true, beq_of_ne,
}
use gatus_sidecar.Value.{Value, text, Object, no_fields, field}
use gatus_sidecar.Value.Fields.{get, HasUniqueFields, put-HasUniqueFields, get-put}
use gatus_sidecar.Config.Endpoint.{Endpoint}
use gatus_sidecar.Config.Merge.{as_object, copy_value}
use gatus_sidecar.Config.Merge.Laws.{overlay_opaque, merged}
use gatus_sidecar.Config.Merge.Layers.{HasUniqueLayers, get_layers, get-merge_all}
use gatus_sidecar.Config.Template.{Decoded}
use gatus_sidecar.Config.Resolve.{TemplateSet, resolve_many}
use gatus_sidecar.Config.Resolve.Many.{resolve_many-HasUniqueFields}
use gatus_sidecar.Config.Render.{resolve_scheme, template_names, identity, RenderState, render_one}
use gatus_sidecar.Config.Render.Dedup.{url_of}

-- A nil patch has no fields.
abbrev pub patch_fields : Option Object → Object
patch_fields none = no_fields
patch_fields (some p) = p

-- What the templates of the endpoint give together.
abbrev pub template_layer : (String → Decoded) → String → Endpoint → TemplateSet → Object
template_layer unmarshal default ep ts =
    (resolve_many unmarshal ts (template_names ep (resolve_scheme default ep ts) ts)).0.0

identity-HasUniqueFields : (ep : Endpoint) (url : String) → HasUniqueFields (identity ep url)
unfolding identity get
identity-HasUniqueFields ep url = elim (Bool-cases (ep.group == "")) [
  | inl h ↦ rw h (refl, (refl, tt))
  | inr h ↦ rw h (put-HasUniqueFields "group" (text ep.group) _ (refl, (refl, tt)))
]

abbrev base : Endpoint → String → Object
base ep url = field "name" (text ep.name) (field "url" (text url) no_fields)

get-identity :
    (ep : Endpoint) (url j : String)
    → get j (identity ep url) ≡ (
        if ep.group == ""
        then get j (base ep url)
        else if "group" == j
        then some (text ep.group)
        else get j (base ep url))
unfolding identity
get-identity ep url j = elim (Bool-cases (ep.group == "")) [
  | inl h ↦ rw h refl
  | inr h ↦ rw h (get-put "group" j (text ep.group) (base ep url))
]

layers-HasUniqueFields :
    (layer own : Object) (patch : Option Object)
    → HasUniqueFields layer
    → HasUniqueFields own
    → HasUniqueFields (patch_fields patch)
    → HasUniqueLayers (some layer ∷ some own ∷ patch ∷ [])
layers-HasUniqueFields layer own none u v w = (u, (v, tt))
layers-HasUniqueFields layer own (some p) u v w = (u, (v, (w, tt)))

get_layers-three :
    (layer own : Object) (patch : Option Object) (j : String)
    → get_layers none j (some layer ∷ some own ∷ patch ∷ [])
      ≡ merged (merged (merged none (get j layer)) (get j own)) (get j (patch_fields patch))
unfolding get
get_layers-three layer own none j = refl
get_layers-three layer own (some p) j = refl

module _ (unmarshal : String → Decoded) (default : String) (ep : Endpoint) (s : RenderState)
    (u : HasUniqueFields (patch_fields ep.patch)) where
  abbrev rendered : Object
  rendered = (render_one unmarshal default ep s).0

  abbrev own : Object
  own = identity ep (url_of default s.templates ep)

  get-rendered :
      (j : String)
      → get j rendered
        ≡ merged
            (merged
              (merged none (get j (template_layer unmarshal default ep s.templates)))
              (get j own))
            (get j (patch_fields ep.patch))
  unfolding render_one
  get-rendered j =
      get-merge_all j _ (
        layers-HasUniqueFields _ own ep.patch (resolve_many-HasUniqueFields unmarshal s.templates _)
          (identity-HasUniqueFields ep _) u)
      ∙ get_layers-three _ own ep.patch j

  from_own :
      (j t : String)
      → get j own ≡ some (text t)
      → get j (patch_fields ep.patch) ≡ none
      → get j rendered ≡ some (text t)
  unfolding as_object copy_value
  from_own j t h k = get-rendered j ∙ rw (h, k) (ap some (overlay_opaque _ (text t) refl))

  own-name : get "name" own ≡ some (text ep.name)
  unfolding get
  own-name = get-identity ep _ "name" ∙ ground arith

  own-url : get "url" own ≡ some (text (url_of default s.templates ep))
  unfolding get
  own-url = get-identity ep _ "url" ∙ ground arith

  own-group : ep.group ≢ "" → get "group" own ≡ some (text ep.group)
  own-group h = get-identity ep _ "group" ∙ rw (beq_of_ne ep.group "" h)

  -- What a template says, the endpoint's identity wins over: the rendered object has the endpoint's
  -- name, its URL and, unless that is empty, its group, wherever the patch does not set these keys.
  pub render_one-identity :
      (get "name" (patch_fields ep.patch) ≡ none → get "name" rendered ≡ some (text ep.name))
      × (get "url" (patch_fields ep.patch) ≡ none
          → get "url" rendered ≡ some (text (url_of default s.templates ep)))
      × (ep.group ≢ ""
          → get "group" (patch_fields ep.patch) ≡ none
          → get "group" rendered ≡ some (text ep.group))
  render_one-identity = (
    from_own "name" ep.name own-name,
    from_own "url" (url_of default s.templates ep) own-url,
    λ h. from_own "group" ep.group (own-group h),
  )

  -- A scalar or a list of the patch wins over everything, and under a key that neither the patch nor
  -- the identity has stands a copy of what the templates say; so an empty group lets theirs through.
  pub render_one-patch :
      ((j : String) (v : Value)
        → get j (patch_fields ep.patch) ≡ some v
        → as_object v ≡ none
        → get j rendered ≡ some (copy_value v))
      × ((j : String)
          → "name" ≢ j
          → "url" ≢ j
          → ("group" ≢ j) ⊎ (ep.group ≡ "")
          → get j (patch_fields ep.patch) ≡ none
          → get j rendered
            ≡ Option.map copy_value (get j (template_layer unmarshal default ep s.templates)))
  render_one-patch = (
    (λ j v h k. get-rendered j ∙ rw h (ap some (overlay_opaque _ v k))),
    λ j n l g k. get-rendered j ∙ rw (k, absent j n l g) (merged_none _),
  )
    where
      base_absent :
          (j : String)
          → "name" ≢ j
          → "url" ≢ j
          → get j (base ep (url_of default s.templates ep)) ≡ none
      base_absent j n l = unfold get in rw (beq_of_ne "name" j n, beq_of_ne "url" j l)

      absent :
          (j : String) → "name" ≢ j → "url" ≢ j → ("group" ≢ j) ⊎ (ep.group ≡ "") → get j own ≡ none
      absent j n l (inl g) =
          get-identity ep _ j ∙ rw (beq_of_ne "group" j g, base_absent j n l) (ground arith)
      absent j n l (inr g) =
          get-identity ep _ j ∙ (if_true _ _ (ap (λ x. x == "") g) ∙ base_absent j n l)

      merged_none : (o : Option Value) → merged none o ≡ Option.map copy_value o
      merged_none none = refl
      merged_none (some v) = refl
