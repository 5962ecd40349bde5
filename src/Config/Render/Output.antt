-- ===== src/Config/Render/Output.antt =====
-- About the list that `Render` of internal/config/render.go hands back, as a whole.
use mathlib.Core.Path.{ap₂}
use mathlib.Core.List.{Mem, Nodup, mem-cons_self, mem-cons_of_mem, mem-map_of_mem}
use mathlib.Core.List.Perm
use gatus_sidecar.Prelude.{
  String, ◌≡◌, refl, sym, ap, ◌∙◌, subst, Bool, true, false, not, ◌&&◌, arith, ne_of_beq, Option,
  none, some, List, [], ◌∷◌, map, ◌==◌, string_eq,
}
use gatus_sidecar.Prelude.Order.{stable_sort-perm}
use gatus_sidecar.Value.{Value, Object, no_fields, field}
use gatus_sidecar.Value.Fields.{get, HasUniqueFields}
use gatus_sidecar.Config.Endpoint.{Endpoint, group_key}
use gatus_sidecar.Config.Template.{Decoded}
use gatus_sidecar.Config.Resolve.{TemplateSet}
use gatus_sidecar.Config.Render.{
  RenderState, render_one, render_each, render, string_of, string_value, object_less,
  sort_for_dedup, dedup_by_workload, dedup_by_url,
}
use gatus_sidecar.Config.Render.Dedup.{dedup_by_url-covers}
use gatus_sidecar.Config.Render.Identity.{patch_fields, render_one-identity}
use gatus_sidecar.Config.Render.Names.{Kept, kept_key, render_each-KeepsNames}
use gatus_sidecar.Config.Render.Workload.{mem-dedup_by_workload}

-- Gatus tells endpoints apart by group and name.
abbrev pub object_key : Object → String × String
object_key o = (string_value o "group", string_value o "name")

abbrev pub is_none : Option Value → Bool
is_none none = true
is_none (some v) = false

-- Each key stands once.
abbrev pub has_unique_fields : Object → Bool
has_unique_fields no_fields = true
has_unique_fields (field k v m) = is_none (get k m) && has_unique_fields m

-- The endpoint has a group, and its patch has each key once and does not set group or name.
abbrev pub is_named : Endpoint → Bool
is_named ep =
    not (ep.group == "")
    && has_unique_fields (patch_fields ep.patch)
    && is_none (get "group" (patch_fields ep.patch))
    && is_none (get "name" (patch_fields ep.patch))

is_none-eq : (o : Option Value) → is_none o ≡ true → o ≡ none
is_none-eq none h = refl
is_none-eq (some v) h = cc

has_unique_fields-HasUniqueFields : (m : Object) → has_unique_fields m ≡ true → HasUniqueFields m
has_unique_fields-HasUniqueFields no_fields h = tt
has_unique_fields-HasUniqueFields (field k v m) h =
    (is_none-eq (get k m) (ground arith), has_unique_fields-HasUniqueFields m (ground arith))

map_of_mem {ℓ κ} :
    {A : Type ℓ} {B : Type κ} (f g : A → B) (l : List A)
    → ((x : A) → Mem x l → f x ≡ g x)
    → map f l ≡ map g l
map_of_mem f g [] h = refl
map_of_mem f g (x ∷ l) h =
    ap₂ ◌∷◌ (h x mem-cons_self) (map_of_mem f g l (λ y m. h y (mem-cons_of_mem x m)))

map-map {ℓ κ μ} :
    {A : Type ℓ} {B : Type κ} {C : Type μ} (g : B → C) (f : A → B) (l : List A)
    → map g (map f l) ≡ map (λ x. g (f x)) l
map-map g f [] = refl
map-map g f (x ∷ l) = ap (◌∷◌ (g (f x))) (map-map g f l)

still_there : (eps : List Endpoint) (ep : Endpoint) → Mem ep (sort_for_dedup eps) → Mem ep eps
unfolding sort_for_dedup
still_there eps ep m = (Perm.mem_iff (stable_sort-perm _ eps)).0 m

module _ (unmarshal : String → Decoded) (default : String) where
  object_key-render_one :
      (ep : Endpoint) (s : RenderState)
      → is_named ep ≡ true
      → object_key (render_one unmarshal default ep s).0 ≡ group_key ep
  unfolding string_value string_of group_key
  object_key-render_one ep s n =
      let unique = has_unique_fields-HasUniqueFields (patch_fields ep.patch) (ground arith) in
      let (name, url, group) = render_one-identity unmarshal default ep s unique in
      ap₂ (λ g m. (string_of g, string_of m))
        (group (ne_of_beq ep.group "" (ground arith))
          (is_none-eq (get "group" (patch_fields ep.patch)) (ground arith)))
        (name (is_none-eq (get "name" (patch_fields ep.patch)) (ground arith)))

  rendered-Nodup :
      (eps : List Endpoint) (s : RenderState)
      → ((ep : Endpoint) → Mem ep eps → is_named ep ≡ true)
      → Nodup (map object_key (render_each unmarshal default eps s).0)
  rendered-Nodup eps s named =
      let k = render_each-KeepsNames unmarshal default eps s in
      let same : map object_key (render_each unmarshal default eps s).0 ≡ map kept_key k.kept =
        ap (map object_key) k.objects
        ∙ map-map object_key (λ (x : Kept). (render_one unmarshal default x.0 x.1).0) k.kept
        ∙ map_of_mem _ kept_key k.kept (λ x m.
          object_key-render_one x.0 x.1
            (named x.0 (k.from_input x.0 (mem-map_of_mem (λ (y : Kept). y.0) m)))) in
      subst Nodup (sym same) k.distinct

  -- No two objects that `Render` hands back have one group and name, if every endpoint has a group and
  -- a patch that has each key once and sets neither group nor name.
  pub render-Nodup :
      (eps : List Endpoint) (ts : TemplateSet)
      → ((ep : Endpoint) → Mem ep eps → is_named ep ≡ true)
      → Nodup (map object_key (render unmarshal default eps ts).0.endpoints)
  unfolding render
  render-Nodup eps ts named =
      let ordered = dedup_by_workload (sort_for_dedup eps) in
      let unique = (dedup_by_url ordered default ts []).0 in
      let s : RenderState = record {
        templates = ts;
        usage = [];
        warnings = (dedup_by_url ordered default ts []).1;
        seen = [];
      } in
      Perm.nodup
        (Perm.symm (
          Perm.map object_key
            (stable_sort-perm object_less (render_each unmarshal default unique s).0)))
        (rendered-Nodup unique s (λ ep m. named ep (
          still_there eps ep
            ((mem-dedup_by_workload ep (sort_for_dedup eps)).0
              ((dedup_by_url-covers default ts ordered []).0 ep m)).0)))
