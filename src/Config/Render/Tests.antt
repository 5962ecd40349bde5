-- ===== src/Config/Render/Tests.antt =====
-- Endpoints and templates to try internal/config/render.go on.
use mathlib.Core.Logic.Or
use mathlib.Core.List.{mem-cons, not-mem-nil, Mem, Nodup}
use mathlib.Core.Option
use gatus_sidecar.Prelude.{
  ℕ, String, ◌≡◌, refl, ◌≢◌, ◌↔◌, ◌⊎◌, inl, Bool, true, false, Option, none, some, List, [], ◌∷◌,
  map, arith, ◌==◌, string_eq,
}
use gatus_sidecar.Value.{Value, text, list, object, Object, no_fields, field}
use gatus_sidecar.Value.Fields.{get, HasUniqueFields}
use gatus_sidecar.Config.Endpoint.{Endpoint, source_service, source_ingress_route}
use gatus_sidecar.Config.Merge.{as_object, copy_value}
use gatus_sidecar.Config.Template.{Decoded, decoded}
use gatus_sidecar.Config.Resolve.{TemplateSet, new_template_set}
use gatus_sidecar.Config.Render.{
  RenderState, render_one, render_each, render, dedup_by_url, dedup_by_workload, object_less,
  items_of, endpoints_key, assemble, build_url,
}
use gatus_sidecar.Config.Render.Dedup.{url_of, dedup_by_url-Nodup, dedup_by_url-covers}
use gatus_sidecar.Config.Render.Identity.{
  patch_fields, template_layer, render_one-identity, render_one-patch,
}
use gatus_sidecar.Config.Render.Names.{KeepsNames, render_each-KeepsNames}
use gatus_sidecar.Config.Render.Output.{object_key, is_named, render-Nodup}
use gatus_sidecar.Config.Render.Workload.{IsShadowed, mem-dedup_by_workload}

abbrev api : Endpoint
api = record {
  source = source_service;
  source_ref = "shop/api";
  name = "Api";
  group = "Shop";
  url = "";
  host = "api.shop.svc.cluster.local";
  port = 8080;
  path = "/health";
  scheme = "";
  templates = "base" ∷ [];
  templates_set = true;
  extra_templates = [];
  patch = some (field "interval" (text "30s") no_fields);
}

-- Inferred from a route to the same workload.
abbrev api_route : Endpoint
api_route = record api { source = source_ingress_route; path = ""; patch = none }

abbrev public_route : Endpoint
public_route = record api_route {
  host = "";
  url = "https://shop.example.org";
  name = "Api (external)";
}

abbrev sample : List Endpoint
sample = public_route ∷ api_route ∷ api ∷ api ∷ []

abbrev decoder : String → Decoded
decoder raw = decoded (some (field "name" (text raw) (field "method" (text "GET") no_fields)))

abbrev templates : TemplateSet
templates = new_template_set (
    record {
      name = "base";
      generation = 1;
      extends = [];
      default_for = [];
      scheme = "HTTPS";
      endpoint = some "t";
    }
    ∷ [])

abbrev state : RenderState
state = record { templates = templates; usage = []; warnings = []; seen = [] }

-- What the rendered api has, by key.
abbrev shown : String → Option Value
shown j = get j (render_one decoder "http" api state).0

api_shown :
    (shown "name" ≡ some (text "Api"))
    × (shown "url" ≡ some (text "https://api.shop.svc.cluster.local:8080/health"))
    × (shown "method" ≡ some (text "GET"))
unfolding render_one get build_url gatus_sidecar.Config.Merge.merge_all
    gatus_sidecar.Config.Merge.merge_into gatus_sidecar.Value.Fields.put
    gatus_sidecar.Config.Render.identity gatus_sidecar.Config.Resolve.resolve_many
    gatus_sidecar.Config.Render.template_names new_template_set gatus_sidecar.Prelude.Assoc.put
    gatus_sidecar.Prelude.Assoc.lookup gatus_sidecar.Config.Resolve.contains
    gatus_sidecar.Config.Resolve.finish gatus_sidecar.Config.Resolve.resolve_parents
    gatus_sidecar.Config.Resolve.decode_endpoint gatus_sidecar.Config.Resolve.succeed
    gatus_sidecar.Config.Render.resolve_scheme gatus_sidecar.Config.Resolve.scheme_of
    gatus_sidecar.Prelude.Text.to_lower
api_shown = (refl, refl, refl)

api-HasUniqueFields : HasUniqueFields (patch_fields api.patch)
unfolding get
api-HasUniqueFields = (refl, tt)

render_one-identity_example :
    (get "name" (patch_fields api.patch) ≡ none → shown "name" ≡ some (text api.name))
    × (get "url" (patch_fields api.patch) ≡ none
        → shown "url" ≡ some (text (url_of "http" templates api)))
    × (api.group ≢ ""
        → get "group" (patch_fields api.patch) ≡ none
        → shown "group" ≡ some (text api.group))
render_one-identity_example = render_one-identity decoder "http" api state api-HasUniqueFields

render_one-patch_example :
    ((j : String) (v : Value)
      → get j (patch_fields api.patch) ≡ some v
      → as_object v ≡ none
      → shown j ≡ some (copy_value v))
    × ((j : String)
        → "name" ≢ j
        → "url" ≢ j
        → ("group" ≢ j) ⊎ (api.group ≡ "")
        → get j (patch_fields api.patch) ≡ none
        → shown j ≡ Option.map copy_value (get j (template_layer decoder "http" api templates)))
render_one-patch_example = render_one-patch decoder "http" api state api-HasUniqueFields

dedup_by_url-Nodup_example :
    Nodup (map (url_of "http" templates) (dedup_by_url sample "http" templates []).0)
dedup_by_url-Nodup_example = dedup_by_url-Nodup "http" templates sample []

dedup_by_url-covers_example :
    ((e : Endpoint) → Mem e (dedup_by_url sample "http" templates []).0 → Mem e sample)
    × ((u : String)
        → Mem u (map (url_of "http" templates) sample)
        → Mem u (map (url_of "http" templates) (dedup_by_url sample "http" templates []).0))
dedup_by_url-covers_example = dedup_by_url-covers "http" templates sample []

mem-dedup_by_workload_example :
    Mem api_route (dedup_by_workload sample)
    ↔ (Mem api_route sample × ¬ IsShadowed sample api_route)
mem-dedup_by_workload_example = mem-dedup_by_workload api_route sample

render_each-KeepsNames_example :
    KeepsNames decoder "http" [] sample (render_each decoder "http" sample state).0
render_each-KeepsNames_example = render_each-KeepsNames decoder "http" sample state

abbrev base : Object
base = field "ui" (text "dark") no_fields

Bool-set : IsSet Bool
Bool-set = hlevel

sample-named : (ep : Endpoint) → Mem ep sample → is_named ep ≡ true
unfolding get
sample-named ep m =
    Or.elim (Bool-set _ _) (mem-cons.0 m) (λ e. rw e refl)
      λ m.
        Or.elim (Bool-set _ _) (mem-cons.0 m) (λ e. rw e refl)
          λ m.
            Or.elim (Bool-set _ _) (mem-cons.0 m) (λ e. rw e refl)
              λ m.
                Or.elim (Bool-set _ _) (mem-cons.0 m) (λ e. rw e refl) (λ m. absurd (not-mem-nil m))

render-Nodup_example : Nodup (map object_key (render decoder "http" sample templates).0.endpoints)
render-Nodup_example = render-Nodup decoder "http" sample templates sample-named
