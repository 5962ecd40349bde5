-- ===== src/Config/Render.antt =====
-- internal/config/render.go: from discovered endpoints and a template set to the list of endpoints
-- of a Gatus configuration. The template set is passed on from call to call, since resolving fills
-- its cache. A warning keeps what its text is made of.
pub mod Dedup
pub mod Workload
pub mod Identity
pub mod Names
pub mod Sorted
pub mod Output
pub mod Tests
use gatus_sidecar.Prelude.{
  ℕ, suc, String, Bool, true, false, not, ◌&&◌, ◌||◌, Option, none, some, List, [], ◌∷◌, ◌++◌, map,
  ◌==◌, nat_eq, string_eq, pair_eq, if◌then◌else◌, ltb, str_less,
}
use gatus_sidecar.Prelude.Assoc
use gatus_sidecar.Prelude.Assoc.{Assoc}
use gatus_sidecar.Prelude.Order.{stable_sort, lexicographic}
use gatus_sidecar.Prelude.Text.{concat, decimal}
use gatus_sidecar.Value.{Value, text, list, Items, no_items, item, Object, no_fields, field, object}
use gatus_sidecar.Value.Fields.{get, put}
use gatus_sidecar.Config.Endpoint.{Endpoint, Source, source_service, priority, address, group_key}
use gatus_sidecar.Config.Merge.{merge_all, copy_object}
use gatus_sidecar.Config.Template.{ResolveError, Decoded}
use gatus_sidecar.Config.Resolve.{TemplateSet, resolve_many, defaults_for, scheme_of}

pub data Warning : Type 0 where
  template_failed : Endpoint → ResolveError → Warning
  name_taken : Endpoint → Endpoint → Warning
  address_taken : Endpoint → Endpoint → String → Warning

pub record RenderResult : Type 0 where
  pub endpoints : List Object
  pub template_usage : Assoc String ℕ
  pub warnings : List Warning

-- `NewRenderer` puts http for an empty default scheme.
unfoldable pub default_scheme : String → String
default_scheme s = if s == "" then "http" else s

-- The loop over templates from the last to the first: the first scheme that is not empty.
last_scheme : TemplateSet → List String → String
last_scheme ts [] = ""
last_scheme ts (name ∷ names) =
    let later = last_scheme ts names in if later == "" then scheme_of ts name else later

unfoldable pub resolve_scheme : String → Endpoint → TemplateSet → String
unfolding last_scheme
resolve_scheme default ep ts =
    let listed = if ep.templates_set then last_scheme ts ep.templates else "" in
    let extra = last_scheme ts ep.extra_templates in
    if not (ep.scheme == "")
    then ep.scheme
    else if not (listed == "")
    then listed
    else if not (extra == "")
    then extra
    else default

unfoldable pub template_names : Endpoint → String → TemplateSet → List String
template_names ep scheme ts =
    (if ep.templates_set then ep.templates else defaults_for ts scheme) ++ ep.extra_templates

unfoldable pub build_url : Endpoint → String → String
unfolding concat decimal
build_url ep scheme =
    if not (ep.url == "")
    then ep.url
    else concat (scheme ∷ "://" ∷ ep.host ∷ ":" ∷ decimal ep.port ∷ ep.path ∷ [])

abbrev by_name : Endpoint → Endpoint → Bool
by_name a b = str_less a.name b.name

unfoldable pub sort_for_dedup : List Endpoint → List Endpoint
sort_for_dedup = stable_sort (
    lexicographic ltb (λ e. priority e.source) (lexicographic str_less (λ e. e.source_ref) by_name))

-- `ep.Source == SourceService && ep.Host != ""`
unfoldable pub covers : Endpoint → Bool
covers ep = ep.source == source_service && not (ep.host == "")

unfoldable pub is_member : String → List String → Bool
is_member s [] = false
is_member s (t ∷ ts) = t == s || is_member s ts

-- The keys of `covered`.
unfoldable pub covered_addresses : List Endpoint → List String
covered_addresses [] = []
covered_addresses (ep ∷ eps) =
    let rest = covered_addresses eps in if covers ep then address ep ∷ rest else rest

unfoldable pub is_shadowed : List String → Endpoint → Bool
is_shadowed covered ep =
    not (ep.source == source_service) && not (ep.host == "") && is_member (address ep) covered

unfoldable pub drop_shadowed : List String → List Endpoint → List Endpoint
drop_shadowed covered [] = []
drop_shadowed covered (ep ∷ eps) =
    let rest = drop_shadowed covered eps in if is_shadowed covered ep then rest else ep ∷ rest

if_any : List String → List Endpoint → List Endpoint
unfolding drop_shadowed
if_any [] eps = eps
if_any (a ∷ covered) eps = drop_shadowed (a ∷ covered) eps

unfoldable pub dedup_by_workload : List Endpoint → List Endpoint
unfolding if_any covered_addresses
dedup_by_workload eps = if_any (covered_addresses eps) eps

address_warning : Endpoint → Endpoint → String → List Warning
address_warning ep prev url =
    if not (prev.source_ref == ep.source_ref) || not (prev.source == ep.source)
    then address_taken ep prev url ∷ []
    else []

-- One round of the loop of `dedupByURL`, for the endpoint that was seen with this address before.
unfoldable pub keep_first :
    String
    → Endpoint
    → Assoc String Endpoint
    → List Warning
    → (Assoc String Endpoint → List Warning → List Endpoint × List Warning)
    → Option Endpoint
    → List Endpoint × List Warning
unfolding address_warning
keep_first url ep seen warnings rest (some prev) =
    rest seen (warnings ++ address_warning ep prev url)
keep_first url ep seen warnings rest none =
    let (out, warnings') = rest (Assoc.put url ep seen) warnings in (ep ∷ out, warnings')

unfoldable pub dedup_urls :
    String
    → TemplateSet
    → Assoc String Endpoint
    → List Warning
    → List Endpoint
    → List Endpoint × List Warning
unfolding keep_first
dedup_urls default ts seen warnings [] = ([], warnings)
dedup_urls default ts seen warnings (ep ∷ eps) =
    let url = build_url ep (resolve_scheme default ep ts) in
    keep_first url ep seen warnings (λ seen' warnings'. dedup_urls default ts seen' warnings' eps)
      (Assoc.lookup url seen)

unfoldable pub dedup_by_url :
    List Endpoint → String → TemplateSet → List Warning → List Endpoint × List Warning
unfolding dedup_urls
dedup_by_url eps default ts warnings = dedup_urls default ts [] warnings eps

unfoldable pub same_workload : Endpoint → Endpoint → Bool
same_workload a b = not (a.host == "") && a.host == b.host

or_zero : Option ℕ → ℕ
or_zero none = 0
or_zero (some n) = n

-- `usage[name]++` for each template without an error.
count_usage : List String → TemplateSet → Assoc String ℕ → Assoc String ℕ
unfolding or_zero
count_usage [] ts usage = usage
count_usage (name ∷ names) ts usage =
    count_usage names ts (elim (Assoc.lookup name ts.cache.failed) [
      | none ↦ Assoc.put name (suc (or_zero (Assoc.lookup name usage))) usage
      | some e ↦ usage
    ])

-- The identity layer of `renderOne`.
unfoldable pub identity : Endpoint → String → Object
identity ep url =
    let base = field "name" (text ep.name) (field "url" (text url) no_fields) in
    if not (ep.group == "") then put "group" (text ep.group) base else base

pub record RenderState : Type 0 where
  pub templates : TemplateSet
  pub usage : Assoc String ℕ
  pub warnings : List Warning
  pub seen : Assoc (String × String) Endpoint

module _ (unmarshal : String → Decoded) (default : String) where
  unfoldable pub render_one : Endpoint → RenderState → Object × RenderState
  unfolding count_usage
  render_one ep s =
      let scheme = resolve_scheme default ep s.templates in
      let names = template_names ep scheme s.templates in
      let ((layer, errs), ts) = resolve_many unmarshal s.templates names in
      (
        merge_all (some layer ∷ some (identity ep (build_url ep scheme)) ∷ ep.patch ∷ []),
        record s {
          templates = ts;
          usage = count_usage names ts s.usage;
          warnings = s.warnings ++ map (template_failed ep) errs;
        },
      )

  name_warning : Endpoint → Endpoint → List Warning
  name_warning ep prev = if same_workload prev ep then [] else name_taken ep prev ∷ []

  -- The end of a round of the loop of `Render`, for the endpoint that has the name already.
  unfoldable pub keep_name :
      Endpoint
      → Object
      → RenderState
      → (RenderState → List Object × RenderState)
      → Option Endpoint
      → List Object × RenderState
  unfolding name_warning
  keep_name ep obj s rest (some prev) =
      rest (record s { warnings = s.warnings ++ name_warning ep prev })
  keep_name ep obj s rest none =
      let (out, s') = rest (record s { seen = Assoc.put (group_key ep) ep s.seen }) in
      (obj ∷ out, s')

  unfoldable pub render_each : List Endpoint → RenderState → List Object × RenderState
  unfolding keep_name
  render_each [] s = ([], s)
  render_each (ep ∷ eps) s =
      let (obj, s') = render_one ep s in
      keep_name ep obj s' (render_each eps) (Assoc.lookup (group_key ep) s'.seen)

unfoldable pub string_of : Option Value → String
string_of (some (text s)) = s
string_of _ = ""

-- `stringValue`
unfoldable pub string_value : Object → String → String
unfolding string_of
string_value obj key = string_of (get key obj)

abbrev pub by_object_name : Object → Object → Bool
by_object_name a b = str_less (string_value a "name") (string_value b "name")

-- The test that `Render` hands to `sort.SliceStable`.
abbrev pub object_less : Object → Object → Bool
object_less = lexicographic str_less (λ o. string_value o "group") by_object_name

module _ (unmarshal : String → Decoded) (default : String) where
  unfoldable pub render : List Endpoint → TemplateSet → RenderResult × TemplateSet
  render endpoints ts =
      let ordered = dedup_by_workload (sort_for_dedup endpoints) in
      let (unique, warnings) = dedup_by_url ordered default ts [] in
      let (rendered, s) =
        render_each unmarshal default unique
          (record { templates = ts; usage = []; warnings = warnings; seen = [] }) in
      (
        record {
          endpoints = stable_sort object_less rendered;
          template_usage = s.usage;
          warnings = s.warnings;
        },
        s.templates,
      )

pub items_of : List Object → Items
items_of [] = no_items
items_of (o ∷ os) = item (object o) (items_of os)

abbrev pub endpoints_key : String
endpoints_key = "endpoints"

unfoldable pub assemble : Object → List Object → Object
unfolding items_of
assemble base endpoints = put endpoints_key (list (items_of endpoints)) (copy_object base)
