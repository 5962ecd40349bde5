-- ===== src/Discovery/Service.antt =====
-- internal/discovery/service.go: whether an object is monitored, and the endpoints of a Service.
-- An int32 port of a Service is the ℕ that it is; a text of an error keeps what it is about.
pub mod Usable
pub mod Ports
use gatus_sidecar.Prelude.{
  ℕ, String, Bool, true, false, not, ◌&&◌, ◌||◌, Option, none, some, List, [], ◌∷◌, ◌++◌, ◌==◌,
  string_eq, ltb, if◌then◌else◌,
}
use gatus_sidecar.Prelude.Text.{concat, trim_space, to_lower, cut}
use gatus_sidecar.Value.{ℤ, pos, negsuc}
use gatus_sidecar.Value.Number.{atoi}
use gatus_sidecar.Config.Endpoint.{Endpoint, Source, source_service}
use gatus_sidecar.Discovery.Annotations.{Annotations, annotation, Spec, Problem, Parsed, split_list}
use gatus_sidecar.Discovery.Annotations
use gatus_sidecar.Discovery.Specs.{Decoder, specs_from_annotations}
use gatus_sidecar.Discovery.Naming.{display_name}
use gatus_sidecar.Discovery.Entrypoints.{PortError}
use gatus_sidecar.Discovery.Paths.{normalise_path, matches_any}

-- A string type in Go.
abbrev pub Mode : Type 0
Mode = String

abbrev pub mode_opt_in : Mode
mode_opt_in = "opt-in"

abbrev pub mode_auto : Mode
mode_auto = "auto"

abbrev pub mode_disabled : Mode
mode_disabled = "disabled"

unfoldable pub parse_mode : String → Option Mode
unfolding to_lower trim_space
parse_mode v =
    let mode = to_lower (trim_space v) in
    if mode == mode_opt_in
    then some mode_opt_in
    else if mode == mode_auto
    then some mode_auto
    else if mode == mode_disabled
    then some mode_disabled
    else none

pub record Options : Type 0 where
  pub service_mode : Mode
  pub ingress_route_mode : Mode
  pub ingress_route_tcp_mode : Mode
  pub group_from_namespace : Bool
  pub cluster_domain : String
  pub external_suffix : String

-- `strconv.ParseBool` of a text in lower case.
parse_bool : String → Option Bool
parse_bool v =
    if v == "1" || v == "t" || v == "true"
    then some true
    else if v == "0" || v == "f" || v == "false"
    then some false
    else none

is_answer : Bool → Option Bool → Bool
is_answer wanted none = false
is_answer true (some b) = b
is_answer false (some b) = not b

unfoldable pub is_true : String → Bool
unfolding parse_bool is_answer to_lower
is_true v = is_answer true (parse_bool (to_lower v))

unfoldable pub is_false : String → Bool
unfolding parse_bool is_answer to_lower
is_false v = is_answer false (parse_bool (to_lower v))

enabled_auto : Option String → Bool
unfolding is_false
enabled_auto none = true
enabled_auto (some v) = not (is_false v)

enabled_opt_in : Option String → Bool
unfolding is_true
enabled_opt_in none = false
enabled_opt_in (some v) = is_true v

unfoldable pub enabled : Mode → Annotations → Bool
unfolding enabled_auto enabled_opt_in
enabled mode annotations =
    if mode == mode_disabled
    then false
    else if mode == mode_auto
    then enabled_auto (annotation annotations "enabled")
    else enabled_opt_in (annotation annotations "enabled")

abbrev pub or_empty_list : Option (List String) → List String
or_empty_list none = []
or_empty_list (some l) = l

excluded_by : (String → String → Bool) → String → Option String → Bool
unfolding split_list matches_any
excluded_by path_match name none = false
excluded_by path_match name (some v) =
    matches_any path_match (or_empty_list (split_list v)) (name ∷ [])

unfoldable pub excluded : (String → String → Bool) → String → Annotations → Bool
unfolding excluded_by
excluded path_match name annotations =
    excluded_by path_match name (annotation annotations "exclude")

-- internal/discovery/ingressroute.go
pub record NamedPort : Type 0 where
  pub name : String
  pub port : ℕ

pub data DiscoveryError : Type 0 where
  out_of_range : ℤ → DiscoveryError
  no_port_named : String → DiscoveryError
  no_ports : DiscoveryError
  several_ports : List NamedPort → DiscoveryError
  of_endpoint : String → DiscoveryError → DiscoveryError
  external_name : DiscoveryError
  of_annotation : Problem → DiscoveryError
  routes_unreadable : DiscoveryError
  rule_unreadable : ℕ → DiscoveryError
  backend_unknown : String → String → DiscoveryError
  of_backend : String → String → DiscoveryError → DiscoveryError
  entrypoints_unreadable : DiscoveryError
  of_entrypoint : String → PortError → DiscoveryError

pub data Found {ℓ} (A : Type ℓ) : Type ℓ where
  found : A → Found A
  failed : DiscoveryError → Found A

unfoldable pub and_then {ℓ κ} : {A : Type ℓ} {B : Type κ} → Found A → (A → Found B) → Found B
and_then (found a) next = next a
and_then (failed e) next = failed e

unfoldable pub port_named : String → List NamedPort → Found ℕ
port_named want [] = failed (no_port_named want)
port_named want (p ∷ ports) =
    let later = port_named want ports in if p.name == want then found p.port else later

-- A number is the port itself, and anything else the name of one.
numbered : String → List NamedPort → Option ℤ → Found ℕ
unfolding port_named
numbered want ports none = port_named want ports
numbered want ports (some (negsuc n)) = failed (out_of_range (negsuc n))
numbered want ports (some (pos n)) =
    if ltb n 1 || ltb 65535 n then failed (out_of_range (pos n)) else found n

only_port : List NamedPort → Found ℕ
only_port [] = failed no_ports
only_port (p ∷ []) = found p.port
only_port (p ∷ q ∷ ports) = failed (several_ports (p ∷ q ∷ ports))

unfoldable pub resolve_port : String → List NamedPort → Found ℕ
unfolding numbered only_port
resolve_port want ports =
    if not (want == "") then numbered want ports (atoi want) else only_port ports

pub record SpecContext : Type 0 where
  pub source : Source
  pub ref : String
  pub host : String
  pub fallback : String
  pub namespace : String
  pub ns_group : String
  pub ports : List NamedPort

unfoldable pub resolve_group : Options → Spec → SpecContext → String
unfolding display_name
resolve_group o s ctx =
    if s.group_set
    then s.group
    else if not (ctx.ns_group == "")
    then ctx.ns_group
    else if o.group_from_namespace
    then display_name ctx.namespace
    else ""

unfoldable pub name_or : String → String → String
unfolding display_name
name_or name fallback = if name == "" then display_name fallback else name

scheme_in : String → Option (String × String) → String
scheme_in scheme none = scheme
scheme_in scheme (some (before, after)) = if scheme == "" then to_lower before else scheme

-- What the two branches of `endpointFromSpec` share.
abbrev pub spec_endpoint : Options → Spec → SpecContext → Endpoint
spec_endpoint o s ctx = record {
  source = ctx.source;
  source_ref = ctx.ref;
  name = name_or s.name ctx.fallback;
  group = resolve_group o s ctx;
  url = "";
  host = "";
  port = 0;
  path = "";
  scheme = to_lower s.scheme;
  templates = or_empty_list s.templates;
  templates_set = s.templates_set;
  extra_templates = or_empty_list s.extra_templates;
  patch = s.patch;
}

at_port : Options → Spec → SpecContext → Found ℕ → Found Endpoint
unfolding normalise_path
at_port o s ctx (failed e) = failed (of_endpoint (name_or s.name ctx.fallback) e)
at_port o s ctx (found p) =
    found
      (record (spec_endpoint o s ctx) { host = ctx.host; port = p; path = normalise_path s.path })

unfoldable pub endpoint_from_spec : Options → Spec → SpecContext → Found Endpoint
unfolding at_port scheme_in resolve_port cut
endpoint_from_spec o s ctx =
    if not (s.url == "")
    then found (record (spec_endpoint o s ctx) {
      url = s.url;
      scheme = scheme_in (to_lower s.scheme) (cut s.url "://");
    })
    else at_port o s ctx (resolve_port s.port ctx.ports)

-- The loop of `FromService`, and `endpointsFromSpecs` of internal/discovery/ingressroute.go.
unfoldable pub endpoints_from_specs : Options → List Spec → SpecContext → Found (List Endpoint)
unfolding and_then endpoint_from_spec
endpoints_from_specs o [] ctx = found []
endpoints_from_specs o (s ∷ specs) ctx =
    and_then (endpoint_from_spec o s ctx)
      λ ep. and_then (endpoints_from_specs o specs ctx) λ rest. found (ep ∷ rest)

-- The fields of a Kubernetes Service that are read.
pub record Service : Type 0 where
  pub namespace : String
  pub name : String
  pub annotations : Annotations
  pub is_external_name : Bool
  pub ports : List NamedPort

unfoldable pub service_context : Options → Service → String → SpecContext
unfolding concat
service_context o svc ns_group = record {
  source = source_service;
  ref = concat (svc.namespace ∷ "/" ∷ svc.name ∷ []);
  host = concat (svc.name ∷ "." ∷ svc.namespace ∷ ".svc." ∷ o.cluster_domain ∷ []);
  fallback = svc.name;
  namespace = svc.namespace;
  ns_group = ns_group;
  ports = svc.ports;
}

unfoldable pub from_parsed : Options → SpecContext → Parsed (List Spec) → Found (List Endpoint)
unfolding endpoints_from_specs
from_parsed o ctx (Annotations.bad p) = failed (of_annotation p)
from_parsed o ctx (Annotations.ok specs) = endpoints_from_specs o specs ctx

unfoldable pub from_service :
    (String → String → Bool) → Decoder → Options → Service → String → Found (List Endpoint)
unfolding enabled excluded service_context from_parsed specs_from_annotations
from_service path_match d o svc ns_group =
    if not (enabled o.service_mode svc.annotations)
    then found []
    else if excluded path_match svc.name svc.annotations
    then found []
    else if svc.is_external_name
    then failed external_name
    else from_parsed o (service_context o svc ns_group) (specs_from_annotations d svc.annotations)
