-- ===== src/Discovery/IngressRoute/Derive.antt =====
-- The second half of internal/discovery/ingressroute.go: endpoints from the targets of a route.
pub mod Resolved
use gatus_sidecar.Prelude.{
  ℕ, suc, String, not, ◌&&◌, ◌||◌, Option, none, some, List, [], ◌∷◌, ◌++◌, ◌==◌, string_eq, ltb,
  num_eq, if◌then◌else◌,
}
use gatus_sidecar.Prelude.Assoc
use gatus_sidecar.Prelude.Assoc.{Assoc}
use gatus_sidecar.Prelude.Text.{concat, to_lower}
use gatus_sidecar.Config.Endpoint.{Endpoint, Source, source_ingress_route}
use gatus_sidecar.Discovery.Annotations.{raw_annotation, is_present, Spec, Parsed}
use gatus_sidecar.Discovery.Annotations
use gatus_sidecar.Discovery.Specs.{Decoder, specs_from_annotations, endpoints_annotation}
use gatus_sidecar.Discovery.Naming.{display_name}
use gatus_sidecar.Discovery.Paths.{normalise_path}
use gatus_sidecar.Discovery.Service.{
  Options, enabled, excluded, or_empty_list, NamedPort, DiscoveryError, of_annotation,
  backend_unknown, of_backend, Found, found, failed, resolve_port, SpecContext, resolve_group,
  name_or, endpoints_from_specs,
}
use gatus_sidecar.Discovery.IngressRoute.{
  Route, BackendRef, HostTarget, Targets, Outside, count, route_targets,
}

-- The endpoints, and the errors that are returned beside them.
pub record Derived : Type 0 where
  pub endpoints : List Endpoint
  pub errors : List DiscoveryError

-- `baseEndpoint`
unfoldable pub base_endpoint : Options → Spec → SpecContext → Endpoint
unfolding resolve_group
base_endpoint o s ctx = record {
  source = ctx.source;
  source_ref = ctx.ref;
  name = "";
  group = resolve_group o s ctx;
  url = "";
  host = "";
  port = 0;
  path = "";
  scheme = to_lower s.scheme;
  templates = or_empty_list s.templates;
  templates_set = s.templates_set;
  extra_templates = or_empty_list s.extra_templates;
  patch = s.patch;
}

-- The name, with the host where there are several.
abbrev pub host_name : Spec → SpecContext → String → ℕ → String
host_name base ctx host total =
    if ltb 1 total
    then concat (name_or base.name ctx.fallback ∷ " " ∷ host ∷ [])
    else name_or base.name ctx.fallback

unfoldable pub external_name_of : Options → Spec → SpecContext → String → ℕ → String
unfolding concat name_or
external_name_of o base ctx host total =
    concat (host_name base ctx host total ∷ o.external_suffix ∷ [])

unfoldable pub external_name_with_path : Options → Spec → SpecContext → String → ℕ → String → String
unfolding concat name_or
external_name_with_path o base ctx host hosts path =
    concat (host_name base ctx host hosts ∷ " " ∷ path ∷ o.external_suffix ∷ [])

or_zero : Option ℕ → ℕ
or_zero none = 0
or_zero (some n) = n

-- `perHost[h.host]++`
unfoldable pub per_host : List HostTarget → Assoc String ℕ → Assoc String ℕ
unfolding or_zero
per_host [] counts = counts
per_host (h ∷ hosts) counts =
    per_host hosts (Assoc.put h.host (suc (or_zero (Assoc.lookup h.host counts))) counts)

unfoldable pub external_endpoint :
    Options → Spec → SpecContext → Assoc String ℕ → HostTarget → Endpoint
unfolding base_endpoint external_name_of external_name_with_path or_zero concat normalise_path count
external_endpoint o base ctx counts h =
    let scheme = if base.scheme == "" then "https" else base.scheme in
    let path = if base.path == "" then h.path else base.path in
    let url = concat (scheme ∷ "://" ∷ h.host ∷ normalise_path path ∷ []) in
    let s = record base { scheme = scheme; path = path; url = url } in
    record (base_endpoint o s ctx) {
      name =
          if ltb 1 (or_zero (Assoc.lookup h.host counts)) && not (normalise_path h.path == "")
          then external_name_with_path o base ctx h.host (count counts) (normalise_path h.path)
          else external_name_of o base ctx h.host (count counts);
      url = url;
      scheme = scheme;
    }

endpoints_of_hosts : Options → Spec → SpecContext → Assoc String ℕ → List HostTarget → List Endpoint
unfolding external_endpoint
endpoints_of_hosts o base ctx counts [] = []
endpoints_of_hosts o base ctx counts (h ∷ hosts) =
    external_endpoint o base ctx counts h ∷ endpoints_of_hosts o base ctx counts hosts

unfoldable pub external_endpoints : Options → Spec → SpecContext → List HostTarget → List Endpoint
unfolding endpoints_of_hosts per_host
external_endpoints o base ctx hosts = endpoints_of_hosts o base ctx (per_host hosts []) hosts

unfoldable pub internal_name : Spec → SpecContext → BackendRef → ℕ → String
unfolding display_name
internal_name base ctx b total =
    if not (base.name == "") && num_eq total 1
    then base.name
    else if ltb 1 total
    then display_name b.name
    else display_name ctx.fallback

-- A `ServiceResolver` may be nil; that it fails is `none`.
abbrev pub Resolver : Type 0
Resolver = Option (String → String → Option (List NamedPort))

abbrev pub backend_ports : Resolver → BackendRef → Option (List NamedPort)
backend_ports none b = some []
backend_ports (some resolve) b = resolve b.namespace b.name

-- What a backend adds, given its port.
add_internal : Options → Spec → SpecContext → BackendRef → ℕ → Found ℕ → Derived → Derived
unfolding base_endpoint internal_name normalise_path concat
add_internal o base ctx b total (failed e) d = record {
  endpoints = d.endpoints;
  errors = of_backend b.namespace b.name e ∷ d.errors;
}
add_internal o base ctx b total (found p) d =
    let ep = record (base_endpoint o base ctx) {
      name = internal_name base ctx b total;
      host = concat (b.name ∷ "." ∷ b.namespace ∷ ".svc." ∷ o.cluster_domain ∷ []);
      port = p;
      path = normalise_path (if base.path == "" then b.path else base.path);
    } in
    record { endpoints = ep ∷ d.endpoints; errors = d.errors }

internal_endpoint :
    Options → Spec → SpecContext → BackendRef → ℕ → Option (List NamedPort) → Derived → Derived
unfolding add_internal resolve_port
internal_endpoint o base ctx b total none d = record {
  endpoints = d.endpoints;
  errors = backend_unknown b.namespace b.name ∷ d.errors;
}
internal_endpoint o base ctx b total (some ports) d =
    add_internal o base ctx b total
      (resolve_port (if b.port == "" then base.port else b.port) ports) d

internal_loop : Options → Spec → SpecContext → Resolver → ℕ → List BackendRef → Derived
unfolding internal_endpoint
internal_loop o base ctx resolve total [] = record { endpoints = []; errors = [] }
internal_loop o base ctx resolve total (b ∷ backends) =
    internal_endpoint o base ctx b total (backend_ports resolve b)
      (internal_loop o base ctx resolve total backends)

unfoldable pub internal_endpoints :
    Options → Spec → SpecContext → List BackendRef → Resolver → Derived
unfolding internal_loop count
internal_endpoints o base ctx backends resolve =
    internal_loop o base ctx resolve (count backends) backends

unfoldable pub route_context : Source → Route → String → SpecContext
unfolding concat
route_context source r ns_group = record {
  source = source;
  ref = concat (r.namespace ∷ "/" ∷ r.name ∷ []);
  host = "";
  fallback = r.name;
  namespace = r.namespace;
  ns_group = ns_group;
  ports = [];
}

abbrev pub no_endpoints : List DiscoveryError → Derived
no_endpoints errors = record { endpoints = []; errors = errors }

abbrev pub described : Found (List Endpoint) → Derived
described (found eps) = record { endpoints = eps; errors = [] }
described (failed e) = no_endpoints (e ∷ [])

derived_from : Options → Spec → SpecContext → Resolver → Found Targets → Derived
unfolding external_endpoints internal_endpoints
derived_from o base ctx resolve (failed e) = no_endpoints (e ∷ [])
derived_from o base ctx resolve (found t) =
    let internal = internal_endpoints o base ctx t.backends resolve in
    record {
      endpoints = external_endpoints o base ctx t.hosts ++ internal.endpoints;
      errors = internal.errors;
    }

-- `specs[0]` exists where the annotation `endpoints` is not there.
derive : Outside → Options → Route → SpecContext → Resolver → List Spec → Derived
unfolding derived_from endpoints_from_specs
derive out o r ctx resolve [] = described (endpoints_from_specs o [] ctx)
derive out o r ctx resolve (base ∷ specs) =
    if not (base.url == "") || is_present (raw_annotation r.annotations endpoints_annotation)
    then described (endpoints_from_specs o (base ∷ specs) ctx)
    else derived_from o base ctx resolve (route_targets out r)

derive_parsed : Outside → Options → Route → SpecContext → Resolver → Parsed (List Spec) → Derived
unfolding derive
derive_parsed out o r ctx resolve (Annotations.bad p) = no_endpoints (of_annotation p ∷ [])
derive_parsed out o r ctx resolve (Annotations.ok specs) = derive out o r ctx resolve specs

unfoldable pub from_ingress_route :
    Outside → Decoder → Options → Route → String → Resolver → Derived
unfolding enabled excluded derive_parsed specs_from_annotations route_context
from_ingress_route out d o r ns_group resolve =
    if not (enabled o.ingress_route_mode r.annotations)
    then no_endpoints []
    else if excluded out.path_match r.name r.annotations
    then no_endpoints []
    else derive_parsed out o r (route_context source_ingress_route r ns_group) resolve
        (specs_from_annotations d r.annotations)
