-- ===== src/Discovery/IngressRouteTcp.antt =====
-- internal/discovery/ingressroutetcp.go: the endpoints of a Traefik IngressRouteTCP.
pub mod Resolved
use gatus_sidecar.Prelude.{
  ℕ, String, Bool, true, false, not, ◌||◌, List, [], ◌∷◌, ◌++◌, ◌==◌, string_eq, ltb, if◌then◌else◌,
}
use gatus_sidecar.Prelude.Text.{concat, to_lower, decimal}
use gatus_sidecar.Config.Endpoint.{Endpoint, source_ingress_route_tcp}
use gatus_sidecar.Discovery.Annotations.{
  annotation, raw_annotation, is_present, or_empty_string, Spec, Parsed,
}
use gatus_sidecar.Discovery.Annotations
use gatus_sidecar.Discovery.Specs.{Decoder, specs_from_annotations, endpoints_annotation}
use gatus_sidecar.Discovery.Entrypoints.{EntrypointPorts, Answer, port_is, refused, port}
use gatus_sidecar.Discovery.Service.{
  Options, enabled, excluded, of_annotation, entrypoints_unreadable, of_entrypoint, Found, found,
  failed, SpecContext, name_or, endpoints_from_specs,
}
use gatus_sidecar.Discovery.IngressRoute.{
  Read, value, unreadable, Route, HostTarget, Targets, Outside, count, route_targets,
}
use gatus_sidecar.Discovery.IngressRoute.Derive.{
  Derived, base_endpoint, host_name, external_name_of, internal_endpoints, Resolver, route_context,
  no_endpoints, described,
}

unfoldable pub external_tcp_name : Options → Spec → SpecContext → String → ℕ → String → String
unfolding concat name_or
external_tcp_name o base ctx host hosts entrypoint =
    concat (host_name base ctx host hosts ∷ " " ∷ entrypoint ∷ o.external_suffix ∷ [])

-- The endpoints of one entrypoint, whose port is known.
tcp_endpoints : Options → Spec → SpecContext → String → ℕ → ℕ → ℕ → List HostTarget → List Endpoint
unfolding concat decimal base_endpoint external_name_of external_tcp_name
tcp_endpoints o base ctx entrypoint port entrypoints total [] = []
tcp_endpoints o base ctx entrypoint port entrypoints total (h ∷ hosts) =
    let url = concat (base.scheme ∷ "://" ∷ h.host ∷ ":" ∷ decimal port ∷ []) in
    record (base_endpoint o (record base { url = url }) ctx) {
      name =
          if ltb 1 entrypoints
          then external_tcp_name o base ctx h.host total entrypoint
          else external_name_of o base ctx h.host total;
      url = url;
      scheme = to_lower base.scheme;
    }
    ∷ tcp_endpoints o base ctx entrypoint port entrypoints total hosts

at_entrypoint :
    String → (ℕ → List Endpoint) → Answer → Found (List Endpoint) → Found (List Endpoint)
at_entrypoint entrypoint make (refused e) rest = failed (of_entrypoint entrypoint e)
at_entrypoint entrypoint make (port_is p) (failed e) = failed e
at_entrypoint entrypoint make (port_is p) (found eps) = found (make p ++ eps)

tcp_loop :
    Options
    → Spec
    → SpecContext
    → EntrypointPorts
    → String
    → List HostTarget
    → ℕ
    → List String
    → Found (List Endpoint)
unfolding tcp_endpoints at_entrypoint port count
tcp_loop o base ctx ports prefer hosts entrypoints [] = found []
tcp_loop o base ctx ports prefer hosts entrypoints (e ∷ es) =
    at_entrypoint e (λ p. tcp_endpoints o base ctx e p entrypoints (count hosts) hosts)
      (port ports e prefer) (tcp_loop o base ctx ports prefer hosts entrypoints es)

listed : Read (List String) → List String
listed (value es) = es
listed _ = []

is_empty {ℓ} : {A : Type ℓ} → List A → Bool
is_empty [] = true
is_empty (x ∷ xs) = false

on_entrypoints :
    Options
    → Spec
    → SpecContext
    → Route
    → List HostTarget
    → EntrypointPorts
    → Read (List String)
    → Found (List Endpoint)
unfolding tcp_loop is_empty listed count
on_entrypoints o base ctx r hosts ports unreadable = failed entrypoints_unreadable
on_entrypoints o base ctx r hosts ports entrypoints =
    if is_empty hosts || is_empty (listed entrypoints)
    then found []
    else tcp_loop o base ctx ports (or_empty_string (annotation r.annotations "traefik-service"))
        hosts (count (listed entrypoints)) (listed entrypoints)

unfoldable pub external_tcp_endpoints :
    Outside
    → Options
    → Spec
    → SpecContext
    → Route
    → List HostTarget
    → EntrypointPorts
    → Found (List Endpoint)
unfolding on_entrypoints
external_tcp_endpoints out o base ctx r hosts ports =
    on_entrypoints o base ctx r hosts ports
      (out.access.nested_strings r.body ("spec" ∷ "entryPoints" ∷ []))

-- The scheme of the public address, where the annotations give none.
tcp_scheme : String → Bool → String
tcp_scheme scheme has_tls = if scheme == "" then (if has_tls then "tls" else "tcp") else scheme

add_internal : Options → Spec → SpecContext → Resolver → Targets → Found (List Endpoint) → Derived
unfolding internal_endpoints
add_internal o base ctx resolve t (failed e) = no_endpoints (e ∷ [])
add_internal o base ctx resolve t (found external) =
    let internal = internal_endpoints o (record base { scheme = "tcp" }) ctx t.backends resolve in
    record { endpoints = external ++ internal.endpoints; errors = internal.errors }

derived_from :
    Outside
    → Options
    → Spec
    → SpecContext
    → Route
    → Resolver
    → EntrypointPorts
    → Found Targets
    → Derived
unfolding add_internal external_tcp_endpoints
derived_from out o base ctx r resolve ports (failed e) = no_endpoints (e ∷ [])
derived_from out o base ctx r resolve ports (found t) =
    add_internal o base ctx resolve t (external_tcp_endpoints out o base ctx r t.hosts ports)

derive : Outside → Options → Route → SpecContext → Resolver → EntrypointPorts → List Spec → Derived
unfolding derived_from tcp_scheme endpoints_from_specs
derive out o r ctx resolve ports [] = described (endpoints_from_specs o [] ctx)
derive out o r ctx resolve ports (base ∷ specs) =
    if not (base.url == "") || is_present (raw_annotation r.annotations endpoints_annotation)
    then described (endpoints_from_specs o (base ∷ specs) ctx)
    else derived_from out o
        (record base {
          scheme =
              tcp_scheme base.scheme
                (is_present (out.access.nested_map r.body ("spec" ∷ "tls" ∷ [])));
        })
        ctx r resolve ports (route_targets out r)

derive_parsed :
    Outside
    → Options
    → Route
    → SpecContext
    → Resolver
    → EntrypointPorts
    → Parsed (List Spec)
    → Derived
unfolding derive
derive_parsed out o r ctx resolve ports (Annotations.bad p) = no_endpoints (of_annotation p ∷ [])
derive_parsed out o r ctx resolve ports (Annotations.ok specs) =
    derive out o r ctx resolve ports specs

unfoldable pub from_ingress_route_tcp :
    Outside → Decoder → Options → Route → String → Resolver → EntrypointPorts → Derived
unfolding enabled excluded derive_parsed specs_from_annotations route_context
from_ingress_route_tcp out d o r ns_group resolve ports =
    if not (enabled o.ingress_route_tcp_mode r.annotations)
    then no_endpoints []
    else if excluded out.path_match r.name r.annotations
    then no_endpoints []
    else derive_parsed out o r (route_context source_ingress_route_tcp r ns_group) resolve ports
        (specs_from_annotations d r.annotations)
