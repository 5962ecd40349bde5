-- ===== src/Controller/Reconcile.antt =====
-- `Reconcile` of internal/controller/service_controller.go, ingressroute_controller.go,
-- ingressroutetcp_controller.go and endpointtemplate_controller.go: from one object of the cluster to its entry in the registry. What the
-- API server answers is an argument, and so is whether a label selector matches; a selector that is
-- nil or empty is `none`.
pub mod Contribution
pub mod Sets
pub mod Entrypoints
use gatus_sidecar.Prelude.{
  ℕ, String, Bool, true, false, not, ◌&&◌, Option, none, some, List, [], ◌∷◌, ◌++◌, ◌==◌, nat_eq,
  string_eq, if◌then◌else◌,
}
use gatus_sidecar.Prelude.Assoc
use gatus_sidecar.Prelude.Assoc.{Assoc}
use gatus_sidecar.Prelude.Text.{cut}
use gatus_sidecar.Config.Endpoint.{Endpoint}
use gatus_sidecar.Discovery.Annotations.{Annotations, annotation, or_empty_string}
use gatus_sidecar.Discovery.Entrypoints.{TraefikService, EntrypointPorts}
use gatus_sidecar.Discovery.IngressRoute.{Route, Outside}
use gatus_sidecar.Discovery.IngressRoute.Derive.{Resolver, from_ingress_route}
use gatus_sidecar.Discovery.IngressRouteTcp.{from_ingress_route_tcp}
use gatus_sidecar.Discovery.Service.{
  Options, Service, NamedPort, Found, found, failed, from_service,
}
use gatus_sidecar.Discovery.Specs.{Decoder}
use gatus_sidecar.Registry.{Registry, Outcome, set, delete, touch}
use gatus_sidecar.Registry.Order.{Key}

-- The answer of `Get`.
pub data Fetched {ℓ} (A : Type ℓ) : Type ℓ where
  there : A → Fetched A
  not_found : Fetched A
  get_failed : Fetched A

pub record Namespace : Type 0 where
  pub annotations : Annotations
  pub labels : Assoc String String

-- Whether `Reconcile` returns an error, for a later retry, or has called the registry.
pub data Reconciled : Type 0 where
  retried : Reconciled
  called : Outcome Bool → Reconciled

abbrev pub Selector : Type 0
Selector = Option (Assoc String String → Bool)

unfoldable pub namespace_selected : Selector → Option Namespace → Bool
namespace_selected none ns = true
namespace_selected (some matches) none = false
namespace_selected (some matches) (some ns) = matches ns.labels

unfoldable pub group_of : Option Namespace → String
group_of none = ""
group_of (some ns) = or_empty_string (annotation ns.annotations "group")

-- The part that the three share, for the object and its namespace: `next` continues with the group.
in_namespace : Selector → Registry → Key → (String → Reconciled) → Option Namespace → Reconciled
unfolding namespace_selected group_of
in_namespace selector r key next ns =
    if not (namespace_selected selector ns) then called (delete r key) else next (group_of ns)

-- The method `namespace`: a namespace that is not found is nil.
with_namespace : Selector → Registry → Key → (String → Reconciled) → Fetched Namespace → Reconciled
unfolding in_namespace
with_namespace selector r key next get_failed = retried
with_namespace selector r key next not_found = in_namespace selector r key next none
with_namespace selector r key next (there ns) = in_namespace selector r key next (some ns)

with_object {ℓ} :
    {A : Type ℓ}
    → Selector
    → Registry
    → Key
    → Fetched Namespace
    → (A → String → Reconciled)
    → Fetched A
    → Reconciled
unfolding with_namespace
with_object selector r key ns next get_failed = retried
with_object selector r key ns next not_found = called (delete r key)
with_object selector r key ns next (there a) = with_namespace selector r key (next a) ns

set_found : Registry → Key → Found (List Endpoint) → Reconciled
set_found r key (failed e) = called (delete r key)
set_found r key (found eps) = called (set r key eps)

unfoldable pub reconcile_service :
    (String → String → Bool)
    → Decoder
    → Options
    → Selector
    → Registry
    → String
    → String
    → Fetched Service
    → Fetched Namespace
    → Reconciled
unfolding with_object set_found
reconcile_service path_match d o selector r namespace name svc ns =
    let key : Key = record { kind = "Service"; namespace = namespace; name = name } in
    with_object selector r key ns (λ s group. set_found r key (from_service path_match d o s group))
      svc

unfoldable pub reconcile_ingress_route :
    Outside
    → Decoder
    → Options
    → Resolver
    → Selector
    → Registry
    → String
    → String
    → Fetched Route
    → Fetched Namespace
    → Reconciled
unfolding with_object
reconcile_ingress_route out d o resolve selector r namespace name route ns =
    let key : Key = record { kind = "IngressRoute"; namespace = namespace; name = name } in
    with_object selector r key ns
      (λ a group. called (set r key (from_ingress_route out d o a group resolve).endpoints)) route

set_tcp : Registry → Key → (EntrypointPorts → List Endpoint) → Option EntrypointPorts → Reconciled
set_tcp r key derive none = retried
set_tcp r key derive (some ports) = called (set r key (derive ports))

unfoldable pub reconcile_ingress_route_tcp :
    Outside
    → Decoder
    → Options
    → Resolver
    → Option EntrypointPorts
    → Selector
    → Registry
    → String
    → String
    → Fetched Route
    → Fetched Namespace
    → Reconciled
unfolding with_object set_tcp
reconcile_ingress_route_tcp out d o resolve ports selector r namespace name route ns =
    let key : Key = record { kind = "IngressRouteTCP"; namespace = namespace; name = name } in
    with_object selector r key ns
      (λ a group.
        set_tcp r key (λ p. (from_ingress_route_tcp out d o a group resolve p).endpoints) ports)
      route

-- A port of a Service with its node port, and the Service as `traefikService` reads it.
pub record ServicePort : Type 0 where
  pub name : String
  pub port : ℕ
  pub node_port : ℕ

unfoldable pub published_ports : Bool → List ServicePort → Assoc String ℕ → Assoc String ℕ
published_ports is_node_port [] out = out
published_ports is_node_port (p ∷ ports) out = published_ports is_node_port ports (
    if p.name == ""
    then out
    else Assoc.put p.name (if is_node_port && not (p.node_port == 0) then p.node_port else p.port)
        out)

unfoldable pub traefik_service : String → String → Bool → List ServicePort → TraefikService
unfolding published_ports
traefik_service namespace name is_node_port ports = record {
  namespace = namespace;
  name = name;
  ports = published_ports is_node_port ports [];
}

add_configured : TraefikService → Option (List TraefikService) → Option (List TraefikService)
add_configured s none = none
add_configured s (some services) = some (s ∷ services)

configured_one :
    Fetched TraefikService → Option (List TraefikService) → Option (List TraefikService)
unfolding add_configured
configured_one get_failed rest = none
configured_one not_found rest = rest
configured_one (there s) rest = add_configured s rest

by_ref :
    (String → String → Fetched TraefikService)
    → Option (String × String)
    → Option (List TraefikService)
    → Option (List TraefikService)
unfolding configured_one
by_ref get none rest = none
by_ref get (some (namespace, name)) rest = configured_one (get namespace name) rest

configured : (String → String → Fetched TraefikService) → List String → Option (List TraefikService)
unfolding by_ref
configured get [] = some []
configured get (ref ∷ refs) = by_ref get (cut ref "/") (configured get refs)

with_overrides : Assoc String ℕ → Option (List TraefikService) → Option EntrypointPorts
with_overrides overrides none = none
with_overrides overrides (some services) =
    some (record { overrides = overrides; services = services })

-- `entrypointPorts`, for the configured references, or, where there are none, what `List` answers.
unfoldable pub entrypoint_ports :
    Assoc String ℕ
    → (String → String → Fetched TraefikService)
    → List String
    → Option (List TraefikService)
    → Option EntrypointPorts
unfolding configured with_overrides
entrypoint_ports overrides get [] labelled = with_overrides overrides labelled
entrypoint_ports overrides get (ref ∷ refs) labelled =
    with_overrides overrides (configured get (ref ∷ refs))

-- `Reconcile` of endpointtemplate_controller.go
unfoldable pub reconcile_template : Registry → Registry
unfolding touch
reconcile_template r = touch r
