-- ===== src/Controller/Cluster.antt =====
-- What the controllers of internal/controller read of the cluster, and each `Reconcile` with what the
-- client answers it. The client of controller-runtime is a parameter: its answers are a function of
-- the request, as they are while the cluster does not change.
use gatus_sidecar.Prelude.{ℕ, String, Bool, Option, none, some, List, map}
use gatus_sidecar.Prelude.Assoc.{Assoc}
use gatus_sidecar.Discovery.Annotations.{Annotations}
use gatus_sidecar.Discovery.Entrypoints.{TraefikService, EntrypointPorts}
use gatus_sidecar.Discovery.IngressRoute.{Route, Outside}
use gatus_sidecar.Discovery.IngressRoute.Derive.{Resolver}
use gatus_sidecar.Discovery.Service.{Options, Service, NamedPort}
use gatus_sidecar.Discovery.Specs.{Decoder}
use gatus_sidecar.Registry.{Registry}
use gatus_sidecar.Controller.Reconcile.{
  Fetched, there, not_found, get_failed, Namespace, Reconciled, Selector, ServicePort,
  reconcile_service, reconcile_ingress_route, reconcile_ingress_route_tcp, traefik_service,
  entrypoint_ports,
}

-- A Service with all the fields that some controller reads.
pub record KubeService : Type 0 where
  pub namespace : String
  pub name : String
  pub annotations : Annotations
  pub labels : Assoc String String
  pub is_external_name : Bool
  pub is_node_port : Bool
  pub ports : List ServicePort

-- `Get`, and `List` in one namespace or in all of them (`none`).
pub record Client : Type 0 where
  pub get_service : String → String → Fetched KubeService
  pub get_namespace : String → Fetched Namespace
  pub get_ingress_route : String → String → Fetched Route
  pub get_ingress_route_tcp : String → String → Fetched Route
  pub list_services : Option String → Option (List KubeService)
  pub list_ingress_routes : Option String → Option (List Route)
  pub list_ingress_route_tcps : Option String → Option (List Route)
  -- `List` with a label selector.
  pub list_labelled : (Assoc String String → Bool) → Option (List KubeService)
  -- What `labels.Parse` makes of `TraefikServiceLabel`.
  pub traefik_label : Option (Assoc String String → Bool)

-- The fields of the reconcilers, but for the registry.
pub record Reconciler : Type 0 where
  pub client : Client
  pub outside : Outside
  pub decoder : Decoder
  pub options : Options
  pub selector : Selector
  pub traefik_services : List String
  pub overrides : Assoc String ℕ

abbrev pub fetched_map {ℓ κ} : {A : Type ℓ} {B : Type κ} → (A → B) → Fetched A → Fetched B
fetched_map f (there a) = there (f a)
fetched_map f not_found = not_found
fetched_map f get_failed = get_failed

-- `toNamedPorts`
unfoldable pub named_port : ServicePort → NamedPort
named_port p = record { name = p.name; port = p.port }

unfoldable pub as_service : KubeService → Service
unfolding named_port
as_service s = record {
  namespace = s.namespace;
  name = s.name;
  annotations = s.annotations;
  is_external_name = s.is_external_name;
  ports = map named_port s.ports;
}

unfoldable pub as_traefik_service : KubeService → TraefikService
unfolding traefik_service
as_traefik_service s = traefik_service s.namespace s.name s.is_node_port s.ports

pub ports_found : Fetched KubeService → Option (List NamedPort)
unfolding named_port
ports_found (there s) = some (map named_port s.ports)
ports_found not_found = none
ports_found get_failed = none

-- `resolveService`
unfoldable pub resolve_service : Client → Resolver
unfolding ports_found
resolve_service c = some (λ namespace name. ports_found (c.get_service namespace name))

abbrev pub option_map {ℓ κ} : {A : Type ℓ} {B : Type κ} → (A → B) → Option A → Option B
option_map f none = none
option_map f (some a) = some (f a)

labelled_with : Client → Option (Assoc String String → Bool) → Option (List KubeService)
labelled_with c none = none
labelled_with c (some matches) = c.list_labelled matches

-- The Services of Traefik where none is configured.
unfoldable pub labelled_services : Client → Option (List KubeService)
unfolding labelled_with
labelled_services c = labelled_with c c.traefik_label

-- `entrypointPorts`
unfoldable pub ports_in : Client → Assoc String ℕ → List String → Option EntrypointPorts
unfolding entrypoint_ports as_traefik_service labelled_services
ports_in c overrides refs =
    entrypoint_ports overrides
      (λ namespace name. fetched_map as_traefik_service (c.get_service namespace name)) refs
      (option_map (map as_traefik_service) (labelled_services c))

module _ (rec : Reconciler) where
  unfoldable pub reconcile_service_in : Registry → String → String → Reconciled
  unfolding reconcile_service as_service
  reconcile_service_in r namespace name =
      reconcile_service rec.outside.path_match rec.decoder rec.options rec.selector r namespace name
        (fetched_map as_service (rec.client.get_service namespace name))
        (rec.client.get_namespace namespace)

  unfoldable pub reconcile_ingress_route_in : Registry → String → String → Reconciled
  unfolding reconcile_ingress_route resolve_service
  reconcile_ingress_route_in r namespace name =
      reconcile_ingress_route rec.outside rec.decoder rec.options (resolve_service rec.client)
        rec.selector r namespace name (rec.client.get_ingress_route namespace name)
        (rec.client.get_namespace namespace)

  unfoldable pub reconcile_ingress_route_tcp_in : Registry → String → String → Reconciled
  unfolding reconcile_ingress_route_tcp resolve_service ports_in
  reconcile_ingress_route_tcp_in r namespace name =
      reconcile_ingress_route_tcp rec.outside rec.decoder rec.options (resolve_service rec.client)
        (ports_in rec.client rec.overrides rec.traefik_services) rec.selector r namespace name
        (rec.client.get_ingress_route_tcp namespace name) (rec.client.get_namespace namespace)
