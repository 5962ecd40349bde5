-- ===== src/Controller/Events.antt =====
-- The functions of internal/controller that map an event of a Namespace or a Service to the objects
-- to reconcile.
pub mod Cache
pub mod Ports
pub mod Requests
pub mod Stale
use gatus_sidecar.Prelude.{
  String, Bool, false, Option, none, some, List, [], ◌∷◌, map, ◌==◌, string_eq, if◌then◌else◌,
}
use gatus_sidecar.Prelude.Assoc.{Assoc}
use gatus_sidecar.Prelude.Text.{concat}
use gatus_sidecar.Discovery.Annotations.{is_one_of}
use gatus_sidecar.Discovery.IngressRoute.{Route}
use gatus_sidecar.Controller.Cluster.{KubeService, Client, Reconciler}
use gatus_sidecar.Controller.Primer.{Request, service_request, route_request}

-- A listing that fails is logged, and gives no request.
unfoldable pub requests_of {ℓ} : {A : Type ℓ} → (A → Request) → Option (List A) → List Request
requests_of f none = []
requests_of f (some xs) = map f xs

-- `servicesInNamespace`, for the name of the namespace.
unfoldable pub services_in_namespace : Client → String → List Request
unfolding requests_of
services_in_namespace c name = requests_of service_request (c.list_services (some name))

-- `listRoutes` of ingressroute_controller.go
unfoldable pub list_routes : Client → String → List Request
unfolding requests_of
list_routes c namespace = requests_of route_request (c.list_ingress_routes (some namespace))

unfoldable pub routes_in_namespace : Client → String → List Request
unfolding list_routes
routes_in_namespace c name = list_routes c name

unfoldable pub routes_for_service : Client → KubeService → List Request
unfolding list_routes
routes_for_service c s = list_routes c s.namespace

-- `listRoutes` of ingressroutetcp_controller.go: without a namespace, those of all namespaces.
unfoldable pub list_tcp_routes : Client → String → List Request
unfolding requests_of
list_tcp_routes c namespace =
    requests_of route_request
      (c.list_ingress_route_tcps (if namespace == "" then none else some namespace))

unfoldable pub tcp_routes_in_namespace : Client → String → List Request
unfolding list_tcp_routes
tcp_routes_in_namespace c name = list_tcp_routes c name

unfoldable pub reference : KubeService → String
unfolding concat
reference s = concat (s.namespace ∷ "/" ∷ s.name ∷ [])

has_label : KubeService → Option (Assoc String String → Bool) → Bool
has_label s none = false
has_label s (some matches) = matches s.labels

unfoldable pub is_traefik_service : Client → List String → KubeService → Bool
unfolding has_label reference
is_traefik_service c [] s = has_label s c.traefik_label
is_traefik_service c (ref ∷ refs) s = is_one_of (reference s) (ref ∷ refs)

-- `routesForService` of ingressroutetcp_controller.go
unfoldable pub tcp_routes_for_service : Reconciler → KubeService → List Request
unfolding is_traefik_service list_tcp_routes
tcp_routes_for_service rec s =
    if is_traefik_service rec.client rec.traefik_services s
    then list_tcp_routes rec.client ""
    else list_tcp_routes rec.client s.namespace
