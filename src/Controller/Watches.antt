-- ===== src/Controller/Watches.antt =====
-- `SetupWithManager` of the controllers of internal/controller: which objects an event makes them
-- reconcile. controller-runtime documents that `For` requests the object itself, and `Watches` what the
-- map function gives.
pub mod Namespaces
use gatus_sidecar.Prelude.{String, List, [], ◌∷◌}
use gatus_sidecar.Discovery.IngressRoute.{Route}
use gatus_sidecar.Controller.Cluster.{KubeService, Client, Reconciler}
use gatus_sidecar.Controller.Primer.{Request, service_request, route_request}
use gatus_sidecar.Controller.Events.{
  services_in_namespace, routes_in_namespace, routes_for_service, tcp_routes_in_namespace,
  tcp_routes_for_service,
}

-- What an event is about: a Namespace and a template by their names.
pub data Event : Type 0 where
  of_service : KubeService → Event
  of_namespace : String → Event
  of_ingress_route : Route → Event
  of_ingress_route_tcp : Route → Event
  of_template : String → Event

unfoldable pub service_watches : Client → Event → List Request
unfolding services_in_namespace
service_watches c (of_service s) = service_request s ∷ []
service_watches c (of_namespace name) = services_in_namespace c name
service_watches c _ = []

unfoldable pub route_watches : Client → Event → List Request
unfolding routes_in_namespace routes_for_service
route_watches c (of_ingress_route a) = route_request a ∷ []
route_watches c (of_namespace name) = routes_in_namespace c name
route_watches c (of_service s) = routes_for_service c s
route_watches c _ = []

unfoldable pub tcp_route_watches : Reconciler → Event → List Request
unfolding tcp_routes_in_namespace tcp_routes_for_service
tcp_route_watches rec (of_ingress_route_tcp a) = route_request a ∷ []
tcp_route_watches rec (of_namespace name) = tcp_routes_in_namespace rec.client name
tcp_route_watches rec (of_service s) = tcp_routes_for_service rec s
tcp_route_watches rec _ = []

unfoldable pub template_watches : Event → List String
template_watches (of_template name) = name ∷ []
template_watches _ = []
