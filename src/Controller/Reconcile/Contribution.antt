-- ===== src/Controller/Reconcile/Contribution.antt =====
-- About `Reconcile`: what an object contributes to the registry.
use gatus_sidecar.Prelude.{
  sym, subst, String, ◌≡◌, Bool, false, Option, none, some, List, string_eq,
}
use gatus_sidecar.Config.Endpoint.{Endpoint}
use gatus_sidecar.Discovery.Entrypoints.{EntrypointPorts}
use gatus_sidecar.Discovery.IngressRoute.{Route, Outside}
use gatus_sidecar.Discovery.IngressRoute.Derive.{Resolver, from_ingress_route}
use gatus_sidecar.Discovery.IngressRouteTcp.{from_ingress_route_tcp}
use gatus_sidecar.Discovery.Service.{Options, Service, from_service}
use gatus_sidecar.Discovery.Specs.{Decoder}
use gatus_sidecar.Registry.{Registry}
use gatus_sidecar.Registry.Laws.{Ensures, set-Ensures}
use gatus_sidecar.Registry.Order.{Key}
use gatus_sidecar.Controller.Reconcile.{
  Fetched, Namespace, Reconciled, retried, called, Selector, reconcile_service,
  reconcile_ingress_route, reconcile_ingress_route_tcp,
}
pub use gatus_sidecar.Controller.Reconcile.Sets.{
  known, in_selected, contribution, endpoints_found, key_of, tcp_contribution,
}
use gatus_sidecar.Controller.Reconcile.Sets.{
  Sets, reconcile_service-Sets, reconcile_ingress_route-Sets, reconcile_ingress_route_tcp-Sets,
}

-- The registry has what is contributed, as `Set` promises; without an answer it has not been called.
abbrev pub InLine : Registry → Key → Option (List Endpoint) → Reconciled → Type 0
InLine r key none retried = Unit
InLine r key (some eps) (called outcome) = Ensures r key eps outcome
InLine r key _ _ = ⊥

Sets-InLine :
    (r : Registry) (key : Key) (found : Option (List Endpoint)) (answer : Reconciled)
    → r.locked ≡ false
    → Sets r key found answer
    → InLine r key found answer
Sets-InLine r key none answer u s = subst (InLine r key none) (sym s) tt
Sets-InLine r key (some eps) answer u s =
    subst (InLine r key (some eps)) (sym s) (set-Ensures r key u eps)

-- `Reconcile` of a Service brings an unlocked registry in line with what the Service contributes: its
-- endpoints, or nothing if it is gone, its namespace is not selected, or its annotations are in error.
-- Where the API server does not answer, the registry is not called and an error is returned.
pub reconcile_service-InLine :
    (path_match : String → String → Bool) (d : Decoder) (o : Options) (selector : Selector)
    (r : Registry) (namespace name : String) (svc : Fetched Service) (ns : Fetched Namespace)
    → r.locked ≡ false
    → InLine r
        (key_of "Service" namespace name)
        (contribution selector
          (λ s group. some (endpoints_found (from_service path_match d o s group)))
          svc
          ns)
        (reconcile_service path_match d o selector r namespace name svc ns)
reconcile_service-InLine path_match d o selector r namespace name svc ns u =
    Sets-InLine r (key_of "Service" namespace name) _ _ u
      (reconcile_service-Sets path_match d o selector r namespace name svc ns)

-- `Reconcile` of an IngressRoute and of an IngressRouteTCP does the same, and keeps what could be
-- derived beside an error; for the latter the ports of the entrypoints have to be known as well.
pub reconcile_route-InLine :
    (out : Outside) (d : Decoder) (o : Options) (resolve : Resolver)
    (ports : Option EntrypointPorts) (selector : Selector) (r : Registry) (namespace name : String)
    (route : Fetched Route) (ns : Fetched Namespace)
    → r.locked ≡ false
    → InLine r
        (key_of "IngressRoute" namespace name)
        (contribution selector
          (λ a group. some (from_ingress_route out d o a group resolve).endpoints)
          route
          ns)
        (reconcile_ingress_route out d o resolve selector r namespace name route ns)
      × InLine r
          (key_of "IngressRouteTCP" namespace name)
          (contribution selector
            (λ a group.
              tcp_contribution
                (λ p. (from_ingress_route_tcp out d o a group resolve p).endpoints)
                ports)
            route
            ns)
          (reconcile_ingress_route_tcp out d o resolve ports selector r namespace name route ns)
reconcile_route-InLine out d o resolve ports selector r namespace name route ns u = (
  Sets-InLine r (key_of "IngressRoute" namespace name) _ _ u
      (reconcile_ingress_route-Sets out d o resolve selector r namespace name route ns),
  Sets-InLine r (key_of "IngressRouteTCP" namespace name) _ _ u
      (reconcile_ingress_route_tcp-Sets out d o resolve ports selector r namespace name route ns),
)
