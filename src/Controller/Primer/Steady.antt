-- ===== src/Controller/Primer/Steady.antt =====
-- About `Prime` of internal/controller/primer.go: it never disagrees with the watches.
use gatus_sidecar.Prelude.{
  ℕ, String, ◌≡◌, refl, ◌∙◌, ap, subst, true, false, Option, none, some, List, All, All-map,
}
use gatus_sidecar.Prelude.Assoc
use gatus_sidecar.Config.Endpoint.{Endpoint}
use gatus_sidecar.Registry.{Registry, returned}
use gatus_sidecar.Registry.Compare.{equal_endpoints}
use gatus_sidecar.Registry.Order.{Key, key_eq}
use gatus_sidecar.Registry.Laws.{Stored}
use gatus_sidecar.Registry.Settled.{set-returns}
use gatus_sidecar.Controller.Reconcile.{Reconciled, retried, called}
use gatus_sidecar.Controller.Reconcile.Contribution.{key_of}
use gatus_sidecar.Controller.Reconcile.Sets.{
  Sets, reconcile_service-Sets, reconcile_ingress_route-Sets, reconcile_ingress_route_tcp-Sets,
}
use gatus_sidecar.Controller.Cluster.{
  resolve_service, ports_in, reconcile_service_in, reconcile_ingress_route_in,
  reconcile_ingress_route_tcp_in,
}
use gatus_sidecar.Controller.Primer.{Primer, Request, primed, prime}
use gatus_sidecar.Controller.Primer.Complete.{
  PrimeEnds, prime-Ends, swept_services, swept_routes, swept_tcp_routes,
}
use gatus_sidecar.Controller.Primer.Sweep.{Contributed, request_key}
use gatus_sidecar.Controller.Primer.Wanted.{
  service_wanted, ingress_route_wanted, ingress_route_tcp_wanted,
}

-- `Reconcile` changes nothing: it asks for a retry, or it calls `Set`, which returns false; unless the
-- endpoints of the object are not equal to themselves for `equalEndpoints`.
abbrev pub IsSteady : Registry → Option (List Endpoint) → Reconciled → Type 0
IsSteady r none answer = answer ≡ retried
IsSteady r (some eps) answer =
    equal_endpoints eps eps ≡ some true → answer ≡ called (returned false r)

Sets-IsSteady :
    (r : Registry) (key : Key) (found : Option (List Endpoint)) (answer : Reconciled)
    → r.locked ≡ false
    → Sets r key found answer
    → ((eps : List Endpoint) → found ≡ some eps → Stored eps (Assoc.lookup key r.entries))
    → IsSteady r found answer
Sets-IsSteady r key none answer u s c = s
Sets-IsSteady r key (some eps) answer u s c =
    λ h. s ∙ ap called (set-returns r key eps u (c eps refl) h)

abbrev pub AreSteady :
    (String → String → Option (List Endpoint))
    → (Registry → String → String → Reconciled)
    → List Request
    → Registry
    → Type 0
AreSteady wanted reconcile requests r =
    All (λ q. IsSteady r (wanted q.0 q.1) (reconcile r q.0 q.1)) requests

Contributed-AreSteady :
    (kind : String) (wanted : String → String → Option (List Endpoint))
    (reconcile : Registry → String → String → Reconciled)
    → ((r : Registry) (namespace name : String)
        → Sets r (key_of kind namespace name) (wanted namespace name) (reconcile r namespace name))
    → (requests : List Request) (r : Registry) → r.locked ≡ false
    → Contributed kind wanted requests r
    → AreSteady wanted reconcile requests r
Contributed-AreSteady kind wanted reconcile sets requests r u c =
    All-map _ _
      (λ q f.
        Sets-IsSteady r (request_key kind wanted q) (wanted q.0 q.1) (reconcile r q.0 q.1) u
          (sets r q.0 q.1) f)
      requests c

-- After `Prime` has succeeded on an unlocked registry, and while the cluster answers as it did, calling
-- `Reconcile` for a listed object again changes nothing: it asks for a retry where an answer is wanting,
-- and else `Set` returns false, where `equalEndpoints` holds the object's endpoints equal to themselves.
pub primed-AreSteady :
    (p : Primer) (r r' : Registry) (services routes tcp_routes : ℕ)
    → r.locked ≡ false
    → prime p r ≡ primed services routes tcp_routes r'
    → AreSteady
        (service_wanted p.reconciler)
        (reconcile_service_in p.reconciler)
        (swept_services p)
        r'
      × AreSteady
          (ingress_route_wanted p.reconciler)
          (reconcile_ingress_route_in p.reconciler)
          (swept_routes p)
          r'
      × AreSteady
          (ingress_route_tcp_wanted p.reconciler)
          (reconcile_ingress_route_tcp_in p.reconciler)
          (swept_tcp_routes p)
          r'
unfolding reconcile_service_in reconcile_ingress_route_in reconcile_ingress_route_tcp_in
primed-AreSteady p r r' services routes tcp_routes u h =
    let rec = p.reconciler in
    let e : PrimeEnds p r (primed services routes tcp_routes r') =
      subst (PrimeEnds p r) h (prime-Ends p r u) in
    (
      Contributed-AreSteady "Service" _ _
          (λ r namespace name.
            reconcile_service-Sets rec.outside.path_match rec.decoder rec.options rec.selector r
              namespace name _ _)
          (swept_services p) r' e.unlocked e.services,
      Contributed-AreSteady "IngressRoute" _ _
          (λ r namespace name.
            reconcile_ingress_route-Sets rec.outside rec.decoder rec.options
              (resolve_service rec.client) rec.selector r namespace name _ _)
          (swept_routes p) r' e.unlocked e.routes,
      Contributed-AreSteady "IngressRouteTCP" _ _
          (λ r namespace name.
            reconcile_ingress_route_tcp-Sets rec.outside rec.decoder rec.options
              (resolve_service rec.client) (ports_in rec.client rec.overrides rec.traefik_services)
              rec.selector r namespace name _ _)
          (swept_tcp_routes p) r' e.unlocked e.tcp_routes,
    )
