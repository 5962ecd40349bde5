-- ===== src/Controller/Primer.antt =====
-- internal/controller/primer.go: every listed object is reconciled once, before the first render.
pub mod Sweep
pub mod Wanted
pub mod Complete
pub mod Fresh
pub mod Steady
use gatus_sidecar.Prelude.{
  ℕ, suc, String, Bool, true, false, Option, none, some, List, [], ◌∷◌, map,
}
use gatus_sidecar.Discovery.IngressRoute.{Route}
use gatus_sidecar.Registry.{Registry, Outcome, returned, panicked, blocked}
use gatus_sidecar.Controller.Reconcile.{Reconciled, retried, called}
use gatus_sidecar.Controller.Cluster.{
  KubeService, Client, Reconciler, reconcile_service_in, reconcile_ingress_route_in,
  reconcile_ingress_route_tcp_in, option_map,
}

-- A reconciler that is nil is `false`.
pub record Primer : Type 0 where
  pub reconciler : Reconciler
  pub service : Bool
  pub ingress_route : Bool
  pub ingress_route_tcp : Bool

-- The loop over one listing: how many objects were reconciled; or a call panicked or never ended.
pub data Swept : Type 0 where
  swept : ℕ → Registry → Swept
  crashed : Registry → Swept
  stuck : Swept

abbrev pub Request : Type 0
Request = String × String

-- An object that could not be reconciled is logged and passed over.
after_one : (ℕ → Registry → Swept) → ℕ → Registry → Reconciled → Swept
after_one next n r retried = next n r
after_one next n r (called (returned changed r')) = next (suc n) r'
after_one next n r (called (panicked r')) = crashed r'
after_one next n r (called blocked) = stuck

unfoldable pub sweep :
    (Registry → String → String → Reconciled) → List Request → ℕ → Registry → Swept
unfolding after_one
sweep reconcile [] n r = swept n r
sweep reconcile ((namespace, name) ∷ requests) n r =
    after_one (sweep reconcile requests) n r (reconcile r namespace name)

abbrev pub service_request : KubeService → Request
service_request s = (s.namespace, s.name)

abbrev pub route_request : Route → Request
route_request a = (a.namespace, a.name)

-- What `Prime` does: the counts that it logs, or the kind whose listing failed.
pub data Primed : Type 0 where
  primed : ℕ → ℕ → ℕ → Registry → Primed
  not_listed : String → Registry → Primed
  prime_crashed : Registry → Primed
  prime_stuck : Primed

continue : (ℕ → Registry → Primed) → Swept → Primed
continue next (swept n r) = next n r
continue next (crashed r) = prime_crashed r
continue next stuck = prime_stuck

listed :
    String
    → (Registry → String → String → Reconciled)
    → (ℕ → Registry → Primed)
    → Registry
    → Option (List Request)
    → Primed
unfolding continue
listed kind reconcile next r none = not_listed kind r
listed kind reconcile next r (some requests) = continue next (sweep reconcile requests 0 r)

-- The block of `Prime` for one kind.
prime_kind :
    Bool
    → String
    → (Registry → String → String → Reconciled)
    → Option (List Request)
    → (ℕ → Registry → Primed)
    → Registry
    → Primed
unfolding listed
prime_kind false kind reconcile requests next r = next 0 r
prime_kind true kind reconcile requests next r = listed kind reconcile next r requests

module _ (p : Primer) where
  abbrev pub service_requests : Option (List Request)
  service_requests = option_map (map service_request) (p.reconciler.client.list_services none)

  abbrev pub ingress_route_requests : Option (List Request)
  ingress_route_requests =
      option_map (map route_request) (p.reconciler.client.list_ingress_routes none)

  abbrev pub ingress_route_tcp_requests : Option (List Request)
  ingress_route_tcp_requests =
      option_map (map route_request) (p.reconciler.client.list_ingress_route_tcps none)

  prime_tcp : ℕ → ℕ → Registry → Primed
  unfolding prime_kind
  prime_tcp services routes =
      prime_kind p.ingress_route_tcp "IngressRouteTCP" (reconcile_ingress_route_tcp_in p.reconciler)
        ingress_route_tcp_requests (primed services routes)

  prime_routes : ℕ → Registry → Primed
  unfolding prime_kind prime_tcp
  prime_routes services =
      prime_kind p.ingress_route "IngressRoute" (reconcile_ingress_route_in p.reconciler)
        ingress_route_requests (prime_tcp services)

  unfoldable pub prime : Registry → Primed
  unfolding prime_kind prime_routes
  prime =
      prime_kind p.service "Service" (reconcile_service_in p.reconciler) service_requests
        prime_routes
