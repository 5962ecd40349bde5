-- ===== src/Controller/Primer/Fresh.antt =====
-- About `Prime` of internal/controller/primer.go on a registry that no reconciler has called yet.
use gatus_sidecar.Prelude.{
  ℕ, suc, String, ◌≡◌, refl, sym, ◌∙◌, ◌≢◌, Bool, true, false, Option, none, some, List, [], ◌∷◌,
  string_eq, none≢some, All,
}
use gatus_sidecar.Prelude.Assoc
use gatus_sidecar.Config.Endpoint.{Endpoint}
use gatus_sidecar.Registry.Laws.{SetEffect}
use gatus_sidecar.Registry.Order.{key_eq}
use gatus_sidecar.Registry.{Registry, returned, panicked, blocked}
use gatus_sidecar.Controller.Reconcile.{Reconciled, retried, called}
use gatus_sidecar.Controller.Reconcile.Contribution.{InLine, key_of}
use gatus_sidecar.Controller.Cluster.{
  Reconciler, reconcile_service_in, reconcile_ingress_route_in, reconcile_ingress_route_tcp_in,
}
use gatus_sidecar.Controller.Primer.{
  Primer, Swept, swept, crashed, stuck, Request, after_one, sweep, Primed, primed, not_listed,
  prime_crashed, prime_stuck, continue, listed, prime_kind, service_requests,
  ingress_route_requests, ingress_route_tcp_requests, prime_tcp, prime_routes, prime,
}
use gatus_sidecar.Controller.Primer.Complete.{
  swept_requests, other_kind, service-ne-route, service-ne-tcp, route-ne-tcp, swept_services,
  swept_routes, swept_tcp_routes,
}
use gatus_sidecar.Controller.Primer.Sweep.{
  BringsInLine, request_key, same_request, InSync, Ends, sweep-Ends,
}
use gatus_sidecar.Controller.Primer.Wanted.{
  service_wanted, ingress_route_wanted, ingress_route_tcp_wanted, service_in-InLine,
  ingress_route_in-InLine, ingress_route_tcp_in-InLine,
}

-- No object is listed twice.
abbrev pub IsListing : List Request → Type 0
IsListing [] = Unit
IsListing (q ∷ requests) = All (λ x. x ≢ q) requests × IsListing requests

-- The loop of a sweep, or `Prime`, ends without a panic.
abbrev Sweeps : Swept → Type 0
Sweeps (swept n r) = Unit
Sweeps (crashed r) = ⊥
Sweeps stuck = ⊥

abbrev pub Finishes : Primed → Type 0
Finishes (primed services routes tcp_routes r) = Unit
Finishes (not_listed kind r) = Unit
Finishes (prime_crashed r) = ⊥
Finishes prime_stuck = ⊥

module _ (kind : String) (wanted : String → String → Option (List Endpoint))
    (reconcile : Registry → String → String → Reconciled)
    (in_line : BringsInLine kind wanted reconcile) where
  -- No entry of a listed object.
  abbrev AreNew : Registry → List Request → Type 0
  AreNew r requests = All (λ q. Assoc.lookup (request_key kind wanted q) r.entries ≡ none) requests

  still_new :
      (q : Request) (requests : List Request) (eps : List Endpoint) (changed : Bool)
      (r r₁ : Registry)
      → SetEffect r (request_key kind wanted q) eps changed r₁
      → All (λ x. x ≢ q) requests
      → AreNew r requests
      → AreNew r₁ requests
  still_new q [] eps changed r r₁ e d a = tt
  still_new q (x ∷ requests) eps changed r r₁ e d a = (
    e.others (request_key kind wanted x) (λ k. d.0 (sym (same_request kind wanted q x k))) ∙ a.0,
    still_new q requests eps changed r r₁ e d.1 a.1,
  )

  after_one-Sweeps :
      (q : Request) (requests : List Request) (n : ℕ) (next : ℕ → Registry → Swept) (r : Registry)
      (found : Option (List Endpoint)) (answer : Reconciled)
      → InLine r (request_key kind wanted q) found answer
      → r.locked ≡ false
      → All (λ x. x ≢ q) requests
      → AreNew r (q ∷ requests)
      → ((m : ℕ) (r₁ : Registry) → r₁.locked ≡ false → AreNew r₁ requests → Sweeps (next m r₁))
      → Sweeps (after_one next n r answer)
  unfolding after_one
  after_one-Sweeps q requests n next r none retried l u d a f = f n r u a.1
  after_one-Sweeps q requests n next r none (called o) l u d a f = absurd l
  after_one-Sweeps q requests n next r (some eps) retried l u d a f = absurd l
  after_one-Sweeps q requests n next r (some eps) (called (returned c r₁)) l u d a f =
      f (suc n) r₁ l.unlocked (still_new q requests eps c r r₁ l d a.1)
  after_one-Sweeps q requests n next r (some eps) (called (panicked r₁)) l u d a f =
      absurd (none≢some (sym a.0 ∙ l.1.1))
  after_one-Sweeps q requests n next r (some eps) (called blocked) l u d a f = l

  sweep-Sweeps :
      (requests : List Request) (n : ℕ) (r : Registry)
      → r.locked ≡ false
      → IsListing requests
      → AreNew r requests
      → Sweeps (sweep reconcile requests n r)
  unfolding sweep
  sweep-Sweeps [] n r u d a = tt
  sweep-Sweeps ((namespace, name) ∷ requests) n r u d a =
      after_one-Sweeps (namespace, name) requests n (sweep reconcile requests) r
        (wanted namespace name) (reconcile r namespace name) (in_line r namespace name u) u d.0 a
        (λ m r₁ u' a'. sweep-Sweeps requests m r₁ u' d.1 a')

  abbrev IsNewKind : Registry → Type 0
  IsNewKind r = (q : Request) → Assoc.lookup (request_key kind wanted q) r.entries ≡ none

  all_new : (r : Registry) (requests : List Request) → IsNewKind r → AreNew r requests
  all_new r [] h = tt
  all_new r (q ∷ requests) h = (h q, all_new r requests h)

  prime_kind-Finishes :
      (enabled : Bool) (requests : Option (List Request)) (next : ℕ → Registry → Primed)
      (r : Registry)
      → r.locked ≡ false
      → IsListing (swept_requests enabled requests)
      → IsNewKind r
      → ((n : ℕ) (r' : Registry)
          → InSync kind wanted (swept_requests enabled requests) r r'
          → Finishes (next n r'))
      → Finishes (prime_kind enabled kind reconcile requests next r)
  unfolding prime_kind listed continue
  prime_kind-Finishes false requests next r u d a f =
      f 0 r (record { unlocked = u; contributed = tt; others = λ k h. refl })
  prime_kind-Finishes true none next r u d a f = tt
  prime_kind-Finishes true (some requests) next r u d a f =
      ended (sweep reconcile requests 0 r) (sweep-Ends kind wanted reconcile in_line requests 0 r u)
        (sweep-Sweeps requests 0 r u d (all_new r requests a))
    where
      ended : (s : Swept) → Ends kind wanted requests r s → Sweeps s → Finishes (continue next s)
      ended (swept n r') i s = f n r' i
      ended (crashed r') i s = s
      ended stuck i s = s

-- `Prime` on a registry with no entries ends without a panic, where no listing has an object twice.
pub prime-Finishes :
    (p : Primer) (changed : Bool)
    → IsListing (swept_services p)
    → IsListing (swept_routes p)
    → IsListing (swept_tcp_routes p)
    → Finishes (prime p (record { entries = []; changed = changed; locked = false }))
unfolding prime prime_routes prime_tcp Assoc.lookup
prime-Finishes p changed d₁ d₂ d₃ =
    prime_kind-Finishes "Service" (service_wanted rec) (reconcile_service_in rec)
      (service_in-InLine rec) p.service (service_requests p) (prime_routes p) _ refl d₁ (λ q. refl)
      λ n r₁ i₁.
        prime_kind-Finishes "IngressRoute" (ingress_route_wanted rec)
          (reconcile_ingress_route_in rec) (ingress_route_in-InLine rec) p.ingress_route
          (ingress_route_requests p) (prime_tcp p n) r₁ i₁.unlocked d₂
          (λ q. i₁.others (key_of "IngressRoute" q.0 q.1) (
            other_kind "IngressRoute" "Service" (service_wanted rec) (λ e. service-ne-route (sym e))
              q (swept_services p)))
          λ m r₂ i₂.
            prime_kind-Finishes "IngressRouteTCP" (ingress_route_tcp_wanted rec)
              (reconcile_ingress_route_tcp_in rec) (ingress_route_tcp_in-InLine rec)
              p.ingress_route_tcp (ingress_route_tcp_requests p) (primed n m) r₂ i₂.unlocked d₃
              (λ q.
                i₂.others (key_of "IngressRouteTCP" q.0 q.1) (
                  other_kind "IngressRouteTCP" "IngressRoute" (ingress_route_wanted rec)
                    (λ e. route-ne-tcp (sym e)) q (swept_routes p))
                ∙ i₁.others (key_of "IngressRouteTCP" q.0 q.1) (
                    other_kind "IngressRouteTCP" "Service" (service_wanted rec)
                      (λ e. service-ne-tcp (sym e)) q (swept_services p)))
              (λ l r₃ i₃. tt)
  where
    rec : Reconciler
    rec = p.reconciler
