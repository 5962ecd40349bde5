-- ===== src/Controller/Primer/Complete.antt =====
-- About `Prime` of internal/controller/primer.go: the registry that it leaves.
use gatus_sidecar.Prelude.{
  ℕ, String, ◌≡◌, refl, sym, ap, ◌∙◌, subst, ◌≢◌, ◌⊎◌, inl, inr, Bool, true, false, Option, none,
  some, List, [], ◌∷◌, string_eq, All-map, ne_of_beq,
}
use gatus_sidecar.Prelude.Assoc
use gatus_sidecar.Config.Endpoint.{Endpoint}
use gatus_sidecar.Registry.Laws.{Stored}
use gatus_sidecar.Registry.Order.{Key, key_eq}
use gatus_sidecar.Registry.{Registry}
use gatus_sidecar.Controller.Reconcile.{Reconciled}
use gatus_sidecar.Controller.Reconcile.Contribution.{key_of}
use gatus_sidecar.Controller.Cluster.{
  Reconciler, reconcile_service_in, reconcile_ingress_route_in, reconcile_ingress_route_tcp_in,
}
use gatus_sidecar.Controller.Primer.{
  Primer, Swept, swept, crashed, stuck, Request, sweep, Primed, primed, not_listed, prime_crashed,
  prime_stuck, continue, listed, prime_kind, service_requests, ingress_route_requests,
  ingress_route_tcp_requests, prime_tcp, prime_routes, prime,
}
use gatus_sidecar.Controller.Primer.Sweep.{
  BringsInLine, request_key, Contributed, IsApart, InSync, CrashesAt, Ends, sweep-Ends,
}
use gatus_sidecar.Controller.Primer.Wanted.{
  service_wanted, ingress_route_wanted, ingress_route_tcp_wanted, service_in-InLine,
  ingress_route_in-InLine, ingress_route_tcp_in-InLine,
}

-- The objects that a sweep goes over.
abbrev pub swept_requests : Bool → Option (List Request) → List Request
swept_requests false requests = []
swept_requests true none = []
swept_requests true (some requests) = requests

-- What follows from a block of `Prime`, whichever way it goes.
prime_kind_cases :
    (kind : String) (wanted : String → String → Option (List Endpoint))
    (reconcile : Registry → String → String → Reconciled)
    → BringsInLine kind wanted reconcile
    → (Post : Primed → Type 0) (enabled : Bool) (requests : Option (List Request))
      (next : ℕ → Registry → Primed) (r : Registry)
    → r.locked ≡ false
    → ((n : ℕ) (r' : Registry)
        → InSync kind wanted (swept_requests enabled requests) r r'
        → Post (next n r'))
    → (enabled ≡ true → requests ≡ none → Post (not_listed kind r))
    → ((r' : Registry)
        → CrashesAt kind wanted (swept_requests enabled requests) r r'
        → Post (prime_crashed r'))
    → Post (prime_kind enabled kind reconcile requests next r)
unfolding prime_kind listed continue
prime_kind_cases kind wanted reconcile l Post false requests next r u f g h =
    f 0 r (record { unlocked = u; contributed = tt; others = λ k a. refl })
prime_kind_cases kind wanted reconcile l Post true none next r u f g h = g refl refl
prime_kind_cases kind wanted reconcile l Post true (some requests) next r u f g h =
    ended (sweep reconcile requests 0 r) (sweep-Ends kind wanted reconcile l requests 0 r u)
  where
    ended : (s : Swept) → Ends kind wanted requests r s → Post (continue next s)
    ended (swept n r') i = f n r' i
    ended (crashed r') c = h r' c
    ended stuck e = absurd e

-- The keys of one kind are none of another.
pub other_kind :
    (kind kind' : String) (wanted : String → String → Option (List Endpoint))
    → kind ≢ kind'
    → (q : Request) (requests : List Request)
    → IsApart kind' wanted (request_key kind wanted q) requests
other_kind kind kind' wanted n q [] = tt
other_kind kind kind' wanted n q (x ∷ requests) =
    (inl (λ e. n (sym (ap (λ (k : Key). k.kind) e))), other_kind kind kind' wanted n q requests)

-- What a sweep of one kind has brought is not touched by a sweep of another.
keeps :
    (kind kind' : String) (wanted wanted' : String → String → Option (List Endpoint))
    → kind ≢ kind'
    → (requests requests' : List Request) (r r' : Registry) → Contributed kind wanted requests r
    → InSync kind' wanted' requests' r r'
    → Contributed kind wanted requests r'
keeps kind kind' wanted wanted' n requests requests' r r' c i =
    All-map _ _
      (λ q f eps w.
        subst (Stored eps)
          (sym (i.others (request_key kind wanted q) (other_kind kind kind' wanted' n q requests')))
          (f eps w))
      requests c

pub service-ne-route : ◌≢◌ {A = String} "Service" "IngressRoute"
service-ne-route = ne_of_beq "Service" "IngressRoute" refl

pub service-ne-tcp : ◌≢◌ {A = String} "Service" "IngressRouteTCP"
service-ne-tcp = ne_of_beq "Service" "IngressRouteTCP" refl

pub route-ne-tcp : ◌≢◌ {A = String} "IngressRoute" "IngressRouteTCP"
route-ne-tcp = ne_of_beq "IngressRoute" "IngressRouteTCP" refl

module _ (p : Primer) where
  abbrev pub swept_services : List Request
  swept_services = swept_requests p.service (service_requests p)

  abbrev pub swept_routes : List Request
  swept_routes = swept_requests p.ingress_route (ingress_route_requests p)

  abbrev pub swept_tcp_routes : List Request
  swept_tcp_routes = swept_requests p.ingress_route_tcp (ingress_route_tcp_requests p)

  -- The registry has what every listed object contributes, and is else as it was.
  pub record IsComplete (r r' : Registry) : Type 0 where
    pub unlocked : r'.locked ≡ false
    pub services : Contributed "Service" (service_wanted p.reconciler) swept_services r'
    pub routes : Contributed "IngressRoute" (ingress_route_wanted p.reconciler) swept_routes r'
    pub tcp_routes :
        Contributed "IngressRouteTCP" (ingress_route_tcp_wanted p.reconciler) swept_tcp_routes r'
    pub others :
        (k : Key)
        → IsApart "Service" (service_wanted p.reconciler) k swept_services
        → IsApart "IngressRoute" (ingress_route_wanted p.reconciler) k swept_routes
        → IsApart "IngressRouteTCP" (ingress_route_tcp_wanted p.reconciler) k swept_tcp_routes
        → Assoc.lookup k r'.entries ≡ Assoc.lookup k r.entries

  abbrev pub ServicesInSync : Registry → Registry → Type 0
  ServicesInSync = InSync "Service" (service_wanted p.reconciler) swept_services

  abbrev pub RoutesInSync : Registry → Registry → Type 0
  RoutesInSync = InSync "IngressRoute" (ingress_route_wanted p.reconciler) swept_routes

  abbrev TcpRoutesInSync : Registry → Registry → Type 0
  TcpRoutesInSync =
      InSync "IngressRouteTCP" (ingress_route_tcp_wanted p.reconciler) swept_tcp_routes

  -- The sweeps before the listing that failed have brought their kinds in line, and nothing else has
  -- been done.
  abbrev pub IsUnlisted : String → Registry → Registry → Type 0
  IsUnlisted kind r r' =
      ((kind ≡ "Service")
        × (p.service ≡ true)
        × (service_requests p ≡ none)
        × (r'.entries ≡ r.entries))
      ⊎ ((kind ≡ "IngressRoute")
          × (p.ingress_route ≡ true)
          × (ingress_route_requests p ≡ none)
          × ServicesInSync r r')
      ⊎ ((kind ≡ "IngressRouteTCP")
          × (p.ingress_route_tcp ≡ true)
          × (ingress_route_tcp_requests p ≡ none)
          × ((r₁ : Registry) × ServicesInSync r r₁ × RoutesInSync r₁ r'))

  -- After an error, no object of the kind that was not listed has been touched.
  pub record IsPartial (kind : String) (r r' : Registry) : Type 0 where
    pub unlocked : r'.locked ≡ false
    pub unlisted : IsUnlisted kind r r'
    pub untouched :
        (namespace name : String)
        → Assoc.lookup (key_of kind namespace name) r'.entries
          ≡ Assoc.lookup (key_of kind namespace name) r.entries

  -- `Prime` has crashed in one of its sweeps, after those before it were brought in line.
  pub data PrimeCrashes (r r' : Registry) : Type 0 where
    at_service :
        CrashesAt "Service" (service_wanted p.reconciler) swept_services r r' → PrimeCrashes r r'
    at_ingress_route :
        (r₁ : Registry)
        → ServicesInSync r r₁
        → CrashesAt "IngressRoute" (ingress_route_wanted p.reconciler) swept_routes r₁ r'
        → PrimeCrashes r r'
    at_ingress_route_tcp :
        (r₁ r₂ : Registry)
        → ServicesInSync r r₁
        → RoutesInSync r₁ r₂
        → CrashesAt "IngressRouteTCP" (ingress_route_tcp_wanted p.reconciler) swept_tcp_routes r₂ r'
        → PrimeCrashes r r'

  abbrev pub PrimeEnds : Registry → Primed → Type 0
  PrimeEnds r (primed services routes tcp_routes r') = IsComplete r r'
  PrimeEnds r (not_listed kind r') = IsPartial kind r r'
  PrimeEnds r (prime_crashed r') = PrimeCrashes r r'
  PrimeEnds r prime_stuck = ⊥

  after_all :
      (r r₁ r₂ r₃ : Registry)
      → ServicesInSync r r₁
      → RoutesInSync r₁ r₂
      → TcpRoutesInSync r₂ r₃
      → IsComplete r r₃
  after_all r r₁ r₂ r₃ i₁ i₂ i₃ = record {
    unlocked = i₃.unlocked;
    services =
        keeps "Service" "IngressRouteTCP" _ _ service-ne-tcp swept_services swept_tcp_routes r₂ r₃
          (keeps "Service" "IngressRoute" _ _ service-ne-route swept_services swept_routes r₁ r₂
            i₁.contributed i₂)
          i₃;
    routes =
        keeps "IngressRoute" "IngressRouteTCP" _ _ route-ne-tcp swept_routes swept_tcp_routes r₂ r₃
          i₂.contributed i₃;
    tcp_routes = i₃.contributed;
    others = λ k a b c. i₃.others k c ∙ i₂.others k b ∙ i₁.others k a;
  }

  no_routes :
      (r r₁ : Registry)
      → p.ingress_route ≡ true
      → ingress_route_requests p ≡ none
      → ServicesInSync r r₁
      → IsPartial "IngressRoute" r r₁
  no_routes r r₁ on e i₁ = record {
    unlocked = i₁.unlocked;
    unlisted = inr (inl (refl, on, e, i₁));
    untouched = λ a b. i₁.others (key_of "IngressRoute" a b) (
        other_kind "IngressRoute" "Service" (service_wanted p.reconciler)
          (λ q. service-ne-route (sym q)) (a, b) swept_services);
  }

  no_tcp_routes :
      (r r₁ r₂ : Registry)
      → p.ingress_route_tcp ≡ true
      → ingress_route_tcp_requests p ≡ none
      → ServicesInSync r r₁
      → RoutesInSync r₁ r₂
      → IsPartial "IngressRouteTCP" r r₂
  no_tcp_routes r r₁ r₂ on e i₁ i₂ = record {
    unlocked = i₂.unlocked;
    unlisted = inr (inr (refl, on, e, (r₁, i₁, i₂)));
    untouched = λ a b.
        i₂.others (key_of "IngressRouteTCP" a b) (
          other_kind "IngressRouteTCP" "IngressRoute" (ingress_route_wanted p.reconciler)
            (λ q. route-ne-tcp (sym q)) (a, b) swept_routes)
        ∙ i₁.others (key_of "IngressRouteTCP" a b) (
            other_kind "IngressRouteTCP" "Service" (service_wanted p.reconciler)
              (λ q. service-ne-tcp (sym q)) (a, b) swept_services);
  }

  pub prime-Ends : (r : Registry) → r.locked ≡ false → PrimeEnds r (prime p r)
  unfolding prime prime_routes prime_tcp
  prime-Ends r u =
      prime_kind_cases "Service" (service_wanted rec) (reconcile_service_in rec)
        (service_in-InLine rec) (PrimeEnds r) p.service (service_requests p) (prime_routes p) r u
        (λ n r₁ i₁.
          prime_kind_cases "IngressRoute" (ingress_route_wanted rec)
            (reconcile_ingress_route_in rec) (ingress_route_in-InLine rec) (PrimeEnds r)
            p.ingress_route (ingress_route_requests p) (prime_tcp p n) r₁ i₁.unlocked
            (λ m r₂ i₂.
              prime_kind_cases "IngressRouteTCP" (ingress_route_tcp_wanted rec)
                (reconcile_ingress_route_tcp_in rec) (ingress_route_tcp_in-InLine rec) (PrimeEnds r)
                p.ingress_route_tcp (ingress_route_tcp_requests p) (primed n m) r₂ i₂.unlocked
                (λ l r₃ i₃. after_all r r₁ r₂ r₃ i₁ i₂ i₃)
                (λ on e. no_tcp_routes r r₁ r₂ on e i₁ i₂)
                (λ r' c. at_ingress_route_tcp r₁ r₂ i₁ i₂ c))
            (λ on e. no_routes r r₁ on e i₁) (λ r' c. at_ingress_route r₁ i₁ c))
        (λ on e. record {
          unlocked = u;
          unlisted = inl (refl, on, e, refl);
          untouched = λ a b. refl;
        })
        (λ r' c. at_service c)
    where
      rec : Reconciler
      rec = p.reconciler
