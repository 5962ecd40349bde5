-- ===== src/Controller/Reconcile/Sets.antt =====
-- About `Reconcile`: what an object contributes to the registry, and which call that makes.
use gatus_sidecar.Prelude.{
  String, ◌≡◌, refl, Bool, true, false, not, Option, none, some, List, [], string_eq, if◌then◌else◌,
}
use gatus_sidecar.Config.Endpoint.{Endpoint}
use gatus_sidecar.Discovery.Entrypoints.{EntrypointPorts}
use gatus_sidecar.Discovery.IngressRoute.{Route, Outside}
use gatus_sidecar.Discovery.IngressRoute.Derive.{Resolver, from_ingress_route}
use gatus_sidecar.Discovery.IngressRouteTcp.{from_ingress_route_tcp}
use gatus_sidecar.Discovery.Service.{Options, Service, Found, found, failed, from_service}
use gatus_sidecar.Discovery.Specs.{Decoder}
use gatus_sidecar.Registry.{Registry, set, delete}
use gatus_sidecar.Registry.Order.{Key}
use gatus_sidecar.Controller.Reconcile.{
  Fetched, there, not_found, get_failed, Namespace, Reconciled, retried, called, Selector,
  namespace_selected, group_of, in_namespace, with_namespace, with_object, set_found,
  reconcile_service, set_tcp, reconcile_ingress_route, reconcile_ingress_route_tcp,
}

-- The namespace, nil if it is not found, as long as the API server answers.
abbrev pub known : Fetched Namespace → Option (Option Namespace)
known get_failed = none
known not_found = some none
known (there ns) = some (some ns)

abbrev pub in_selected {ℓ} :
    {A : Type ℓ}
    → Selector
    → (A → String → Option (List Endpoint))
    → A
    → Option (Option Namespace)
    → Option (List Endpoint)
in_selected selector derive a none = none
in_selected selector derive a (some ns) =
    if namespace_selected selector ns then derive a (group_of ns) else some []

-- What an object is to contribute: nothing if it is gone or its namespace is not selected, and else
-- what is derived from it and the group of its namespace. `none` where an answer is wanting.
abbrev pub contribution {ℓ} :
    {A : Type ℓ}
    → Selector
    → (A → String → Option (List Endpoint))
    → Fetched A
    → Fetched Namespace
    → Option (List Endpoint)
contribution selector derive get_failed ns = none
contribution selector derive not_found ns = some []
contribution selector derive (there a) ns = in_selected selector derive a (known ns)

abbrev pub endpoints_found : Found (List Endpoint) → List Endpoint
endpoints_found (found eps) = eps
endpoints_found (failed e) = []

abbrev pub key_of : String → String → String → Key
key_of kind namespace name = record { kind = kind; namespace = namespace; name = name }

abbrev pub tcp_contribution :
    (EntrypointPorts → List Endpoint) → Option EntrypointPorts → Option (List Endpoint)
tcp_contribution derive none = none
tcp_contribution derive (some ports) = some (derive ports)

-- `Set` is called with what is contributed; without an answer, nothing is called.
abbrev pub Sets : Registry → Key → Option (List Endpoint) → Reconciled → Type 0
Sets r key none answer = answer ≡ retried
Sets r key (some eps) answer = answer ≡ called (set r key eps)

module _ (r : Registry) (key : Key) (selector : Selector) where
  in_namespace-Sets :
      (next : String → Reconciled) (wanted : String → Option (List Endpoint))
      → ((g : String) → Sets r key (wanted g) (next g))
      → (ns : Option Namespace)
      → Sets r key
          (if namespace_selected selector ns then wanted (group_of ns) else some [])
          (in_namespace selector r key next ns)
  unfolding in_namespace delete
  in_namespace-Sets next wanted f ns = by_selection (namespace_selected selector ns)
    where
      by_selection :
          (b : Bool)
          → Sets r key
              (if b then wanted (group_of ns) else some [])
              (if not b then called (set r key []) else next (group_of ns))
      by_selection true = f (group_of ns)
      by_selection false = refl

  with_object-Sets {ℓ} :
      {A : Type ℓ} (derive : A → String → Option (List Endpoint)) (next : A → String → Reconciled)
      → ((a : A) (g : String) → Sets r key (derive a g) (next a g))
      → (object : Fetched A) (ns : Fetched Namespace)
      → Sets r key
          (contribution selector derive object ns)
          (with_object selector r key ns next object)
  unfolding with_object with_namespace delete
  with_object-Sets derive next f get_failed ns = refl
  with_object-Sets derive next f not_found ns = refl
  with_object-Sets derive next f (there a) get_failed = refl
  with_object-Sets derive next f (there a) not_found =
      in_namespace-Sets (next a) (derive a) (f a) none
  with_object-Sets derive next f (there a) (there ns) =
      in_namespace-Sets (next a) (derive a) (f a) (some ns)

set_found-Sets :
    (r : Registry) (key : Key) (eps : Found (List Endpoint))
    → Sets r key (some (endpoints_found eps)) (set_found r key eps)
unfolding set_found delete
set_found-Sets r key (found eps) = refl
set_found-Sets r key (failed e) = refl

set_tcp-Sets :
    (r : Registry) (key : Key) (derive : EntrypointPorts → List Endpoint)
    (ports : Option EntrypointPorts)
    → Sets r key (tcp_contribution derive ports) (set_tcp r key derive ports)
unfolding set_tcp
set_tcp-Sets r key derive none = refl
set_tcp-Sets r key derive (some p) = refl

pub reconcile_service-Sets :
    (path_match : String → String → Bool) (d : Decoder) (o : Options) (selector : Selector)
    (r : Registry) (namespace name : String) (svc : Fetched Service) (ns : Fetched Namespace)
    → Sets r
        (key_of "Service" namespace name)
        (contribution selector
          (λ s group. some (endpoints_found (from_service path_match d o s group)))
          svc
          ns)
        (reconcile_service path_match d o selector r namespace name svc ns)
unfolding reconcile_service
reconcile_service-Sets path_match d o selector r namespace name svc ns =
    with_object-Sets r (key_of "Service" namespace name) selector
      (λ s group. some (endpoints_found (from_service path_match d o s group)))
      (λ s group.
        set_found r (key_of "Service" namespace name) (from_service path_match d o s group))
      (λ s group.
        set_found-Sets r (key_of "Service" namespace name) (from_service path_match d o s group))
      svc ns

pub reconcile_ingress_route-Sets :
    (out : Outside) (d : Decoder) (o : Options) (resolve : Resolver) (selector : Selector)
    (r : Registry) (namespace name : String) (route : Fetched Route) (ns : Fetched Namespace)
    → Sets r
        (key_of "IngressRoute" namespace name)
        (contribution selector
          (λ a group. some (from_ingress_route out d o a group resolve).endpoints)
          route
          ns)
        (reconcile_ingress_route out d o resolve selector r namespace name route ns)
unfolding reconcile_ingress_route
reconcile_ingress_route-Sets out d o resolve selector r namespace name route ns =
    with_object-Sets r (key_of "IngressRoute" namespace name) selector
      (λ a group. some (from_ingress_route out d o a group resolve).endpoints)
      (λ a group. called (
        set r (key_of "IngressRoute" namespace name)
          (from_ingress_route out d o a group resolve).endpoints))
      (λ a group. refl) route ns

pub reconcile_ingress_route_tcp-Sets :
    (out : Outside) (d : Decoder) (o : Options) (resolve : Resolver)
    (ports : Option EntrypointPorts) (selector : Selector) (r : Registry) (namespace name : String)
    (route : Fetched Route) (ns : Fetched Namespace)
    → Sets r
        (key_of "IngressRouteTCP" namespace name)
        (contribution selector
          (λ a group.
            tcp_contribution
              (λ p. (from_ingress_route_tcp out d o a group resolve p).endpoints)
              ports)
          route
          ns)
        (reconcile_ingress_route_tcp out d o resolve ports selector r namespace name route ns)
unfolding reconcile_ingress_route_tcp
reconcile_ingress_route_tcp-Sets out d o resolve ports selector r namespace name route ns =
    with_object-Sets r (key_of "IngressRouteTCP" namespace name) selector
      (λ a group. tcp_contribution (tcp a group) ports)
      (λ a group. set_tcp r (key_of "IngressRouteTCP" namespace name) (tcp a group) ports)
      (λ a group. set_tcp-Sets r (key_of "IngressRouteTCP" namespace name) (tcp a group) ports)
      route ns
  where
    tcp : Route → String → EntrypointPorts → List Endpoint
    tcp a group p = (from_ingress_route_tcp out d o a group resolve p).endpoints
