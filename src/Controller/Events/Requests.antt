-- ===== src/Controller/Events/Requests.antt =====
-- About `routesForService` of internal/controller: what it takes that a route is not requested.
use gatus_sidecar.Prelude.{
  String, ◌≡◌, refl, sym, ap, ◌∙◌, subst, ◌≢◌, inl, inr, Bool, true, false, ◌||◌, Option, none,
  some, List, [], ◌∷◌, map, ◌==◌, string_eq, pair_eq, Bool-cases, if_true, if_false, if_elim, ◌⊎◌,
  ne_of_beq,
}
use mathlib.Core.Bool.{false≢true}
use gatus_sidecar.Discovery.IngressRoute.{Route}
use gatus_sidecar.Controller.Cluster.{KubeService, Client, Reconciler, option_map}
use gatus_sidecar.Controller.Primer.{Request, route_request}
use gatus_sidecar.Controller.Events.{
  requests_of, list_routes, routes_for_service, list_tcp_routes, is_traefik_service,
  tcp_routes_for_service,
}
use gatus_sidecar.Controller.Events.Cache.{keep_if, IsCoherent}

abbrev pub is_requested : Request → List Request → Bool
is_requested q [] = false
is_requested q (x ∷ requests) = x == q || is_requested q requests

-- The route is listed.
abbrev pub IsListed : Request → Option (List Route) → Type 0
IsListed q none = ⊥
IsListed q (some routes) = is_requested q (map route_request routes) ≡ true

kept_route :
    (q : Request) (routes : List Route)
    → is_requested q (map route_request routes) ≡ true
    → is_requested q (map route_request (keep_if (λ (a : Route). a.namespace == q.0) routes)) ≡ true
unfolding keep_if
kept_route q [] h = cc
kept_route q (a ∷ routes) h = elim (Bool-cases (route_request a == q)) [
  | inl same ↦
      let within : (a.namespace == q.0) ≡ true =
        (string_eq.beq_iff a.namespace q.0).1
          (ap (λ (x : Request). x.0) ((pair_eq.beq_iff (route_request a) q).0 same)) in
      rw (within, same)
  | inr other ↦
      let ih = kept_route q routes (rw other at h) in
      if_elim (λ l. is_requested q (map route_request l) ≡ true) (a.namespace == q.0) _ _
        (λ b. rw other ih) (λ b. ih)
]

-- A listing of the route's namespace has it, and so has one of all namespaces.
list_tcp_routes-has :
    (c : Client) (q : Request) (namespace : String)
    → IsCoherent c
    → IsListed q (c.list_ingress_route_tcps none)
    → ((namespace ≡ "") ⊎ (namespace ≡ q.0))
    → is_requested q (list_tcp_routes c namespace) ≡ true
unfolding list_tcp_routes requests_of
list_tcp_routes-has c q namespace k l w = elim (Bool-cases (namespace == "")) [
  | inl all ↦
      subst (λ o. is_requested q (requests_of route_request (c.list_ingress_route_tcps o)) ≡ true)
        (sym (if_true _ _ all)) (everywhere (c.list_ingress_route_tcps none) l)
  | inr some' ↦
      subst (λ o. is_requested q (requests_of route_request (c.list_ingress_route_tcps o)) ≡ true)
        (sym (if_false _ _ some'))
        (subst (λ o. is_requested q (requests_of route_request o) ≡ true)
          (sym (k.tcp_routes_in namespace))
          (within (ne_of_beq namespace "" some') w (c.list_ingress_route_tcps none) l))
]
  where
    everywhere :
        (o : Option (List Route))
        → IsListed q o
        → is_requested q (requests_of route_request o) ≡ true
    everywhere none i = absurd i
    everywhere (some routes) i = i

    within :
        namespace ≢ ""
        → (namespace ≡ "") ⊎ (namespace ≡ q.0)
        → (o : Option (List Route)) → IsListed q o
        → is_requested q (
            requests_of route_request
              (option_map (keep_if (λ (a : Route). a.namespace == namespace)) o))
          ≡ true
    within n (inl e) o i = absurd (n e)
    within n (inr e) none i = absurd i
    within n (inr e) (some routes) i =
        subst
          (λ x.
            is_requested q (map route_request (keep_if (λ (a : Route). a.namespace == x) routes))
            ≡ true)
          (sym e) (kept_route q routes i)

-- What it takes that a route is not requested.
pub tcp_not_requested :
    (rec : Reconciler) (q : Request) (s : KubeService)
    → IsCoherent rec.client
    → IsListed q (rec.client.list_ingress_route_tcps none)
    → is_requested q (tcp_routes_for_service rec s) ≡ false
    → (is_traefik_service rec.client rec.traefik_services s ≡ false) × (s.namespace ≢ q.0)
unfolding tcp_routes_for_service
tcp_not_requested rec q s k l n =
    elim (Bool-cases (is_traefik_service rec.client rec.traefik_services s)) [
      | inl yes' ↦ absurd (
          false≢true (
            sym n
            ∙ ap (is_requested q) (if_true _ _ yes')
            ∙ list_tcp_routes-has rec.client q "" k l (inl refl)))
      | inr no' ↦ (
        no',
        λ e. false≢true (
            sym n
            ∙ ap (is_requested q) (if_false _ _ no')
            ∙ list_tcp_routes-has rec.client q s.namespace k l (inr e)),
      )
    ]

pub not_requested :
    (c : Client) (q : Request) (s : KubeService)
    → IsCoherent c
    → IsListed q (c.list_ingress_routes none)
    → is_requested q (routes_for_service c s) ≡ false
    → s.namespace ≢ q.0
unfolding routes_for_service list_routes requests_of
not_requested c q s k l n e = false≢true (
    sym n
    ∙ ap (λ o. is_requested q (requests_of route_request o)) (k.routes_in s.namespace)
    ∙ within (c.list_ingress_routes none) l)
  where
    within :
        (o : Option (List Route))
        → IsListed q o
        → is_requested q (
            requests_of route_request
              (option_map (keep_if (λ (a : Route). a.namespace == s.namespace)) o))
          ≡ true
    within none i = absurd i
    within (some routes) i =
        subst
          (λ x.
            is_requested q (map route_request (keep_if (λ (a : Route). a.namespace == x) routes))
            ≡ true)
          (sym e) (kept_route q routes i)
