-- ===== src/Controller/Watches/Namespaces.antt =====
-- About `SetupWithManager` of internal/controller: what an event of a Namespace requests.
use gatus_sidecar.Prelude.{
  String, ◌≡◌, refl, sym, ap, ◌∙◌, subst, ◌≢◌, Bool, true, false, ◌||◌, ◌&&◌, Option, none, some,
  List, [], ◌∷◌, map, ◌==◌, string_eq, pair_eq, if_false, if_elim, beq_of_ne,
}
use gatus_sidecar.Controller.Cluster.{Reconciler, option_map}
use gatus_sidecar.Controller.Primer.{Request, service_request, route_request}
use gatus_sidecar.Controller.Events.{
  requests_of, services_in_namespace, routes_in_namespace, list_routes, tcp_routes_in_namespace,
  list_tcp_routes,
}
use gatus_sidecar.Controller.Events.Cache.{keep_if, IsCoherent}
use gatus_sidecar.Controller.Events.Requests.{is_requested}
use gatus_sidecar.Controller.Watches.{
  of_namespace, service_watches, route_watches, tcp_route_watches,
}

kept_head :
    (same within rest : Bool)
    → (same ≡ true → within ≡ true)
    → (same || (within && rest)) ≡ (within && (same || rest))
kept_head true within rest h = rw (h refl)
kept_head false within rest h = refl

dropped_head :
    (same within rest : Bool)
    → (same ≡ true → within ≡ false)
    → (within && rest) ≡ (within && (same || rest))
dropped_head true within rest h = rw (h refl)
dropped_head false within rest h = refl

neither : (b : Bool) → false ≡ (b && false)
neither true = refl
neither false = refl

-- Of a listing that is filtered, those are requested that are in the namespace.
kept_request {ℓ} :
    {A : Type ℓ} (f : A → Request) (q : Request) (namespace : String) (objects : List A)
    → is_requested q (map f (keep_if (λ a. (f a).0 == namespace) objects))
      ≡ (q.0 == namespace && is_requested q (map f objects))
unfolding keep_if
kept_request f q namespace [] = neither (q.0 == namespace)
kept_request f q namespace (a ∷ objects) =
    let ih = kept_request f q namespace objects in
    let within : (f a == q) ≡ true → (q.0 == namespace) ≡ ((f a).0 == namespace) =
      λ h. ap (λ (x : Request). x.0 == namespace) (sym ((pair_eq.beq_iff (f a) q).0 h)) in
    if_elim
      (λ l. is_requested q (map f l) ≡ (q.0 == namespace && is_requested q (map f (a ∷ objects))))
      ((f a).0 == namespace) _ _
      (λ b.
        ap (λ r. f a == q || r) ih ∙ kept_head (f a == q) (q.0 == namespace) _ (λ h. within h ∙ b))
      (λ b. ih ∙ dropped_head (f a == q) (q.0 == namespace) _ (λ h. within h ∙ b))

kept_requests {ℓ} :
    {A : Type ℓ} (f : A → Request) (q : Request) (namespace : String)
    (filtered all : Option (List A))
    → filtered ≡ option_map (keep_if (λ a. (f a).0 == namespace)) all
    → is_requested q (requests_of f filtered)
      ≡ (q.0 == namespace && is_requested q (requests_of f all))
unfolding requests_of
kept_requests f q namespace filtered none h =
    subst (λ o. is_requested q (requests_of f o) ≡ (q.0 == namespace && false)) (sym h)
      (neither (q.0 == namespace))
kept_requests f q namespace filtered (some objects) h =
    subst
      (λ o. is_requested q (requests_of f o) ≡ (q.0 == namespace && is_requested q (map f objects)))
      (sym h) (kept_request f q namespace objects)

-- An event of a Namespace requests, of Services, IngressRoutes and IngressRouteTCPs, those that are
-- listed and are in the namespace, and no others, where the client is coherent and the namespace has a
-- name.
pub namespace-requests :
    (rec : Reconciler) (q : Request) (namespace : String)
    → IsCoherent rec.client
    → namespace ≢ ""
    → (is_requested q (service_watches rec.client (of_namespace namespace)) ≡ (
        q.0 == namespace
        && is_requested q (requests_of service_request (rec.client.list_services none))))
      × (is_requested q (route_watches rec.client (of_namespace namespace)) ≡ (
          q.0 == namespace
          && is_requested q (requests_of route_request (rec.client.list_ingress_routes none))))
      × (is_requested q (tcp_route_watches rec (of_namespace namespace)) ≡ (
          q.0 == namespace
          && is_requested q (requests_of route_request (rec.client.list_ingress_route_tcps none))))
unfolding service_watches route_watches tcp_route_watches services_in_namespace routes_in_namespace
    list_routes tcp_routes_in_namespace list_tcp_routes
namespace-requests rec q namespace k n = (
  kept_requests service_request q namespace _ _ (k.services_in namespace),
  kept_requests route_request q namespace _ _ (k.routes_in namespace),
  ap (λ o. is_requested q (requests_of route_request (rec.client.list_ingress_route_tcps o)))
        (if_false _ _ (beq_of_ne namespace "" n))
      ∙ kept_requests route_request q namespace _ _ (k.tcp_routes_in namespace),
)
