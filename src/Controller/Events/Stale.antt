-- ===== src/Controller/Events/Stale.antt =====
-- About `routesForService` of internal/controller: no route is left stale by an event of a Service.
use gatus_sidecar.Prelude.{
  String, ◌≡◌, refl, sym, ap, ◌∙◌, subst, ◌≢◌, false, Option, none, some, List, string_eq, pair_eq,
  All, All-map,
}
use mathlib.Core.Path.{ap₂}
use gatus_sidecar.Config.Endpoint.{Endpoint}
use gatus_sidecar.Discovery.Entrypoints.{EntrypointPorts}
use gatus_sidecar.Discovery.IngressRoute.{Route, BackendRef, Targets, route_targets}
use gatus_sidecar.Discovery.IngressRoute.Derive.{Derived, from_ingress_route}
use gatus_sidecar.Discovery.IngressRoute.Derive.Resolved.{AgreeOnTargets, from_ingress_route-agree}
use gatus_sidecar.Discovery.IngressRouteTcp.{from_ingress_route_tcp}
use gatus_sidecar.Discovery.IngressRouteTcp.Resolved.{from_ingress_route_tcp-agree}
use gatus_sidecar.Discovery.Service.{Found, found, failed}
use gatus_sidecar.Controller.Reconcile.{
  Fetched, there, not_found, get_failed, Namespace, Selector, group_of,
}
use gatus_sidecar.Controller.Reconcile.Contribution.{contribution, tcp_contribution}
use gatus_sidecar.Controller.Cluster.{Client, Reconciler, resolve_service, ports_found, ports_in}
use gatus_sidecar.Controller.Primer.{Request}
use gatus_sidecar.Controller.Primer.Wanted.{ingress_route_wanted, ingress_route_tcp_wanted}
use gatus_sidecar.Controller.Events.{routes_for_service, tcp_routes_for_service}
use gatus_sidecar.Controller.Events.Cache.{IsCoherent, ServiceEvent, subject, handed, Happens}
use gatus_sidecar.Controller.Events.Ports.{All-subject, ports_in-unaffected}
use gatus_sidecar.Controller.Events.Requests.{
  is_requested, IsListed, not_requested, tcp_not_requested,
}

-- All backends of a route are in a namespace.
abbrev pub BackendsIn : String → Found Targets → Type 0
BackendsIn namespace (found t) = All (λ (b : BackendRef). b.namespace ≡ namespace) t.backends
BackendsIn namespace (failed e) = Unit

abbrev pub BackendsOf : Reconciler → String → Fetched Route → Type 0
BackendsOf rec namespace (there a) = BackendsIn namespace (route_targets rec.outside a)
BackendsOf rec namespace _ = Unit

-- An object of another namespace is not asked for by a route with its backends in its own.
resolve_service-agree :
    (e : ServiceEvent) (c c' : Client) (namespace : String) (t : Found Targets)
    → Happens e c c'
    → (subject e).namespace ≢ namespace
    → BackendsIn namespace t
    → AgreeOnTargets (resolve_service c) (resolve_service c') t
unfolding resolve_service
resolve_service-agree e c c' namespace (failed x) h n b = tt
resolve_service-agree e c c' namespace (found t) h n b =
    All-map _ _
      (λ (x : BackendRef) i.
        ap ports_found
          (h.others_get x.namespace x.name (λ same. n (sym (ap (λ (q : Request). q.0) same) ∙ i))))
      t.backends b

contribution-agree :
    {A : Type 0} (selector : Selector) (derive derive' : A → String → Option (List Endpoint))
    (object : Fetched A) (ns : Fetched Namespace)
    → ((a : A) (group : String) → object ≡ there a → derive' a group ≡ derive a group)
    → contribution selector derive' object ns ≡ contribution selector derive object ns
contribution-agree selector derive derive' get_failed ns f = refl
contribution-agree selector derive derive' not_found ns f = refl
contribution-agree selector derive derive' (there a) get_failed f = refl
contribution-agree selector derive derive' (there a) not_found f = rw (f a (group_of none) refl)
contribution-agree selector derive derive' (there a) (there ns) f =
    rw (f a (group_of (some ns)) refl)

tcp_contribution-agree :
    (derive derive' : EntrypointPorts → List Endpoint) (ports : Option EntrypointPorts)
    → ((p : EntrypointPorts) → derive' p ≡ derive p)
    → tcp_contribution derive' ports ≡ tcp_contribution derive ports
tcp_contribution-agree derive derive' none f = refl
tcp_contribution-agree derive derive' (some p) f = ap some (f p)

module _ (rec : Reconciler) (c' : Client) (e : ServiceEvent) (q : Request)
    (k : IsCoherent rec.client) (k' : IsCoherent c') (h : Happens e rec.client c')
    (same_namespace : c'.get_namespace q.0 ≡ rec.client.get_namespace q.0) where
  backends-agree :
      (object : Fetched Route) (a : Route)
      → (subject e).namespace ≢ q.0
      → BackendsOf rec q.0 object
      → object ≡ there a
      → AgreeOnTargets
          (resolve_service rec.client)
          (resolve_service c')
          (route_targets rec.outside a)
  backends-agree object a n b found' =
      resolve_service-agree e rec.client c' q.0 (route_targets rec.outside a) h n
        (subst (BackendsOf rec q.0) found' b)

  -- Between coherent clients before and after an event of one Service, an IngressRoute that the event
  -- does not request is to contribute what it was to contribute before, where the route is listed, it
  -- and its namespace are unchanged and its backends lie in its namespace.
  pub route-not_stale :
      c'.get_ingress_route q.0 q.1 ≡ rec.client.get_ingress_route q.0 q.1
      → IsListed q (rec.client.list_ingress_routes none)
      → BackendsOf rec q.0 (rec.client.get_ingress_route q.0 q.1)
      → All (λ s. is_requested q (routes_for_service rec.client s) ≡ false) (handed e)
      → ingress_route_wanted (record rec { client = c' }) q.0 q.1 ≡ ingress_route_wanted rec q.0 q.1
  route-not_stale same listed' backends n =
      let apart =
        All-subject _ e
          (All-map _ _ (λ s m. not_requested rec.client q s k listed' m) (handed e) n) in
      ap₂ (contribution rec.selector (derive c')) same same_namespace
      ∙ contribution-agree rec.selector (derive rec.client) (derive c') _ _ λ a group found'.
        ap (λ (d : Derived). some d.endpoints)
          (from_ingress_route-agree (resolve_service rec.client) (resolve_service c') rec.outside
            rec.decoder rec.options a group (backends-agree _ a apart backends found'))
    where
      derive : Client → Route → String → Option (List Endpoint)
      derive c a group =
          some
            (from_ingress_route rec.outside rec.decoder rec.options a group
              (resolve_service c)).endpoints

  -- Between coherent clients before and after an event of one Service, an IngressRouteTCP that the event
  -- does not request is to contribute what it was to contribute before, where the route is listed, it
  -- and its namespace are unchanged and its backends lie in its namespace. Its public addresses depend
  -- on the Services of Traefik in all namespaces as well.
  pub tcp_route-not_stale :
      c'.get_ingress_route_tcp q.0 q.1 ≡ rec.client.get_ingress_route_tcp q.0 q.1
      → IsListed q (rec.client.list_ingress_route_tcps none)
      → BackendsOf rec q.0 (rec.client.get_ingress_route_tcp q.0 q.1)
      → All (λ s. is_requested q (tcp_routes_for_service rec s) ≡ false) (handed e)
      → ingress_route_tcp_wanted (record rec { client = c' }) q.0 q.1
        ≡ ingress_route_tcp_wanted rec q.0 q.1
  tcp_route-not_stale same listed' backends n =
      let apart =
        All-subject _ e
          (All-map _ _ (λ s m. (tcp_not_requested rec q s k listed' m).1) (handed e) n) in
      let ports' =
        ports_in-unaffected e rec.client c' rec.overrides rec.traefik_services k k' h
          (All-map _ _ (λ s m. (tcp_not_requested rec q s k listed' m).0) (handed e) n) in
      ap₂ (contribution rec.selector (derive c')) same same_namespace
      ∙ contribution-agree rec.selector (derive rec.client) (derive c') _ _ λ a group found'.
        ap (tcp_contribution (endpoints c' a group)) ports'
        ∙ tcp_contribution-agree (endpoints rec.client a group) (endpoints c' a group) _ λ p.
          ap (λ (d : Derived). d.endpoints)
            (from_ingress_route_tcp-agree (resolve_service rec.client) (resolve_service c')
              rec.outside rec.options rec.decoder a group p
              (backends-agree _ a apart backends found'))
    where
      endpoints : Client → Route → String → EntrypointPorts → List Endpoint
      endpoints c a group p =
          (from_ingress_route_tcp rec.outside rec.decoder rec.options a group (resolve_service c)
            p).endpoints

      derive : Client → Route → String → Option (List Endpoint)
      derive c a group =
          tcp_contribution (endpoints c a group) (ports_in c rec.overrides rec.traefik_services)
