-- ===== src/Controller/Tests/Events.antt =====
-- An update of a Service of another namespace than the routes.
use gatus_sidecar.Prelude.{
  ne_of_beq, ◌&&◌, String, ◌≡◌, refl, ◌≢◌, Bool, true, false, Option, none, some, List, [], ◌∷◌,
  ◌==◌, string_eq, pair_eq, if◌then◌else◌, All, beq_of_ne, if_false, sym, ◌∙◌, ap, beq_refl, ◌||◌,
}
use gatus_sidecar.Prelude.Assoc.{Assoc}
use gatus_sidecar.Discovery.IngressRoute.{Route, Outside, route_targets}
use gatus_sidecar.Controller.Reconcile.{Fetched, there, not_found}
use gatus_sidecar.Controller.Cluster.{KubeService, Client, Reconciler}
use gatus_sidecar.Controller.Primer.{Request, route_request, service_request}
use gatus_sidecar.Controller.Primer.Wanted.{ingress_route_wanted, ingress_route_tcp_wanted}
use gatus_sidecar.Controller.Watches.{
  of_namespace, service_watches, route_watches, tcp_route_watches,
}
use gatus_sidecar.Controller.Watches.Namespaces.{namespace-requests}
use gatus_sidecar.Controller.Events.{requests_of, routes_for_service, tcp_routes_for_service}
use gatus_sidecar.Controller.Events.Cache.{
  keep_if, IsCoherent, ServiceEvent, updated, handed, Happens,
}
use gatus_sidecar.Controller.Events.Requests.{is_requested, IsListed}
use gatus_sidecar.Controller.Events.Stale.{BackendsOf, route-not_stale, tcp_route-not_stale}
use gatus_sidecar.Controller.Tests.{namespace, outside, route}
use gatus_sidecar.Controller.Tests.Startup.{kube_service, reconciler}

abbrev db : KubeService
db = record kube_service { namespace = "blog"; name = "db" }

abbrev external_db : KubeService
external_db = record db { is_external_name = true }

abbrev services_of : Option String → List KubeService → List KubeService
services_of none services = services
services_of (some ns) services = keep_if (λ (s : KubeService). s.namespace == ns) services

abbrev routes_of : Option String → List Route
routes_of none = route ∷ []
routes_of (some ns) = keep_if (λ (a : Route). a.namespace == ns) (route ∷ [])

abbrev get_from : KubeService → String → String → Fetched KubeService
get_from s ns name =
    if (ns, name) == service_request db
    then there s
    else if (ns, name) == service_request kube_service
    then there kube_service
    else not_found

-- A cluster with the Service shop/api, the given one as blog/db, and the route shop/web.
abbrev cluster : KubeService → Client
cluster s = record {
  get_service = get_from s;
  get_namespace = λ name. there namespace;
  get_ingress_route = λ ns name. there route;
  get_ingress_route_tcp = λ ns name. there route;
  list_services = λ ns. some (services_of ns (kube_service ∷ s ∷ []));
  list_ingress_routes = λ ns. some (routes_of ns);
  list_ingress_route_tcps = λ ns. some (routes_of ns);
  list_labelled =
      λ matches. some (keep_if (λ (s : KubeService). matches s.labels) (kube_service ∷ s ∷ []));
  traefik_label = some (λ labels. false);
}

cluster-IsCoherent : (s : KubeService) → IsCoherent (cluster s)
cluster-IsCoherent s = record {
  services_in = λ ns. refl;
  routes_in = λ ns. refl;
  tcp_routes_in = λ ns. refl;
  labelled = λ matches. refl;
}

abbrev event : ServiceEvent
event = updated db external_db

update : Happens event (cluster db) (cluster external_db)
update = record {
  one_object = (refl, refl);
  others_get = λ ns name n.
      let other = beq_of_ne (ns, name) (service_request db) n in
      if_false _ _ other ∙ sym (if_false _ _ other);
  front = kube_service ∷ [];
  back = [];
  listed = refl;
  listed' = refl;
  same_label = refl;
}

-- The accessors find a route with the one backend "api".
abbrev field_of : List String → Option String
field_of [] = none
field_of (field ∷ rest) = if field == "name" then some "api" else none

abbrev one_backend : Outside
one_backend = record outside {
  access = record outside.access { nested_string = λ o path. field_of path };
}

abbrev before : Reconciler
before = record reconciler { client = cluster db; outside = one_backend }

backends : BackendsOf before "shop" (there route)
unfolding route_targets gatus_sidecar.Discovery.Rule.parse_rule
    gatus_sidecar.Prelude.Text.trim_space gatus_sidecar.Discovery.Annotations.annotation
    gatus_sidecar.Discovery.Annotations.raw_annotation gatus_sidecar.Prelude.Assoc.lookup
backends = (refl, tt)

unrequested :
    All
      (λ s. is_requested ("shop", "web") (routes_for_service (cluster db) s) ≡ false)
      (handed event)
unfolding routes_for_service keep_if
unrequested = (refl, (refl, tt))

tcp_unrequested :
    All (λ s. is_requested ("shop", "web") (tcp_routes_for_service before s) ≡ false) (handed event)
unfolding tcp_routes_for_service keep_if
tcp_unrequested = (refl, (refl, tt))

listed : IsListed ("shop", "web") (some (routes_of none))
listed = ap (λ b. b || false) (beq_refl {A = Request} ("shop", "web"))

route-not_stale_example :
    ingress_route_wanted (record before { client = cluster external_db }) "shop" "web"
    ≡ ingress_route_wanted before "shop" "web"
route-not_stale_example =
    route-not_stale before (cluster external_db) event ("shop", "web") (cluster-IsCoherent db)
      (cluster-IsCoherent external_db) update refl refl listed backends unrequested

tcp_route-not_stale_example :
    ingress_route_tcp_wanted (record before { client = cluster external_db }) "shop" "web"
    ≡ ingress_route_tcp_wanted before "shop" "web"
tcp_route-not_stale_example =
    tcp_route-not_stale before (cluster external_db) event ("shop", "web") (cluster-IsCoherent db)
      (cluster-IsCoherent external_db) update refl refl listed backends tcp_unrequested

namespace-requests_example :
    (is_requested ("shop", "web") (service_watches (cluster db) (of_namespace "shop")) ≡ (
      ◌==◌ {K = String} "shop" "shop"
      && is_requested
          ("shop", "web")
          (requests_of service_request ((cluster db).list_services none))))
    × (is_requested ("shop", "web") (route_watches (cluster db) (of_namespace "shop")) ≡ (
        ◌==◌ {K = String} "shop" "shop"
        && is_requested
            ("shop", "web")
            (requests_of route_request ((cluster db).list_ingress_routes none))))
    × (is_requested ("shop", "web") (tcp_route_watches before (of_namespace "shop")) ≡ (
        ◌==◌ {K = String} "shop" "shop"
        && is_requested
            ("shop", "web")
            (requests_of route_request ((cluster db).list_ingress_route_tcps none))))
namespace-requests_example =
    namespace-requests before ("shop", "web") "shop" (cluster-IsCoherent db)
      (ne_of_beq "shop" "" refl)
