-- ===== src/Controller/Primer/Wanted.antt =====
-- What each object is to contribute by the Reconcile functions of internal/controller, as the cluster
-- stands.
use gatus_sidecar.Prelude.{String, Option, none, some, List, string_eq}
use gatus_sidecar.Config.Endpoint.{Endpoint}
use gatus_sidecar.Discovery.IngressRoute.Derive.{from_ingress_route}
use gatus_sidecar.Discovery.IngressRouteTcp.{from_ingress_route_tcp}
use gatus_sidecar.Discovery.Service.{from_service}
use gatus_sidecar.Registry.Order.{key_eq}
use gatus_sidecar.Controller.Reconcile.Contribution.{
  contribution, endpoints_found, tcp_contribution, reconcile_service-InLine, reconcile_route-InLine,
}
use gatus_sidecar.Controller.Cluster.{
  Reconciler, fetched_map, as_service, resolve_service, ports_in, reconcile_service_in,
  reconcile_ingress_route_in, reconcile_ingress_route_tcp_in,
}
use gatus_sidecar.Controller.Primer.Sweep.{BringsInLine}

module _ (rec : Reconciler) where
  abbrev pub service_wanted : String → String → Option (List Endpoint)
  service_wanted namespace name =
      contribution rec.selector
        (λ s group.
          some
            (endpoints_found (from_service rec.outside.path_match rec.decoder rec.options s group)))
        (fetched_map as_service (rec.client.get_service namespace name))
        (rec.client.get_namespace namespace)

  abbrev pub ingress_route_wanted : String → String → Option (List Endpoint)
  ingress_route_wanted namespace name =
      contribution rec.selector
        (λ a group.
          some
            (from_ingress_route rec.outside rec.decoder rec.options a group
              (resolve_service rec.client)).endpoints)
        (rec.client.get_ingress_route namespace name) (rec.client.get_namespace namespace)

  abbrev pub ingress_route_tcp_wanted : String → String → Option (List Endpoint)
  ingress_route_tcp_wanted namespace name =
      contribution rec.selector
        (λ a group.
          tcp_contribution
            (λ p.
              (from_ingress_route_tcp rec.outside rec.decoder rec.options a group
                (resolve_service rec.client) p).endpoints)
            (ports_in rec.client rec.overrides rec.traefik_services))
        (rec.client.get_ingress_route_tcp namespace name) (rec.client.get_namespace namespace)

  pub service_in-InLine : BringsInLine "Service" service_wanted (reconcile_service_in rec)
  unfolding reconcile_service_in
  service_in-InLine r namespace name u =
      reconcile_service-InLine rec.outside.path_match rec.decoder rec.options rec.selector r
        namespace name _ _ u

  pub ingress_route_in-InLine :
      BringsInLine "IngressRoute" ingress_route_wanted (reconcile_ingress_route_in rec)
  unfolding reconcile_ingress_route_in
  ingress_route_in-InLine r namespace name u =
      (reconcile_route-InLine rec.outside rec.decoder rec.options (resolve_service rec.client) none
        rec.selector r namespace name _ _ u).0

  pub ingress_route_tcp_in-InLine :
      BringsInLine "IngressRouteTCP" ingress_route_tcp_wanted (reconcile_ingress_route_tcp_in rec)
  unfolding reconcile_ingress_route_tcp_in
  ingress_route_tcp_in-InLine r namespace name u =
      (reconcile_route-InLine rec.outside rec.decoder rec.options (resolve_service rec.client)
        (ports_in rec.client rec.overrides rec.traefik_services) rec.selector r namespace name _ _
        u).1
