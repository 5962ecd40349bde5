-- ===== src/Discovery/IngressRouteTcp/Resolved.antt =====
-- About `FromIngressRouteTCP` of internal/discovery/ingressroutetcp.go: which Services it asks for.
use gatus_sidecar.Prelude.{String, ◌≡◌, refl, List, [], ◌∷◌, string_eq}
use gatus_sidecar.Discovery.Annotations.{Spec, Parsed, raw_annotation, is_present}
use gatus_sidecar.Discovery.Annotations
use gatus_sidecar.Discovery.Specs.{Decoder, specs_from_annotations}
use gatus_sidecar.Discovery.Entrypoints.{EntrypointPorts}
use gatus_sidecar.Discovery.Service.{Options, SpecContext, Found, found, failed}
use gatus_sidecar.Config.Endpoint.{Endpoint, source_ingress_route_tcp}
use gatus_sidecar.Discovery.IngressRoute.{Route, Targets, Outside, route_targets}
use gatus_sidecar.Discovery.IngressRoute.Derive.{Resolver, route_context}
use gatus_sidecar.Discovery.IngressRoute.Derive.Resolved.{AgreeOnTargets, internal_endpoints-agree}
use gatus_sidecar.Discovery.IngressRouteTcp.{
  tcp_scheme, add_internal, external_tcp_endpoints, derived_from, derive, derive_parsed,
  from_ingress_route_tcp,
}

module _ (resolve resolve' : Resolver) (out : Outside) (o : Options) where
  add_internal-agree :
      (base : Spec) (ctx : SpecContext) (t : Targets) (external : Found (List Endpoint))
      → AgreeOnTargets resolve resolve' (found t)
      → add_internal o base ctx resolve' t external ≡ add_internal o base ctx resolve t external
  unfolding add_internal
  add_internal-agree base ctx t (failed e) a = refl
  add_internal-agree base ctx t (found external) a = rw (
      internal_endpoints-agree resolve resolve' o (record base { scheme = "tcp" }) ctx t.backends a)

  derived_from-agree :
      (base : Spec) (ctx : SpecContext) (r : Route) (ports : EntrypointPorts) (t : Found Targets)
      → AgreeOnTargets resolve resolve' t
      → derived_from out o base ctx r resolve' ports t
        ≡ derived_from out o base ctx r resolve ports t
  unfolding derived_from
  derived_from-agree base ctx r ports (failed e) a = refl
  derived_from-agree base ctx r ports (found t) a =
      add_internal-agree base ctx t (external_tcp_endpoints out o base ctx r t.hosts ports) a

  derive-agree :
      (r : Route) (ctx : SpecContext) (ports : EntrypointPorts) (specs : List Spec)
      → AgreeOnTargets resolve resolve' (route_targets out r)
      → derive out o r ctx resolve' ports specs ≡ derive out o r ctx resolve ports specs
  unfolding derive
  derive-agree r ctx ports [] a = refl
  derive-agree r ctx ports (base ∷ specs) a = rw (
      derived_from-agree
        (record base {
          scheme =
              tcp_scheme base.scheme
                (is_present (out.access.nested_map r.body ("spec" ∷ "tls" ∷ [])));
        })
        ctx r ports (route_targets out r) a)

  derive_parsed-agree :
      (r : Route) (ctx : SpecContext) (ports : EntrypointPorts) (specs : Parsed (List Spec))
      → AgreeOnTargets resolve resolve' (route_targets out r)
      → derive_parsed out o r ctx resolve' ports specs
        ≡ derive_parsed out o r ctx resolve ports specs
  unfolding derive_parsed
  derive_parsed-agree r ctx ports (Annotations.bad p) a = refl
  derive_parsed-agree r ctx ports (Annotations.ok specs) a = derive-agree r ctx ports specs a

  -- Beside the ports of the entrypoints, the ports of its backends are all that the endpoints of a
  -- route depend on in other objects.
  pub from_ingress_route_tcp-agree :
      (d : Decoder) (r : Route) (ns_group : String) (ports : EntrypointPorts)
      → AgreeOnTargets resolve resolve' (route_targets out r)
      → from_ingress_route_tcp out d o r ns_group resolve' ports
        ≡ from_ingress_route_tcp out d o r ns_group resolve ports
  unfolding from_ingress_route_tcp
  from_ingress_route_tcp-agree d r ns_group ports a = rw (
      derive_parsed-agree r (route_context source_ingress_route_tcp r ns_group) ports
        (specs_from_annotations d r.annotations) a)
