-- ===== src/Discovery/IngressRoute/Derive/Resolved.antt =====
-- About `FromIngressRoute` of internal/discovery/ingressroute.go: which Services it asks for.
use gatus_sidecar.Prelude.{ℕ, String, ◌≡◌, refl, List, [], ◌∷◌, string_eq, All}
use gatus_sidecar.Discovery.Annotations.{Spec, Parsed, raw_annotation, is_present}
use gatus_sidecar.Discovery.Annotations
use gatus_sidecar.Discovery.Specs.{Decoder, specs_from_annotations}
use gatus_sidecar.Discovery.Service.{Options, SpecContext, Found, found, failed}
use gatus_sidecar.Config.Endpoint.{source_ingress_route}
use gatus_sidecar.Discovery.IngressRoute.{Route, BackendRef, Targets, Outside, count, route_targets}
use gatus_sidecar.Discovery.IngressRoute.Derive.{
  Resolver, backend_ports, internal_loop, internal_endpoints, derived_from, derive, derive_parsed,
  route_context, from_ingress_route,
}

-- Two resolvers know the same ports of each backend.
abbrev pub AgreeOn : Resolver → Resolver → List BackendRef → Type 0
AgreeOn resolve resolve' backends =
    All (λ b. backend_ports resolve' b ≡ backend_ports resolve b) backends

abbrev pub AgreeOnTargets : Resolver → Resolver → Found Targets → Type 0
AgreeOnTargets resolve resolve' (found t) = AgreeOn resolve resolve' t.backends
AgreeOnTargets resolve resolve' (failed e) = Unit

module _ (resolve resolve' : Resolver) where
  internal_loop-agree :
      (o : Options) (base : Spec) (ctx : SpecContext) (total : ℕ) (backends : List BackendRef)
      → AgreeOn resolve resolve' backends
      → internal_loop o base ctx resolve' total backends
        ≡ internal_loop o base ctx resolve total backends
  unfolding internal_loop
  internal_loop-agree o base ctx total [] a = refl
  internal_loop-agree o base ctx total (b ∷ backends) a =
      rw (a.0, internal_loop-agree o base ctx total backends a.1)

  pub internal_endpoints-agree :
      (o : Options) (base : Spec) (ctx : SpecContext) (backends : List BackendRef)
      → AgreeOn resolve resolve' backends
      → internal_endpoints o base ctx backends resolve'
        ≡ internal_endpoints o base ctx backends resolve
  unfolding internal_endpoints
  internal_endpoints-agree o base ctx backends a =
      internal_loop-agree o base ctx (count backends) backends a

  derived_from-agree :
      (o : Options) (base : Spec) (ctx : SpecContext) (t : Found Targets)
      → AgreeOnTargets resolve resolve' t
      → derived_from o base ctx resolve' t ≡ derived_from o base ctx resolve t
  unfolding derived_from
  derived_from-agree o base ctx (failed e) a = refl
  derived_from-agree o base ctx (found t) a = rw (internal_endpoints-agree o base ctx t.backends a)

  derive-agree :
      (out : Outside) (o : Options) (r : Route) (ctx : SpecContext) (specs : List Spec)
      → AgreeOnTargets resolve resolve' (route_targets out r)
      → derive out o r ctx resolve' specs ≡ derive out o r ctx resolve specs
  unfolding derive
  derive-agree out o r ctx [] a = refl
  derive-agree out o r ctx (base ∷ specs) a =
      rw (derived_from-agree o base ctx (route_targets out r) a)

  derive_parsed-agree :
      (out : Outside) (o : Options) (r : Route) (ctx : SpecContext) (specs : Parsed (List Spec))
      → AgreeOnTargets resolve resolve' (route_targets out r)
      → derive_parsed out o r ctx resolve' specs ≡ derive_parsed out o r ctx resolve specs
  unfolding derive_parsed
  derive_parsed-agree out o r ctx (Annotations.bad p) a = refl
  derive_parsed-agree out o r ctx (Annotations.ok specs) a = derive-agree out o r ctx specs a

  -- The ports of its backends are all that the endpoints of a route depend on in other objects.
  pub from_ingress_route-agree :
      (out : Outside) (d : Decoder) (o : Options) (r : Route) (ns_group : String)
      → AgreeOnTargets resolve resolve' (route_targets out r)
      → from_ingress_route out d o r ns_group resolve'
        ≡ from_ingress_route out d o r ns_group resolve
  unfolding from_ingress_route
  from_ingress_route-agree out d o r ns_group a = rw (
      derive_parsed-agree out o r (route_context source_ingress_route r ns_group)
        (specs_from_annotations d r.annotations) a)
