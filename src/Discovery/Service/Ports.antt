-- ===== src/Discovery/Service/Ports.antt =====
-- About ports and the endpoints of a Service in internal/discovery/service.go.
use mathlib.Core.List.{Mem, mem-cons_self, mem-cons_of_mem}
use gatus_sidecar.Prelude.{
  ℕ, String, ◌≡◌, refl, sym, ap, ◌∙◌, subst, ◌≢◌, ◌⊎◌, inl, inr, Bool, true, false, not, List, [],
  ◌∷◌, arith, ◌==◌, string_eq, if_elim, if_true, if_false, Bool-cases, ne_of_beq,
}
use gatus_sidecar.Config.Endpoint.{Endpoint}
use gatus_sidecar.Discovery.Annotations.{Spec, Parsed}
use gatus_sidecar.Discovery.Annotations
use gatus_sidecar.Discovery.Specs.{Decoder, specs_from_annotations}
use gatus_sidecar.Discovery.Paths.{normalise_path}
use gatus_sidecar.Discovery.Service.{
  Options, Service, SpecContext, DiscoveryError, Found, found, failed, and_then, enabled, excluded,
  resolve_port, at_port, endpoint_from_spec, endpoints_from_specs, service_context, from_parsed,
  from_service, external_name, of_annotation, of_endpoint, name_or,
}
use gatus_sidecar.Discovery.Service.Usable.{IsUsable, IfFound, resolve_port-IsUsable}

-- The endpoint of a spec: where it comes from, and either the URL of the spec, word for word, or the
-- host of the context with a usable port and a normalised path.
pub record IsFrom (ctx : SpecContext) (s : Spec) (ep : Endpoint) : Type 0 where
  pub same_source : ep.source ≡ ctx.source
  pub same_ref : ep.source_ref ≡ ctx.ref
  pub same_patch : ep.patch ≡ s.patch
  pub address :
      ((s.url ≢ "") × (ep.url ≡ s.url) × (ep.host ≡ ""))
      ⊎ ((s.url ≡ "")
          × (ep.url ≡ "")
          × (ep.host ≡ ctx.host)
          × IsUsable ctx.ports ep.port
          × (ep.path ≡ normalise_path s.path))

-- The port of a spec is needed and not found, which is the error that is reported of it.
pub record LacksPort (ctx : SpecContext) (s : Spec) (e : DiscoveryError) : Type 0 where
  pub no_url : s.url ≡ ""
  pub cause : DiscoveryError
  pub not_found : resolve_port s.port ctx.ports ≡ failed cause
  pub reported : e ≡ of_endpoint (name_or s.name ctx.fallback) cause

-- The endpoint is from the spec, or there is none since its port is needed and not found.
abbrev pub SpecGives : SpecContext → Spec → Found Endpoint → Type 0
SpecGives ctx s (found ep) = IsFrom ctx s ep
SpecGives ctx s (failed e) = LacksPort ctx s e

at_port-SpecGives :
    (o : Options) (s : Spec) (ctx : SpecContext) (r : Found ℕ)
    → s.url ≡ ""
    → resolve_port s.port ctx.ports ≡ r
    → IfFound (IsUsable ctx.ports) r
    → SpecGives ctx s (at_port o s ctx r)
unfolding at_port
at_port-SpecGives o s ctx (failed e) h k u = record {
  no_url = h;
  cause = e;
  not_found = k;
  reported = refl;
}
at_port-SpecGives o s ctx (found p) h k u = record {
  same_source = refl;
  same_ref = refl;
  same_patch = refl;
  address = inr (h, refl, refl, u, refl);
}

pub endpoint_from_spec-SpecGives :
    (o : Options) (s : Spec) (ctx : SpecContext) → SpecGives ctx s (endpoint_from_spec o s ctx)
unfolding endpoint_from_spec
endpoint_from_spec-SpecGives o s ctx =
    if_elim (SpecGives ctx s) (not (s.url == "")) _ _
      (λ b. record {
        same_source = refl;
        same_ref = refl;
        same_patch = refl;
        address = inl (ne_of_beq s.url "" (ground arith), refl, refl);
      })
      (λ b.
        at_port-SpecGives o s ctx (resolve_port s.port ctx.ports)
          ((string_eq.beq_iff s.url "").0 (ground arith)) refl
          (resolve_port-IsUsable s.port ctx.ports))

-- The endpoints stand one for each spec, in their order.
abbrev pub AllFrom : SpecContext → List Spec → List Endpoint → Type 0
AllFrom ctx [] [] = Unit
AllFrom ctx (s ∷ specs) (ep ∷ eps) = IsFrom ctx s ep × AllFrom ctx specs eps
AllFrom ctx _ _ = ⊥

-- All specs give an endpoint, or one of them none.
abbrev pub SpecsGive : SpecContext → List Spec → Found (List Endpoint) → Type 0
SpecsGive ctx specs (found eps) = AllFrom ctx specs eps
SpecsGive ctx specs (failed e) = (s : Spec) × Mem s specs × LacksPort ctx s e

pub endpoints_from_specs-SpecsGive :
    (o : Options) (specs : List Spec) (ctx : SpecContext)
    → SpecsGive ctx specs (endpoints_from_specs o specs ctx)
unfolding endpoints_from_specs
endpoints_from_specs-SpecsGive o [] ctx = tt
endpoints_from_specs-SpecsGive o (s ∷ specs) ctx =
    both (endpoint_from_spec o s ctx) (endpoints_from_specs o specs ctx)
      (endpoint_from_spec-SpecGives o s ctx) (endpoints_from_specs-SpecsGive o specs ctx)
  where
    both :
        (r : Found Endpoint) (rest : Found (List Endpoint))
        → SpecGives ctx s r
        → SpecsGive ctx specs rest
        → SpecsGive ctx (s ∷ specs) (and_then r (λ ep. and_then rest (λ eps. found (ep ∷ eps))))
    both (failed e) rest h k = unfold and_then in (s, mem-cons_self, h)
    both (found ep) (failed e) h k = unfold and_then in (k.0, mem-cons_of_mem s k.1, k.2)
    both (found ep) (found eps) h k = unfold and_then in (h, k)

-- Annotations that are in error are reported as they are, and else the specs are what gives endpoints.
abbrev pub ParsedGives : SpecContext → Parsed (List Spec) → Found (List Endpoint) → Type 0
ParsedGives ctx (Annotations.ok specs) r = SpecsGive ctx specs r
ParsedGives ctx (Annotations.bad p) r = r ≡ failed (of_annotation p)

from_parsed-ParsedGives :
    (o : Options) (ctx : SpecContext) (specs : Parsed (List Spec))
    → ParsedGives ctx specs (from_parsed o ctx specs)
unfolding from_parsed
from_parsed-ParsedGives o ctx (Annotations.ok specs) = endpoints_from_specs-SpecsGive o specs ctx
from_parsed-ParsedGives o ctx (Annotations.bad p) = refl

-- What `FromService` promises of a Service and its specs.
abbrev pub Gives :
    (String → String → Bool) → Decoder → Options → Service → String → Found (List Endpoint) → Type 0
Gives path_match d o svc ns_group r =
    ((enabled o.service_mode svc.annotations ≡ false)
        ⊎ (excluded path_match svc.name svc.annotations ≡ true)
      → r ≡ found [])
    × (enabled o.service_mode svc.annotations ≡ true
        → excluded path_match svc.name svc.annotations ≡ false
        → svc.is_external_name ≡ true
        → r ≡ failed external_name)
    × (enabled o.service_mode svc.annotations ≡ true
        → excluded path_match svc.name svc.annotations ≡ false
        → svc.is_external_name ≡ false
        → ParsedGives (service_context o svc ns_group) (specs_from_annotations d svc.annotations) r)

-- `FromService` gives nothing for a Service that is not enabled or that excludes itself, an error for
-- one of type ExternalName, the error of its annotations where they cannot be parsed, and else one
-- endpoint for each spec, in order, of this Service: with the spec's URL, or else with the Service's
-- host, a usable port and the normalised path. Where the annotations are parsed, it fails only for a
-- spec without a URL whose port is not found, and reports that.
pub from_service-Gives :
    (path_match : String → String → Bool) (d : Decoder) (o : Options) (svc : Service)
    (ns_group : String)
    → Gives path_match d o svc ns_group (from_service path_match d o svc ns_group)
unfolding from_service
from_service-Gives path_match d o svc ns_group = (
  off,
  (λ on kept e. rw (on, kept) (if_true _ _ e)),
  λ on kept i.
      rw (on, kept)
        (subst
          (ParsedGives (service_context o svc ns_group) (specs_from_annotations d svc.annotations))
          (sym (if_false _ _ i))
          (from_parsed-ParsedGives o (service_context o svc ns_group)
            (specs_from_annotations d svc.annotations))),
)
  where
    off :
        (enabled o.service_mode svc.annotations ≡ false)
          ⊎ (excluded path_match svc.name svc.annotations ≡ true)
        → from_service path_match d o svc ns_group ≡ found []
    off (inl h) = if_true _ _ (ap not h)
    off (inr h) = elim (Bool-cases (enabled o.service_mode svc.annotations)) [
      | inl on ↦ if_false _ _ (ap not on) ∙ if_true _ _ h
      | inr no' ↦ if_true _ _ (ap not no')
    ]
