-- ===== src/Main/Wired.antt =====
-- About `run` of cmd/gatus-sidecar/main.go: what the components are given.
use gatus_sidecar.Prelude.{
  String, ◌≡◌, refl, sym, subst, ◌≢◌, true, false, not, ◌&&◌, Option, none, some, List, ◌∷◌, ◌==◌,
  string_eq, All, All-map, ne_of_beq,
}
use mathlib.Core.Bool.{false≢true}
use gatus_sidecar.Prelude.Text.{cut}
use gatus_sidecar.Value.{Object}
use gatus_sidecar.Config.Writer.{loaded}
use gatus_sidecar.Discovery.Entrypoints.{TraefikService, EntrypointPorts}
use gatus_sidecar.Discovery.Entrypoints.Overrides.{
  AreOverrides, parse_entrypoint_ports-AreOverrides,
}
use gatus_sidecar.Discovery.Service.{mode_disabled, parse_mode}
use gatus_sidecar.Controller.Reconcile.{Fetched, entrypoint_ports}
use gatus_sidecar.Controller.Reconcile.Entrypoints.{Answered, IsCut, entrypoint_ports-some}
use gatus_sidecar.Main.{is_reference, Flags, Libraries, good, Wiring, run}
use gatus_sidecar.Main.TraefikServices.{IsReference, parse_traefik_services-IsReference}
use gatus_sidecar.Main.Checks.{
  >>=-eq-good, good_inj, mode_of-eq, ports_of-eq, refs_of-eq, base_of-eq, unless-eq, set_up-eq,
  set_up_route-eq, is_installed,
}

-- What the components are given, and what is known of it.
pub record IsWired (lib : Libraries) (f : Flags) (w : Wiring) : Type 0 where
  pub service_mode : parse_mode f.service_mode ≡ some w.options.service_mode
  pub ingress_route_mode : parse_mode f.ingress_route_mode ≡ some w.options.ingress_route_mode
  pub ingress_route_tcp_mode :
      parse_mode f.ingress_route_tcp_mode ≡ some w.options.ingress_route_tcp_mode
  pub service : w.service ≡ not (w.options.service_mode == mode_disabled)
  pub ingress_route : w.ingress_route ≡ (
      not (w.options.ingress_route_mode == mode_disabled)
      && is_installed (lib.mapping "IngressRoute"))
  pub ingress_route_tcp : w.ingress_route_tcp ≡ (
      not (w.options.ingress_route_tcp_mode == mode_disabled)
      && is_installed (lib.mapping "IngressRouteTCP"))
  pub overrides : AreOverrides w.overrides
  pub references : All IsReference w.traefik_services
  pub base : (base : Object) × (lib.load_base f.base_config ≡ loaded base)
  pub output : (w.loop.writer.path ≡ f.output) × (f.output ≢ "")
  pub not_ready : w.loop.ready ≡ false

-- Where `run` comes to the start of the manager, the modes are those of the flags, a kind is watched and
-- primed just if its mode is not disabled and, for Traefik's kinds, the API server has it, every
-- override is a named port between 1 and 65535, every reference is namespace/name, the base file loads,
-- and the loop writes to the output path, which is not empty, and is not ready.
pub run-IsWired : (lib : Libraries) (f : Flags) (w : Wiring) → run lib f ≡ good w → IsWired lib f w
unfolding run
run-IsWired lib f w h =
    let (m₁, e₁, h₁) = >>=-eq-good _ _ h in
    let (m₂, e₂, h₂) = >>=-eq-good _ _ h₁ in
    let (m₃, e₃, h₃) = >>=-eq-good _ _ h₂ in
    let (overrides, e₄, h₄) = >>=-eq-good _ _ h₃ in
    let (refs, e₅, h₅) = >>=-eq-good _ _ h₄ in
    let (u₁, e₆, h₆) = >>=-eq-good _ _ h₅ in
    let (u₂, e₇, h₇) = >>=-eq-good _ _ h₆ in
    let (selector, e₈, h₈) = >>=-eq-good _ _ h₇ in
    let (u₃, e₉, h₉) = >>=-eq-good _ _ h₈ in
    let (s₁, d₁, k₁) = >>=-eq-good _ _ h₉ in
    let (s₂, d₂, k₂) = >>=-eq-good _ _ k₁ in
    let (s₃, d₃, k₃) = >>=-eq-good _ _ k₂ in
    let (u₄, d₄, k₄) = >>=-eq-good _ _ k₃ in
    let (u₅, d₅, k₅) = >>=-eq-good _ _ k₄ in
    let (u₆, d₆, k₆) = >>=-eq-good _ _ k₅ in
    let (u₇, d₇, k₇) = >>=-eq-good _ _ k₆ in
    subst (IsWired lib f) (good_inj k₇) (record {
      service_mode = mode_of-eq _ _ m₁ e₁;
      ingress_route_mode = mode_of-eq _ _ m₂ e₂;
      ingress_route_tcp_mode = mode_of-eq _ _ m₃ e₃;
      service = set_up-eq lib _ _ s₁ d₁;
      ingress_route = set_up_route-eq lib _ _ s₂ d₂;
      ingress_route_tcp = set_up_route-eq lib _ _ s₃ d₃;
      overrides = λ name p.
          parse_entrypoint_ports-AreOverrides f.entrypoint_ports overrides name p
            (ports_of-eq _ overrides e₄);
      references =
          parse_traefik_services-IsReference f.traefik_services refs (refs_of-eq _ refs e₅);
      base = base_of-eq _ e₇;
      output = (refl, ne_of_beq f.output "" (unless-eq _ _ e₆));
      not_ready = refl;
    })

-- With the Services that `run` takes from the flags, at least one, the ports of the entrypoints are
-- known, with the flag's overrides, where the API server answers each `Get`: no reference of the flag
-- is an error of the reconciler.
pub wired_ports-known :
    (lib : Libraries) (f : Flags) (w : Wiring) (ref : String) (refs : List String)
    (get : String → String → Fetched TraefikService) (labelled : Option (List TraefikService))
    → run lib f ≡ good w
    → w.traefik_services ≡ ref ∷ refs
    → ((namespace name : String) → Answered (get namespace name))
    → (ports : EntrypointPorts) × (entrypoint_ports w.overrides get w.traefik_services labelled
        ≡ some ports)
      × (ports.overrides ≡ w.overrides)
wired_ports-known lib f w ref refs get labelled h e answered =
    subst
      (λ l.
        (ports : EntrypointPorts) × (entrypoint_ports w.overrides get l labelled ≡ some ports)
        × (ports.overrides ≡ w.overrides))
      (sym e)
      (entrypoint_ports-some get answered w.overrides ref refs labelled (
        subst (All IsCut) e (
          All-map IsReference IsCut (λ r i. has_parts (cut r "/") i.parts) w.traefik_services
            (run-IsWired lib f w h).references)))
  where
    has_parts :
        (o : Option (String × String))
        → is_reference o ≡ true
        → (namespace : String) × (name : String) × (o ≡ some (namespace, name))
    has_parts none i = absurd (false≢true (unfold is_reference in i))
    has_parts (some (namespace, name)) i = (namespace, name, refl)
