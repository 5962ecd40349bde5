-- ===== src/Controller/Reconcile/Entrypoints.antt =====
-- About `entrypointPorts` of internal/controller/ingressroutetcp_controller.go.
use gatus_sidecar.Prelude.{
  ℕ, String, ◌≡◌, refl, ap, Option, none, some, List, [], ◌∷◌, string_eq, All,
}
use gatus_sidecar.Prelude.Assoc.{Assoc}
use gatus_sidecar.Prelude.Text.{cut}
use gatus_sidecar.Discovery.Entrypoints.{TraefikService, EntrypointPorts}
use gatus_sidecar.Controller.Reconcile.{
  Fetched, there, not_found, get_failed, entrypoint_ports, configured, by_ref, configured_one,
  add_configured, with_overrides,
}

module _ (get get' : String → String → Fetched TraefikService) where
  by_ref-agree :
      (parts : Option (String × String)) (rest rest' : Option (List TraefikService))
      → ((namespace name : String)
          → parts ≡ some (namespace, name)
          → get' namespace name ≡ get namespace name)
      → rest' ≡ rest
      → by_ref get' parts rest' ≡ by_ref get parts rest
  unfolding by_ref
  by_ref-agree none rest rest' h e = refl
  by_ref-agree (some (namespace, name)) rest rest' h e = rw (h namespace name refl, e)

  abbrev pub Agree : String → Type 0
  Agree ref =
      (namespace name : String)
      → cut ref "/" ≡ some (namespace, name)
      → get' namespace name ≡ get namespace name

  configured-Agree :
      (refs : List String) → All Agree refs → configured get' refs ≡ configured get refs
  unfolding configured
  configured-Agree [] h = refl
  configured-Agree (ref ∷ refs) h =
      by_ref-agree (cut ref "/") (configured get refs) (configured get' refs) h.0
        (configured-Agree refs h.1)

-- With configured references the label does not matter, and of the API server's answers only those
-- for the references.
pub entrypoint_ports-Agree :
    (overrides : Assoc String ℕ) (get get' : String → String → Fetched TraefikService)
    (ref : String) (refs : List String) (labelled labelled' : Option (List TraefikService))
    → All (Agree get get') (ref ∷ refs)
    → entrypoint_ports overrides get' (ref ∷ refs) labelled'
      ≡ entrypoint_ports overrides get (ref ∷ refs) labelled
unfolding entrypoint_ports
entrypoint_ports-Agree overrides get get' ref refs labelled labelled' h =
    ap (with_overrides overrides) (configured-Agree get get' (ref ∷ refs) h)

-- The API server answers a request, if only that the object is not there.
abbrev pub Answered : Fetched TraefikService → Type 0
Answered get_failed = ⊥
Answered _ = Unit

abbrev pub IsCut : String → Type 0
IsCut ref = (namespace : String) × (name : String) × (cut ref "/" ≡ some (namespace, name))

module _ (get : String → String → Fetched TraefikService)
    (answered : (namespace name : String) → Answered (get namespace name)) where
  configured_one-some :
      (answer : Fetched TraefikService) (services : List TraefikService)
      → Answered answer
      → (found : List TraefikService) × (configured_one answer (some services) ≡ some found)
  unfolding configured_one add_configured
  configured_one-some (there s) services a = (s ∷ services, refl)
  configured_one-some not_found services a = (services, refl)
  configured_one-some get_failed services a = absurd a

  configured-some :
      (refs : List String)
      → All IsCut refs
      → (services : List TraefikService) × (configured get refs ≡ some services)
  unfolding configured by_ref
  configured-some [] c = ([], refl)
  configured-some (ref ∷ refs) c =
      let (namespace, name, parts) = c.0 in
      let (rest, e) = configured-some refs c.1 in
      let (services, e') =
        configured_one-some (get namespace name) rest (answered namespace name) in
      (services, rw (parts, e) e')

  -- Where every configured reference has a slash and the API server answers, the ports are known.
  pub entrypoint_ports-some :
      (overrides : Assoc String ℕ) (ref : String) (refs : List String)
      (labelled : Option (List TraefikService))
      → All IsCut (ref ∷ refs)
      → (ports : EntrypointPorts) × (entrypoint_ports overrides get (ref ∷ refs) labelled
          ≡ some ports)
        × (ports.overrides ≡ overrides)
  unfolding entrypoint_ports with_overrides
  entrypoint_ports-some overrides ref refs labelled c =
      let (services, e) = configured-some (ref ∷ refs) c in
      (record { overrides = overrides; services = services }, rw e, refl)
