-- ===== src/Discovery/Entrypoints/Agreement.antt =====
-- About `Port` of internal/discovery/entrypoints.go, where discovery decides.
use mathlib.Core.Logic.Or
use mathlib.Core.HLevel.{⊥_prop}
use mathlib.Core.List.{Mem, mem-cons, mem-cons_self, mem-cons_of_mem, not-mem-nil}
use gatus_sidecar.Prelude.{
  ℕ, String, ◌≡◌, refl, sym, ◌∙◌, subst, ◌≢◌, ◌⊎◌, inl, inr, Option, none, some, List, [], ◌∷◌,
  ◌==◌, nat_eq, string_eq, Option-cases, none≢some, eq_or_ne, beq_refl, beq_of_ne, Bool-cases,
}
use gatus_sidecar.Prelude.Assoc
use gatus_sidecar.Prelude.Assoc.{
  Assoc, HasUniqueKeys, lookup-put_self, lookup-put_ne, put-HasUniqueKeys,
}
use gatus_sidecar.Discovery.Entrypoints.{
  default_entrypoint_ports, TraefikService, EntrypointPorts, PortError, Answer, port_is, refused,
  or_refused, add_port, collect_ports, decide, discovered, port,
}

publish : Option ℕ → List ℕ → List ℕ
publish none rest = rest
publish (some p) rest = p ∷ rest

-- The ports on which the services publish the entrypoint, one for each service that does.
pub published : String → List TraefikService → List ℕ
unfolding publish
published entrypoint [] = []
published entrypoint (s ∷ services) =
    publish (Assoc.lookup entrypoint s.ports) (published entrypoint services)

abbrev Ports : Type 0
Ports = Assoc ℕ (List String)

abbrev Has : ℕ → Ports → Type 0
Has p m = Assoc.lookup p m ≢ none

Has-put_self : (p : ℕ) (v : List String) (m : Ports) → Has p (Assoc.put p v m)
Has-put_self p v m h = none≢some {a = v} (sym h ∙ lookup-put_self p v m)

Has-put : (p q : ℕ) (v : List String) (m : Ports) → Has p m → Has p (Assoc.put q v m)
Has-put p q v m h = elim (eq_or_ne q p) [
  | inl same ↦ rw same (Has-put_self p v m)
  | inr other ↦ λ n. h (sym (lookup-put_ne q p v m other) ∙ n)
]

Has-add : (s : TraefikService) (p : ℕ) (m : Ports) (o : Option ℕ) → Has p m → Has p (add_port s m o)
unfolding add_port
Has-add s p m none h = h
Has-add s p m (some q) h = Has-put p q _ m h

collect-keeps :
    (entrypoint : String) (services : List TraefikService) (m : Ports) (p : ℕ)
    → Has p m
    → Has p (collect_ports entrypoint services m)
unfolding collect_ports
collect-keeps entrypoint [] m p h = h
collect-keeps entrypoint (s ∷ services) m p h =
    collect-keeps entrypoint services _ p (Has-add s p m (Assoc.lookup entrypoint s.ports) h)

-- One service: its port is in the map that the rest starts from, or is published by the rest.
collect_step :
    (entrypoint : String) (s : TraefikService) (services : List TraefikService) (m : Ports) (p : ℕ)
    (o : Option ℕ)
    → ((n : Ports)
        → Mem p (published entrypoint services)
        → Has p (collect_ports entrypoint services n))
    → Mem p (publish o (published entrypoint services))
    → Has p (collect_ports entrypoint services (add_port s m o))
unfolding publish add_port
collect_step entrypoint s services m p none rest i = rest m i
collect_step entrypoint s services m p (some q) rest i = λ h.
    Or.elim ⊥_prop (mem-cons.0 i)
      (λ same. collect-keeps entrypoint services _ p (rw same (Has-put_self q _ m)) h)
      λ k. rest (add_port s m (some q)) k h

-- Every published port is collected.
collect-published :
    (entrypoint : String) (services : List TraefikService) (m : Ports) (p : ℕ)
    → Mem p (published entrypoint services)
    → Has p (collect_ports entrypoint services m)
unfolding collect_ports published
collect-published entrypoint [] m p i = absurd (not-mem-nil i)
collect-published entrypoint (s ∷ services) m p i =
    collect_step entrypoint s services m p (Assoc.lookup entrypoint s.ports)
      (λ n k. collect-published entrypoint services n p k) i

add-from :
    (s : TraefikService) (m : Ports) (p : ℕ) (o : Option ℕ) (rest : List ℕ)
    → Has p (add_port s m o)
    → Assoc.lookup p m ≡ none
    → Mem p (publish o rest)
unfolding add_port publish
add-from s m p none rest h n = absurd (h n)
add-from s m p (some q) rest h n = elim (eq_or_ne q p) [
  | inl same ↦ subst (λ x. Mem x (q ∷ rest)) same mem-cons_self
  | inr other ↦ absurd (h (lookup-put_ne q p _ m other ∙ n))
]

publish-rest : (p : ℕ) (o : Option ℕ) (rest : List ℕ) → Mem p rest → Mem p (publish o rest)
unfolding publish
publish-rest p none rest i = i
publish-rest p (some q) rest i = mem-cons_of_mem q i

-- Nothing else is.
collected-from :
    (entrypoint : String) (services : List TraefikService) (m : Ports) (p : ℕ)
    → Has p (collect_ports entrypoint services m)
    → Assoc.lookup p m ≡ none
    → Mem p (published entrypoint services)
unfolding collect_ports published
collected-from entrypoint [] m p h n = absurd (h n)
collected-from entrypoint (s ∷ services) m p h n =
    elim (Option-cases (Assoc.lookup p (add_port s m (Assoc.lookup entrypoint s.ports)))) [
      | inl e ↦
          publish-rest p (Assoc.lookup entrypoint s.ports) _
            (collected-from entrypoint services _ p h e)
      | inr (v, e) ↦
          add-from s m p (Assoc.lookup entrypoint s.ports) (published entrypoint services)
            (λ k. none≢some {a = v} (sym k ∙ e)) n
    ]

add-HasUniqueKeys :
    (s : TraefikService) (m : Ports) (o : Option ℕ)
    → HasUniqueKeys m
    → HasUniqueKeys (add_port s m o)
unfolding add_port
add-HasUniqueKeys s m none u = u
add-HasUniqueKeys s m (some q) u = put-HasUniqueKeys q _ m u

collect-HasUniqueKeys :
    (entrypoint : String) (services : List TraefikService) (m : Ports)
    → HasUniqueKeys m
    → HasUniqueKeys (collect_ports entrypoint services m)
unfolding collect_ports
collect-HasUniqueKeys entrypoint [] m u = u
collect-HasUniqueKeys entrypoint (s ∷ services) m u =
    collect-HasUniqueKeys entrypoint services _
      (add-HasUniqueKeys s m (Assoc.lookup entrypoint s.ports) u)

-- When an answer is right for the ports that are published: they are all one port, or none is
-- published and the default decides. It is refused where two differ, or nothing is known.
abbrev pub Agrees : String → List ℕ → Answer → Type 0
Agrees entrypoint ports (port_is p) =
    (Mem p ports × ((q : ℕ) → Mem q ports → q ≡ p))
    ⊎ (((q : ℕ) → ¬ Mem q ports) × (Assoc.lookup entrypoint default_entrypoint_ports ≡ some p))
Agrees entrypoint ports (refused e) =
    ((p : ℕ) × ((q : ℕ) × (Mem p ports × Mem q ports × (p ≢ q))))
    ⊎ (((q : ℕ) → ¬ Mem q ports) × (Assoc.lookup entrypoint default_entrypoint_ports ≡ none))

-- The map holds just the ports of the list.
record Holds (ports : List ℕ) (m : Ports) : Type 0 where
  into : (p : ℕ) → Mem p ports → Has p m
  from : (p : ℕ) → Has p m → Mem p ports
  unique : HasUniqueKeys m

Has-first : (p : ℕ) (v : List String) (m : Ports) → Has p ((p, v) ∷ m)
unfolding Assoc.lookup
Has-first p v m h = none≢some {a = v} (sym h ∙ rw (beq_refl p))

Has-only : (p q : ℕ) (v : List String) → Has q ((p, v) ∷ []) → q ≡ p
unfolding Assoc.lookup
Has-only p q v h = elim (eq_or_ne p q) [
  | inl same ↦ sym same
  | inr other ↦ absurd (h (rw (beq_of_ne p q other)))
]

Has-second : (p q : ℕ) (v w : List String) (m : Ports) → Has q ((p, v) ∷ (q, w) ∷ m)
unfolding Assoc.lookup
Has-second p q v w m = elim (Bool-cases (p == q)) [
  | inl same ↦ rw same (λ h. none≢some {a = v} (sym h))
  | inr other ↦ rw other (Has-first q w m)
]

differ : (p q : ℕ) (v w : List String) (m : Ports) → HasUniqueKeys ((p, v) ∷ (q, w) ∷ m) → p ≢ q
unfolding Assoc.lookup
differ p q v w m u same = none≢some {a = w} (sym u.0 ∙ rw (same, beq_refl q))

by_default :
    (entrypoint : String) (ports : List ℕ) (o : Option ℕ) (e : PortError)
    → Assoc.lookup entrypoint default_entrypoint_ports ≡ o
    → ((q : ℕ) → ¬ Mem q ports)
    → Agrees entrypoint ports (or_refused e o)
unfolding or_refused
by_default entrypoint ports none e h n = inr (n, h)
by_default entrypoint ports (some p) e h n = inr (n, h)

decide-Agrees :
    (entrypoint : String) (ports : List ℕ) (m : Ports)
    → Holds ports m
    → Agrees entrypoint ports (decide entrypoint m)
unfolding decide
decide-Agrees entrypoint ports [] h =
    by_default entrypoint ports (Assoc.lookup entrypoint default_entrypoint_ports) _ refl
      (λ q i. h.into q i (absent q))
  where
    absent : (q : ℕ) → Assoc.lookup {V = List String} q [] ≡ none
    absent q = unfold Assoc.lookup in refl
decide-Agrees entrypoint ports ((p, v) ∷ []) h =
    inl (h.from p (Has-first p v []), λ q i. Has-only p q v (h.into q i))
decide-Agrees entrypoint ports ((p, v) ∷ (q, w) ∷ m) h = inl (
  p,
  (
    q,
    (
      h.from p (Has-first p v ((q, w) ∷ m)),
      h.from q (Has-second p q v w m),
      differ p q v w m h.unique,
    ),
  ),
)

-- Where neither a flag nor an annotation decides, `Port` answers with the port that every Traefik
-- Service which publishes the entrypoint has for it; with the default, if none publishes it; and it
-- refuses if two of them differ, or if none publishes it and there is no default.
pub port-Agrees :
    (e : EntrypointPorts) (entrypoint : String)
    → Assoc.lookup entrypoint e.overrides ≡ none
    → Agrees entrypoint (published entrypoint e.services) (port e entrypoint "")
unfolding port discovered
port-Agrees e entrypoint h =
    subst (λ o. Agrees entrypoint (published entrypoint e.services) (discovered e entrypoint "" o))
      (sym h)
      (decide-Agrees entrypoint (published entrypoint e.services)
        (collect_ports entrypoint e.services [])
        (record {
          into = λ p. collect-published entrypoint e.services [] p;
          from = λ p i. collected-from entrypoint e.services [] p i (unfold Assoc.lookup in refl);
          unique = collect-HasUniqueKeys entrypoint e.services [] tt;
        }))
