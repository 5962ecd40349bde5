-- ===== src/Discovery/Service/Usable.antt =====
-- About `resolvePort` of internal/discovery/service.go.
use mathlib.Core.Logic.Or
use mathlib.Core.List.{Mem, mem-cons, mem-cons_self, mem-cons_of_mem, not-mem-nil}
use gatus_sidecar.Prelude.{
  ℕ, ◌≤◌, String, ◌≡◌, refl, sym, ap, ◌∙◌, ◌≢◌, ◌⊎◌, inl, inr, false, not, ◌||◌, Option, none, some,
  List, [], ◌∷◌, map, arith, ◌==◌, string_eq, ltb, if_elim, if_false, Bool-cases, beq_of_ne,
  ne_of_beq,
}
use gatus_sidecar.Value.{ℤ, pos, negsuc}
use gatus_sidecar.Value.Number.{atoi}
use gatus_sidecar.Discovery.Service.{
  NamedPort, Found, found, failed, port_named, numbered, only_port, resolve_port,
}

abbrev pub ports_of : List NamedPort → List ℕ
ports_of ports = map (λ p. p.port) ports

-- A port number, or a port of the Service.
abbrev pub IsUsable : List NamedPort → ℕ → Type 0
IsUsable ports p = ((1 ≤ p) × (p ≤ 65535)) ⊎ Mem p (ports_of ports)

-- What holds of the value that is found, if one is.
abbrev pub IfFound {ℓ κ} : {A : Type ℓ} → (A → Type κ) → Found A → Type κ
IfFound P (found a) = P a
IfFound P (failed e) = Unit

named-IsUsable :
    (want : String) (ports : List NamedPort)
    → IfFound (λ p. Mem p (ports_of ports)) (port_named want ports)
unfolding port_named
named-IsUsable want [] = tt
named-IsUsable want (q ∷ ports) =
    if_elim (IfFound (λ p. Mem p (q.port ∷ ports_of ports))) (q.name == want) (found q.port)
      (port_named want ports) (λ b. mem-cons_self)
      (λ b. later (port_named want ports) (named-IsUsable want ports))
  where
    later :
        (r : Found ℕ)
        → IfFound (λ p. Mem p (ports_of ports)) r
        → IfFound (λ p. Mem p (q.port ∷ ports_of ports)) r
    later (found p) m = mem-cons_of_mem q.port m
    later (failed e) m = tt

port_prop : (p : NamedPort) (l : List NamedPort) → IsProp (Mem p l)
port_prop p l = hlevel

in_range : (n : ℕ) → (ltb n 1 || ltb 65535 n) ≡ false → (1 ≤ n) × (n ≤ 65535)
in_range n h = (ground arith, ground arith)

numbered-IsUsable :
    (want : String) (ports : List NamedPort) (n : Option ℤ)
    → IfFound (IsUsable ports) (numbered want ports n)
unfolding numbered
numbered-IsUsable want ports none = weaker (port_named want ports) (named-IsUsable want ports)
  where
    weaker : (r : Found ℕ) → IfFound (λ p. Mem p (ports_of ports)) r → IfFound (IsUsable ports) r
    weaker (found p) m = inr m
    weaker (failed e) m = tt
numbered-IsUsable want ports (some (negsuc n)) = tt
numbered-IsUsable want ports (some (pos n)) =
    if_elim (IfFound (IsUsable ports)) (ltb n 1 || ltb 65535 n) _ (found n) (λ b. tt)
      (λ b. inl (in_range n b))

only-IsUsable : (ports : List NamedPort) → IfFound (IsUsable ports) (only_port ports)
unfolding only_port
only-IsUsable [] = tt
only-IsUsable (p ∷ []) = inr mem-cons_self
only-IsUsable (p ∷ q ∷ ports) = tt

-- A port that is resolved is between 1 and 65535, or is one of the Service's ports.
pub resolve_port-IsUsable :
    (want : String) (ports : List NamedPort) → IfFound (IsUsable ports) (resolve_port want ports)
unfolding resolve_port
resolve_port-IsUsable want ports =
    if_elim (IfFound (IsUsable ports)) (not (want == "")) _ _
      (λ b. numbered-IsUsable want ports (atoi want)) (λ b. only-IsUsable ports)

named-found :
    (want : String) (ports : List NamedPort) (p : NamedPort)
    → Mem p ports
    → p.name ≡ want
    → (q : ℕ) × (port_named want ports ≡ found q)
unfolding port_named
named-found want [] p m h = absurd (not-mem-nil m)
named-found want (x ∷ ports) p m h = elim (Bool-cases (x.name == want)) [
  | inl same ↦ (x.port, rw same refl)
  | inr other ↦
      let (q, e) =
        named-found want ports p
          (Or.elim (port_prop p ports) (mem-cons.0 m)
            (λ e. absurd (ne_of_beq x.name want other (sym (ap (λ y. y.name) e) ∙ h))) (λ k. k))
          h in
      (q, rw other e)
]

-- A port is found where the annotation is a number in range, where it is no number but the name of a
-- port, and where there is no annotation and one port.
pub resolve_port-found :
    (want : String) (ports : List NamedPort)
    → ((n : ℕ)
        → want ≢ ""
        → atoi want ≡ some (pos n)
        → 1 ≤ n
        → n ≤ 65535
        → resolve_port want ports ≡ found n)
      × ((p : NamedPort)
          → want ≢ ""
          → atoi want ≡ none
          → Mem p ports
          → p.name ≡ want
          → (q : ℕ) × (resolve_port want ports ≡ found q))
      × ((p : NamedPort) → want ≡ "" → ports ≡ p ∷ [] → resolve_port want ports ≡ found p.port)
unfolding resolve_port numbered only_port
resolve_port-found want ports = (
  (λ n h e l u.
      rw (beq_of_ne want "" h, e) (if_false {b = ltb n 1 || ltb 65535 n} _ _ (ground arith))),
  (λ p h e m k. rw (beq_of_ne want "" h, e) (named-found want ports p m k)),
  λ p h e. rw (h, e),
)
