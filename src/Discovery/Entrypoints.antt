-- ===== src/Discovery/Entrypoints.antt =====
-- internal/discovery/entrypoints.go: the port on which a Traefik entrypoint is published.
pub mod Agreement
pub mod Overrides
use gatus_sidecar.Prelude.{
  ℕ, String, Bool, true, false, not, ◌&&◌, ◌||◌, Option, none, some, List, [], ◌∷◌, ◌++◌, ◌==◌,
  nat_eq, string_eq, ltb, if◌then◌else◌,
}
use gatus_sidecar.Prelude.Assoc
use gatus_sidecar.Prelude.Assoc.{Assoc}
use gatus_sidecar.Prelude.Text.{concat, trim_space, cut}
use gatus_sidecar.Value.{ℤ, pos, negsuc}
use gatus_sidecar.Value.Number.{atoi}
use gatus_sidecar.Discovery.Annotations.{split_list}

abbrev pub default_entrypoint_ports : Assoc String ℕ
default_entrypoint_ports = ("web", 80) ∷ ("websecure", 443) ∷ []

pub record TraefikService : Type 0 where
  pub namespace : String
  pub name : String
  pub ports : Assoc String ℕ

-- `Ref`
unfoldable pub ref : TraefikService → String
unfolding concat
ref s = concat (s.namespace ∷ "/" ∷ s.name ∷ [])

pub record EntrypointPorts : Type 0 where
  pub overrides : Assoc String ℕ
  pub services : List TraefikService

pub data PortError : Type 0 where
  not_published : String → String → PortError
  no_such_service : String → PortError
  unknown_port : String → PortError
  ambiguous : String → Assoc ℕ (List String) → PortError

pub data Answer : Type 0 where
  port_is : ℕ → Answer
  refused : PortError → Answer

or_refused : PortError → Option ℕ → Answer
or_refused e none = refused e
or_refused e (some p) = port_is p

-- The loop over the services for the one that is preferred.
unfoldable pub preferred_port : String → String → List TraefikService → Answer
unfolding or_refused
preferred_port entrypoint prefer [] = refused (no_such_service prefer)
preferred_port entrypoint prefer (s ∷ services) =
    let later = preferred_port entrypoint prefer services in
    if not (ref s == prefer)
    then later
    else or_refused (not_published prefer entrypoint) (Assoc.lookup entrypoint s.ports)

or_no_refs : Option (List String) → List String
or_no_refs none = []
or_no_refs (some refs) = refs

-- One round of the loop that collects the ports.
add_port : TraefikService → Assoc ℕ (List String) → Option ℕ → Assoc ℕ (List String)
unfolding or_no_refs
add_port s ports none = ports
add_port s ports (some p) = Assoc.put p (or_no_refs (Assoc.lookup p ports) ++ ref s ∷ []) ports

unfoldable pub collect_ports :
    String → List TraefikService → Assoc ℕ (List String) → Assoc ℕ (List String)
unfolding add_port
collect_ports entrypoint [] ports = ports
collect_ports entrypoint (s ∷ services) ports =
    collect_ports entrypoint services (add_port s ports (Assoc.lookup entrypoint s.ports))

-- The switch on the number of distinct ports.
unfoldable pub decide : String → Assoc ℕ (List String) → Answer
unfolding or_refused
decide entrypoint [] =
    or_refused (unknown_port entrypoint) (Assoc.lookup entrypoint default_entrypoint_ports)
decide entrypoint ((p, refs) ∷ []) = port_is p
decide entrypoint (a ∷ b ∷ ports) = refused (ambiguous entrypoint (a ∷ b ∷ ports))

unfoldable pub discovered : EntrypointPorts → String → String → Option ℕ → Answer
unfolding preferred_port collect_ports decide
discovered e entrypoint prefer (some p) = port_is p
discovered e entrypoint prefer none =
    if not (prefer == "")
    then preferred_port entrypoint prefer e.services
    else decide entrypoint (collect_ports entrypoint e.services [])

-- `Port`
unfoldable pub port : EntrypointPorts → String → String → Answer
unfolding discovered
port e entrypoint prefer = discovered e entrypoint prefer (Assoc.lookup entrypoint e.overrides)

pub data FlagError : Type 0 where
  not_a_pair : String → FlagError
  not_a_port : String → String → FlagError

pub data Flag : Type 0 where
  flag_ports : Assoc String ℕ → Flag
  flag_error : FlagError → Flag

-- `n < 1 || n > 65535`, and an error of `strconv.Atoi`.
unfoldable pub valid_port : Option ℤ → Option ℕ
valid_port (some (pos n)) = if ltb n 1 || ltb 65535 n then none else some n
valid_port _ = none

-- `int32(n)` for a port that is valid, and the rest of the loop.
with_port : String → String → String → (Assoc String ℕ → Flag) → Assoc String ℕ → Option ℕ → Flag
with_port pair name port rest out none = flag_error (not_a_port pair port)
with_port pair name port rest out (some n) = rest (Assoc.put name n out)

parse_pair : String → (Assoc String ℕ → Flag) → Assoc String ℕ → Option (String × String) → Flag
unfolding with_port valid_port
parse_pair pair rest out none = flag_error (not_a_pair pair)
parse_pair pair rest out (some (before, after)) =
    let name = trim_space before in
    let port = trim_space after in
    if name == "" || port == ""
    then flag_error (not_a_pair pair)
    else with_port pair name port rest out (valid_port (atoi port))

parse_pairs : List String → Assoc String ℕ → Flag
unfolding parse_pair
parse_pairs [] out = flag_ports out
parse_pairs (pair ∷ pairs) out = parse_pair pair (parse_pairs pairs) out (cut pair "=")

or_empty_list : Option (List String) → List String
or_empty_list none = []
or_empty_list (some l) = l

unfoldable pub parse_entrypoint_ports : String → Flag
unfolding parse_pairs or_empty_list
parse_entrypoint_ports v =
    if trim_space v == "" then flag_ports [] else parse_pairs (or_empty_list (split_list v)) []
