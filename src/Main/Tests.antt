-- ===== src/Main/Tests.antt =====
-- Flags and libraries to run cmd/gatus-sidecar/main.go on.
use gatus_sidecar.Prelude.{
  ℕ, String, ◌≡◌, refl, ◌≢◌, ◌≤◌, Bool, true, false, Option, none, some, List, [], ◌∷◌, string_eq,
  ne_of_beq,
}
use gatus_sidecar.Prelude.Assoc
use gatus_sidecar.Prelude.Assoc.{Assoc}
use gatus_sidecar.Prelude.Text.{join}
use gatus_sidecar.Value.{no_fields}
use gatus_sidecar.Config.Writer.{loaded}
use gatus_sidecar.Discovery.Entrypoints.{
  TraefikService, EntrypointPorts, flag_ports, parse_entrypoint_ports,
}
use gatus_sidecar.Discovery.Entrypoints.Overrides.{parse_entrypoint_ports-AreOverrides}
use gatus_sidecar.Controller.Reconcile.{Fetched, not_found, entrypoint_ports}
use gatus_sidecar.Main.{
  default_flags, refs_are, parse_traefik_services, Flags, no_match, Libraries, good, Wiring, run,
  new_loop, ◌>>=◌, mode_of, ports_of, refs_of, unless, base_of, selector_of, set_up, set_up_route,
}
use gatus_sidecar.Main.TraefikServices.{parse_traefik_services-join}
use gatus_sidecar.Main.Wired.{IsWired, run-IsWired, wired_ports-known}

two_refs :
    parse_traefik_services " traefik/internal , traefik/external"
    ≡ refs_are ("traefik/internal" ∷ "traefik/external" ∷ [])
unfolding parse_traefik_services gatus_sidecar.Prelude.Text.trim_space
    gatus_sidecar.Prelude.Text.cut gatus_sidecar.Prelude.Text.split
two_refs = refl

parse_traefik_services-join_example :
    parse_traefik_services (join "," ("traefik/internal" ∷ "traefik/external" ∷ []))
    ≡ refs_are ("traefik/internal" ∷ "traefik/external" ∷ [])
parse_traefik_services-join_example =
    parse_traefik_services-join " traefik/internal , traefik/external" _ two_refs

abbrev flags : Flags
flags = record default_flags {
  service_mode = "auto";
  ingress_route_tcp_mode = "disabled";
  traefik_services = "traefik/internal";
  entrypoint_ports = "web=8000";
}

-- A cluster without Traefik's kinds.
abbrev libraries : Libraries
libraries = record {
  load_base = λ path. loaded no_fields;
  parse_selector = λ text. none;
  manager_fails = false;
  setup_fails = λ kind. false;
  mapping = λ kind. no_match;
}

abbrev wiring : Wiring
wiring = record {
  service = true;
  ingress_route = false;
  ingress_route_tcp = false;
  options = record {
    service_mode = "auto";
    ingress_route_mode = "opt-in";
    ingress_route_tcp_mode = "disabled";
    group_from_namespace = true;
    cluster_domain = "cluster.local";
    external_suffix = " (external)";
  };
  selector = none;
  traefik_services = "traefik/internal" ∷ [];
  overrides = ("web", 8000) ∷ [];
  default_scheme = "http";
  loop = new_loop "/config/config.yaml";
}

one_ref : parse_traefik_services "traefik/internal" ≡ refs_are ("traefik/internal" ∷ [])
unfolding parse_traefik_services gatus_sidecar.Prelude.Text.trim_space
    gatus_sidecar.Prelude.Text.cut gatus_sidecar.Prelude.Text.split
one_ref = refl

abbrev overrides : Assoc String ℕ
overrides = ("web", 8000) ∷ []

one_override : parse_entrypoint_ports "web=8000" ≡ flag_ports overrides
unfolding parse_entrypoint_ports Assoc.put gatus_sidecar.Value.Number.atoi
    gatus_sidecar.Prelude.Text.trim_space gatus_sidecar.Discovery.Annotations.split_list
    gatus_sidecar.Prelude.Text.fields_func gatus_sidecar.Prelude.Text.cut
    gatus_sidecar.Prelude.Text.parse_digits
one_override = refl

runs : run libraries flags ≡ good wiring
unfolding run ◌>>=◌ mode_of ports_of refs_of unless base_of selector_of set_up set_up_route
    parse_traefik_services parse_entrypoint_ports Assoc.put gatus_sidecar.Value.Number.atoi
    gatus_sidecar.Discovery.Service.parse_mode gatus_sidecar.Config.Render.default_scheme
    gatus_sidecar.Prelude.Text.trim_space gatus_sidecar.Discovery.Annotations.split_list
    gatus_sidecar.Prelude.Text.fields_func gatus_sidecar.Prelude.Text.cut
    gatus_sidecar.Prelude.Text.parse_digits gatus_sidecar.Prelude.Text.split
runs = refl

run-IsWired_example : IsWired libraries flags wiring
run-IsWired_example = run-IsWired libraries flags wiring runs

abbrev nothing_there : String → String → Fetched TraefikService
nothing_there namespace name = not_found

wired_ports-known_example :
    (ports : EntrypointPorts) × (entrypoint_ports wiring.overrides nothing_there
        wiring.traefik_services none
      ≡ some ports)
    × (ports.overrides ≡ wiring.overrides)
wired_ports-known_example =
    wired_ports-known libraries flags wiring "traefik/internal" [] nothing_there none runs refl
      (λ namespace name. tt)

found_override : Assoc.lookup "web" overrides ≡ some 8000
unfolding Assoc.lookup
found_override = refl

parse_entrypoint_ports-AreOverrides_example :
    ◌≢◌ {A = String} "web" "" × (1 ≤ 8000) × (8000 ≤ 65535)
parse_entrypoint_ports-AreOverrides_example =
    parse_entrypoint_ports-AreOverrides "web=8000" overrides "web" 8000 one_override found_override
