-- ===== src/Main.antt =====
-- cmd/gatus-sidecar/main.go: from the flags to the components, with what they are given. The manager of
-- controller-runtime, the REST mapper and the parser of label selectors are parameters.
pub mod TraefikServices
pub mod Checks
pub mod Wired
pub mod Tests
use gatus_sidecar.Prelude.{
  ℕ, String, Bool, true, false, not, ◌&&◌, Option, none, some, List, [], ◌∷◌, ◌++◌, ◌==◌, string_eq,
  if◌then◌else◌,
}
use gatus_sidecar.Prelude.Assoc.{Assoc}
use gatus_sidecar.Prelude.Text.{trim_space, split, cut}
use gatus_sidecar.Config.Render.{default_scheme}
use gatus_sidecar.Config.Writer.{LoadResult, loaded, read_failed, parse_failed}
use gatus_sidecar.Discovery.Entrypoints.{Flag, flag_ports, flag_error, parse_entrypoint_ports}
use gatus_sidecar.Discovery.Service.{Mode, mode_opt_in, mode_disabled, parse_mode, Options}
use gatus_sidecar.Controller.Reconcile.{Selector}
use gatus_sidecar.Controller.RenderLoop.{Loop}

-- `parseTraefikServices`: the references, or the first one that is not namespace/name.
pub data Refs : Type 0 where
  refs_are : List String → Refs
  not_namespace_name : String → Refs

unfoldable pub is_reference : Option (String × String) → Bool
is_reference none = false
is_reference (some (namespace, name)) = not (namespace == "") && not (name == "")

add_ref : String → Refs → Refs
add_ref ref (refs_are refs) = refs_are (ref ∷ refs)
add_ref ref (not_namespace_name bad) = not_namespace_name bad

parse_ref : String → Refs → Refs
unfolding is_reference add_ref
parse_ref ref rest =
    if ref == ""
    then rest
    else if is_reference (cut ref "/")
    then add_ref ref rest
    else not_namespace_name ref

unfoldable pub parse_refs : List String → Refs
unfolding parse_ref
parse_refs [] = refs_are []
parse_refs (raw ∷ raws) = parse_ref (trim_space raw) (parse_refs raws)

unfoldable pub parse_traefik_services : String → Refs
unfolding parse_refs
parse_traefik_services v = if trim_space v == "" then refs_are [] else parse_refs (split v ",")

-- The flags, as package flag hands them on; those that only a library reads are left out.
pub record Flags : Type 0 where
  pub base_config : String
  pub output : String
  pub service_mode : String
  pub ingress_route_mode : String
  pub ingress_route_tcp_mode : String
  pub traefik_services : String
  pub entrypoint_ports : String
  pub namespace_selector : String
  pub external_suffix : String
  pub cluster_domain : String
  pub default_scheme : String
  pub group_from_namespace : Bool

-- What `main` hands on where no flag is given.
abbrev pub default_flags : Flags
default_flags = record {
  base_config = "";
  output = "/config/config.yaml";
  service_mode = mode_opt_in;
  ingress_route_mode = mode_opt_in;
  ingress_route_tcp_mode = mode_opt_in;
  traefik_services = "";
  entrypoint_ports = "";
  namespace_selector = "";
  external_suffix = " (external)";
  cluster_domain = "cluster.local";
  default_scheme = "http";
  group_from_namespace = true;
}

-- What `RESTMapping` answers.
pub data Mapping : Type 0 where
  mapped : Mapping
  nil_mapping : Mapping
  no_match : Mapping
  mapping_failed : Mapping

-- The answers of the libraries. `parse_selector` gives `none` for an error; of the rest it is told
-- whether the call fails.
pub record Libraries : Type 0 where
  pub load_base : String → LoadResult
  pub parse_selector : String → Option Selector
  pub manager_fails : Bool
  pub setup_fails : String → Bool
  pub mapping : String → Mapping

pub data SetupError : Type 0 where
  bad_mode : String → SetupError
  bad_entrypoint_ports : SetupError
  bad_traefik_services : String → SetupError
  no_output : SetupError
  base_unreadable : SetupError
  bad_selector : SetupError
  no_manager : SetupError
  not_set_up : String → SetupError
  crd_unknown : String → SetupError

pub data Checked {ℓ} (A : Type ℓ) : Type ℓ where
  good : A → Checked A
  refused : SetupError → Checked A

infixl 5 ◌>>=◌
unfoldable pub ◌>>=◌ {ℓ κ} : {A : Type ℓ} {B : Type κ} → Checked A → (A → Checked B) → Checked B
good a >>= f = f a
refused e >>= f = refused e

unfoldable pub mode_of : String → Option Mode → Checked Mode
mode_of flag none = refused (bad_mode flag)
mode_of flag (some m) = good m

unfoldable pub ports_of : Flag → Checked (Assoc String ℕ)
ports_of (flag_ports out) = good out
ports_of (flag_error e) = refused bad_entrypoint_ports

unfoldable pub refs_of : Refs → Checked (List String)
refs_of (refs_are refs) = good refs
refs_of (not_namespace_name ref) = refused (bad_traefik_services ref)

unfoldable pub base_of : LoadResult → Checked (Unit {0})
base_of (loaded base) = good tt
base_of read_failed = refused base_unreadable
base_of (parse_failed path) = refused base_unreadable

parsed_selector : Option Selector → Checked Selector
parsed_selector none = refused bad_selector
parsed_selector (some s) = good s

unfoldable pub selector_of : Libraries → String → Checked Selector
unfolding parsed_selector
selector_of lib text = if text == "" then good none else parsed_selector (lib.parse_selector text)

unfoldable pub unless : Bool → SetupError → Checked (Unit {0})
unless true e = refused e
unless false e = good tt

-- `crdInstalled`
unfoldable pub crd_installed : String → Mapping → Checked Bool
crd_installed kind mapped = good true
crd_installed kind nil_mapping = good false
crd_installed kind no_match = good false
crd_installed kind mapping_failed = refused (crd_unknown kind)

-- `SetupWithManager` of a reconciler that is wanted; whether it is set up, and put in the primer.
unfoldable pub set_up : Libraries → String → Bool → Checked Bool
unfolding unless
set_up lib kind false = good false
set_up lib kind true = unless (lib.setup_fails kind) (not_set_up kind) >>= λ _. good true

-- The block of `run` for one of Traefik's kinds.
unfoldable pub set_up_route : Libraries → String → Bool → Checked Bool
unfolding crd_installed set_up
set_up_route lib kind false = good false
set_up_route lib kind true = crd_installed kind (lib.mapping kind) >>= set_up lib kind

-- What `run` gives to the components: the reconcilers that watch and prime, their fields, the default
-- scheme of the renderer, and the render loop.
pub record Wiring : Type 0 where
  pub service : Bool
  pub ingress_route : Bool
  pub ingress_route_tcp : Bool
  pub options : Options
  pub selector : Selector
  pub traefik_services : List String
  pub overrides : Assoc String ℕ
  pub default_scheme : String
  pub loop : Loop

abbrev pub options_of : Flags → Mode → Mode → Mode → Options
options_of f service route tcp = record {
  service_mode = service;
  ingress_route_mode = route;
  ingress_route_tcp_mode = tcp;
  group_from_namespace = f.group_from_namespace;
  cluster_domain = f.cluster_domain;
  external_suffix = f.external_suffix;
}

abbrev pub new_loop : String → Loop
new_loop output = record {
  writer = record { path = output; last = none };
  last_warnings = [];
  warned_once = false;
  ready = false;
}

unfoldable pub run : Libraries → Flags → Checked Wiring
run lib f = do
  service ← mode_of "--service-discovery" (parse_mode f.service_mode)
  route ← mode_of "--ingressroute-discovery" (parse_mode f.ingress_route_mode)
  tcp ← mode_of "--ingressroutetcp-discovery" (parse_mode f.ingress_route_tcp_mode)
  overrides ← ports_of (parse_entrypoint_ports f.entrypoint_ports)
  refs ← refs_of (parse_traefik_services f.traefik_services)
  output ← unless (f.output == "") no_output
  base ← base_of (lib.load_base f.base_config)
  selector ← selector_of lib f.namespace_selector
  manager ← unless lib.manager_fails no_manager
  services ← set_up lib "service" (not (service == mode_disabled))
  routes ← set_up_route lib "IngressRoute" (not (route == mode_disabled))
  tcp_routes ← set_up_route lib "IngressRouteTCP" (not (tcp == mode_disabled))
  templates ← unless (lib.setup_fails "endpointtemplate") (not_set_up "endpointtemplate")
  loop ← unless (lib.setup_fails "render loop") (not_set_up "render loop")
  health ← unless (lib.setup_fails "healthz") (not_set_up "healthz")
  readiness ← unless (lib.setup_fails "readyz") (not_set_up "readyz")
  good (record {
    service = services;
    ingress_route = routes;
    ingress_route_tcp = tcp_routes;
    options = options_of f service route tcp;
    selector = selector;
    traefik_services = refs;
    overrides = overrides;
    default_scheme = default_scheme f.default_scheme;
    loop = new_loop f.output;
  })
