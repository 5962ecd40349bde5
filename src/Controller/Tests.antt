-- ===== src/Controller/Tests.antt =====
-- A loop and its world to try internal/controller on.
mod Startup
mod Events
mod Settling
mod TemplateStatus
use gatus_sidecar.Prelude.{
  ℕ, String, ◌≡◌, refl, Bool, true, false, Option, none, some, List, [], ◌∷◌, ◌==◌, string_eq,
}
use gatus_sidecar.Value.{pos, object, Object, no_fields, item, no_items}
use gatus_sidecar.Config.Endpoint.{Endpoint, source_service}
use gatus_sidecar.Config.Render.{Warning}
use gatus_sidecar.Config.Template.{Decoded, decoded}
use gatus_sidecar.Config.Writer.{loaded, Files, Faults}
use gatus_sidecar.Discovery.Entrypoints.{EntrypointPorts}
use gatus_sidecar.Discovery.IngressRoute.{Route, Outside, value}
use gatus_sidecar.Discovery.IngressRoute.Derive.{Resolver, from_ingress_route}
use gatus_sidecar.Discovery.IngressRouteTcp.{from_ingress_route_tcp}
use gatus_sidecar.Discovery.Rule.{Tree, nil, tree}
use gatus_sidecar.Discovery.Service.{Options, Service, from_service}
use gatus_sidecar.Discovery.Specs.{Decoder}
use gatus_sidecar.Controller.Reconcile.{
  there, not_found, Namespace, Selector, reconcile_service, reconcile_ingress_route,
  reconcile_ingress_route_tcp,
}
use gatus_sidecar.Controller.Reconcile.Contribution.{
  InLine, contribution, endpoints_found, tcp_contribution, key_of, reconcile_service-InLine,
  reconcile_route-InLine,
}
use gatus_sidecar.Controller.RenderLoop.{Loop, silent, warn, render_loop}
use gatus_sidecar.Controller.RenderLoop.Publishing.{Publishes, render_loop-Publishes, warn_once}
use gatus_sidecar.Controller.TemplateStatus.{
  Condition, Status, Statuses, update_status, patched, condition_ready,
}
use gatus_sidecar.Controller.TemplateStatus.Quiet.{update_twice, patched-keeps_time}
use gatus_sidecar.Controller.Wakeup.{
  World, Steps, done, next, received, fired, snapshot, ended, signalled, stored, waiting, rendering,
  publishing, started, quiet-is_current,
}
use gatus_sidecar.Registry.{Registry, notify, store}
use gatus_sidecar.Registry.Order.{Key}

abbrev api : Endpoint
api = record {
  source = source_service;
  source_ref = "shop/api";
  name = "Api";
  group = "Shop";
  url = "";
  host = "api.shop.svc.cluster.local";
  port = 8080;
  path = "";
  scheme = "";
  templates = "missing" ∷ [];
  templates_set = true;
  extra_templates = [];
  patch = none;
}

abbrev loop : Loop
loop = record {
  writer = record { path = "/config/gatus.yaml"; last = none };
  last_warnings = [];
  warned_once = false;
  ready = false;
}

abbrev faults : Faults
faults = record {
  read_file = false;
  make_directory = false;
  create_temp = false;
  write_temp = false;
  partial = "";
  sync = false;
  close = false;
  change_mode = false;
  rename = true;
  remove_temp = false;
}

abbrev files : Files
files = record { target = none; temp = none }

abbrev decoder : String → Decoded
decoder raw = decoded none

abbrev marshal : Object → Option String
marshal o = some "endpoints: []"

abbrev describe : Warning → String
describe w = "skipped"

render_loop-Publishes_example :
    Publishes decoder "http" marshal loop files (loaded no_fields) (some []) (api ∷ []) (
      render_loop decoder "http" marshal describe faults loop files
        (loaded no_fields)
        (some [])
        (api ∷ []))
render_loop-Publishes_example =
    render_loop-Publishes decoder "http" marshal describe faults loop files (loaded no_fields)
      (some []) (api ∷ [])

abbrev shop : Key
shop = record { kind = "Service"; namespace = "shop"; name = "api" }

abbrev registry : Registry
registry = record { entries = []; changed = false; locked = false }

abbrev filled : Registry
filled = record registry { entries = (shop, api ∷ []) ∷ [] }

-- After the first render, `Set` is called, and its change is rendered.
abbrev first : World
first = record (started registry 0) { phase = publishing; rendered = [] }

abbrev idle : World
idle = record first { phase = waiting }

abbrev changing : World
changing = record idle { registry = filled; in_flight = 1 }

abbrev told : World
told = record changing { registry = record filled { changed = true }; in_flight = 0 }

abbrev timed : World
timed = record told { registry = filled; pending = true }

abbrev busy : World
busy = record timed { pending = false; phase = rendering }

abbrev seen : World
seen = record busy { phase = publishing; rendered = filled.entries }

abbrev settled : World
settled = record seen { phase = waiting }

run : Steps (started registry 0) settled
unfolding notify store gatus_sidecar.Prelude.Assoc.lookup gatus_sidecar.Prelude.Assoc.put
run =
    next _ _ _
      (next _ _ _
        (next _ _ _
          (next _ _ _
            (next _ _ _
              (next _ _ _
                (next _ _ _ (next _ _ _ (done _) (snapshot (started registry 0) refl))
                  (ended first false refl))
                (stored idle shop (api ∷ []) filled refl))
              (signalled changing 0 refl))
            (received told refl refl))
          (fired timed refl refl))
        (snapshot busy refl))
      (ended seen false refl)

quiet-is_current_example : settled.registry.entries ≡ settled.rendered
quiet-is_current_example = quiet-is_current registry 0 settled run refl refl refl refl refl

abbrev no_match : String → String → Bool
no_match pattern name = false

abbrev no_yaml : Decoder
no_yaml = record { decode_any = λ raw. none; decode_list = λ raw. none }

abbrev options : Options
options = record {
  service_mode = "auto";
  ingress_route_mode = "auto";
  ingress_route_tcp_mode = "auto";
  group_from_namespace = true;
  cluster_domain = "cluster.local";
  external_suffix = " (external)";
}

abbrev service : Service
service = record {
  namespace = "shop";
  name = "api";
  annotations = [];
  is_external_name = false;
  ports = record { name = "http"; port = 8080 } ∷ [];
}

abbrev namespace : Namespace
namespace = record { annotations = ("gatus.kalexlab.xyz/group", "Shop") ∷ []; labels = [] }

abbrev everything : Selector
everything = none

reconcile_service-InLine_example :
    InLine filled
      (key_of "Service" "shop" "api")
      (contribution everything
        (λ s group. some (endpoints_found (from_service no_match no_yaml options s group)))
        (there service)
        (there namespace))
      (reconcile_service no_match no_yaml options everything filled "shop" "api"
        (there service)
        (there namespace))
reconcile_service-InLine_example =
    reconcile_service-InLine no_match no_yaml options everything filled "shop" "api" (there service)
      (there namespace) refl

abbrev rule_tree : Tree
rule_tree = tree "Host" false ("shop.example.org" ∷ []) nil nil

-- Accessors that find one route, whose fields all read "api", in every object.
abbrev outside : Outside
outside = record {
  path_match = no_match;
  parse = λ rule. some rule_tree;
  access = record {
    nested_slice = λ o path. value (item (object no_fields) no_items);
    nested_string = λ o path. some "api";
    nested_int64 = λ o path. none;
    nested_map = λ o path. none;
    nested_strings = λ o path. value ("websecure" ∷ []);
  };
}

abbrev route : Route
route = record { namespace = "shop"; name = "web"; annotations = []; body = no_fields }

abbrev ports : Option EntrypointPorts
ports = some (record { overrides = []; services = [] })

abbrev resolver : Resolver
resolver = none

reconcile_route-InLine_example :
    InLine filled
      (key_of "IngressRoute" "shop" "web")
      (contribution everything
        (λ a group. some (from_ingress_route outside no_yaml options a group resolver).endpoints)
        (there route)
        not_found)
      (reconcile_ingress_route outside no_yaml options resolver everything filled "shop" "web"
        (there route)
        not_found)
    × InLine filled
        (key_of "IngressRouteTCP" "shop" "web")
        (contribution everything
          (λ a group.
            tcp_contribution
              (λ p. (from_ingress_route_tcp outside no_yaml options a group resolver p).endpoints)
              ports)
          (there route)
          not_found)
        (reconcile_ingress_route_tcp outside no_yaml options resolver ports everything filled "shop"
          "web"
          (there route)
          not_found)
reconcile_route-InLine_example =
    reconcile_route-InLine outside no_yaml options resolver ports everything filled "shop" "web"
      (there route) not_found refl
