-- ===== src/Controller/Tests/Startup.antt =====
-- A cluster to prime from, and a start whose listing of routes fails.
use gatus_sidecar.Prelude.{
  String, ◌≡◌, refl, true, false, none, some, [], ◌∷◌, ◌==◌, string_eq, if◌then◌else◌,
}
use gatus_sidecar.Value.{no_fields}
use gatus_sidecar.Config.Writer.{loaded}
use gatus_sidecar.Registry.{Registry}
use gatus_sidecar.Controller.Reconcile.{Fetched, there, not_found}
use gatus_sidecar.Controller.Cluster.{
  reconcile_service_in, reconcile_ingress_route_in, reconcile_ingress_route_tcp_in, KubeService,
  Client, Reconciler,
}
use gatus_sidecar.Controller.Primer.{Primer, not_listed, primed, prime}
use gatus_sidecar.Controller.Primer.Steady.{AreSteady, primed-AreSteady}
use gatus_sidecar.Controller.Primer.Wanted.{
  service_wanted, ingress_route_wanted, ingress_route_tcp_wanted,
}
use gatus_sidecar.Controller.Primer.Complete.{swept_services}
use gatus_sidecar.Controller.Primer.Fresh.{Finishes, prime-Finishes}
use gatus_sidecar.Controller.RenderLoop.{LoopReport}
use gatus_sidecar.Controller.Startup.{Hooks, looping, start_up}
use gatus_sidecar.Controller.Startup.FirstRender.{
  StartsUp, StartsLoop, start_up-StartsUp, unlisted-renders,
}
use gatus_sidecar.Controller.Tests.{
  shop, api, loop, faults, files, decoder, marshal, describe, registry, options, no_yaml, namespace,
  everything, outside, route,
}

abbrev pub kube_service : KubeService
kube_service = record {
  namespace = "shop";
  name = "api";
  annotations = [];
  labels = [];
  is_external_name = false;
  is_node_port = false;
  ports = record { name = "http"; port = 8080; node_port = 0 } ∷ [];
}

abbrev found_service : String → Fetched KubeService
found_service name = if name == "api" then there kube_service else not_found

abbrev client : Client
client = record {
  get_service = λ ns name. found_service name;
  get_namespace = λ name. there namespace;
  get_ingress_route = λ ns name. there route;
  get_ingress_route_tcp = λ ns name. not_found;
  list_services = λ ns. some (kube_service ∷ []);
  list_ingress_routes = λ ns. none;
  list_ingress_route_tcps = λ ns. some [];
  list_labelled = λ matches. some [];
  traefik_label = some (λ labels. false);
}

abbrev pub reconciler : Reconciler
reconciler = record {
  client = client;
  outside = outside;
  decoder = no_yaml;
  options = options;
  selector = everything;
  traefik_services = [];
  overrides = [];
}

-- The Services are primed, and the routes cannot be listed.
abbrev primer : Primer
primer = record {
  reconciler = reconciler;
  service = true;
  ingress_route = true;
  ingress_route_tcp = false;
}

abbrev services_only : Primer
services_only = record primer { ingress_route = false }

prime-Finishes_example : Finishes (prime services_only registry)
prime-Finishes_example = prime-Finishes services_only false (tt, tt) tt tt

abbrev hooks : Hooks
hooks = record { synced = some true; primer = some primer }

start_up-StartsUp_example :
    StartsUp decoder "http" marshal describe faults loop files
      (loaded no_fields)
      (some [])
      hooks
      registry
      (start_up decoder "http" marshal describe faults loop files
        (loaded no_fields)
        (some [])
        hooks
        registry)
start_up-StartsUp_example =
    start_up-StartsUp decoder "http" marshal describe faults loop files (loaded no_fields) (some [])
      hooks registry refl

abbrev routes_only : Primer
routes_only = record primer { service = false }

abbrev unlisted_hooks : Hooks
unlisted_hooks = record { synced = some true; primer = some routes_only }

no_routes : prime routes_only registry ≡ not_listed "IngressRoute" registry
unfolding prime
no_routes = refl

unlisted-renders_example :
    (r' : Registry) × (report : LoopReport) × (start_up decoder "http" marshal describe faults loop
        files
        (loaded no_fields)
        (some [])
        unlisted_hooks
        registry
      ≡ looping (some "IngressRoute") r' report)
    × StartsLoop decoder "http" marshal describe faults loop files
        (loaded no_fields)
        (some [])
        unlisted_hooks
        registry
        (some "IngressRoute")
        r'
        report
unlisted-renders_example =
    unlisted-renders decoder "http" marshal describe faults loop files (loaded no_fields) (some [])
      routes_only registry registry "IngressRoute" refl no_routes

abbrev primed_registry : Registry
primed_registry = record {
  entries = (shop, record api { templates = []; templates_set = false } ∷ []) ∷ [];
  changed = true;
  locked = false;
}

services_primed : prime services_only registry ≡ primed 1 0 0 primed_registry
unfolding prime gatus_sidecar.Controller.Primer.sweep
    gatus_sidecar.Controller.Cluster.reconcile_service_in
    gatus_sidecar.Discovery.Service.from_service gatus_sidecar.Discovery.Annotations.annotation
    gatus_sidecar.Discovery.Annotations.raw_annotation gatus_sidecar.Prelude.Assoc.lookup
    gatus_sidecar.Discovery.Specs.parse_shortcuts gatus_sidecar.Registry.set
    gatus_sidecar.Prelude.Assoc.put gatus_sidecar.Discovery.Service.name_or
    gatus_sidecar.Discovery.Service.resolve_group gatus_sidecar.Prelude.Text.trim_space
    gatus_sidecar.Prelude.Text.contains_func gatus_sidecar.Prelude.Text.is_upper
    gatus_sidecar.Prelude.Text.fields_func gatus_sidecar.Discovery.Naming.is_word_separator
    gatus_sidecar.Prelude.Text.capitalise gatus_sidecar.Prelude.Text.join
services_primed = refl

primed-AreSteady_example :
    AreSteady
      (service_wanted reconciler)
      (reconcile_service_in reconciler)
      (swept_services services_only)
      primed_registry
    × AreSteady
        (ingress_route_wanted reconciler)
        (reconcile_ingress_route_in reconciler)
        []
        primed_registry
    × AreSteady
        (ingress_route_tcp_wanted reconciler)
        (reconcile_ingress_route_tcp_in reconciler)
        []
        primed_registry
primed-AreSteady_example =
    primed-AreSteady services_only registry primed_registry 1 0 0 refl services_primed
