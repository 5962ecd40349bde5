-- ===== src/Discovery/Tests.antt =====
-- Objects and rules to try internal/discovery on.
use gatus_sidecar.Prelude.{
  String, ◌≡◌, refl, ◌≢◌, Bool, true, false, Option, none, some, [], ◌∷◌, ◌==◌, string_eq,
}
use gatus_sidecar.Prelude.Assoc
use gatus_sidecar.Prelude.Text.{trim_space}
use gatus_sidecar.Value.{Items, no_items, item, object, Object, no_fields, field, text, pos}
use gatus_sidecar.Value.Fields.{HasUniqueFields}
use gatus_sidecar.Discovery.Annotations.{Spec, spec_from_object}
use gatus_sidecar.Discovery.Annotations.Keys.{patch_fields, Splits, spec_from_object-Splits}
use gatus_sidecar.Discovery.Specs.Inherit.{Inherits, inherit-Inherits}
use gatus_sidecar.Discovery.Entrypoints.{TraefikService, EntrypointPorts, port}
use gatus_sidecar.Discovery.Entrypoints.Agreement.{published, Agrees, port-Agrees}
use gatus_sidecar.Discovery.IngressRoute.{value, missing, Accessors, Route, Outside, route_targets}
use gatus_sidecar.Discovery.IngressRoute.Distinct.{Collects, route_targets-Collects}
use gatus_sidecar.Discovery.Rule.{Tree, nil, tree, ParsedRule, parse_rule}
use gatus_sidecar.Discovery.Rule.Hosts.{HasHosts, parse_rule-HasHosts}
use gatus_sidecar.Discovery.Service.{Options, Service, NamedPort, from_service, mode_opt_in}
use gatus_sidecar.Discovery.Service.Ports.{Gives, from_service-Gives}
use gatus_sidecar.Discovery.Specs.{Decoder, inherit}

abbrev internal : TraefikService
internal = record { namespace = "traefik"; name = "internal"; ports = ("mqtt", 1883) ∷ [] }

abbrev external : TraefikService
external = record { namespace = "traefik"; name = "external"; ports = ("mqtt", 8883) ∷ [] }

abbrev entrypoints : EntrypointPorts
entrypoints = record { overrides = ("web", 8080) ∷ []; services = internal ∷ external ∷ [] }

not_overridden : Assoc.lookup "mqtt" entrypoints.overrides ≡ none
unfolding Assoc.lookup
not_overridden = refl

port-Agrees_example :
    Agrees "mqtt" (published "mqtt" entrypoints.services) (port entrypoints "mqtt" "")
port-Agrees_example = port-Agrees entrypoints "mqtt" not_overridden

-- Host(`a.example.org`) && !Host(`b.example.org`)
abbrev rule_tree : Tree
rule_tree =
    tree "and" false [] (tree "Host" false ("a.example.org" ∷ []) nil nil)
      (tree "Host" true ("b.example.org" ∷ []) nil nil)

abbrev parse : String → Option Tree
parse rule = some rule_tree

abbrev rule : String
rule = "Host(`a.example.org`) && !Host(`b.example.org`)"

rule_there : trim_space rule ≢ ""
unfolding trim_space
rule_there h = cc

parse_rule-HasHosts_example :
    (r : ParsedRule) × ((parse_rule parse rule ≡ some r) × HasHosts rule_tree r.hosts)
parse_rule-HasHosts_example = parse_rule-HasHosts parse rule rule_tree rule_there refl

abbrev http : NamedPort
http = record { name = "http"; port = 8080 }

abbrev metrics : NamedPort
metrics = record { name = "metrics"; port = 9090 }

abbrev wanted : String
wanted = "http"

abbrev exact_match : String → String → Bool
exact_match pattern name = pattern == name

abbrev no_yaml : Decoder
no_yaml = record { decode_any = λ raw. none; decode_list = λ raw. none }

abbrev options : Options
options = record {
  service_mode = mode_opt_in;
  ingress_route_mode = mode_opt_in;
  ingress_route_tcp_mode = mode_opt_in;
  group_from_namespace = true;
  cluster_domain = "cluster.local";
  external_suffix = " (external)";
}

abbrev service : Service
service = record {
  namespace = "shop";
  name = "api";
  annotations =
      ("gatus.kalexlab.xyz/enabled", "true") ∷ ("gatus.kalexlab.xyz/port", "metrics") ∷ [];
  is_external_name = false;
  ports = http ∷ metrics ∷ [];
}

from_service-Gives_example :
    Gives exact_match no_yaml options service ""
      (from_service exact_match no_yaml options service "")
from_service-Gives_example = from_service-Gives exact_match no_yaml options service ""

-- Accessors that find two routes in every object, each with the rule above.
abbrev accessors : Accessors
accessors = record {
  nested_slice = λ o path. value (item (object no_fields) (item (object no_fields) no_items));
  nested_string = λ o path. some "api";
  nested_int64 = λ o path. none;
  nested_map = λ o path. none;
  nested_strings = λ o path. missing;
}

abbrev outside : Outside
outside = record { path_match = exact_match; parse = parse; access = accessors }

abbrev route : Route
route = record {
  namespace = "shop";
  name = "api";
  annotations = ("gatus.kalexlab.xyz/exclude-route", "c.example.org") ∷ [];
  body = no_fields;
}

route_targets-Collects_example : Collects outside route (route_targets outside route)
route_targets-Collects_example = route_targets-Collects outside route

-- An item of the endpoints annotation.
abbrev item_object : Object
item_object =
    field "name" (text "Metrics")
      (field "port" (text "metrics") (field "interval" (text "30s") no_fields))

spec_from_object-Splits_example : Splits item_object (spec_from_object item_object)
spec_from_object-Splits_example = spec_from_object-Splits item_object

abbrev blank : Spec
blank = record {
  name = "";
  group = "";
  group_set = false;
  url = "";
  scheme = "";
  port = "";
  path = "";
  templates = none;
  templates_set = false;
  extra_templates = none;
  patch = none;
}

abbrev own_spec : Spec
own_spec = record blank {
  name = "Metrics";
  port = "metrics";
  patch = some (field "interval" (text "30s") no_fields);
}

abbrev shared_spec : Spec
shared_spec = record blank {
  name = "Api";
  group = "Shop";
  group_set = true;
  patch = some item_object;
}

own_spec-HasUniqueFields : HasUniqueFields (patch_fields own_spec.patch)
unfolding gatus_sidecar.Value.Fields.get
own_spec-HasUniqueFields = (refl, tt)

inherit-Inherits_example : Inherits own_spec shared_spec (inherit own_spec shared_spec)
inherit-Inherits_example = inherit-Inherits own_spec shared_spec own_spec-HasUniqueFields
