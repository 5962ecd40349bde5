-- ===== src/Discovery/IngressRoute.antt =====
-- internal/discovery/ingressroute.go: the endpoints of a Traefik IngressRoute, which is read as
-- unstructured data. The accessors of k8s.io/apimachinery and the lookup of a Service are
-- parameters. What the program returns beside an error is kept.
pub mod Clean
pub mod Covered
pub mod Distinct
pub mod Derive
use gatus_sidecar.Prelude.{
  ℕ, zero, suc, String, Bool, true, false, not, ◌&&◌, ◌||◌, Option, none, some, List, [], ◌∷◌, ◌++◌,
  ◌==◌, nat_eq, string_eq, ltb, num_eq, if◌then◌else◌,
}
use gatus_sidecar.Prelude.Assoc
use gatus_sidecar.Prelude.Assoc.{Assoc}
use gatus_sidecar.Prelude.Text.{concat, to_lower}
use gatus_sidecar.Value.{ℤ, Value, object, Items, no_items, item, Object}
use gatus_sidecar.Value.Number.{decimal_int}
use gatus_sidecar.Config.Endpoint.{Endpoint, source_ingress_route}
use gatus_sidecar.Discovery.Annotations.{
  Annotations, annotation, raw_annotation, is_present, Spec, Parsed, split_list,
}
use gatus_sidecar.Discovery.Annotations
use gatus_sidecar.Discovery.Specs.{Decoder, specs_from_annotations, endpoints_annotation}
use gatus_sidecar.Discovery.Naming.{display_name}
use gatus_sidecar.Discovery.Paths.{normalise_path, matches_any}
use gatus_sidecar.Discovery.Rule.{Tree, ParsedRule, parse_rule, is_seen}
use gatus_sidecar.Discovery.Service.{
  Options, enabled, excluded, or_empty_list, NamedPort, DiscoveryError, of_annotation,
  routes_unreadable, rule_unreadable, backend_unknown, of_backend, Found, found, failed,
  resolve_port, SpecContext, resolve_group, name_or, endpoints_from_specs,
}

-- A value, no value, or a value of another type.
pub data Read {ℓ} (A : Type ℓ) : Type ℓ where
  value : A → Read A
  missing : Read A
  unreadable : Read A

-- `unstructured.NestedSlice` and its like, for the path of keys given. Where the program drops the
-- error, no value is `none`.
pub record Accessors : Type 0 where
  pub nested_slice : Object → List String → Read Items
  pub nested_string : Object → List String → Option String
  pub nested_int64 : Object → List String → Option ℤ
  pub nested_map : Object → List String → Option Object
  pub nested_strings : Object → List String → Read (List String)

pub record Route : Type 0 where
  pub namespace : String
  pub name : String
  pub annotations : Annotations
  pub body : Object

pub record BackendRef : Type 0 where
  pub name : String
  pub namespace : String
  pub port : String
  pub path : String

pub record HostTarget : Type 0 where
  pub host : String
  pub path : String

-- The variables of `routeTargets`; of the maps `seenHost` and `seenSvc` the keys.
pub record Targets : Type 0 where
  pub hosts : List HostTarget
  pub backends : List BackendRef
  pub seen_hosts : List String
  pub seen_services : List String

abbrev pub no_targets : Targets
no_targets = record { hosts = []; backends = []; seen_hosts = []; seen_services = [] }

abbrev pub or_blank : Option String → String
or_blank none = ""
or_blank (some s) = s

-- What the program takes from outside: `path.Match`, the rule parser and the accessors.
pub record Outside : Type 0 where
  pub path_match : String → String → Bool
  pub parse : String → Option Tree
  pub access : Accessors

abbrev pub address_of : String → String → String
address_of host path = concat (host ∷ path ∷ [])

-- One round of the loop over the hosts of a rule: the targets, and how many hosts were dropped.
unfoldable pub add_target :
    (String → String → Bool) → List String → String → String → Targets × ℕ → Targets × ℕ
unfolding is_seen matches_any concat
add_target path_match skip path host (t, dropped) =
    if matches_any path_match skip (host ∷ address_of host path ∷ [])
    then (t, suc dropped)
    else if is_seen (address_of host path) t.seen_hosts
    then (t, dropped)
    else (
      record t {
        hosts = t.hosts ++ record { host = host; path = path } ∷ [];
        seen_hosts = address_of host path ∷ t.seen_hosts;
      },
      dropped,
    )

unfoldable pub add_targets :
    (String → String → Bool) → List String → String → List String → Targets × ℕ → Targets × ℕ
unfolding add_target
add_targets path_match skip path [] td = td
add_targets path_match skip path (host ∷ hosts) td =
    add_targets path_match skip path hosts (add_target path_match skip path host td)

-- A port that is written as a name, or as a number.
port_text : Option String → Option ℤ → String
port_text (some v) n = v
port_text none (some n) = decimal_int n
port_text none none = ""

unfoldable pub service_key : String → String → String → String
unfolding concat
service_key ns name port = concat (ns ∷ "/" ∷ name ∷ ":" ∷ port ∷ [])

-- The end of a round of the loop over the services of a route.
unfoldable pub add_backend : (String → String → Bool) → List String → BackendRef → Targets → Targets
unfolding service_key is_seen matches_any concat
add_backend path_match skip b t =
    if is_seen (service_key b.namespace b.name b.port) t.seen_services
    then t
    else if matches_any path_match skip (b.name ∷ concat (b.namespace ∷ "/" ∷ b.name ∷ []) ∷ [])
    then t
    else record t {
      backends = t.backends ++ b ∷ [];
      seen_services = service_key b.namespace b.name b.port ∷ t.seen_services;
    }

add_service : Outside → String → List String → String → Value → Targets → Targets
unfolding add_backend port_text
add_service out namespace skip path (object svc) t =
    let name = or_blank (out.access.nested_string svc ("name" ∷ [])) in
    let kind = or_blank (out.access.nested_string svc ("kind" ∷ [])) in
    let ns = or_blank (out.access.nested_string svc ("namespace" ∷ [])) in
    if name == ""
    then t
    else if not (kind == "") && not (kind == "Service")
    then t
    else add_backend out.path_match skip
        (record {
          name = name;
          namespace = if ns == "" then namespace else ns;
          port =
              port_text (out.access.nested_string svc ("port" ∷ []))
                (out.access.nested_int64 svc ("port" ∷ []));
          path = path;
        })
        t
add_service out namespace skip path _ t = t

add_services : Outside → String → List String → String → Items → Targets → Targets
unfolding add_service
add_services out namespace skip path no_items t = t
add_services out namespace skip path (item v services) t =
    add_services out namespace skip path services (add_service out namespace skip path v t)

items_read : Read Items → Items
items_read (value items) = items
items_read _ = no_items

unfoldable pub count {ℓ} : {A : Type ℓ} → List A → ℕ
count [] = 0
count (x ∷ xs) = suc (count xs)

-- A route whose rule is parsed.
unfoldable pub add_route : Outside → String → List String → Object → ParsedRule → Targets → Targets
unfolding add_targets add_services items_read count matches_any
add_route out namespace skip route rule t =
    let (t', dropped) = add_targets out.path_match skip rule.path rule.hosts (t, 0) in
    if not (rule.path == "") && matches_any out.path_match skip (rule.path ∷ [])
    then t
    else if ltb 0 (count rule.hosts) && num_eq dropped (count rule.hosts)
    then t'
    else add_services out namespace skip rule.path
        (items_read (out.access.nested_slice route ("services" ∷ []))) t'

with_rule : ℕ → (ParsedRule → Found Targets) → Option ParsedRule → Found Targets
with_rule i next none = failed (rule_unreadable i)
with_rule i next (some rule) = next rule

unfoldable pub add_routes : Outside → String → List String → ℕ → Items → Targets → Found Targets
unfolding add_route with_rule
add_routes out namespace skip i no_items t = found t
add_routes out namespace skip i (item (object route) routes) t =
    with_rule i
      (λ rule.
        add_routes out namespace skip (suc i) routes (add_route out namespace skip route rule t))
      (parse_rule out.parse (or_blank (out.access.nested_string route ("match" ∷ []))))
add_routes out namespace skip i (item _ routes) t = add_routes out namespace skip (suc i) routes t

skip_in : Option String → List String
skip_in none = []
skip_in (some v) = or_empty_list (split_list v)

targets_in : Outside → Route → Read Items → Found Targets
unfolding add_routes skip_in
targets_in out r unreadable = failed routes_unreadable
targets_in out r missing = found no_targets
targets_in out r (value routes) =
    add_routes out r.namespace (skip_in (annotation r.annotations "exclude-route")) 0 routes
      no_targets

unfoldable pub route_targets : Outside → Route → Found Targets
unfolding targets_in
route_targets out r = targets_in out r (out.access.nested_slice r.body ("spec" ∷ "routes" ∷ []))
