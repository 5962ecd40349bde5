-- ===== src/Discovery/IngressRoute/Distinct.antt =====
-- About `routeTargets` of internal/discovery/ingressroute.go.
use mathlib.Core.Path.{fun_ext}
use gatus_sidecar.Prelude.{
  map, subst, sym, arith, false, zero, ap, ◌∙◌, ◌+◌, ℕ, suc, String, ◌≡◌, refl, not, ◌&&◌, Option,
  none, some, List, [], ◌∷◌, ◌==◌, string_eq, ltb, num_eq, if_elim,
}
use gatus_sidecar.Value.{Value, object, Items, no_items, item, Object}
use gatus_sidecar.Discovery.Annotations.{annotation}
use gatus_sidecar.Discovery.Rule.{ParsedRule, parse_rule, is_seen}
use gatus_sidecar.Discovery.Service.{
  DiscoveryError, routes_unreadable, rule_unreadable, Found, found, failed,
}
use gatus_sidecar.Discovery.IngressRoute.{
  Read, value, missing, unreadable, Route, Targets, no_targets, Outside, or_blank, add_targets,
  add_service, add_services, items_read, count, add_route, with_rule, add_routes, skip_in,
  targets_in, route_targets,
}
use gatus_sidecar.Discovery.IngressRoute.Covered.{rule_of, AreCovered, Covers, add_routes-Covers}
use gatus_sidecar.Discovery.IngressRoute.Clean.{
  host_address, skips_path, AreDistinct, IsClean, add_targets-IsClean, add_backend-IsClean,
  start-IsClean,
}

abbrev pub item_at : ℕ → Items → Option Value
item_at n no_items = none
item_at zero (item v items) = some v
item_at (suc n) (item v items) = item_at n items

-- One of the routes, which are counted from a number on, has a rule that is not parsed, and is the one
-- that is reported.
pub record IsUnparsed (out : Outside) (i : ℕ) (routes : Items) (e : DiscoveryError) : Type 0 where
  pub index : ℕ
  pub route : Object
  pub there : item_at index routes ≡ some (object route)
  pub unparsed : parse_rule out.parse (rule_of out route) ≡ none
  pub reported : e ≡ rule_unreadable (i + index)

module _ (out : Outside) (namespace : String) (skip : List String) where
  abbrev Clean : Targets → Type 0
  Clean = IsClean out.path_match skip

  add_service-Clean :
      (path : String) (v : Value) (t : Targets)
      → skips_path out.path_match skip path ≡ false
      → Clean t
      → Clean (add_service out namespace skip path v t)
  unfolding add_service
  add_service-Clean path (object svc) t p c =
      if_elim Clean (or_blank (out.access.nested_string svc ("name" ∷ [])) == "") t _ (λ b. c)
        λ b.
          if_elim Clean
            (not (or_blank (out.access.nested_string svc ("kind" ∷ [])) == "")
              && not (or_blank (out.access.nested_string svc ("kind" ∷ [])) == "Service"))
            t _ (λ b. c) (λ b. add_backend-IsClean out.path_match skip _ t p c)
  add_service-Clean path _ t p c = c

  add_services-Clean :
      (path : String) (items : Items) (t : Targets)
      → skips_path out.path_match skip path ≡ false
      → Clean t
      → Clean (add_services out namespace skip path items t)
  unfolding add_services
  add_services-Clean path no_items t p c = c
  add_services-Clean path (item v items) t p c =
      add_services-Clean path items _ p (add_service-Clean path v t p c)

  add_route-Clean :
      (route : Object) (rule : ParsedRule) (t : Targets)
      → Clean t
      → Clean (add_route out namespace skip route rule t)
  unfolding add_route
  add_route-Clean route rule t c =
      if_elim Clean (skips_path out.path_match skip rule.path) t _ (λ b. c)
        λ p.
          let c' = add_targets-IsClean out.path_match skip rule.path rule.hosts (t, 0) p c in
          if_elim Clean
            (ltb 0 (count rule.hosts)
              && num_eq (add_targets out.path_match skip rule.path rule.hosts (t, 0)).1
                  (count rule.hosts))
            (add_targets out.path_match skip rule.path rule.hosts (t, 0)).0 _ (λ b. c')
            (λ b.
              add_services-Clean rule.path
                (items_read (out.access.nested_slice route ("services" ∷ []))) _ p c')

  -- A failure is that of a rule that is not parsed.
  abbrev FoundClean : ℕ → Items → Found Targets → Type 0
  FoundClean i routes (found t) = Clean t
  FoundClean i routes (failed e) = IsUnparsed out i routes e

  later_unparsed :
      (i : ℕ) (v : Value) (routes : Items) (f : Found Targets)
      → FoundClean (suc i) routes f
      → FoundClean i (item v routes) f
  later_unparsed i v routes (found t) c = c
  later_unparsed i v routes (failed e) u = record {
    index = suc u.index;
    route = u.route;
    there = u.there;
    unparsed = u.unparsed;
    reported = u.reported ∙ ap rule_unreadable (omega arith);
  }

  with_rule-Clean :
      (i : ℕ) (route : Object) (routes : Items) (next : ParsedRule → Found Targets)
      (r : Option ParsedRule)
      → parse_rule out.parse (rule_of out route) ≡ r
      → ((parsed : ParsedRule) → FoundClean i (item (object route) routes) (next parsed))
      → FoundClean i (item (object route) routes) (with_rule i next r)
  unfolding with_rule
  with_rule-Clean i route routes next none h f = record {
    index = 0;
    route = route;
    there = refl;
    unparsed = h;
    reported = ap rule_unreadable (omega arith);
  }
  with_rule-Clean i route routes next (some parsed) h f = f parsed

  add_routes-Clean :
      (i : ℕ) (routes : Items) (t : Targets)
      → Clean t
      → FoundClean i routes (add_routes out namespace skip i routes t)
  unfolding add_routes
  add_routes-Clean i no_items t c = c
  add_routes-Clean i (item (object route) routes) t c =
      with_rule-Clean i route routes
        (λ rule.
          add_routes out namespace skip (suc i) routes (add_route out namespace skip route rule t))
        _ refl
        (λ rule. later_unparsed i (object route) routes _ (
          add_routes-Clean (suc i) routes (add_route out namespace skip route rule t)
            (add_route-Clean route rule t c)))
  add_routes-Clean i (item v routes) t c =
      later_unparsed i v routes _ (add_routes-Clean (suc i) routes t c)

-- The entries of the exclude-route annotation.
pub skip_list : Route → List String
skip_list r = skip_in (annotation r.annotations "exclude-route")

-- What is collected from the routes that are read, or why nothing is.
abbrev pub CollectsFrom : Outside → Route → Read Items → Found Targets → Type 0
CollectsFrom out r (value routes) (found t) =
    AreDistinct out.path_match (skip_list r) t
    × AreCovered out r.namespace (skip_list r) (λ a. is_seen a (map host_address t.hosts)) routes
CollectsFrom out r (value routes) (failed e) = IsUnparsed out 0 routes e
CollectsFrom out r missing f = f ≡ found no_targets
CollectsFrom out r unreadable f = f ≡ failed routes_unreadable

abbrev pub Collects : Outside → Route → Found Targets → Type 0
Collects out r f = CollectsFrom out r (out.access.nested_slice r.body ("spec" ∷ "routes" ∷ [])) f

cleaned :
    (out : Outside) (r : Route) (routes : Items) (f : Found Targets)
    → FoundClean out r.namespace (skip_list r) 0 routes f
    → Covers out r.namespace (skip_list r) no_targets routes f
    → CollectsFrom out r (value routes) f
cleaned out r routes (found t) c k = (
  c.distinct,
  subst (λ seen. AreCovered out r.namespace (skip_list r) seen routes) (sym (fun_ext c.seen_hosts))
      k.1,
)
cleaned out r routes (failed e) c k = c

-- `routeTargets` collects no address twice and no backend twice, and none that the exclude-route
-- annotation names: an address by its host, by host and path or by the path of its rule, and a backend
-- by its name, by namespace and name or by the path of its rule. Every address of a rule that the
-- annotation does not name is collected. There is nothing where the object has no routes, and it fails
-- only if the routes cannot be read, or with the number of a route whose rule is not parsed.
pub route_targets-Collects : (out : Outside) (r : Route) → Collects out r (route_targets out r)
unfolding route_targets
route_targets-Collects out r = by_routes (out.access.nested_slice r.body ("spec" ∷ "routes" ∷ []))
  where
    by_routes : (routes : Read Items) → CollectsFrom out r routes (targets_in out r routes)
    by_routes unreadable = unfold targets_in in refl
    by_routes missing = unfold targets_in in refl
    by_routes (value routes) =
        unfold targets_in skip_list in
        cleaned out r routes _
          (add_routes-Clean out r.namespace (skip_list r) 0 routes no_targets
            (start-IsClean out.path_match (skip_list r)))
          (add_routes-Covers out r.namespace (skip_list r) 0 routes no_targets)
