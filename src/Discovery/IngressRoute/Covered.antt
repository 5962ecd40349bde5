-- ===== src/Discovery/IngressRoute/Covered.antt =====
-- About `routeTargets` of internal/discovery/ingressroute.go: the addresses that it must not lose.
use gatus_sidecar.Prelude.{
  ℕ, suc, String, ◌≡◌, refl, sym, ap, ◌∙◌, subst, ◌⊎◌, inl, inr, Bool, true, not, ◌&&◌, Option,
  none, some, List, [], ◌∷◌, arith, ◌==◌, string_eq, ltb, num_eq, if_elim, All, All-map, beq_refl,
}
use gatus_sidecar.Value.{Value, object, Items, no_items, item, Object}
use gatus_sidecar.Discovery.Paths.{matches_any}
use gatus_sidecar.Discovery.Rule.{ParsedRule, parse_rule, is_seen}
use gatus_sidecar.Discovery.Service.{Found, found, failed}
use gatus_sidecar.Discovery.IngressRoute.{
  BackendRef, Targets, Outside, or_blank, address_of, add_target, add_targets, add_backend,
  add_service, add_services, items_read, count, add_route, with_rule, add_routes,
}
use gatus_sidecar.Discovery.IngressRoute.Clean.{skips_path}

-- The text of a route's rule.
abbrev pub rule_of : Outside → Object → String
rule_of out route = or_blank (out.access.nested_string route ("match" ∷ []))

-- No address is lost.
abbrev pub Keeps : Targets → Targets → Type 0
Keeps t t' = (a : String) → is_seen a t.seen_hosts ≡ true → is_seen a t'.seen_hosts ≡ true

module _ (path_match : String → String → Bool) (skip : List String) where
  -- The annotation names the host or the address, or the address has been collected.
  abbrev pub IsCovered : String → (String → Bool) → String → Type 0
  IsCovered path seen host =
      (matches_any path_match skip (host ∷ address_of host path ∷ []) ≡ true)
      ⊎ (seen (address_of host path) ≡ true)

  abbrev in_targets : Targets → String → Bool
  in_targets t a = is_seen a t.seen_hosts

  add_target-Keeps :
      (path host : String) (td : Targets × ℕ)
      → Keeps td.0 (add_target path_match skip path host td).0
  unfolding add_target is_seen
  add_target-Keeps path host td a h =
      if_elim (λ (r : Targets × ℕ). is_seen a r.0.seen_hosts ≡ true)
        (matches_any path_match skip (host ∷ address_of host path ∷ [])) _ _ (λ b. h)
        λ n.
          if_elim (λ (r : Targets × ℕ). is_seen a r.0.seen_hosts ≡ true)
            (is_seen (address_of host path) td.0.seen_hosts) _ _ (λ b. h) (λ m. ground arith)

  add_target-IsCovered :
      (path host : String) (td : Targets × ℕ)
      → IsCovered path (in_targets (add_target path_match skip path host td).0) host
  unfolding add_target is_seen
  add_target-IsCovered path host td =
      if_elim (λ (r : Targets × ℕ). IsCovered path (in_targets r.0) host)
        (matches_any path_match skip (host ∷ address_of host path ∷ [])) _ _ (λ b. inl b)
        λ n.
          if_elim (λ (r : Targets × ℕ). IsCovered path (in_targets r.0) host)
            (is_seen (address_of host path) td.0.seen_hosts) _ _ (λ b. inr b)
            (λ m. inr (rw (beq_refl (address_of host path)) refl))

  kept_cover :
      (path : String) (t t' : Targets)
      → Keeps t t'
      → (host : String) → IsCovered path (in_targets t) host
      → IsCovered path (in_targets t') host
  kept_cover path t t' k host (inl m) = inl m
  kept_cover path t t' k host (inr s) = inr (k (address_of host path) s)

  add_targets-Keeps :
      (path : String) (hosts : List String) (td : Targets × ℕ)
      → Keeps td.0 (add_targets path_match skip path hosts td).0
  unfolding add_targets
  add_targets-Keeps path [] td a h = h
  add_targets-Keeps path (host ∷ hosts) td a h =
      add_targets-Keeps path hosts (add_target path_match skip path host td) a
        (add_target-Keeps path host td a h)

  add_targets-IsCovered :
      (path : String) (hosts : List String) (td : Targets × ℕ)
      → All (IsCovered path (in_targets (add_targets path_match skip path hosts td).0)) hosts
  unfolding add_targets
  add_targets-IsCovered path [] td = tt
  add_targets-IsCovered path (host ∷ hosts) td = (
    kept_cover path (add_target path_match skip path host td).0
        (add_targets path_match skip path hosts (add_target path_match skip path host td)).0
        (add_targets-Keeps path hosts (add_target path_match skip path host td)) host
        (add_target-IsCovered path host td),
    add_targets-IsCovered path hosts (add_target path_match skip path host td),
  )

module _ (out : Outside) (namespace : String) (skip : List String) where
  add_backend-seen_hosts :
      (b : BackendRef) (t : Targets)
      → (add_backend out.path_match skip b t).seen_hosts ≡ t.seen_hosts
  unfolding add_backend
  add_backend-seen_hosts b t = ground arith

  add_service-seen_hosts :
      (path : String) (v : Value) (t : Targets)
      → (add_service out namespace skip path v t).seen_hosts ≡ t.seen_hosts
  unfolding add_service
  add_service-seen_hosts path (object svc) t =
      if_elim (λ (r : Targets). r.seen_hosts ≡ t.seen_hosts)
        (or_blank (out.access.nested_string svc ("name" ∷ [])) == "") t _ (λ b. refl)
        λ b.
          if_elim (λ (r : Targets). r.seen_hosts ≡ t.seen_hosts)
            (not (or_blank (out.access.nested_string svc ("kind" ∷ [])) == "")
              && not (or_blank (out.access.nested_string svc ("kind" ∷ [])) == "Service"))
            t _ (λ b. refl) (λ b. add_backend-seen_hosts _ t)
  add_service-seen_hosts path _ t = refl

  add_services-seen_hosts :
      (path : String) (items : Items) (t : Targets)
      → (add_services out namespace skip path items t).seen_hosts ≡ t.seen_hosts
  unfolding add_services
  add_services-seen_hosts path no_items t = refl
  add_services-seen_hosts path (item v items) t =
      add_services-seen_hosts path items (add_service out namespace skip path v t)
      ∙ add_service-seen_hosts path v t

  -- What a round of the loop over the routes does: all addresses of a rule that the annotation does not
  -- name by its path are covered.
  abbrev Rounds : ParsedRule → Targets → Targets → Type 0
  Rounds rule t t' =
      Keeps t t'
      × ((skips_path out.path_match skip rule.path ≡ true)
          ⊎ All (IsCovered out.path_match skip rule.path (λ a. is_seen a t'.seen_hosts)) rule.hosts)

  add_route-Rounds :
      (route : Object) (rule : ParsedRule) (t : Targets)
      → Rounds rule t (add_route out namespace skip route rule t)
  unfolding add_route
  add_route-Rounds route rule t =
      if_elim (Rounds rule t) (skips_path out.path_match skip rule.path) t _
        (λ b. (λ a h. h, inl b))
        λ p.
          let td = add_targets out.path_match skip rule.path rule.hosts (t, 0) in
          let keeps = add_targets-Keeps out.path_match skip rule.path rule.hosts (t, 0) in
          let covered = add_targets-IsCovered out.path_match skip rule.path rule.hosts (t, 0) in
          if_elim (Rounds rule t) (ltb 0 (count rule.hosts) && num_eq td.1 (count rule.hosts)) td.0
            _ (λ b. (keeps, inr covered))
            (λ b.
              let same =
                add_services-seen_hosts rule.path
                  (items_read (out.access.nested_slice route ("services" ∷ []))) td.0 in
              (
                (λ a h. ap (is_seen a) same ∙ keeps a h),
                inr (
                    subst
                      (λ l.
                        All (IsCovered out.path_match skip rule.path (λ a. is_seen a l)) rule.hosts)
                      (sym same) covered),
              ))

  -- The rule of a route has been parsed, and is covered.
  abbrev pub IsRouteCovered : (String → Bool) → Object → Type 0
  IsRouteCovered seen route =
      (rule : ParsedRule) × (parse_rule out.parse (rule_of out route) ≡ some rule)
      × ((skips_path out.path_match skip rule.path ≡ true)
          ⊎ All (IsCovered out.path_match skip rule.path seen) rule.hosts)

  -- All routes are, where one that is not a mapping is passed over.
  abbrev pub AreCovered : (String → Bool) → Items → Type 0
  AreCovered seen no_items = Unit
  AreCovered seen (item (object route) routes) = IsRouteCovered seen route × AreCovered seen routes
  AreCovered seen (item _ routes) = AreCovered seen routes

  abbrev seen_by : Targets → String → Bool
  seen_by t a = is_seen a t.seen_hosts

  -- After the rest of the loop.
  abbrev pub Covers : Targets → Items → Found Targets → Type 0
  Covers t routes (found t') = Keeps t t' × AreCovered (seen_by t') routes
  Covers t routes (failed e) = Unit

  covered_then :
      (route : Object) (routes : Items) (rule : ParsedRule) (t t₁ : Targets) (f : Found Targets)
      → parse_rule out.parse (rule_of out route) ≡ some rule
      → Rounds rule t t₁
      → Covers t₁ routes f
      → Covers t (item (object route) routes) f
  covered_then route routes rule t t₁ (failed e) h r c = tt
  covered_then route routes rule t t₁ (found t') h r c = (
    (λ a s. c.0 a (r.0 a s)),
    (
      (
        rule,
        h,
        elim r.1 [
          | inl p ↦ inl p
          | inr l ↦
              inr (All-map _ _ (kept_cover out.path_match skip rule.path t₁ t' c.0) rule.hosts l)
        ],
      ),
      c.1,
    ),
  )

  with_rule-Covers :
      (i : ℕ) (route : Object) (routes : Items) (t : Targets) (next : ParsedRule → Found Targets)
      (r : Option ParsedRule)
      → parse_rule out.parse (rule_of out route) ≡ r
      → ((rule : ParsedRule)
          → Covers (add_route out namespace skip route rule t) routes (next rule))
      → Covers t (item (object route) routes) (with_rule i next r)
  unfolding with_rule
  with_rule-Covers i route routes t next none h f = tt
  with_rule-Covers i route routes t next (some rule) h f =
      covered_then route routes rule t (add_route out namespace skip route rule t) (next rule) h
        (add_route-Rounds route rule t) (f rule)

  pub add_routes-Covers :
      (i : ℕ) (routes : Items) (t : Targets)
      → Covers t routes (add_routes out namespace skip i routes t)
  unfolding add_routes
  add_routes-Covers i no_items t = ((λ a h. h), tt)
  add_routes-Covers i (item (object route) routes) t =
      with_rule-Covers i route routes t
        (λ rule.
          add_routes out namespace skip (suc i) routes (add_route out namespace skip route rule t))
        _ refl
        (λ rule. add_routes-Covers (suc i) routes (add_route out namespace skip route rule t))
  add_routes-Covers i (item _ routes) t = add_routes-Covers (suc i) routes t
