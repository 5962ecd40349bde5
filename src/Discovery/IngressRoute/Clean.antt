-- ===== src/Discovery/IngressRoute/Clean.antt =====
-- About `routeTargets` of internal/discovery/ingressroute.go: one address or backend more.
use gatus_sidecar.Prelude.{
  not, ◌&&◌, ◌||◌, ◌==◌, string_eq, ℕ, String, ◌≡◌, refl, sym, ap, ◌∙◌, subst, Bool, false, List,
  [], ◌∷◌, ◌++◌, map, arith, string_eq, if_elim,
}
use gatus_sidecar.Prelude.Text.{concat}
use gatus_sidecar.Discovery.Paths.{matches_any}
use gatus_sidecar.Discovery.Rule.{is_seen}
use gatus_sidecar.Discovery.Rule.Collect.{IsDistinct, is_seen-append, IsDistinct-append}
use gatus_sidecar.Discovery.IngressRoute.{
  BackendRef, HostTarget, Targets, no_targets, address_of, add_target, add_targets, service_key,
  add_backend,
}

abbrev pub host_address : HostTarget → String
host_address h = address_of h.host h.path

abbrev pub backend_key : BackendRef → String
backend_key b = service_key b.namespace b.name b.port

abbrev pub AllHold {ℓ} : {A : Type ℓ} → (A → Bool) → List A → Type 0
AllHold p [] = Unit
AllHold p (x ∷ xs) = (p x ≡ false) × AllHold p xs

AllHold-append {ℓ} :
    {A : Type ℓ} (p : A → Bool) (x : A) (xs : List A)
    → AllHold p xs
    → p x ≡ false
    → AllHold p (xs ++ x ∷ [])
AllHold-append p x [] a h = (h, tt)
AllHold-append p x (y ∷ xs) a h = (a.0, AllHold-append p x xs a.1 h)

map-append {ℓ} :
    {A : Type ℓ} (f : A → String) (x : A) (xs : List A)
    → map f (xs ++ x ∷ []) ≡ map f xs ++ f x ∷ []
map-append f x [] = refl
map-append f x (y ∷ xs) = ap (◌∷◌ (f y)) (map-append f x xs)

module _ (path_match : String → String → Bool) (skip : List String) where
  -- The annotation names a rule, by the path that it serves.
  abbrev pub skips_path : String → Bool
  skips_path path = not (path == "") && matches_any path_match skip (path ∷ [])

  -- It names the address, by its host, by host and path, or by the path of its rule.
  abbrev pub skips_host : HostTarget → Bool
  skips_host h = skips_path h.path || matches_any path_match skip (h.host ∷ host_address h ∷ [])

  -- It names the backend, by its name, by namespace and name, or by the path of its rule.
  abbrev pub skips_backend : BackendRef → Bool
  skips_backend b =
      skips_path b.path
      || matches_any path_match skip (b.name ∷ concat (b.namespace ∷ "/" ∷ b.name ∷ []) ∷ [])

  pub record AreDistinct (t : Targets) : Type 0 where
    pub hosts : IsDistinct (map host_address t.hosts)
    pub backends : IsDistinct (map backend_key t.backends)
    pub no_skipped_host : AllHold skips_host t.hosts
    pub no_skipped_backend : AllHold skips_backend t.backends

  -- With the two maps of the loop, which have the keys of the targets.
  pub record IsClean (t : Targets) : Type 0 where
    pub distinct : AreDistinct t
    pub seen_hosts : (a : String) → is_seen a (map host_address t.hosts) ≡ is_seen a t.seen_hosts
    pub seen_services :
        (k : String) → is_seen k (map backend_key t.backends) ≡ is_seen k t.seen_services

  seen_extended {ℓ} :
      {A : Type ℓ} (f : A → String) (x : A) (xs : List A) (seen : List String)
      → ((a : String) → is_seen a (map f xs) ≡ is_seen a seen)
      → (a : String) → is_seen a (map f (xs ++ x ∷ [])) ≡ is_seen a (f x ∷ seen)
  unfolding is_seen
  seen_extended f x xs seen h a =
      ap (is_seen a) (map-append f x xs)
      ∙ is_seen-append a (f x) (map f xs)
      ∙ (rw (h a) (ground arith))

  IsDistinct-extended {ℓ} :
      {A : Type ℓ} (f : A → String) (x : A) (xs : List A) (seen : List String)
      → ((a : String) → is_seen a (map f xs) ≡ is_seen a seen)
      → IsDistinct (map f xs)
      → is_seen (f x) seen ≡ false
      → IsDistinct (map f (xs ++ x ∷ []))
  IsDistinct-extended f x xs seen h d n =
      subst IsDistinct (sym (map-append f x xs))
        (IsDistinct-append (f x) (map f xs) d (h (f x) ∙ n))

  with_host :
      (h : HostTarget) (t : Targets)
      → IsClean t
      → skips_host h ≡ false
      → is_seen (host_address h) t.seen_hosts ≡ false
      → IsClean (record t { hosts = t.hosts ++ h ∷ []; seen_hosts = host_address h ∷ t.seen_hosts })
  with_host h t c s n = record {
    distinct = record {
      hosts =
          IsDistinct-extended host_address h t.hosts t.seen_hosts c.seen_hosts c.distinct.hosts n;
      backends = c.distinct.backends;
      no_skipped_host = AllHold-append skips_host h t.hosts c.distinct.no_skipped_host s;
      no_skipped_backend = c.distinct.no_skipped_backend;
    };
    seen_hosts = seen_extended host_address h t.hosts t.seen_hosts c.seen_hosts;
    seen_services = c.seen_services;
  }

  with_backend :
      (b : BackendRef) (t : Targets)
      → IsClean t
      → skips_backend b ≡ false
      → is_seen (backend_key b) t.seen_services ≡ false
      → IsClean (record t {
        backends = t.backends ++ b ∷ [];
        seen_services = backend_key b ∷ t.seen_services;
      })
  with_backend b t c s n = record {
    distinct = record {
      hosts = c.distinct.hosts;
      backends =
          IsDistinct-extended backend_key b t.backends t.seen_services c.seen_services
            c.distinct.backends n;
      no_skipped_host = c.distinct.no_skipped_host;
      no_skipped_backend =
          AllHold-append skips_backend b t.backends c.distinct.no_skipped_backend s;
    };
    seen_hosts = c.seen_hosts;
    seen_services = seen_extended backend_key b t.backends t.seen_services c.seen_services;
  }

  add_target-IsClean :
      (path host : String) (td : Targets × ℕ)
      → skips_path path ≡ false
      → IsClean td.0
      → IsClean (add_target path_match skip path host td).0
  unfolding add_target
  add_target-IsClean path host td p c =
      if_elim (λ (r : Targets × ℕ). IsClean r.0)
        (matches_any path_match skip (host ∷ address_of host path ∷ [])) _ _ (λ b. c)
        λ s.
          if_elim (λ (r : Targets × ℕ). IsClean r.0)
            (is_seen (address_of host path) td.0.seen_hosts) _ _ (λ b. c)
            (λ n. with_host (record { host = host; path = path }) td.0 c (rw p s) n)

  pub add_targets-IsClean :
      (path : String) (hosts : List String) (td : Targets × ℕ)
      → skips_path path ≡ false
      → IsClean td.0
      → IsClean (add_targets path_match skip path hosts td).0
  unfolding add_targets
  add_targets-IsClean path [] td p c = c
  add_targets-IsClean path (host ∷ hosts) td p c =
      add_targets-IsClean path hosts (add_target path_match skip path host td) p
        (add_target-IsClean path host td p c)

  pub add_backend-IsClean :
      (b : BackendRef) (t : Targets)
      → skips_path b.path ≡ false
      → IsClean t
      → IsClean (add_backend path_match skip b t)
  unfolding add_backend
  add_backend-IsClean b t p c =
      if_elim IsClean (is_seen (backend_key b) t.seen_services) t _ (λ h. c)
        λ n.
          if_elim IsClean
            (matches_any path_match skip (b.name ∷ concat (b.namespace ∷ "/" ∷ b.name ∷ []) ∷ [])) t
            _ (λ h. c) (λ s. with_backend b t c (rw p s) n)

pub start-IsClean :
    (path_match : String → String → Bool) (skip : List String) → IsClean path_match skip no_targets
unfolding is_seen
start-IsClean path_match skip = record {
  distinct = record { hosts = tt; backends = tt; no_skipped_host = tt; no_skipped_backend = tt };
  seen_hosts = λ a. refl;
  seen_services = λ k. refl;
}
