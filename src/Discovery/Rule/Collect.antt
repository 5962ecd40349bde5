-- ===== src/Discovery/Rule/Collect.antt =====
-- About the hosts that `addHost` of internal/discovery/matcher.go has collected, after each step.
use mathlib.Core.Logic.Or
use mathlib.Core.List.{Mem, mem-cons, mem-cons_self, mem-cons_of_mem, not-mem-nil}
use gatus_sidecar.Prelude.{
  String, ◌≡◌, refl, sym, ◌∙◌, subst, ◌⊎◌, inl, inr, Bool, true, false, not, ◌||◌, List, [], ◌∷◌,
  ◌++◌, arith, ◌==◌, string_eq, if_elim, if_true, Bool-cases, beq_refl,
}
use gatus_sidecar.Prelude.Text.{trim_space}
use gatus_sidecar.Discovery.Rule.{
  Walk, is_seen, is_concrete, add_host, add_hosts, add_path, is_host_matcher, is_path_matcher,
  visit,
}

-- No host twice.
abbrev pub IsDistinct : List String → Type 0
IsDistinct [] = Unit
IsDistinct (h ∷ hosts) = (is_seen h hosts ≡ false) × IsDistinct hosts

-- `seen` has the collected hosts, each once, and each is an address.
pub record IsClean (w : Walk) : Type 0 where
  pub seen_hosts : (h : String) → is_seen h w.out.hosts ≡ is_seen h w.seen
  pub distinct : IsDistinct w.out.hosts
  pub concrete : (h : String) → is_seen h w.out.hosts ≡ true → is_concrete h ≡ true

pub is_seen-append :
    (h x : String) (hosts : List String) → is_seen h (hosts ++ x ∷ []) ≡ (is_seen h hosts || x == h)
unfolding is_seen
is_seen-append h x [] = ground arith
is_seen-append h x (y ∷ hosts) = rw (is_seen-append h x hosts) (ground arith)

pub IsDistinct-append :
    (x : String) (hosts : List String)
    → IsDistinct hosts
    → is_seen x hosts ≡ false
    → IsDistinct (hosts ++ x ∷ [])
unfolding is_seen
IsDistinct-append x [] d h = (refl, tt)
IsDistinct-append x (y ∷ hosts) d h = (
  rw (is_seen-append y x hosts) (ground (arith, d.0, string_eq.beq_iff y x, string_eq.beq_iff x y)),
  IsDistinct-append x hosts d.1 (ground arith),
)

-- What a step does to the hosts: nothing is lost, and what is new has the property.
pub record Grows (new : String → Type 0) (w w' : Walk) : Type 0 where
  pub clean : IsClean w'
  pub kept : (h : String) → is_seen h w.out.hosts ≡ true → is_seen h w'.out.hosts ≡ true
  pub origin : (h : String) → is_seen h w'.out.hosts ≡ true → (is_seen h w.out.hosts ≡ true) ⊎ new h

pub stays : (new : String → Type 0) (w : Walk) → IsClean w → Grows new w w
stays new w c = record { clean = c; kept = λ h m. m; origin = λ h m. inl m }

pub then-Grows :
    (new : String → Type 0) (w w' w'' : Walk) → Grows new w w' → Grows new w' w'' → Grows new w w''
then-Grows new w w' w'' g g' = record {
  clean = g'.clean;
  kept = λ h m. g'.kept h (g.kept h m);
  origin = λ h m. elim (g'.origin h m) [ inl k ↦ g.origin h k | inr n ↦ inr n ];
}

pub Grows-for :
    (new new' : String → Type 0) (w w' : Walk)
    → ((h : String) → new h → new' h)
    → Grows new w w'
    → Grows new' w w'
Grows-for new new' w w' f g = record {
  clean = g.clean;
  kept = g.kept;
  origin = λ h m. elim (g.origin h m) [ inl k ↦ inl k | inr n ↦ inr (f h n) ];
}

appended :
    (host : String) (w : Walk)
    → IsClean w
    → is_concrete host ≡ true
    → is_seen host w.seen ≡ false
    → Grows
        (λ h. host ≡ h)
        w
        (record {
          out = record { hosts = w.out.hosts ++ host ∷ []; path = w.out.path };
          seen = host ∷ w.seen;
        })
unfolding is_seen
appended host w c ok new = record {
  clean = record {
    seen_hosts = λ h. is_seen-append h host w.out.hosts ∙ (rw (c.seen_hosts h) (ground arith));
    distinct = IsDistinct-append host w.out.hosts c.distinct (c.seen_hosts host ∙ new);
    concrete = λ h m. elim (Bool-cases (host == h)) [
      | inl same ↦ subst (λ x. is_concrete x ≡ true) ((string_eq.beq_iff host h).0 same) ok
      | inr other ↦ c.concrete h (ground (arith, is_seen-append h host w.out.hosts))
    ];
  };
  kept = λ h m. is_seen-append h host w.out.hosts ∙ ground arith;
  origin = λ h m. elim (Bool-cases (host == h)) [
    | inl same ↦ inr ((string_eq.beq_iff host h).0 same)
    | inr other ↦ inl (ground (arith, is_seen-append h host w.out.hosts))
  ];
}

add_host-Grows : (host : String) (w : Walk) → IsClean w → Grows (λ h. host ≡ h) w (add_host host w)
unfolding add_host
add_host-Grows host w c =
    if_elim (Grows (λ h. host ≡ h) w) (not (is_concrete host) || is_seen host w.seen) w _
      (λ b. stays _ w c) (λ b. appended host w c (ground arith) (ground arith))

-- A host that is an address is collected, or has been.
add_host-seen :
    (host : String) (w : Walk)
    → IsClean w
    → is_concrete host ≡ true
    → is_seen host (add_host host w).out.hosts ≡ true
unfolding add_host
add_host-seen host w c ok =
    if_elim (λ w'. is_seen host w'.out.hosts ≡ true) (not (is_concrete host) || is_seen host w.seen)
      w _ (λ b. c.seen_hosts host ∙ ground arith)
      (λ b. is_seen-append host host w.out.hosts ∙ rw (beq_refl host) (ground arith))

abbrev pub ValueOf : List String → String → Type 0
ValueOf values h = (v : String) × (Mem v values × (trim_space v ≡ h))

add_hosts-Grows :
    (values : List String) (w : Walk) → IsClean w → Grows (ValueOf values) w (add_hosts values w)
unfolding add_hosts
add_hosts-Grows [] w c = stays _ w c
add_hosts-Grows (v ∷ values) w c =
    let first = add_host-Grows (trim_space v) w c in
    then-Grows (ValueOf (v ∷ values)) w (add_host (trim_space v) w)
      (add_hosts values (add_host (trim_space v) w))
      (Grows-for _ _ _ _ (λ h e. (v, (mem-cons_self, e))) first)
      (Grows-for _ _ _ _ (λ h n. (n.0, (mem-cons_of_mem v n.1.0, n.1.1)))
        (add_hosts-Grows values (add_host (trim_space v) w) first.clean))

Bool-set : IsSet Bool
Bool-set = hlevel

add_hosts-seen :
    (v : String) (values : List String) (w : Walk)
    → IsClean w
    → Mem v values
    → is_concrete (trim_space v) ≡ true
    → is_seen (trim_space v) (add_hosts values w).out.hosts ≡ true
unfolding add_hosts
add_hosts-seen v [] w c m ok = absurd (not-mem-nil m)
add_hosts-seen v (x ∷ values) w c m ok =
    let first = add_host-Grows (trim_space x) w c in
    Or.elim (Bool-set _ _) (mem-cons.0 m)
      (λ same.
        (add_hosts-Grows values (add_host (trim_space x) w) first.clean).kept (trim_space v) (
          subst (λ y. is_seen (trim_space v) (add_host (trim_space y) w).out.hosts ≡ true) same
            (add_host-seen (trim_space v) w c ok)))
      λ rest. add_hosts-seen v values (add_host (trim_space x) w) first.clean rest ok

same_hosts :
    (new : String → Type 0) (w : Walk) (path : String)
    → IsClean w
    → Grows new w (record { out = record { hosts = w.out.hosts; path = path }; seen = w.seen })
same_hosts new w path c = record {
  clean = record { seen_hosts = c.seen_hosts; distinct = c.distinct; concrete = c.concrete };
  kept = λ h m. m;
  origin = λ h m. inl m;
}

add_path-Grows :
    (new : String → Type 0) (paths : List String) (w : Walk)
    → IsClean w
    → Grows new w (add_path paths w)
unfolding add_path
add_path-Grows new paths w c =
    if_elim (Grows new w) (not (w.out.path == "")) w _ (λ b. stays new w c)
      (λ b. same_hosts new w _ c)

pub visit-Grows :
    (new : String → Type 0) (matcher : String) (values : List String) (w : Walk)
    → (is_host_matcher matcher ≡ true → (h : String) → ValueOf values h → new h)
    → IsClean w
    → Grows new w (visit matcher values w)
unfolding visit
visit-Grows new matcher values w f c =
    if_elim (Grows new w) (is_host_matcher matcher) (add_hosts values w) _
      (λ b. Grows-for _ _ _ _ (f b) (add_hosts-Grows values w c))
      λ b.
        if_elim (Grows new w) (is_path_matcher matcher) (add_path values w) w
          (λ b. add_path-Grows new values w c) (λ b. stays new w c)

pub visit-seen :
    (matcher v : String) (values : List String) (w : Walk)
    → IsClean w
    → is_host_matcher matcher ≡ true
    → Mem v values
    → is_concrete (trim_space v) ≡ true
    → is_seen (trim_space v) (visit matcher values w).out.hosts ≡ true
unfolding visit
visit-seen matcher v values w c m i ok =
    subst (λ (x : Walk). is_seen (trim_space v) x.out.hosts ≡ true)
      (sym (if_true (add_hosts values w) _ m)) (add_hosts-seen v values w c i ok)
