-- ===== src/Config/Render/Workload.antt =====
-- About `dedupByWorkload` of internal/config/render.go.
use mathlib.Core.Logic.Or
use mathlib.Core.Bool.{false≢true}
use mathlib.Core.List.{Mem, mem-cons, mem-cons_self, mem-cons_of_mem, not-mem-nil}
use gatus_sidecar.Prelude.{
  String, ◌≡◌, refl, sym, ◌∙◌, subst, ◌≢◌, ◌↔◌, inl, inr, Bool, true, false, List, [], ◌∷◌, arith,
  ◌==◌, string_eq, Bool-cases, beq_refl, beq_of_ne,
}
use gatus_sidecar.Config.Endpoint.{Endpoint, source_service, address}
use gatus_sidecar.Config.Render.{
  covers, is_member, covered_addresses, is_shadowed, drop_shadowed, if_any, dedup_by_workload,
}

-- A Service of the list that is monitored directly, at the address of the endpoint.
pub record Shadows (eps : List Endpoint) (e s : Endpoint) : Type 0 where
  pub listed : Mem s eps
  pub is_service : s.source ≡ source_service
  pub has_host : s.host ≢ ""
  pub same_address : address s ≡ address e

-- An in-cluster endpoint that is not a Service, at the address of a Service of the list.
abbrev pub IsShadowed : List Endpoint → Endpoint → Type 0
IsShadowed eps e = (e.source ≢ source_service) × (e.host ≢ "") × ((s : Endpoint) × Shadows eps e s)

Bool-set : IsSet Bool
Bool-set = hlevel

member_of_cover :
    (s : Endpoint) (eps : List Endpoint)
    → covers s ≡ true
    → Mem s eps
    → is_member (address s) (covered_addresses eps) ≡ true
unfolding is_member covered_addresses
member_of_cover s [] c m = absurd (not-mem-nil m)
member_of_cover s (e ∷ eps) c m =
    Or.elim (Bool-set _ _) (mem-cons.0 m) (λ same. rw (← same, c, beq_refl (address s)))
      (λ rest.
        let ih = member_of_cover s eps c rest in
        elim (Bool-cases (covers e)) [ inl h ↦ rw h (ground (arith, ih)) | inr h ↦ rw h ih ])

cover_of_member :
    (a : String) (eps : List Endpoint)
    → is_member a (covered_addresses eps) ≡ true
    → (s : Endpoint) × Mem s eps × (covers s ≡ true) × (address s ≡ a)
unfolding is_member covered_addresses
cover_of_member a [] h = absurd (ground arith)
cover_of_member a (e ∷ eps) h =
    let later : is_member a (covered_addresses eps) ≡ true
        → (s : Endpoint) × Mem s (e ∷ eps) × (covers s ≡ true) × (address s ≡ a) =
      λ k. let (s, m, c, same) = cover_of_member a eps k in (s, mem-cons_of_mem e m, c, same) in
    elim (Bool-cases (covers e)) [
      | inr c ↦ later (rw c at h)
      | inl c ↦ elim (Bool-cases (address e == a)) [
        | inl same ↦ (e, mem-cons_self, c, (string_eq.beq_iff (address e) a).0 same)
        | inr other ↦ later (ground arith)
      ]
    ]

mem_prop : (e : Endpoint) (l : List Endpoint) → IsProp (Mem e l)
mem_prop e l = hlevel

kept_prop : (e : Endpoint) (l : List Endpoint) (b : Bool) → IsProp (Mem e l × (b ≡ false))
kept_prop e l b = hlevel

mem_of_eq : {e x : Endpoint} → e ≡ x → (eps : List Endpoint) → Mem e (x ∷ eps)
mem_of_eq {e} same eps = subst (λ y. Mem e (y ∷ eps)) same mem-cons_self

mem-drop_shadowed :
    (covered : List String) (e : Endpoint) (eps : List Endpoint)
    → Mem e (drop_shadowed covered eps) ↔ (Mem e eps × (is_shadowed covered e ≡ false))
unfolding drop_shadowed
mem-drop_shadowed covered e [] = ((λ m. absurd (not-mem-nil m)), λ m. m.0)
mem-drop_shadowed covered e (x ∷ eps) =
    let ih = mem-drop_shadowed covered e eps in
    elim (Bool-cases (is_shadowed covered x)) [
      | inl h ↦ rw h (
        (λ m. (mem-cons_of_mem x (ih.0 m).0, (ih.0 m).1)),
        λ m. ih.1 (
          Or.elim (mem_prop e eps) (mem-cons.0 m.0)
              (λ same. absurd (false≢true (sym m.1 ∙ rw same h))) (λ k. k),
          m.1,
        ),
      )
      | inr h ↦ rw h (
        (λ m.
            Or.elim (kept_prop e (x ∷ eps) (is_shadowed covered e)) (mem-cons.0 m)
              (λ same. (mem_of_eq same eps, rw same h))
              λ k. (mem-cons_of_mem x (ih.0 k).0, (ih.0 k).1)),
        λ m.
            Or.elim (mem_prop e (x ∷ drop_shadowed covered eps)) (mem-cons.0 m.0)
              (λ same. mem_of_eq same (drop_shadowed covered eps))
              λ k. mem-cons_of_mem x (ih.1 (k, m.1)),
      )
    ]

not-is_member : (a : String) → is_member a [] ≡ false
unfolding is_member
not-is_member a = refl

all_kept : (eps : List Endpoint) → eps ≡ drop_shadowed [] eps
unfolding drop_shadowed is_shadowed
all_kept [] = refl
all_kept (e ∷ eps) = rw (not-is_member (address e), ← all_kept eps) (ground arith)

if_any-eq :
    (covered : List String) (eps : List Endpoint) → if_any covered eps ≡ drop_shadowed covered eps
unfolding if_any
if_any-eq (a ∷ covered) eps = refl
if_any-eq [] eps = all_kept eps

shadowed_by :
    (e : Endpoint) (eps : List Endpoint)
    → IsShadowed eps e
    → is_shadowed (covered_addresses eps) e ≡ true
unfolding is_shadowed
shadowed_by e eps (other, host, (s, sh)) =
    let covered : is_member (address s) (covered_addresses eps) ≡ true =
      member_of_cover s eps
        (unfold covers in
          ground (
            arith,
            string_eq.beq_iff s.source source_service,
            string_eq.beq_iff s.host "",
            sh.is_service,
            sh.has_host,
          ))
        sh.listed in
    rw (beq_of_ne e.source source_service other, beq_of_ne e.host "" host, ← sh.same_address)
      covered

covers-service : (s : Endpoint) → covers s ≡ true → s.source ≡ source_service
unfolding covers
covers-service s h = (string_eq.beq_iff s.source source_service).0 (ground arith)

covers-host : (s : Endpoint) → covers s ≡ true → s.host ≢ ""
unfolding covers
covers-host s h k = ground (arith, string_eq.beq_iff s.host "")

is_shadowed-true :
    (e : Endpoint) (eps : List Endpoint)
    → is_shadowed (covered_addresses eps) e ≡ true
    → IsShadowed eps e
unfolding is_shadowed
is_shadowed-true e eps h =
    let (s, m, c, same) = cover_of_member (address e) eps (ground arith) in
    (
      (λ k. ground (arith, string_eq.beq_iff e.source source_service)),
      (λ k. ground (arith, string_eq.beq_iff e.host "")),
      (
        s,
        record {
          listed = m;
          is_service = covers-service s c;
          has_host = covers-host s c;
          same_address = same;
        },
      ),
    )

-- An endpoint is kept just if it was there and is not shadowed: every Service and every endpoint
-- with a URL of its own stays, and of the rest those that no Service of the list has the address of.
pub mem-dedup_by_workload :
    (e : Endpoint) (eps : List Endpoint)
    → Mem e (dedup_by_workload eps) ↔ (Mem e eps × ¬ IsShadowed eps e)
unfolding dedup_by_workload
mem-dedup_by_workload e eps = rw (if_any-eq (covered_addresses eps) eps) (
    let both = mem-drop_shadowed (covered_addresses eps) e eps in
    (
      (λ m. ((both.0 m).0, λ s. false≢true (sym (both.0 m).1 ∙ shadowed_by e eps s))),
      λ m. both.1 (
        m.0,
        elim (Bool-cases (is_shadowed (covered_addresses eps) e)) [
          | inl h ↦ absurd (m.1 (is_shadowed-true e eps h))
          | inr h ↦ h
        ],
      ),
    ))
