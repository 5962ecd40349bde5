-- ===== src/Config/Render/Dedup.antt =====
-- About `dedupByURL` of internal/config/render.go.
use mathlib.Core.Logic.Or
use mathlib.Core.HLevel.{⊥_prop}
use mathlib.Core.List.{
  Mem, Nodup, Nodup-cons, Nodup-nil, mem-cons, mem-cons_self, mem-cons_of_mem, not-mem-nil,
}
use gatus_sidecar.Prelude.{
  String, ◌≡◌, refl, sym, ap, ◌∙◌, subst, ◌≢◌, inl, inr, some, List, [], ◌∷◌, ◌++◌, map, string_eq,
  Option-cases, none≢some, eq_or_ne,
}
use gatus_sidecar.Prelude.Assoc
use gatus_sidecar.Prelude.Assoc.{Assoc, IsAbsent, lookup-put_self, lookup-put_ne}
use gatus_sidecar.Config.Endpoint.{Endpoint}
use gatus_sidecar.Config.Resolve.{TemplateSet}
use gatus_sidecar.Config.Render.{
  Warning, resolve_scheme, build_url, address_warning, keep_first, dedup_urls, dedup_by_url,
}

-- The address that `dedupByURL` compares.
abbrev pub url_of : String → TemplateSet → Endpoint → String
url_of default ts ep = build_url ep (resolve_scheme default ep ts)

mem_prop : (u : String) (l : List String) → IsProp (Mem u l)
mem_prop u l = hlevel

endpoint_prop : (e : Endpoint) (l : List Endpoint) → IsProp (Mem e l)
endpoint_prop e l = hlevel

module _ (default : String) (ts : TemplateSet) where
  abbrev url : Endpoint → String
  url = url_of default ts

  abbrev kept : Assoc String Endpoint → List Warning → List Endpoint → List Endpoint
  kept seen w eps = (dedup_urls default ts seen w eps).0

  kept-seen :
      (seen : Assoc String Endpoint) (w : List Warning) (e prev : Endpoint) (eps : List Endpoint)
      → Assoc.lookup (url e) seen ≡ some prev
      → kept seen w (e ∷ eps) ≡ kept seen (w ++ address_warning e prev (url e)) eps
  unfolding dedup_urls keep_first
  kept-seen seen w e prev eps h =
      ap (λ o. (keep_first (url e) e seen w (λ s v. dedup_urls default ts s v eps) o).0) h

  kept-new :
      (seen : Assoc String Endpoint) (w : List Warning) (e : Endpoint) (eps : List Endpoint)
      → IsAbsent (url e) seen
      → kept seen w (e ∷ eps) ≡ e ∷ kept (Assoc.put (url e) e seen) w eps
  unfolding dedup_urls keep_first
  kept-new seen w e eps h =
      ap (λ o. (keep_first (url e) e seen w (λ s v. dedup_urls default ts s v eps) o).0) h

  kept-nil : (seen : Assoc String Endpoint) (w : List Warning) → kept seen w [] ≡ []
  unfolding dedup_urls
  kept-nil seen w = refl

  kept-fresh :
      (u : String) (seen : Assoc String Endpoint) (w : List Warning) (eps : List Endpoint)
      (prev : Endpoint)
      → Assoc.lookup u seen ≡ some prev
      → ¬ Mem u (map url (kept seen w eps))
  kept-fresh u seen w [] prev found m = absurd (not-mem-nil (rw kept-nil at m))
  kept-fresh u seen w (e ∷ eps) prev found m = elim (Option-cases (Assoc.lookup (url e) seen)) [
    | inr (p, h) ↦ kept-fresh u seen _ eps prev found (rw (kept-seen seen w e p eps h) at m)
    | inl h ↦
        let other : u ≢ url e = λ same. none≢some {a = prev} (sym h ∙ rw (← same) found) in
        Or.elim ⊥_prop (mem-cons.0 (rw (kept-new seen w e eps h) at m)) other (
          kept-fresh u (Assoc.put (url e) e seen) w eps prev
            (lookup-put_ne (url e) u e seen (λ k. other (sym k)) ∙ found))
  ]

  kept-Nodup :
      (seen : Assoc String Endpoint) (w : List Warning) (eps : List Endpoint)
      → Nodup (map url (kept seen w eps))
  kept-Nodup seen w [] = rw kept-nil Nodup-nil
  kept-Nodup seen w (e ∷ eps) = elim (Option-cases (Assoc.lookup (url e) seen)) [
    | inr (prev, h) ↦ rw (kept-seen seen w e prev eps h) (kept-Nodup seen _ eps)
    | inl h ↦ rw (kept-new seen w e eps h) (
        Nodup-cons.1 (
          kept-fresh (url e) (Assoc.put (url e) e seen) w eps e (lookup-put_self (url e) e seen),
          kept-Nodup (Assoc.put (url e) e seen) w eps,
        ))
  ]

  -- No two endpoints that `dedupByURL` keeps check the same address.
  pub dedup_by_url-Nodup :
      (eps : List Endpoint) (w : List Warning) → Nodup (map url (dedup_by_url eps default ts w).0)
  unfolding dedup_by_url
  dedup_by_url-Nodup eps w = kept-Nodup [] w eps

  -- Where an address has been seen nothing is lost, and else it is among the kept ones.
  kept-covers :
      (u : String) (seen : Assoc String Endpoint) (w : List Warning) (eps : List Endpoint)
      → Mem u (map url eps)
      → IsAbsent u seen
      → Mem u (map url (kept seen w eps))
  kept-covers u seen w [] m a = absurd (not-mem-nil m)
  kept-covers u seen w (e ∷ eps) m a = elim (Option-cases (Assoc.lookup (url e) seen)) [
    | inr (prev, h) ↦ rw (kept-seen seen w e prev eps h) (
        Or.elim (mem_prop u (map url (kept seen (w ++ address_warning e prev (url e)) eps)))
          (mem-cons.0 m) (λ same. absurd (none≢some {a = prev} (sym a ∙ (rw same h))))
          λ rest. kept-covers u seen _ eps rest a)
    | inl h ↦ rw (kept-new seen w e eps h) (elim (eq_or_ne (url e) u) [
      | inl same ↦
          subst (λ x. Mem x (url e ∷ map url (kept (Assoc.put (url e) e seen) w eps))) same
            mem-cons_self
      | inr other ↦ mem-cons_of_mem (url e) (
          kept-covers u (Assoc.put (url e) e seen) w eps
            (Or.elim (mem_prop u (map url eps)) (mem-cons.0 m) (λ same. absurd (other (sym same)))
              (λ k. k))
            (lookup-put_ne (url e) u e seen other ∙ a))
    ])
  ]

  kept-subset :
      (e : Endpoint) (seen : Assoc String Endpoint) (w : List Warning) (eps : List Endpoint)
      → Mem e (kept seen w eps)
      → Mem e eps
  kept-subset e seen w [] m = absurd (not-mem-nil (rw kept-nil at m))
  kept-subset e seen w (x ∷ eps) m = elim (Option-cases (Assoc.lookup (url x) seen)) [
    | inr (prev, h) ↦
        mem-cons_of_mem x (kept-subset e seen _ eps (rw (kept-seen seen w x prev eps h) at m))
    | inl h ↦
        Or.elim (endpoint_prop e (x ∷ eps)) (mem-cons.0 (rw (kept-new seen w x eps h) at m))
          (λ same. subst (λ y. Mem e (y ∷ eps)) same mem-cons_self)
          λ rest. mem-cons_of_mem x (kept-subset e (Assoc.put (url x) x seen) w eps rest)
  ]

  -- What `dedupByURL` keeps stood in its input, and every address that the input checks is still
  -- checked.
  pub dedup_by_url-covers :
      (eps : List Endpoint) (w : List Warning)
      → ((e : Endpoint) → Mem e (dedup_by_url eps default ts w).0 → Mem e eps)
        × ((u : String) → Mem u (map url eps) → Mem u (map url (dedup_by_url eps default ts w).0))
  unfolding dedup_by_url Assoc.lookup
  dedup_by_url-covers eps w =
      ((λ e m. kept-subset e [] w eps m), λ u m. kept-covers u [] w eps m refl)
