-- ===== src/Controller/Events/Ports.antt =====
-- About `isTraefikService` of internal/controller/ingressroutetcp_controller.go: an event of a Service
-- that it does not recognise leaves the ports of the entrypoints as they are.
use gatus_sidecar.Prelude.{
  ℕ, String, ◌≡◌, refl, sym, ap, ◌∙◌, ◌≢◌, Bool, false, Option, none, some, List, [], ◌∷◌, ◌++◌,
  map, arith, string_eq, All, All-map, pair_eq, ne_of_beq,
}
use gatus_sidecar.Prelude.Assoc.{Assoc}
use Prim.Native.String.{◌++◌ as ◌<>◌}
use gatus_sidecar.Prelude.Text.{cut}
use gatus_sidecar.Prelude.Text.Cut.{cut_joins, concat_with_slash}
use gatus_sidecar.Discovery.Annotations.{is_one_of}
use gatus_sidecar.Controller.Reconcile.{entrypoint_ports}
use gatus_sidecar.Controller.Reconcile.Entrypoints.{entrypoint_ports-Agree}
use gatus_sidecar.Controller.Primer.{Request, service_request}
use gatus_sidecar.Controller.Cluster.{
  KubeService, Client, option_map, fetched_map, as_traefik_service, ports_in, labelled_services,
}
use gatus_sidecar.Controller.Events.{reference, has_label, is_traefik_service}
use gatus_sidecar.Controller.Events.Cache.{
  keep_if, IsCoherent, ServiceEvent, created, deleted, updated, old_objects, new_objects, subject,
  handed, Happens,
}

keep_if-append :
    {A : Type 0} (p : A → Bool) (xs ys : List A)
    → keep_if p (xs ++ ys) ≡ keep_if p xs ++ keep_if p ys
unfolding keep_if
keep_if-append p [] ys = refl
keep_if-append p (x ∷ xs) ys = ground (arith, keep_if-append p xs ys)

-- The Services that are listed by a label that no object of the event has are the same.
same_labelled :
    (e : ServiceEvent) (front back : List KubeService) (matches : Assoc String String → Bool)
    → All (λ (s : KubeService). matches s.labels ≡ false) (handed e)
    → keep_if (λ (s : KubeService). matches s.labels) (front ++ (new_objects e ++ back))
      ≡ keep_if (λ (s : KubeService). matches s.labels) (front ++ (old_objects e ++ back))
unfolding keep_if
same_labelled (created s) front back matches h = simp (keep_if-append, h.0)
same_labelled (deleted s) front back matches h = simp (keep_if-append, h.0)
same_labelled (updated s t) front back matches h = simp (keep_if-append, h.0, h.1.0)

unlisted_ref :
    (s : KubeService) (refs : List String)
    → is_one_of (reference s) refs ≡ false
    → All (λ ref. ref ≢ reference s) refs
unlisted_ref s [] h = tt
unlisted_ref s (ref ∷ refs) h =
    (ne_of_beq ref (reference s) (ground arith), unlisted_ref s refs (ground arith))

-- A reference that is not that of the object is cut into another namespace or another name.
other_request :
    (s : KubeService) (ref namespace name : String)
    → ref ≢ reference s
    → cut ref "/" ≡ some (namespace, name)
    → ◌≢◌ {A = Request} (namespace, name) (service_request s)
unfolding reference
other_request s ref namespace name h c e = h (
    sym (cut_joins ref "/" namespace name c)
    ∙ ap (λ (q : Request). q.0 <> ("/" <> q.1)) e
    ∙ sym (concat_with_slash s.namespace s.name))

pub All-subject : (P : KubeService → Type 0) (e : ServiceEvent) → All P (handed e) → P (subject e)
All-subject P (created s) h = h.0
All-subject P (deleted s) h = h.0
All-subject P (updated s t) h = h.0

same_labelled_services :
    (e : ServiceEvent) (c c' : Client)
    → IsCoherent c
    → IsCoherent c'
    → Happens e c c'
    → All (λ s. has_label s c.traefik_label ≡ false) (handed e)
    → labelled_services c' ≡ labelled_services c
unfolding labelled_services has_label
same_labelled_services e c c' k k' h n = by_label c.traefik_label refl
  where
    keep : (Assoc String String → Bool) → List KubeService → List KubeService
    keep matches = keep_if (λ (s : KubeService). matches s.labels)

    by_label :
        (o : Option (Assoc String String → Bool))
        → c.traefik_label ≡ o
        → labelled_services c' ≡ labelled_services c
    by_label none q = rw (h.same_label, q)
    by_label (some matches) q =
        let silent : All (λ (s : KubeService). matches s.labels ≡ false) (handed e) =
          All-map _ _ (λ s x. sym (ap (has_label s) q) ∙ x) (handed e) n in
        let same : c'.list_labelled matches ≡ c.list_labelled matches =
          k'.labelled matches
          ∙ ap (option_map (keep matches)) h.listed'
          ∙ ap some (same_labelled e h.front h.back matches silent)
          ∙ sym (k.labelled matches ∙ ap (option_map (keep matches)) h.listed) in
        rw (h.same_label, q) same

-- Where no object that is handed to the map function is a Service of Traefik, the ports of the
-- entrypoints are after the event what they were before.
pub ports_in-unaffected :
    (e : ServiceEvent) (c c' : Client) (overrides : Assoc String ℕ) (refs : List String)
    → IsCoherent c
    → IsCoherent c'
    → Happens e c c'
    → All (λ s. is_traefik_service c refs s ≡ false) (handed e)
    → ports_in c' overrides refs ≡ ports_in c overrides refs
unfolding ports_in is_traefik_service
ports_in-unaffected e c c' overrides [] k k' h n =
    ap
      (λ l.
        entrypoint_ports overrides (λ a b. fetched_map as_traefik_service (c.get_service a b)) []
          (option_map (map as_traefik_service) l))
      (same_labelled_services e c c' k k' h n)
ports_in-unaffected e c c' overrides (ref ∷ refs) k k' h n =
    let unlisted : is_one_of (reference (subject e)) (ref ∷ refs) ≡ false = All-subject _ e n in
    entrypoint_ports-Agree overrides _ _ ref refs
      (option_map (map as_traefik_service) (labelled_services c))
      (option_map (map as_traefik_service) (labelled_services c'))
      (All-map _ _
        (λ r other namespace name cut_in.
          ap (fetched_map as_traefik_service)
            (h.others_get namespace name (other_request (subject e) r namespace name other cut_in)))
        (ref ∷ refs) (unlisted_ref (subject e) (ref ∷ refs) unlisted))
