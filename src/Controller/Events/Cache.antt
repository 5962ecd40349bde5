-- ===== src/Controller/Events/Cache.antt =====
-- What controller-runtime documents of the client of internal/controller: a listing in a namespace or
-- with a label selector is the full listing, filtered; and an event of a Service changes that object
-- and no other, and is handed to the map function with the old object, the new one, or both.
use gatus_sidecar.Prelude.{
  String, ◌≡◌, ◌≢◌, Bool, none, some, List, [], ◌∷◌, ◌++◌, ◌==◌, string_eq, if◌then◌else◌,
}
use gatus_sidecar.Prelude.Assoc.{Assoc}
use gatus_sidecar.Discovery.IngressRoute.{Route}
use gatus_sidecar.Controller.Cluster.{KubeService, Client, option_map}
use gatus_sidecar.Controller.Primer.{Request, service_request}

unfoldable pub keep_if {ℓ} : {A : Type ℓ} → (A → Bool) → List A → List A
keep_if p [] = []
keep_if p (x ∷ xs) = let rest = keep_if p xs in if p x then x ∷ rest else rest

pub record IsCoherent (c : Client) : Type 0 where
  pub services_in :
      (namespace : String)
      → c.list_services (some namespace)
        ≡ option_map
            (keep_if (λ (s : KubeService). s.namespace == namespace))
            (c.list_services none)
  pub routes_in :
      (namespace : String)
      → c.list_ingress_routes (some namespace)
        ≡ option_map
            (keep_if (λ (a : Route). a.namespace == namespace))
            (c.list_ingress_routes none)
  pub tcp_routes_in :
      (namespace : String)
      → c.list_ingress_route_tcps (some namespace)
        ≡ option_map
            (keep_if (λ (a : Route). a.namespace == namespace))
            (c.list_ingress_route_tcps none)
  pub labelled :
      (matches : Assoc String String → Bool)
      → c.list_labelled matches
        ≡ option_map (keep_if (λ (s : KubeService). matches s.labels)) (c.list_services none)

pub data ServiceEvent : Type 0 where
  created : KubeService → ServiceEvent
  deleted : KubeService → ServiceEvent
  updated : KubeService → KubeService → ServiceEvent

abbrev pub old_objects : ServiceEvent → List KubeService
old_objects (created s) = []
old_objects (deleted s) = s ∷ []
old_objects (updated s t) = s ∷ []

abbrev pub new_objects : ServiceEvent → List KubeService
new_objects (created s) = s ∷ []
new_objects (deleted s) = []
new_objects (updated s t) = t ∷ []

-- The object of the event, and the objects that are handed to the map function.
abbrev pub subject : ServiceEvent → KubeService
subject (created s) = s
subject (deleted s) = s
subject (updated s t) = s

abbrev pub handed : ServiceEvent → List KubeService
handed (created s) = s ∷ []
handed (deleted s) = s ∷ []
handed (updated s t) = s ∷ t ∷ []

abbrev pub IsOneObject : ServiceEvent → Type 0
IsOneObject (created s) = Unit
IsOneObject (deleted s) = Unit
IsOneObject (updated s t) = (t.namespace ≡ s.namespace) × (t.name ≡ s.name)

-- The client before the event and after it.
pub record Happens (e : ServiceEvent) (c c' : Client) : Type 0 where
  pub one_object : IsOneObject e
  pub others_get :
      (namespace name : String)
      → ◌≢◌ {A = Request} (namespace, name) (service_request (subject e))
      → c'.get_service namespace name ≡ c.get_service namespace name
  pub front : List KubeService
  pub back : List KubeService
  pub listed : c.list_services none ≡ some (front ++ (old_objects e ++ back))
  pub listed' : c'.list_services none ≡ some (front ++ (new_objects e ++ back))
  pub same_label : c'.traefik_label ≡ c.traefik_label
