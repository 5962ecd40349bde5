-- ===== src/Registry/Settled.antt =====
-- About `Set` of internal/registry/registry.go with endpoints that are as good as there.
use gatus_sidecar.Prelude.{
  ◌≡◌, refl, sym, ◌∙◌, subst, inl, inr, false, true, if_false, Option, none, some, List, [], ◌∷◌,
}
use gatus_sidecar.Prelude.Assoc
use gatus_sidecar.Config.Endpoint.{Endpoint}
use gatus_sidecar.Registry.Compare.{equal_endpoints}
use gatus_sidecar.Registry.Order.{Key, key_eq}
use gatus_sidecar.Registry.{Registry, returned, replace, store, signal, set}
use gatus_sidecar.Registry.Laws.{Stored}

store-returns :
    (r : Registry) (key : Key) (endpoints : List Endpoint) (found : Option (List Endpoint))
    → Stored endpoints found
    → equal_endpoints endpoints endpoints ≡ some true
    → signal (store r key endpoints found) ≡ returned false r
unfolding signal store replace
store-returns r key [] none s h = refl
store-returns r key [] (some old) s h = cc
store-returns r key (e ∷ es) none (inl s) h = cc
store-returns r key (e ∷ es) none (inr (old, s, q)) h = cc
store-returns r key (e ∷ es) (some x) (inl s) h =
    subst (λ o. signal (store r key (e ∷ es) o) ≡ returned false r) (sym s) (rw h)
store-returns r key (e ∷ es) (some x) (inr (old, s, q)) h =
    subst (λ o. signal (store r key (e ∷ es) o) ≡ returned false r) (sym s) (rw q)

-- What `Set` has stored, it does not store again: where no lock is held and `equalEndpoints` holds the
-- endpoints equal to themselves, it returns false and changes nothing.
pub set-returns :
    (r : Registry) (key : Key) (endpoints : List Endpoint)
    → r.locked ≡ false
    → Stored endpoints (Assoc.lookup key r.entries)
    → equal_endpoints endpoints endpoints ≡ some true
    → set r key endpoints ≡ returned false r
unfolding set
set-returns r key endpoints u s h =
    if_false _ _ u ∙ store-returns r key endpoints (Assoc.lookup key r.entries) s h
