-- ===== src/Registry.antt =====
-- internal/registry/registry.go: the endpoints of every source object, and the signal that they
-- changed. A call of the registry is a function of its state; the mutex is the field `locked`, so
-- that a call that panics before it unlocks leaves its trace. The two halves of `Set`, under the
-- lock and after it, are `store` and `notify`.
pub mod Compare
pub mod Order
pub mod Laws
pub mod Settled
pub mod Panics
pub mod Snapshot
pub mod Tests
use gatus_sidecar.Prelude.{
  ℕ, suc, String, Bool, true, false, Option, none, some, List, [], ◌∷◌, ◌++◌, map, ◌==◌,
  if◌then◌else◌,
}
use gatus_sidecar.Prelude.Assoc
use gatus_sidecar.Prelude.Assoc.{Assoc}
use gatus_sidecar.Prelude.Order.{stable_sort}
use gatus_sidecar.Config.Endpoint.{Endpoint}
use Compare.{equal_endpoints}
use Order.{Key, key_eq, key_less}

pub record Registry : Type 0 where
  pub entries : Assoc Key (List Endpoint)
  -- The channel of capacity 1 holds a notification.
  pub changed : Bool
  pub locked : Bool

abbrev pub new : Registry
new = record { entries = []; changed = false; locked = false }

-- What a call does: it returns, it panics, or it waits for a mutex that is never unlocked.
pub data Outcome {ℓ} (A : Type ℓ) : Type ℓ where
  returned : A → Registry → Outcome A
  panicked : Registry → Outcome A
  blocked : Outcome A

-- `select { case r.changed <- struct{}{}: default: }`
unfoldable pub notify : Registry → Registry
notify r = record r { changed = true }

-- `if present && equalEndpoints(existing, endpoints)`, given what the comparison answers.
unfoldable pub replace : Registry → Key → List Endpoint → Option Bool → Outcome Bool
replace r key endpoints none = panicked (record r { locked = true })
replace r key endpoints (some true) = returned false r
replace r key endpoints (some false) =
    returned true (record r { entries = Assoc.put key endpoints r.entries })

-- The part of `Set` under the lock, for `r.entries[key]`: whether the entries changed.
unfoldable pub store : Registry → Key → List Endpoint → Option (List Endpoint) → Outcome Bool
unfolding replace
store r key [] none = returned false r
store r key [] (some existing) = returned true (record r { entries = Assoc.remove key r.entries })
store r key (e ∷ es) none = returned true (record r { entries = Assoc.put key (e ∷ es) r.entries })
store r key (e ∷ es) (some existing) = replace r key (e ∷ es) (equal_endpoints existing (e ∷ es))

signal : Outcome Bool → Outcome Bool
unfolding notify
signal (returned true r) = returned true (notify r)
signal (returned false r) = returned false r
signal (panicked r) = panicked r
signal blocked = blocked

unfoldable pub set : Registry → Key → List Endpoint → Outcome Bool
unfolding store signal
set r key endpoints =
    if r.locked then blocked else signal (store r key endpoints (Assoc.lookup key r.entries))

unfoldable pub delete : Registry → Key → Outcome Bool
unfolding set
delete r key = set r key []

unfoldable pub touch : Registry → Registry
unfolding notify
touch r = notify r

or_empty {ℓ} : {A : Type ℓ} → Option (List A) → List A
or_empty none = []
or_empty (some xs) = xs

keys {ℓ κ} : {K : Type ℓ} {V : Type κ} → Assoc K V → List K
keys [] = []
keys ((k, v) ∷ m) = k ∷ keys m

-- `out = append(out, r.entries[k]...)` for each key in turn.
gather : Assoc Key (List Endpoint) → List Key → List Endpoint
unfolding or_empty
gather entries [] = []
gather entries (k ∷ ks) = or_empty (Assoc.lookup k entries) ++ gather entries ks

-- The endpoints, in the order of their keys.
unfoldable pub collect : Assoc Key (List Endpoint) → List Endpoint
unfolding gather keys
collect entries = gather entries (stable_sort key_less (keys entries))

unfoldable pub snapshot : Registry → Outcome (List Endpoint)
unfolding collect
snapshot r = if r.locked then blocked else returned (collect r.entries) r

count {ℓ} : {A : Type ℓ} → List A → ℕ
count [] = 0
count (x ∷ xs) = suc (count xs)

unfoldable pub len : Registry → Outcome ℕ
unfolding count
len r = if r.locked then blocked else returned (count r.entries) r
