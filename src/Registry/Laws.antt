-- ===== src/Registry/Laws.antt =====
-- About `Set` of internal/registry/registry.go: the entries and the signal.
use gatus_sidecar.Prelude.{
  ◌≡◌, refl, sym, subst, ◌≢◌, ◌⊎◌, inl, inr, Bool, true, false, Option, none, some, List, [], ◌∷◌,
  arith, if◌then◌else◌, beq_refl, beq_of_ne,
}
use gatus_sidecar.Prelude.Assoc
use gatus_sidecar.Prelude.Assoc.{
  Assoc, HasUniqueKeys, lookup-put, lookup-put_self, lookup-put_ne, lookup-remove,
  put-HasUniqueKeys, remove-HasUniqueKeys,
}
use gatus_sidecar.Config.Endpoint.{Endpoint}
use gatus_sidecar.Registry.Compare.{equal_endpoints}
use gatus_sidecar.Registry.Order.{Key, key_eq}
use gatus_sidecar.Registry.{
  Registry, Outcome, returned, panicked, blocked, notify, replace, store, signal, set,
}

abbrev pub Entries : Type 0
Entries = Assoc Key (List Endpoint)

-- Each key once, and no key with an empty list: what `Len` counts are contributing objects.
pub record Inv (r : Registry) : Type 0 where
  pub unique : HasUniqueKeys r.entries
  pub filled : (k : Key) → Assoc.lookup k r.entries ≢ some []

-- What `Set` leaves under its own key: nothing for an empty list, and else the new list or one that
-- `equalEndpoints` holds equal to it.
abbrev pub Stored : List Endpoint → Option (List Endpoint) → Type 0
Stored [] found = found ≡ none
Stored (e ∷ es) found =
    (found ≡ some (e ∷ es))
    ⊎ ((old : List Endpoint) × (found ≡ some old) × (equal_endpoints old (e ∷ es) ≡ some true))

pub record SetEffect (r : Registry) (key : Key) (endpoints : List Endpoint) (changed : Bool)
    (r' : Registry) : Type 0 where
  pub own : Stored endpoints (Assoc.lookup key r'.entries)
  pub others : (k : Key) → key ≢ k → Assoc.lookup k r'.entries ≡ Assoc.lookup k r.entries
  pub unchanged : changed ≡ false → r' ≡ r
  pub signalled : changed ≡ true → r'.changed ≡ true
  pub unlocked : r'.locked ≡ false

-- A panic has compared the new endpoints with those that are there, and leaves the mutex locked.
abbrev pub Ensures : Registry → Key → List Endpoint → Outcome Bool → Type 0
Ensures r key endpoints (returned changed r') = SetEffect r key endpoints changed r'
Ensures r key endpoints (panicked r') =
    (r' ≡ record r { locked = true })
    × ((old : List Endpoint) × (Assoc.lookup key r.entries ≡ some old)
        × (equal_endpoints old endpoints ≡ none))
Ensures r key endpoints blocked = ⊥

module _ (r : Registry) (key : Key) (open' : r.locked ≡ false) where
  kept :
      (endpoints : List Endpoint)
      → Stored endpoints (Assoc.lookup key r.entries)
      → SetEffect r key endpoints false r
  kept endpoints own = record {
    own = own;
    others = λ k h. refl;
    unchanged = λ h. refl;
    signalled = λ h. cc;
    unlocked = open';
  }

  removed :
      SetEffect r key [] true (record r { entries = Assoc.remove key r.entries; changed = true })
  removed = record {
    own = rw (lookup-remove key key r.entries, beq_refl key);
    others = λ k h. rw (lookup-remove key k r.entries, beq_of_ne key k h);
    unchanged = λ h. cc;
    signalled = λ h. refl;
    unlocked = open';
  }

  written :
      (e : Endpoint) (es : List Endpoint)
      → SetEffect r key
          (e ∷ es)
          true
          (record r { entries = Assoc.put key (e ∷ es) r.entries; changed = true })
  written e es = record {
    own = inl (lookup-put_self key (e ∷ es) r.entries);
    others = λ k h. lookup-put_ne key k (e ∷ es) r.entries h;
    unchanged = λ h. cc;
    signalled = λ h. refl;
    unlocked = open';
  }

  compared :
      (e : Endpoint) (es old : List Endpoint)
      → Assoc.lookup key r.entries ≡ some old
      → (equal : Option Bool) → equal_endpoints old (e ∷ es) ≡ equal
      → Ensures r key (e ∷ es) (signal (replace r key (e ∷ es) equal))
  unfolding signal replace notify
  compared e es old found none h = (refl, (old, found, h))
  compared e es old found (some true) h = kept (e ∷ es) (inr (old, found, h))
  compared e es old found (some false) h = written e es

  stored :
      (endpoints : List Endpoint) (found : Option (List Endpoint))
      → Assoc.lookup key r.entries ≡ found
      → Ensures r key endpoints (signal (store r key endpoints found))
  unfolding signal store notify
  stored [] none h = kept [] h
  stored [] (some old) h = removed
  stored (e ∷ es) none h = written e es
  stored (e ∷ es) (some old) h = compared e es old h (equal_endpoints old (e ∷ es)) refl

  -- On every branch of `Set`.
  pub set-Ensures : (endpoints : List Endpoint) → Ensures r key endpoints (set r key endpoints)
  unfolding set
  set-Ensures endpoints =
      subst
        (λ b.
          Ensures r key endpoints
            (if b then blocked else signal (store r key endpoints (Assoc.lookup key r.entries))))
        (sym open') (stored endpoints (Assoc.lookup key r.entries) refl)

-- The entries after a call that returned, or as a panic left them.
abbrev pub after : Outcome Bool → Registry → Registry
after (returned b r') r = r'
after (panicked r') r = r'
after blocked r = r

module _ (r : Registry) (key : Key) (v : Inv r) where
  put-Inv :
      (e : Endpoint) (es : List Endpoint)
      → Inv (record r { entries = Assoc.put key (e ∷ es) r.entries; changed = true })
  put-Inv e es = record {
    unique = put-HasUniqueKeys key (e ∷ es) r.entries v.unique;
    filled = λ k h. ground (arith, lookup-put key k (e ∷ es) r.entries, v.filled k);
  }

  remove-Inv : Inv (record r { entries = Assoc.remove key r.entries; changed = true })
  remove-Inv = record {
    unique = remove-HasUniqueKeys key r.entries v.unique;
    filled = λ k h. ground (arith, lookup-remove key k r.entries, v.filled k);
  }

  store-Inv :
      (endpoints : List Endpoint) (found : Option (List Endpoint))
      → Inv (after (signal (store r key endpoints found)) r)
  unfolding signal store notify
  store-Inv [] none = v
  store-Inv [] (some old) = remove-Inv
  store-Inv (e ∷ es) none = put-Inv e es
  store-Inv (e ∷ es) (some old) = replace-Inv (equal_endpoints old (e ∷ es))
    where
      replace-Inv : (equal : Option Bool) → Inv (after (signal (replace r key (e ∷ es) equal)) r)
      replace-Inv none = record { unique = v.unique; filled = v.filled }
      replace-Inv (some true) = v
      replace-Inv (some false) = put-Inv e es

  -- `Set` keeps the entries well formed, whether it returns, panics or waits.
  pub set-Inv : (endpoints : List Endpoint) → Inv (after (set r key endpoints) r)
  unfolding set
  set-Inv endpoints = by_lock r.locked
    where
      by_lock :
          (b : Bool)
          → Inv (
              after
                (if b then blocked else signal (store r key endpoints (Assoc.lookup key r.entries)))
                r)
      by_lock true = v
      by_lock false = store-Inv endpoints (Assoc.lookup key r.entries)
