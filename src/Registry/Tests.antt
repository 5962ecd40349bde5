-- ===== src/Registry/Tests.antt =====
-- A registry to try internal/registry/registry.go on.
use gatus_sidecar.Prelude.{
  ◌≡◌, refl, ◌≢◌, true, false, none, some, [], ◌∷◌, string_eq, none≢some, some_inj, if_elim,
  Bool-cases, inl, inr,
}
use gatus_sidecar.Prelude.Assoc
use gatus_sidecar.Prelude.Assoc.{HasUniqueKeys}
use gatus_sidecar.Value.{
  Value, text, boolean, null, object, any_map, entry, no_entries, Object, no_fields, field,
}
use gatus_sidecar.Config.Endpoint.{Endpoint, source_service}
use gatus_sidecar.Registry.Laws.{Entries, Inv, Ensures, after, set-Ensures, set-Inv}
use gatus_sidecar.Registry.Order.{Key, key_eq, key_beq}
use gatus_sidecar.Registry.Panics.{IsPlain}
use gatus_sidecar.Registry.Panics.Resync.{
  some_patch_has_any_map, resync_outcome, set-eq_resync_outcome,
}
use gatus_sidecar.Registry.Snapshot.{collect-eq_of_lookup}
use gatus_sidecar.Registry.{Registry, set, collect}

abbrev shop : Key
shop = record { kind = "Service"; namespace = "shop"; name = "api" }

abbrev blog : Key
blog = record { kind = "Service"; namespace = "blog"; name = "web" }

abbrev api : Endpoint
api = record {
  source = source_service;
  source_ref = "shop/api";
  name = "Api";
  group = "Shop";
  url = "";
  host = "api.shop.svc.cluster.local";
  port = 8080;
  path = "/health";
  scheme = "";
  templates = [];
  templates_set = false;
  extra_templates = [];
  patch = some (field "interval" (text "30s") no_fields);
}

-- Its patch is `headers: {true: a}`, where the key of the mapping is not a string.
abbrev odd_patch : Object
odd_patch = field "headers" (any_map (entry (boolean true) (text "a") no_entries)) no_fields

abbrev odd : Endpoint
odd = record api { patch = some odd_patch }

abbrev one_way : Entries
one_way = (shop, api ∷ []) ∷ (blog, odd ∷ []) ∷ []

abbrev other_way : Entries
other_way = (blog, odd ∷ []) ∷ (shop, api ∷ []) ∷ []

abbrev registry : Registry
registry = record { entries = one_way; changed = false; locked = false }

one_way-HasUniqueKeys : HasUniqueKeys one_way
unfolding Assoc.lookup key_beq
one_way-HasUniqueKeys = (refl, (refl, tt))

other_way-HasUniqueKeys : HasUniqueKeys other_way
unfolding Assoc.lookup key_beq
other_way-HasUniqueKeys = (refl, (refl, tt))

filled : (k : Key) → Assoc.lookup k one_way ≢ some []
unfolding Assoc.lookup
filled k =
    if_elim (λ o. o ≢ some []) (key_beq shop k) (some (api ∷ [])) _ (λ b h. nonempty (some_inj h))
      λ b.
        if_elim (λ o. o ≢ some []) (key_beq blog k) (some (odd ∷ [])) none
          (λ b h. nonempty (some_inj h)) (λ b h. none≢some h)
  where
    nonempty : {e : Endpoint} → e ∷ [] ≢ []
    nonempty h = cc

registry-Inv : Inv registry
unfolding Assoc.lookup
registry-Inv = record { unique = one_way-HasUniqueKeys; filled = filled }

set-Ensures_example : Ensures registry shop (odd ∷ []) (set registry shop (odd ∷ []))
set-Ensures_example = set-Ensures registry shop refl (odd ∷ [])

set-Inv_example : Inv (after (set registry shop []) registry)
set-Inv_example = set-Inv registry shop registry-Inv []

same_lookup : (k : Key) → Assoc.lookup k one_way ≡ Assoc.lookup k other_way
unfolding Assoc.lookup key_beq
same_lookup k = elim (Bool-cases (key_beq shop k)) [
  | inl h ↦ rw (← (key_eq.beq_iff shop k).0 h) refl
  | inr h ↦ rw h refl
]

collect-eq_of_lookup_example : collect one_way ≡ collect other_way
collect-eq_of_lookup_example =
    collect-eq_of_lookup one_way other_way one_way-HasUniqueKeys other_way-HasUniqueKeys same_lookup

odd_value-IsPlain : IsPlain (object odd_patch)
unfolding IsPlain gatus_sidecar.Value.Fields.get
odd_value-IsPlain = ((refl, tt), (tt, tt))

found : Assoc.lookup blog registry.entries ≡ some (odd ∷ [])
unfolding Assoc.lookup key_beq
found = refl

set-eq_resync_outcome_example :
    set registry blog (odd ∷ []) ≡ resync_outcome registry (some_patch_has_any_map (odd ∷ []))
set-eq_resync_outcome_example =
    set-eq_resync_outcome registry blog odd [] refl found (odd_value-IsPlain, tt)
