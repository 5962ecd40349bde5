-- ===== src/Registry/Panics/Resync.antt =====
-- About a resync: `Set` of internal/registry/registry.go with the endpoints that are there already.
use gatus_sidecar.Prelude.{
  ◌≡◌, String, refl, ◌∙◌, Bool, true, false, ◌||◌, some, List, [], ◌∷◌, if_true, if_false, beq_refl,
  string_eq,
}
use gatus_sidecar.Prelude.Assoc
use gatus_sidecar.Config.Endpoint.{Endpoint}
use gatus_sidecar.Registry.Compare.{
  same_plain, equal_strings, equal_endpoint, same_length, equal_pairwise, equal_endpoints,
  patch_value,
}
use gatus_sidecar.Registry.Order.{Key, key_eq}
use gatus_sidecar.Registry.{
  Registry, Outcome, returned, panicked, blocked, replace, store, signal, set, snapshot, len,
}
use gatus_sidecar.Registry.Panics.{
  has_any_map, IsPlain, self_answer, bool_eq_refl, and_then_self, equal_value_self,
}

same_plain_self : (e : Endpoint) → same_plain e e ≡ true
unfolding same_plain
same_plain_self e = rw (
  beq_refl e.source,
  beq_refl e.source_ref,
  beq_refl e.name,
  beq_refl e.group,
  beq_refl e.url,
  beq_refl e.host,
  beq_refl e.port,
  beq_refl e.path,
  beq_refl e.scheme,
  bool_eq_refl e.templates_set,
)

equal_strings_self : (l : List String) → equal_strings l l ≡ true
unfolding equal_strings
equal_strings_self [] = refl
equal_strings_self (s ∷ l) = rw (beq_refl s, equal_strings_self l)

abbrev pub HasPlainPatches : List Endpoint → Type 0
HasPlainPatches [] = Unit
HasPlainPatches (e ∷ es) = IsPlain (patch_value e.patch) × HasPlainPatches es

abbrev pub some_patch_has_any_map : List Endpoint → Bool
some_patch_has_any_map [] = false
some_patch_has_any_map (e ∷ es) = has_any_map (patch_value e.patch) || some_patch_has_any_map es

endpoint_self :
    (e : Endpoint)
    → IsPlain (patch_value e.patch)
    → equal_endpoint e e ≡ self_answer (has_any_map (patch_value e.patch))
unfolding equal_endpoint
endpoint_self e p =
    rw (same_plain_self e, equal_strings_self e.templates, equal_strings_self e.extra_templates)
      (equal_value_self (patch_value e.patch) p)

pairwise_self :
    (es : List Endpoint)
    → HasPlainPatches es
    → equal_pairwise es es ≡ self_answer (some_patch_has_any_map es)
unfolding equal_pairwise
pairwise_self [] p = refl
pairwise_self (e ∷ es) p =
    rw (endpoint_self e p.0, pairwise_self es p.1)
      (and_then_self (has_any_map (patch_value e.patch)) (some_patch_has_any_map es))

same_length_self : (es : List Endpoint) → same_length es es ≡ true
unfolding same_length
same_length_self [] = refl
same_length_self (e ∷ es) = same_length_self es

endpoints_self :
    (es : List Endpoint)
    → HasPlainPatches es
    → equal_endpoints es es ≡ self_answer (some_patch_has_any_map es)
unfolding equal_endpoints
endpoints_self es p = rw (same_length_self es) (pairwise_self es p)

-- What a resync must do with an unlocked registry: nothing, unless a patch holds a `map[any]any`.
-- Then it panics with the mutex locked.
abbrev pub resync_outcome : Registry → Bool → Outcome Bool
resync_outcome r true = panicked (record r { locked = true })
resync_outcome r false = returned false r

replace_self :
    (r : Registry) (key : Key) (es : List Endpoint) (b : Bool)
    → signal (replace r key es (self_answer b)) ≡ resync_outcome r b
unfolding signal replace
replace_self r key es true = refl
replace_self r key es false = refl

-- Setting an object's endpoints to the ones that are there returns false and changes nothing, and
-- signals nothing, if no patch holds a `map[any]any`; if one does, the call panics and leaves the
-- mutex locked.
pub set-eq_resync_outcome :
    (r : Registry) (key : Key) (e : Endpoint) (es : List Endpoint)
    → r.locked ≡ false
    → Assoc.lookup key r.entries ≡ some (e ∷ es)
    → HasPlainPatches (e ∷ es)
    → set r key (e ∷ es) ≡ resync_outcome r (some_patch_has_any_map (e ∷ es))
unfolding set store
set-eq_resync_outcome r key e es open' found plain =
    if_false blocked (signal (store r key (e ∷ es) (Assoc.lookup key r.entries))) open'
    ∙ rw (found, endpoints_self (e ∷ es) plain)
        (replace_self r key (e ∷ es) (some_patch_has_any_map (e ∷ es)))

-- After such a panic every call that takes the mutex waits for ever.
pub locked_blocks :
    (r : Registry) (key : Key) (es : List Endpoint)
    → r.locked ≡ true
    → (set r key es ≡ blocked) × (snapshot r ≡ blocked) × (len r ≡ blocked)
unfolding set snapshot len
locked_blocks r key es h = (if_true _ _ h, if_true _ _ h, if_true _ _ h)
