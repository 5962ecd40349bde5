-- ===== src/Config/Merge/Layers.antt =====
-- About `MergeAll` of internal/config/merge.go, key by key.
use gatus_sidecar.Prelude.{String, ◌≡◌, refl, ap, Option, none, some, List, [], ◌∷◌, ◌++◌}
use gatus_sidecar.Value.{Value, Object, no_fields}
use gatus_sidecar.Value.Fields.{get, HasUniqueFields}
use gatus_sidecar.Config.Merge.{as_object, copy_value, merge_into, merge_layers, merge_all}
use gatus_sidecar.Config.Merge.Laws.{
  overlay_opaque, merged, get-merge_into, merge_into-HasUniqueFields,
}

abbrev pub HasUniqueLayers : List (Option Object) → Type 0
HasUniqueLayers [] = Unit
HasUniqueLayers (none ∷ layers) = HasUniqueLayers layers
HasUniqueLayers (some layer ∷ layers) = HasUniqueFields layer × HasUniqueLayers layers

-- One key through the layers.
abbrev pub get_layers : Option Value → String → List (Option Object) → Option Value
get_layers under j [] = under
get_layers under j (none ∷ layers) = get_layers under j layers
get_layers under j (some layer ∷ layers) = get_layers (merged under (get j layer)) j layers

get-merge_layers :
    (j : String) (out : Object) (layers : List (Option Object))
    → HasUniqueLayers layers
    → get j (merge_layers out layers) ≡ get_layers (get j out) j layers
unfolding merge_layers
get-merge_layers j out [] u = refl
get-merge_layers j out (none ∷ layers) u = get-merge_layers j out layers u
get-merge_layers j out (some layer ∷ layers) u =
    rw (get-merge_layers j (merge_into out layer) layers u.1, get-merge_into j out layer u.0)

-- `MergeAll` folds each key by itself through the layers.
pub get-merge_all :
    (j : String) (layers : List (Option Object))
    → HasUniqueLayers layers
    → get j (merge_all layers) ≡ get_layers none j layers
unfolding merge_all get
get-merge_all j layers u = get-merge_layers j no_fields layers u

merge_layers-append :
    (out : Object) (layers : List (Option Object)) (last : Object)
    → merge_layers out (layers ++ some last ∷ []) ≡ merge_into (merge_layers out layers) last
unfolding merge_layers
merge_layers-append out [] last = refl
merge_layers-append out (none ∷ layers) last = merge_layers-append out layers last
merge_layers-append out (some layer ∷ layers) last =
    merge_layers-append (merge_into out layer) layers last

-- Whatever the earlier layers hold, a scalar or a list of the last layer stands in the result
-- (a list replaces a list, it is not appended), and a key that the last layer lacks is left alone.
pub last_layer_wins :
    (j : String) (layers : List (Option Object)) (last : Object)
    → HasUniqueFields last
    → ((v : Value)
        → get j last ≡ some v
        → as_object v ≡ none
        → get j (merge_all (layers ++ some last ∷ [])) ≡ some (copy_value v))
      × (get j last ≡ none
          → get j (merge_all (layers ++ some last ∷ [])) ≡ get j (merge_all layers))
unfolding merge_all
last_layer_wins j layers last u = (
  (λ v e h.
      rw
        (
          merge_layers-append no_fields layers last,
          get-merge_into j (merge_layers no_fields layers) last u,
          e,
        )
        (ap some (overlay_opaque (get j (merge_layers no_fields layers)) v h))),
  λ e. rw (
    merge_layers-append no_fields layers last,
    get-merge_into j (merge_layers no_fields layers) last u,
    e,
  ),
)

pub merge_all-HasUniqueFields : (layers : List (Option Object)) → HasUniqueFields (merge_all layers)
unfolding merge_all
merge_all-HasUniqueFields layers = go no_fields layers tt
  where
    go :
        (out : Object) (layers : List (Option Object))
        → HasUniqueFields out
        → HasUniqueFields (merge_layers out layers)
    go out [] u = u
    go out (none ∷ layers) u = go out layers u
    go out (some layer ∷ layers) u =
        go (merge_into out layer) layers (merge_into-HasUniqueFields out layer u)
