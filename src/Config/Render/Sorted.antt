-- ===== src/Config/Render/Sorted.antt =====
-- About the last step of `Render` in internal/config/render.go, and `Assemble`.
use mathlib.Core.Option
use gatus_sidecar.Prelude.{
  String, ◌≡◌, ◌∙◌, ◌≢◌, List, str_less-IsOrder, str_less_antisym, string_eq, some,
}
use gatus_sidecar.Prelude.Order.{IsOrder, IsSorted, stable_sort-IsSorted, lexicographic-IsOrder}
use gatus_sidecar.Value.{list, Object}
use gatus_sidecar.Value.Fields.{get, get-put_self, get-put_ne}
use gatus_sidecar.Config.Endpoint.{Endpoint}
use gatus_sidecar.Config.Merge.{copy_value}
use gatus_sidecar.Config.Merge.Laws.{get-copy_object}
use gatus_sidecar.Config.Template.{Decoded}
use gatus_sidecar.Config.Resolve.{TemplateSet}
use gatus_sidecar.Config.Render.{
  render, string_value, by_object_name, object_less, items_of, endpoints_key, assemble,
}

by_object_name-IsOrder : IsOrder by_object_name
by_object_name-IsOrder = record {
  asym = λ a b. str_less-IsOrder.asym (string_value a "name") (string_value b "name");
  trans = λ a b c.
      str_less-IsOrder.trans (string_value a "name") (string_value b "name")
        (string_value c "name");
}

pub object_less-IsOrder : IsOrder object_less
object_less-IsOrder =
    lexicographic-IsOrder str_less-IsOrder str_less_antisym (λ o. string_value o "group")
      by_object_name by_object_name-IsOrder

-- `Render` hands back its endpoints in the order of group and name: of two of them, the later one
-- is never less than the earlier one.
pub render-IsSorted :
    (unmarshal : String → Decoded) (default : String) (eps : List Endpoint) (ts : TemplateSet)
    → IsSorted object_less (render unmarshal default eps ts).0.endpoints
unfolding render
render-IsSorted unmarshal default eps ts = stable_sort-IsSorted object_less-IsOrder _

-- `Assemble` writes the rendered list under the key endpoints and leaves a copy of the base's value
-- under every other key.
pub get-assemble :
    (base : Object) (eps : List Object)
    → (get endpoints_key (assemble base eps) ≡ some (list (items_of eps)))
      × ((j : String)
          → endpoints_key ≢ j
          → get j (assemble base eps) ≡ Option.map copy_value (get j base))
unfolding assemble
get-assemble base eps = (
  get-put_self endpoints_key _ _,
  λ j h. get-put_ne endpoints_key j _ _ h ∙ get-copy_object j base,
)
