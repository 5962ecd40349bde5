-- ===== src/Config/Endpoint.antt =====
-- internal/config/endpoint.go: discovered endpoints before their templates are applied.
use gatus_sidecar.Prelude.{ℕ, String, Bool, Option, List, [], ◌∷◌, ◌==◌, string_eq, if◌then◌else◌}
use gatus_sidecar.Prelude.Text.{concat, decimal}
use gatus_sidecar.Value.{Object}

-- A string type in Go, with three constants.
abbrev pub Source : Type 0
Source = String

abbrev pub source_service : Source
source_service = "Service"

abbrev pub source_ingress_route : Source
source_ingress_route = "IngressRoute"

abbrev pub source_ingress_route_tcp : Source
source_ingress_route_tcp = "IngressRouteTCP"

unfoldable pub priority : Source → ℕ
priority s =
    if s == source_service
    then 0
    else if s == source_ingress_route
    then 1
    else if s == source_ingress_route_tcp
    then 1
    else 100

-- A nil patch is `none`. A port is the value of an int32 that is not negative.
pub record Endpoint : Type 0 where
  pub source : Source
  pub source_ref : String
  pub name : String
  pub group : String
  pub url : String
  pub host : String
  pub port : ℕ
  pub path : String
  pub scheme : String
  pub templates : List String
  pub templates_set : Bool
  pub extra_templates : List String
  pub patch : Option Object

unfoldable pub address : Endpoint → String
unfolding concat decimal
address e = concat (e.host ∷ ":" ∷ decimal e.port ∷ [])

unfoldable pub group_key : Endpoint → String × String
group_key e = (e.group, e.name)
