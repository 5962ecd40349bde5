-- ===== src/Config/Template.antt =====
-- api/v1alpha1/endpointtemplate_types.go: the parts of an EndpointTemplate that the sidecar reads,
-- and the errors of internal/config/resolve.go.
use gatus_sidecar.Prelude.{ℕ, String, Option, List}
use gatus_sidecar.Value.{Object}

pub record Template : Type 0 where
  pub name : String
  pub generation : ℕ
  pub extends : List String
  pub default_for : List String
  pub scheme : String
  -- The raw JSON of `spec.endpoint`; absent for a nil pointer.
  pub endpoint : Option String

abbrev pub reason_unknown_parent : String
reason_unknown_parent = "UnknownParent"

abbrev pub reason_cycle : String
reason_cycle = "Cycle"

abbrev pub reason_invalid_endpoint : String
reason_invalid_endpoint = "InvalidEndpoint"

-- What a message says, before `fmt.Sprintf` makes a text of it.
pub data Message : Type 0 where
  extends_cycle : List String → String → Message
  not_found : String → Message
  extends_failed : String → Message → Message
  not_an_object : String → Message

pub record ResolveError : Type 0 where
  pub template : String
  pub reason : String
  pub message : Message

-- What `json.Unmarshal` into an Object answers: an error with its text, or the mapping, which is
-- nil for a JSON `null`. The decoder of encoding/json is a parameter of what calls it.
pub data Decoded : Type 0 where
  malformed : String → Decoded
  decoded : Option Object → Decoded
