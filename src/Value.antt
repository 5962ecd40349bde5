-- ===== src/Value.antt =====
-- The values that Go's `any` holds after a YAML or JSON decoder has run (internal/config/merge.go
-- calls a `map[string]any` an Object), and the operations of the Go maps among them.
pub mod Fields
pub mod Float
pub mod Number
use gatus_sidecar.Prelude.{ℕ, String, Bool}

-- `negsuc n` is -(n + 1).
pub data ℤ : Type 0 where
  pos : ℕ → ℤ
  negsuc : ℕ → ℤ

-- A `float64` is held by its 64 bits.
mutual
  pub data Value : Type 0 where
    null : Value
    boolean : Bool → Value
    int : ℤ → Value
    float64 : ℕ → Value
    text : String → Value
    list : Items → Value
    object : Object → Value
    any_map : AnyMap → Value

  -- `[]any`
  pub data Items : Type 0 where
    no_items : Items
    item : Value → Items → Items

  -- `map[string]any`: the order of the fields stands for one order of iteration.
  pub data Object : Type 0 where
    no_fields : Object
    field : String → Value → Object → Object

  -- `map[any]any`
  pub data AnyMap : Type 0 where
    no_entries : AnyMap
    entry : Value → Value → AnyMap → AnyMap
