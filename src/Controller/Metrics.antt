-- ===== src/Controller/Metrics.antt =====
-- internal/controller/metrics.go, and the calls of it that `render` of render_loop.go makes.
pub mod Counting
use gatus_sidecar.Prelude.{ℕ, suc, String, Option, none, some, List, [], ◌∷◌}
use gatus_sidecar.Config.Endpoint.{Endpoint}
use gatus_sidecar.Config.Template.{Template, Decoded}
use gatus_sidecar.Config.Resolve.{new_template_set}
use gatus_sidecar.Config.Render.{RenderResult, render}
use gatus_sidecar.Controller.RenderLoop.{LoopError, LoopReport}

-- The values of the gauges and the counter; the time of the last render in seconds.
pub record Metrics : Type 0 where
  pub endpoints : ℕ
  pub sources : ℕ
  pub warnings : ℕ
  pub render_errors : ℕ
  pub last_render : ℕ

abbrev pub new_metrics : Metrics
new_metrics = record {
  endpoints = 0;
  sources = 0;
  warnings = 0;
  render_errors = 0;
  last_render = 0;
}

-- The methods, which a nil receiver (`none`) passes over.
unfoldable pub record_render : ℕ → ℕ → ℕ → Option Metrics → Option Metrics
record_render now endpoints warnings none = none
record_render now endpoints warnings (some m) =
    some (record m { endpoints = endpoints; warnings = warnings; last_render = now })

unfoldable pub record_sources : ℕ → Option Metrics → Option Metrics
record_sources n none = none
record_sources n (some m) = some (record m { sources = n })

unfoldable pub record_error : Option Metrics → Option Metrics
record_error none = none
record_error (some m) = some (record m { render_errors = suc m.render_errors })

unfoldable pub count {ℓ} : {A : Type ℓ} → List A → ℕ
count [] = 0
count (x ∷ xs) = suc (count xs)

module _ (unmarshal : String → Decoded) (default : String) where
  -- `recordRender` and `recordSources` after a write, with `now` and what `Len` returns.
  record_result : ℕ → ℕ → RenderResult → Option Metrics → Option Metrics
  unfolding record_render record_sources count
  record_result now sources result m =
      record_sources sources (record_render now (count result.endpoints) (count result.warnings) m)

  -- What `render` records for what it returns: the templates have been listed where it succeeds.
  unfoldable pub measure :
      ℕ
      → ℕ
      → List Endpoint
      → Option (List Template)
      → Option LoopError
      → Option Metrics
      → Option Metrics
  unfolding record_error record_result
  measure now sources endpoints items (some e) m = record_error m
  measure now sources endpoints none none m = m
  measure now sources endpoints (some ts) none m =
      record_result now sources (render unmarshal default endpoints (new_template_set ts)).0 m
