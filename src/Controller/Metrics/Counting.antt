-- ===== src/Controller/Metrics/Counting.antt =====
-- About internal/controller/metrics.go: what the metrics tell of the file on disk.
use gatus_sidecar.Prelude.{ℕ, suc, String, ◌≡◌, Option, none, some, List}
use gatus_sidecar.Value.{Object}
use gatus_sidecar.Config.Endpoint.{Endpoint}
use gatus_sidecar.Config.Template.{Template, Decoded}
use gatus_sidecar.Config.Resolve.{new_template_set}
use gatus_sidecar.Config.Render.{Warning, RenderResult, render, assemble}
use gatus_sidecar.Config.Writer.{LoadResult, Files, Faults}
use gatus_sidecar.Controller.RenderLoop.{Loop, LoopError, LoopReport, render_loop}
use gatus_sidecar.Controller.RenderLoop.Publishing.{
  Publishes, failing, succeeding, render_loop-Publishes,
}
use gatus_sidecar.Controller.Metrics.{
  Metrics, count, record_render, record_sources, record_error, measure,
}

module _ (unmarshal : String → Decoded) (default : String) (marshal : Object → Option String)
    (l : Loop) (fs : Files) (now sources : ℕ) (endpoints : List Endpoint) (m : Metrics) where
  -- An error is counted, and the gauges still tell of the document before, as the file does; or the
  -- gauges tell of the objects and the warnings of the document that the writer wrote last.
  pub data Tells (r : LoopReport) (after : Option Metrics) : Type 0 where
    stale :
        (e : LoopError)
        → r.error ≡ some e
        → r.files.target ≡ fs.target
        → after ≡ some (record m { render_errors = suc m.render_errors })
        → Tells r after
    fresh :
        (base : Object) (result : RenderResult) (content : String)
        → r.error ≡ none
        → marshal (assemble base result.endpoints) ≡ some content
        → r.loop.writer.last ≡ some content
        → after
          ≡ some (record m {
            endpoints = count result.endpoints;
            warnings = count result.warnings;
            sources = sources;
            last_render = now;
          })
        → Tells r after

  Publishes-Tells :
      (base : LoadResult) (items : Option (List Template)) (r : LoopReport)
      → Publishes unmarshal default marshal l fs base items endpoints r
      → Tells r (measure unmarshal default now sources endpoints items r.error (some m))
  unfolding measure record_render record_sources record_error
  Publishes-Tells base items r (failing e h t w q) = stale e h t (rw h)
  Publishes-Tells base items r (succeeding b ts content h lo hi ma la re wr un) =
      fresh b (render unmarshal default endpoints (new_template_set ts)).0 content h ma la
        (rw (h, hi))

  -- After a render the metrics tell of it: a failure, which leaves the file as it was, adds one to the
  -- errors and nothing else; and a success sets the gauges to what was encoded and is the writer's last
  -- content, and leaves the errors.
  pub render_loop-Tells :
      (describe : Warning → String) (faults : Faults) (base : LoadResult)
      (items : Option (List Template))
      → Tells (render_loop unmarshal default marshal describe faults l fs base items endpoints) (
          measure unmarshal default now sources endpoints items
            (render_loop unmarshal default marshal describe faults l fs base items endpoints).error
            (some m))
  render_loop-Tells describe faults base items =
      Publishes-Tells base items _
        (render_loop-Publishes unmarshal default marshal describe faults l fs base items endpoints)
