-- ===== src/Controller/Startup.antt =====
-- `Start` of internal/controller/render_loop.go up to its loop: waiting for the caches, priming, and
-- the first render. What a call of another goroutine does in between is part of Wakeup.
pub mod FirstRender
use gatus_sidecar.Prelude.{String, Bool, true, false, Option, none, some, List, []}
use gatus_sidecar.Value.{Object}
use gatus_sidecar.Config.Endpoint.{Endpoint}
use gatus_sidecar.Config.Render.{Warning}
use gatus_sidecar.Config.Template.{Template, Decoded}
use gatus_sidecar.Config.Writer.{LoadResult, loaded, read_failed, parse_failed, Files, Faults}
use gatus_sidecar.Registry.{Registry, Outcome, returned, panicked, blocked, snapshot}
use gatus_sidecar.Controller.Primer.{
  Primer, Primed, primed, not_listed, prime_crashed, prime_stuck, prime,
}
use gatus_sidecar.Controller.RenderLoop.{Loop, LoopReport, render_loop}

-- The fields `WaitForCacheSync`, with what it answers, and `Prime`; `none` for nil.
pub record Hooks : Type 0 where
  pub synced : Option Bool
  pub primer : Option Primer

-- `Start` returns an error, or comes to its loop: with the kind that `Prime` could not list, the
-- registry, and what the first render did. Or a call of the registry panics or waits for ever.
pub data Started : Type 0 where
  not_synced : Started
  looping : Option String → Registry → LoopReport → Started
  start_crashed : Registry → Started
  start_stuck : Started

-- `select { case <-l.Registry.Changed(): default: }`
unfoldable pub drain : Registry → Registry
drain r = record r { changed = false }

module _ (unmarshal : String → Decoded) (default : String) (marshal : Object → Option String)
    (describe : Warning → String) (faults : Faults) (l : Loop) (fs : Files) (base : LoadResult)
    (items : Option (List Template)) where
  with_snapshot : Option String → Registry → Outcome (List Endpoint) → Started
  with_snapshot unlisted r (returned endpoints r') =
      looping unlisted r'
        (render_loop unmarshal default marshal describe faults l fs base items endpoints)
  with_snapshot unlisted r (panicked r') = start_crashed r'
  with_snapshot unlisted r blocked = start_stuck

  -- The registry is asked only after the base file and the templates have been read.
  with_inputs : Option String → Registry → LoadResult → Option (List Template) → Started
  unfolding with_snapshot
  with_inputs unlisted r (loaded b) (some ts) = with_snapshot unlisted r (snapshot r)
  with_inputs unlisted r (loaded b) none =
      looping unlisted r (render_loop unmarshal default marshal describe faults l fs base items [])
  with_inputs unlisted r read_failed ts =
      looping unlisted r (render_loop unmarshal default marshal describe faults l fs base items [])
  with_inputs unlisted r (parse_failed path) ts =
      looping unlisted r (render_loop unmarshal default marshal describe faults l fs base items [])

  first_render : Option String → Registry → Started
  unfolding with_inputs drain
  first_render unlisted r = with_inputs unlisted (drain r) base items

  -- An error of `Prime` is logged.
  after_prime : Primed → Started
  unfolding first_render
  after_prime (primed services routes tcp_routes r) = first_render none r
  after_prime (not_listed kind r) = first_render (some kind) r
  after_prime (prime_crashed r) = start_crashed r
  after_prime prime_stuck = start_stuck

  with_primer : Registry → Option Primer → Started
  unfolding after_prime prime
  with_primer r none = first_render none r
  with_primer r (some p) = after_prime (prime p r)

  with_sync : Hooks → Registry → Option Bool → Started
  unfolding with_primer
  with_sync hooks r (some false) = not_synced
  with_sync hooks r (some true) = with_primer r hooks.primer
  with_sync hooks r none = with_primer r hooks.primer

  unfoldable pub start_up : Hooks → Registry → Started
  unfolding with_sync
  start_up hooks r = with_sync hooks r hooks.synced
