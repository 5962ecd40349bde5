-- ===== src/Controller/RenderLoop.antt =====
-- `render` of internal/controller/render_loop.go: from the base file, the templates and the registry
-- to the published file. The YAML encoder is a parameter, and so is the text of a warning, in which
-- warnings are compared. The metrics are in Metrics.
pub mod Publishing
use gatus_sidecar.Prelude.{
  ℕ, String, Bool, true, false, not, ◌&&◌, ◌||◌, Option, none, some, List, [], ◌∷◌, map, ◌==◌,
  string_eq, if◌then◌else◌,
}
use gatus_sidecar.Prelude.Assoc.{Assoc}
use gatus_sidecar.Value.{Object}
use gatus_sidecar.Config.Endpoint.{Endpoint}
use gatus_sidecar.Config.Template.{Template, Decoded}
use gatus_sidecar.Config.Resolve.{TemplateSet, new_template_set}
use gatus_sidecar.Config.Render.{Warning, RenderResult, render, assemble}
use gatus_sidecar.Config.Writer.{
  LoadResult, loaded, read_failed, parse_failed, Files, Faults, Writer, WriteResult, unchanged,
  changed, failed, Failure, Report, write,
}

-- The fields of `RenderLoop` that a render changes.
pub record Loop : Type 0 where
  pub writer : Writer
  pub last_warnings : List String
  pub warned_once : Bool
  pub ready : Bool

pub data LoopError : Type 0 where
  base_unreadable : LoopError
  templates_unlisted : LoopError
  not_marshalled : LoopError
  not_written : Failure → LoopError

-- What is logged of the warnings: each of them, and that there are none any more.
pub record Log : Type 0 where
  pub skipped : List String
  pub all_render : Bool

pub record LoopReport : Type 0 where
  pub error : Option LoopError
  pub wrote : Bool
  pub loop : Loop
  pub log : Log
  pub files : Files
  pub history : List Files

-- `equalWarnings`
unfoldable pub equal_warnings : List String → List String → Bool
equal_warnings [] [] = true
equal_warnings (a ∷ as') (b ∷ bs) = a == b && equal_warnings as' bs
equal_warnings _ _ = false

abbrev pub silent : Log
silent = record { skipped = []; all_render = false }

is_empty : List String → Bool
is_empty [] = true
is_empty (s ∷ ss) = false

-- The warnings that are new are logged and remembered.
unfoldable pub warn : Loop → List String → Loop × Log
unfolding is_empty equal_warnings
warn l warnings =
    if not l.warned_once || not (equal_warnings l.last_warnings warnings)
    then (
      record l { last_warnings = warnings; warned_once = true },
      record { skipped = warnings; all_render = l.warned_once && is_empty warnings },
    )
    else (l, silent)

abbrev pub stopped : LoopError → Loop → Log → Files → LoopReport
stopped e l log fs = record {
  error = some e;
  wrote = false;
  loop = l;
  log = log;
  files = fs;
  history = [];
}

after_write : Loop → Log → WriteResult → Report → LoopReport
after_write l log (failed e) r = record {
  error = some (not_written e);
  wrote = false;
  loop = record l { writer = r.writer };
  log = log;
  files = r.files;
  history = r.history;
}
after_write l log unchanged r = record {
  error = none;
  wrote = false;
  loop = record l { writer = r.writer; ready = true };
  log = log;
  files = r.files;
  history = r.history;
}
after_write l log changed r = record {
  error = none;
  wrote = true;
  loop = record l { writer = r.writer; ready = true };
  log = log;
  files = r.files;
  history = r.history;
}

publish : Faults → Loop → Log → Files → Option String → LoopReport
unfolding after_write
publish faults l log fs none = stopped not_marshalled l log fs
publish faults l log fs (some content) =
    let r = write faults l.writer content fs in after_write l log r.result r

module _ (unmarshal : String → Decoded) (default : String) (marshal : Object → Option String)
    (describe : Warning → String) where
  unfoldable pub with_templates :
      Faults → Loop → Files → Object → List Endpoint → Option (List Template) → LoopReport
  unfolding publish warn
  with_templates faults l fs base endpoints none = stopped templates_unlisted l silent fs
  with_templates faults l fs base endpoints (some items) =
      let result = (render unmarshal default endpoints (new_template_set items)).0 in
      let (l', log) = warn l (map describe result.warnings) in
      publish faults l' log fs (marshal (assemble base result.endpoints))

  -- `render`, up to the update of the status.
  unfoldable pub render_loop :
      Faults → Loop → Files → LoadResult → Option (List Template) → List Endpoint → LoopReport
  unfolding with_templates
  render_loop faults l fs (loaded base) items endpoints =
      with_templates faults l fs base endpoints items
  render_loop faults l fs _ items endpoints = stopped base_unreadable l silent fs
