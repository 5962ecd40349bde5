-- ===== src/Controller/RenderLoop/Publishing.antt =====
-- About `render` of internal/controller/render_loop.go.
use gatus_sidecar.Prelude.{
  String, ◌≡◌, refl, sym, ap, ◌∙◌, subst, true, false, not, ◌||◌, Option, none, some, List, [], ◌∷◌,
  map, arith, string_eq, if_elim, if_false, beq_refl,
}
use gatus_sidecar.Value.{Object}
use gatus_sidecar.Config.Endpoint.{Endpoint}
use gatus_sidecar.Config.Template.{Template, Decoded}
use gatus_sidecar.Config.Resolve.{new_template_set}
use gatus_sidecar.Config.Render.{Warning, render, assemble}
use gatus_sidecar.Config.Writer.{
  LoadResult, loaded, read_failed, parse_failed, Files, Faults, WriteResult, unchanged, changed,
  failed, Report, write,
}
use gatus_sidecar.Config.Writer.Atomic.{Leaves, write-IsAtomic, published}
use gatus_sidecar.Controller.RenderLoop.{
  Loop, LoopError, base_unreadable, templates_unlisted, not_marshalled, not_written, Log,
  LoopReport, equal_warnings, silent, warn, after_write, publish, with_templates, render_loop,
}

-- The document of a render.
abbrev pub document : (String → Decoded) → String → Object → List Template → List Endpoint → Object
document unmarshal default base items endpoints =
    assemble base (render unmarshal default endpoints (new_template_set items)).0.endpoints

-- A render that fails leaves the target, the record of the last write and readiness as they were. One
-- that succeeds has loaded a base, listed the templates and encoded the document of the two and of the
-- endpoints; the sidecar is ready, and the writer's last content is that document.
pub data Publishes (unmarshal : String → Decoded) (default : String)
    (marshal : Object → Option String) (l : Loop) (fs : Files) (base : LoadResult)
    (items : Option (List Template)) (endpoints : List Endpoint) (r : LoopReport) : Type 0 where
  failing :
      (e : LoopError)
      → r.error ≡ some e
      → r.files.target ≡ fs.target
      → r.loop.writer ≡ l.writer
      → r.loop.ready ≡ l.ready
      → Publishes unmarshal default marshal l fs base items endpoints r
  succeeding :
      (b : Object) (ts : List Template) (content : String)
      → r.error ≡ none
      → base ≡ loaded b
      → items ≡ some ts
      → marshal (document unmarshal default b ts endpoints) ≡ some content
      → r.loop.writer.last ≡ some content
      → r.loop.ready ≡ true
      → (r.wrote ≡ true → r.files.target ≡ some (published content))
      → (r.wrote ≡ false → r.files ≡ fs)
      → Publishes unmarshal default marshal l fs base items endpoints r

warn-keeps :
    (l : Loop) (warnings : List String)
    → ((warn l warnings).0.writer ≡ l.writer) × ((warn l warnings).0.ready ≡ l.ready)
unfolding warn
warn-keeps l warnings =
    if_elim (λ (r : Loop × Log). (r.0.writer ≡ l.writer) × (r.0.ready ≡ l.ready))
      (not l.warned_once || not (equal_warnings l.last_warnings warnings)) _ _ (λ b. (refl, refl))
      (λ b. (refl, refl))

module _ (unmarshal : String → Decoded) (default : String) (marshal : Object → Option String)
    (describe : Warning → String) where
  written :
      (faults : Faults) (l l' : Loop) (log : Log) (fs : Files) (b : Object) (ts : List Template)
      (eps : List Endpoint) (content : String)
      → l'.writer ≡ l.writer
      → l'.ready ≡ l.ready
      → marshal (document unmarshal default b ts eps) ≡ some content
      → (result : WriteResult) (r : Report)
      → Leaves faults l'.writer content fs result r.writer r.files r.history
      → Publishes unmarshal default marshal l fs
          (loaded b)
          (some ts)
          eps
          (after_write l' log result r)
  unfolding after_write
  written faults l l' log fs b ts eps content w y m (failed e) r left =
      failing (not_written e) refl left.0 (left.1 ∙ w) y
  written faults l l' log fs b ts eps content w y m unchanged r left =
      succeeding b ts content refl refl refl m left.2 refl (λ k. cc) (λ k. left.0)
  written faults l l' log fs b ts eps content w y m changed r left =
      succeeding b ts content refl refl refl m left.2 refl (λ k. left.0) (λ k. cc)

  encoded :
      (faults : Faults) (l l' : Loop) (log : Log) (fs : Files) (b : Object) (ts : List Template)
      (eps : List Endpoint)
      → l'.writer ≡ l.writer
      → l'.ready ≡ l.ready
      → (content : Option String) → marshal (document unmarshal default b ts eps) ≡ content
      → Publishes unmarshal default marshal l fs
          (loaded b)
          (some ts)
          eps
          (publish faults l' log fs content)
  unfolding publish
  encoded faults l l' log fs b ts eps w y none m = failing not_marshalled refl refl w y
  encoded faults l l' log fs b ts eps w y (some content) m =
      let r = write faults l'.writer content fs in
      written faults l l' log fs b ts eps content w y m r.result r
        (write-IsAtomic faults l'.writer content fs).left

  -- `render` publishes or fails, as `Publishes` says.
  pub render_loop-Publishes :
      (faults : Faults) (l : Loop) (fs : Files) (base : LoadResult) (items : Option (List Template))
      (eps : List Endpoint)
      → Publishes unmarshal default marshal l fs base items eps
          (render_loop unmarshal default marshal describe faults l fs base items eps)
  unfolding render_loop with_templates
  render_loop-Publishes faults l fs (loaded b) none eps =
      failing templates_unlisted refl refl refl refl
  render_loop-Publishes faults l fs (loaded b) (some ts) eps =
      let warnings = map describe (render unmarshal default eps (new_template_set ts)).0.warnings in
      let (w, y) = warn-keeps l warnings in
      encoded faults l (warn l warnings).0 (warn l warnings).1 fs b ts eps w y _ refl
  render_loop-Publishes faults l fs read_failed items eps =
      failing base_unreadable refl refl refl refl
  render_loop-Publishes faults l fs (parse_failed path) items eps =
      failing base_unreadable refl refl refl refl

equal_warnings_self : (ws : List String) → equal_warnings ws ws ≡ true
unfolding equal_warnings
equal_warnings_self [] = refl
equal_warnings_self (w ∷ ws) = rw (beq_refl w, equal_warnings_self ws)

equal_warnings-eq : (vs ws : List String) → equal_warnings vs ws ≡ true → vs ≡ ws
unfolding equal_warnings
equal_warnings-eq [] [] h = refl
equal_warnings-eq [] (w ∷ ws) h = cc
equal_warnings-eq (v ∷ vs) [] h = cc
equal_warnings-eq (v ∷ vs) (w ∷ ws) h =
    let same : v ≡ w = (string_eq.beq_iff v w).0 (ground arith) in
    let rest : vs ≡ ws = equal_warnings-eq vs ws (ground arith) in
    ap (λ x. x ∷ vs) same ∙ ap (◌∷◌ w) rest

-- After a render the loop remembers the warnings of that render, and a second render with the same
-- warnings logs nothing and remembers the same.
pub warn_once :
    (l : Loop) (warnings : List String)
    → ((warn l warnings).0.warned_once ≡ true)
      × ((warn l warnings).0.last_warnings ≡ warnings)
      × (warn (warn l warnings).0 warnings ≡ ((warn l warnings).0, silent))
warn_once l warnings = let (on, same) = remembers in (on, same, quiet (warn l warnings).0 on same)
  where
    remembers :
        ((warn l warnings).0.warned_once ≡ true) × ((warn l warnings).0.last_warnings ≡ warnings)
    remembers =
        unfold warn in
        if_elim (λ (r : Loop × Log). (r.0.warned_once ≡ true) × (r.0.last_warnings ≡ warnings))
          (not l.warned_once || not (equal_warnings l.last_warnings warnings)) _ _
          (λ b. (refl, refl))
          (λ b. (ground arith, equal_warnings-eq l.last_warnings warnings (ground arith)))

    quiet :
        (k : Loop)
        → k.warned_once ≡ true
        → k.last_warnings ≡ warnings
        → warn k warnings ≡ (k, silent)
    quiet k on same =
        unfold warn in
        if_false {b = not k.warned_once || not (equal_warnings k.last_warnings warnings)} _ _ (
          let e : equal_warnings k.last_warnings warnings ≡ true =
            subst (λ x. equal_warnings x warnings ≡ true) (sym same)
              (equal_warnings_self warnings) in
          ground arith)
