-- ===== src/Controller/Tests/TemplateStatus.antt =====
-- The status of a template, to try internal/controller/template_status.go on.
use gatus_sidecar.Prelude.{String, ◌≡◌, refl, Bool, false, none, some, [], ◌∷◌}
use gatus_sidecar.Value.{pos}
use gatus_sidecar.Controller.TemplateStatus.{
  Condition, Status, Statuses, update_status, condition_ready,
}
use gatus_sidecar.Controller.TemplateStatus.Quiet.{update_twice}

abbrev ready : Condition
ready = record {
  kind = condition_ready;
  status = "True";
  reason = "Resolved";
  message = "Template resolves";
  observed_generation = 2;
  last_transition = none;
}

abbrev was_ready : Condition
was_ready = record ready { observed_generation = 1; last_transition = some 1700 }

abbrev want : Status
want = record { observed_generation = 2; used_by = pos 3; conditions = ready ∷ [] }

abbrev have : Status
have = record { observed_generation = 1; used_by = pos 3; conditions = was_ready ∷ [] }

abbrev statuses : Statuses
statuses = record { current = ("base", have) ∷ []; sent = []; failures = [] }

abbrev works : String → Status → Bool
works name status = false

update_twice_example :
    update_status works 1900 "base" want (update_status works 1800 "base" want statuses)
    ≡ update_status works 1800 "base" want statuses
update_twice_example = update_twice works 1800 1900 "base" want statuses (λ sent. refl)
