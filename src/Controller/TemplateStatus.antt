-- ===== src/Controller/TemplateStatus.antt =====
-- internal/controller/template_status.go: the status of each EndpointTemplate. The API server's patch
-- is a parameter (true where it fails), as are the text of an error and the time.
pub mod Quiet
use gatus_sidecar.Prelude.{
  ℕ, zero, suc, ◌+◌, ◌-◌, ◌%◌, ◌^◌, String, Bool, true, false, not, ◌&&◌, ◌||◌, Option, none, some,
  List, [], ◌∷◌, ◌++◌, ◌==◌, nat_eq, string_eq, ltb, if◌then◌else◌,
}
use gatus_sidecar.Prelude.Assoc
use gatus_sidecar.Prelude.Assoc.{Assoc}
use gatus_sidecar.Value.{ℤ, pos, negsuc, Object}
use gatus_sidecar.Config.Template.{Template, ResolveError, Decoded}
use gatus_sidecar.Config.Resolve.{TemplateSet, Result, ok, err, out_of_fuel, names, resolve_copy}
use gatus_sidecar.Registry.Compare.{int_eq}

-- A zero time is `none`.
pub record Condition : Type 0 where
  pub kind : String
  pub status : String
  pub reason : String
  pub message : String
  pub observed_generation : ℕ
  pub last_transition : Option ℕ

pub record Status : Type 0 where
  pub observed_generation : ℕ
  pub used_by : ℤ
  pub conditions : List Condition

-- `int32(n)` for an int that is not negative.
unfoldable pub to_int32 : ℕ → ℤ
to_int32 n = let m = n % 2 ^ 32 in if ltb m (2 ^ 31) then pos m else negsuc (2 ^ 32 - 1 - m)

abbrev pub condition_ready : String
condition_ready = "Ready"

unfoldable pub ready_condition :
    (ResolveError → String) → Template → Option ResolveError → Condition
ready_condition describe t none = record {
  kind = condition_ready;
  status = "True";
  reason = "Resolved";
  message = "Template resolves";
  observed_generation = t.generation;
  last_transition = none;
}
ready_condition describe t (some e) = record {
  kind = condition_ready;
  status = "False";
  reason = e.reason;
  message = describe e;
  observed_generation = t.generation;
  last_transition = none;
}

-- The fields that are compared; not the time.
unfoldable pub same_condition : Condition → Condition → Bool
same_condition h w =
    h.kind == w.kind
    && h.status == w.status
    && h.reason == w.reason
    && h.message == w.message
    && h.observed_generation == w.observed_generation

unfoldable pub same_conditions : List Condition → List Condition → Bool
unfolding same_condition
same_conditions [] [] = true
same_conditions (h ∷ have) (w ∷ want) = same_condition h w && same_conditions have want
same_conditions _ _ = false

unfoldable pub status_unchanged : Status → Status → Bool
unfolding same_conditions int_eq
status_unchanged have want =
    have.observed_generation == want.observed_generation
    && int_eq have.used_by want.used_by
    && same_conditions have.conditions want.conditions

is_set : Option ℕ → Bool
is_set none = false
is_set (some t) = true

unfoldable pub transition_time : ℕ → List Condition → Condition → Option ℕ
unfolding is_set
transition_time now [] want = some now
transition_time now (c ∷ existing) want =
    let later = transition_time now existing want in
    if c.kind == want.kind && c.status == want.status && is_set c.last_transition
    then c.last_transition
    else later

unfoldable pub with_times : ℕ → List Condition → List Condition → List Condition
unfolding transition_time
with_times now existing [] = []
with_times now existing (w ∷ want) =
    record w { last_transition = transition_time now existing w } ∷ with_times now existing want

-- What `patchStatus` writes.
unfoldable pub patched : ℕ → Status → Status → Status
unfolding with_times
patched now have want = record want { conditions = with_times now have.conditions want.conditions }

error_of : Result Object → Option ResolveError
error_of (err e) = some e
error_of _ = none

or_zero : Option ℕ → ℕ
or_zero none = 0
or_zero (some n) = n

abbrev pub no_status : Status
no_status = record { observed_generation = 0; used_by = pos 0; conditions = [] }

or_no_status : Option Status → Status
or_no_status none = no_status
or_no_status (some s) = s

unfoldable pub wanted : (ResolveError → String) → Assoc String ℕ → Template → Result Object → Status
unfolding ready_condition error_of or_zero to_int32
wanted describe usage t r = record {
  observed_generation = t.generation;
  used_by = to_int32 (or_zero (Assoc.lookup t.name usage));
  conditions = ready_condition describe t (error_of r) ∷ [];
}

-- The statuses of the templates, the patches that were sent, and the templates whose patch failed.
pub record Statuses : Type 0 where
  pub current : Assoc String Status
  pub sent : List (String × Status)
  pub failures : List String

-- One template whose status is to be `want`.
unfoldable pub update_status : (String → Status → Bool) → ℕ → String → Status → Statuses → Statuses
unfolding status_unchanged patched or_no_status
update_status fails now name want s =
    let have = or_no_status (Assoc.lookup name s.current) in
    if status_unchanged have want
    then s
    else if fails name (patched now have want)
    then record s {
      sent = s.sent ++ (name, patched now have want) ∷ [];
      failures = s.failures ++ name ∷ [];
    }
    else record s {
      current = Assoc.put name (patched now have want) s.current;
      sent = s.sent ++ (name, patched now have want) ∷ [];
    }

module _ (unmarshal : String → Decoded) (describe : ResolveError → String)
    (fails : String → Status → Bool) (now : ℕ) (usage : Assoc String ℕ) where
  update_one : Option Template → String → TemplateSet → Statuses → Statuses × TemplateSet
  unfolding wanted update_status
  update_one none name ts s = (s, ts)
  update_one (some t) name ts s =
      let (r, ts') = resolve_copy unmarshal ts name in
      (update_status fails now name (wanted describe usage t r) s, ts')

  update_each : List String → TemplateSet → Statuses → Statuses × TemplateSet
  unfolding update_one
  update_each [] ts s = (s, ts)
  update_each (name ∷ rest) ts s =
      let (s', ts') = update_one (Assoc.lookup name ts.by_name) name ts s in update_each rest ts' s'

  -- `updateTemplateStatus`
  unfoldable pub update_template_status : TemplateSet → Statuses → Statuses × TemplateSet
  unfolding update_each names
  update_template_status ts s = update_each (names ts) ts s
