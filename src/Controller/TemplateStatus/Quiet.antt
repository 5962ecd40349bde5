-- ===== src/Controller/TemplateStatus/Quiet.antt =====
-- About internal/controller/template_status.go, for a template that has not changed.
use gatus_sidecar.Prelude.{
  ℕ, String, ◌≡◌, refl, sym, ap, ◌∙◌, subst, Bool, true, false, ◌&&◌, Option, some, List, [], ◌∷◌,
  arith, ◌==◌, nat_eq, string_eq, if_elim, if_true, beq_refl,
}
use mathlib.Core.Bool.{false≢true}
use gatus_sidecar.Prelude.Assoc
use gatus_sidecar.Prelude.Assoc.{lookup-put_self, lookup-put_ne}
use gatus_sidecar.Value.{ℤ, pos, negsuc}
use gatus_sidecar.Registry.Compare.{int_eq}
use gatus_sidecar.Controller.TemplateStatus.{
  Condition, Status, Statuses, same_condition, same_conditions, status_unchanged, is_set,
  transition_time, with_times, patched, or_no_status, update_status,
}

int_eq_self : (n : ℤ) → int_eq n n ≡ true
unfolding int_eq
int_eq_self (pos n) = beq_refl n
int_eq_self (negsuc n) = beq_refl n

same_condition-time :
    (c : Condition) (t : Option ℕ) → same_condition (record c { last_transition = t }) c ≡ true
unfolding same_condition
same_condition-time c t = rw (
  beq_refl c.kind,
  beq_refl c.status,
  beq_refl c.reason,
  beq_refl c.message,
  beq_refl c.observed_generation,
)

same_conditions-times :
    (now : ℕ) (existing want : List Condition)
    → same_conditions (with_times now existing want) want ≡ true
unfolding same_conditions with_times
same_conditions-times now existing [] = refl
same_conditions-times now existing (c ∷ want) = rw (
  same_condition-time c (transition_time now existing c),
  same_conditions-times now existing want,
)

patched-unchanged :
    (now : ℕ) (have want : Status) → status_unchanged (patched now have want) want ≡ true
unfolding status_unchanged patched
patched-unchanged now have want = rw (
  beq_refl want.observed_generation,
  int_eq_self want.used_by,
  same_conditions-times now have.conditions want.conditions,
)

-- The template has the status, up to the time of the transition.
abbrev HasStatus : String → Status → Statuses → Type 0
HasStatus name want s = status_unchanged (or_no_status (Assoc.lookup name s.current)) want ≡ true

update-known :
    (fails : String → Status → Bool) (now : ℕ) (name : String) (want : Status) (s : Statuses)
    → HasStatus name want s
    → update_status fails now name want s ≡ s
unfolding update_status
update-known fails now name want s h = if_true _ _ h

update-HasStatus :
    (fails : String → Status → Bool) (now : ℕ) (name : String) (want : Status) (s : Statuses)
    → ((sent : Status) → fails name sent ≡ false)
    → HasStatus name want (update_status fails now name want s)
unfolding update_status or_no_status
update-HasStatus fails now name want s works =
    let have = or_no_status (Assoc.lookup name s.current) in
    if_elim (HasStatus name want) (status_unchanged have want) s _ (λ b. b)
      λ b.
        if_elim (HasStatus name want) (fails name (patched now have want)) _ _
          (λ f. absurd (false≢true (sym (works (patched now have want)) ∙ f)))
          λ f.
            subst (λ o. status_unchanged (or_no_status o) want ≡ true)
              (sym (lookup-put_self name (patched now have want) s.current))
              (patched-unchanged now have want)

-- A status is sent once: if a first update with the wanted status does not fail, a second one with the
-- same status, at any later time, sends nothing and changes nothing.
pub update_twice :
    (fails : String → Status → Bool) (now later : ℕ) (name : String) (want : Status) (s : Statuses)
    → ((sent : Status) → fails name sent ≡ false)
    → update_status fails later name want (update_status fails now name want s)
      ≡ update_status fails now name want s
update_twice fails now later name want s works =
    update-known fails later name want (update_status fails now name want s)
      (update-HasStatus fails now name want s works)

-- While a condition keeps its status, the patch keeps the time at which it was reached.
pub patched-keeps_time :
    (now t : ℕ) (have want : Condition) (g : ℕ) (used : ℤ) (h : Status)
    → have.kind ≡ want.kind
    → have.status ≡ want.status
    → have.last_transition ≡ some t
    → h.conditions ≡ have ∷ []
    → (patched now h
        (record { observed_generation = g; used_by = used; conditions = want ∷ [] })).conditions
      ≡ record want { last_transition = some t } ∷ []
unfolding patched with_times transition_time is_set
patched-keeps_time now t have want g used h k s l c =
    ap (λ x. record want { last_transition = x } ∷ [])
      (rw c (
        if_true
          {b = have.kind == want.kind && have.status == want.status && is_set have.last_transition}
          have.last_transition (some now)
          (ground (
            arith,
            string_eq.beq_iff have.kind want.kind,
            string_eq.beq_iff have.status want.status,
          ))
        ∙ l))
