-- ===== src/Config/Render/Names.antt =====
-- About the loop of `Render` in internal/config/render.go.
use mathlib.Core.Logic.Or
use mathlib.Core.HLevel.{⊥_prop}
use mathlib.Core.List.{
  Mem, Nodup, Nodup-cons, Nodup-nil, mem-cons, mem-cons_self, mem-cons_of_mem, not-mem-nil,
}
use gatus_sidecar.Prelude.{
  String, ◌≡◌, refl, sym, ap, ◌∙◌, subst, ◌≢◌, inl, inr, Option, none, some, List, [], ◌∷◌, map,
  string_eq, pair_eq, none≢some, eq_or_ne,
}
use gatus_sidecar.Prelude.Assoc
use gatus_sidecar.Prelude.Assoc.{Assoc, IsAbsent, lookup-put_self, lookup-put_ne}
use gatus_sidecar.Value.{Object}
use gatus_sidecar.Config.Endpoint.{Endpoint, group_key}
use gatus_sidecar.Config.Template.{Decoded}
use gatus_sidecar.Config.Render.{RenderState, render_one, keep_name, render_each}

-- An endpoint that is kept, with the state in which it is rendered.
abbrev pub Kept : Type 0
Kept = Endpoint × RenderState

abbrev pub kept_key : Kept → String × String
kept_key k = group_key k.0

abbrev pub Seen : Type 0
Seen = Assoc (String × String) Endpoint

pub record KeepsNames (unmarshal : String → Decoded) (default : String) (seen : Seen)
    (eps : List Endpoint) (out : List Object) : Type 0 where
  pub kept : List Kept
  -- The objects are what `renderOne` makes of the kept endpoints.
  pub objects : out ≡ map (λ k. (render_one unmarshal default k.0 k.1).0) kept
  pub distinct : Nodup (map kept_key kept)
  pub from_input : (e : Endpoint) → Mem e (map (λ k. k.0) kept) → Mem e eps
  pub fresh :
      (key : String × String)
      → Mem key (map kept_key kept)
      → (prev : Endpoint) → Assoc.lookup key seen ≢ some prev
  pub complete :
      (key : String × String)
      → Mem key (map group_key eps)
      → IsAbsent key seen
      → Mem key (map kept_key kept)

key_prop : (key : String × String) (l : List (String × String)) → IsProp (Mem key l)
key_prop key l = hlevel

endpoint_prop : (e : Endpoint) (l : List Endpoint) → IsProp (Mem e l)
endpoint_prop e l = hlevel

module _ (unmarshal : String → Decoded) (default : String) where
  abbrev Keeps : Seen → List Endpoint → List Object → Type 0
  Keeps = KeepsNames unmarshal default

  none_kept : (seen : Seen) → Keeps seen [] []
  none_kept seen = record {
    kept = [];
    objects = refl;
    distinct = Nodup-nil;
    from_input = λ e m. m;
    fresh = λ key m. absurd (not-mem-nil m);
    complete = λ key m a. m;
  }

  dropped :
      (seen : Seen) (ep prev : Endpoint) (eps : List Endpoint) (out : List Object)
      → Assoc.lookup (group_key ep) seen ≡ some prev
      → Keeps seen eps out
      → Keeps seen (ep ∷ eps) out
  dropped seen ep prev eps out found k = record {
    kept = k.kept;
    objects = k.objects;
    distinct = k.distinct;
    from_input = λ e m. mem-cons_of_mem ep (k.from_input e m);
    fresh = k.fresh;
    complete = λ key m a.
        k.complete key
          (Or.elim (key_prop key (map group_key eps)) (mem-cons.0 m)
            (λ same. absurd (none≢some {a = prev} (sym a ∙ rw same found))) (λ r. r))
          a;
  }

  added :
      (seen : Seen) (ep : Endpoint) (s : RenderState) (eps : List Endpoint) (out : List Object)
      → IsAbsent (group_key ep) seen
      → Keeps (Assoc.put (group_key ep) ep seen) eps out
      → Keeps seen (ep ∷ eps) ((render_one unmarshal default ep s).0 ∷ out)
  added seen ep s eps out new k = record {
    kept = (ep, s) ∷ k.kept;
    objects = ap (◌∷◌ (render_one unmarshal default ep s).0) k.objects;
    distinct =
        Nodup-cons.1
          ((λ m. k.fresh (group_key ep) m ep (lookup-put_self (group_key ep) ep seen)), k.distinct);
    from_input = λ e m.
        Or.elim (endpoint_prop e (ep ∷ eps)) (mem-cons.0 m)
          (λ same. subst (λ y. Mem e (y ∷ eps)) same mem-cons_self)
          λ r. mem-cons_of_mem ep (k.from_input e r);
    fresh = λ key m prev found. elim (eq_or_ne (group_key ep) key) [
      | inl same ↦ none≢some {a = prev} (sym new ∙ (rw same found))
      | inr other ↦
          Or.elim ⊥_prop (mem-cons.0 m) (λ same. other (sym same))
            λ r. k.fresh key r prev (lookup-put_ne (group_key ep) key ep seen other ∙ found)
    ];
    complete = λ key m a. elim (eq_or_ne (group_key ep) key) [
      | inl same ↦ subst (λ x. Mem x (group_key ep ∷ map kept_key k.kept)) same mem-cons_self
      | inr other ↦ mem-cons_of_mem (group_key ep) (
          k.complete key
            (Or.elim (key_prop key (map group_key eps)) (mem-cons.0 m)
              (λ same. absurd (other (sym same))) (λ r. r))
            (lookup-put_ne (group_key ep) key ep seen other ∙ a))
    ];
  }

  one_round :
      (ep : Endpoint) (eps : List Endpoint) (s : RenderState)
      → ((s' : RenderState) → Keeps s'.seen eps (render_each unmarshal default eps s').0)
      → (found : Option Endpoint) → Assoc.lookup (group_key ep) s.seen ≡ found
      → Keeps s.seen
          (ep ∷ eps)
          (keep_name unmarshal default ep
            (render_one unmarshal default ep s).0
            (record (render_one unmarshal default ep s).1 { seen = s.seen })
            (render_each unmarshal default eps)
            found).0
  unfolding keep_name
  one_round ep eps s ih none h = added s.seen ep s eps _ h (ih _)
  one_round ep eps s ih (some prev) h = dropped s.seen ep prev eps _ h (ih _)

  -- For each group and name among the endpoints that have not been seen before, the loop hands back
  -- just one object, that of an endpoint of the list with this group and name.
  pub render_each-KeepsNames :
      (eps : List Endpoint) (s : RenderState)
      → KeepsNames unmarshal default s.seen eps (render_each unmarshal default eps s).0
  unfolding render_each render_one
  render_each-KeepsNames [] s = none_kept s.seen
  render_each-KeepsNames (ep ∷ eps) s =
      one_round ep eps s (render_each-KeepsNames eps) (Assoc.lookup (group_key ep) s.seen) refl
