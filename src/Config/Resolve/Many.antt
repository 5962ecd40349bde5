-- ===== src/Config/Resolve/Many.antt =====
-- About `ResolveMany` of internal/config/resolve.go.
use gatus_sidecar.Prelude.{String, ◌≡◌, refl, sym, ◌∙◌, subst, List, [], ◌∷◌, ◌++◌}
use gatus_sidecar.Value.{Object, no_fields}
use gatus_sidecar.Value.Fields.{HasUniqueFields}
use gatus_sidecar.Config.Merge.{merge_into}
use gatus_sidecar.Config.Merge.Laws.{merge_into-HasUniqueFields}
use gatus_sidecar.Config.Template.{ResolveError, Decoded}
use gatus_sidecar.Config.Resolve.{
  Templates, TemplateSet, Result, ok, err, out_of_fuel, resolve_top, absorb, resolve_each,
  resolve_many,
}
use gatus_sidecar.Config.Resolve.Sound.{Answers, IsSound}
use gatus_sidecar.Config.Resolve.Correct.{resolve_top-IsGood}

absorb-HasUniqueFields :
    (unmarshal : String → Decoded) (r : Result Object) (acc : Object × List ResolveError)
    → HasUniqueFields acc.0
    → HasUniqueFields (absorb unmarshal r acc).0
unfolding absorb
absorb-HasUniqueFields unmarshal (ok o) acc u = merge_into-HasUniqueFields acc.0 o u
absorb-HasUniqueFields unmarshal (err e) acc u = u
absorb-HasUniqueFields unmarshal out_of_fuel acc u = u

resolve_each-HasUniqueFields :
    (unmarshal : String → Decoded) (names : List String) (acc : Object × List ResolveError)
    (ts : TemplateSet)
    → HasUniqueFields acc.0
    → HasUniqueFields (resolve_each unmarshal names acc ts).0.0
unfolding resolve_each
resolve_each-HasUniqueFields unmarshal [] acc ts u = u
resolve_each-HasUniqueFields unmarshal (name ∷ names) acc ts u =
    resolve_each-HasUniqueFields unmarshal names _ _
      (absorb-HasUniqueFields unmarshal (resolve_top unmarshal ts name).0 acc u)

-- Each key once in the merged layer.
pub resolve_many-HasUniqueFields :
    (unmarshal : String → Decoded) (ts : TemplateSet) (names : List String)
    → HasUniqueFields (resolve_many unmarshal ts names).0.0
unfolding resolve_many
resolve_many-HasUniqueFields unmarshal ts names =
    resolve_each-HasUniqueFields unmarshal names (no_fields, []) ts tt

-- One answer for each name, in order.
abbrev pub AllAnswer : (String → Decoded) → Templates → List String → List (Result Object) → Type 0
AllAnswer unmarshal by_name [] [] = Unit
AllAnswer unmarshal by_name (n ∷ ns) (r ∷ rs) =
    Answers unmarshal by_name n r × AllAnswer unmarshal by_name ns rs
AllAnswer unmarshal by_name _ _ = ⊥

-- The layer and the errors that answers add up to: what a name means is merged over the layer of the
-- names before it, and what has no meaning is reported and left out.
abbrev pub total : Object → List ResolveError → List (Result Object) → Object × List ResolveError
total out errs [] = (out, errs)
total out errs (ok o ∷ rs) = total (merge_into out o) errs rs
total out errs (err e ∷ rs) = total out (errs ++ e ∷ []) rs
total out errs (out_of_fuel ∷ rs) = total out errs rs

-- The outcome of resolving the names in turn from `out` and `errs`.
pub record AddsUp (unmarshal : String → Decoded) (by_name : Templates) (names : List String)
    (out : Object) (errs : List ResolveError) (result : (Object × List ResolveError) × TemplateSet)
    : Type 0 where
  pub answers : List (Result Object)
  pub right : AllAnswer unmarshal by_name names answers
  pub sum : result.0 ≡ total out errs answers
  pub sound : IsSound unmarshal by_name result.1.cache
  pub same : result.1.by_name ≡ by_name

total-absorb :
    (unmarshal : String → Decoded) (r : Result Object) (acc : Object × List ResolveError)
    (rs : List (Result Object))
    → total (absorb unmarshal r acc).0 (absorb unmarshal r acc).1 rs ≡ total acc.0 acc.1 (r ∷ rs)
unfolding absorb
total-absorb unmarshal (ok o) acc rs = refl
total-absorb unmarshal (err e) acc rs = refl
total-absorb unmarshal out_of_fuel acc rs = refl

resolve_each-AddsUp :
    (unmarshal : String → Decoded) (by_name : Templates) (names : List String)
    (acc : Object × List ResolveError) (ts : TemplateSet)
    → ts.by_name ≡ by_name
    → IsSound unmarshal by_name ts.cache
    → AddsUp unmarshal by_name names acc.0 acc.1 (resolve_each unmarshal names acc ts)
unfolding resolve_each
resolve_each-AddsUp unmarshal by_name [] acc ts same s = record {
  answers = [];
  right = tt;
  sum = refl;
  sound = s;
  same = same;
}
resolve_each-AddsUp unmarshal by_name (name ∷ names) acc ts same s =
    let (a, s', same') =
      resolve_top-IsGood unmarshal ts name
        (subst (λ b. IsSound unmarshal b ts.cache) (sym same) s) in
    let r = (resolve_top unmarshal ts name).0 in
    let rest =
      resolve_each-AddsUp unmarshal by_name names (absorb unmarshal r acc)
        (resolve_top unmarshal ts name).1 (same' ∙ same)
        (subst (λ b. IsSound unmarshal b (resolve_top unmarshal ts name).1.cache) same s') in
    record {
      answers = r ∷ rest.answers;
      right = (subst (λ b. Answers unmarshal b name r) same a, rest.right);
      sum = rest.sum ∙ total-absorb unmarshal r acc rest.answers;
      sound = rest.sound;
      same = rest.same;
    }

-- From a sound cache `ResolveMany` merges, in the order of the names, what each name means, reports
-- each name that means nothing, once and in order, and leaves a sound cache.
pub resolve_many-AddsUp :
    (unmarshal : String → Decoded) (ts : TemplateSet) (names : List String)
    → IsSound unmarshal ts.by_name ts.cache
    → AddsUp unmarshal ts.by_name names no_fields [] (resolve_many unmarshal ts names)
unfolding resolve_many
resolve_many-AddsUp unmarshal ts names s =
    resolve_each-AddsUp unmarshal ts.by_name names (no_fields, []) ts refl s
