-- ===== src/Config/Resolve.antt =====
-- internal/config/resolve.go: an immutable set of templates, flattened along their `extends` chains
-- with a cache of the results and of the failures. `resolve` recurs on fuel, one unit for each
-- template on the stack.
pub mod Flatten
pub mod Stack
pub mod Sound
pub mod Correct
pub mod Many
use gatus_sidecar.Prelude.{
  ℕ, zero, suc, String, Bool, true, false, ◌||◌, Option, none, some, List, [], ◌∷◌, ◌++◌, ◌==◌,
  string_eq, if◌then◌else◌, str_less,
}
use gatus_sidecar.Prelude.Assoc
use gatus_sidecar.Prelude.Assoc.{Assoc}
use gatus_sidecar.Prelude.Order.{stable_sort}
use gatus_sidecar.Prelude.Text.{equal_fold, to_lower}
use gatus_sidecar.Value.{Object, no_fields}
use gatus_sidecar.Config.Merge.{merge_into, copy_object}
use gatus_sidecar.Config.Template.{
  Template, Message, extends_cycle, not_found, extends_failed, not_an_object, ResolveError, Decoded,
  malformed, decoded, reason_cycle, reason_unknown_parent, reason_invalid_endpoint,
}

abbrev pub Templates : Type 0
Templates = Assoc String Template

-- The maps that a resolution fills.
pub record Cache : Type 0 where
  pub resolved : Assoc String Object
  pub failed : Assoc String ResolveError

pub record TemplateSet : Type 0 where
  pub by_name : Templates
  pub cache : Cache

-- The loop of `NewTemplateSet`: of two templates of one name the later one stays.
index : Templates → List Template → Templates
index by_name [] = by_name
index by_name (t ∷ ts) = index (Assoc.put t.name t by_name) ts

unfoldable pub new_template_set : List Template → TemplateSet
unfolding index
new_template_set templates = record {
  by_name = index [] templates;
  cache = record { resolved = []; failed = [] };
}

pub data Result {ℓ} (A : Type ℓ) : Type ℓ where
  ok : A → Result A
  err : ResolveError → Result A
  out_of_fuel : Result A

unfoldable pub contains : String → List String → Bool
contains name [] = false
contains name (seen ∷ stack) = seen == name || contains name stack

unfoldable pub fail : String → ResolveError → Cache → Result Object × Cache
fail name e c = (err e, record c { failed = Assoc.put name e c.failed })

unfoldable pub succeed : String → Object → Cache → Result Object × Cache
succeed name out c = (ok out, record c { resolved = Assoc.put name out c.resolved })

abbrev pub cycle_error : String → List String → ResolveError
cycle_error name stack = record {
  template = name;
  reason = reason_cycle;
  message = extends_cycle stack name;
}

abbrev pub unknown_error : String → ResolveError
unknown_error name = record {
  template = name;
  reason = reason_unknown_parent;
  message = not_found name;
}

-- `reasonOf` of a ResolveError is its reason.
abbrev pub parent_error : String → String → ResolveError → ResolveError
parent_error name parent e = record {
  template = name;
  reason = e.reason;
  message = extends_failed parent e.message;
}

-- The outcome of one round of the loop over `Spec.Extends`.
unfoldable pub after_parent :
    String
    → String
    → (Object → Cache → Result Object × Cache)
    → Result Object × Cache
    → Result Object × Cache
after_parent name parent rest (ok o, c) = rest o c
after_parent name parent rest (err e, c) = fail name (parent_error name parent e) c
after_parent name parent rest (out_of_fuel, c) = (out_of_fuel, c)

-- What is done with the template's own body.
unfoldable pub conclude : String → Object → Cache → Result Object → Result Object × Cache
conclude name out c (ok own) = succeed name (merge_into out own) c
conclude name out c (err e) = fail name e c
conclude name out c out_of_fuel = (out_of_fuel, c)

-- The early returns of `resolve`, for what the maps and the stack hold under the name.
unfoldable pub enter :
    String
    → List String
    → Cache
    → (Template → Result Object × Cache)
    → Option Object
    → Option ResolveError
    → Bool
    → Option Template
    → Result Object × Cache
enter name stack c visit (some cached) failed on_stack template = (ok cached, c)
enter name stack c visit none (some e) on_stack template = (err e, c)
enter name stack c visit none none true template = fail name (cycle_error name stack) c
enter name stack c visit none none false none = fail name (unknown_error name) c
enter name stack c visit none none false (some t) = visit t

or_empty : Option Object → Object
or_empty none = no_fields
or_empty (some o) = o

-- One unit of fuel more than there are templates.
abbrev pub fuel_for : Templates → ℕ
fuel_for [] = 1
fuel_for (t ∷ ts) = suc (fuel_for ts)

module _ (unmarshal : String → Decoded) where
  decode_raw : String → Decoded → Result Object
  unfolding or_empty
  decode_raw name (decoded o) = ok (or_empty o)
  decode_raw name (malformed text) =
      err
        (record { template = name; reason = reason_invalid_endpoint; message = not_an_object text })

  unfoldable pub decode_endpoint : Template → Result Object
  unfolding decode_raw
  decode_endpoint t = elim t.endpoint [
    | none ↦ ok no_fields
    | some raw ↦ if raw == "" then ok no_fields else decode_raw t.name (unmarshal raw)
  ]

  -- The loop over `Spec.Extends`, with the recursive call as an argument.
  unfoldable pub resolve_parents :
      (String → Cache → Result Object × Cache)
      → String
      → List String
      → Object
      → Cache
      → Result Object × Cache
  unfolding after_parent
  resolve_parents call name [] out c = (ok out, c)
  resolve_parents call name (parent ∷ parents) out c =
      after_parent name parent (λ o. resolve_parents call name parents (merge_into out o))
        (call parent c)

  -- After the loop: the template's own body is merged last.
  unfoldable pub finish : Template → String → Result Object × Cache → Result Object × Cache
  unfolding conclude
  finish t name (ok out, c) = conclude name out c (decode_endpoint t)
  finish t name (err e, c) = (err e, c)
  finish t name (out_of_fuel, c) = (out_of_fuel, c)

  unfoldable pub resolve : Templates → ℕ → String → List String → Cache → Result Object × Cache
  unfolding enter
  resolve by_name zero name stack c = (out_of_fuel, c)
  resolve by_name (suc fuel) name stack c =
      enter name stack c
        (λ t. finish t name (
          resolve_parents (λ parent. resolve by_name fuel parent (stack ++ name ∷ [])) name
            t.extends no_fields c))
        (Assoc.lookup name c.resolved) (Assoc.lookup name c.failed) (contains name stack)
        (Assoc.lookup name by_name)

  -- `ts.resolve(name, nil)`
  unfoldable pub resolve_top : TemplateSet → String → Result Object × TemplateSet
  unfolding resolve
  resolve_top ts name =
      let (r, c) = resolve ts.by_name (fuel_for ts.by_name) name [] ts.cache in
      (r, record ts { cache = c })

  copy_result : Result Object → Result Object
  copy_result (ok o) = ok (copy_object o)
  copy_result (err e) = err e
  copy_result out_of_fuel = out_of_fuel

  -- `Resolve`
  unfoldable pub resolve_copy : TemplateSet → String → Result Object × TemplateSet
  unfolding resolve_top copy_result
  resolve_copy ts name = let (r, ts') = resolve_top ts name in (copy_result r, ts')

  -- What fails is reported and skipped. (`resolve_top` does not run out of fuel.)
  absorb : Result Object → Object × List ResolveError → Object × List ResolveError
  absorb (ok o) (out, errs) = (merge_into out o, errs)
  absorb (err e) (out, errs) = (out, errs ++ e ∷ [])
  absorb out_of_fuel acc = acc

  resolve_each :
      List String
      → Object × List ResolveError
      → TemplateSet
      → (Object × List ResolveError) × TemplateSet
  unfolding resolve_top absorb
  resolve_each [] acc ts = (acc, ts)
  resolve_each (name ∷ names) acc ts =
      let (r, ts') = resolve_top ts name in resolve_each names (absorb r acc) ts'

  unfoldable pub resolve_many :
      TemplateSet → List String → (Object × List ResolveError) × TemplateSet
  unfolding resolve_each
  resolve_many ts names = resolve_each names (no_fields, []) ts

names_of : Templates → List String
names_of [] = []
names_of ((name, t) ∷ ts) = name ∷ names_of ts

-- `Names`
unfoldable pub names : TemplateSet → List String
unfolding names_of
names ts = stable_sort str_less (names_of ts.by_name)

any_equal_fold : List String → String → Bool
any_equal_fold [] scheme = false
any_equal_fold (s ∷ ss) scheme = equal_fold s scheme || any_equal_fold ss scheme

defaults_of : Templates → String → List String
unfolding any_equal_fold
defaults_of [] scheme = []
defaults_of ((name, t) ∷ ts) scheme =
    let rest = defaults_of ts scheme in
    if any_equal_fold t.default_for scheme then name ∷ rest else rest

-- `DefaultsFor`
unfoldable pub defaults_for : TemplateSet → String → List String
unfolding defaults_of
defaults_for ts scheme = stable_sort str_less (defaults_of ts.by_name scheme)

-- `SchemeOf`
unfoldable pub scheme_of : TemplateSet → String → String
scheme_of ts name = elim (Assoc.lookup name ts.by_name) [ none ↦ "" | some t ↦ to_lower t.scheme ]
