-- ===== src/Config/Resolve/Correct.antt =====
-- About `resolve` of internal/config/resolve.go, against the specification of `Flatten`.
use gatus_sidecar.Prelude.{
  All, All-append, All-map, ℕ, zero, suc, ◌+◌, ◌<◌, ◌≢◌, ◌≡◌, refl, ◌∙◌, subst, inl, inr, String,
  Bool, true, false, Option, none, some, List, [], ◌∷◌, ◌++◌, arith, string_eq, Option-cases,
}
use gatus_sidecar.Prelude.Assoc
use gatus_sidecar.Prelude.Assoc.{lookup-put, lookup-put_self, lookup-put_ne}
use gatus_sidecar.Value.{Object, no_fields}
use gatus_sidecar.Config.Merge.{merge_into}
use gatus_sidecar.Config.Template.{Template, ResolveError, Decoded}
use gatus_sidecar.Config.Resolve.{
  Templates, TemplateSet, Cache, Result, ok, err, out_of_fuel, contains, fail, parent_error,
  after_parent, conclude, enter, fuel_for, decode_endpoint, resolve_parents, finish, resolve,
  resolve_top,
}
use gatus_sidecar.Config.Resolve.Flatten.{
  merge_parents, with_own, flatten, Flattens, HasNoMeaning, flatten_mono, flatten_unique,
  merge_parents_mono,
}
use gatus_sidecar.Config.Resolve.Stack.{
  unvisited, unvisited-lt, unvisited-nil, All-contains, LeadsTo, LeadsTo-trans, LeadsTo-self,
  extends-LeadsTo,
}
use gatus_sidecar.Config.Resolve.Sound.{
  Answers, IsSound, IsGood, fail-IsSound, fail-IsGood, succeed-IsGood,
}

decode_returns :
    (unmarshal : String → Decoded) (t : Template) → decode_endpoint unmarshal t ≢ out_of_fuel
unfolding decode_endpoint
decode_returns unmarshal t h = ground arith

module _ (unmarshal : String → Decoded) (by_name : Templates) where
  abbrev flat : ℕ → String → Option Object
  flat = flatten unmarshal by_name

  abbrev LoopAnswers : List String → Object → Result Object → Type 0
  LoopAnswers ps out (ok o) = (d : ℕ) × (merge_parents (flat d) ps out ≡ some o)
  LoopAnswers ps out (err e) = (d : ℕ) → merge_parents (flat d) ps out ≡ none
  LoopAnswers ps out out_of_fuel = ⊥

  abbrev LoopIsGood : List String → Object → Result Object × Cache → Type 0
  LoopIsGood ps out rc = LoopAnswers ps out rc.0 × IsSound unmarshal by_name rc.1

  -- With a parent's meaning at hand the loop goes on from the merged object.
  loop_some :
      (p : String) (ps : List String) (out o x : Object)
      → Flattens unmarshal by_name p o
      → (d : ℕ) × (merge_parents (flat d) ps (merge_into out o) ≡ some x)
      → (d : ℕ) × (merge_parents (flat d) (p ∷ ps) out ≡ some x)
  unfolding merge_parents
  loop_some p ps out o x (d, e) (d', e') = (
    d + d',
    rw (flatten_mono unmarshal by_name d (d + d') (omega arith) p o e) (
        merge_parents_mono (flat d') (flat (d + d'))
          (flatten_mono unmarshal by_name d' (d + d') (omega arith)) ps (merge_into out o) x e'),
  )

  loop_none :
      (p : String) (ps : List String) (out o : Object)
      → Flattens unmarshal by_name p o
      → ((d : ℕ) → merge_parents (flat d) ps (merge_into out o) ≡ none)
      → (d : ℕ) → merge_parents (flat d) (p ∷ ps) out ≡ none
  unfolding merge_parents
  loop_none p ps out o (d, e) h d' = elim (Option-cases (flat d' p)) [
    | inl n ↦ rw n
    | inr (o', s) ↦ rw s (
        subst (λ z. merge_parents (flat d') ps (merge_into out z) ≡ none)
          (flatten_unique unmarshal by_name d d' p o o' e s) (h d'))
  ]

  loop_head :
      (p : String) (ps : List String) (out : Object)
      → HasNoMeaning unmarshal by_name p
      → (d : ℕ) → merge_parents (flat d) (p ∷ ps) out ≡ none
  unfolding merge_parents
  loop_head p ps out h d = rw (h d)

  loop_step :
      (p : String) (ps : List String) (out o : Object) (r : Result Object)
      → Flattens unmarshal by_name p o
      → LoopAnswers ps (merge_into out o) r
      → LoopAnswers (p ∷ ps) out r
  loop_step p ps out o (ok x) f h = loop_some p ps out o x f h
  loop_step p ps out o (err x) f h = loop_none p ps out o f h
  loop_step p ps out o out_of_fuel f h = h

  abbrev Dooms : String → List String → Object → Type 0
  Dooms name ps out =
      ((d : ℕ) → merge_parents (flat d) ps out ≡ none) → HasNoMeaning unmarshal by_name name

  round-IsGood :
      (name p : String) (ps : List String) (out : Object)
      (rest : Object → Cache → Result Object × Cache) (rc : Result Object × Cache)
      → ((o : Object) (c : Cache)
          → Flattens unmarshal by_name p o
          → IsSound unmarshal by_name c
          → LoopIsGood ps (merge_into out o) (rest o c))
      → Dooms name (p ∷ ps) out
      → IsGood unmarshal by_name p rc
      → LoopIsGood (p ∷ ps) out (after_parent name p rest rc)
  unfolding after_parent fail
  round-IsGood name p ps out rest (ok o, c) ih sink (f, s) =
      let (a, s') = ih o c f s in (loop_step p ps out o (rest o c).0 f a, s')
  round-IsGood name p ps out rest (err e, c) ih sink (h, s) = (
    loop_head p ps out h,
    fail-IsSound unmarshal by_name name (parent_error name p e) c s (sink (loop_head p ps out h)),
  )
  round-IsGood name p ps out rest (out_of_fuel, c) ih sink (h, s) = absurd h

  loop-IsGood :
      (name : String) (call : String → Cache → Result Object × Cache) (ps : List String)
      (out : Object) (c : Cache)
      → All
          (λ p. (c : Cache) → IsSound unmarshal by_name c → IsGood unmarshal by_name p (call p c))
          ps
      → Dooms name ps out
      → IsSound unmarshal by_name c
      → LoopIsGood ps out (resolve_parents unmarshal call name ps out c)
  unfolding resolve_parents merge_parents
  loop-IsGood name call [] out c good sink s = ((0, refl), s)
  loop-IsGood name call (p ∷ ps) out c good sink s =
      round-IsGood name p ps out (λ o. resolve_parents unmarshal call name ps (merge_into out o))
        (call p c)
        (λ o c' f s'.
          loop-IsGood name call ps (merge_into out o) c' good.1
            (λ h. sink (loop_none p ps out o f h)) s')
        sink (good.0 c s)

  module _ (name : String) (t : Template) (found : Assoc.lookup name by_name ≡ some t) where
    flatten_found :
        (d : ℕ)
        → flat (suc d) name
          ≡ with_own (merge_parents (flat d) t.extends no_fields) (decode_endpoint unmarshal t)
    unfolding flatten
    flatten_found d = rw found

    no_parents : Dooms name t.extends no_fields
    no_parents h zero = unfold flatten in refl
    no_parents h (suc d) = flatten_found d ∙ rw (h d) (unfold with_own in refl)

    no_own :
        (e : ResolveError)
        → decode_endpoint unmarshal t ≡ err e
        → HasNoMeaning unmarshal by_name name
    no_own e h zero = unfold flatten in refl
    no_own e h (suc d) =
        flatten_found d ∙ rw h (no_body (merge_parents (flat d) t.extends no_fields))
      where
        no_body : (m : Option Object) → with_own m (err e) ≡ none
        no_body none = unfold with_own in refl
        no_body (some x) = unfold with_own in refl

    conclude-IsGood :
        (out : Object) (c : Cache) (r : Result Object)
        → decode_endpoint unmarshal t ≡ r
        → (d : ℕ) × (merge_parents (flat d) t.extends no_fields ≡ some out)
        → IsSound unmarshal by_name c
        → IsGood unmarshal by_name name (conclude name out c r)
    unfolding conclude
    conclude-IsGood out c (ok own) h (d, e) s =
        succeed-IsGood unmarshal by_name name (merge_into out own) c s
          (suc d, flatten_found d ∙ rw (e, h) (unfold with_own in refl))
    conclude-IsGood out c (err e') h f s = fail-IsGood unmarshal by_name name e' c s (no_own e' h)
    conclude-IsGood out c out_of_fuel h f s = absurd (decode_returns unmarshal t h)

    finish-IsGood :
        (rc : Result Object × Cache)
        → LoopIsGood t.extends no_fields rc
        → IsGood unmarshal by_name name (finish unmarshal t name rc)
    unfolding finish
    finish-IsGood (ok out, c) (f, s) = conclude-IsGood out c (decode_endpoint unmarshal t) refl f s
    finish-IsGood (err e, c) (h, s) = (no_parents h, s)
    finish-IsGood (out_of_fuel, c) (h, s) = absurd h

  -- The early returns, for what the maps and the stack hold.
  enter-IsGood :
      (name : String) (stack : List String) (c : Cache) (visit : Template → Result Object × Cache)
      (cached : Option Object) (failed : Option ResolveError) (on_stack : Bool)
      (template : Option Template)
      → Assoc.lookup name c.resolved ≡ cached
      → Assoc.lookup name c.failed ≡ failed
      → contains name stack ≡ on_stack
      → Assoc.lookup name by_name ≡ template
      → All (λ s. LeadsTo unmarshal by_name s name) stack
      → IsSound unmarshal by_name c
      → ((t : Template)
          → Assoc.lookup name by_name ≡ some t
          → contains name stack ≡ false
          → IsGood unmarshal by_name name (visit t))
      → IsGood unmarshal by_name name (enter name stack c visit cached failed on_stack template)
  unfolding enter
  enter-IsGood name stack c visit (some o) f b t e₁ e₂ e₃ e₄ leads s v = (s.resolved name o e₁, s)
  enter-IsGood name stack c visit none (some e) b t e₁ e₂ e₃ e₄ leads s v = (s.failed name e e₂, s)
  enter-IsGood name stack c visit none none true t e₁ e₂ e₃ e₄ leads s v =
      fail-IsGood unmarshal by_name name _ c s (
        LeadsTo-self unmarshal by_name name
          (All-contains (λ s. LeadsTo unmarshal by_name s name) name stack e₃ leads))
  enter-IsGood name stack c visit none none false none e₁ e₂ e₃ e₄ leads s v =
      fail-IsGood unmarshal by_name name _ c s (missing name e₄)
    where
      missing : (n : String) → Assoc.lookup n by_name ≡ none → HasNoMeaning unmarshal by_name n
      missing n e zero = unfold flatten in refl
      missing n e (suc d) = unfold flatten in rw e
  enter-IsGood name stack c visit none none false (some t) e₁ e₂ e₃ e₄ leads s v = v t e₄ e₃

  resolve-IsGood :
      (fuel : ℕ) (name : String) (stack : List String) (c : Cache)
      → unvisited stack by_name < fuel
      → All (λ s. LeadsTo unmarshal by_name s name) stack
      → IsSound unmarshal by_name c
      → IsGood unmarshal by_name name (resolve unmarshal by_name fuel name stack c)
  unfolding resolve
  resolve-IsGood zero name stack c h leads s = absurd (omega arith)
  resolve-IsGood (suc fuel) name stack c h leads s =
      enter-IsGood name stack c _ (Assoc.lookup name c.resolved) (Assoc.lookup name c.failed)
        (contains name stack) (Assoc.lookup name by_name) refl refl refl refl leads s
        λ t found off. finish-IsGood name t found _ (
          loop-IsGood name (λ parent. resolve unmarshal by_name fuel parent (stack ++ name ∷ []))
            t.extends no_fields c
            (All-map (LeadsTo unmarshal by_name name) _
              (λ p lead c' s'.
                resolve-IsGood fuel p (stack ++ name ∷ []) c'
                  (omega (arith, unvisited-lt stack name by_name t found off))
                  (All-append (λ x. LeadsTo unmarshal by_name x p) stack name
                    (All-map (λ x. LeadsTo unmarshal by_name x name)
                      (λ x. LeadsTo unmarshal by_name x p)
                      (λ x l. LeadsTo-trans unmarshal by_name x name p l lead) stack leads)
                    lead)
                  s')
              t.extends (extends-LeadsTo unmarshal by_name name t found))
            (no_parents name t found) s)

-- From a sound cache `resolve` answers with the meaning of the template, or with an error where it
-- has none, never runs out of fuel, and leaves a sound cache.
pub resolve_top-IsGood :
    (unmarshal : String → Decoded) (ts : TemplateSet) (name : String)
    → IsSound unmarshal ts.by_name ts.cache
    → Answers unmarshal ts.by_name name (resolve_top unmarshal ts name).0
      × IsSound unmarshal ts.by_name (resolve_top unmarshal ts name).1.cache
      × ((resolve_top unmarshal ts name).1.by_name ≡ ts.by_name)
unfolding resolve_top
resolve_top-IsGood unmarshal ts name s =
    let (a, s') =
      resolve-IsGood unmarshal ts.by_name (fuel_for ts.by_name) name [] ts.cache
        (unvisited-nil ts.by_name) tt s in
    (a, s', refl)
