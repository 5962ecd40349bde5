-- ===== src/Config/Resolve/Stack.antt =====
-- About the stack of templates that `resolve` of internal/config/resolve.go carries.
use gatus_sidecar.Prelude.{
  ℕ, zero, suc, ◌+◌, ◌≤◌, ◌<◌, ◌≡◌, refl, sym, inl, inr, String, true, false, ◌||◌, Option, none,
  some, List, [], ◌∷◌, ◌++◌, arith, ◌==◌, string_eq, if◌then◌else◌, subst, Bool-cases, Option-cases,
  All,
}
use gatus_sidecar.Prelude.Assoc
use gatus_sidecar.Value.{Object, no_fields}
use gatus_sidecar.Config.Merge.{merge_into}
use gatus_sidecar.Config.Template.{Template, Decoded}
use gatus_sidecar.Config.Resolve.{Templates, Result, contains, fuel_for, decode_endpoint}
use gatus_sidecar.Config.Resolve.Flatten.{
  merge_parents, with_own, flatten_template, flatten, flatten-suc,
}

-- The templates that are not on the stack.
abbrev pub unvisited : List String → Templates → ℕ
unvisited stack [] = 0
unvisited stack ((k, t) ∷ m) = (if contains k stack then 0 else 1) + unvisited stack m

contains-append :
    (k name : String) (stack : List String)
    → contains k (stack ++ name ∷ []) ≡ (contains k stack || name == k)
unfolding contains
contains-append k name [] = ground arith
contains-append k name (s ∷ stack) = ground (arith, contains-append k name stack)

unvisited-le :
    (stack : List String) (name : String) (m : Templates)
    → unvisited (stack ++ name ∷ []) m ≤ unvisited stack m
unvisited-le stack name [] = omega arith
unvisited-le stack name ((k, t) ∷ m) =
    ground (arith, contains-append k name stack, unvisited-le stack name m)

-- Each step down the stack leaves one template less.
pub unvisited-lt :
    (stack : List String) (name : String) (m : Templates) (t : Template)
    → Assoc.lookup name m ≡ some t
    → contains name stack ≡ false
    → unvisited (stack ++ name ∷ []) m < unvisited stack m
unfolding Assoc.lookup
unvisited-lt stack name [] t h off = cc
unvisited-lt stack name ((k, u) ∷ m) t h off = ground (
  arith,
  contains-append k name stack,
  unvisited-le stack name m,
  unvisited-lt stack name m t,
  string_eq.beq_iff k name,
  string_eq.beq_iff name k,
)

pub unvisited-nil : (m : Templates) → unvisited [] m < fuel_for m
unfolding contains
unvisited-nil [] = omega arith
unvisited-nil (t ∷ m) = omega (arith, unvisited-nil m)

pub All-contains :
    (P : String → Type 0) (name : String) (ss : List String)
    → contains name ss ≡ true
    → All P ss
    → P name
unfolding contains
All-contains P name [] h a = cc
All-contains P name (s ∷ ss) h a = elim (Bool-cases (s == name)) [
  | inl same ↦ subst P ((string_eq.beq_iff s name).0 same) a.0
  | inr other ↦ All-contains P name ss (rw other at h) a.1
]

abbrev pub Defined {ℓ} : {A : Type ℓ} → Option A → Type 0
Defined none = ⊥
Defined (some a) = Unit

Defined-some : {A : Type 0} (o : Option A) → Defined o → (a : A) × (o ≡ some a)
Defined-some none h = absurd h
Defined-some (some a) h = (a, refl)

Defined-of_some : {A : Type 0} {o : Option A} {a : A} → o ≡ some a → Defined o
Defined-of_some e = subst Defined (sym e) tt

-- Where the loop over the parents has a result, each parent has one.
merge_parents-All :
    (f : String → Option Object) (ps : List String) (out : Object)
    → Defined (merge_parents f ps out)
    → All (λ p. Defined (f p)) ps
unfolding merge_parents
merge_parents-All f [] out h = tt
merge_parents-All f (p ∷ ps) out h = elim (Option-cases (f p)) [
  | inl e ↦ absurd (rw e at h)
  | inr (o, e) ↦ (Defined-of_some e, merge_parents-All f ps (merge_into out o) (rw e at h))
]

All-pull :
    (H : ℕ → Type 0) (P : ℕ → String → Type 0) (ps : List String)
    → ((d : ℕ) → H d → All (P d) ps)
    → All (λ p. (d : ℕ) → H d → P d p) ps
All-pull H P [] f = tt
All-pull H P (p ∷ ps) f = ((λ d h. (f d h).0), All-pull H P ps (λ d h. (f d h).1))

module _ (unmarshal : String → Decoded) (by_name : Templates) where
  abbrev flat : ℕ → String → Option Object
  flat = flatten unmarshal by_name

  -- To flatten `n` one has to flatten `m`, with less depth.
  abbrev pub LeadsTo : String → String → Type 0
  LeadsTo n m =
      (d : ℕ)
      → Defined (flatten unmarshal by_name (suc d) n)
      → Defined (flatten unmarshal by_name d m)

  Defined-suc : (d : ℕ) (n : String) → Defined (flat d n) → Defined (flat (suc d) n)
  Defined-suc d n h =
      let (o, e) = Defined-some (flat d n) h in
      Defined-of_some (flatten-suc unmarshal by_name d n o e)

  pub LeadsTo-trans : (a b c : String) → LeadsTo a b → LeadsTo b c → LeadsTo a c
  LeadsTo-trans a b c p q d h = q d (Defined-suc d b (p d h))

  cycle_undefined : (n : String) → LeadsTo n n → (d : ℕ) → ¬ Defined (flat d n)
  unfolding flatten
  cycle_undefined n p zero h = h
  cycle_undefined n p (suc d) h = cycle_undefined n p d (p d h)

  -- What leads to itself cannot be flattened: a cycle has no meaning.
  pub LeadsTo-self : (n : String) → LeadsTo n n → (d : ℕ) → flatten unmarshal by_name d n ≡ none
  LeadsTo-self n p d = elim (Option-cases (flat d n)) [
    | inl e ↦ e
    | inr (o, e) ↦ absurd (cycle_undefined n p d (Defined-of_some e))
  ]

  own-Defined : (m : Option Object) (own : Result Object) → Defined (with_own m own) → Defined m
  unfolding with_own
  own-Defined none own h = h
  own-Defined (some x) own h = tt

  -- A template leads to each of its parents.
  pub extends-LeadsTo :
      (name : String) (t : Template)
      → Assoc.lookup name by_name ≡ some t
      → All (LeadsTo name) t.extends
  unfolding flatten
  extends-LeadsTo name t e =
      All-pull (λ d. Defined (flat (suc d) name)) (λ d p. Defined (flat d p)) t.extends
        λ d h. merge_parents-All (flat d) t.extends no_fields (
          own-Defined (merge_parents (flat d) t.extends no_fields) (decode_endpoint unmarshal t)
            (subst (λ x. Defined (flatten_template unmarshal by_name (flat d) x)) e h))
