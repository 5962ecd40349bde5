-- ===== src/Config/Resolve/Sound.antt =====
-- About the cache of `resolve` of internal/config/resolve.go: what it may hold.
use gatus_sidecar.Prelude.{
  ◌≡◌, sym, ◌∙◌, subst, inl, inr, String, some, [], string_eq, none≢some, some_inj, eq_or_ne,
}
use gatus_sidecar.Prelude.Assoc
use gatus_sidecar.Prelude.Assoc.{lookup-put, lookup-put_self, lookup-put_ne}
use gatus_sidecar.Value.{Object}
use gatus_sidecar.Config.Template.{ResolveError, Decoded}
use gatus_sidecar.Config.Resolve.{Templates, Cache, Result, ok, err, out_of_fuel, fail, succeed}
use gatus_sidecar.Config.Resolve.Flatten.{Flattens, HasNoMeaning}

module _ (unmarshal : String → Decoded) (by_name : Templates) where
  -- An answer for a template: its meaning, or an error where it has none. The fuel never runs out.
  abbrev pub Answers : String → Result Object → Type 0
  Answers name (ok o) = Flattens unmarshal by_name name o
  Answers name (err e) = HasNoMeaning unmarshal by_name name
  Answers name out_of_fuel = ⊥

  -- The cache holds meanings, and failures of what has no meaning.
  pub record IsSound (c : Cache) : Type 0 where
    pub resolved :
        (n : String) (o : Object)
        → Assoc.lookup n c.resolved ≡ some o
        → Flattens unmarshal by_name n o
    pub failed :
        (n : String) (e : ResolveError)
        → Assoc.lookup n c.failed ≡ some e
        → HasNoMeaning unmarshal by_name n

  abbrev pub IsGood : String → Result Object × Cache → Type 0
  IsGood name rc = Answers name rc.0 × IsSound rc.1

  pub fail-IsSound :
      (name : String) (e : ResolveError) (c : Cache)
      → IsSound c
      → HasNoMeaning unmarshal by_name name
      → IsSound (fail name e c).1
  unfolding fail
  fail-IsSound name e c s h = record {
    resolved = s.resolved;
    failed = λ n e' f. elim (eq_or_ne name n) [
      | inl same ↦ subst (HasNoMeaning unmarshal by_name) same h
      | inr other ↦ s.failed n e' (sym (lookup-put_ne name n e c.failed other) ∙ f)
    ];
  }

  pub fail-IsGood :
      (name : String) (e : ResolveError) (c : Cache)
      → IsSound c
      → HasNoMeaning unmarshal by_name name
      → IsGood name (fail name e c)
  unfolding fail
  fail-IsGood name e c s h = (h, fail-IsSound name e c s h)

  pub succeed-IsGood :
      (name : String) (o : Object) (c : Cache)
      → IsSound c
      → Flattens unmarshal by_name name o
      → IsGood name (succeed name o c)
  unfolding succeed
  succeed-IsGood name o c s h = (
    h,
    record {
      resolved = λ n x f. elim (eq_or_ne name n) [
        | inl same ↦
            let f' : Assoc.lookup name (Assoc.put name o c.resolved) ≡ some x =
              subst (λ z. Assoc.lookup z (Assoc.put name o c.resolved) ≡ some x) (sym same) f in
            let e : o ≡ x = some_inj (sym (lookup-put_self name o c.resolved) ∙ f') in
            subst (λ z. Flattens unmarshal by_name z x) same
              (subst (Flattens unmarshal by_name name) e h)
        | inr other ↦ s.resolved n x (sym (lookup-put_ne name n o c.resolved other) ∙ f)
      ];
      failed = s.failed;
    },
  )
  -- What the loop over the parents `ps` has to answer, from what it has merged so far.

-- The cache of a new set is sound.
pub empty-IsSound :
    (unmarshal : String → Decoded) (by_name : Templates)
    → IsSound unmarshal by_name (record { resolved = []; failed = [] })
unfolding Assoc.lookup
empty-IsSound unmarshal by_name = record {
  resolved = λ n o h. absurd (none≢some h);
  failed = λ n e h. absurd (none≢some h);
}
