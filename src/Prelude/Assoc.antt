-- ===== src/Prelude/Assoc.antt =====
-- Go maps as association lists. A lookup answers with the first entry of its key, an assignment
-- replaces it where it stands, and `HasUniqueKeys` says that each key stands once, as in a Go map.
-- The order of the entries stands for one order in which Go may range over the map.
use mathlib.Core.Path.{◌≡◌, refl}
use mathlib.Core.Logic.{◌≢◌, inl, inr}
use mathlib.Core.Option.{Option, none, some}
use mathlib.Core.List.{List, [], ◌∷◌}
use native.Mathlib.Omega.{arith}
use gatus_sidecar.Prelude.Tests.{if◌then◌else◌, Bool-cases}
use gatus_sidecar.Prelude.Equality.{Eq, ◌==◌, beq_refl, beq_of_ne}

abbrev pub Assoc {ℓ κ} : Type ℓ → Type κ → Type (ℓ ⊔ κ)
Assoc K V = List (K × V)

module _ {ℓ κ} {K : Type ℓ} {V : Type κ} ⦃e : Eq K⦄ where
  unfoldable pub lookup : K → Assoc K V → Option V
  lookup k [] = none
  lookup k ((j, v) ∷ m) = if j == k then some v else lookup k m

  -- `m[k] = v`
  unfoldable pub put : K → V → Assoc K V → Assoc K V
  put k v [] = (k, v) ∷ []
  put k v ((j, w) ∷ m) = if j == k then (j, v) ∷ m else (j, w) ∷ put k v m

  -- `delete(m, k)`
  unfoldable pub remove : K → Assoc K V → Assoc K V
  remove k [] = []
  remove k ((j, w) ∷ m) = let rest = remove k m in if j == k then rest else (j, w) ∷ rest

  abbrev pub IsAbsent : K → Assoc K V → Type κ
  IsAbsent k m = lookup k m ≡ none

  abbrev pub HasUniqueKeys : Assoc K V → Type κ
  HasUniqueKeys [] = Unit
  HasUniqueKeys ((k, v) ∷ m) = IsAbsent k m × HasUniqueKeys m

  pub lookup-put :
      (k j : K) (v : V) (m : Assoc K V)
      → lookup j (put k v m) ≡ (if k == j then some v else lookup j m)
  unfolding lookup put
  lookup-put k j v [] = refl
  lookup-put k j v ((i, w) ∷ m) =
      ground (arith, e.beq_iff k j, e.beq_iff i k, e.beq_iff i j, lookup-put k j v m)

  pub lookup-remove :
      (k j : K) (m : Assoc K V) → lookup j (remove k m) ≡ (if k == j then none else lookup j m)
  unfolding lookup remove
  lookup-remove k j [] = ground arith
  lookup-remove k j ((i, w) ∷ m) =
      ground (arith, lookup-remove k j m, e.beq_iff i k, e.beq_iff i j, e.beq_iff k j)

  pub lookup-put_self : (k : K) (v : V) (m : Assoc K V) → lookup k (put k v m) ≡ some v
  lookup-put_self k v m = rw (lookup-put k k v m, beq_refl k)

  pub lookup-put_ne : (k j : K) (v : V) (m : Assoc K V) → k ≢ j → lookup j (put k v m) ≡ lookup j m
  lookup-put_ne k j v m h = rw (lookup-put k j v m, beq_of_ne k j h)

  pub put-HasUniqueKeys :
      (k : K) (v : V) (m : Assoc K V) → HasUniqueKeys m → HasUniqueKeys (put k v m)
  unfolding put lookup
  put-HasUniqueKeys k v [] u = (refl, tt)
  put-HasUniqueKeys k v ((j, w) ∷ m) u = elim (Bool-cases (j == k)) [
    | inl same ↦ rw same u
    | inr other ↦ rw other (
      ground (arith, lookup-put k j v m, e.beq_iff j k, e.beq_iff k j, u.0),
      put-HasUniqueKeys k v m u.1,
    )
  ]

  pub remove-HasUniqueKeys : (k : K) (m : Assoc K V) → HasUniqueKeys m → HasUniqueKeys (remove k m)
  unfolding remove lookup
  remove-HasUniqueKeys k [] u = tt
  remove-HasUniqueKeys k ((j, w) ∷ m) u = elim (Bool-cases (j == k)) [
    | inl same ↦ rw same (remove-HasUniqueKeys k m u.1)
    | inr other ↦ rw other (
      ground (arith, lookup-remove k j m, e.beq_iff j k, e.beq_iff k j, u.0),
      remove-HasUniqueKeys k m u.1,
    )
  ]
