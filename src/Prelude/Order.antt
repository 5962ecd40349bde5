-- ===== src/Prelude/Order.antt =====
-- Go's `sort.SliceStable` (and `sort.Strings`, `sort.Slice` on distinct elements): stable insertion
-- by a strict Boolean test `less`. `IsOrder less` says that "not greater" is a total preorder.
use mathlib.Core.Path.{◌≡◌, ap₂}
use mathlib.Core.Logic.{inl, inr}
use mathlib.Core.Bool.{Bool, true, false}
use mathlib.Core.List.{
  List, [], ◌∷◌, Mem, Perm, Pairwise, mem-cons_self, not-mem-nil, forall_mem-cons,
}
use mathlib.Core.List.Perm
use mathlib.Core.List.Pairwise
use native.Mathlib.Omega.{arith}
use gatus_sidecar.Prelude.Tests.{if◌then◌else◌, Bool-cases}
use gatus_sidecar.Prelude.Equality.{Eq, ◌==◌}

pub record IsOrder {ℓ} {A : Type ℓ} (less : A → A → Bool) : Type ℓ where
  pub asym : (a b : A) → less a b ≡ true → less b a ≡ false
  pub trans : (a b c : A) → less b a ≡ false → less c b ≡ false → less c a ≡ false

module _ {ℓ} {A : Type ℓ} (less : A → A → Bool) where
  -- `x` goes before the first element that is not less than it, so equal elements keep their order.
  unfoldable pub insert : A → List A → List A
  insert x [] = x ∷ []
  insert x (y ∷ ys) = if less y x then y ∷ insert x ys else x ∷ y ∷ ys

  unfoldable pub stable_sort : List A → List A
  stable_sort [] = []
  stable_sort (x ∷ xs) = insert x (stable_sort xs)

  -- No element is less than one before it.
  abbrev pub IsSorted : List A → Type ℓ
  IsSorted = Pairwise (λ a b. less b a ≡ false)

  pub insert-perm : (x : A) (l : List A) → Perm (insert x l) (x ∷ l)
  unfolding insert
  insert-perm x [] = Perm.refl (x ∷ [])
  insert-perm x (y ∷ ys) = elim (Bool-cases (less y x)) [
    | inl h ↦ rw h (Perm.trans (Perm.cons y (insert-perm x ys)) (Perm.swap x y ys))
    | inr h ↦ rw h (Perm.refl (x ∷ y ∷ ys))
  ]

  pub stable_sort-perm : (l : List A) → Perm (stable_sort l) l
  unfolding stable_sort
  stable_sort-perm [] = Perm.refl []
  stable_sort-perm (x ∷ xs) =
      Perm.trans (insert-perm x (stable_sort xs)) (Perm.cons x (stable_sort-perm xs))

Bool-set : IsSet Bool
Bool-set = hlevel

module _ {ℓ} {A : Type ℓ} {less : A → A → Bool} (o : IsOrder less) where
  abbrev NotAbove : A → List A → Type ℓ
  NotAbove x l = (b : A) → Mem b l → less b x ≡ false

  NotAbove-cons : (x y : A) (l : List A) → less y x ≡ false → NotAbove x l → NotAbove x (y ∷ l)
  NotAbove-cons x y l h below =
      (forall_mem-cons {p = λ b. less b x ≡ false} (λ b. Bool-set (less b x) false)).1 (h, below)

  insert-IsSorted : (x : A) (l : List A) → IsSorted less l → IsSorted less (insert less x l)
  unfolding insert
  insert-IsSorted x [] s = Pairwise.cons (λ b m. absurd (not-mem-nil m)) Pairwise.nil
  insert-IsSorted x (y ∷ ys) (Pairwise.cons below s) = elim (Bool-cases (less y x)) [
    | inl h ↦ rw h (
        Pairwise.cons
          (λ b m.
            NotAbove-cons y x ys (o.asym y x h) below b
              ((Perm.mem_iff (insert-perm less x ys)).0 m))
          (insert-IsSorted x ys s))
    | inr h ↦ rw h (
        Pairwise.cons (NotAbove-cons x y ys h (λ b m. o.trans x y b h (below b m)))
          (Pairwise.cons below s))
  ]

  pub stable_sort-IsSorted : (l : List A) → IsSorted less (stable_sort less l)
  unfolding stable_sort
  stable_sort-IsSorted [] = Pairwise.nil
  stable_sort-IsSorted (x ∷ xs) = insert-IsSorted x (stable_sort less xs) (stable_sort-IsSorted xs)

module _ {ℓ} {A : Type ℓ} {less : A → A → Bool} (o : IsOrder less)
    (antisym : (a b : A) → less a b ≡ false → less b a ≡ false → a ≡ b) where
  irrefl : (a : A) → less a a ≡ false
  irrefl a = elim (Bool-cases (less a a)) [ inl h ↦ o.asym a a h | inr h ↦ h ]

  heads_le :
      (a b : A) (l r : List A) → IsSorted less (a ∷ l) → Perm (b ∷ r) (a ∷ l) → less b a ≡ false
  heads_le a b l r (Pairwise.cons below _) p =
      NotAbove-cons o a a l (irrefl a) below b ((Perm.mem_iff p).0 mem-cons_self)

  -- Where only equal elements tie, a list has one sorted permutation.
  pub IsSorted-eq_of_perm : (l r : List A) → IsSorted less l → IsSorted less r → Perm l r → l ≡ r
  IsSorted-eq_of_perm [] r _ _ p = Perm.nil-eq p
  IsSorted-eq_of_perm (a ∷ l) [] _ _ p = Perm.eq-nil p
  IsSorted-eq_of_perm (a ∷ l) (b ∷ r) sl sr p =
      let heads = antisym a b (heads_le b a r l sr p) (heads_le a b l r sl (Perm.symm p)) in
      let tails = Perm.cons_inv (Perm.trans p (Perm.symm (Perm.cons' heads Perm.rfl))) in
      ap₂ ◌∷◌ heads (IsSorted-eq_of_perm l r (Pairwise.of_cons sl) (Pairwise.of_cons sr) tails)

  -- So sorting forgets the order in which the elements came.
  pub stable_sort-eq_of_perm : (l r : List A) → Perm l r → stable_sort less l ≡ stable_sort less r
  stable_sort-eq_of_perm l r p =
      IsSorted-eq_of_perm (stable_sort less l) (stable_sort less r) (stable_sort-IsSorted o l)
        (stable_sort-IsSorted o r)
        (Perm.trans (stable_sort-perm less l) (Perm.trans p (Perm.symm (stable_sort-perm less r))))

-- `if key(a) != key(b) { return key(a) < key(b) }; return rest(a, b)`
unfoldable pub lexicographic {ℓ κ} :
    {A : Type ℓ} {K : Type κ} ⦃e : Eq K⦄ → (K → K → Bool) → (A → K) → (A → A → Bool) → A → A → Bool
lexicographic key_less key rest a b = if key a == key b then rest a b else key_less (key a) (key b)

module _ {ℓ κ} {A : Type ℓ} {K : Type κ} ⦃e : Eq K⦄ {key_less : K → K → Bool}
    (ko : IsOrder key_less)
    (key_antisym : (a b : K) → key_less a b ≡ false → key_less b a ≡ false → a ≡ b) (key : A → K)
    (rest : A → A → Bool) where
  lexicographic_asym :
      IsOrder rest
      → (a b : A) → lexicographic key_less key rest a b ≡ true
      → lexicographic key_less key rest b a ≡ false
  unfolding lexicographic
  lexicographic_asym o a b h = ground (
    arith,
    e.beq_iff (key a) (key b),
    e.beq_iff (key b) (key a),
    o.asym a b,
    ko.asym (key a) (key b),
  )

  lexicographic_trans :
      IsOrder rest
      → (a b c : A) → lexicographic key_less key rest b a ≡ false
      → lexicographic key_less key rest c b ≡ false
      → lexicographic key_less key rest c a ≡ false
  unfolding lexicographic
  lexicographic_trans o a b c h k = ground (
    arith,
    e.beq_iff (key b) (key a),
    e.beq_iff (key c) (key b),
    e.beq_iff (key c) (key a),
    o.trans a b c,
    ko.trans (key a) (key b) (key c),
    key_antisym (key a) (key b),
    key_antisym (key b) (key c),
  )

  pub lexicographic-IsOrder : IsOrder rest → IsOrder (lexicographic key_less key rest)
  lexicographic-IsOrder o = record { asym = lexicographic_asym o; trans = lexicographic_trans o }

  -- Elements tie only where their keys are equal and the rest ties.
  pub lexicographic_tie :
      (a b : A)
      → lexicographic key_less key rest a b ≡ false
      → lexicographic key_less key rest b a ≡ false
      → (key a ≡ key b) × (rest a b ≡ false) × (rest b a ≡ false)
  unfolding lexicographic
  lexicographic_tie a b h k =
      let same : key a ≡ key b = ground (
        arith,
        e.beq_iff (key a) (key b),
        e.beq_iff (key b) (key a),
        key_antisym (key a) (key b),
      ) in
      (
        same,
        ground (arith, e.beq_iff (key a) (key b), same),
        ground (arith, e.beq_iff (key b) (key a), same),
      )
