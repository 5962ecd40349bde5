-- ===== src/Prelude/TextOrder.antt =====
-- Go's order of strings is a total order.
use Prim.Native.Nat.{ℕ, Ordering, compare as compare_ℕ}
use Prim.Native.Char.{code}
use Prim.Native.String.{String, [], ◌∷◌, compare, then as both}
use Prim.Native.String.compare
use mathlib.Core.Path.{◌≡◌, refl, sym, ◌∙◌}
use mathlib.Core.Bool.{Bool, false, false≢true}
use native.Mathlib.Omega.{arith}
use text.Mathlib.Text.{is_lt}
use text.Mathlib.TextEquality.{path_by_compare}
use gatus_sidecar.Prelude.Order.{IsOrder}

-- `s < t` on Go strings: by bytes of UTF-8, which is by code points.
abbrev pub str_less : String → String → Bool
str_less s t = is_lt (compare s t)

flip : Ordering → Ordering
flip Ordering.lt = Ordering.gt
flip Ordering.eq = Ordering.eq
flip Ordering.gt = Ordering.lt

compare_ℕ-flip : (m n : ℕ) → compare_ℕ n m ≡ flip (compare_ℕ m n)
unfolding flip
compare_ℕ-flip m n = ground arith

ruleset clauses = (compare.nil-nil, compare.nil-cons, compare.cons-nil, compare.cons-cons)

flip-both : (o r : Ordering) → both (flip o) (flip r) ≡ flip (both o r)
unfolding flip
flip-both Ordering.lt r = refl
flip-both Ordering.eq r = refl
flip-both Ordering.gt r = refl

compare-flip : (s t : String) → compare t s ≡ flip (compare s t)
unfolding flip
compare-flip [] [] = simp clauses
compare-flip [] (d ∷ t) = simp clauses
compare-flip (c ∷ s) [] = simp clauses
compare-flip (c ∷ s) (d ∷ t) =
    rw
      (
        compare.cons-cons c d s t,
        compare.cons-cons d c t s,
        compare_ℕ-flip (code c) (code d),
        compare-flip s t,
      )
      (flip-both (compare_ℕ (code c) (code d)) (compare s t))

-- One step of the comparison of three texts, over the answers for the first characters and the rest.
not_less_step :
    (a b c : ℕ) (o p q : Ordering)
    → (is_lt o ≡ false → is_lt p ≡ false → is_lt q ≡ false)
    → is_lt (both (compare_ℕ b a) o) ≡ false
    → is_lt (both (compare_ℕ c b) p) ≡ false
    → is_lt (both (compare_ℕ c a) q) ≡ false
not_less_step a b c o p q rest h k = ground arith

not_less_trans :
    (s t u : String) → str_less t s ≡ false → str_less u t ≡ false → str_less u s ≡ false
not_less_trans [] t [] h k = refl
not_less_trans [] [] (e ∷ u) h k = k
not_less_trans [] (d ∷ t) (e ∷ u) h k = simp clauses
not_less_trans (c ∷ s) [] u h k = absurd (false≢true (sym h ∙ simp clauses))
not_less_trans (c ∷ s) (d ∷ t) [] h k = absurd (false≢true (sym k ∙ simp clauses))
not_less_trans (c ∷ s) (d ∷ t) (e ∷ u) h k = rw compare.cons-cons (
    not_less_step (code c) (code d) (code e) (compare t s) (compare u t) (compare u s)
      (not_less_trans s t u) (rw compare.cons-cons at h) (rw compare.cons-cons at k))

pub str_less-IsOrder : IsOrder str_less
unfolding flip
str_less-IsOrder = record {
  asym = λ s t h. ground (arith, compare-flip s t);
  trans = not_less_trans;
}

pub str_less_antisym : (s t : String) → str_less s t ≡ false → str_less t s ≡ false → s ≡ t
unfolding flip
str_less_antisym s t h k = path_by_compare s t (ground (arith, compare-flip s t))
