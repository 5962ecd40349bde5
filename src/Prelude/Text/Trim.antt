-- ===== src/Prelude/Text/Trim.antt =====
-- `strings.TrimSpace`: trimming a second time changes nothing.
use Prim.Native.Char.{Char, code}
use Prim.Native.String.{String, [], ◌∷◌, ◌++◌}
use Prim.Native.String.append
use mathlib.Core.Path.{◌≡◌, refl, sym, ap, ◌∙◌, subst}
use mathlib.Core.Logic.{◌≢◌, inl, inr}
use mathlib.Core.Bool.{false, ◌&&◌}
use gatus_sidecar.Prelude.Tests.{Bool-cases, if_false}
use gatus_sidecar.Prelude.Equality.{◌==◌, string_eq}
use gatus_sidecar.Prelude.Text.{is_space, trim_left, trim_right, trim_space}

-- The text is empty or begins with a character that is no space.
abbrev pub IsFlush : String → Type 0
IsFlush [] = Unit
IsFlush (c ∷ s) = is_space (code c) ≡ false

trim_left-IsFlush : (s : String) → IsFlush (trim_left s)
unfolding trim_left
trim_left-IsFlush [] = tt
trim_left-IsFlush (c ∷ s) = elim (Bool-cases (is_space (code c))) [
  | inl space ↦ rw space (trim_left-IsFlush s)
  | inr other ↦ rw other other
]

trim_left_flush : (s : String) → IsFlush s → trim_left s ≡ s
unfolding trim_left
trim_left_flush [] f = refl
trim_left_flush (c ∷ s) f = rw f

trim_right-IsFlush : (s : String) → IsFlush s → IsFlush (trim_right s)
unfolding trim_right
trim_right-IsFlush [] f = tt
trim_right-IsFlush (c ∷ s) f = rw f f

trim_right_twice : (s : String) → trim_right (trim_right s) ≡ trim_right s
unfolding trim_right
trim_right_twice [] = refl
trim_right_twice (c ∷ s) = elim (Bool-cases (is_space (code c) && trim_right s == "")) [
  | inl blank ↦ rw blank
  | inr more ↦
      let here : trim_right (c ∷ s) ≡ c ∷ trim_right s = if_false _ _ more in
      let again : trim_right (c ∷ trim_right s) ≡ c ∷ trim_right (trim_right s) =
        if_false _ _
          (subst (λ t. (is_space (code c) && t == "") ≡ false) (sym (trim_right_twice s)) more) in
      ap trim_right here ∙ again ∙ ap (λ t. c ∷ t) (trim_right_twice s) ∙ sym here
]

pub trim_space_twice : (s : String) → trim_space (trim_space s) ≡ trim_space s
unfolding trim_space
trim_space_twice s =
    ap trim_right (
      trim_left_flush (trim_right (trim_left s))
        (trim_right-IsFlush (trim_left s) (trim_left-IsFlush s)))
    ∙ trim_right_twice (trim_left s)

pub trim_space-IsFlush : (s : String) → IsFlush (trim_space s)
unfolding trim_space
trim_space-IsFlush s = trim_right-IsFlush (trim_left s) (trim_left-IsFlush s)

-- A text that begins with no space is not blank.
pub flush-not_blank : (c : Char) (s : String) → IsFlush (c ∷ s) → trim_space (c ∷ s) ≢ ""
unfolding trim_space
flush-not_blank c s f h = cc (sym h ∙ ap trim_right (trim_left_flush (c ∷ s) f) ∙ trim_right_flush)
  where
    trim_right_flush : trim_right (c ∷ s) ≡ c ∷ trim_right s
    trim_right_flush = unfold trim_right in rw f

pub append-not_blank : (w t : String) → trim_space w ≡ w → w ≢ "" → trim_space (w ++ t) ≢ ""
append-not_blank [] t e n h = absurd (n refl)
append-not_blank (c ∷ s) t e n h =
    let flush : IsFlush (c ∷ s) = subst IsFlush e (trim_space-IsFlush (c ∷ s)) in
    flush-not_blank c (s ++ t) flush (sym (ap trim_space (append.cons c s t)) ∙ h)
