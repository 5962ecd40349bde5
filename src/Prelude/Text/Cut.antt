-- ===== src/Prelude/Text/Cut.antt =====
-- `strings.Cut` and a text put together of two parts and a separator.
use Prim.Native.Char.{Char, code}
use Prim.Native.String.{String, [], ◌∷◌, ◌++◌}
use Prim.Native.String.append
use mathlib.Core.Path.{◌≡◌, refl, sym, ap, ap₂, ◌∙◌, subst}
use mathlib.Core.Logic.{inl, inr}
use mathlib.Core.Bool.{true}
use mathlib.Core.List as L
use mathlib.Core.Option.{Option, none, some}
use native.Mathlib.Omega.{arith}
use text.Mathlib.TextEquality.{Char-path}
use gatus_sidecar.Prelude.Tests.{
  if_true, if_false, num_eq_iff, if◌then◌else◌, Bool-cases, some_inj, none≢some,
}
use gatus_sidecar.Prelude.Equality.{◌==◌, string_eq}
use gatus_sidecar.Prelude.Text.{cut, has_prefix, drop_prefix, concat}

drop_has_prefix : (s p : String) → has_prefix s p ≡ true → p ++ drop_prefix s p ≡ s
unfolding has_prefix drop_prefix
drop_has_prefix s [] h = append.nil s
drop_has_prefix [] (d ∷ p) h = cc
drop_has_prefix (c ∷ s) (d ∷ p) h =
    let same : d ≡ c = sym (Char-path c d ((num_eq_iff (code c) (code d)).0 (ground arith))) in
    append.cons d p (drop_prefix s p) ∙ ap₂ ◌∷◌ same (drop_has_prefix s p (ground arith))

prepend : Char → Option (String × String) → Option (String × String)
prepend c none = none
prepend c (some (before, after)) = some (c ∷ before, after)

-- The clause of `cut` for a character, with a name for what it does to the rest.
cut-cons :
    (c : Char) (s sep : String)
    → cut (c ∷ s) sep ≡ (
        if has_prefix (c ∷ s) sep
        then some ("", drop_prefix (c ∷ s) sep)
        else prepend c (cut s sep))
unfolding cut
cut-cons c s sep = by_rest (cut s sep) refl
  where
    by_rest :
        (o : Option (String × String))
        → cut s sep ≡ o
        → cut (c ∷ s) sep ≡ (
            if has_prefix (c ∷ s) sep
            then some ("", drop_prefix (c ∷ s) sep)
            else prepend c (cut s sep))
    by_rest none e = unfold prepend in rw (e, cut)
    by_rest (some (before, after)) e = unfold prepend in rw (e, cut)

cut-nil : (sep : String) → cut "" sep ≡ (if sep == "" then some ("", "") else none)
unfolding cut
cut-nil sep = refl

-- The two parts with the separator between them are the text.
pub cut_joins :
    (s sep before after : String) → cut s sep ≡ some (before, after) → before ++ (sep ++ after) ≡ s
unfolding prepend
cut_joins [] sep before after h = elim (Bool-cases (sep == "")) [
  | inl empty ↦
      let same : some ("", "") ≡ some (before, after) = sym (cut-nil sep ∙ if_true _ _ empty) ∙ h in
      subst (λ (x : String × String). x.0 ++ (sep ++ x.1) ≡ "") (some_inj same)
        (append.nil (sep ++ "")
          ∙ ap (λ x. x ++ "") ((string_eq.beq_iff sep "").0 empty)
          ∙ append.nil "")
  | inr more ↦ absurd (none≢some (sym (cut-nil sep ∙ if_false _ _ more) ∙ h))
]
cut_joins (c ∷ s) sep before after h = elim (Bool-cases (has_prefix (c ∷ s) sep)) [
  | inl found ↦
      let same : some ("", drop_prefix (c ∷ s) sep) ≡ some (before, after) =
        sym (cut-cons c s sep ∙ if_true _ _ found) ∙ h in
      subst (λ (x : String × String). x.0 ++ (sep ++ x.1) ≡ c ∷ s) (some_inj same)
        (append.nil (sep ++ drop_prefix (c ∷ s) sep) ∙ drop_has_prefix (c ∷ s) sep found)
  | inr later ↦
      by_rest (cut s sep) (cut_joins s sep) refl (sym (cut-cons c s sep ∙ if_false _ _ later) ∙ h)
]
  where
    by_rest :
        (o : Option (String × String))
        → ((b a : String) → cut s sep ≡ some (b, a) → b ++ (sep ++ a) ≡ s)
        → cut s sep ≡ o
        → prepend c o ≡ some (before, after)
        → before ++ (sep ++ after) ≡ c ∷ s
    by_rest none ih e k = absurd (none≢some k)
    by_rest (some (b, a)) ih e k =
        subst (λ (x : String × String). x.0 ++ (sep ++ x.1) ≡ c ∷ s) (some_inj k)
          (append.cons c b (sep ++ a) ∙ ap (λ x. c ∷ x) (ih b a e))

prepend-some : (c : Char) (b a : String) → prepend c (some (b, a)) ≡ some (c ∷ b, a)
unfolding prepend
prepend-some c b a = refl

prepend-none : (c : Char) (o : Option (String × String)) → prepend c o ≡ none → o ≡ none
unfolding prepend
prepend-none c none h = refl
prepend-none c (some (b, a)) h = cc

-- Whether a text begins with a slash is a matter of its first character.
slash_first : (c : Char) (s t : String) → has_prefix (c ∷ s) "/" ≡ has_prefix (c ∷ t) "/"
unfolding has_prefix
slash_first c s t = refl

cut_at_slash : (after : String) → cut ("/" ++ after) "/" ≡ some ("", after)
unfolding has_prefix drop_prefix
cut_at_slash after =
    let slash : Char = "/" in
    ap (λ s. cut s "/") (append.cons slash "" after ∙ ap (λ s. slash ∷ s) (append.nil after))
    ∙ cut-cons slash after "/"

-- A text of two parts with a slash between them is cut into these, where the first has no slash.
pub cut-append :
    (s after : String) → cut s "/" ≡ none → cut (s ++ ("/" ++ after)) "/" ≡ some (s, after)
cut-append [] after h = ap (λ s. cut s "/") (append.nil ("/" ++ after)) ∙ cut_at_slash after
cut-append (c ∷ s) after h = elim (Bool-cases (has_prefix (c ∷ s) "/")) [
  | inl found ↦ absurd (none≢some (sym h ∙ (cut-cons c s "/" ∙ if_true _ _ found)))
  | inr later ↦
      let rest : cut s "/" ≡ none =
        prepend-none c (cut s "/") (sym (cut-cons c s "/" ∙ if_false _ _ later) ∙ h) in
      ap (λ x. cut x "/") (append.cons c s ("/" ++ after))
      ∙ cut-cons c (s ++ ("/" ++ after)) "/"
      ∙ if_false _ _ (slash_first c (s ++ ("/" ++ after)) s ∙ later)
      ∙ ap (prepend c) (cut-append s after rest)
      ∙ prepend-some c s after
]

pub append_nil : (s : String) → s ++ "" ≡ s
append_nil [] = append.nil ""
append_nil (c ∷ s) = append.cons c s "" ∙ ap (λ x. c ∷ x) (append_nil s)

-- `namespace + "/" + name`
pub concat_with_slash :
    (s t : String) → concat (L.◌∷◌ s (L.◌∷◌ "/" (L.◌∷◌ t L.[]))) ≡ s ++ ("/" ++ t)
unfolding concat
concat_with_slash s t = ap (λ x. s ++ ("/" ++ x)) (append_nil t)
