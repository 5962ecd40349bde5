-- ===== src/Prelude/Text/Split.antt =====
-- `strings.Split` and `strings.Join`: the parts of a text that is put together of them.
use Prim.Native.Char.{Char, code}
use Prim.Native.String.{String, [], ◌∷◌, ◌++◌}
use Prim.Native.String.append
use mathlib.Core.Path.{◌≡◌, refl, ap, ◌∙◌}
use mathlib.Core.Logic.{inl, inr}
use mathlib.Core.Bool.{false, ◌&&◌}
use mathlib.Core.List as L
use gatus_sidecar.Prelude.Tests.{num_eq, num_eq_iff, Bool-cases, if_true, if_false, if_elim}
use gatus_sidecar.Prelude.Lists.{All}
use gatus_sidecar.Prelude.Equality.{◌==◌, string_eq}
use gatus_sidecar.Prelude.Text.{
  split, push_first, join, is_space, trim_left, trim_right, trim_space,
}

-- No character of the text is the separator.
abbrev pub Lacks : Char → String → Type 0
Lacks sep [] = Unit
Lacks sep (c ∷ s) = (num_eq (code c) (code sep) ≡ false) × Lacks sep s

push_first-Lacks :
    (sep c : Char) (words : L.List String)
    → num_eq (code c) (code sep) ≡ false
    → All (Lacks sep) words
    → All (Lacks sep) (push_first c words)
unfolding push_first
push_first-Lacks sep c L.[] h a = ((h, tt), tt)
push_first-Lacks sep c (L.◌∷◌ w words) h a = ((h, a.0), a.1)

pub split-Lacks : (s : String) (sep : Char) → All (Lacks sep) (split s sep)
unfolding split
split-Lacks [] sep = (tt, tt)
split-Lacks (c ∷ s) sep = elim (Bool-cases (num_eq (code c) (code sep))) [
  | inl same ↦ rw same (tt, split-Lacks s sep)
  | inr other ↦ rw other (push_first-Lacks sep c (split s sep) other (split-Lacks s sep))
]

-- A text that lacks the separator is one part; before a separator it is the first part.
split_whole : (s : String) (sep : Char) → Lacks sep s → split s sep ≡ L.◌∷◌ s L.[]
unfolding split push_first
split_whole [] sep h = refl
split_whole (c ∷ s) sep h = rw (h.0, split_whole s sep h.1)

split_front :
    (s rest : String) (sep : Char)
    → Lacks sep s
    → split (s ++ (sep ∷ rest)) sep ≡ L.◌∷◌ s (split rest sep)
unfolding split push_first
split_front [] rest sep h =
    ap (λ t. split t sep) (append.nil (sep ∷ rest))
    ∙ if_true _ _ ((num_eq_iff (code sep) (code sep)).1 refl)
split_front (c ∷ s) rest sep h =
    ap (λ t. split t sep) (append.cons c s (sep ∷ rest))
    ∙ if_false _ _ h.0
    ∙ ap (push_first c) (split_front s rest sep h.1)

-- Parts that lack the separator come back from their join, if there is one.
pub split-join :
    (sep : Char) (w : String) (words : L.List String)
    → All (Lacks sep) (L.◌∷◌ w words)
    → split (join (sep ∷ "") (L.◌∷◌ w words)) sep ≡ L.◌∷◌ w words
unfolding join
split-join sep w L.[] h = split_whole w sep h.0
split-join sep w (L.◌∷◌ v words) h =
    let rest = join (sep ∷ "") (L.◌∷◌ v words) in
    ap (λ t. split (w ++ t) sep) (append.cons sep "" rest ∙ ap (λ t. sep ∷ t) (append.nil rest))
    ∙ split_front w rest sep h.0
    ∙ ap (L.◌∷◌ w) (split-join sep v words h.1)

trim_left-Lacks : (sep : Char) (s : String) → Lacks sep s → Lacks sep (trim_left s)
unfolding trim_left
trim_left-Lacks sep [] h = tt
trim_left-Lacks sep (c ∷ s) h =
    if_elim (Lacks sep) (is_space (code c)) _ _ (λ b. trim_left-Lacks sep s h.1) (λ b. h)

trim_right-Lacks : (sep : Char) (s : String) → Lacks sep s → Lacks sep (trim_right s)
unfolding trim_right
trim_right-Lacks sep [] h = tt
trim_right-Lacks sep (c ∷ s) h =
    if_elim (Lacks sep) (is_space (code c) && trim_right s == "") _ _ (λ b. tt)
      (λ b. (h.0, trim_right-Lacks sep s h.1))

pub trim_space-Lacks : (sep : Char) (s : String) → Lacks sep s → Lacks sep (trim_space s)
unfolding trim_space
trim_space-Lacks sep s h = trim_right-Lacks sep (trim_left s) (trim_left-Lacks sep s h)
