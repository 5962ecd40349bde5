-- ===== src/Discovery/Entrypoints/Overrides.antt =====
-- About `ParseEntrypointPorts` of internal/discovery/entrypoints.go.
use gatus_sidecar.Prelude.{
  ℕ, String, ◌≡◌, refl, sym, ap, ◌∙◌, ◌≤◌, ◌≢◌, inl, inr, ◌||◌, Option, none, some, List, [], ◌∷◌,
  arith, ◌==◌, string_eq, Bool-cases, if_true, if_false, ne_of_beq, eq_or_ne, none≢some, some_inj,
  subst,
}
use gatus_sidecar.Prelude.Assoc
use gatus_sidecar.Prelude.Assoc.{Assoc, lookup-put_self, lookup-put_ne}
use gatus_sidecar.Prelude.Text.{trim_space, cut}
use gatus_sidecar.Value.{ℤ, pos, negsuc}
use gatus_sidecar.Value.Number.{atoi}
use gatus_sidecar.Discovery.Annotations.{split_list}
use gatus_sidecar.Discovery.Entrypoints.{
  Flag, flag_ports, valid_port, with_port, parse_pair, parse_pairs, or_empty_list,
  parse_entrypoint_ports,
}

-- Every override has a name, and is a port that a client can connect to.
abbrev pub AreOverrides : Assoc String ℕ → Type 0
AreOverrides out =
    (name : String) (p : ℕ) → Assoc.lookup name out ≡ some p → (name ≢ "") × (1 ≤ p) × (p ≤ 65535)

valid_port-InRange : (n : Option ℤ) (p : ℕ) → valid_port n ≡ some p → (1 ≤ p) × (p ≤ 65535)
unfolding valid_port
valid_port-InRange none p h = cc
valid_port-InRange (some (pos n)) p h = ground arith
valid_port-InRange (some (negsuc n)) p h = cc

put-AreOverrides :
    (name : String) (p : ℕ) (out : Assoc String ℕ)
    → name ≢ ""
    → (1 ≤ p) × (p ≤ 65535)
    → AreOverrides out
    → AreOverrides (Assoc.put name p out)
put-AreOverrides name p out n r a name' p' h = elim (eq_or_ne name name') [
  | inl same ↦
      let value : p ≡ p' = some_inj (
        sym (lookup-put_self name p out)
        ∙ ap (λ k. Assoc.lookup k (Assoc.put name p out)) same
        ∙ h) in
      let (low, high) = subst (λ k. (1 ≤ k) × (k ≤ 65535)) value r in
      (subst (λ k. k ≢ "") same n, low, high)
  | inr other ↦ a name' p' (sym (lookup-put_ne name name' p out other) ∙ h)
]

-- What the rest of the loop keeps, it keeps after one pair.
abbrev Keeps : (Assoc String ℕ → Flag) → Type 0
Keeps rest =
    (out result : Assoc String ℕ)
    → AreOverrides out
    → rest out ≡ flag_ports result
    → AreOverrides result

with_port-Keeps :
    (pair name port : String) (rest : Assoc String ℕ → Flag) (out result : Assoc String ℕ)
    (n : Option ℤ) (p : Option ℕ)
    → valid_port n ≡ p
    → name ≢ ""
    → Keeps rest
    → AreOverrides out
    → with_port pair name port rest out p ≡ flag_ports result
    → AreOverrides result
unfolding with_port
with_port-Keeps pair name port rest out result n none v m k a h = absurd (cc)
with_port-Keeps pair name port rest out result n (some p) v m k a h =
    k (Assoc.put name p out) result (put-AreOverrides name p out m (valid_port-InRange n p v) a) h

parse_pair-Keeps :
    (pair : String) (rest : Assoc String ℕ → Flag) (out result : Assoc String ℕ)
    (parts : Option (String × String))
    → Keeps rest
    → AreOverrides out
    → parse_pair pair rest out parts ≡ flag_ports result
    → AreOverrides result
unfolding parse_pair
parse_pair-Keeps pair rest out result none k a h = absurd (cc)
parse_pair-Keeps pair rest out result (some (before, after)) k a h =
    elim (Bool-cases (trim_space before == "" || trim_space after == "")) [
      | inl empty ↦ absurd (cc (sym (if_true _ _ empty) ∙ h))
      | inr both ↦
          with_port-Keeps pair (trim_space before) (trim_space after) rest out result
            (atoi (trim_space after)) (valid_port (atoi (trim_space after))) refl
            (ne_of_beq (trim_space before) "" (ground arith)) k a (sym (if_false _ _ both) ∙ h)
    ]

parse_pairs-Keeps : (pairs : List String) → Keeps (parse_pairs pairs)
unfolding parse_pairs
parse_pairs-Keeps [] out result a h = let same : out ≡ result = cc in subst AreOverrides same a
parse_pairs-Keeps (pair ∷ pairs) out result a h =
    parse_pair-Keeps pair (parse_pairs pairs) out result (cut pair "=") (parse_pairs-Keeps pairs) a
      h

nothing-AreOverrides : AreOverrides []
unfolding Assoc.lookup
nothing-AreOverrides k q i = absurd (none≢some i)

-- Every override that is accepted has a name and is a port between 1 and 65535.
pub parse_entrypoint_ports-AreOverrides :
    (v : String) (out : Assoc String ℕ) (name : String) (p : ℕ)
    → parse_entrypoint_ports v ≡ flag_ports out
    → Assoc.lookup name out ≡ some p
    → (name ≢ "") × (1 ≤ p) × (p ≤ 65535)
unfolding parse_entrypoint_ports
parse_entrypoint_ports-AreOverrides v out name p h l = elim (Bool-cases (trim_space v == "")) [
  | inl blank ↦
      let same : [] ≡ out = cc (sym (if_true _ _ blank) ∙ h) in
      nothing-AreOverrides name p (subst (λ o. Assoc.lookup name o ≡ some p) (sym same) l)
  | inr more ↦
      parse_pairs-Keeps (or_empty_list (split_list v)) [] out nothing-AreOverrides
        (sym (if_false _ _ more) ∙ h) name p l
]
