-- ===== src/Main/TraefikServices.antt =====
-- About `parseTraefikServices` of cmd/gatus-sidecar/main.go.
use gatus_sidecar.Prelude.{
  String, ◌≡◌, refl, sym, ap, ◌∙◌, subst, ◌≢◌, ◌⊎◌, inl, inr, true, List, [], ◌∷◌, ◌==◌, string_eq,
  All, Bool-cases, if_true, if_false, ne_of_beq, beq_of_ne,
}
use gatus_sidecar.Prelude.Text.{trim_space, split, join, cut}
use gatus_sidecar.Prelude.Text.Split.{Lacks, split-Lacks, split-join, trim_space-Lacks}
use gatus_sidecar.Prelude.Text.Trim.{trim_space_twice, append-not_blank}
use gatus_sidecar.Main.{
  Refs, refs_are, not_namespace_name, is_reference, add_ref, parse_ref, parse_refs,
  parse_traefik_services,
}

-- A reference as it is handed on: trimmed, not empty, without a comma, and a slash between two parts
-- that are not empty.
pub record IsReference (ref : String) : Type 0 where
  pub trimmed : trim_space ref ≡ ref
  pub one : Lacks "," ref
  pub filled : ref ≢ ""
  pub parts : is_reference (cut ref "/") ≡ true

added :
    (ref : String) (rest : Refs) (refs : List String)
    → add_ref ref rest ≡ refs_are refs
    → (tail : List String) × (rest ≡ refs_are tail) × (refs ≡ ref ∷ tail)
unfolding add_ref
added ref (refs_are tail) refs h = (tail, refl, cc)
added ref (not_namespace_name bad) refs h = cc

-- What it takes that an entry and the rest of the list are parsed.
invert_ref :
    (ref : String) (rest : Refs) (refs : List String)
    → parse_ref ref rest ≡ refs_are refs
    → ((ref ≡ "") × (rest ≡ refs_are refs))
      ⊎ ((tail : List String) × (ref ≢ "")
          × (is_reference (cut ref "/") ≡ true)
          × (rest ≡ refs_are tail)
          × (refs ≡ ref ∷ tail))
unfolding parse_ref
invert_ref ref rest refs h = elim (Bool-cases (ref == "")) [
  | inl e ↦ inl ((string_eq.beq_iff ref "").0 e, sym (if_true _ _ e) ∙ h)
  | inr n ↦ elim (Bool-cases (is_reference (cut ref "/"))) [
    | inl good ↦
        let (tail, r, t) = added ref rest refs (sym (if_false _ _ n ∙ if_true _ _ good) ∙ h) in
        inr (tail, ne_of_beq ref "" n, good, r, t)
    | inr bad ↦ cc (sym (if_false _ _ n ∙ if_false _ _ bad) ∙ h)
  ]
]

parse_refs-IsReference :
    (raws : List String) (refs : List String)
    → All (Lacks ",") raws
    → parse_refs raws ≡ refs_are refs
    → All IsReference refs
unfolding parse_refs
parse_refs-IsReference [] [] l h = tt
parse_refs-IsReference [] (r ∷ refs) l h = cc
parse_refs-IsReference (raw ∷ raws) refs l h =
    elim (invert_ref (trim_space raw) (parse_refs raws) refs h) [
      | inl e ↦ parse_refs-IsReference raws refs l.1 e.1
      | inr more ↦ subst (All IsReference) (sym more.4) (
        record {
          trimmed = trim_space_twice raw;
          one = trim_space-Lacks "," raw l.0;
          filled = more.1;
          parts = more.2;
        },
        parse_refs-IsReference raws more.0 l.1 more.3,
      )
    ]

-- Every reference that is accepted is trimmed and has a namespace and a name.
pub parse_traefik_services-IsReference :
    (v : String) (refs : List String)
    → parse_traefik_services v ≡ refs_are refs
    → All IsReference refs
unfolding parse_traefik_services
parse_traefik_services-IsReference v refs h = elim (Bool-cases (trim_space v == "")) [
  | inl blank ↦
      let none_there : refs_are [] ≡ refs_are refs = sym (if_true _ _ blank) ∙ h in
      parse_refs-IsReference [] refs tt (unfold parse_refs in none_there)
  | inr more ↦
      parse_refs-IsReference (split v ",") refs (split-Lacks v ",") (sym (if_false _ _ more) ∙ h)
]

parse_refs_again : (refs : List String) → All IsReference refs → parse_refs refs ≡ refs_are refs
unfolding parse_refs parse_ref add_ref
parse_refs_again [] a = refl
parse_refs_again (ref ∷ refs) a =
    rw (a.0.trimmed, beq_of_ne ref "" a.0.filled, a.0.parts, parse_refs_again refs a.1)

join-Lacks : (refs : List String) → All IsReference refs → All (Lacks ",") refs
join-Lacks [] a = tt
join-Lacks (ref ∷ refs) a = (a.0.one, join-Lacks refs a.1)

join-not_blank :
    (ref : String) (refs : List String) → IsReference ref → trim_space (join "," (ref ∷ refs)) ≢ ""
unfolding join
join-not_blank ref [] a h = a.filled (sym a.trimmed ∙ h)
join-not_blank ref (r ∷ refs) a h = append-not_blank ref _ a.trimmed a.filled h

-- What has been parsed is parsed to the same again when it is written with commas.
pub parse_traefik_services-join :
    (v : String) (refs : List String)
    → parse_traefik_services v ≡ refs_are refs
    → parse_traefik_services (join "," refs) ≡ refs_are refs
parse_traefik_services-join v refs h = again refs (parse_traefik_services-IsReference v refs h)
  where
    again :
        (refs : List String)
        → All IsReference refs
        → parse_traefik_services (join "," refs) ≡ refs_are refs
    again [] a = unfold parse_traefik_services join trim_space in refl
    again (ref ∷ refs) a =
        unfold parse_traefik_services in
        if_false _ _ (beq_of_ne _ "" (join-not_blank ref refs a.0))
        ∙ ap parse_refs (split-join "," ref refs (join-Lacks (ref ∷ refs) a))
        ∙ parse_refs_again (ref ∷ refs) a
