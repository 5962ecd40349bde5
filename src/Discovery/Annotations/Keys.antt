-- ===== src/Discovery/Annotations/Keys.antt =====
-- About `specFromObject` of internal/discovery/annotations.go: what it reads and leaves in the patch.
use gatus_sidecar.Prelude.{
  String, ◌≡◌, refl, ap, ◌∙◌, inl, inr, Bool, true, false, Option, none, some, List, [], ◌∷◌, arith,
  string_eq, if◌then◌else◌, eq_or_ne, All,
}
use gatus_sidecar.Value.{Object, no_fields, field}
use gatus_sidecar.Value.Fields.{get}
use gatus_sidecar.Discovery.Annotations.{
  Spec, Parsed, ok, bad, and_then, is_present, is_one_of, string_field, scalar_field, list_field,
  group_in, is_consumed, patch_of, nil_if_no_fields, spec_from_object,
}
use gatus_sidecar.Discovery.Annotations.Readers.{
  is_text, is_scalar, is_names, text_of, Answers, string_field-Answers, scalar_field-Answers,
  list_field-Answers, group_in-Answers,
}

abbrev pub patch_fields : Option Object → Object
patch_fields none = no_fields
patch_fields (some p) = p

get-patch_of :
    (j : String) (obj : Object) → get j (patch_of obj) ≡ (if is_consumed j then none else get j obj)
unfolding patch_of get
get-patch_of j no_fields = ground arith
get-patch_of j (field k v obj) = elim (eq_or_ne k j) [
  | inl same ↦ ground (arith, get-patch_of j obj, string_eq.beq_iff k j, ap is_consumed same)
  | inr other ↦ ground (arith, get-patch_of j obj, string_eq.beq_iff k j)
]

patch_fields-nil : (o : Object) → patch_fields (nil_if_no_fields o) ≡ o
unfolding nil_if_no_fields
patch_fields-nil no_fields = refl
patch_fields-nil (field k v o) = refl

abbrev pub text_keys : List String
text_keys = "name" ∷ "url" ∷ "scheme" ∷ "path" ∷ "group" ∷ []

abbrev pub names_keys : List String
names_keys = "template" ∷ "template-extra" ∷ []

-- A consumed field of the mapping that is not what it must be.
pub data BadField (obj : Object) : Type 0 where
  not_text :
      (k : String) → is_one_of k text_keys ≡ true → is_text (get k obj) ≡ false → BadField obj
  not_scalar : is_scalar (get "port" obj) ≡ false → BadField obj
  not_names :
      (k : String) → is_one_of k names_keys ≡ true → is_names (get k obj) ≡ false → BadField obj

-- The consumed fields are what they must be and are read into the spec, and the patch has the fields
-- that the sidecar does not consume, and no other.
pub record Reads (obj : Object) (s : Spec) : Type 0 where
  pub texts : All (λ k. is_text (get k obj) ≡ true) text_keys
  pub scalar : is_scalar (get "port" obj) ≡ true
  pub names : All (λ k. is_names (get k obj) ≡ true) names_keys
  pub name : s.name ≡ text_of (get "name" obj)
  pub url : s.url ≡ text_of (get "url" obj)
  pub scheme : s.scheme ≡ text_of (get "scheme" obj)
  pub path : s.path ≡ text_of (get "path" obj)
  pub port : scalar_field obj "port" ≡ ok s.port
  pub group : s.group ≡ text_of (get "group" obj)
  pub group_set : s.group_set ≡ is_present (get "group" obj)
  pub templates : list_field obj "template" ≡ ok (s.templates, s.templates_set)
  pub extra_templates :
      (set : Bool) × (list_field obj "template-extra" ≡ ok (s.extra_templates, set))
  pub patch :
      (j : String) → get j (patch_fields s.patch) ≡ (if is_consumed j then none else get j obj)

abbrev pub Splits : Object → Parsed Spec → Type 0
Splits obj (ok s) = Reads obj s
Splits obj (bad p) = BadField obj

and_then-Splits :
    {A : Type 0} (obj : Object) (fits : Bool) (P : A → Type 0) (r : Parsed A)
    (next : A → Parsed Spec)
    → Answers fits P r
    → (fits ≡ false → BadField obj)
    → ((a : A) → fits ≡ true → P a → Splits obj (next a))
    → Splits obj (and_then r next)
unfolding and_then
and_then-Splits obj fits P (ok a) next h f g = g a h.0 h.1
and_then-Splits obj fits P (bad p) next h f g = f h

-- A mapping gives a spec just if the fields that the sidecar consumes are missing, null or what they
-- must be: texts, a text or a whole number for the port, and texts or lists of texts for the templates.
-- Then those fields are read into the spec, and its patch has just the fields that are not consumed.
pub spec_from_object-Splits : (obj : Object) → Splits obj (spec_from_object obj)
unfolding spec_from_object
spec_from_object-Splits obj =
    and_then-Splits obj _ _ (string_field obj "name") _ (string_field-Answers obj "name")
      (not_text "name" refl)
      λ name f₁ name_is.
        and_then-Splits obj _ _ (string_field obj "url") _ (string_field-Answers obj "url")
          (not_text "url" refl)
          λ url f₂ url_is.
            and_then-Splits obj _ _ (string_field obj "scheme") _
              (string_field-Answers obj "scheme") (not_text "scheme" refl)
              λ scheme f₃ scheme_is.
                and_then-Splits obj _ _ (string_field obj "path") _
                  (string_field-Answers obj "path") (not_text "path" refl)
                  λ path f₄ path_is.
                    and_then-Splits obj _ _ (scalar_field obj "port") _
                      (scalar_field-Answers obj "port") not_scalar
                      λ port f₅ port_is.
                        and_then-Splits obj _ _ (group_in obj (get "group" obj)) _
                          (group_in-Answers obj (get "group" obj) refl) (not_text "group" refl)
                          λ group f₆ group_is.
                            and_then-Splits obj _ _ (list_field obj "template") _
                              (list_field-Answers obj "template") (not_names "template" refl)
                              λ templates f₇ templates_are.
                                and_then-Splits obj _ _ (list_field obj "template-extra") _
                                  (list_field-Answers obj "template-extra")
                                  (not_names "template-extra" refl)
                                  λ extra f₈ extra_are. record {
                                    texts = (f₁, (f₂, (f₃, (f₄, (f₆, tt)))));
                                    scalar = f₅;
                                    names = (f₇, (f₈, tt));
                                    name = name_is;
                                    url = url_is;
                                    scheme = scheme_is;
                                    path = path_is;
                                    port = port_is;
                                    group = group_is.0;
                                    group_set = group_is.1;
                                    templates = templates_are;
                                    extra_templates = (extra.1, extra_are);
                                    patch = λ j.
                                        ap (get j) (patch_fields-nil (patch_of obj))
                                        ∙ get-patch_of j obj;
                                  }
