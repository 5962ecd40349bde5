-- ===== src/Discovery/Specs.antt =====
-- `specsFromAnnotations` of internal/discovery/annotations.go and what it is made of.
pub mod Inherit
use gatus_sidecar.Prelude.{
  ℕ, suc, String, not, ◌&&◌, ◌||◌, Option, none, some, List, [], ◌∷◌, map, ◌==◌, string_eq,
  if◌then◌else◌,
}
use gatus_sidecar.Prelude.Text.{trim_space}
use gatus_sidecar.Value.{Value, null, Items, no_items, item, Object, no_fields, object, any_map}
use gatus_sidecar.Config.Merge.{string_fields, merge}
use gatus_sidecar.Discovery.Annotations.{
  Annotations, key, raw_annotation, annotation, or_empty_string, is_present, Spec, at_key, at_item,
  not_yaml, not_a_list, not_a_mapping, Parsed, ok, bad, and_then, wrap, split_list,
  spec_from_object,
}

-- `toObject`
unfoldable pub to_object : Value → Option Object
unfolding string_fields
to_object (object m) = some m
to_object (any_map m) = string_fields m
to_object _ = none

abbrev or_no_fields : Option Object → Object
or_no_fields none = no_fields
or_no_fields (some o) = o

inherited_patch : Option Object → Option Object → Option Object
inherited_patch none own = own
inherited_patch (some base) own = some (merge base (or_no_fields own))

or_inherited : Option (List String) → Option (List String) → Option (List String)
or_inherited none base = base
or_inherited (some own) base = some own

unfoldable pub inherit : Spec → Spec → Spec
unfolding inherited_patch or_inherited
inherit s base = record {
  name = s.name;
  group = if not s.group_set && base.group_set then base.group else s.group;
  group_set = s.group_set || base.group_set;
  url = if s.url == "" then base.url else s.url;
  scheme = if s.scheme == "" then base.scheme else s.scheme;
  port = if s.port == "" then base.port else s.port;
  path = if s.path == "" then base.path else s.path;
  templates = if s.templates_set then s.templates else base.templates;
  templates_set = s.templates_set || base.templates_set;
  extra_templates = or_inherited s.extra_templates base.extra_templates;
  patch = inherited_patch base.patch s.patch;
}

-- What the decoder answers for a text that is read into `any` and into `[]any`.
pub record Decoder : Type 0 where
  pub decode_any : String → Option Value
  pub decode_list : String → Option Items

mapping_in : Option Object → Parsed (Option Object)
mapping_in none = bad not_a_mapping
mapping_in (some o) = ok (some o)

decoded_object : Option Value → Parsed (Option Object)
unfolding mapping_in
decoded_object none = bad not_yaml
decoded_object (some null) = ok none
decoded_object (some v) = mapping_in (to_object v)

unfoldable pub parse_object : Decoder → String → Parsed (Option Object)
unfolding decoded_object
parse_object d raw = decoded_object (d.decode_any raw)

-- The patch of the annotation `endpoint`, unless it is missing or blank.
shortcut_patch : Decoder → Option String → Parsed (Option Object)
shortcut_patch d none = ok none
shortcut_patch d (some raw) =
    if trim_space raw == "" then ok none else wrap (at_key (key "endpoint")) (parse_object d raw)

split_in : Option String → Option (List String)
split_in none = none
split_in (some v) = split_list v

unfoldable pub parse_shortcuts : Decoder → Annotations → Parsed Spec
unfolding shortcut_patch split_in and_then
parse_shortcuts d annotations =
    and_then (shortcut_patch d (raw_annotation annotations "endpoint")) λ patch. ok (record {
      name = or_empty_string (annotation annotations "name");
      group = or_empty_string (annotation annotations "group");
      group_set = is_present (annotation annotations "group");
      url = or_empty_string (annotation annotations "url");
      scheme = or_empty_string (annotation annotations "scheme");
      port = or_empty_string (annotation annotations "port");
      path = or_empty_string (annotation annotations "path");
      templates = split_in (annotation annotations "template");
      templates_set = is_present (annotation annotations "template");
      extra_templates = split_in (annotation annotations "template-extra");
      patch = patch;
    })

item_spec : ℕ → Option Object → Parsed Spec
item_spec i none = bad (at_item i not_a_mapping)
item_spec i (some obj) = wrap (at_item i) (spec_from_object obj)

item_specs : ℕ → Items → Parsed (List Spec)
unfolding item_spec and_then
item_specs i no_items = ok []
item_specs i (item v items) =
    and_then (item_spec i (to_object v))
      (λ s. and_then (item_specs (suc i) items) (λ rest. ok (s ∷ rest)))

decoded_list : Option Items → Parsed (List Spec)
unfolding item_specs
decoded_list none = bad not_a_list
decoded_list (some items) = item_specs 0 items

unfoldable pub parse_endpoint_list : Decoder → String → Parsed (List Spec)
unfolding decoded_list
parse_endpoint_list d raw = decoded_list (d.decode_list raw)

abbrev pub endpoints_annotation : String
endpoints_annotation = "endpoints"

-- The annotation `endpoints`, unless it is missing or blank.
unfoldable pub listed_specs : Decoder → Spec → Option String → Parsed (List Spec)
unfolding and_then
listed_specs d base none = ok (base ∷ [])
listed_specs d base (some raw) =
    if trim_space raw == ""
    then ok (base ∷ [])
    else and_then (wrap (at_key (key endpoints_annotation)) (parse_endpoint_list d raw))
        (λ items. ok (map (λ s. inherit s base) items))

unfoldable pub specs_from_annotations : Decoder → Annotations → Parsed (List Spec)
unfolding listed_specs and_then
specs_from_annotations d annotations =
    and_then (parse_shortcuts d annotations)
      (λ base. listed_specs d base (raw_annotation annotations endpoints_annotation))
