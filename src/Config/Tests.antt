-- ===== src/Config/Tests.antt =====
-- Documents, templates and files to try internal/config/merge.go, resolve.go and writer.go on.
use gatus_sidecar.Prelude.{
  String, ◌≡◌, refl, ◌≢◌, true, false, Option, none, some, List, [], ◌∷◌, string_eq,
}
use gatus_sidecar.Value.{
  Value, text, list, object, Object, no_fields, field, Items, item, no_items, any_map, entry,
  no_entries,
}
use gatus_sidecar.Value.Fields.{get, HasUniqueFields}
use gatus_sidecar.Config.Merge.{as_object, copy_value, merge_value, merge_all}
use gatus_sidecar.Config.Merge.Layers.{get_layers, get-merge_all}
use gatus_sidecar.Config.Merge.Paths.{WellFormed, get_path, get_path-merge_value}
use gatus_sidecar.Config.Render.{endpoints_key}
use gatus_sidecar.Config.Resolve.{TemplateSet, new_template_set, resolve_top, resolve_many}
use gatus_sidecar.Config.Resolve.Sound.{Answers, IsSound, empty-IsSound}
use gatus_sidecar.Config.Resolve.Correct.{resolve_top-IsGood}
use gatus_sidecar.Config.Resolve.Many.{AddsUp, resolve_many-AddsUp}
use gatus_sidecar.Config.Template.{Template, Decoded, decoded}
use gatus_sidecar.Config.Writer.{
  Parsed, mapping, loaded, load_base, Files, Faults, Writer, Failure, unchanged, failed, write,
  public_mode,
}
use gatus_sidecar.Config.Writer.Atomic.{IsAtomic, write-IsAtomic}

abbrev client : Object
client = field "timeout" (text "5s") (field "method" (text "GET") no_fields)

abbrev under : Object
under =
    field "client" (object client) (field "conditions" (list (item (text "a") no_items)) no_fields)

-- As a decoder gives a mapping below a mapping with a key that is not a string.
abbrev over : Object
over =
    field "client" (any_map (entry (text "timeout") (text "9s") no_entries))
      (field "conditions" (list (item (text "b") no_items)) no_fields)

over-HasUniqueFields : HasUniqueFields over
unfolding get
over-HasUniqueFields = (refl, (refl, tt))

under-HasUniqueFields : HasUniqueFields under
unfolding get
under-HasUniqueFields = (refl, (refl, tt))

abbrev layers : List (Option Object)
layers = some under ∷ none ∷ some over ∷ []

get-merge_all_example : get "client" (merge_all layers) ≡ get_layers none "client" layers
get-merge_all_example =
    get-merge_all "client" layers (under-HasUniqueFields, (over-HasUniqueFields, tt))

abbrev timeout : List String
timeout = "client" ∷ "timeout" ∷ []

abbrev nested : Value
nested = object (field "client" (object (field "timeout" (text "9s") no_fields)) no_fields)

nested-WellFormed : WellFormed nested
unfolding get WellFormed
nested-WellFormed = ((refl, tt), (((refl, tt), (tt, tt)), tt))

timeout_found : get_path timeout nested ≡ some (text "9s")
unfolding get_path get as_object
timeout_found = refl

get_path-merge_value_example :
    get_path timeout (merge_value (object under) nested) ≡ some (copy_value (text "9s"))
unfolding as_object
get_path-merge_value_example =
    get_path-merge_value timeout (object under) nested (text "9s") nested-WellFormed timeout_found
      refl

abbrev decoder : String → Decoded
decoder raw = decoded (some (field "interval" (text raw) no_fields))

abbrev template : String → List String → Template
template name extends = record {
  name = name;
  generation = 1;
  extends = extends;
  default_for = [];
  scheme = "";
  endpoint = some name;
}

-- `loop` and `back` extend one another.
abbrev templates : TemplateSet
templates = new_template_set (
    template "base" []
    ∷ template "web" ("base" ∷ [])
    ∷ template "loop" ("back" ∷ [])
    ∷ template "back" ("loop" ∷ [])
    ∷ [])

templates-IsSound : IsSound decoder templates.by_name templates.cache
unfolding new_template_set
templates-IsSound = empty-IsSound decoder templates.by_name

resolve_top-IsGood_example :
    Answers decoder templates.by_name "web" (resolve_top decoder templates "web").0
    × IsSound decoder templates.by_name (resolve_top decoder templates "web").1.cache
    × ((resolve_top decoder templates "web").1.by_name ≡ templates.by_name)
resolve_top-IsGood_example = resolve_top-IsGood decoder templates "web" templates-IsSound

abbrev listed : List String
listed = "web" ∷ "loop" ∷ "missing" ∷ []

resolve_many-AddsUp_example :
    AddsUp decoder templates.by_name listed no_fields [] (resolve_many decoder templates listed)
resolve_many-AddsUp_example = resolve_many-AddsUp decoder templates listed templates-IsSound

-- The disk is full: half of the content is written.
abbrev full_disk : Faults
full_disk = record {
  read_file = false;
  make_directory = false;
  create_temp = false;
  write_temp = true;
  partial = "ne";
  sync = false;
  close = false;
  change_mode = false;
  rename = false;
  remove_temp = false;
}

abbrev no_faults : Faults
no_faults = record full_disk { write_temp = false; partial = "" }

abbrev writer : Writer
writer = record { path = "/config/gatus.yaml"; last = none }

abbrev files : Files
files = record { target = some (record { bytes = "old"; mode = public_mode }); temp = none }

write-IsAtomic_example : IsAtomic full_disk writer "new" files (write full_disk writer "new" files)
write-IsAtomic_example = write-IsAtomic full_disk writer "new" files

written : (write no_faults writer "new" files).result ≢ unchanged
unfolding write
written h = cc

no_failure : (e : Failure) → (write no_faults writer "new" files).result ≢ failed e
unfolding write
no_failure e h = cc

abbrev read_file : String → Option String
read_file path = some "ui: dark"

abbrev parse : String → Parsed
parse raw = mapping (field "ui" (text raw) (field endpoints_key (list no_items) no_fields))

abbrev dark : Object
dark = field "ui" (text "ui: dark") no_fields

base_loaded : load_base read_file parse "/base.yaml" ≡ loaded dark
unfolding load_base gatus_sidecar.Value.Fields.remove
base_loaded = refl
