-- ===== src/Config/Writer.antt =====
-- internal/config/writer.go: the operator's base configuration, and the file that Gatus watches.
-- The files are those that `Write` touches: the target and its temporary file, each with its bytes
-- (as a text) and its mode. What the operating system refuses is an argument, `Faults`. The history
-- is the files after each call that may change them, which is what another process can see.
-- `last` is `none` for nil, and the content that is written is not nil.
pub mod Atomic
use gatus_sidecar.Prelude.{
  ℕ, String, Bool, true, false, Option, none, some, List, [], ◌∷◌, ◌==◌, string_eq, if◌then◌else◌,
}
use gatus_sidecar.Value.{Object, no_fields}
use gatus_sidecar.Value.Fields.{remove}
use gatus_sidecar.Config.Render.{endpoints_key}

pub data LoadResult : Type 0 where
  loaded : Object → LoadResult
  read_failed : LoadResult
  parse_failed : String → LoadResult

-- What yaml.v3 makes of the file: an error, nil, or a mapping.
pub data Parsed : Type 0 where
  malformed : Parsed
  nothing : Parsed
  mapping : Object → Parsed

parsed : String → Parsed → LoadResult
parsed path malformed = parse_failed path
parsed path nothing = loaded (remove endpoints_key no_fields)
parsed path (mapping base) = loaded (remove endpoints_key base)

read : (String → Parsed) → String → Option String → LoadResult
unfolding parsed
read unmarshal path none = read_failed
read unmarshal path (some raw) = parsed path (unmarshal raw)

unfoldable pub load_base : (String → Option String) → (String → Parsed) → String → LoadResult
unfolding read
load_base read_file unmarshal path =
    if path == "" then loaded no_fields else read unmarshal path (read_file path)

pub record File : Type 0 where
  pub bytes : String
  pub mode : ℕ

pub record Files : Type 0 where
  pub target : Option File
  pub temp : Option File

-- Which calls fail. Of a write that fails, `partial` has reached the file.
pub record Faults : Type 0 where
  pub read_file : Bool
  pub make_directory : Bool
  pub create_temp : Bool
  pub write_temp : Bool
  pub partial : String
  pub sync : Bool
  pub close : Bool
  pub change_mode : Bool
  pub rename : Bool
  pub remove_temp : Bool

pub record Writer : Type 0 where
  pub path : String
  pub last : Option String

pub data Failure : Type 0 where
  create_directory : Failure
  create_temp_file : Failure
  write_temp_file : Failure
  sync_temp_file : Failure
  close_temp_file : Failure
  chmod_temp_file : Failure
  rename_temp_file : Failure

-- `(false, nil)`, `(true, nil)` and `(false, err)`.
pub data WriteResult : Type 0 where
  unchanged : WriteResult
  changed : WriteResult
  failed : Failure → WriteResult

pub record Report : Type 0 where
  pub result : WriteResult
  pub writer : Writer
  pub files : Files
  pub history : List Files

-- `os.CreateTemp` makes an empty file of mode 0600.
abbrev pub private_mode : ℕ
private_mode = 0x180

-- 0o644
abbrev pub public_mode : ℕ
public_mode = 0x1a4

abbrev pub with_temp : String → ℕ → Files → Files
with_temp s m fs = record fs { temp = some (record { bytes = s; mode = m }) }

-- `os.Rename`
abbrev pub renamed : Files → Files
renamed fs = record { target = fs.temp; temp = none }

abbrev without_temp : Files → Files
without_temp fs = record fs { temp = none }

-- The deferred call: on an error `os.Remove(tmpName)`.
unfoldable pub clean_up : Faults → Writer → Files → Failure → Report
clean_up faults w fs e =
    let fs' = if faults.remove_temp then fs else without_temp fs in
    record { result = failed e; writer = w; files = fs'; history = fs' ∷ [] }

-- The files that a call leaves, before what happens next.
abbrev pub then_report : Files → Report → Report
then_report fs r = record r { history = fs ∷ r.history }

-- From `tmp.Write` on: the temporary file is there and empty.
unfoldable pub fill_and_rename : Faults → Writer → String → Files → Report
unfolding clean_up
fill_and_rename faults w content fs =
    let full = with_temp content private_mode fs in
    let public' = with_temp content public_mode fs in
    if faults.write_temp
    then then_report (with_temp faults.partial private_mode fs)
        (clean_up faults w (with_temp faults.partial private_mode fs) write_temp_file)
    else then_report full (
        if faults.sync
        then clean_up faults w full sync_temp_file
        else if faults.close
        then clean_up faults w full close_temp_file
        else if faults.change_mode
        then clean_up faults w full chmod_temp_file
        else then_report public' (
            if faults.rename then clean_up faults w public' rename_temp_file else record {
              result = changed;
              writer = record w { last = some content };
              files = renamed public';
              history = renamed public' ∷ [];
            }))

unfoldable pub publish : Faults → Writer → String → Files → Report
unfolding fill_and_rename
publish faults w content fs =
    if faults.make_directory
    then record { result = failed create_directory; writer = w; files = fs; history = [] }
    else if faults.create_temp
    then record { result = failed create_temp_file; writer = w; files = fs; history = [] }
    else then_report (with_temp "" private_mode fs)
        (fill_and_rename faults w content (with_temp "" private_mode fs))

abbrev keep : Writer → Files → Report
keep w fs = record { result = unchanged; writer = w; files = fs; history = [] }

-- `os.ReadFile(w.path)`
unfoldable pub on_disk : Faults → Files → Option File
on_disk faults fs = if faults.read_file then none else fs.target

-- The first write after a start, given what is on disk.
unfoldable pub first_write : Faults → Writer → String → Files → Option File → Report
unfolding publish
first_write faults w content fs none = publish faults w content fs
first_write faults w content fs (some existing) =
    if existing.bytes == content
    then keep (record w { last = some content }) fs
    else publish faults w content fs

unfoldable pub write_after : Faults → Writer → String → Files → Option String → Report
unfolding publish first_write on_disk
write_after faults w content fs none = first_write faults w content fs (on_disk faults fs)
write_after faults w content fs (some last) =
    if last == content then keep w fs else publish faults w content fs

unfoldable pub write : Faults → Writer → String → Files → Report
unfolding write_after
write faults w content fs = write_after faults w content fs w.last
