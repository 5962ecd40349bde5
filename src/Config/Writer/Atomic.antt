-- ===== src/Config/Writer/Atomic.antt =====
-- About `Write` and `LoadBase` of internal/config/writer.go.
use gatus_sidecar.Prelude.{
  String, ◌≡◌, refl, sym, ap, subst, ◌∙◌, ◌⊎◌, inl, inr, false, Option, none, some, List, [], ◌∷◌,
  ◌==◌, string_eq, if_elim, beq_refl, none≢some, ◌≢◌,
}
use mathlib.Core.Option
use gatus_sidecar.Value.{Object, no_fields}
use gatus_sidecar.Value.Fields.{get, get-remove}
use gatus_sidecar.Config.Render.{endpoints_key}
use gatus_sidecar.Config.Writer.{
  LoadResult, loaded, Parsed, malformed, nothing, mapping, parsed, read, load_base, File, Files,
  Faults, Writer, Failure, WriteResult, unchanged, changed, failed, Report, private_mode,
  public_mode, with_temp, clean_up, then_report, fill_and_rename, publish, on_disk, first_write,
  write_after, write, create_directory, create_temp_file, write_temp_file, sync_temp_file,
  close_temp_file, chmod_temp_file, rename_temp_file,
}

-- The whole new file, which all may read.
abbrev pub published : String → File
published content = record { bytes = content; mode = public_mode }

-- Each time another process looks, the target is the old file or the whole new one.
abbrev pub OldOrNew : String → Files → List Files → Type 0
OldOrNew content before [] = Unit
OldOrNew content before (fs ∷ history) =
    ((fs.target ≡ before.target) ⊎ (fs.target ≡ some (published content)))
    × OldOrNew content before history

-- What is left behind, by the result.
abbrev pub Leaves :
    Faults → Writer → String → Files → WriteResult → Writer → Files → List Files → Type 0
Leaves faults w content before unchanged w' after history =
    (after ≡ before)
    × (history ≡ [])
    × (w'.last ≡ some content)
    × ((w.last ≡ some content)
        ⊎ ((w.last ≡ none) × (Option.map (λ f. f.bytes) before.target ≡ some content)))
Leaves faults w content before changed w' after history =
    (after.target ≡ some (published content)) × (after.temp ≡ none) × (w'.last ≡ some content)
Leaves faults w content before (failed e) w' after history =
    (after.target ≡ before.target)
    × (w' ≡ w)
    × (before.temp ≡ none → faults.remove_temp ≡ false → after.temp ≡ none)

pub record IsAtomic (faults : Faults) (w : Writer) (content : String) (before : Files) (r : Report)
    : Type 0 where
  pub seen : OldOrNew content before r.history
  pub left : Leaves faults w content before r.result r.writer r.files r.history

on_disk-target :
    (faults : Faults) (before : Files) (existing : File)
    → on_disk faults before ≡ some existing
    → before.target ≡ some existing
unfolding on_disk
on_disk-target faults before existing =
    if_elim (λ o. o ≡ some existing → before.target ≡ some existing) faults.read_file none
      before.target (λ b e. absurd (none≢some e)) (λ b e. e)

module _ (faults : Faults) (w : Writer) (content : String) (before : Files) where
  abbrev Good : Report → Type 0
  Good = IsAtomic faults w content before

  -- A report that does not say that nothing changed.
  record Final (r : Report) : Type 0 where
    good : Good r
    acts : r.result ≢ unchanged

  then_report-Final :
      (fs : Files) (r : Report) → fs.target ≡ before.target → Final r → Final (then_report fs r)
  then_report-Final fs r h g = record {
    good = record { seen = (inl h, g.good.seen); left = moved r.result g.acts g.good.left };
    acts = g.acts;
  }
    where
      moved :
          (result : WriteResult)
          → result ≢ unchanged
          → Leaves faults w content before result r.writer r.files r.history
          → Leaves faults w content before result r.writer r.files (fs ∷ r.history)
      moved unchanged n l = absurd (n refl)
      moved changed n l = l
      moved (failed e) n l = l

  gives_up :
      (r : Files) (e : Failure) (history : List Files)
      → OldOrNew content before history
      → r.target ≡ before.target
      → (before.temp ≡ none → faults.remove_temp ≡ false → r.temp ≡ none)
      → Final (record { result = failed e; writer = w; files = r; history = history })
  gives_up r e history seen h t = record {
    good = record { seen = seen; left = (h, refl, t) };
    acts = λ k. cc;
  }

  clean_up-Final :
      (fs : Files) (e : Failure) → fs.target ≡ before.target → Final (clean_up faults w fs e)
  unfolding clean_up
  clean_up-Final fs e h =
      if_elim
        (λ fs'. Final (record { result = failed e; writer = w; files = fs'; history = fs' ∷ [] }))
        faults.remove_temp fs (record fs { temp = none })
        (λ b. gives_up fs e (fs ∷ []) (inl h, tt) h (λ n o. cc))
        (λ b. gives_up (record fs { temp = none }) e _ (inl h, tt) h (λ n o. refl))

  fill_and_rename-Final :
      (fs : Files) → fs.target ≡ before.target → Final (fill_and_rename faults w content fs)
  unfolding fill_and_rename
  fill_and_rename-Final fs h =
      if_elim Final faults.write_temp _ _
        (λ b. then_report-Final _ _ h (clean_up-Final _ write_temp_file h))
        λ b. then_report-Final _ _ h (
          if_elim Final faults.sync _ _ (λ b. clean_up-Final _ sync_temp_file h)
            λ b.
              if_elim Final faults.close _ _ (λ b. clean_up-Final _ close_temp_file h)
                λ b.
                  if_elim Final faults.change_mode _ _ (λ b. clean_up-Final _ chmod_temp_file h)
                    λ b. then_report-Final _ _ h (
                      if_elim Final faults.rename _ _ (λ b. clean_up-Final _ rename_temp_file h)
                        λ b. record {
                          good = record { seen = (inr refl, tt); left = (refl, refl, refl) };
                          acts = λ k. cc;
                        }))

  publish-Good : Good (publish faults w content before)
  unfolding publish
  publish-Good =
      if_elim Good faults.make_directory _ _
        (λ b. (gives_up before create_directory [] tt refl (λ n o. n)).good)
        λ b.
          if_elim Good faults.create_temp _ _
            (λ b. (gives_up before create_temp_file [] tt refl (λ n o. n)).good)
            λ b.
              (then_report-Final (with_temp "" private_mode before) _ refl
                (fill_and_rename-Final (with_temp "" private_mode before) refl)).good

  first_write-Good :
      w.last ≡ none
      → (disk : Option File) → on_disk faults before ≡ disk
      → Good (first_write faults w content before disk)
  unfolding first_write
  first_write-Good h none d = publish-Good
  first_write-Good h (some existing) d =
      if_elim Good (existing.bytes == content) _ _
        (λ b. record {
          seen = tt;
          left = (
            refl,
            refl,
            refl,
            inr (
              h,
              ap (Option.map (λ f. f.bytes)) (on_disk-target faults before existing d)
                  ∙ ap some ((string_eq.beq_iff existing.bytes content).0 b),
            ),
          );
        })
        (λ b. publish-Good)

  write_after-Good :
      (last : Option String) → w.last ≡ last → Good (write_after faults w content before last)
  unfolding write_after
  write_after-Good none h = first_write-Good h (on_disk faults before) refl
  write_after-Good (some last) h =
      if_elim Good (last == content) _ _
        (λ b.
          let same = h ∙ ap some ((string_eq.beq_iff last content).0 b) in
          record { seen = tt; left = (refl, refl, same, inl same) })
        (λ b. publish-Good)

  -- Whatever fails: another process sees the old target or the whole new one at each moment. If the
  -- write fails, the target and the writer are as before, and the temporary file is gone unless its
  -- removal fails too. If it reports a change, the target is the new file, with mode 0644, and no
  -- temporary file is left. If it reports none, nothing was written, and the content was the last
  -- one written or, on the first call, what is on disk.
  pub write-IsAtomic : IsAtomic faults w content before (write faults w content before)
  unfolding write
  write-IsAtomic = write_after-Good w.last refl

-- After a write that did not fail, writing the same content again touches nothing.
pub write_again :
    (faults faults' : Faults) (w : Writer) (content : String) (fs : Files)
    → ((e : Failure) → (write faults w content fs).result ≢ failed e)
    → ((write faults'
          (write faults w content fs).writer
          content
          (write faults w content fs).files).result
        ≡ unchanged)
      × ((write faults'
            (write faults w content fs).writer
            content
            (write faults w content fs).files).history
          ≡ [])
write_again faults faults' w content fs ok =
    known (write faults w content fs).writer (write faults w content fs).files (
      remembered (write faults w content fs).result _ _ _ ok
        (write-IsAtomic faults w content fs).left)
  where
    remembered :
        (result : WriteResult) (w' : Writer) (after : Files) (history : List Files)
        → ((e : Failure) → result ≢ failed e)
        → Leaves faults w content fs result w' after history
        → w'.last ≡ some content
    remembered unchanged w' after history n l = l.2
    remembered changed w' after history n l = l.2
    remembered (failed e) w' after history n l = absurd (n e refl)

    known :
        (w' : Writer) (after : Files)
        → w'.last ≡ some content
        → ((write faults' w' content after).result ≡ unchanged)
          × ((write faults' w' content after).history ≡ [])
    known w' after h =
        unfold write write_after in
        subst
          (λ l.
            ((write_after faults' w' content after l).result ≡ unchanged)
            × ((write_after faults' w' content after l).history ≡ []))
          (sym h) (rw (beq_refl content) (refl, refl))

loaded_object : LoadResult → Object
loaded_object (loaded o) = o
loaded_object _ = no_fields

loaded_inj : {a b : Object} → loaded a ≡ loaded b → a ≡ b
unfolding loaded_object
loaded_inj h = ap loaded_object h

parsed-lacks_endpoints :
    (path : String) (p : Parsed) (base : Object)
    → parsed path p ≡ loaded base
    → get endpoints_key base ≡ none
unfolding parsed
parsed-lacks_endpoints path malformed base h = cc
parsed-lacks_endpoints path nothing base h =
    rw (← loaded_inj h) (get-remove endpoints_key endpoints_key no_fields)
parsed-lacks_endpoints path (mapping m) base h =
    rw (← loaded_inj h) (get-remove endpoints_key endpoints_key m)

-- A base that loads has no list of endpoints of its own.
pub load_base-lacks_endpoints :
    (read_file : String → Option String) (unmarshal : String → Parsed) (path : String)
    (base : Object)
    → load_base read_file unmarshal path ≡ loaded base
    → get endpoints_key base ≡ none
unfolding load_base read get
load_base-lacks_endpoints read_file unmarshal path base =
    if_elim (λ r. r ≡ loaded base → get endpoints_key base ≡ none) (path == "") (loaded no_fields) _
      (λ b h. subst (λ o. get endpoints_key o ≡ none) (loaded_inj h) refl)
      λ b. of_file (read_file path)
  where
    of_file :
        (raw : Option String)
        → read unmarshal path raw ≡ loaded base
        → get endpoints_key base ≡ none
    of_file none h = cc
    of_file (some raw) h = parsed-lacks_endpoints path (unmarshal raw) base h
