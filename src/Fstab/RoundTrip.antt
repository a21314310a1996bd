-- ===== src/Fstab/RoundTrip.antt =====
-- What `FSTable.Save` of fluid/fstab.go writes, and that `FSTable.Load` reads it back.
use fluidfs.Prelude.{
  ◌≡◌, refl, sym, ap, ◌∙◌, false, ◌||◌, List, [], ◌∷◌, ◌++◌, none, some, All, append_assoc,
  if◌then◌else◌,
}
use fluidfs.Prelude.Text.{Text, is_empty, join, lines_from}
use fluidfs.Prelude.Text.Words.{All-append}
use fluidfs.Prelude.Text.Lines.{
  written_lines, written_lines-append, lines_from-written_lines, or_empty_line, join-written_lines,
}
use fluidfs.Fstab.{Platform, MountPoint, format}
use fluidfs.Fstab.Table.{
  Table, update_prefix, scanned, load_lines, scanner_error, load, paragraph, paragraphs, save,
}
use fluidfs.Fstab.File.{
  IsPlain, IsLawful, IsSavable, mount_lines, table_lines, header, All-IsPlain,
  or_empty_line-IsPlain, empty-IsPlain, All-IsLine, scanned-plain, definition-IsPlain,
  header-IsPlain, load-update, load-table,
}

module _ (p : Platform) (to_second : p.Time → p.Time) (laws : IsLawful p to_second) where
  paragraph_lines :
      (mp : MountPoint p.Uuid) → paragraph p mp ≡ written_lines (mount_lines p to_second laws mp)
  unfolding paragraph
  paragraph_lines mp =
      ap (λ t. 10 ∷ t)
        (sym (append_assoc (join 10 mp.comments) (10 ∷ []) ((format p mp).1 ++ 10 ∷ []))
          ∙ ap (λ t. t ++ ((format p mp).1 ++ 10 ∷ [])) (join-written_lines mp.comments)
          ∙ sym (written_lines-append (or_empty_line mp.comments) ((format p mp).1 ∷ [])))

  paragraphs_lines :
      (mps : List (MountPoint p.Uuid))
      → paragraphs p mps ≡ written_lines (table_lines p to_second laws mps)
  unfolding paragraphs
  paragraphs_lines [] = refl
  paragraphs_lines (mp ∷ mps) =
      ap (λ t. t ++ paragraphs p mps) (paragraph_lines mp)
      ∙ ap (λ t. written_lines (mount_lines p to_second laws mp) ++ t) (paragraphs_lines mps)
      ∙ sym (
          written_lines-append (mount_lines p to_second laws mp) (table_lines p to_second laws mps))

  table-IsPlain :
      (mps : List (MountPoint p.Uuid))
      → All (IsSavable p) mps
      → All IsPlain (table_lines p to_second laws mps)
  table-IsPlain [] h = tt
  table-IsPlain (mp ∷ mps) h =
      All-append IsPlain (mount_lines p to_second laws mp) (table_lines p to_second laws mps)
        (
          empty-IsPlain,
          All-append IsPlain (or_empty_line mp.comments) ((format p mp).1 ∷ [])
              (or_empty_line-IsPlain mp.comments (All-IsPlain mp.comments h.0.comments))
              (definition-IsPlain p to_second laws mp h.0, tt),
        )
        (table-IsPlain mps h.1)

  abbrev output : p.Time → List (MountPoint p.Uuid) → Text
  output now mps = update_prefix ++ (p.format_time now ++ 10 ∷ paragraphs p mps)

  abbrev all_lines : p.Time → List (MountPoint p.Uuid) → List Text
  all_lines now mps = header p to_second laws now ∷ table_lines p to_second laws mps

  scanned-output :
      (now : p.Time) (mps : List (MountPoint p.Uuid))
      → All (IsSavable p) mps
      → scanned (lines_from [] (output now mps)) ≡ (all_lines now mps, false)
  scanned-output now mps h =
      let plain : All IsPlain (all_lines now mps) =
        (header-IsPlain p to_second laws now, table-IsPlain mps h) in
      ap (λ t. scanned (lines_from [] (update_prefix ++ (p.format_time now ++ 10 ∷ t))))
        (paragraphs_lines mps)
      ∙ ap (λ t. scanned (lines_from [] t))
          (sym (
            append_assoc update_prefix (p.format_time now)
              (10 ∷ written_lines (table_lines p to_second laws mps))))
      ∙ ap scanned
          (lines_from-written_lines (all_lines now mps) (All-IsLine (all_lines now mps) plain))
      ∙ scanned-plain (all_lines now mps) plain

  -- Where `Save` succeeds, `Load` of the same path gives the mount points that `Save` left in the table,
  -- in their order and with their comments, and the time of the save to the second. Every mount point
  -- can be printed, its comments are trimmed lines with their mark, none of which is an update line, and
  -- each line is shorter than the scanner's buffer.
  pub load-save :
      (disk disk' : p.Disk) (now later : p.Time) (path : Text) (t : Table p)
      → All (IsSavable p) t.mounts
      → (save p disk now path t).1 ≡ some disk'
      → load p disk' later (if is_empty path then t.path else path) ≡ (
        record {
          mounts = (save p disk now path t).0.mounts;
          path = if is_empty path then t.path else path;
          updated = to_second now;
        },
        none,
      )
  unfolding load save
  load-save disk disk' now later path t h written =
      let file : Text = if is_empty path then t.path else path in
      let fresh : Table p = record { mounts = []; path = file; updated = later } in
      rw
        (
          load,
          laws.written_exists disk disk' file (output now t.mounts) written,
          laws.written_opens disk disk' file (output now t.mounts) written,
        )
        (ap (λ s. scanner_error p (false || s.1) (load_lines p s.0 [] fresh))
            (scanned-output now t.mounts h)
          ∙ ap (scanner_error p false) (
              load-update p to_second laws now (table_lines p to_second laws t.mounts) fresh
              ∙ load-table p to_second laws t.mounts (record fresh { updated = to_second now }) h))
