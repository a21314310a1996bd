-- ===== src/Fstab/Table.antt =====
-- `FSTable` of fluid/fstab.go: loading, saving and adding.
use fluidfs.Prelude.{
  ℕ, Bool, true, false, not, ◌&&◌, ◌||◌, List, [], ◌∷◌, ◌++◌, map, Option, none, some, ltb, ◌==◌,
  if◌then◌else◌,
}
use fluidfs.Prelude.Text.{
  Text, text, text_eq, is_empty, between, after_prefix, has_prefix, trim_space, join, lines_from,
  drop_cr,
}
use fluidfs.Utils.{utf8_length}
use fluidfs.Fstab.{Platform, MountPoint, ParseError, parse, format, blank, with_defaults}

pub record FsTable (U T : Type 0) : Type 0 where
  pub mounts : List (MountPoint U)
  pub path : Text
  pub updated : T

pub data LoadError : Type 0 where
  cannot_open cannot_scan bad_update : LoadError
  bad_mount : ParseError → LoadError

abbrev pub update_prefix : Text
update_prefix = text "# FluidFS fstab config last updated: "

-- The class `[\w\d\s\-\+:,]` of the update line.
abbrev pub is_update_rune : ℕ → Bool
is_update_rune c =
    between b'0' b'9' c
    || between b'A' b'Z' c
    || between b'a' b'z' c
    || c == b'_'
    || between 9 10 c
    || between 12 13 c
    || c == 32
    || c == b'-'
    || c == b'+'
    || c == b':'
    || c == b','

abbrev pub are_update_runes : Text → Bool
are_update_runes [] = true
are_update_runes (c ∷ s) = is_update_rune c && are_update_runes s

-- The submatch of the update line, if the line matches.
unfoldable pub update_date : Text → Option Text
update_date line = elim (after_prefix update_prefix line) [
  | none ↦ none
  | some date ↦ if not (is_empty date) && are_update_runes date then some date else none
]

-- What a trimmed line is.
pub data LineKind : Type 0 where
  empty_line comment definition : LineKind
  update : Text → LineKind

unfoldable pub line_kind : Text → LineKind
unfolding update_date
line_kind line =
    if is_empty line
    then empty_line
    else if has_prefix line (text "#")
    then elim (update_date line) [ none ↦ comment | some date ↦ update date ]
    else definition

-- The lines up to the first that is too long for the scanner's buffer, and whether there is one. The
-- largest token has 64 * 1024 bytes, with the newline.
unfoldable pub scanned : List Text → List Text × Bool
scanned [] = ([], false)
scanned (l ∷ ls) =
    let rest = scanned ls in
    if ltb (utf8_length l) 65536 then (drop_cr l ∷ rest.0, rest.1) else ([], true)

module _ (p : Platform) where
  open p use {
    Uuid, parse_uuid, same_uuid, Time, parse_time, format_time, Disk, not_exist, open_file,
    write_file,
  }

  abbrev pub Table : Type 0
  Table = FsTable Uuid Time

  -- A parsed line joins the table with the comments before it; the rest of the loop is a function.
  abbrev pub add_parsed :
      MountPoint Uuid × Option ParseError
      → (List Text → Table → Table × Option LoadError)
      → List Text
      → Table
      → Table × Option LoadError
  add_parsed (mp, some e) rest comments t = (t, some (bad_mount e))
  add_parsed (mp, none) rest comments t =
      rest [] (record t { mounts = t.mounts ++ record mp { comments = comments } ∷ [] })

  -- The body of the loop of `Load`, with the comments since the last definition.
  unfoldable pub load_line :
      LineKind
      → Text
      → (List Text → Table → Table × Option LoadError)
      → List Text
      → Table
      → Table × Option LoadError
  load_line empty_line line rest comments t = rest comments t
  load_line comment line rest comments t = rest (comments ++ line ∷ []) t
  load_line (update date) line rest comments t = elim (parse_time (trim_space date)) [
    | none ↦ (t, some bad_update)
    | some updated ↦ rest comments (record t { updated = updated })
  ]
  load_line definition line rest comments t = add_parsed (parse p (blank p) line) rest comments t

  unfoldable pub load_lines : List Text → List Text → Table → Table × Option LoadError
  unfolding line_kind trim_space load_line
  load_lines [] comments t = (t, none)
  load_lines (l ∷ ls) comments t =
      load_line (line_kind (trim_space l)) (trim_space l) (load_lines ls) comments t

  -- An error of the scanner, if there was none before.
  abbrev pub scanner_error : Bool → Table × Option LoadError → Table × Option LoadError
  scanner_error failed (t, some e) = (t, some e)
  scanner_error failed (t, none) = (t, if failed then some cannot_scan else none)

  -- The table as the call leaves it, and the error.
  unfoldable pub load : Disk → Time → Text → Table × Option LoadError
  unfolding scanned load_lines lines_from
  load disk now path =
      let t : Table = record { mounts = []; path = path; updated = now } in
      if not_exist disk path then (t, none) else elim (open_file disk path) [
        | none ↦ (t, some cannot_open)
        | some (contents, failed) ↦
            let (ls, too_long) = scanned (lines_from [] contents) in
            scanner_error (failed || too_long) (load_lines ls [] t)
      ]

  -- One mount point in the file.
  unfoldable pub paragraph : MountPoint Uuid → Text
  unfolding format
  paragraph mp = 10 ∷ (join 10 mp.comments ++ 10 ∷ ((format p mp).1 ++ 10 ∷ []))

  unfoldable pub paragraphs : List (MountPoint Uuid) → Text
  unfolding paragraph
  paragraphs [] = []
  paragraphs (mp ∷ mps) = paragraph mp ++ paragraphs mps

  -- The table as the call leaves it, and the disk; none is the error.
  unfoldable pub save : Disk → Time → Text → Table → Table × Option Disk
  unfolding paragraphs
  save disk now path t =
      let path' = if is_empty path then t.path else path in
      let output = update_prefix ++ (format_time now ++ 10 ∷ paragraphs t.mounts) in
      (
        record t { mounts = map with_defaults t.mounts; updated = now },
        write_file disk path' output,
      )

  pub data AddError : Type 0 where
    uuid_exists : Uuid → AddError
    path_exists prefix_exists : Text → AddError
    save_failed : AddError

  -- The first clash with a mount point of the table.
  unfoldable pub clash : MountPoint Uuid → List (MountPoint Uuid) → Option AddError
  clash mp [] = none
  clash mp (cmp ∷ mounts) =
      let rest = clash mp mounts in
      if same_uuid mp.uuid cmp.uuid
      then some (uuid_exists cmp.uuid)
      else if text_eq mp.path cmp.path
      then some (path_exists cmp.path)
      else if text_eq mp.prefix cmp.prefix
      then some (prefix_exists cmp.prefix)
      else rest

  -- The table and the disk as the call leaves them, and the error. Of a write that fails, the model takes
  -- the disk as it was.
  unfoldable pub add_mount_point :
      Disk → Time → MountPoint Uuid → Table → Table × Disk × Option AddError
  unfolding save clash
  add_mount_point disk now mp t = elim (clash mp t.mounts) [
    | some e ↦ (t, disk, some e)
    | none ↦
        let (t', saved) = save disk now [] (record t { mounts = t.mounts ++ mp ∷ [] }) in
        elim saved [ none ↦ (t', disk, some save_failed) | some disk' ↦ (t', disk', none) ]
  ]
