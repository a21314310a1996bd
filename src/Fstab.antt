-- ===== src/Fstab.antt =====
-- The table of mount points: fluid/fstab.go. Its texts are lists of runes.
pub mod Options
pub mod Table
pub mod Entry
pub mod File
pub mod RoundTrip
pub mod Unique
use fluidfs.Prelude.{
  ℕ, ◌≤◌, Bool, true, false, not, List, [], ◌∷◌, ◌++◌, map, Option, none, some, ◌==◌, if◌then◌else◌,
  length, get_or,
}
use fluidfs.Prelude.Text.{
  Text, text, is_empty, fields, split, join, format_uint, parse_uint, parse_bool, format_bool,
}

-- What is not in the repository: the UUIDs of `github.com/google/uuid`, where `parse_uuid` answers its
-- value and whether there was no error; the times of `time` in the layout of the update line; the
-- lower case of a rune; and the files on disk. `open_file` answers the text that could be read and
-- whether reading failed before its end. `write_file` answers the disk, or none for an error; what an
-- error leaves on the disk is not described.
pub record Platform : Type 1 where
  pub Uuid : Type 0
  pub nil_uuid : Uuid
  pub parse_uuid : Text → Uuid × Bool
  pub print_uuid : Uuid → Text
  pub same_uuid : Uuid → Uuid → Bool
  pub Time : Type 0
  pub parse_time : Text → Option Time
  pub format_time : Time → Text
  pub lower : ℕ → ℕ
  pub Disk : Type 0
  pub not_exist : Disk → Text → Bool
  pub open_file : Disk → Text → Option (Text × Bool)
  pub write_file : Disk → Text → Text → Option Disk

-- `MountPoint`, by the type of its UUID.
pub record MountPoint (U : Type 0) : Type 0 where
  pub uuid : U
  pub path : Text
  pub prefix : Text
  pub uid : ℕ
  pub gid : ℕ
  pub stored : Bool
  pub replicate : Bool
  pub comments : List Text
  pub options : List Text

pub data ParseError : Type 0 where
  few_fields bad_uuid bad_uid bad_gid bad_store bad_replicate : ParseError

-- `strings.Join(mp.Options, ",")` with the default that `String` sets first.
abbrev pub default_options : List Text → List Text
default_options [] = text "defaults" ∷ []
default_options (o ∷ os) = o ∷ os

abbrev pub with_defaults : {U : Type 0} → MountPoint U → MountPoint U
with_defaults mp = record mp { options = default_options mp.options }

module _ (p : Platform) where
  open p use {Uuid, nil_uuid, parse_uuid, print_uuid, lower}

  -- The two last fields of a line.
  unfoldable pub parse_flags : MountPoint Uuid → List Text → MountPoint Uuid × Option ParseError
  parse_flags mp fs = elim (parse_bool (get_or fs 6 [])) [
    | none ↦ (record mp { stored = false }, some bad_store)
    | some stored ↦ elim (parse_bool (get_or fs 7 [])) [
      | none ↦ (record mp { stored = stored; replicate = false }, some bad_replicate)
      | some replicate ↦ (record mp { stored = stored; replicate = replicate }, none)
    ]
  ]

  -- The two numbers, the options, and what follows.
  unfoldable pub parse_numbers : MountPoint Uuid → List Text → MountPoint Uuid × Option ParseError
  unfolding parse_flags
  parse_numbers mp fs = elim (parse_uint 32 (get_or fs 3 [])) [
    | none ↦ (mp, some bad_uid)
    | some uid ↦ elim (parse_uint 32 (get_or fs 4 [])) [
      | none ↦ (record mp { uid = uid }, some bad_gid)
      | some gid ↦
          parse_flags
            (record mp { uid = uid; gid = gid; options = split b',' (map lower (get_or fs 5 [])) })
            fs
    ]
  ]

  -- `MountPoint.Parse`: the mount point as the call leaves it, and the error.
  unfoldable pub parse : MountPoint Uuid → Text → MountPoint Uuid × Option ParseError
  unfolding parse_numbers
  parse mp line =
      let fs = fields line in
      let (uuid, no_error) = parse_uuid (get_or fs 0 []) in
      if not (length fs == 8)
      then (mp, some few_fields)
      else if not no_error
      then (record mp { uuid = uuid }, some bad_uuid)
      else parse_numbers (record mp { uuid = uuid; path = get_or fs 1 []; prefix = get_or fs 2 [] })
          fs

  -- The fields of a line.
  abbrev pub columns : MountPoint Uuid → List Text
  columns mp =
      print_uuid mp.uuid
      ∷ mp.path
      ∷ mp.prefix
      ∷ format_uint mp.uid
      ∷ format_uint mp.gid
      ∷ join b',' mp.options
      ∷ format_bool mp.stored
      ∷ format_bool mp.replicate
      ∷ []

  -- `MountPoint.String`: the mount point as the call leaves it, and the line.
  unfoldable pub format : MountPoint Uuid → MountPoint Uuid × Text
  format mp = (with_defaults mp, join b' ' (columns (with_defaults mp)))

  -- `new(MountPoint)`
  abbrev pub blank : MountPoint Uuid
  blank = record {
    uuid = nil_uuid;
    path = [];
    prefix = [];
    uid = 0;
    gid = 0;
    stored = false;
    replicate = false;
    comments = [];
    options = [];
  }
