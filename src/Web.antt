-- ===== src/Web.antt =====
-- The command API: the handlers of fluid/web.go.
pub mod Requests
pub mod Mounted
use fluidfs.Prelude.{
  ℕ, Bool, true, false, not, List, [], ◌∷◌, ◌++◌, Option, none, some, if◌then◌else◌, ◌==◌, length,
}
use fluidfs.Prelude.Maps.{Map, lookup}
use fluidfs.Prelude.Text.{Text, text, has_prefix, format_uint}
use fluidfs.Fstab.{Platform, MountPoint, format}
use fluidfs.Fstab.Table.{Table, AddError, add_mount_point}

-- A value of a JSON object, where `F` stands for `float64`.
pub data Json (F : Type 0) : Type 0 where
  string : Text → Json F
  number : F → Json F
  other : Json F

-- `os.Stat` of a path: that it does not exist, another error, or whether it is a directory.
pub data Stat : Type 0 where
  missing stat_failed directory no_directory : Stat

-- What the handler takes from outside: a new UUID, the file system and the conversion to `uint32`.
pub record Outside (U F : Type 0) : Type 0 where
  pub new_uuid : U
  pub stat : Text → Stat
  pub to_uint32 : F → ℕ

-- What a handler answers, with its status: data for the client, or an error.
pub data Answer : Type 0 where
  answered : ℕ → Text → Answer
  refused : ℕ → Answer
  panicked : Answer

abbrev pub string_value : {F : Type 0} → Option (Json F) → Option Text
string_value (some (string s)) = some s
string_value _ = none

abbrev pub number_value : {F : Type 0} → Option (Json F) → Option F
number_value (some (number x)) = some x
number_value _ = none

-- `FSTable.Status`
unfoldable pub status : {U : Type 0} → List (MountPoint U) → Text
unfolding format_uint
status mounts = text "fs has " ++ (format_uint (length mounts) ++ text " mount points")

module _ (p : Platform) {F : Type 0} (outside : Outside p.Uuid F) where
  abbrev pub Handled : Type 0
  Handled = Table p × p.Disk × Answer

  -- The mount point that the handler makes.
  abbrev pub requested : Text → Text → F → F → MountPoint p.Uuid
  requested path prefix uid gid = record {
    uuid = outside.new_uuid;
    path = path;
    prefix = prefix;
    uid = outside.to_uint32 uid;
    gid = outside.to_uint32 gid;
    stored = true;
    replicate = true;
    comments = [];
    options = text "defaults" ∷ [];
  }

  -- The end of `MountHandler`, from the answer of `AddMountPoint`.
  abbrev pub mounted : MountPoint p.Uuid → Table p × p.Disk × Option (AddError p) → Handled
  mounted mp (t, disk, some e) = (t, disk, refused 500)
  mounted mp (t, disk, none) = (t, disk, answered 200 (format p mp).1)

  -- The checks of the path and the prefix. A nil `info` panics.
  unfoldable pub checked_mount : p.Disk → p.Time → MountPoint p.Uuid → Table p → Handled
  unfolding add_mount_point format
  checked_mount disk now mp t = elim (outside.stat mp.path) [
    | missing ↦ (t, disk, refused 400)
    | stat_failed ↦ (t, disk, panicked)
    | no_directory ↦ (t, disk, refused 400)
    | directory ↦
        if has_prefix mp.prefix (text "/")
        then (t, disk, refused 400)
        else mounted mp (add_mount_point p disk now mp t)
  ]

  -- `MountHandler`; none is a request whose JSON cannot be read.
  unfoldable pub mount_handler : p.Disk → p.Time → Option (Map (Json F)) → Table p → Handled
  unfolding checked_mount lookup
  mount_handler disk now none t = (t, disk, refused 500)
  mount_handler disk now (some req) t = elim (string_value (lookup "path" req)) [
    | none ↦ (t, disk, refused 400)
    | some path ↦ elim (string_value (lookup "prefix" req)) [
      | none ↦ (t, disk, refused 400)
      | some prefix ↦ elim (number_value (lookup "uid" req)) [
        | none ↦ (t, disk, refused 400)
        | some uid ↦ elim (number_value (lookup "gid" req)) [
          | none ↦ (t, disk, refused 400)
          | some gid ↦ checked_mount disk now (requested path prefix uid gid) t
        ]
      ]
    ]
  ]
