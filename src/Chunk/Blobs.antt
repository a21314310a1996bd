-- ===== src/Chunk/Blobs.antt =====
-- `Blob` of fluid/chunk.go: where a blob is on disk, how it is written and read. A hash and a path are
-- texts.
pub mod Path
use fluidfs.Prelude.{
  ℕ, Bool, true, false, not, ◌&&◌, List, [], ◌∷◌, ◌++◌, Option, none, some, ◌==◌, if◌then◌else◌,
}
use fluidfs.Prelude.Slices.{Bytes}
use fluidfs.Prelude.Text.{Text, text, text_eq, is_empty, has_prefix}
use fluidfs.Utils.{stride_fixed}
use fluidfs.Chunk.{Blob}

-- What is not in the repository: `path/filepath` and the files on disk. `read_file` answers what could
-- be read and whether there was no error, and `write_file` the disk, or none for an error.
pub record FileLibrary : Type 1 where
  pub join : List Text → Text
  pub dir : Text → Text
  pub file : Text → Text
  pub ext : Text → Text
  pub Disk : Type 0
  pub mkdir_all : Text → Disk → Disk
  pub write_file : Text → Bytes → Disk → Option Disk
  pub read_file : Text → Disk → Bytes × Bool

abbrev pub blob_ext : Text
blob_ext = text ".blob"

-- `strings.TrimSuffix`
abbrev pub trim_suffix : Text → Text → Text
trim_suffix [] suffix = []
trim_suffix (c ∷ s) suffix =
    let rest = trim_suffix s suffix in if text_eq (c ∷ s) suffix then [] else c ∷ rest

module _ (lib : FileLibrary) where
  open lib use {join, dir, file, ext, Disk, mkdir_all, write_file, read_file}

  -- `Path`: the blob as the call leaves it, whose path is the answer; none is a panic.
  unfoldable pub with_path : Blob → Option Blob
  with_path b =
      if is_empty b.path
      then elim (stride_fixed b.hash 8) [
        | none ↦ none
        | some parts ↦ some (record b { path = join (join parts ∷ (b.hash ++ blob_ext) ∷ []) })
      ]
      else some b

  -- The blob as `Load` leaves it, the cached size as it was, and whether there was no error.
  unfoldable pub load : Text → Disk → Blob → Blob × Bool
  load path disk b =
      let (contents, success) = read_file path disk in
      let read = record b { contents = contents; path = path } in
      if not success
      then (record b { contents = contents }, false)
      else if text_eq (ext path) blob_ext
      then (record read { hash = trim_suffix (file path) blob_ext }, true)
      else (read, true)

  -- The path below the data directory.
  unfoldable pub in_data_dir : Text → Blob → Blob
  in_data_dir data_dir b =
      if not (is_empty data_dir) && not (has_prefix b.path data_dir)
      then record b { path = join (data_dir ∷ b.path ∷ []) }
      else b

  -- The blob and the disk as `Save` leaves them; none for the disk is an error of the write, and none for
  -- all a panic.
  unfoldable pub save : Text → Disk → Blob → Option (Blob × Option Disk)
  unfolding with_path in_data_dir
  save data_dir disk b = elim (with_path b) [
    | none ↦ none
    | some named ↦
        let placed = in_data_dir data_dir named in
        some (placed, write_file placed.path placed.contents (mkdir_all (dir placed.path) disk))
  ]
