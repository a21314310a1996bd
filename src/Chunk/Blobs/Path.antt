-- ===== src/Chunk/Blobs/Path.antt =====
-- `Blob.Save` and `Blob.Load` of fluid/chunk.go: the name of the file keeps the hash.
use fluidfs.Prelude.{
  ℕ, ◌<◌, ◌≡◌, ◌≢◌, refl, sym, ap, ◌∙◌, inl, inr, true, false, not, ◌&&◌, List, [], ◌∷◌, ◌++◌,
  Option, none, some, length, length-append, All, arith, Bool-cases, Option-cases, ◌==◌,
  if◌then◌else◌, ◌⊎◌, subst,
}
use fluidfs.Prelude.Slices.{Bytes}
use fluidfs.Prelude.Text.{Text, text_eq, is_empty, has_prefix}
use fluidfs.Prelude.Text.Words.{All-append}
use fluidfs.Utils.{stride_fixed}
use fluidfs.Utils.Stride.{IsAscii, stride_fixed_lem}
use fluidfs.Chunk.{Blob, size}
use fluidfs.Chunk.Blobs.{FileLibrary, blob_ext, trim_suffix, with_path, load, in_data_dir, save}

abbrev pub NotSlash : ℕ → Type 0
NotSlash c = c ≢ b'/'

text_eq-length : (s t : Text) → text_eq s t ≡ true → length s ≡ length t
text_eq-length [] [] h = refl
text_eq-length [] (d ∷ t) h = absurd (ground arith)
text_eq-length (c ∷ s) [] h = absurd (ground arith)
text_eq-length (c ∷ s) (d ∷ t) h = omega (arith, text_eq-length s t (ground arith))

longer_differs : (s t : Text) → length t < length s → text_eq s t ≡ false
longer_differs s t h = elim (Bool-cases (text_eq s t)) [
  | inr differs ↦ differs
  | inl same ↦ absurd (omega (arith, text_eq-length s t same))
]

trim_suffix-append : (s : Text) → trim_suffix (s ++ blob_ext) blob_ext ≡ s
trim_suffix-append [] = refl
trim_suffix-append (c ∷ s) =
    rw
      (
        trim_suffix,
        longer_differs (c ∷ s ++ blob_ext) blob_ext (omega (arith, length-append s blob_ext)),
      )
      (ap (λ t. c ∷ t) (trim_suffix-append s))

size-cached : (b : Blob) → (size b).1 ≡ (if b.size == 0 then length b.contents else b.size)
unfolding size
size-cached b = ground arith

module _ (lib : FileLibrary) where
  open lib use {join, dir, file, ext, Disk, mkdir_all, write_file, read_file}

  -- What is documented of `path/filepath` and of a disk: a name without slashes is its own last element,
  -- `Join` keeps the last element of its last part, the extension is what follows the last dot, and a
  -- file that was written is read back.
  pub record FileLaws : Type 0 where
    pub file_law : (name : Text) → All NotSlash name → file name ≡ name
    pub join_law :
        (d path : Text)
        → All NotSlash (file path)
        → 2 < length (file path)
        → file (join (d ∷ path ∷ [])) ≡ file path
    pub ext_law : (path stem : Text) → file path ≡ stem ++ blob_ext → ext path ≡ blob_ext
    pub read_law :
        (path : Text) (contents : Bytes) (disk disk' : Disk)
        → write_file path contents disk ≡ some disk'
        → read_file path disk' ≡ (contents, true)

  module _ (laws : FileLaws) (hash : Text) (plain : All NotSlash hash) where
    name_plain : All NotSlash (hash ++ blob_ext)
    name_plain = All-append NotSlash hash blob_ext plain (ground arith)

    name_long : 2 < length (hash ++ blob_ext)
    name_long = omega (arith, length-append hash blob_ext)

    -- `Join` with a path of that name has that name.
    join_name :
        (d path : Text)
        → file path ≡ hash ++ blob_ext
        → file (join (d ∷ path ∷ [])) ≡ hash ++ blob_ext
    join_name d path e =
        laws.join_law d path (subst (All NotSlash) (sym e) name_plain)
          (subst (λ n. 2 < length n) (sym e) name_long)
        ∙ e

    in_data_dir-file :
        (data_dir : Text) (b : Blob)
        → file b.path ≡ hash ++ blob_ext
        → file (in_data_dir lib data_dir b).path ≡ hash ++ blob_ext
    unfolding in_data_dir
    in_data_dir-file data_dir b e =
        elim (Bool-cases (not (is_empty data_dir) && not (has_prefix b.path data_dir))) [
          | inl joined ↦ rw (in_data_dir, joined) (join_name data_dir b.path e)
          | inr kept ↦ rw (in_data_dir, kept) e
        ]

    load_file :
        (path : Text) (disk : Disk) (contents : Bytes) (old : Blob)
        → file path ≡ hash ++ blob_ext
        → read_file path disk ≡ (contents, true)
        → load lib path disk old
          ≡ (record { contents = contents; size = old.size; hash = hash; path = path }, true)
    unfolding load
    load_file path disk contents old e read =
        rw (load, read, laws.ext_law path hash e, e, trim_suffix-append hash) refl

  in_data_dir_keeps :
      (data_dir : Text) (b : Blob)
      → ((in_data_dir lib data_dir b).contents ≡ b.contents)
        × ((in_data_dir lib data_dir b).size ≡ b.size)
        × ((in_data_dir lib data_dir b).hash ≡ b.hash)
  unfolding in_data_dir
  in_data_dir_keeps data_dir b = (ground arith, ground arith, ground arith)

  with_path_new :
      (b : Blob) (parts : List Text)
      → b.path ≡ []
      → stride_fixed b.hash 8 ≡ some parts
      → with_path lib b ≡ some (record b { path = join (join parts ∷ (b.hash ++ blob_ext) ∷ []) })
  unfolding with_path
  with_path_new b parts new strided = rw (with_path, ap is_empty new, strided) refl

  -- A new blob whose hash is a text of one-byte runes, not empty and without slashes, is saved without
  -- a panic: its contents, its cached size and its hash stay, and either the write fails, or `Load` of
  -- its path gives contents, hash and path of the saved blob, whatever the blob was that is loaded into;
  -- but the cached size stays that of the blob that is loaded into, and where that is not 0, `Size`
  -- answers it, whatever was loaded.
  pub load_blob-save :
      (laws : FileLaws) (data_dir : Text) (disk : Disk) (b old : Blob)
      → b.path ≡ []
      → b.hash ≢ []
      → All IsAscii b.hash
      → All NotSlash b.hash
      → (saved : Blob) × (written : Option Disk) × (save lib data_dir disk b
          ≡ some (saved, written))
        × (saved.contents ≡ b.contents)
        × (saved.size ≡ b.size)
        × (saved.hash ≡ b.hash)
        × ((written ≡ none)
            ⊎ ((disk' : Disk) × (written ≡ some disk')
                × (load lib saved.path disk' old ≡ (record saved { size = old.size }, true))
                × ((size (load lib saved.path disk' old).0).1
                    ≡ (if old.size == 0 then length b.contents else old.size))))
  unfolding save
  load_blob-save laws data_dir disk b old new nonempty ascii plain =
      let (parts, rest, strided, spells, short, sizes) =
        stride_fixed_lem b.hash 8 (omega arith) nonempty ascii in
      let named = record b { path = join (join parts ∷ (b.hash ++ blob_ext) ∷ []) } in
      let placed = in_data_dir lib data_dir named in
      let (same_contents, same_size, same_hash) = in_data_dir_keeps data_dir named in
      let name = in_data_dir-file laws b.hash plain data_dir named (
        join_name laws b.hash plain (join parts) (b.hash ++ blob_ext)
          (laws.file_law (b.hash ++ blob_ext) (name_plain laws b.hash plain))) in
      let written = write_file placed.path placed.contents (mkdir_all (dir placed.path) disk) in
      (
        placed,
        written,
        rw (save, with_path_new b parts new strided) refl,
        same_contents,
        same_size,
        same_hash,
        elim (Option-cases written) [
          | inl fails ↦ inl fails
          | inr (disk', e) ↦
              let loaded : load lib placed.path disk' old
                  ≡ (record placed { size = old.size }, true) =
                load_file laws b.hash plain placed.path disk' placed.contents old name (
                  laws.read_law placed.path placed.contents (mkdir_all (dir placed.path) disk) disk'
                    e)
                ∙ ap (λ h. (record placed { size = old.size; hash = h }, true)) (sym same_hash) in
              inr (
                disk',
                e,
                loaded,
                ap (λ r. (size r.0).1) loaded
                    ∙ size-cached (record placed { size = old.size })
                    ∙ ap (λ s. if old.size == 0 then length s else old.size) same_contents,
              )
        ],
      )
