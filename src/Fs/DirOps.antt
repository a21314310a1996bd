-- ===== src/Fs/DirOps.antt =====
-- The handlers of fluid/dir.go, on the directory at the address `d`. They go through the heap, since
-- the directories of a rename may be one object.
pub mod Entries
pub mod Sound
use fluidfs.Prelude.{
  ℕ, ◌+◌, ◌-◌, ◌%◌, Bool, true, false, not, ◌&&◌, List, [], ◌∷◌, Option, none, some, String, ltb,
  if◌then◌else◌, length,
}
use fluidfs.Prelude.Maps.{Map, lookup, insert, delete}
use fluidfs.Prelude.Int.{u64_mod, add_u64, sub_u64}
use fluidfs.Fs.{
  Node, Dir, File, Entity, dir, file, get_node, FileSystem, Outcome, ok, err, eperm, eexist, eio,
  enoent, panicked, Op, with_lock, unless_readonly, with_dir_bit, is_dir, edit, alloc, on_node,
  on_children, set_atime, set_mtime, set_owner, node_init, file_init, dir_init,
}

-- The children of the directory behind a pointer; a nil pointer panics.
unfoldable pub the_children : {Q A : Type 0} → ℕ → (Map ℕ → Op Q A) → Op Q A
the_children d body fs = elim (fs.heap d) [ some (dir x) ↦ body x.children fs | _ ↦ (panicked, fs) ]

-- A locked call on the directory at an address.
abbrev pub dir_op : {Q A : Type 0} → ℕ → (Map ℕ → Op Q A) → Op Q A
dir_op d body = with_lock (the_children d body)

pub record CreateRequest : Type 0 where
  pub name : String
  pub mode : ℕ
  pub uid : ℕ
  pub gid : ℕ

-- A new entity under a name, with the times of the directory before and after.
unfoldable pub add_child :
    {Q : Type 0} → (ℕ → ℕ) → ℕ → String → Entity → FileSystem Q → FileSystem Q
unfolding edit alloc
add_child now d name e fs =
    edit d (on_node (set_mtime (now 2))) (edit d (on_children (insert name fs.free)) (alloc e fs))

module _ {Q : Type 0} (draw : Q → ℕ × Q) (now : ℕ → ℕ) (d : ℕ) where
  -- The address of the new file, which is node and handle.
  unfoldable pub create_in : CreateRequest → Map ℕ → Op Q ℕ
  unfolding add_child node_init file_init edit
  create_in req children fs =
      let (n, fs') =
        node_init draw (now 1) req.name req.mode (some d)
          (edit d (on_node (set_atime (now 0))) fs) in
      let added = add_child now d req.name (file (file_init (set_owner req.uid req.gid n))) fs' in
      (ok fs.free, record added { nfiles = add_u64 added.nfiles 1 })

  unfoldable pub create : CreateRequest → Op Q ℕ
  unfolding the_children with_lock create_in
  create req = dir_op d (create_in req)

  -- The address of the new directory.
  unfoldable pub mkdir_in : CreateRequest → Map ℕ → Op Q ℕ
  unfolding add_child node_init dir_init edit
  mkdir_in req children fs =
      let (n, fs') =
        node_init draw (now 1) req.name (with_dir_bit req.mode) (some d)
          (edit d (on_node (set_atime (now 0))) fs) in
      let added = add_child now d req.name (dir (dir_init (set_owner req.uid req.gid n))) fs' in
      (ok fs.free, record added { ndirs = add_u64 added.ndirs 1 })

  unfoldable pub mkdir : CreateRequest → Op Q ℕ
  unfolding the_children with_lock unless_readonly mkdir_in
  mkdir req = unless_readonly (dir_op d (mkdir_in req))

-- Whether the entity may be removed: a directory with children may not, and a file whose mode is that
-- of a directory fails the type assertion.
unfoldable pub removable : Entity → Outcome (Unit {0})
removable (dir x) = if is_dir x.node && ltb 0 (length x.children) then err eio else ok tt
removable (file x) = if is_dir x.node then panicked else ok tt

-- `newDir.(*Dir)`: whether the other node is a directory.
unfoldable pub is_dir_object : Option Entity → Bool
is_dir_object (some (dir x)) = true
is_dir_object _ = false

-- `ent.(*Dir)` or `ent.(*File)`, by the mode: the other type panics.
unfoldable pub asserted : ℕ → Option Entity → Outcome ℕ
asserted a none = panicked
asserted a (some (dir x)) = if is_dir x.node then ok a else panicked
asserted a (some (file x)) = if is_dir x.node then panicked else ok a

module _ {Q : Type 0} (now : ℕ → ℕ) (d : ℕ) where
  -- The end of `Remove`: the entry goes, and the counter for its kind.
  unfoldable pub drop_child : String → Entity → FileSystem Q → FileSystem Q
  unfolding edit
  drop_child name e fs =
      let cleared = edit d (on_node (set_mtime (now 1))) (edit d (on_children (delete name)) fs) in
      if is_dir (get_node e)
      then record cleared { ndirs = sub_u64 cleared.ndirs 1 }
      else record cleared { nfiles = sub_u64 cleared.nfiles 1 }

  -- `Remove` once the entity is found; a nil entity panics.
  unfoldable pub remove_entity : String → Option Entity → Op Q (Unit {0})
  unfolding removable drop_child
  remove_entity name none fs = (panicked, fs)
  remove_entity name (some e) fs = elim (removable e) [
    | ok done ↦ (ok tt, drop_child name e fs)
    | err errno ↦ (err errno, fs)
    | _ ↦ (panicked, fs)
  ]

  unfoldable pub remove_child : String → Map ℕ → Op Q (Unit {0})
  unfolding remove_entity edit
  remove_child name children fs =
      let touched = edit d (on_node (set_atime (now 0))) fs in
      elim (lookup name children) [
        | none ↦ (err eexist, touched)
        | some a ↦ remove_entity name (touched.heap a) touched
      ]

  unfoldable pub remove : String → Op Q (Unit {0})
  unfolding the_children with_lock unless_readonly remove_child
  remove name = unless_readonly (dir_op d (remove_child name))

  -- The end of `Rename`, for the entity at `a`: it gets its new name, it is put into the new directory
  -- under that name, and the old name is deleted from the new directory too.
  unfoldable pub move_entry : ℕ → String → String → ℕ → FileSystem Q → FileSystem Q
  unfolding edit
  move_entry dst old new a fs =
      let renamed = edit a (on_node (λ n. set_mtime (now 2) (record n { name = new }))) fs in
      let entered = edit dst (on_children (insert new a)) renamed in
      let stamped = edit dst (on_node (set_mtime (now 3))) entered in
      let deleted = edit dst (on_children (delete old)) stamped in
      edit d (on_node (set_mtime (now 4))) deleted

  unfoldable pub rename_child : String → String → ℕ → Map ℕ → Op Q (Unit {0})
  unfolding is_dir_object move_entry edit
  rename_child old new dst children fs =
      let touched = edit d (on_node (set_atime (now 0))) fs in
      let both = edit dst (on_node (set_atime (now 1))) touched in
      if not (is_dir_object (fs.heap dst))
      then (err eexist, touched)
      else elim (lookup old children) [
        | none ↦ (err eexist, both)
        | some a ↦ elim (both.heap a) [
          | none ↦ (panicked, both)
          | some e ↦ (ok tt, move_entry dst old new a both)
        ]
      ]

  unfoldable pub rename : String → String → ℕ → Op Q (Unit {0})
  unfolding the_children with_lock unless_readonly rename_child
  rename old new dst = unless_readonly (dir_op d (rename_child old new dst))

  unfoldable pub lookup_child : String → Map ℕ → Op Q ℕ
  unfolding asserted edit
  lookup_child name children fs =
      let touched = edit d (on_node (set_atime (now 0))) fs in
      elim (lookup name children) [
        | none ↦ (err enoent, touched)
        | some a ↦ (asserted a (touched.heap a), touched)
      ]

  unfoldable pub lookup_entry : String → Op Q ℕ
  unfolding the_children with_lock lookup_child
  lookup_entry name = dir_op d (lookup_child name)

-- `fuse.Dirent`; the type is that of a directory or of a file.
pub record Dirent : Type 0 where
  pub inode : ℕ
  pub is_directory : Bool
  pub name : String

unfoldable pub dirent : Entity → Dirent
dirent e = record {
  inode = (get_node e).attrs.inode;
  is_directory = is_dir (get_node e);
  name = (get_node e).name;
}

-- The entries in the order of the map, which Go leaves open; a nil entity panics.
unfoldable pub dirents : (ℕ → Option Entity) → Map ℕ → Option (List Dirent)
unfolding dirent
dirents heap [] = some []
dirents heap ((name, a) ∷ children) = elim (heap a) [
  | none ↦ none
  | some e ↦ elim (dirents heap children) [ none ↦ none | some rest ↦ some (dirent e ∷ rest) ]
]

unfoldable pub read_children : {Q : Type 0} → (ℕ → ℕ) → ℕ → Map ℕ → Op Q (List Dirent)
unfolding dirents edit
read_children now d children fs =
    let touched = edit d (on_node (set_atime (now 0))) fs in
    elim (dirents touched.heap children) [
      | none ↦ (panicked, touched)
      | some contents ↦ (ok contents, touched)
    ]

unfoldable pub read_dir_all : {Q : Type 0} → (ℕ → ℕ) → ℕ → Op Q (List Dirent)
unfolding the_children with_lock read_children
read_dir_all now d = dir_op d (read_children now d)
