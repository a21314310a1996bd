-- ===== src/Fs/DirOps/Sound.antt =====
-- The handlers of fluid/dir.go preserve the invariant of the heap.
use fluidfs.Prelude.{
  ℕ, ◌≡◌, ◌≢◌, refl, inl, inr, true, false, [], Option, none, some, String, arith, Bool-cases,
  Option-cases,
}
use fluidfs.Prelude.Maps.{Map, lookup, insert, delete}
use fluidfs.Utils.{blocks}
use fluidfs.Fs.{
  Node, Dir, Entity, dir, file, get_node, FileSystem, Outcome, ok, err, panicked, blocked, Op,
  with_dir_bit, is_dir, has_dir_bit, edit, alloc, on_node, on_children, set_atime, set_mtime,
  node_init, file_init, dir_init,
}
use fluidfs.Fs.Heap.{
  LocalOk, ChildOf, Sound, edit-Sound, edit-present, alloc-Sound, alloc-new, on_node-Keeps,
  on_node_parent, on_children_parent, insert-Keeps, delete-Keeps, with_lock-Sound,
  unless_readonly-Sound,
}
use fluidfs.Fs.DirOps.{
  the_children, dir_op, CreateRequest, add_child, create_in, create, mkdir_in, mkdir, removable,
  drop_child, remove_entity, remove_child, remove, is_dir_object, move_entry, rename_child, rename,
  lookup_child, lookup_entry, dirents, read_children, read_dir_all,
}

module _ {Q A : Type 0} (d : ℕ) (body : Map ℕ → Op Q A)
    (h : (x : Dir) (fs : FileSystem Q)
      → fs.heap d ≡ some (dir x)
      → Sound fs
      → Sound (body x.children fs).1) where
  the_children-Sound :
      (fs : FileSystem Q)
      → Sound fs
      → (o : Option Entity) → fs.heap d ≡ o
      → Sound (the_children d body fs).1
  unfolding the_children
  the_children-Sound fs s none e = rw (the_children, e) s
  the_children-Sound fs s (some (dir x)) e = rw (the_children, e) (h x fs e s)
  the_children-Sound fs s (some (file x)) e = rw (the_children, e) s

  -- A body that preserves the invariant under the pointer of a directory makes a handler that does.
  dir_op-Sound : (fs : FileSystem Q) → Sound fs → Sound (dir_op d body fs).1
  dir_op-Sound =
      with_lock-Sound (the_children d body) (λ fs s. the_children-Sound fs s (fs.heap d) refl)

-- A new time of a node.
stamp-Sound :
    {Q : Type 0} (a : ℕ) (f : Node → Node)
    → ((n : Node)
        → (is_dir (f n) ≡ is_dir n)
          × ((f n).attrs.size ≡ n.attrs.size)
          × ((f n).attrs.blocks ≡ n.attrs.blocks)
          × ((f n).parent ≡ n.parent))
    → (fs : FileSystem Q) → Sound fs
    → Sound (edit a (on_node f) fs)
stamp-Sound a f same fs =
    edit-Sound a (on_node f) fs (on_node-Keeps fs.heap f same)
      (λ e at. on_node_parent fs.heap f same e)

add_child-Sound :
    {Q : Type 0} (now : ℕ → ℕ) (d : ℕ) (name : String) (e : Entity) (fs : FileSystem Q)
    → LocalOk e
    → ((k : String) (b : ℕ) → ¬ ChildOf e k b)
    → ((b : ℕ) → (get_node e).parent ≡ some b → fs.heap b ≢ none)
    → Sound fs
    → Sound (add_child now d name e fs)
unfolding add_child
add_child-Sound now d name e fs l none_of up s =
    let present : (alloc e fs).heap fs.free ≢ none = ground (arith, alloc-new e fs) in
    stamp-Sound d (set_mtime (now 2)) (λ n. (refl, refl, refl, refl))
      (edit d (on_children (insert name fs.free)) (alloc e fs))
      (edit-Sound d (on_children (insert name fs.free)) (alloc e fs)
        (insert-Keeps (alloc e fs).heap name fs.free present)
        (λ t at. on_children_parent fs.heap (insert name fs.free) t)
        (alloc-Sound e fs l none_of up s))

has_dir_bit-with_dir_bit : (mode : ℕ) → has_dir_bit (with_dir_bit mode) ≡ true
has_dir_bit-with_dir_bit mode = ground arith

pub no_child : (k : String) (b : ℕ) → lookup k [] ≡ some b → ⊥
unfolding lookup
no_child k b c = ground arith

module _ {Q : Type 0} (draw : Q → ℕ × Q) (now : ℕ → ℕ) (d : ℕ) (req : CreateRequest) where
  -- The directory that a new entity has as its parent is there.
  parent_there :
      (x : Dir) (fs : FileSystem Q)
      → fs.heap d ≡ some (dir x)
      → (b : ℕ) → some d ≡ some b
      → (edit d (on_node (set_atime (now 0))) fs).heap b ≢ none
  parent_there x fs h b same =
      edit-present d (on_node (set_atime (now 0))) fs b (ground (arith, h, same))

  create_in-Sound :
      has_dir_bit req.mode ≡ false
      → (x : Dir) (fs : FileSystem Q) → fs.heap d ≡ some (dir x)
      → Sound fs
      → Sound (create_in draw now d req x.children fs).1
  unfolding create_in node_init file_init blocks
  create_in-Sound plain x fs h s =
      add_child-Sound now d req.name _
        (record (edit d (on_node (set_atime (now 0))) fs) { sequence = (draw fs.sequence).1 })
        (plain, refl, refl) (λ k b c. c) (parent_there x fs h)
        (stamp-Sound d (set_atime (now 0)) (λ n. (refl, refl, refl, refl)) fs s)

  mkdir_in-Sound :
      (x : Dir) (fs : FileSystem Q)
      → fs.heap d ≡ some (dir x)
      → Sound fs
      → Sound (mkdir_in draw now d req x.children fs).1
  unfolding mkdir_in node_init dir_init
  mkdir_in-Sound x fs h s =
      add_child-Sound now d req.name _
        (record (edit d (on_node (set_atime (now 0))) fs) { sequence = (draw fs.sequence).1 })
        (has_dir_bit-with_dir_bit req.mode, tt) no_child (parent_there x fs h)
        (stamp-Sound d (set_atime (now 0)) (λ n. (refl, refl, refl, refl)) fs s)

  -- `Dir.Create` preserves the invariant if the mode of the request has not the bit of directories.
  pub create-Sound :
      has_dir_bit req.mode ≡ false
      → (fs : FileSystem Q) → Sound fs
      → Sound (create draw now d req fs).1
  unfolding create
  create-Sound plain = dir_op-Sound d (create_in draw now d req) (create_in-Sound plain)

  -- `Dir.Mkdir` preserves the invariant.
  pub mkdir-Sound : (fs : FileSystem Q) → Sound fs → Sound (mkdir draw now d req fs).1
  unfolding mkdir
  mkdir-Sound =
      unless_readonly-Sound (dir_op d (mkdir_in draw now d req))
        (dir_op-Sound d (mkdir_in draw now d req) mkdir_in-Sound)

module _ {Q : Type 0} (now : ℕ → ℕ) (d : ℕ) where
  touch-Sound :
      (a : ℕ) (t : ℕ) (fs : FileSystem Q) → Sound fs → Sound (edit a (on_node (set_atime t)) fs)
  touch-Sound a t = stamp-Sound a (set_atime t) (λ n. (refl, refl, refl, refl))

  drop_child-Sound :
      (name : String) (e : Entity) (fs : FileSystem Q)
      → Sound fs
      → Sound (drop_child now d name e fs)
  unfolding drop_child
  drop_child-Sound name e fs s =
      let cleared =
        stamp-Sound d (set_mtime (now 1)) (λ n. (refl, refl, refl, refl))
          (edit d (on_children (delete name)) fs)
          (edit-Sound d (on_children (delete name)) fs (delete-Keeps fs.heap name)
            (λ t at. on_children_parent fs.heap (delete name) t) s) in
      elim (Bool-cases (is_dir (get_node e))) [
        | inl yes_dir ↦ rw (drop_child, yes_dir) cleared
        | inr no_dir ↦ rw (drop_child, no_dir) cleared
      ]

  remove_entity-Sound :
      (name : String) (o : Option Entity) (fs : FileSystem Q)
      → Sound fs
      → Sound (remove_entity now d name o fs).1
  unfolding remove_entity
  remove_entity-Sound name none fs s = s
  remove_entity-Sound name (some e) fs s = go (removable e)
    where
      go :
          (r : Outcome (Unit {0}))
          → Sound
              (elim r as (λ x. Outcome (Unit {0}) × FileSystem Q) [
                | ok done ↦ (ok tt, drop_child now d name e fs)
                | err errno ↦ (err errno, fs)
                | panicked ↦ (panicked, fs)
                | blocked ↦ (panicked, fs)
              ]).1
      go (ok done) = drop_child-Sound name e fs s
      go (err errno) = s
      go panicked = s
      go blocked = s

  remove_child-Sound :
      (name : String) (x : Dir) (fs : FileSystem Q)
      → fs.heap d ≡ some (dir x)
      → Sound fs
      → Sound (remove_child now d name x.children fs).1
  unfolding remove_child
  remove_child-Sound name x fs h s = elim (Option-cases (lookup name x.children)) [
    | inl absent ↦ rw (remove_child, absent) (touch-Sound d (now 0) fs s)
    | inr (a, present) ↦
        rw (remove_child, present)
          (remove_entity-Sound name ((edit d (on_node (set_atime (now 0))) fs).heap a)
            (edit d (on_node (set_atime (now 0))) fs) (touch-Sound d (now 0) fs s))
  ]

  -- `Dir.Remove` preserves the invariant.
  pub remove-Sound : (name : String) (fs : FileSystem Q) → Sound fs → Sound (remove now d name fs).1
  unfolding remove
  remove-Sound name =
      unless_readonly-Sound (dir_op d (remove_child now d name))
        (dir_op-Sound d (remove_child now d name) (remove_child-Sound name))

  move_entry-Sound :
      (dst : ℕ) (old new : String) (a : ℕ) (fs : FileSystem Q)
      → fs.heap a ≢ none
      → Sound fs
      → Sound (move_entry now d dst old new a fs)
  unfolding move_entry
  move_entry-Sound dst old new a fs there s =
      let rename_node : Node → Node = λ n. set_mtime (now 2) (record n { name = new }) in
      let renamed = edit a (on_node rename_node) fs in
      let entered = edit dst (on_children (insert new a)) renamed in
      let stamped = edit dst (on_node (set_mtime (now 3))) entered in
      stamp-Sound d (set_mtime (now 4)) (λ n. (refl, refl, refl, refl))
        (edit dst (on_children (delete old)) stamped)
        (edit-Sound dst (on_children (delete old)) stamped (delete-Keeps stamped.heap old)
          (λ t at. on_children_parent fs.heap (delete old) t)
          (stamp-Sound dst (set_mtime (now 3)) (λ n. (refl, refl, refl, refl)) entered
            (edit-Sound dst (on_children (insert new a)) renamed
              (insert-Keeps renamed.heap new a (edit-present a (on_node rename_node) fs a there))
              (λ t at. on_children_parent fs.heap (insert new a) t)
              (stamp-Sound a rename_node (λ n. (refl, refl, refl, refl)) fs s))))

  rename_child-Sound :
      (old new : String) (dst : ℕ) (x : Dir) (fs : FileSystem Q)
      → fs.heap d ≡ some (dir x)
      → Sound fs
      → Sound (rename_child now d old new dst x.children fs).1
  unfolding rename_child
  rename_child-Sound old new dst x fs h s =
      let touched = touch-Sound d (now 0) fs s in
      let both = touch-Sound dst (now 1) (edit d (on_node (set_atime (now 0))) fs) touched in
      elim (Bool-cases (is_dir_object (fs.heap dst))) [
        | inr other ↦ rw (rename_child, other) touched
        | inl object ↦ elim (Option-cases (lookup old x.children)) [
          | inl absent ↦ rw (rename_child, object, absent) both
          | inr (a, present) ↦
              elim (Option-cases (
                (edit dst (on_node (set_atime (now 1)))
                    (edit d (on_node (set_atime (now 0))) fs)).heap
                  a)) [
                    | inl gone ↦ rw (rename_child, object, present, gone) both
                    | inr (e, there) ↦
                        rw (rename_child, object, present, there)
                          (move_entry-Sound dst old new a
                            (edit dst (on_node (set_atime (now 1)))
                              (edit d (on_node (set_atime (now 0))) fs))
                            (ground arith) both)
                  ]
        ]
      ]

  -- `Dir.Rename` preserves the invariant.
  pub rename-Sound :
      (old new : String) (dst : ℕ) (fs : FileSystem Q)
      → Sound fs
      → Sound (rename now d old new dst fs).1
  unfolding rename
  rename-Sound old new dst =
      unless_readonly-Sound (dir_op d (rename_child now d old new dst))
        (dir_op-Sound d (rename_child now d old new dst) (rename_child-Sound old new dst))

  lookup_child-Sound :
      (name : String) (x : Dir) (fs : FileSystem Q)
      → fs.heap d ≡ some (dir x)
      → Sound fs
      → Sound (lookup_child now d name x.children fs).1
  unfolding lookup_child
  lookup_child-Sound name x fs h s = elim (Option-cases (lookup name x.children)) [
    | inl absent ↦ rw (lookup_child, absent) (touch-Sound d (now 0) fs s)
    | inr (a, present) ↦ rw (lookup_child, present) (touch-Sound d (now 0) fs s)
  ]

  -- `Dir.Lookup` preserves the invariant.
  pub lookup_entry-Sound :
      (name : String) (fs : FileSystem Q) → Sound fs → Sound (lookup_entry now d name fs).1
  unfolding lookup_entry
  lookup_entry-Sound name = dir_op-Sound d (lookup_child now d name) (lookup_child-Sound name)

  read_children-Sound :
      (x : Dir) (fs : FileSystem Q)
      → fs.heap d ≡ some (dir x)
      → Sound fs
      → Sound (read_children now d x.children fs).1
  unfolding read_children
  read_children-Sound x fs h s =
      elim (Option-cases (dirents (edit d (on_node (set_atime (now 0))) fs).heap x.children)) [
        | inl gone ↦ rw (read_children, gone) (touch-Sound d (now 0) fs s)
        | inr (contents, there) ↦ rw (read_children, there) (touch-Sound d (now 0) fs s)
      ]

  -- `Dir.ReadDirAll` preserves the invariant.
  pub read_dir_all-Sound : (fs : FileSystem Q) → Sound fs → Sound (read_dir_all now d fs).1
  unfolding read_dir_all
  read_dir_all-Sound = dir_op-Sound d (read_children now d) read_children-Sound
