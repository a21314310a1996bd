-- ===== src/Fs/DirOps/Entries/Change.antt =====
-- `Dir.Remove` and `Dir.Rename` of fluid/dir.go on the entries.
use fluidfs.Prelude.{
  ℕ, ◌≡◌, ◌≢◌, refl, sym, ap, ◌∙◌, inl, inr, true, false, Option, none, some, String, arith,
  Bool-cases, Option-cases, ◌==◌, ==_iff, if◌then◌else◌,
}
use fluidfs.Prelude.Maps.{Map, lookup, insert, delete}
use fluidfs.Fs.{
  Node, Entity, dir, file, get_node, FileSystem, ok, is_dir, edit, on_node, on_children, set_atime,
  set_mtime,
}
use fluidfs.Fs.Heap.{edit-present}
use fluidfs.Fs.Calls.{held, unlocked, writable_call, edit-other}
use fluidfs.Fs.DirOps.{
  dir_op, removable, remove_entity, remove_child, drop_child, remove, is_dir_object, move_entry,
  rename_child, rename,
}
use fluidfs.Fs.DirOps.Entries.{
  children_of, children_at, map_children, children_at-on_node, children_at-edit, entries_call,
}

module _ {Q : Type 0} (now : ℕ → ℕ) (d : ℕ) (fs : FileSystem Q) where
  move_entry-entries :
      (dst : ℕ) (old new : String) (a b : ℕ)
      → children_at (move_entry now d dst old new a fs) b ≡ (
          if dst == b
          then map_children (delete old) (map_children (insert new a) (children_at fs b))
          else children_at fs b)
  unfolding move_entry
  move_entry-entries dst old new a b =
      let rename_node : Node → Node = λ n. set_mtime (now 2) (record n { name = new }) in
      let renamed = edit a (on_node rename_node) fs in
      let entered = edit dst (on_children (insert new a)) renamed in
      let stamped = edit dst (on_node (set_mtime (now 3))) entered in
      children_at-on_node d (edit dst (on_children (delete old)) stamped) b (set_mtime (now 4))
      ∙ children_at-edit dst stamped b (delete old)
      ∙ rw
          (
            children_at-on_node dst entered b (set_mtime (now 3)),
            children_at-edit dst renamed b (insert new a),
            children_at-on_node a fs b rename_node,
          )
          (ground arith)

  drop_child-entries :
      (name : String) (e : Entity) (b : ℕ)
      → children_at (drop_child now d name e fs) b
        ≡ (if d == b then map_children (delete name) (children_at fs b) else children_at fs b)
  unfolding drop_child
  drop_child-entries name e b =
      let dropped = edit d (on_children (delete name)) fs in
      let cleared =
        children_at-on_node d dropped b (set_mtime (now 1))
        ∙ children_at-edit d fs b (delete name) in
      elim (Bool-cases (is_dir (get_node e))) [
        | inl yes_dir ↦ rw (drop_child, yes_dir) cleared
        | inr no_dir ↦ rw (drop_child, no_dir) cleared
      ]

is_dir_object-children :
    (o : Option Entity) (m : Map ℕ) → children_of o ≡ some m → is_dir_object o ≡ true
unfolding is_dir_object
is_dir_object-children none m h = ground arith
is_dir_object-children (some (dir x)) m h = refl
is_dir_object-children (some (file x)) m h = ground arith

module _ {Q : Type 0} (now : ℕ → ℕ) (d : ℕ) (fs : FileSystem Q) (m : Map ℕ)
    (idle : fs.locked ≡ false) (writable : fs.readonly ≡ false)
    (entries : children_at fs d ≡ some m) (a : ℕ) where
  rename-moves :
      (old new : String) (dst : ℕ) (m' : Map ℕ)
      → children_at fs dst ≡ some m'
      → lookup old m ≡ some a
      → fs.heap a ≢ none
      → rename now d old new dst fs
        ≡ unlocked (
          ok tt,
          move_entry now d dst old new a (
              edit dst
                (on_node (set_atime (now 1)))
                (edit d (on_node (set_atime (now 0))) (held fs))),
        )
  unfolding rename rename_child
  rename-moves old new dst m' target found there =
      let touched = edit d (on_node (set_atime (now 0))) (held fs) in
      let both = edit dst (on_node (set_atime (now 1))) touched in
      elim (Option-cases (both.heap a)) [
        | inl gone ↦ absurd (
            edit-present dst (on_node (set_atime (now 1))) touched a
              (edit-present d (on_node (set_atime (now 0))) (held fs) a there) gone)
        | inr (e, stands) ↦
            writable_call fs (dir_op d (rename_child now d old new dst)) writable
            ∙ entries_call fs d m (rename_child now d old new dst)
                (ok tt, move_entry now d dst old new a both) idle entries
                (rw (rename_child, is_dir_object-children (fs.heap dst) m' target, found, stands)
                  refl)
      ]

  -- A rename of an existing entry into an existing directory, on a writable mount and under a free lock,
  -- succeeds; in the target directory the new name is set and then the old name deleted, and every
  -- other directory keeps its entries: so the source does, if it is not the target.
  pub rename-entries :
      (old new : String) (dst : ℕ) (m' : Map ℕ)
      → children_at fs dst ≡ some m'
      → lookup old m ≡ some a
      → fs.heap a ≢ none
      → (b : ℕ)
      → ((rename now d old new dst fs).0 ≡ ok tt)
        × (children_at (rename now d old new dst fs).1 b
            ≡ (if dst == b then some (delete old (insert new a m')) else children_at fs b))
  rename-entries old new dst m' target found there b =
      let touched = edit d (on_node (set_atime (now 0))) (held fs) in
      rw (rename-moves old new dst m' target found there) (
        refl,
        move_entry-entries now d (edit dst (on_node (set_atime (now 1))) touched) dst old new a b
            ∙ rw
                (
                  children_at-on_node dst touched b (set_atime (now 1)),
                  children_at-on_node d (held fs) b (set_atime (now 0)),
                )
                (elim (Bool-cases (dst == b)) [
                  | inl same ↦ rw same (
                      ap (λ o. map_children (delete old) (map_children (insert new a) o))
                        (ap (children_at fs) (sym ((==_iff dst b).0 same)) ∙ target))
                  | inr other ↦ rw other refl
                ]),
      )

  remove-drops :
      (name : String) (e : Entity)
      → lookup name m ≡ some a
      → (edit d (on_node (set_atime (now 0))) (held fs)).heap a ≡ some e
      → removable e ≡ ok tt
      → remove now d name fs
        ≡ unlocked (ok tt, drop_child now d name e (edit d (on_node (set_atime (now 0))) (held fs)))
  unfolding remove remove_child remove_entity
  remove-drops name e found there free =
      writable_call fs (dir_op d (remove_child now d name)) writable
      ∙ entries_call fs d m (remove_child now d name)
          (ok tt, drop_child now d name e (edit d (on_node (set_atime (now 0))) (held fs))) idle
          entries (rw (remove_child, found, there, remove_entity, free) refl)

  touched-removable :
      (t : ℕ) (e : Entity)
      → fs.heap a ≡ some e
      → (e' : Entity) × ((edit d (on_node (set_atime t)) (held fs)).heap a ≡ some e')
        × (removable e' ≡ removable e)
  unfolding edit removable
  touched-removable t e h = elim (Bool-cases (d == a)) [
    | inl same ↦ (on_node (set_atime t) e, edit-at same, removable-on_node e)
    | inr other ↦ (e, edit-other (held fs) d (on_node (set_atime t)) a other ∙ h, refl)
  ]
    where
      edit-at :
          (d == a) ≡ true
          → (edit d (on_node (set_atime t)) (held fs)).heap a ≡ some (on_node (set_atime t) e)
      edit-at same = rw (edit, same, h) refl

      removable-on_node : (e : Entity) → removable (on_node (set_atime t) e) ≡ removable e
      removable-on_node (dir x) = refl
      removable-on_node (file x) = refl

  -- A removal of an entry whose entity is a file or an empty directory, on a writable mount and under a
  -- free lock, succeeds; the entry is deleted, and every other directory keeps its entries.
  pub remove-entries :
      (name : String) (e : Entity)
      → lookup name m ≡ some a
      → fs.heap a ≡ some e
      → removable e ≡ ok tt
      → (b : ℕ)
      → ((remove now d name fs).0 ≡ ok tt)
        × (children_at (remove now d name fs).1 b
            ≡ (if d == b then some (delete name m) else children_at fs b))
  remove-entries name e found there free b =
      let touched = edit d (on_node (set_atime (now 0))) (held fs) in
      let (e', stands, same_test) = touched-removable (now 0) e there in
      rw (remove-drops name e' found stands (same_test ∙ free)) (
        refl,
        drop_child-entries now d touched name e' b
            ∙ rw (children_at-on_node d (held fs) b (set_atime (now 0)))
                (elim (Bool-cases (d == b)) [
                  | inl same ↦ rw same (
                      ap (map_children (delete name))
                        (ap (children_at fs) (sym ((==_iff d b).0 same)) ∙ entries))
                  | inr other ↦ rw other refl
                ]),
      )
