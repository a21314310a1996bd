-- ===== src/Fs/Progress.antt =====
-- The lock of a file system: the calls of the handlers of fluid/node.go, fluid/dir.go and
-- fluid/file.go end, and leave it free.
pub mod Lock
use fluidfs.Prelude.{
  ℕ, Option, ◌≤◌, ◌≡◌, ◌⊎◌, refl, Bool, true, false, String, some, none, length, inl, inr, ap, sym,
  subst, arith, Bool-cases, Option-cases, List, [],
}
use fluidfs.Prelude.Maps.{Map, lookup, delete}
use fluidfs.Fs.{
  Slice, backing, reslice, get_node, on_node, set_atime, no_xattr, FileSystem, File, file, Dir, dir,
  Entity, Node, Outcome, ok, err, panicked, blocked, Op, with_lock, unless_readonly, init, edit,
}
use fluidfs.Fs.Calls.{writable_call}
use fluidfs.Fs.NodeOps as Nodes
use fluidfs.Fs.NodeOps.{SetattrRequest, GetxattrRequest, the_node, setxattr, removexattr}
use fluidfs.Fs.FileOps.{
  ReadRequest, WriteRequest, read, read_file, write, write_file, store, flush, flush_file, fsync,
  the_file, file_op, truncate, setattr, setattr_file, then_setattr,
}
use fluidfs.Fs.DirOps.{
  CreateRequest, the_children, dir_op, create, create_in, mkdir, mkdir_in, remove, remove_child,
  remove_entity, removable, rename, rename_child, lookup_entry, lookup_child, asserted,
  read_dir_all, read_children, dirents, is_dir_object,
}

abbrev pub is_blocked : {A : Type 0} → Outcome A → Bool
is_blocked (ok a) = false
is_blocked (err e) = false
is_blocked panicked = false
is_blocked blocked = true

-- Code that never waits, whatever the state.
abbrev pub NeverWaits : {Q A : Type 0} → Op Q A → Type 0
NeverWaits {Q = Q} body = (fs : FileSystem Q) → is_blocked (body fs).0 ≡ false

-- A call that ends, and leaves the lock free, when the lock was free.
abbrev pub Returns : {Q A : Type 0} → Op Q A → Type 0
Returns {Q = Q} op =
    (fs : FileSystem Q)
    → fs.locked ≡ false
    → (is_blocked (op fs).0 ≡ false) × ((op fs).1.locked ≡ false)

module _ {Q A : Type 0} where
  pub with_lock-Returns : (body : Op Q A) → NeverWaits body → Returns (with_lock body)
  unfolding with_lock
  with_lock-Returns body h fs free = rw (with_lock, free) (h (record fs { locked = true }), refl)

  pub unless_readonly_returns :
      (op : Op Q A) (fs : FileSystem Q)
      → fs.locked ≡ false
      → (is_blocked (op fs).0 ≡ false) × ((op fs).1.locked ≡ false)
      → (is_blocked (unless_readonly op fs).0 ≡ false) × ((unless_readonly op fs).1.locked ≡ false)
  unfolding unless_readonly
  unless_readonly_returns op fs free h = elim (Bool-cases fs.readonly) [
    | inl readonly ↦ rw (unless_readonly, readonly) (refl, free)
    | inr writable ↦
        subst (λ r. (is_blocked r.0 ≡ false) × (r.1.locked ≡ false))
          (sym (writable_call fs op writable)) h
  ]

  unless_readonly-Returns : (op : Op Q A) → Returns op → Returns (unless_readonly op)
  unless_readonly-Returns op h fs free = unless_readonly_returns op fs free (h fs free)

  pub the_children-NeverWaits :
      (d : ℕ) (body : Map ℕ → Op Q A)
      → ((children : Map ℕ) → NeverWaits (body children))
      → NeverWaits (the_children d body)
  unfolding the_children
  the_children-NeverWaits d body h fs = of_entity (fs.heap d)
    where
      of_entity :
          (e : Option Entity)
          → is_blocked
              (elim e as (λ x. Outcome A × FileSystem Q) [
                | some (dir x) ↦ body x.children fs
                | _ ↦ (panicked, fs)
              ]).0
            ≡ false
      of_entity none = refl
      of_entity (some (dir x)) = h x.children fs
      of_entity (some (file f)) = refl

  pub the_file-NeverWaits :
      (a : ℕ) (body : File → Op Q A)
      → ((f : File) → NeverWaits (body f))
      → NeverWaits (the_file a body)
  unfolding the_file
  the_file-NeverWaits a body h fs = of_entity (fs.heap a)
    where
      of_entity :
          (e : Option Entity)
          → is_blocked
              (elim e as (λ x. Outcome A × FileSystem Q) [
                | some (file f) ↦ body f fs
                | _ ↦ (panicked, fs)
              ]).0
            ≡ false
      of_entity none = refl
      of_entity (some (dir x)) = refl
      of_entity (some (file f)) = h f fs

  pub the_node-NeverWaits :
      (a : ℕ) (body : Node → Op Q A)
      → ((n : Node) → NeverWaits (body n))
      → NeverWaits (the_node a body)
  unfolding the_node
  the_node-NeverWaits a body h fs = of_entity (fs.heap a)
    where
      of_entity :
          (e : Option Entity)
          → is_blocked
              (elim e as (λ x. Outcome A × FileSystem Q) [
                | none ↦ (panicked, fs)
                | some e ↦ body (get_node e) fs
              ]).0
            ≡ false
      of_entity none = refl
      of_entity (some e) = h (get_node e) fs

pub asserted-NeverWaits : (a : ℕ) (e : Option Entity) → is_blocked (asserted a e) ≡ false
unfolding asserted
asserted-NeverWaits a none = refl
asserted-NeverWaits a (some (dir x)) = ground arith
asserted-NeverWaits a (some (file f)) = ground arith

module _ {Q : Type 0} (now : ℕ → ℕ) (d : ℕ) where
  pub remove_entity-NeverWaits :
      (name : String) (e : Option Entity) → NeverWaits {Q = Q} (remove_entity now d name e)
  unfolding remove_entity removable
  remove_entity-NeverWaits name none fs = refl
  remove_entity-NeverWaits name (some (dir x)) fs = ground arith
  remove_entity-NeverWaits name (some (file f)) fs = ground arith

  pub remove_child-NeverWaits :
      (name : String) (children : Map ℕ) → NeverWaits {Q = Q} (remove_child now d name children)
  unfolding remove_child
  remove_child-NeverWaits name children fs = elim (Option-cases (lookup name children)) [
    | inl missing ↦ rw (remove_child, missing) refl
    | inr (a, found) ↦
        let touched = edit d (on_node (set_atime (now 0))) fs in
        rw (remove_child, found) (remove_entity-NeverWaits name (touched.heap a) touched)
  ]

  pub rename_child-NeverWaits :
      (old new : String) (dst : ℕ) (children : Map ℕ)
      → NeverWaits {Q = Q} (rename_child now d old new dst children)
  unfolding rename_child
  rename_child-NeverWaits old new dst children fs = ground arith

  pub lookup_child-NeverWaits :
      (name : String) (children : Map ℕ) → NeverWaits {Q = Q} (lookup_child now d name children)
  unfolding lookup_child
  lookup_child-NeverWaits name children fs = elim (Option-cases (lookup name children)) [
    | inl missing ↦ rw (lookup_child, missing) refl
    | inr (a, found) ↦
        rw (lookup_child, found)
          (asserted-NeverWaits a ((edit d (on_node (set_atime (now 0))) fs).heap a))
  ]

  pub read_children-NeverWaits :
      (children : Map ℕ) → NeverWaits {Q = Q} (read_children now d children)
  unfolding read_children
  read_children-NeverWaits children fs = ground arith

module _ {Q : Type 0} where
  pub read_file-NeverWaits :
      (now : ℕ → ℕ) (a : ℕ) (req : ReadRequest) (f : File)
      → NeverWaits {Q = Q} (read_file now a req f)
  unfolding read_file
  read_file-NeverWaits now a req f fs = ground arith

  pub store-NeverWaits :
      (a : ℕ) (req : WriteRequest) (lim : ℕ) (f : File) → NeverWaits {Q = Q} (store a req lim f)
  unfolding store
  store-NeverWaits a req lim f fs = ground arith

  pub write_file-NeverWaits :
      (max_alloc a : ℕ) (req : WriteRequest) (f : File)
      → NeverWaits {Q = Q} (write_file max_alloc a req f)
  unfolding write_file
  write_file-NeverWaits max_alloc a req f fs = grind (arith, store-NeverWaits)

  pub flush_file-NeverWaits :
      (now : ℕ → ℕ) (a : ℕ) (f : File) → NeverWaits {Q = Q} (flush_file now a f)
  unfolding flush_file
  flush_file-NeverWaits now a f fs = ground arith

  pub node_setattr-Returns :
      (now : ℕ → ℕ) (a : ℕ) (req : SetattrRequest) → Returns {Q = Q} (Nodes.setattr now a req)
  unfolding Nodes.setattr with_lock the_node
  node_setattr-Returns now a req fs free = (ground arith, ground arith)

  pub setxattr-Returns :
      (a : ℕ) (name : String) (value : ℕ) → Returns {Q = Q} (setxattr a name value)
  unfolding setxattr with_lock the_node
  setxattr-Returns a name value fs free = (ground arith, ground arith)

  pub removexattr-Returns : (a : ℕ) (name : String) → Returns {Q = Q} (removexattr a name)
  unfolding removexattr with_lock the_node
  removexattr-Returns a name fs free = (ground arith, ground arith)

module _ {Q A : Type 0} where
  pub dir_op-Returns :
      (d : ℕ) (body : Map ℕ → Op Q A)
      → ((children : Map ℕ) → NeverWaits (body children))
      → Returns (dir_op d body)
  dir_op-Returns d body h =
      with_lock-Returns (the_children d body) (the_children-NeverWaits d body h)

  pub writable-dir_op-Returns :
      (d : ℕ) (body : Map ℕ → Op Q A)
      → ((children : Map ℕ) → NeverWaits (body children))
      → Returns (unless_readonly (dir_op d body))
  writable-dir_op-Returns d body h =
      unless_readonly-Returns (dir_op d body) (dir_op-Returns d body h)

  pub file_op-Returns :
      (a : ℕ) (body : File → Op Q A) → ((f : File) → NeverWaits (body f)) → Returns (file_op a body)
  file_op-Returns a body h = with_lock-Returns (the_file a body) (the_file-NeverWaits a body h)

  pub writable-file_op-Returns :
      (a : ℕ) (body : File → Op Q A)
      → ((f : File) → NeverWaits (body f))
      → Returns (unless_readonly (file_op a body))
  writable-file_op-Returns a body h =
      unless_readonly-Returns (file_op a body) (file_op-Returns a body h)
