-- ===== src/Fs/Progress/Lock.antt =====
-- Sequences of calls of the handlers of fluid/node.go, fluid/dir.go and fluid/file.go: none waits for
-- the lock for ever. What is left out is `File.Setattr` with a size beyond the capacity of the slice.
use fluidfs.Prelude.{
  ℕ, ◌≤◌, ◌≡◌, refl, Bool, true, false, String, some, length, inl, inr, arith, Bool-cases, le→leb,
  subst, sym, drop,
}
use fluidfs.Prelude.Slices.{segment}
use fluidfs.Fs.{
  Slice, backing, reslice, FileSystem, File, file, ok, edit, init, alloc, node_init, dir_init,
}
use fluidfs.Fs.NodeOps as Nodes
use fluidfs.Fs.NodeOps.{
  SetattrRequest, GetxattrRequest, getxattr, listxattr, setxattr, removexattr, the_node,
  xattr_reply,
}
use fluidfs.Fs.FileOps.{
  ReadRequest, WriteRequest, read, read_file, write, write_file, flush, flush_file, fsync, the_file,
  truncate, with_size, put_file, setattr, setattr_file, then_setattr,
}
use fluidfs.Fs.DirOps.{
  CreateRequest, create, create_in, mkdir, mkdir_in, remove, remove_child, rename, rename_child,
  lookup_entry, lookup_child, read_dir_all, read_children,
}
use fluidfs.Fs.Progress.{
  is_blocked, dir_op-Returns, writable-dir_op-Returns, file_op-Returns, writable-file_op-Returns,
  node_setattr-Returns, setxattr-Returns, removexattr-Returns, unless_readonly_returns,
  remove_child-NeverWaits, rename_child-NeverWaits, lookup_child-NeverWaits,
  read_children-NeverWaits, read_file-NeverWaits, write_file-NeverWaits, flush_file-NeverWaits,
}

module _ {Q : Type 0} (draw : Q → ℕ × Q) (max_alloc : ℕ) where
  -- A call from a state, with whether it waits for ever and the state after it. The state after
  -- `File.Setattr` with a size needs the file to be there and the size to be within its capacity.
  pub data Call : FileSystem Q → Bool → FileSystem Q → Type 0 where
    created :
        (now : ℕ → ℕ) (d : ℕ) (req : CreateRequest) (fs : FileSystem Q)
        → Call fs (is_blocked (create draw now d req fs).0) (create draw now d req fs).1
    made :
        (now : ℕ → ℕ) (d : ℕ) (req : CreateRequest) (fs : FileSystem Q)
        → Call fs (is_blocked (mkdir draw now d req fs).0) (mkdir draw now d req fs).1
    removed :
        (now : ℕ → ℕ) (d : ℕ) (name : String) (fs : FileSystem Q)
        → Call fs (is_blocked (remove now d name fs).0) (remove now d name fs).1
    renamed :
        (now : ℕ → ℕ) (d : ℕ) (old new : String) (dst : ℕ) (fs : FileSystem Q)
        → Call fs (is_blocked (rename now d old new dst fs).0) (rename now d old new dst fs).1
    looked_up :
        (now : ℕ → ℕ) (d : ℕ) (name : String) (fs : FileSystem Q)
        → Call fs (is_blocked (lookup_entry now d name fs).0) (lookup_entry now d name fs).1
    listed :
        (now : ℕ → ℕ) (d : ℕ) (fs : FileSystem Q)
        → Call fs (is_blocked (read_dir_all now d fs).0) (read_dir_all now d fs).1
    data_read :
        (now : ℕ → ℕ) (a : ℕ) (req : ReadRequest) (fs : FileSystem Q)
        → Call fs (is_blocked (read now a req fs).0) (read now a req fs).1
    data_written :
        (a : ℕ) (req : WriteRequest) (fs : FileSystem Q)
        → Call fs (is_blocked (write max_alloc a req fs).0) (write max_alloc a req fs).1
    flushed :
        (now : ℕ → ℕ) (a : ℕ) (fs : FileSystem Q)
        → Call fs (is_blocked (flush now a fs).0) (flush now a fs).1
    synced : (a : ℕ) (fs : FileSystem Q) → Call fs (is_blocked (fsync a fs).0) (fsync a fs).1
    node_changed :
        (now : ℕ → ℕ) (a : ℕ) (req : SetattrRequest) (fs : FileSystem Q)
        → Call fs (is_blocked (Nodes.setattr now a req fs).0) (Nodes.setattr now a req fs).1
    file_changed :
        (now : ℕ → ℕ) (a : ℕ) (req : SetattrRequest) (fs : FileSystem Q)
        → req.valid_size ≡ false
        → Call fs (is_blocked (setattr now a req fs).0) (setattr now a req fs).1
    file_resized :
        (now : ℕ → ℕ) (a : ℕ) (f : File) (req : SetattrRequest) (fs : FileSystem Q)
        → fs.heap a ≡ some (file f)
        → req.size ≤ length (backing f.contents)
        → Call fs (is_blocked (setattr now a req fs).0) (setattr now a req fs).1
    xattr_set :
        (a : ℕ) (name : String) (place : ℕ) (fs : FileSystem Q)
        → Call fs (is_blocked (setxattr a name place fs).0) (setxattr a name place fs).1
    xattr_removed :
        (a : ℕ) (name : String) (fs : FileSystem Q)
        → Call fs (is_blocked (removexattr a name fs).0) (removexattr a name fs).1
    -- No call: the FUSE library uses its buffers again.
    buffers_reused :
        (later : ℕ → Slice) (fs : FileSystem Q) → Call fs false (record fs { buffers = later })

  -- A sequence of calls.
  pub data Calls (from : FileSystem Q) : FileSystem Q → Type 0 where
    start : Calls from from
    after :
        (fs fs' : FileSystem Q) (waits : Bool) → Calls from fs → Call fs waits fs' → Calls from fs'

  in_place :
      (size : ℕ) (s : Slice)
      → size ≤ length (backing s)
      → (part : Slice) × (reslice 0 size s ≡ some part)
  unfolding reslice
  in_place size s small = (
    record { visible = segment 0 size (backing s); spare = drop size (backing s) },
    rw (reslice, le→leb 0 size (omega arith), le→leb size (length (backing s)) small) refl,
  )

  truncate-free :
      (a : ℕ) (f : File) (size : ℕ) (fs : FileSystem Q)
      → fs.heap a ≡ some (file f)
      → size ≤ length (backing f.contents)
      → fs.locked ≡ false
      → (fs' : FileSystem Q) × (truncate a size fs ≡ (ok tt, fs')) × (fs'.locked ≡ false)
  unfolding truncate the_file edit
  truncate-free a f size fs there small free =
      let (part, cut) = in_place size f.contents small in
      let held = record fs { locked = true } in
      (
        record (put_file a (record (with_size size f) { contents = part }) held) { locked = false },
        rw (truncate, free, the_file, there, cut) refl,
        refl,
      )

  file_setattr-Returns :
      (now : ℕ → ℕ) (a : ℕ) (req : SetattrRequest) (fs fs' : FileSystem Q)
      → fs.locked ≡ false
      → fs'.locked ≡ false
      → setattr_file now a req fs ≡ Nodes.setattr now a req fs'
      → (is_blocked (setattr now a req fs).0 ≡ false) × ((setattr now a req fs).1.locked ≡ false)
  unfolding setattr
  file_setattr-Returns now a req fs fs' free free' e =
      unless_readonly_returns (setattr_file now a req) fs free (
        subst (λ r. (is_blocked r.0 ≡ false) × (r.1.locked ≡ false)) (sym e)
          (node_setattr-Returns now a req fs' free'))

  Call-Returns :
      (fs fs' : FileSystem Q) (waits : Bool)
      → Call fs waits fs'
      → fs.locked ≡ false
      → (waits ≡ false) × (fs'.locked ≡ false)
  unfolding setattr_file then_setattr create mkdir remove rename lookup_entry read_dir_all read
      write flush fsync
  Call-Returns fs fs' waits (created now d req _) free =
      dir_op-Returns d (create_in draw now d req) (λ c s. refl) fs free
  Call-Returns fs fs' waits (made now d req _) free =
      writable-dir_op-Returns d (mkdir_in draw now d req) (λ c s. refl) fs free
  Call-Returns fs fs' waits (removed now d name _) free =
      writable-dir_op-Returns d (remove_child now d name) (remove_child-NeverWaits now d name) fs
        free
  Call-Returns fs fs' waits (renamed now d old new dst _) free =
      writable-dir_op-Returns d (rename_child now d old new dst)
        (rename_child-NeverWaits now d old new dst) fs free
  Call-Returns fs fs' waits (looked_up now d name _) free =
      dir_op-Returns d (lookup_child now d name) (lookup_child-NeverWaits now d name) fs free
  Call-Returns fs fs' waits (listed now d _) free =
      dir_op-Returns d (read_children now d) (read_children-NeverWaits now d) fs free
  Call-Returns fs fs' waits (data_read now a req _) free =
      file_op-Returns a (read_file now a req) (read_file-NeverWaits now a req) fs free
  Call-Returns fs fs' waits (data_written a req _) free =
      writable-file_op-Returns a (write_file max_alloc a req)
        (write_file-NeverWaits max_alloc a req) fs free
  Call-Returns fs fs' waits (flushed now a _) free =
      writable-file_op-Returns a (flush_file now a) (flush_file-NeverWaits now a) fs free
  Call-Returns fs fs' waits (synced a _) free =
      file_op-Returns a (λ f s. (ok tt, s)) (λ f s. refl) fs free
  Call-Returns fs fs' waits (node_changed now a req _) free = node_setattr-Returns now a req fs free
  Call-Returns fs fs' waits (file_changed now a req _ no_size) free =
      file_setattr-Returns now a req fs fs free free (rw (setattr_file, no_size) refl)
  Call-Returns fs fs' waits (file_resized now a f req _ there small) free =
      elim (Bool-cases req.valid_size) [
        | inr no_size ↦
            file_setattr-Returns now a req fs fs free free (rw (setattr_file, no_size) refl)
        | inl size ↦
            let (s, cut, free') = truncate-free a f req.size fs there small free in
            file_setattr-Returns now a req fs s free free' (rw (setattr_file, size, cut) refl)
      ]
  Call-Returns fs fs' waits (xattr_set a name value _) free = setxattr-Returns a name value fs free
  Call-Returns fs fs' waits (xattr_removed a name _) free = removexattr-Returns a name fs free
  Call-Returns fs fs' waits (buffers_reused later _) free = (refl, free)

  Calls-free : (from fs : FileSystem Q) → from.locked ≡ false → Calls from fs → fs.locked ≡ false
  Calls-free from fs free start = free
  Calls-free from fs free (after fs' _ waits calls call) =
      (Call-Returns fs' fs waits call (Calls-free from fs' free calls)).1

  -- From a new mount, every sequence of calls of the handlers that take the lock, with the FUSE library
  -- using its buffers again in between, leaves the lock free, whatever the requests and also where the
  -- calls fail or panic, and no call waits for the lock for ever, the next one included. Of `File.Setattr`, only the calls that change no size or set
  -- one within the capacity of the file's slice are among them.
  pub handlers_never_wait :
      (sequence : Q) (now uid gid : ℕ) (fs fs' : FileSystem Q) (waits : Bool)
      → Calls (init draw sequence now uid gid) fs
      → Call fs waits fs'
      → (fs.locked ≡ false) × (waits ≡ false) × (fs'.locked ≡ false)
  unfolding init node_init dir_init alloc
  handlers_never_wait sequence now uid gid fs fs' waits calls call =
      let free = Calls-free (init draw sequence now uid gid) fs refl calls in
      let (ends, free') = Call-Returns fs fs' waits call free in (free, ends, free')
