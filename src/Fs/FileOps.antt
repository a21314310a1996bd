-- ===== src/Fs/FileOps.antt =====
-- The handlers of fluid/file.go, on the file at the address `a`. Sizes and offsets are `uint64`s: an
-- offset of the request is an `int64` there, and `uint64(offset)` here.
pub mod Data
use fluidfs.Prelude.{
  ℕ, ◌+◌, ◌-◌, ◌%◌, ◌≤◌, Bool, true, false, not, List, [], ◌++◌, Option, none, some, ltb, leb,
  if◌then◌else◌, length, take, drop, replicate,
}
use fluidfs.Prelude.Slices.{Bytes, segment}
use fluidfs.Prelude.Int.{u64_mod, add_u64, sub_u64}
use fluidfs.Utils.{blocks}
use fluidfs.Fs.{
  Slice, backing, reslice, Attr, Node, File, Entity, dir, file, FileSystem, Outcome, ok, err, eperm,
  panicked, blocked, Op, with_lock, unless_readonly, edit,
}
use fluidfs.Fs.NodeOps
use fluidfs.Fs.NodeOps.{SetattrRequest}

-- The file behind a pointer; a nil pointer panics.
unfoldable pub the_file : {Q A : Type 0} → ℕ → (File → Op Q A) → Op Q A
the_file a body fs = elim (fs.heap a) [ some (file f) ↦ body f fs | _ ↦ (panicked, fs) ]

abbrev pub put_file : {Q : Type 0} → ℕ → File → FileSystem Q → FileSystem Q
put_file a f = edit a (λ e. file f)

abbrev pub with_size : ℕ → File → File
with_size size f = record f {
  node = record f.node { attrs = record f.node.attrs { size = size; blocks = blocks size } };
}

abbrev pub with_times : ℕ → ℕ → File → File
with_times atime mtime f = record f {
  node = record f.node { attrs = record f.node.attrs { atime = atime; mtime = mtime } };
}

-- The change of the size in `File.Setattr`. The lock is not released by a `defer`: where the slice
-- panics, the size is set and the lock is still held.
unfoldable pub truncate : {Q : Type 0} → ℕ → ℕ → Op Q (Unit {0})
unfolding the_file edit
truncate a size fs =
    let result =
      the_file a
        (λ f fs'. elim (reslice 0 size f.contents) [
          | none ↦ (panicked, put_file a (with_size size f) fs')
          | some contents ↦ (
            ok tt,
            record (put_file a (record (with_size size f) { contents = contents }) fs') {
              locked = false;
            },
          )
        ])
        (record fs { locked = true }) in
    if fs.locked then (blocked, fs) else result

-- What `File.Setattr` does after the change of the size: `Node.Setattr` takes the lock again.
unfoldable pub then_setattr :
    {Q : Type 0}
    → (ℕ → ℕ)
    → ℕ
    → SetattrRequest
    → Outcome (Unit {0}) × FileSystem Q
    → Outcome Attr × FileSystem Q
then_setattr now a req (ok done, fs) = NodeOps.setattr now a req fs
then_setattr now a req (err e, fs) = (err e, fs)
then_setattr now a req (panicked, fs) = (panicked, fs)
then_setattr now a req (blocked, fs) = (blocked, fs)

unfoldable pub setattr_file : {Q : Type 0} → (ℕ → ℕ) → ℕ → SetattrRequest → Op Q Attr
unfolding then_setattr
setattr_file now a req fs =
    then_setattr now a req (if req.valid_size then truncate a req.size fs else (ok tt, fs))

unfoldable pub setattr : {Q : Type 0} → (ℕ → ℕ) → ℕ → SetattrRequest → Op Q Attr
unfolding setattr_file unless_readonly
setattr now a req = unless_readonly (setattr_file now a req)

unfoldable pub fsync : {Q : Type 0} → ℕ → Op Q (Unit {0})
unfolding the_file with_lock
fsync a = with_lock (the_file a (λ f fs. (ok tt, fs)))

-- A locked call on the file at an address.
abbrev pub file_op : {Q A : Type 0} → ℕ → (File → Op Q A) → Op Q A
file_op a body = with_lock (the_file a body)

unfoldable pub flush_file : {Q : Type 0} → (ℕ → ℕ) → ℕ → File → Op Q (Unit {0})
unfolding edit
flush_file now a f fs =
    if not f.dirty
    then (ok tt, fs)
    else (ok tt, put_file a (record (with_times (now 0) (now 0) f) { dirty = false }) fs)

unfoldable pub flush : {Q : Type 0} → (ℕ → ℕ) → ℕ → Op Q (Unit {0})
unfolding the_file with_lock unless_readonly flush_file
flush now a = unless_readonly (file_op a (flush_file now a))

pub record ReadRequest : Type 0 where
  pub offset : ℕ
  pub size : ℕ

-- The end of what is read.
unfoldable pub read_end : ReadRequest → File → ℕ
read_end req f =
    let to = add_u64 req.offset req.size in
    if ltb f.node.attrs.size to then f.node.attrs.size else to

-- The access time is set before the slice may panic.
unfoldable pub read_file : {Q : Type 0} → (ℕ → ℕ) → ℕ → ReadRequest → File → Op Q Bytes
unfolding edit read_end
read_file now a req f fs =
    let touched = put_file a (with_times (now 0) f.node.attrs.mtime f) fs in
    elim (reslice req.offset (read_end req f) f.contents) [
      | none ↦ (panicked, touched)
      | some part ↦ (ok part.visible, touched)
    ]

unfoldable pub read : {Q : Type 0} → (ℕ → ℕ) → ℕ → ReadRequest → Op Q Bytes
unfolding the_file with_lock read_file
read now a req = file_op a (read_file now a req)

pub record WriteRequest : Type 0 where
  pub offset : ℕ
  pub contents : Bytes

-- `copy(dst[lo:], src)`: as many elements as both have.
unfoldable pub copy_at : ℕ → Bytes → Bytes → Bytes
copy_at lo src dst = take lo dst ++ (take (length dst - lo) src ++ drop (lo + length src) dst)

-- The file after its buffer has grown to `lim` bytes.
unfoldable pub grow : ℕ → ℕ → File → File
unfolding copy_at
grow off lim f =
    let olen = length f.contents.visible in
    let to = if ltb off olen then off else olen in
    let buf = copy_at 0 (take to f.contents.visible) (replicate lim 0) in
    with_size lim (record f { contents = record { visible = buf; spare = [] } })

-- The last part of `Write`: the copy into `f.Data[off:lim]`, which panics as a slice does.
unfoldable pub store : {Q : Type 0} → ℕ → WriteRequest → ℕ → File → Op Q ℕ
unfolding copy_at reslice
store a req lim f fs = elim (reslice req.offset lim f.contents) [
  | none ↦ (panicked, put_file a f fs)
  | some part ↦
      let bytes =
        copy_at req.offset (take (length part.visible) req.contents) (backing f.contents) in
      (
        ok (length req.contents),
        put_file a
            (record f {
              contents = record {
                visible = take (length f.contents.visible) bytes;
                spare = drop (length f.contents.visible) bytes;
              };
              dirty = true;
            })
            fs,
      )
]

-- `max_alloc` is the largest size that `make` can allocate; above it, `make` panics.
unfoldable pub write_file : {Q : Type 0} → ℕ → ℕ → WriteRequest → File → Op Q ℕ
unfolding edit
write_file max_alloc a req f fs =
    let olen = length f.contents.visible in
    let lim = add_u64 req.offset (length req.contents) in
    let grown = record fs { nbytes = add_u64 fs.nbytes (sub_u64 lim olen) } in
    if leb lim olen
    then store a req lim f fs
    else if ltb max_alloc lim
    then (panicked, fs)
    else store a req lim (grow req.offset lim f) grown

unfoldable pub write : {Q : Type 0} → ℕ → ℕ → WriteRequest → Op Q ℕ
unfolding the_file with_lock unless_readonly write_file
write max_alloc a req = unless_readonly (file_op a (write_file max_alloc a req))
