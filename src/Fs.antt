-- ===== src/Fs.antt =====
-- The file system in memory: fluid/fuse.go and what fluid/node.go, fluid/dir.go and fluid/file.go
-- share. Nodes are Go objects behind pointers, so the model has a heap from addresses to entities. A
-- handler is a function on the state of one file system; it takes the readings of the clock that it
-- makes, in order, as `now 0`, `now 1` and so on.
pub mod Heap
pub mod Calls
pub mod Reach
pub mod Progress
pub mod NodeOps
pub mod FileOps
pub mod DirOps
use fluidfs.Prelude.{
  ℕ, ◌+◌, ◌-◌, ◌/◌, ◌%◌, ◌≤◌, Bool, true, false, ◌&&◌, List, [], ◌++◌, Option, none, some, String,
  leb, ◌==◌, if◌then◌else◌, length, drop,
}
use fluidfs.Prelude.Slices.{Bytes, segment}
use fluidfs.Prelude.Maps.{Map}
use fluidfs.Prelude.Int.{u64_mod}

-- A slice: the bytes up to its length, and those behind them up to its capacity.
pub record Slice : Type 0 where
  pub visible : Bytes
  pub spare : Bytes

abbrev pub backing : Slice → Bytes
backing s = s.visible ++ s.spare

-- `s[lo:hi]`; it panics unless `lo ≤ hi ≤ cap(s)`.
unfoldable pub reslice : ℕ → ℕ → Slice → Option Slice
reslice lo hi s =
    if leb lo hi && leb hi (length (backing s))
    then some (record { visible = segment lo hi (backing s); spare = drop hi (backing s) })
    else none

-- `fuse.Attr`. A time is a reading of the clock.
pub record Attr : Type 0 where
  pub inode : ℕ
  pub size : ℕ
  pub blocks : ℕ
  pub atime : ℕ
  pub mtime : ℕ
  pub ctime : ℕ
  pub crtime : ℕ
  pub mode : ℕ
  pub nlink : ℕ
  pub uid : ℕ
  pub gid : ℕ
  pub rdev : ℕ
  pub flags : ℕ
  pub block_size : ℕ

-- The parent is the address of a directory. The value of an extended attribute is the slice of the
-- request that set it, by its place in the FUSE library's buffers. The file system that a node points to is the one whose
-- state a handler takes.
pub record Node : Type 0 where
  pub id : ℕ
  pub name : String
  pub attrs : Attr
  pub xattrs : Map ℕ
  pub parent : Option ℕ

-- The children are addresses.
pub record Dir : Type 0 where
  pub node : Node
  pub children : Map ℕ

pub record File : Type 0 where
  pub node : Node
  pub contents : Slice
  pub dirty : Bool

-- The types that implement the interface `Entity`.
pub data Entity : Type 0 where
  dir : Dir → Entity
  file : File → Entity

abbrev pub get_node : Entity → Node
get_node (dir d) = d.node
get_node (file f) = f.node

-- The state: `Q` is that of the inode sequence, of a package that is not in the repository.
pub record FileSystem (Q : Type 0) : Type 0 where
  pub locked : Bool
  pub sequence : Q
  pub heap : ℕ → Option Entity
  pub free : ℕ
  pub root : ℕ
  pub mount_uid : ℕ
  pub mount_gid : ℕ
  pub nfiles : ℕ
  pub ndirs : ℕ
  pub nbytes : ℕ
  -- The slices that requests of extended attributes carry, which the FUSE library owns and fills anew.
  pub buffers : ℕ → Slice
  -- No code of the repository sets it: it stays false, as `blank` has it, under the option `readonly` too.
  pub readonly : Bool

pub data Errno : Type 0 where
  eperm eexist eio enoent no_xattr : Errno

-- What a call does: it returns, with an error or not, it panics, or it waits for the lock for ever.
pub data Outcome (A : Type 0) : Type 0 where
  ok : A → Outcome A
  err : Errno → Outcome A
  panicked : Outcome A
  blocked : Outcome A

abbrev pub Op : Type 0 → Type 0 → Type 0
Op Q A = FileSystem Q → Outcome A × FileSystem Q

-- `fs.Lock(); defer fs.Unlock()` and the code that follows, which runs with no other in between. The
-- lock is released however that code ends.
unfoldable pub with_lock : {Q A : Type 0} → Op Q A → Op Q A
with_lock body fs =
    let (outcome, fs') = body (record fs { locked = true }) in
    if fs.locked then (blocked, fs) else (outcome, record fs' { locked = false })

-- `d.IsArchive() || d.fs.readonly`, where no node is an archive.
unfoldable pub unless_readonly : {Q A : Type 0} → Op Q A → Op Q A
unless_readonly body fs = if fs.readonly then (err eperm, fs) else body fs

-- `os.ModeDir`, its test and its union with a mode, by the bit.
abbrev pub mode_dir : ℕ
mode_dir = 2147483648

abbrev pub has_dir_bit : ℕ → Bool
has_dir_bit mode = mode / mode_dir % 2 == 1

abbrev pub with_dir_bit : ℕ → ℕ
with_dir_bit mode = if has_dir_bit mode then mode else mode + mode_dir

abbrev pub is_dir : Node → Bool
is_dir n = has_dir_bit n.attrs.mode

-- Changes of what stands at an address; where nothing stands, nothing changes.
unfoldable pub edit : {Q : Type 0} → ℕ → (Entity → Entity) → FileSystem Q → FileSystem Q
edit a f fs = record fs {
  heap = λ b. if a == b then elim (fs.heap b) [ none ↦ none | some e ↦ some (f e) ] else fs.heap b;
}

-- A new object.
unfoldable pub alloc : {Q : Type 0} → Entity → FileSystem Q → FileSystem Q
alloc e fs = record fs {
  heap = λ b. if fs.free == b then some e else fs.heap b;
  free = fs.free + 1;
}

abbrev pub on_node : (Node → Node) → Entity → Entity
on_node f (dir d) = dir (record d { node = f d.node })
on_node f (file x) = file (record x { node = f x.node })

abbrev pub on_children : (Map ℕ → Map ℕ) → Entity → Entity
on_children f (dir d) = dir (record d { children = f d.children })
on_children f (file x) = file x

abbrev pub set_atime : ℕ → Node → Node
set_atime t n = record n { attrs = record n.attrs { atime = t } }

abbrev pub set_mtime : ℕ → Node → Node
set_mtime t n = record n { attrs = record n.attrs { mtime = t } }

abbrev pub set_owner : ℕ → ℕ → Node → Node
set_owner uid gid n = record n { attrs = record n.attrs { uid = uid; gid = gid } }

-- `Node.Init`: the node, and the state after the sequence was drawn from.
unfoldable pub node_init :
    {Q : Type 0} → (Q → ℕ × Q) → ℕ → String → ℕ → Option ℕ → FileSystem Q → Node × FileSystem Q
node_init draw now name mode parent fs =
    let (id, sequence) = draw fs.sequence in
    (
      record {
        id = id;
        name = name;
        attrs = record {
          inode = id;
          size = 0;
          blocks = 0;
          atime = now;
          mtime = now;
          ctime = now;
          crtime = now;
          mode = mode;
          nlink = 1;
          uid = fs.mount_uid;
          gid = fs.mount_gid;
          rdev = 0;
          flags = 0;
          block_size = 512;
        };
        xattrs = [];
        parent = parent;
      },
      record fs { sequence = sequence },
    )

-- `File.Init` and `Dir.Init`.
unfoldable pub file_init : Node → File
file_init n = record { node = n; contents = record { visible = []; spare = [] }; dirty = false }

unfoldable pub dir_init : Node → Dir
dir_init n = record { node = n; children = [] }

-- The state of a mount point before anything is in it.
abbrev pub blank : {Q : Type 0} → Q → ℕ → ℕ → FileSystem Q
blank sequence uid gid = record {
  locked = false;
  sequence = sequence;
  heap = λ b. none;
  free = 0;
  root = 0;
  mount_uid = uid;
  mount_gid = gid;
  nfiles = 0;
  ndirs = 0;
  nbytes = 0;
  buffers = λ place. record { visible = []; spare = [] };
  readonly = false;
}

-- `FileSystem.Init` for a mount point, with a new sequence.
unfoldable pub init : {Q : Type 0} → (Q → ℕ × Q) → Q → ℕ → ℕ → ℕ → FileSystem Q
unfolding node_init alloc dir_init
init draw sequence now uid gid =
    let (n, fs) = node_init draw now "/" (with_dir_bit 493) none (blank sequence uid gid) in
    alloc (dir (dir_init n)) fs
