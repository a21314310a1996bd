-- ===== src/Fs/Reach.antt =====
-- The states that the handlers of fluid/dir.go and fluid/file.go lead to from a new mount.
use fluidfs.Prelude.{ℕ, ◌+◌, ◌≤◌, ◌<◌, ◌≡◌, refl, false, some, String, arith, length}
use fluidfs.Prelude.Int.{u64_mod}
use fluidfs.Fs.{dir_init, node_init, File, file, FileSystem, has_dir_bit, blank, init}
use fluidfs.Fs.Heap.{Sound, alloc-Sound}
use fluidfs.Fs.FileOps.{ReadRequest, WriteRequest, read, write}
use fluidfs.Fs.FileOps.Data.Write.{write-Sound}
use fluidfs.Fs.FileOps.Data.Read.{read-Sound}
use fluidfs.Fs.DirOps.{CreateRequest, create, mkdir, remove, rename, lookup_entry, read_dir_all}
use fluidfs.Fs.DirOps.Sound.{
  create-Sound, mkdir-Sound, remove-Sound, rename-Sound, lookup_entry-Sound, read_dir_all-Sound,
  no_child,
}

-- One call of a handler, on any object and with any request within the bounds that the kernel keeps: a
-- file is created with the mode of a file, and the range of a read or a write ends below 2 ^ 64.
pub data Step {Q : Type 0} (draw : Q → ℕ × Q) (max_alloc : ℕ)
    : FileSystem Q → FileSystem Q → Type 0 where
  created :
      (now : ℕ → ℕ) (d : ℕ) (req : CreateRequest) (fs : FileSystem Q)
      → has_dir_bit req.mode ≡ false
      → Step draw max_alloc fs (create draw now d req fs).1
  made :
      (now : ℕ → ℕ) (d : ℕ) (req : CreateRequest) (fs : FileSystem Q)
      → Step draw max_alloc fs (mkdir draw now d req fs).1
  removed :
      (now : ℕ → ℕ) (d : ℕ) (name : String) (fs : FileSystem Q)
      → Step draw max_alloc fs (remove now d name fs).1
  renamed :
      (now : ℕ → ℕ) (d : ℕ) (old new : String) (dst : ℕ) (fs : FileSystem Q)
      → Step draw max_alloc fs (rename now d old new dst fs).1
  looked_up :
      (now : ℕ → ℕ) (d : ℕ) (name : String) (fs : FileSystem Q)
      → Step draw max_alloc fs (lookup_entry now d name fs).1
  listed :
      (now : ℕ → ℕ) (d : ℕ) (fs : FileSystem Q) → Step draw max_alloc fs (read_dir_all now d fs).1
  data_read :
      (now : ℕ → ℕ) (a : ℕ) (f : File) (req : ReadRequest) (fs : FileSystem Q)
      → fs.heap a ≡ some (file f)
      → fs.locked ≡ false
      → req.offset + req.size < u64_mod
      → Step draw max_alloc fs (read now a req fs).1
  data_written :
      (a : ℕ) (f : File) (req : WriteRequest) (fs : FileSystem Q)
      → fs.heap a ≡ some (file f)
      → fs.locked ≡ false
      → fs.readonly ≡ false
      → req.offset + length req.contents < u64_mod
      → req.offset + length req.contents ≤ max_alloc
      → Step draw max_alloc fs (write max_alloc a req fs).1

pub data Reach {Q : Type 0} (draw : Q → ℕ × Q) (max_alloc : ℕ) (from : FileSystem Q)
    : FileSystem Q → Type 0 where
  start : Reach draw max_alloc from from
  step :
      (fs fs' : FileSystem Q)
      → Reach draw max_alloc from fs
      → Step draw max_alloc fs fs'
      → Reach draw max_alloc from fs'

module _ {Q : Type 0} (draw : Q → ℕ × Q) (max_alloc : ℕ) where
  step-Sound : (fs fs' : FileSystem Q) → Step draw max_alloc fs fs' → Sound fs → Sound fs'
  step-Sound fs fs' (created now d req _ plain) s = create-Sound draw now d req plain fs s
  step-Sound fs fs' (made now d req _) s = mkdir-Sound draw now d req fs s
  step-Sound fs fs' (removed now d name _) s = remove-Sound now d name fs s
  step-Sound fs fs' (renamed now d old new dst _) s = rename-Sound now d old new dst fs s
  step-Sound fs fs' (looked_up now d name _) s = lookup_entry-Sound now d name fs s
  step-Sound fs fs' (listed now d _) s = read_dir_all-Sound now d fs s
  step-Sound fs fs' (data_read now a f req _ there idle small) s =
      read-Sound now fs a f req there idle (s.entities a (file f) there).1 small
        (s.entities a (file f) there) s
  step-Sound fs fs' (data_written a f req _ there idle writable small allocated) s =
      write-Sound fs a f max_alloc req there idle writable small (s.entities a (file f) there)
        allocated s

  Reach-Sound : (from fs : FileSystem Q) → Sound from → Reach draw max_alloc from fs → Sound fs
  Reach-Sound from fs s start = s
  Reach-Sound from fs s (step fs' _ r st) = step-Sound fs' fs st (Reach-Sound from fs' s r)

  init-Sound : (sequence : Q) (now uid gid : ℕ) → Sound (init draw sequence now uid gid)
  unfolding init node_init dir_init
  init-Sound sequence now uid gid =
      alloc-Sound _ (blank (draw sequence).1 uid gid) (refl, tt) no_child
        (λ b up. absurd (ground (arith, up)))
        (record {
          unused = λ a h. refl;
          entities = λ a e h. absurd (ground arith);
          closed = λ a e k b h c. absurd (ground arith);
          rooted = λ a e b h up. absurd (ground (arith, h));
        })

  -- Every state that calls of `Create`, `Mkdir`, `Remove`, `Rename`, `Lookup`, `ReadDirAll`, `Read` and
  -- `Write` lead to from a new mount, each within the bounds of a step, satisfies the invariant: children
  -- are entities, the mode says which type an entity has, names are distinct, sizes and blocks are those
  -- of the data, and a parent is an entity that is older than its child.
  pub reached-Sound :
      (sequence : Q) (now uid gid : ℕ) (fs : FileSystem Q)
      → Reach draw max_alloc (init draw sequence now uid gid) fs
      → Sound fs
  reached-Sound sequence now uid gid fs r =
      Reach-Sound (init draw sequence now uid gid) fs (init-Sound sequence now uid gid) r
