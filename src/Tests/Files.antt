-- ===== src/Tests/Files.antt =====
-- A concrete mount for fluid/node.go and fluid/file.go.
use fluidfs.Prelude.{ℕ, ◌≡◌, refl, true, false, [], ◌∷◌, some, none, arith, ◌==◌, if◌then◌else◌}
use fluidfs.Utils.{blocks}
use fluidfs.Prelude.Maps.{insert, lookup}
use fluidfs.Fs.{Slice, edit, File, file, FileSystem, blank, ok, panicked, blocked, with_lock}
use fluidfs.Fs.Heap.{LocalOk}
use fluidfs.Fs.Calls.{held, unlocked}
use fluidfs.Fs.NodeOps.{SetattrRequest, getxattr, setxattr, the_node, xattr_reply}
use fluidfs.Fs.FileOps.{
  WriteRequest, with_size, put_file, with_times, read, write, truncate, setattr,
}
use fluidfs.Fs.FileOps.Data.Write.{IsWritten, write-IsWritten}
use fluidfs.Fs.FileOps.Data.Read.{read-write, read-inside, read-outside}
use fluidfs.Fs.FileOps.Data.Setattr.{setattr-deadlock, truncate-truncate}

abbrev pub four_bytes : File
four_bytes = record {
  node = record {
    id = 2;
    name = "notes";
    attrs = record {
      inode = 2;
      size = 4;
      blocks = 1;
      atime = 0;
      mtime = 0;
      ctime = 0;
      crtime = 0;
      mode = 420;
      nlink = 1;
      uid = 0;
      gid = 0;
      rdev = 0;
      flags = 0;
      block_size = 512;
    };
    xattrs = ("user.tag", 4) ∷ [];
    parent = some 0;
  };
  contents = record { visible = 1 ∷ 2 ∷ 3 ∷ 4 ∷ []; spare = 9 ∷ [] };
  dirty = false;
}

four_bytes-LocalOk : LocalOk (file four_bytes)
unfolding blocks
four_bytes-LocalOk = (refl, refl, refl)

abbrev mounted : FileSystem ℕ
mounted = record (blank 3 0 0) {
  heap = λ a. if 1 == a then some (file four_bytes) else none;
  free = 2;
}

abbrev pub past_end : WriteRequest
past_end = record { offset = 6; contents = 5 ∷ 6 ∷ [] }

write-IsWritten_example : IsWritten 1 four_bytes past_end mounted (write 100 1 past_end mounted)
write-IsWritten_example =
    write-IsWritten mounted 1 four_bytes 100 past_end refl refl refl (omega arith)
      four_bytes-LocalOk (omega arith)

read-write_example :
    (read (λ n. n) 1 (record { offset = 6; size = 2 }) (write 100 1 past_end mounted).1).0
    ≡ ok (5 ∷ 6 ∷ [])
read-write_example =
    read-write mounted 1 four_bytes 100 past_end refl refl refl (omega arith) (omega arith)
      four_bytes-LocalOk (λ n. n)

read-inside_example :
    read (λ n. n) 1 (record { offset = 1; size = 8 }) mounted
    ≡ unlocked (ok (2 ∷ 3 ∷ 4 ∷ []), put_file 1 (with_times 0 0 four_bytes) (held mounted))
read-inside_example =
    read-inside (λ n. n) mounted 1 four_bytes (record { offset = 1; size = 8 }) refl refl refl
      (omega arith) (omega arith)

read-outside_example :
    read (λ n. n) 1 (record { offset = 5; size = 1 }) mounted
    ≡ unlocked (panicked, put_file 1 (with_times 0 0 four_bytes) (held mounted))
read-outside_example =
    read-outside (λ n. n) mounted 1 four_bytes (record { offset = 5; size = 1 }) refl refl refl
      (omega arith) (omega arith)

abbrev pub to_ten : SetattrRequest
to_ten = record {
  valid_size = true;
  valid_atime = false;
  valid_atime_now = false;
  valid_mtime = false;
  valid_mtime_now = false;
  valid_mode = false;
  valid_uid = false;
  valid_gid = false;
  valid_crtime = false;
  valid_flags = false;
  size = 10;
  atime = 0;
  mtime = 0;
  mode = 0;
  uid = 0;
  gid = 0;
  crtime = 0;
  flags = 0;
}

setattr-deadlock_example :
    ((setattr (λ n. n) 1 to_ten mounted).0 ≡ panicked)
    × ((setattr (λ n. n) 1 to_ten mounted).1.heap 1 ≡ some (file (with_size 10 four_bytes)))
    × (with_lock (λ fs. (ok tt, fs)) (setattr (λ n. n) 1 to_ten mounted).1
        ≡ (blocked, (setattr (λ n. n) 1 to_ten mounted).1))
setattr-deadlock_example =
    setattr-deadlock (λ n. n) mounted 1 four_bytes to_ten refl refl refl refl (omega arith)
      (λ fs. (ok tt, fs))

truncate-truncate_example :
    (truncate 1 4 (truncate 1 1 mounted).1).1.heap 1
    ≡ some (
        file (record (with_size 4 four_bytes) {
          contents = record { visible = 1 ∷ 2 ∷ 3 ∷ 4 ∷ []; spare = 9 ∷ [] };
        }))
truncate-truncate_example =
    truncate-truncate mounted 1 four_bytes 1 4 refl refl four_bytes-LocalOk (omega arith)
      (omega arith)

-- A buffer that holds one byte everywhere.
abbrev filled : ℕ → ℕ → Slice
filled byte place = record { visible = byte ∷ []; spare = [] }

abbrev with_request : FileSystem ℕ
with_request = record mounted { buffers = filled 8 }

set_value :
    (getxattr 1 (record { name = "user.new"; size = 0 }) (setxattr 1 "user.new" 5 with_request).1).0
    ≡ ok (filled 8 5)
unfolding getxattr setxattr the_node with_lock edit insert lookup xattr_reply
set_value = refl
