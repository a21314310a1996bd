-- ===== src/Fs/FileOps/Data/Write.antt =====
-- `File.Write` and `File.Read` of fluid/file.go.
use fluidfs.Prelude.{
  if◌then◌else◌, ◌==◌, ℕ, ◌+◌, ◌-◌, ◌≤◌, ◌<◌, ◌≡◌, refl, sym, ◌∙◌, inl, inr, true, false, some,
  arith, Bool-cases, leb, le→leb, leb→le, leb-false, ltb-false, length, ◌==◌, length-append,
}
use fluidfs.Prelude.Int.{u64_mod, add_u64, sub_u64}
use fluidfs.Fs.{File, file, FileSystem, Outcome, ok}
use fluidfs.Fs.Heap.{LocalOk, Sound, put_file-Sound}
use fluidfs.Fs.Calls.{held, unlocked, file_call, writable_call, put-heap}
use fluidfs.Fs.FileOps.{put_file, file_op, write_file, WriteRequest, grow, write}
use fluidfs.Fs.FileOps.Data.{
  overwrite, stored, store-in_range, stored-inside, stored-grown, length-stored, length-grow,
}

-- The outcome of a write of `req` to the file `f` at the address `a`.
pub record IsWritten {Q : Type 0} (a : ℕ) (f : File) (req : WriteRequest) (fs : FileSystem Q)
    (r : Outcome ℕ × FileSystem Q) : Type 0 where
  pub result : r.0 ≡ ok (length req.contents)
  pub released : r.1.locked ≡ false
  pub written : File
  pub bytes : written.contents.visible ≡ overwrite req.offset req.contents f.contents.visible
  pub dirty : written.dirty ≡ true
  pub sizes : LocalOk (file written)
  pub heap : (b : ℕ) → r.1.heap b ≡ (if a == b then some (file written) else fs.heap b)

module _ {Q : Type 0} (fs : FileSystem Q) (a : ℕ) (f : File) (max_alloc : ℕ) (req : WriteRequest)
    (there : fs.heap a ≡ some (file f)) (idle : fs.locked ≡ false) (writable : fs.readonly ≡ false)
    (small : req.offset + length req.contents < u64_mod) (l : LocalOk (file f)) where
  end_of_write : add_u64 req.offset (length req.contents) ≡ req.offset + length req.contents
  end_of_write = omega arith

  growth :
      length f.contents.visible < req.offset + length req.contents
      → sub_u64 (req.offset + length req.contents) (length f.contents.visible)
        ≡ req.offset + length req.contents - length f.contents.visible
  growth h = omega arith

  write_inside :
      req.offset + length req.contents ≤ length f.contents.visible
      → write max_alloc a req fs
        ≡ unlocked
            (ok (length req.contents), put_file a (stored req.offset req.contents f) (held fs))
  unfolding write write_file
  write_inside h =
      writable_call fs (file_op a (write_file max_alloc a req)) writable
      ∙ file_call fs idle a f (write_file max_alloc a req)
          (ok (length req.contents), put_file a (stored req.offset req.contents f) (held fs)) there
          (rw
            (
              write_file,
              end_of_write,
              le→leb (req.offset + length req.contents) (length f.contents.visible) h,
            )
            (store-in_range req.offset req.contents a f (held fs)
              (omega (arith, length-append f.contents.visible f.contents.spare))))

  abbrev enlarged : File
  enlarged = grow req.offset (req.offset + length req.contents) f

  abbrev counted : FileSystem Q
  counted = record (held fs) {
    nbytes = add_u64 fs.nbytes (req.offset + length req.contents - length f.contents.visible);
  }

  write_grows :
      length f.contents.visible < req.offset + length req.contents
      → req.offset + length req.contents ≤ max_alloc
      → write max_alloc a req fs
        ≡ unlocked
            (ok (length req.contents), put_file a (stored req.offset req.contents enlarged) counted)
  unfolding write write_file
  write_grows h allocated =
      writable_call fs (file_op a (write_file max_alloc a req)) writable
      ∙ file_call fs idle a f (write_file max_alloc a req)
          (ok (length req.contents), put_file a (stored req.offset req.contents enlarged) counted)
          there
          (rw
            (
              write_file,
              end_of_write,
              leb-false (req.offset + length req.contents) (length f.contents.visible) h,
              ltb-false max_alloc (req.offset + length req.contents) allocated,
              growth h,
            )
            (store-in_range req.offset req.contents a enlarged counted (
              omega (
                arith,
                length-grow req.offset req.contents f h,
                length-append enlarged.contents.visible enlarged.contents.spare,
              ))))

  stored-LocalOk :
      req.offset + length req.contents ≤ length f.contents.visible
      → LocalOk (file (stored req.offset req.contents f))
  stored-LocalOk h = (l.0, l.1 ∙ sym (length-stored req.offset req.contents f h), l.2)

  enlarged-LocalOk :
      length f.contents.visible < req.offset + length req.contents
      → LocalOk (file (stored req.offset req.contents enlarged))
  unfolding grow
  enlarged-LocalOk h = (
    l.0,
    sym (
        length-stored req.offset req.contents enlarged
          (omega (arith, length-grow req.offset req.contents f h))
        ∙ length-grow req.offset req.contents f h),
    refl,
  )

  inside-IsWritten :
      req.offset + length req.contents ≤ length f.contents.visible
      → IsWritten a f req fs (write max_alloc a req fs)
  inside-IsWritten h = rw (write_inside h) (record {
    result = refl;
    released = refl;
    written = stored req.offset req.contents f;
    bytes = stored-inside req.offset req.contents f h;
    dirty = refl;
    sizes = stored-LocalOk h;
    heap = put-heap (held fs) a (file f) (file (stored req.offset req.contents f)) there;
  })

  grows-IsWritten :
      length f.contents.visible < req.offset + length req.contents
      → req.offset + length req.contents ≤ max_alloc
      → IsWritten a f req fs (write max_alloc a req fs)
  grows-IsWritten h allocated = rw (write_grows h allocated) (record {
    result = refl;
    released = refl;
    written = stored req.offset req.contents enlarged;
    bytes = stored-grown req.offset req.contents f h;
    dirty = refl;
    sizes = enlarged-LocalOk h;
    heap = put-heap counted a (file f) (file (stored req.offset req.contents enlarged)) there;
  })

  -- A write to a file whose size and blocks agree with its data, on a writable mount and under a free
  -- lock, whose end fits into 64 bits and into what can be allocated: it returns the number of bytes,
  -- releases the lock and leaves the file dirty, with the request's bytes at the offset and zeros in a
  -- gap behind the old end; size and blocks agree with the new data, and no other object is touched.
  pub write-IsWritten :
      req.offset + length req.contents ≤ max_alloc → IsWritten a f req fs (write max_alloc a req fs)
  write-IsWritten allocated =
      elim (Bool-cases (leb (req.offset + length req.contents) (length f.contents.visible))) [
        | inl inside ↦ inside-IsWritten (leb→le _ _ inside)
        | inr grows ↦ grows-IsWritten (ground arith) allocated
      ]

  pub write-Sound :
      req.offset + length req.contents ≤ max_alloc → Sound fs → Sound (write max_alloc a req fs).1
  unfolding grow
  write-Sound allocated s =
      elim (Bool-cases (leb (req.offset + length req.contents) (length f.contents.visible))) [
        | inl inside ↦ rw (write_inside (leb→le _ _ inside)) (
            put_file-Sound a (stored req.offset req.contents f) f (held fs) there refl
              (stored-LocalOk (leb→le _ _ inside)) s)
        | inr grows ↦
            let h : length f.contents.visible < req.offset + length req.contents = ground arith in
            rw (write_grows h allocated) (
              put_file-Sound a (stored req.offset req.contents enlarged) f counted there refl
                (enlarged-LocalOk h) s)
      ]
