-- ===== src/Fs/FileOps/Data/Read.antt =====
-- `File.Read` of fluid/file.go, alone and after a write.
use fluidfs.Prelude.{
  eqb_refl, Bool-cases, inl, inr, leb→le, leb, if◌then◌else◌, ℕ, ◌+◌, ◌-◌, ◌≤◌, ◌<◌, ◌≡◌, refl, ap,
  ◌∙◌, false, ◌++◌, some, arith, min, leb-false, length, take, drop, length-take, length-drop,
  length-append,
}
use fluidfs.Prelude.Slices.{Bytes, segment}
use fluidfs.Prelude.Splits.{take-append-le, drop-append-le, segment-middle}
use fluidfs.Prelude.Int.{u64_mod}
use fluidfs.Fs.{reslice, File, file, FileSystem, ok, panicked}
use fluidfs.Fs.Heap.{LocalOk, Sound, put_file-Sound}
use fluidfs.Fs.Calls.{held, unlocked, file_call}
use fluidfs.Fs.FileOps.{
  put_file, with_times, ReadRequest, WriteRequest, read_end, read_file, read, write,
}
use fluidfs.Fs.FileOps.Data.{zeros, overwrite, reslice-in_range, length-zeros}
use fluidfs.Fs.FileOps.Data.Write.{write-IsWritten}

segment-append :
    (lo hi : ℕ) (xs ys : Bytes)
    → lo ≤ hi
    → hi ≤ length xs
    → segment lo hi (xs ++ ys) ≡ segment lo hi xs
segment-append lo hi xs ys p q =
    ap (take (hi - lo)) (drop-append-le lo xs ys (omega arith))
    ∙ take-append-le (hi - lo) (drop lo xs) ys (omega (arith, length-drop lo xs))

-- What is written stands where it was written.
segment-overwrite :
    (off : ℕ) (bs s : Bytes) → segment off (off + length bs) (overwrite off bs s) ≡ bs
segment-overwrite off bs s =
    segment-middle off (off + length bs) (take off (s ++ zeros (off - length s))) bs
      (drop (off + length bs) s)
      (omega (
        arith,
        length-take off (s ++ zeros (off - length s)),
        length-append s (zeros (off - length s)),
        length-zeros (off - length s),
      ))
      refl

length-overwrite : (off : ℕ) (bs s : Bytes) → off + length bs ≤ length (overwrite off bs s)
length-overwrite off bs s = omega (
  arith,
  length-append (take off (s ++ zeros (off - length s))) (bs ++ drop (off + length bs) s),
  length-append bs (drop (off + length bs) s),
  length-take off (s ++ zeros (off - length s)),
  length-append s (zeros (off - length s)),
  length-zeros (off - length s),
)

module _ {Q : Type 0} (now : ℕ → ℕ) (fs : FileSystem Q) (a : ℕ) (f : File) (req : ReadRequest)
    (there : fs.heap a ≡ some (file f)) (idle : fs.locked ≡ false)
    (sizes : f.node.attrs.size ≡ length f.contents.visible)
    (small : req.offset + req.size < u64_mod) where
  abbrev touched : FileSystem Q
  touched = put_file a (with_times (now 0) f.node.attrs.mtime f) (held fs)

  end_of_read : read_end req f ≡ min (req.offset + req.size) (length f.contents.visible)
  unfolding read_end
  end_of_read = ground (arith, sizes, small)

  -- Where the address holds a file whose size is the length of its data, the lock is free and the end of
  -- the range, offset and size together, fits into 64 bits: a read that starts inside the file, or right
  -- at its end, returns what the file has from the offset on, as far as it is asked for and as the file
  -- goes, and changes the access time alone; the lock is free again.
  pub read-inside :
      req.offset ≤ length f.contents.visible
      → read now a req fs
        ≡ unlocked (
          ok (
              segment req.offset
                (min (req.offset + req.size) (length f.contents.visible))
                f.contents.visible),
          touched,
        )
  unfolding read
  read-inside h =
      let hi = min (req.offset + req.size) (length f.contents.visible) in
      file_call fs idle a f (read_file now a req)
        (ok (segment req.offset hi f.contents.visible), touched) there
        (rw
          (
            read_file,
            end_of_read,
            reslice-in_range req.offset hi f.contents (omega arith)
                (omega (arith, length-append f.contents.visible f.contents.spare)),
            segment-append req.offset hi f.contents.visible f.contents.spare (omega arith)
                (omega arith),
          )
          refl)

  -- Where the address holds a file whose size is the length of its data, the lock is free and the end of
  -- the range, offset and size together, fits into 64 bits: a read that starts behind the end of the
  -- file panics; the access time is set and the lock released.
  pub read-outside :
      length f.contents.visible < req.offset → read now a req fs ≡ unlocked (panicked, touched)
  unfolding read reslice
  read-outside h =
      file_call fs idle a f (read_file now a req) (panicked, touched) there
        (rw
          (
            read_file,
            reslice,
            end_of_read,
            leb-false req.offset (min (req.offset + req.size) (length f.contents.visible))
                (omega arith),
          )
          refl)

  pub read-Sound : LocalOk (file f) → Sound fs → Sound (read now a req fs).1
  read-Sound l s =
      let touched_Sound =
        put_file-Sound a (with_times (now 0) f.node.attrs.mtime f) f (held fs) there refl l s in
      elim (Bool-cases (leb req.offset (length f.contents.visible))) [
        | inl inside ↦ rw (read-inside (leb→le _ _ inside)) touched_Sound
        | inr outside ↦ rw (read-outside (ground arith)) touched_Sound
      ]

module _ {Q : Type 0} (fs : FileSystem Q) (a : ℕ) (f : File) (max_alloc : ℕ) (req : WriteRequest)
    (there : fs.heap a ≡ some (file f)) (idle : fs.locked ≡ false) (writable : fs.readonly ≡ false)
    (small : req.offset + length req.contents < u64_mod)
    (allocated : req.offset + length req.contents ≤ max_alloc) (l : LocalOk (file f)) where
  -- On a writable mount with a free lock and a file whose size and blocks agree with its data, a read of
  -- the range of a write, made after it, returns the bytes that were written, if the end of the range
  -- fits into 64 bits and into what can be allocated.
  pub read-write :
      (now : ℕ → ℕ)
      → (read now a
          (record { offset = req.offset; size = length req.contents })
          (write max_alloc a req fs).1).0
        ≡ ok req.contents
  read-write now =
      let after = write max_alloc a req fs in
      let w = write-IsWritten fs a f max_alloc req there idle writable small l allocated in
      let again : ReadRequest = record { offset = req.offset; size = length req.contents } in
      let far : req.offset + length req.contents ≤ length w.written.contents.visible =
        omega
          (arith, ap length w.bytes, length-overwrite req.offset req.contents f.contents.visible) in
      let whole : min (req.offset + length req.contents) (length w.written.contents.visible)
          ≡ req.offset + length req.contents =
        omega arith in
      ap (λ r. r.0)
        (read-inside now after.1 a w.written again
          (w.heap a ∙ ap (λ c. if c then some (file w.written) else fs.heap a) (eqb_refl a))
          w.released w.sizes.1 small (omega arith))
      ∙ ap (λ hi. ok (segment req.offset hi w.written.contents.visible)) whole
      ∙ ap (λ s. ok (segment req.offset (req.offset + length req.contents) s)) w.bytes
      ∙ ap ok (segment-overwrite req.offset req.contents f.contents.visible)
