-- ===== src/Fs/FileOps/Data/Setattr.antt =====
-- `File.Setattr` of fluid/file.go: the change of the size.
use fluidfs.Prelude.{
  ℕ, ◌-◌, ◌≤◌, ◌<◌, ◌≡◌, refl, ap, ◌∙◌, true, false, some, arith, le→leb, leb-false, length, take,
  drop, length-take, take-append-drop, if◌then◌else◌,
}
use fluidfs.Fs.{
  backing, reslice, File, file, FileSystem, ok, panicked, blocked, Op, with_lock, edit,
}
use fluidfs.Fs.Heap.{LocalOk}
use fluidfs.Fs.Calls.{held, with_lock-held, writable_call, edit_self}
use fluidfs.Fs.NodeOps.{SetattrRequest}
use fluidfs.Fs.FileOps.{
  the_file, put_file, with_size, truncate, then_setattr, setattr_file, setattr,
}
use fluidfs.Fs.FileOps.Data.{reslice-in_range}

-- What a change of the size leaves of a file: `n` bytes of its buffer, which may be bytes that an
-- earlier change cut off.
abbrev pub resized : ℕ → File → File
resized n f = record (with_size n f) {
  contents = record { visible = take n (backing f.contents); spare = drop n (backing f.contents) };
}

length-resized :
    (n : ℕ) (f : File) → n ≤ length (backing f.contents) → n ≡ length (resized n f).contents.visible
length-resized n f h = omega (arith, length-take n (backing f.contents))

module _ {Q : Type 0} (fs : FileSystem Q) (a : ℕ) (f : File) (size : ℕ)
    (there : fs.heap a ≡ some (file f)) (idle : fs.locked ≡ false) where
  truncate-fits :
      size ≤ length (backing f.contents)
      → truncate a size fs
        ≡ (ok tt, record (put_file a (resized size f) (held fs)) { locked = false })
  unfolding truncate the_file
  truncate-fits h =
      let whole : size - 0 ≡ size = omega arith in
      rw
        (truncate, idle, the_file, there, reslice-in_range 0 size f.contents (omega arith) h, whole)
        refl

  truncate-panicked :
      length (backing f.contents) < size
      → truncate a size fs ≡ (panicked, put_file a (with_size size f) (held fs))
  unfolding truncate the_file reslice
  truncate-panicked h =
      rw
        (
          truncate,
          idle,
          the_file,
          there,
          reslice,
          le→leb 0 size (omega arith),
          leb-false size (length (backing f.contents)) h,
        )
        refl

  -- The change of the size within the capacity of the buffer, of a file under a free lock: the lock is
  -- released, and the file has as many bytes of its buffer as were asked for, with the size and the
  -- blocks of that many.
  pub truncate_lem :
      LocalOk (file f)
      → size ≤ length (backing f.contents)
      → ((truncate a size fs).0 ≡ ok tt)
        × ((truncate a size fs).1.locked ≡ false)
        × ((truncate a size fs).1.heap a ≡ some (file (resized size f)))
        × ((resized size f).contents.visible ≡ take size (backing f.contents))
        × LocalOk (file (resized size f))
  truncate_lem l h = rw (truncate-fits h) (
    refl,
    refl,
    edit_self (held fs) a (λ e. file (resized size f)) (file f) there,
    refl,
    (l.0, length-resized size f h, refl),
  )

-- The file system as `File.Setattr` leaves it when the new size is above the capacity.
module _ {Q : Type 0} (now : ℕ → ℕ) (fs : FileSystem Q) (a : ℕ) (f : File) (req : SetattrRequest)
    (there : fs.heap a ≡ some (file f)) (idle : fs.locked ≡ false) (writable : fs.readonly ≡ false)
    (resizes : req.valid_size ≡ true) (above : length (backing f.contents) < req.size) where
  setattr-panicked : setattr now a req fs ≡ (panicked, put_file a (with_size req.size f) (held fs))
  unfolding setattr setattr_file then_setattr
  setattr-panicked =
      writable_call fs (setattr_file now a req) writable
      ∙ ap (then_setattr now a req) (
          ap (λ b. if b then truncate a req.size fs else (ok tt, fs)) resizes
          ∙ truncate-panicked fs a f req.size there idle above)

  -- A request for a size above the capacity of the buffer, of a file of a writable mount under a free
  -- lock, panics; the file has the new size and the old data, and every locked call that follows waits
  -- for ever.
  pub setattr-deadlock :
      {A : Type 0} (body : Op Q A)
      → ((setattr now a req fs).0 ≡ panicked)
        × ((setattr now a req fs).1.heap a ≡ some (file (with_size req.size f)))
        × (with_lock body (setattr now a req fs).1 ≡ (blocked, (setattr now a req fs).1))
  unfolding edit
  setattr-deadlock body = rw setattr-panicked (
    refl,
    edit_self (held fs) a (λ e. file (with_size req.size f)) (file f) there,
    with_lock-held (put_file a (with_size req.size f) (held fs)) body refl,
  )

-- Two changes of the size, the first to fewer bytes, of a file under a free lock: the bytes that the
-- first cut off are there again after the second, up to the capacity of the buffer.
pub truncate-truncate :
    {Q : Type 0} (fs : FileSystem Q) (a : ℕ) (f : File) (n m : ℕ)
    → fs.heap a ≡ some (file f)
    → fs.locked ≡ false
    → LocalOk (file f)
    → n ≤ m
    → m ≤ length (backing f.contents)
    → (truncate a m (truncate a n fs).1).1.heap a
      ≡ some (
          file (record (with_size m f) {
            contents = record {
              visible = take m (backing f.contents);
              spare = drop m (backing f.contents);
            };
          }))
truncate-truncate fs a f n m there idle l p q =
    let first = truncate_lem fs a f n there idle l (omega arith) in
    let whole = take-append-drop n (backing f.contents) in
    (truncate_lem (truncate a n fs).1 a (resized n f) m first.2 first.1 first.4
      (omega (arith, ap length whole))).2
    ∙ ap
        (λ s. some (
          file (record (with_size m f) {
            contents = record { visible = take m s; spare = drop m s };
          })))
        whole
