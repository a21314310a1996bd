-- ===== src/Fs/FileOps/Data.antt =====
-- The bytes of a file (fluid/file.go): what `Write` does to them, as one equation on lists.
pub mod Write
pub mod Read
pub mod Setattr
use fluidfs.Prelude.{
  ℕ, ◌+◌, ◌-◌, ◌≤◌, ◌<◌, ◌≡◌, refl, sym, ap, ap₂, ◌∙◌, inl, inr, true, false, List, [], ◌++◌,
  append-nil, Option, none, some, arith, Bool-cases, ltb, leb, le→leb, leb→le, min, lt→ltb,
  leb-false, ltb-false, length, take, drop, replicate, length-take, length-drop, length-append,
  length-replicate, take-append-drop, append_assoc, if◌then◌else◌,
}
use fluidfs.Prelude.Slices.{Bytes, segment, length-segment, drop_all}
use fluidfs.Prelude.Splits.{
  take_all, take-append-le, take-append-ge, take-append_length, drop-append-le, take-replicate,
  drop-replicate,
}
use fluidfs.Fs.{Slice, backing, reslice, File, file, FileSystem, ok}
use fluidfs.Fs.FileOps.{put_file, with_size, WriteRequest, copy_at, grow, store}

abbrev pub zeros : ℕ → Bytes
zeros n = replicate n 0

length-zeros : (n : ℕ) → length (zeros n) ≡ n
length-zeros n = length-replicate n 0

-- The bytes `s` with `bs` in the place of as many; they fit.
abbrev pub splice : ℕ → Bytes → Bytes → Bytes
splice off bs s = take off s ++ (bs ++ drop (off + length bs) s)

-- The bytes `s` with `bs` written at the offset: zeros fill the gap behind the end.
abbrev pub overwrite : ℕ → Bytes → Bytes → Bytes
overwrite off bs s = take off (s ++ zeros (off - length s)) ++ (bs ++ drop (off + length bs) s)

-- The file after the copy into its buffer.
abbrev pub stored : ℕ → Bytes → File → File
stored off bs f =
    let n = length f.contents.visible in
    let bytes = splice off bs (backing f.contents) in
    record f { contents = record { visible = take n bytes; spare = drop n bytes }; dirty = true }

pub reslice-in_range :
    (lo hi : ℕ) (s : Slice)
    → lo ≤ hi
    → hi ≤ length (backing s)
    → reslice lo hi s
      ≡ some (record { visible = segment lo hi (backing s); spare = drop hi (backing s) })
unfolding reslice
reslice-in_range lo hi s p q = rw (le→leb lo hi p, le→leb hi (length (backing s)) q)

module _ (off : ℕ) (bs : Bytes) where
  copy_at-in_range : (s : Bytes) → off + length bs ≤ length s → copy_at off bs s ≡ splice off bs s
  unfolding copy_at
  copy_at-in_range s h =
      ap (λ t. take off s ++ (t ++ drop (off + length bs) s))
        (take_all (length s - off) bs (omega arith))

  length-splice : (s : Bytes) → off + length bs ≤ length s → length (splice off bs s) ≡ length s
  length-splice s h = omega (
    arith,
    length-append (take off s) (bs ++ drop (off + length bs) s),
    length-append bs (drop (off + length bs) s),
    length-take off s,
    length-drop (off + length bs) s,
  )

  splice-append :
      (s t : Bytes) → off + length bs ≤ length s → splice off bs (s ++ t) ≡ splice off bs s ++ t
  splice-append s t h =
      ap₂ (λ u v. u ++ (bs ++ v)) (take-append-le off s t (omega arith))
        (drop-append-le (off + length bs) s t h)
      ∙ ap (λ u. take off s ++ u) (sym (append_assoc bs (drop (off + length bs) s) t))
      ∙ sym (append_assoc (take off s) (bs ++ drop (off + length bs) s) t)

  -- The copy fits: it returns the number of bytes.
  pub store-in_range :
      {Q : Type 0} (a : ℕ) (f : File) (fs : FileSystem Q)
      → off + length bs ≤ length (backing f.contents)
      → store a (record { offset = off; contents = bs }) (off + length bs) f fs
        ≡ (ok (length bs), put_file a (stored off bs f) fs)
  unfolding store
  store-in_range a f fs h =
      let len : length (segment off (off + length bs) (backing f.contents)) ≡ length bs =
        omega (arith, length-segment off (off + length bs) (backing f.contents)) in
      rw
        (
          store,
          reslice-in_range off (off + length bs) f.contents (omega arith) h,
          len,
          take_all (length bs) bs (omega arith),
          copy_at-in_range (backing f.contents) h,
        )
        refl

  stored-visible :
      (f : File)
      → off + length bs ≤ length f.contents.visible
      → (stored off bs f).contents.visible ≡ splice off bs f.contents.visible
  stored-visible f h =
      let s = f.contents.visible in
      ap (take (length s)) (splice-append s f.contents.spare h)
      ∙ take-append_length (length s) (splice off bs s) f.contents.spare (length-splice s h)

  -- Inside the file, a write replaces bytes.
  pub stored-inside :
      (f : File)
      → off + length bs ≤ length f.contents.visible
      → (stored off bs f).contents.visible ≡ overwrite off bs f.contents.visible
  stored-inside f h =
      let s = f.contents.visible in
      stored-visible f h
      ∙ ap (λ t. t ++ (bs ++ drop (off + length bs) s))
          (sym (take-append-le off s (zeros (off - length s)) (omega arith)))

  abbrev grown : Bytes → ℕ → Bytes
  grown s to = take to s ++ zeros (off + length bs - to)

  grow-visible :
      (f : File) (to : ℕ)
      → to ≤ length f.contents.visible
      → to ≤ off
      → (if ltb off (length f.contents.visible) then off else length f.contents.visible) ≡ to
      → (grow off (off + length bs) f).contents.visible ≡ grown f.contents.visible to
  unfolding grow copy_at
  grow-visible f to h g e =
      let s = f.contents.visible in
      rw (grow, e)
        (ap₂ (λ u v. u ++ v)
          (take_all (length (zeros (off + length bs)) - 0) (take to s)
            (omega (arith, length-zeros (off + length bs), length-take to s)))
          (drop-replicate (0 + length (take to s)) (off + length bs) 0
            ∙ ap zeros (
                let e : off + length bs - (0 + length (take to s)) ≡ off + length bs - to =
                  omega (arith, length-take to s) in
                e)))

  length-grown :
      (s : Bytes) (to : ℕ) → to ≤ length s → to ≤ off → length (grown s to) ≡ off + length bs
  length-grown s to h g = omega (
    arith,
    length-append (take to s) (zeros (off + length bs - to)),
    length-take to s,
    length-zeros (off + length bs - to),
  )

  -- What stands before the offset, in a file that ends before it and in one that does not.
  take-grown :
      (s : Bytes) → take off (grown s (min off (length s))) ≡ take off (s ++ zeros (off - length s))
  take-grown s = elim (Bool-cases (leb off (length s))) [
    | inl below ↦
        let h : off ≤ length s = leb→le off (length s) below in
        let e : min off (length s) ≡ off = omega arith in
        rw e (
          take-append_length off (take off s) (replicate (off + length bs - off) 0)
            (omega (arith, length-take off s))
          ∙ sym (take-append-le off s (zeros (off - length s)) h))
    | inr above ↦
        let h : length s < off = ground arith in
        let e : min off (length s) ≡ length s = omega arith in
        rw (e, take_all (length s) s (omega arith))
          (take-append-ge off s (replicate (off + length bs - length s) 0) (omega arith)
            ∙ ap (λ t. s ++ t)
                (take-replicate (off - length s) (off + length bs - length s) 0 (omega arith)
                  ∙ sym (
                      take_all (off - length s) (zeros (off - length s))
                        (omega (arith, length-zeros (off - length s)))))
            ∙ sym (take-append-ge off s (zeros (off - length s)) (omega arith)))
  ]

  splice-grown :
      (s : Bytes)
      → length s < off + length bs
      → splice off bs (grown s (min off (length s))) ≡ overwrite off bs s
  splice-grown s h =
      let len = length-grown s (min off (length s)) (omega arith) (omega arith) in
      ap₂ (λ u v. u ++ (bs ++ v)) (take-grown s)
        (drop_all (off + length bs) (grown s (min off (length s))) (omega arith)
          ∙ sym (drop_all (off + length bs) s (omega arith)))

  pub length-stored :
      (f : File)
      → off + length bs ≤ length f.contents.visible
      → length (stored off bs f).contents.visible ≡ length f.contents.visible
  length-stored f h = ap length (stored-visible f h) ∙ length-splice f.contents.visible h

  visible-grow :
      (f : File)
      → length f.contents.visible < off + length bs
      → (grow off (off + length bs) f).contents.visible
        ≡ grown f.contents.visible (min off (length f.contents.visible))
  visible-grow f h =
      grow-visible f (min off (length f.contents.visible)) (omega arith) (omega arith)
        (ground arith)

  pub length-grow :
      (f : File)
      → length f.contents.visible < off + length bs
      → length (grow off (off + length bs) f).contents.visible ≡ off + length bs
  length-grow f h =
      ap length (visible-grow f h)
      ∙ length-grown f.contents.visible (min off (length f.contents.visible)) (omega arith)
          (omega arith)

  -- A write that grows the file.
  pub stored-grown :
      (f : File)
      → length f.contents.visible < off + length bs
      → (stored off bs (grow off (off + length bs) f)).contents.visible
        ≡ overwrite off bs f.contents.visible
  stored-grown f h =
      stored-visible (grow off (off + length bs) f) (omega (arith, length-grow f h))
      ∙ ap (splice off bs) (visible-grow f h)
      ∙ splice-grown f.contents.visible h
