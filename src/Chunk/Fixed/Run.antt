-- ===== src/Chunk/Fixed/Run.antt =====
-- The loop over a `FixedLengthChunker`: which blobs it yields, and that it ends.
use fluidfs.Prelude.{
  ℕ, zero, suc, ◌+◌, ◌≤◌, ◌<◌, ◌≡◌, ◌≢◌, inl, inr, refl, sym, ap, ◌∙◌, true, false, List, [], ◌∷◌,
  ◌++◌, some, map, arith, length, concat, drop, Bool-cases, leb, leb→le,
}
use fluidfs.Prelude.Text.Base64.{encode_to_string}
use fluidfs.Prelude.Slices.{
  Bytes, segment, slice-in_range, segment-append-drop, length-segment, drop_all,
}
use fluidfs.Prelude.Int.{ℤ, pos, sub_ℕ, int_limit, -ℤ-pos, ltb_ℤ, ◌+ℤ◌, ◌-ℤ◌}
use fluidfs.Chunk.{Hash, Blob, finished, signature, drain}
use fluidfs.Chunk.Drain.{drain_done, drain_cons}
use fluidfs.Chunk.Fixed.{FixedLengthChunker, reset, next, advance, offset, slice_from, chunk}

-- A chunker over the bytes `s` with the given hash, block size, minimal size and index.
abbrev pub over : Hash → Bytes → ℕ → ℕ → ℤ → FixedLengthChunker
over h s b m i = record {
  signer = record { hasher = some h };
  contents = s;
  block_index = i;
  block_size = pos b;
  min_block_size = pos m;
}

-- Its state after `Reset`, and before the block at `i` in general.
abbrev pub before : ℕ → ℕ → ℤ
before b i = sub_ℕ i b

-- The blob of a part of the data, as `Chunk` makes it.
abbrev pub blob_of : Hash → Bytes → Blob
blob_of h p = record { contents = p; size = length p; hash = encode_to_string (h p); path = [] }

-- Every part but the last has `b` bytes; the last has at least `m`, and fewer than `b + m`.
abbrev pub FixedSizes : ℕ → ℕ → List Bytes → Type 0
FixedSizes b m [] = Unit
FixedSizes b m (p ∷ []) = (m ≤ length p) × (length p < b + m)
FixedSizes b m (p ∷ q ∷ ps) = (length p ≡ b) × FixedSizes b m (q ∷ ps)

module _ (h : Hash) (s : Bytes) (b m : ℕ) (pos_m : 0 < m) (m_le : m ≤ b)
    (fits : length s + b + b < int_limit) where
  index_step : (i : ℕ) → i ≤ length s + b → before b i +ℤ pos b ≡ pos i
  unfolding ◌+ℤ◌
  index_step i p = ground arith

  test_more : (i : ℕ) → i + m ≤ length s → ltb_ℤ (pos (length s) -ℤ pos m) (pos i) ≡ false
  unfolding ◌-ℤ◌
  test_more i p = ground arith

  test_done :
      (i : ℕ) → i ≤ length s + b → length s < i + m → ltb_ℤ (pos (length s) -ℤ pos m) (pos i) ≡ true
  unfolding ◌-ℤ◌
  test_done i p q = ground arith

  next_more :
      (i : ℕ) → i + m ≤ length s → next (over h s b m (before b i)) ≡ (over h s b m (pos i), true)
  unfolding next
  next_more i p = simp (index_step i (omega arith), test_more i p)

  next_done :
      (i : ℕ)
      → i ≤ length s + b
      → length s < i + m
      → next (over h s b m (before b i)) ≡ (over h s b m (before b 0), false)
  unfolding next reset
  next_done i p q = simp (index_step i p, test_done i p q, -ℤ-pos 0 b (omega arith) (omega arith))

  offset_last :
      (i : ℕ) → i + m ≤ length s → length s < i + b + m → offset (over h s b m (pos i)) ≡ length s
  unfolding offset ◌+ℤ◌ ◌-ℤ◌
  offset_last i p q = ground arith

  offset_inner : (i : ℕ) → i + b + m ≤ length s → offset (over h s b m (pos i)) ≡ i + b
  unfolding offset ◌+ℤ◌ ◌-ℤ◌
  offset_inner i p = ground arith

  chunk_at :
      (i e : ℕ)
      → offset (over h s b m (pos i)) ≡ e
      → i ≤ e
      → e ≤ length s
      → chunk (over h s b m (pos i)) ≡ some (blob_of h (segment i e s))
  unfolding chunk signature slice_from
  chunk_at i e q p r = rw (q, chunk, slice_from, slice-in_range i e s p r)

  drain_end :
      (fuel i : ℕ)
      → i ≤ length s + b
      → length s < i + m
      → drain advance chunk (suc fuel) (over h s b m (before b i))
        ≡ finished [] (over h s b m (before b 0))
  drain_end fuel i p q = drain_done advance chunk fuel _ _ (ap some (next_done i p q))

  index_again : (i : ℕ) → pos i ≡ before b (i + b)
  index_again i = ground arith

  drain_part :
      (fuel i e : ℕ) (bs : List Blob)
      → i + m ≤ length s
      → offset (over h s b m (pos i)) ≡ e
      → i ≤ e
      → e ≤ length s
      → drain advance chunk fuel (over h s b m (before b (i + b)))
        ≡ finished bs (over h s b m (before b 0))
      → drain advance chunk (suc fuel) (over h s b m (before b i))
        ≡ finished (blob_of h (segment i e s) ∷ bs) (over h s b m (before b 0))
  drain_part fuel i e bs p q r t rest =
      drain_cons advance chunk fuel _ (over h s b m (pos i)) _ _ bs (ap some (next_more i p))
        (chunk_at i e q r t)
        (ap (λ k. drain advance chunk fuel (over h s b m k)) (index_again i) ∙ rest)

  -- What the loop yields from the block at `i` on.
  record Yields (fuel i : ℕ) : Type 0 where
    parts : List Bytes
    runs :
        drain advance chunk fuel (over h s b m (before b i))
        ≡ finished (map (blob_of h) parts) (over h s b m (before b 0))
    spells : concat parts ≡ drop i s
    sizes : FixedSizes b m parts
    some_part : parts ≢ []

  FixedSizes-cons :
      (p : Bytes) (ps : List Bytes)
      → ps ≢ []
      → length p ≡ b
      → FixedSizes b m ps
      → FixedSizes b m (p ∷ ps)
  FixedSizes-cons p [] n e z = absurd (n refl)
  FixedSizes-cons p (q ∷ ps) n e z = (e, z)

  yields : (fuel i : ℕ) → i + m ≤ length s → length s + 1 < fuel + i → Yields fuel i
  yields zero i p f = absurd (omega arith)
  yields (suc zero) i p f = absurd (omega arith)
  yields (suc (suc fuel)) i p f = elim (Bool-cases (leb (i + b + m) (length s))) [
    | inl more ↦
        let room : i + b + m ≤ length s = leb→le _ _ more in
        let rest = yields (suc fuel) (i + b) room (omega arith) in
        record {
          parts = segment i (i + b) s ∷ rest.parts;
          runs =
              drain_part (suc fuel) i (i + b) _ p (offset_inner i room) (omega arith) (omega arith)
                rest.runs;
          spells =
              ap (λ t. segment i (i + b) s ++ t) rest.spells
              ∙ segment-append-drop i (i + b) s (omega arith);
          sizes =
              FixedSizes-cons _ rest.parts rest.some_part
                (omega (arith, length-segment i (i + b) s)) rest.sizes;
          some_part = λ e. cc;
        }
    | inr last ↦
        let out : length s < i + b + m = ground arith in
        record {
          parts = segment i (length s) s ∷ [];
          runs =
              drain_part (suc fuel) i (length s) [] p (offset_last i p out) (omega arith)
                (omega arith) (drain_end fuel (i + b) (omega arith) (omega arith));
          spells =
              ap (λ t. segment i (length s) s ++ t) (sym (drop_all (length s) s (omega arith)))
              ∙ segment-append-drop i (length s) s (omega arith);
          sizes = (
            omega (arith, length-segment i (length s) s),
            omega (arith, length-segment i (length s) s),
          );
          some_part = λ e. cc;
        }
  ]

  reset-over : (i : ℤ) → reset (over h s b m i) ≡ over h s b m (before b 0)
  unfolding reset
  reset-over i = simp (-ℤ-pos 0 b (omega arith) (omega arith))

  -- Over data of at least the minimal size, the loop after a reset yields blobs that together hold
  -- exactly the data, in order: all but the last have the block size, the last has at least the
  -- minimal size and less than both sizes together. Each blob is signed with the hash of its data, and
  -- at the end the chunker stands as after the reset. The block size is at least the minimal size,
  -- which is at least 1, and the data and two blocks stay below the largest `int`. As many rounds as
  -- there are bytes, and two, are enough.
  pub drain-reset_fixed :
      (fuel : ℕ) (i : ℤ)
      → m ≤ length s
      → length s + 1 < fuel
      → (parts : List Bytes) × (drain advance chunk fuel (reset (over h s b m i))
          ≡ finished (map (blob_of h) parts) (reset (over h s b m i)))
        × (concat parts ≡ s)
        × FixedSizes b m parts
  drain-reset_fixed fuel i p f =
      let y = yields fuel 0 (omega arith) (omega arith) in
      (y.parts, rw (reset-over i) y.runs, y.spells, y.sizes)

  -- Data of less than the minimal size yields no blob at all: the loop after a reset ends in its first
  -- round, and none of the bytes is in a blob.
  pub drain_short :
      (fuel : ℕ) (i : ℤ)
      → length s < m
      → drain advance chunk (suc fuel) (reset (over h s b m i))
        ≡ finished [] (reset (over h s b m i))
  drain_short fuel i p = rw (reset-over i) (drain_end fuel 0 (omega arith) (omega arith))
