-- ===== src/Chunk/RabinKarp/Run.antt =====
-- The loop over a `RabinKarpChunker`: which blobs it yields, when it ends, and when it does not.
use fluidfs.Prelude.{
  ℕ, zero, suc, ◌+◌, ◌-◌, ◌≤◌, ◌<◌, ◌≡◌, ◌⊎◌, inl, inr, refl, sym, ap, ◌∙◌, subst, true, false,
  ◌&&◌, List, [], ◌∷◌, ◌++◌, some, map, arith, max, length, concat, drop, Bool-cases, leb, leb→le,
  le→leb, leb-false, ltb→lt, ltb, ◌==◌, if◌then◌else◌, All,
}
use fluidfs.Prelude.Text.Base64.{encode_to_string}
use fluidfs.Prelude.Slices.{
  Bytes, segment, slice-in_range, segment-append-drop, length-segment, drop_all,
}
use fluidfs.Prelude.Int.{int_limit, add_u64}
use fluidfs.Chunk.{Hash, Blob, finished, signature, drain, push, out_of_fuel}
use fluidfs.Chunk.Drain.{drain_done, drain_more, drain_cons}
use fluidfs.Chunk.Fixed.Run.{blob_of}
use fluidfs.Chunk.RabinKarp.{
  RabinKarpChunker, next_offset, arrive, reset, next, chunk, mul_loop, saved_table,
}
use fluidfs.Chunk.RabinKarp.Offset.{
  IsReady, boundary, first_cut, block_length, next_offset-block_length,
}
use fluidfs.Chunk.RabinKarp.Sizes.{first_cut-CutBounds}

-- What `NewChunker` takes from the configuration, and the constants of the hash. The window has
-- `w + 1` bytes.
pub record Params : Type 0 where
  pub hash : Hash
  pub w : ℕ
  pub bytes : ℕ
  pub block_size : ℕ
  pub min_block_size : ℕ
  pub max_block_size : ℕ

-- A chunker over the bytes `s` at an index and an offset, after its first reset.
abbrev pub over : Params → Bytes → ℕ → ℕ → RabinKarpChunker
over k s i o = record {
  signer = record { hasher = some k.hash };
  contents = s;
  hash_len = suc k.w;
  bytes = k.bytes;
  index = i;
  offset = o;
  block_size = k.block_size;
  min_block_size = k.min_block_size;
  max_block_size = k.max_block_size;
  saved = some (saved_table 256 0 (mul_loop k.w k.bytes 1));
}

-- Every part has as many bytes as the reference says for its place, at most the largest size or two
-- more than the window's last index, and every part but the last has at least the smallest size.
module _ (k : Params) (s : Bytes) where
  -- The length of the block that begins at `i`.
  abbrev pub cut_at : ℕ → ℕ
  cut_at i = block_length (over k s i 0)

  abbrev pub CutParts : ℕ → List Bytes → Type 0
  CutParts i [] = Unit
  CutParts i (p ∷ ps) =
      (length p ≡ cut_at i)
      × (length p ≤ max (suc k.w + 1) k.max_block_size)
      × ((ps ≡ []) ⊎ (k.min_block_size ≤ length p))
      × CutParts (i + length p) ps

pub reset-over : (k : Params) (s : Bytes) (i o : ℕ) → reset (over k s i o) ≡ over k s 0 0
unfolding reset
reset-over k s i o = refl

module _ (k : Params) (s : Bytes) (are_bytes : All (λ x. x < 256) s)
    (fits : length s + suc k.w < int_limit) (pos_size : 0 < k.block_size)
    (ordered : k.min_block_size ≤ k.max_block_size) where
  ready : (i o : ℕ) → i ≤ length s → IsReady k.w (over k s i o)
  ready i o h = record {
    hash_len = refl;
    saved = refl;
    are_bytes = are_bytes;
    index = h;
    fits = fits;
    block_size = pos_size;
  }

  first_cut_offset :
      (i o rounds j : ℕ) → first_cut (over k s i o) rounds j ≡ first_cut (over k s i 0) rounds j
  unfolding first_cut
  first_cut_offset i o zero j = refl
  first_cut_offset i o (suc rounds) j =
      ap (λ t. if boundary (over k s i 0) (j + 1) then j + 1 else t)
        (first_cut_offset i o rounds (j + 1))

  next_offset_at : (i o : ℕ) → i ≤ length s → next_offset (over k s i o) ≡ some (cut_at k s i)
  unfolding block_length
  next_offset_at i o h =
      next_offset-block_length k.w (over k s i o) (ready i o h)
      ∙ ap (λ t. some (if leb (length s - i) (suc k.w) then length s - i else t))
          (first_cut_offset i o (length s - i - suc k.w) (suc k.w))

  -- The bounds on a block that begins before the end.
  record BlockBounds (i n : ℕ) : Type 0 where
    moves : 0 < n
    high : i + n ≤ length s
    least : (i + n ≡ length s) ⊎ (k.min_block_size ≤ n)
    largest : n ≤ max (suc k.w + 1) k.max_block_size

  block_bounds : (i : ℕ) → i < length s → BlockBounds i (cut_at k s i)
  unfolding block_length
  block_bounds i h = elim (Bool-cases (leb (length s - i) (suc k.w))) [
    | inl short ↦
        let small : length s - i ≤ suc k.w = leb→le _ _ short in
        rw short (record {
          moves = omega arith;
          high = omega arith;
          least = inl (omega arith);
          largest = omega arith;
        })
    | inr long ↦
        let big : suc k.w < length s - i = ground arith in
        let b = first_cut-CutBounds (over k s i 0) (length s - i - suc k.w) (suc k.w) in
        rw long (record {
          moves = omega (arith, b.low);
          high = omega (arith, b.high);
          least = elim b.least [
            | inl e ↦ inl (omega (arith, e))
            | inr (inl e) ↦ inr e
            | inr (inr e) ↦ inr (omega (arith, e))
          ];
          largest = b.largest;
        })
  ]

  not_first : (i o : ℕ) → 0 < o → (i == 0 && o == 0) ≡ false
  not_first i o p = ground arith

  next_first : next (over k s 0 0) ≡ some (over k s 0 (cut_at k s 0), true)
  unfolding next
  next_first = ap (arrive (over k s 0 0)) (next_offset_at 0 0 (omega arith))

  next_again :
      (i o j : ℕ)
      → 0 < o
      → i + o ≡ j
      → j < length s
      → next (over k s i o) ≡ some (over k s j (cut_at k s j), true)
  unfolding next
  next_again i o j p e h =
      rw (not_first i o p, let f : add_u64 i o ≡ j = omega arith in f, leb-false (length s) j h)
        (ap (arrive (over k s j o)) (next_offset_at j o (omega arith)))

  next_end : (i o : ℕ) → 0 < o → i + o ≡ length s → next (over k s i o) ≡ some (over k s 0 0, false)
  unfolding next
  next_end i o p e =
      rw
        (
          not_first i o p,
          let f : add_u64 i o ≡ length s = omega arith in f,
          le→leb (length s) (length s) (omega arith),
        )
        (ap (λ t. some (t, false)) (reset-over k s (length s) o))

  chunk_at :
      (i n : ℕ)
      → i + n ≤ length s
      → chunk (over k s i n) ≡ some (blob_of k.hash (segment i (i + n) s))
  unfolding chunk signature
  chunk_at i n h =
      rw
        (
          chunk,
          let e : add_u64 i n ≡ i + n = omega arith in e,
          slice-in_range i (i + n) s (omega arith) h,
        )
        (ap (λ t. some (blob i n t)) (omega (arith, length-segment i (i + n) s)))
    where
      blob : ℕ → ℕ → ℕ → Blob
      blob i n t = record {
        contents = segment i (i + n) s;
        size = t;
        hash = encode_to_string (k.hash (segment i (i + n) s));
        path = [];
      }

  -- What the loop yields from the state of the block at `i`, whose length is `n`.
  record Yields (fuel i n : ℕ) : Type 0 where
    parts : List Bytes
    runs :
        drain next chunk fuel (over k s i n) ≡ finished (map (blob_of k.hash) parts) (over k s 0 0)
    spells : concat parts ≡ drop (i + n) s
    cuts : CutParts k s (i + n) parts
    ends : (i + n ≡ length s) → parts ≡ []

  part_length : (i : ℕ) → i < length s → length (segment i (i + cut_at k s i) s) ≡ cut_at k s i
  part_length i h = omega (arith, (block_bounds i h).high, length-segment i (i + cut_at k s i) s)

  CutParts-cons :
      (i : ℕ) (ps : List Bytes)
      → i < length s
      → (i + cut_at k s i ≡ length s → ps ≡ [])
      → CutParts k s (i + cut_at k s i) ps
      → CutParts k s i (segment i (i + cut_at k s i) s ∷ ps)
  CutParts-cons i ps h ends rest =
      let b = block_bounds i h in
      let n = part_length i h in
      (
        n,
        omega (arith, b.largest, n),
        elim b.least [ inl e ↦ inl (ends e) | inr m ↦ inr (omega (arith, n, m)) ],
        subst (λ t. CutParts k s (i + t) ps) (sym n) rest,
      )

  -- One more round, that yields the block at `j`.
  Yields-round :
      (fuel i n j : ℕ)
      → next (over k s i n) ≡ some (over k s j (cut_at k s j), true)
      → j < length s
      → (y : Yields fuel j (cut_at k s j))
      → (drain next chunk (suc fuel) (over k s i n)
          ≡ finished
              (map (blob_of k.hash) (segment j (j + cut_at k s j) s ∷ y.parts))
              (over k s 0 0))
        × (concat (segment j (j + cut_at k s j) s ∷ y.parts) ≡ drop j s)
        × CutParts k s j (segment j (j + cut_at k s j) s ∷ y.parts)
  Yields-round fuel i n j e h y =
      let b = block_bounds j h in
      (
        drain_cons next chunk fuel (over k s i n) (over k s j (cut_at k s j)) (over k s 0 0)
            (blob_of k.hash (segment j (j + cut_at k s j) s)) (map (blob_of k.hash) y.parts) e
            (chunk_at j (cut_at k s j) b.high) y.runs,
        ap (λ t. segment j (j + cut_at k s j) s ++ t) y.spells
            ∙ segment-append-drop j (j + cut_at k s j) s (omega arith),
        CutParts-cons j y.parts h y.ends y.cuts,
      )

  yields : (fuel i n : ℕ) → 0 < n → i + n ≤ length s → length s < fuel + (i + n) → Yields fuel i n
  yields zero i n p h f = absurd (omega arith)
  yields (suc fuel) i n p h f = elim (Bool-cases (ltb (i + n) (length s))) [
    | inl more ↦
        let j = i + n in
        let b = block_bounds j (ltb→lt _ _ more) in
        let y = yields fuel j (cut_at k s j) b.moves b.high (omega (arith, b.moves)) in
        let (runs, spells, cuts) =
          Yields-round fuel i n j (next_again i n j p refl (ltb→lt _ _ more)) (ltb→lt _ _ more) y in
        record {
          parts = segment j (j + cut_at k s j) s ∷ y.parts;
          runs = runs;
          spells = spells;
          cuts = cuts;
          ends = λ e. absurd (omega (arith, ltb→lt (i + n) (length s) more));
        }
    | inr done ↦
        let end : i + n ≡ length s = ground arith in
        record {
          parts = [];
          runs = drain_done next chunk fuel (over k s i n) (over k s 0 0) (next_end i n p end);
          spells = sym (drop_all (i + n) s (omega arith));
          cuts = tt;
          ends = λ e. refl;
        }
  ]

  -- Over data that is not empty, the loop after a reset yields blobs that together hold exactly the
  -- data, in order, and ends in the state after the reset. Each block is as long as the reference
  -- says, which hashes every window anew; no block is longer than the largest size, or than the
  -- window and one byte where that is more; and every block but the last has at least the smallest
  -- size. The data is bytes and fits into an `int`, the target size is positive and the smallest size
  -- is at most the largest. As many rounds as there are bytes, and two, are enough.
  pub drain-reset :
      (fuel i o : ℕ)
      → 0 < length s
      → length s + 1 < fuel
      → (parts : List Bytes) × (drain next chunk fuel (reset (over k s i o))
          ≡ finished (map (blob_of k.hash) parts) (reset (over k s i o)))
        × (concat parts ≡ s)
        × CutParts k s 0 parts
  drain-reset zero i o p f = absurd (omega arith)
  drain-reset (suc fuel) i o p f =
      let b = block_bounds 0 p in
      let y = yields fuel 0 (cut_at k s 0) b.moves b.high (omega (arith, b.moves)) in
      let (runs, spells, cuts) = Yields-round fuel 0 0 0 next_first p y in
      (segment 0 (0 + cut_at k s 0) s ∷ y.parts, rw (reset-over k s i o) runs, spells, cuts)

cut_at_empty : (k : Params) → cut_at k [] 0 ≡ 0
unfolding block_length
cut_at_empty k = rw (le→leb 0 (suc k.w) (omega arith))

-- Over empty data the loop does not end: whatever the number of rounds, `Next` has answered true in
-- each of them, and the loop runs out of fuel. The window fits into an `int`, the target size is
-- positive and the smallest size is at most the largest.
pub drain_empty :
    (k : Params) (fuel i o : ℕ)
    → suc k.w < int_limit
    → 0 < k.block_size
    → k.min_block_size ≤ k.max_block_size
    → drain next chunk fuel (reset (over k [] i o)) ≡ out_of_fuel
unfolding drain
drain_empty k zero i o fits pos_size ordered = refl
drain_empty k (suc fuel) i o fits pos_size ordered = rw (reset-over k [] i o) (
    drain_more next chunk fuel (over k [] 0 0) (over k [] 0 0) (blob_of k.hash [])
      (next_first k [] tt (omega arith) pos_size ordered
        ∙ ap (λ n. some (over k [] 0 n, true)) (cut_at_empty k))
      (chunk_at k [] tt (omega arith) pos_size ordered 0 0 (omega arith))
    ∙ ap (push (blob_of k.hash []))
        (rw (reset-over k [] i o) at (drain_empty k fuel i o fits pos_size ordered)))
