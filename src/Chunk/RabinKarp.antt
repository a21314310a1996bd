-- ===== src/Chunk/RabinKarp.antt =====
-- The `RabinKarpChunker` of fluid/chunk.go. Its numbers are `uint64`s; `none` is a panic, of an index
-- out of range or of a remainder by 0.
pub mod Hash
pub mod Offset
pub mod Sizes
pub mod Run
use fluidfs.Prelude.{
  ℕ, zero, suc, ◌+◌, ◌-◌, ◌%◌, Bool, true, false, ◌&&◌, ◌||◌, List, [], ◌∷◌, ◌++◌, Option, none,
  some, ltb, leb, ◌==◌, if◌then◌else◌, length, get_elem?,
}
use fluidfs.Prelude.Slices.{Bytes, slice}
use fluidfs.Prelude.Int.{add_u64, sub_u64, mul_u64}
use fluidfs.Chunk.{SignedChunker, signature, Blob}

pub record RabinKarpChunker : Type 0 where
  pub signer : SignedChunker
  pub contents : Bytes
  pub hash_len : ℕ
  pub bytes : ℕ
  pub index : ℕ
  pub offset : ℕ
  pub block_size : ℕ
  pub min_block_size : ℕ
  pub max_block_size : ℕ
  pub saved : Option (List ℕ)

-- An index into a nil slice panics, as any other out of range.
unfoldable pub saved_at : RabinKarpChunker → ℕ → Option ℕ
saved_at c k = elim c.saved [ none ↦ none | some saved ↦ get_elem? saved k ]

-- The chunker as the call leaves it, and the number of bytes that were written.
unfoldable pub write : Bytes → RabinKarpChunker → RabinKarpChunker × ℕ
write p c = (record c { contents = c.contents ++ p }, length p)

-- The first loop of `Offset`: the hash of the first bytes. The rounds are those that are left until
-- `offset < length` fails. The results are the offset and the hash.
unfoldable pub warm : RabinKarpChunker → ℕ → ℕ → ℕ → Option (ℕ × ℕ)
warm c zero offset hash = some (offset, hash)
warm c (suc rounds) offset hash = elim (ltb offset c.hash_len) [
  | false ↦ some (offset, hash)
  | true ↦ elim (get_elem? c.contents (add_u64 c.index offset)) [
    | none ↦ none
    | some x ↦ warm c rounds (add_u64 offset 1) (add_u64 (mul_u64 hash c.bytes) x)
  ]
]

-- The condition on which `Offset` returns.
unfoldable pub cuts : RabinKarpChunker → ℕ → ℕ → Option Bool
cuts c offset hash =
    if leb c.min_block_size offset
    then (if c.block_size == 0
        then none
        else some (hash % c.block_size == 1 || leb c.max_block_size offset))
    else some (leb c.max_block_size offset)

-- The hash of the window that is one byte further, from the hash and the offset before.
unfoldable pub slide : RabinKarpChunker → ℕ → ℕ → Option ℕ
unfolding saved_at
slide c offset hash = elim (get_elem? c.contents (sub_u64 (add_u64 c.index offset) c.hash_len)) [
  | none ↦ none
  | some old ↦ elim (saved_at c old) [
    | none ↦ none
    | some gone ↦ elim (get_elem? c.contents (add_u64 c.index offset)) [
      | none ↦ none
      | some x ↦ some (add_u64 (mul_u64 (sub_u64 hash gone) c.bytes) x)
    ]
  ]
]

-- The second loop, with the rounds until `offset < length` fails.
unfoldable pub roll : RabinKarpChunker → ℕ → ℕ → ℕ → Option ℕ
unfolding cuts slide
roll c zero offset hash = some offset
roll c (suc rounds) offset hash = elim (slide c offset hash) [
  | none ↦ none
  | some hash' ↦ elim (cuts c (add_u64 offset 1) hash') [
    | none ↦ none
    | some true ↦ some (add_u64 offset 1)
    | some false ↦ roll c rounds (add_u64 offset 1) hash'
  ]
]

-- The length of the block that begins at the index.
unfoldable pub next_offset : RabinKarpChunker → Option ℕ
unfolding warm roll
next_offset c =
    let left = sub_u64 (length c.contents) c.index in
    elim (warm c left 0 0) [
      | none ↦ none
      | some (offset, hash) ↦ roll c (left - offset) offset hash
    ]

pub mul_loop : ℕ → ℕ → ℕ → ℕ
mul_loop zero bytes bidx = bidx
mul_loop (suc rounds) bytes bidx = mul_loop rounds bytes (mul_u64 bidx bytes)

-- `saved[i] = i * bidx` from `i` on, for the rounds that are left.
pub saved_table : ℕ → ℕ → ℕ → List ℕ
saved_table zero i bidx = []
saved_table (suc rounds) i bidx = mul_u64 i bidx ∷ saved_table rounds (i + 1) bidx

unfoldable pub reset : RabinKarpChunker → RabinKarpChunker
unfolding mul_loop saved_table
reset c =
    let c' = record c { index = 0; offset = 0 } in
    elim c.saved [
      | some saved ↦ c'
      | none ↦ record c' {
        saved = some (saved_table 256 0 (mul_loop (sub_u64 c.hash_len 1) c.bytes 1));
      }
    ]

-- What `Next` does after the offset is known.
pub arrive : RabinKarpChunker → Option ℕ → Option (RabinKarpChunker × Bool)
arrive c none = none
arrive c (some offset) = some (record c { offset = offset }, true)

unfoldable pub next : RabinKarpChunker → Option (RabinKarpChunker × Bool)
unfolding arrive
next c =
    let c' = record c { index = add_u64 c.index c.offset } in
    if c.index == 0 && c.offset == 0
    then arrive c (next_offset c)
    else if leb (length c.contents) c'.index
    then some (reset c', false)
    else arrive c' (next_offset c')

-- The size is `int(c.offset)`.
unfoldable pub chunk : RabinKarpChunker → Option Blob
unfolding signature
chunk c = elim (slice c.index (add_u64 c.index c.offset) c.contents) [
  | none ↦ none
  | some contents ↦ elim (signature c.signer contents) [
    | none ↦ none
    | some hash ↦ some (record { contents = contents; size = c.offset; hash = hash; path = [] })
  ]
]
