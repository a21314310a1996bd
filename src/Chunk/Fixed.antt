-- ===== src/Chunk/Fixed.antt =====
-- The `FixedLengthChunker` of fluid/chunk.go. Its lengths and its index are `int`s.
pub mod Run
use fluidfs.Prelude.{ℕ, Bool, true, false, [], ◌++◌, Option, none, some, if◌then◌else◌, length}
use fluidfs.Prelude.Slices.{Bytes, slice}
use fluidfs.Prelude.Int.{ℤ, pos, negsuc, ◌+ℤ◌, ◌-ℤ◌, ltb_ℤ, to_u64}
use fluidfs.Chunk.{SignedChunker, signature, Blob}

pub record FixedLengthChunker : Type 0 where
  pub signer : SignedChunker
  pub contents : Bytes
  pub block_index : ℤ
  pub block_size : ℤ
  pub min_block_size : ℤ

-- The chunker as the call leaves it, and the number of bytes that were written.
unfoldable pub write : Bytes → FixedLengthChunker → FixedLengthChunker × ℕ
write p c = (record c { contents = c.contents ++ p }, length p)

unfoldable pub reset : FixedLengthChunker → FixedLengthChunker
reset c = record c { block_index = pos 0 -ℤ c.block_size }

unfoldable pub next : FixedLengthChunker → FixedLengthChunker × Bool
unfolding reset
next c =
    let c' = record c { block_index = c.block_index +ℤ c.block_size } in
    if ltb_ℤ (pos (length c.contents) -ℤ c.min_block_size) c'.block_index
    then (reset c', false)
    else (c', true)

-- `Next` never panics.
abbrev pub advance : FixedLengthChunker → Option (FixedLengthChunker × Bool)
advance c = some (next c)

-- The end of the current chunk, before its conversion to `uint64`.
unfoldable pub end_index : FixedLengthChunker → ℤ
end_index c =
    let reached = c.block_index +ℤ c.block_size in
    let extended =
      if ltb_ℤ (pos (length c.contents) -ℤ reached) c.min_block_size
      then pos (length c.contents)
      else reached in
    if ltb_ℤ (pos (length c.contents)) extended then pos (length c.contents) else extended

unfoldable pub offset : FixedLengthChunker → ℕ
unfolding end_index to_u64
offset c = to_u64 (end_index c)

-- `s[lo:hi]` with an `int` below; a negative index panics.
unfoldable pub slice_from : ℤ → ℕ → Bytes → Option Bytes
unfolding slice
slice_from (pos lo) hi s = slice lo hi s
slice_from (negsuc lo) hi s = none

-- `none` is a panic.
unfoldable pub chunk : FixedLengthChunker → Option Blob
unfolding slice_from signature
chunk c = elim (slice_from c.block_index (offset c) c.contents) [
  | none ↦ none
  | some contents ↦ elim (signature c.signer contents) [
    | none ↦ none
    | some hash ↦
        some (record { contents = contents; size = length contents; hash = hash; path = [] })
  ]
]

pub block_size : FixedLengthChunker → ℤ
block_size c = c.block_size
