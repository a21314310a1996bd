-- ===== src/Chunk/RabinKarp/Sizes.antt =====
-- How far the first cut of a Rabin-Karp block may lie.
use fluidfs.Prelude.{
  ℕ, zero, suc, ◌+◌, ◌≤◌, ◌<◌, ◌≡◌, ◌⊎◌, inl, inr, true, false, arith, max, Bool-cases,
}
use fluidfs.Chunk.RabinKarp.{RabinKarpChunker}
use fluidfs.Chunk.RabinKarp.Offset.{boundary, first_cut}

-- The bounds on the first cut: it lies behind the start unless nothing is left, is a boundary unless
-- it is the end, and is not past the largest size by more than a first step.
pub record CutBounds (c : RabinKarpChunker) (rounds o r : ℕ) : Type 0 where
  pub low : o ≤ r
  pub high : r ≤ o + rounds
  pub moves : (0 < rounds → o < r)
  pub least : (r ≡ o + rounds) ⊎ (c.min_block_size ≤ r) ⊎ (c.max_block_size ≤ r)
  pub largest : r ≤ max (o + 1) c.max_block_size

boundary_sizes :
    (c : RabinKarpChunker) (o : ℕ)
    → boundary c o ≡ true
    → (c.min_block_size ≤ o) ⊎ (c.max_block_size ≤ o)
boundary_sizes c o h = ground arith

boundary_no_max : (c : RabinKarpChunker) (o : ℕ) → boundary c o ≡ false → o < c.max_block_size
boundary_no_max c o h = ground arith

pub first_cut-CutBounds :
    (c : RabinKarpChunker) (rounds o : ℕ) → CutBounds c rounds o (first_cut c rounds o)
unfolding first_cut
first_cut-CutBounds c zero o = record {
  low = omega arith;
  high = omega arith;
  moves = λ h. omega arith;
  least = inl (omega arith);
  largest = omega arith;
}
first_cut-CutBounds c (suc rounds) o = elim (Bool-cases (boundary c (o + 1))) [
  | inl cut ↦ rw cut (record {
    low = omega arith;
    high = omega arith;
    moves = λ h. omega arith;
    least = inr (boundary_sizes c (o + 1) cut);
    largest = omega arith;
  })
  | inr go_on ↦
      let b = first_cut-CutBounds c rounds (o + 1) in
      rw go_on (record {
        low = omega (arith, b.low);
        high = omega (arith, b.high);
        moves = λ h. omega (arith, b.low);
        least = elim b.least [ inl e ↦ inl (omega (arith, e)) | inr t ↦ inr t ];
        largest = omega (arith, b.largest, boundary_no_max c (o + 1) go_on);
      })
]
