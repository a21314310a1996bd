-- ===== src/Chunk/Drain.antt =====
-- One round of the loop over a chunker.
use fluidfs.Prelude.{ℕ, suc, ◌≡◌, Bool, true, false, [], ◌∷◌, List, Option, some, ap, ◌∙◌}
use fluidfs.Chunk.{Blob, finished, push, round, drain}

module _ {S : Type 0} (next : S → Option (S × Bool)) (chunk : S → Option Blob) where
  pub drain_done :
      (fuel : ℕ) (s s' : S)
      → next s ≡ some (s', false)
      → drain next chunk (suc fuel) s ≡ finished [] s'
  unfolding drain
  drain_done fuel s s' e = ap (round chunk (drain next chunk fuel)) e

  pub drain_more :
      (fuel : ℕ) (s s' : S) (b : Blob)
      → next s ≡ some (s', true)
      → chunk s' ≡ some b
      → drain next chunk (suc fuel) s ≡ push b (drain next chunk fuel s')
  unfolding drain
  drain_more fuel s s' b e k = ap (round chunk (drain next chunk fuel)) e ∙ rw (k, round)

  -- A round that yields a blob, before a run that ends.
  pub drain_cons :
      (fuel : ℕ) (s s' t : S) (b : Blob) (bs : List Blob)
      → next s ≡ some (s', true)
      → chunk s' ≡ some b
      → drain next chunk fuel s' ≡ finished bs t
      → drain next chunk (suc fuel) s ≡ finished (b ∷ bs) t
  unfolding push
  drain_cons fuel s s' t b bs e k r = rw (drain_more fuel s s' b e k, r)
