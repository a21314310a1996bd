-- ===== src/Chunk/Factory.antt =====
-- `NewChunker` of fluid/chunk.go, and the interface `Chunker` by its two implementations.
use fluidfs.Prelude.{
  ℕ, zero, suc, ◌≡◌, refl, ap, ◌∙◌, Bool, true, false, Option, none, some, String, str_eq,
  if◌then◌else◌,
}
use fluidfs.Prelude.Slices.{Bytes}
use fluidfs.Prelude.Int.{pos, to_u64}
use fluidfs.Chunk.{
  Hash, Algorithms, create_hasher, set_hasher, Blob, Run, finished, panicked, out_of_fuel, push,
  round, drain,
}
use fluidfs.Chunk.Fixed
use fluidfs.Chunk.Fixed.{FixedLengthChunker}
use fluidfs.Chunk.RabinKarp
use fluidfs.Chunk.RabinKarp.{RabinKarpChunker}
use fluidfs.Config.{StorageConfig}

pub data Chunker : Type 0 where
  fixed_length : FixedLengthChunker → Chunker
  rabin_karp : RabinKarpChunker → Chunker

abbrev pub rk_hash_length : ℕ
rk_hash_length = 32

abbrev pub rk_prime : ℕ
rk_prime = 31

-- The calls through the interface.
unfoldable pub chunker_set_hasher : Hash → Chunker → Chunker
unfolding set_hasher
chunker_set_hasher h (fixed_length c) = fixed_length (record c { signer = set_hasher h c.signer })
chunker_set_hasher h (rabin_karp c) = rabin_karp (record c { signer = set_hasher h c.signer })

unfoldable pub chunker_reset : Chunker → Chunker
chunker_reset (fixed_length c) = fixed_length (Fixed.reset c)
chunker_reset (rabin_karp c) = rabin_karp (RabinKarp.reset c)

-- The result of a call of `Next` on an implementation, as one of the interface.
unfoldable pub lift {ℓ} : {S : Type ℓ} → (S → Chunker) → Option (S × Bool) → Option (Chunker × Bool)
lift f none = none
lift f (some (s, more)) = some (f s, more)

unfoldable pub chunker_next : Chunker → Option (Chunker × Bool)
unfolding lift
chunker_next (fixed_length c) = lift fixed_length (Fixed.advance c)
chunker_next (rabin_karp c) = lift rabin_karp (RabinKarp.next c)

unfoldable pub chunker_chunk : Chunker → Option Blob
chunker_chunk (fixed_length c) = Fixed.chunk c
chunker_chunk (rabin_karp c) = RabinKarp.chunk c

-- The chunker, or one of the errors: the last is that of a missing configuration.
pub data NewChunker : Type 0 where
  made : Chunker → NewChunker
  unknown_chunking : String → NewChunker
  unknown_hashing : String → NewChunker
  not_initialized : NewChunker

-- The chunker before its hasher is set.
unfoldable pub configured : Bytes → StorageConfig → Option Chunker
configured contents config =
    if str_eq config.chunking "fixed"
    then some (
        fixed_length (record {
          signer = record { hasher = none };
          contents = contents;
          block_index = pos 0;
          block_size = config.block_size;
          min_block_size = config.min_block_size;
        }))
    else if str_eq config.chunking "variable"
    then some (
        rabin_karp (record {
          signer = record { hasher = none };
          contents = contents;
          hash_len = rk_hash_length;
          bytes = rk_prime;
          index = 0;
          offset = 0;
          block_size = to_u64 config.block_size;
          min_block_size = to_u64 config.min_block_size;
          max_block_size = to_u64 config.max_block_size;
          saved = none;
        }))
    else none

unfoldable pub new_chunker : Algorithms → Bytes → StorageConfig → NewChunker
unfolding configured chunker_set_hasher
new_chunker a contents config = elim (configured contents config) [
  | none ↦ unknown_chunking config.chunking
  | some chunker ↦ elim (create_hasher a config.hashing) [
    | none ↦ unknown_hashing config.hashing
    | some hasher ↦ made (chunker_reset (chunker_set_hasher hasher chunker))
  ]
]

-- With the global configuration, if there is one.
unfoldable pub new_default_chunker : Algorithms → Option StorageConfig → Bytes → NewChunker
unfolding new_chunker
new_default_chunker a storage contents = elim storage [
  | none ↦ not_initialized
  | some config ↦ new_chunker a contents config
]

-- The same run, with its last state behind the interface.
abbrev pub behind : {S : Type 0} → (S → Chunker) → Run S → Run Chunker
behind f (finished bs s) = finished bs (f s)
behind f panicked = panicked
behind f out_of_fuel = out_of_fuel

-- A chunker whose calls through the interface are those of an implementation.
module _ {S : Type 0} (f : S → Chunker) (next : S → Option (S × Bool)) (chunk : S → Option Blob)
    (next_is : (s : S) → chunker_next (f s) ≡ lift f (next s))
    (chunk_is : (s : S) → chunker_chunk (f s) ≡ chunk s) where
  behind-push : (b : Blob) (r : Run S) → push b (behind f r) ≡ behind f (push b r)
  unfolding push
  behind-push b (finished bs s) = refl
  behind-push b panicked = refl
  behind-push b out_of_fuel = refl

  behind-round :
      (rest : S → Run S) (rest' : Chunker → Run Chunker)
      → ((s : S) → rest' (f s) ≡ behind f (rest s))
      → (o : Option (S × Bool))
      → round chunker_chunk rest' (lift f o) ≡ behind f (round chunk rest o)
  unfolding round lift
  behind-round rest rest' h none = refl
  behind-round rest rest' h (some (s, false)) = refl
  behind-round rest rest' h (some (s, true)) = ap after (chunk_is s) ∙ go (chunk s)
    where
      after : Option Blob → Run Chunker
      after o = elim o [ none ↦ panicked | some b ↦ push b (rest' (f s)) ]

      go :
          (o : Option Blob)
          → after o ≡ behind f (elim o [ none ↦ panicked | some b ↦ push b (rest s) ])
      go none = refl
      go (some b) = ap (push b) (h s) ∙ behind-push b (rest s)

  -- The loop through the interface is the loop over the implementation.
  pub drain-behind :
      (fuel : ℕ) (s : S)
      → drain chunker_next chunker_chunk fuel (f s) ≡ behind f (drain next chunk fuel s)
  unfolding drain
  drain-behind zero s = refl
  drain-behind (suc fuel) s =
      ap (round chunker_chunk (drain chunker_next chunker_chunk fuel)) (next_is s)
      ∙ behind-round (drain next chunk fuel) (drain chunker_next chunker_chunk fuel)
          (drain-behind fuel) (next s)

pub drain-fixed_length :
    (fuel : ℕ) (c : FixedLengthChunker)
    → drain chunker_next chunker_chunk fuel (fixed_length c)
      ≡ behind fixed_length (drain Fixed.advance Fixed.chunk fuel c)
unfolding chunker_next chunker_chunk
drain-fixed_length = drain-behind fixed_length Fixed.advance Fixed.chunk (λ s. refl) (λ s. refl)

pub drain-rabin_karp :
    (fuel : ℕ) (c : RabinKarpChunker)
    → drain chunker_next chunker_chunk fuel (rabin_karp c)
      ≡ behind rabin_karp (drain RabinKarp.next RabinKarp.chunk fuel c)
unfolding chunker_next chunker_chunk
drain-rabin_karp = drain-behind rabin_karp RabinKarp.next RabinKarp.chunk (λ s. refl) (λ s. refl)
