-- ===== src/Config/Storage.antt =====
-- A validated storage configuration is one that the chunkers can work with.
use fluidfs.Prelude.{
  ℕ, ◌+◌, ◌≤◌, ◌<◌, ◌≡◌, ◌⊎◌, inl, inr, refl, ap, ◌∙◌, subst, true, false, List, [], ◌∷◌, none,
  some, String, str_eq, str_eq_iff, Option-cases, ◌≢◌, arith, map, length, concat, All,
}
use fluidfs.Prelude.Slices.{Bytes}
use fluidfs.Prelude.Int.{ℤ, pos, ltb_ℤ, int_limit, to_u64}
use fluidfs.Utils.{list_contains}
use fluidfs.Config.{
  Strings, StorageConfig, storage_check, valid, chunking_method_names, hashing_algorithm_names,
}
use fluidfs.Chunk.{Hash, Algorithms, create_hasher, Blob, finished, drain}
use fluidfs.Chunk.Fixed
use fluidfs.Chunk.Fixed.Run as FixedRun
use fluidfs.Chunk.RabinKarp
use fluidfs.Chunk.RabinKarp.Run as RabinKarpRun
use fluidfs.Chunk.Factory.{
  Chunker, fixed_length, rabin_karp, made, new_chunker, configured, chunker_reset, chunker_next,
  chunker_chunk, drain-fixed_length, drain-rabin_karp, behind,
}

-- What the checks of `StorageConfig.Validate` leave.
pub record IsChecked (c : StorageConfig) : Type 0 where
  pub chunking : list_contains c.chunking chunking_method_names ≡ true
  pub hashing : list_contains c.hashing hashing_algorithm_names ≡ true
  pub positive : ltb_ℤ c.block_size (pos 1) ≡ false
  pub below_max : ltb_ℤ c.max_block_size c.block_size ≡ false
  pub above_min : ltb_ℤ c.block_size c.min_block_size ≡ false

pub storage_check-IsChecked :
    (strings : Strings) (conf : StorageConfig)
    → (storage_check strings conf).1 ≡ valid
    → IsChecked (storage_check strings conf).0
unfolding storage_check
storage_check-IsChecked strings conf h = ground arith

method_cases :
    (name : String)
    → list_contains name chunking_method_names ≡ true
    → (str_eq name "fixed" ≡ true)
      ⊎ ((str_eq name "fixed" ≡ false) × (str_eq name "variable" ≡ true))
unfolding list_contains
method_cases name h = ground (
  arith,
  str_eq_iff "variable" name,
  str_eq_iff name "variable",
  str_eq_iff "fixed" name,
  str_eq_iff name "fixed",
)

create_hasher-ne-none :
    (a : Algorithms) (name : String)
    → list_contains name hashing_algorithm_names ≡ true
    → create_hasher a name ≢ none
unfolding list_contains create_hasher
create_hasher-ne-none a name h = ground (
  arith,
  str_eq_iff "md5" name,
  str_eq_iff name "md5",
  str_eq_iff "sha1" name,
  str_eq_iff name "sha1",
  str_eq_iff "sha224" name,
  str_eq_iff name "sha224",
  str_eq_iff "sha256" name,
  str_eq_iff name "sha256",
  str_eq_iff "murmur" name,
  str_eq_iff name "murmur",
)

hasher_found :
    (a : Algorithms) (name : String)
    → list_contains name hashing_algorithm_names ≡ true
    → (h : Hash) × (create_hasher a name ≡ some h)
hasher_found a name h = elim (Option-cases (create_hasher a name)) [
  | inl e ↦ absurd (create_hasher-ne-none a name h e)
  | inr f ↦ f
]

-- The sizes of a checked configuration are in order.
sizes_in_order :
    (c : StorageConfig) (b m x : ℕ)
    → IsChecked c
    → c.block_size ≡ pos b
    → c.min_block_size ≡ pos m
    → c.max_block_size ≡ pos x
    → (0 < b) × (m ≤ b) × (b ≤ x)
sizes_in_order c b m x k eb em ex =
    (ground (arith, k.positive), ground (arith, k.above_min), ground (arith, k.below_max))

-- That a chunker yields blobs that hold the data.
abbrev pub Covers : Bytes → ℕ → Chunker → Type 0
Covers s fuel ch =
    (blobs : List Blob) × (drain chunker_next chunker_chunk fuel ch ≡ finished blobs ch)
    × (concat (map (λ b. b.contents) blobs) ≡ s)

map-blob_of :
    (h : Hash) (parts : List Bytes) → map (λ b. b.contents) (map (FixedRun.blob_of h) parts) ≡ parts
map-blob_of h [] = refl
map-blob_of h (p ∷ parts) = ap (λ t. p ∷ t) (map-blob_of h parts)

module _ (h : Hash) (s : Bytes) (c : StorageConfig) (b m x : ℕ) (k : IsChecked c)
    (eb : c.block_size ≡ pos b) (em : c.min_block_size ≡ pos m) (ex : c.max_block_size ≡ pos x)
    (fuel : ℕ) (enough : length s + 1 < fuel) (fits : length s + x + x + 32 < int_limit) where
  fixed-Covers :
      0 < m
      → m ≤ length s
      → Covers s fuel (fixed_length (Fixed.reset (FixedRun.over h s b m (pos 0))))
  fixed-Covers pos_m least =
      let (pos_b, m_le, b_le) = sizes_in_order c b m x k eb em ex in
      let (parts, runs, spells, sizes) =
        FixedRun.drain-reset_fixed h s b m pos_m m_le (omega arith) fuel (pos 0) least enough in
      (
        map (FixedRun.blob_of h) parts,
        drain-fixed_length fuel (Fixed.reset (FixedRun.over h s b m (pos 0)))
            ∙ ap (behind fixed_length) runs,
        ap concat (map-blob_of h parts) ∙ spells,
      )

  sized : (z : ℤ) (n l : ℕ) → z ≡ pos n → l ≤ n → n < int_limit → l ≤ to_u64 z
  unfolding to_u64
  sized z n l e p q = rw e (omega arith)

  in_order :
      (y z : ℤ) (n l : ℕ) → y ≡ pos n → z ≡ pos l → n ≤ l → l < int_limit → to_u64 y ≤ to_u64 z
  unfolding to_u64
  in_order y z n l ey ez p q = rw (ey, ez) (omega arith)

  params : RabinKarpRun.Params
  params = record {
    hash = h;
    w = 31;
    bytes = 31;
    block_size = to_u64 c.block_size;
    min_block_size = to_u64 c.min_block_size;
    max_block_size = to_u64 c.max_block_size;
  }

  variable-Covers :
      All (λ y. y < 256) s
      → 0 < length s
      → Covers s fuel (rabin_karp (RabinKarp.reset (RabinKarpRun.over params s 0 0)))
  unfolding params
  variable-Covers are_bytes some_data =
      let (pos_b, m_le, b_le) = sizes_in_order c b m x k eb em ex in
      let (parts, runs, spells, cuts) =
        RabinKarpRun.drain-reset params s are_bytes (omega arith)
          (sized c.block_size b 1 eb pos_b (omega arith))
          (in_order c.min_block_size c.max_block_size m x em ex (omega arith) (omega arith)) fuel 0
          0 some_data enough in
      (
        map (FixedRun.blob_of h) parts,
        drain-rabin_karp fuel (RabinKarp.reset (RabinKarpRun.over params s 0 0))
            ∙ ap (behind rabin_karp) runs,
        ap concat (map-blob_of h parts) ∙ spells,
      )

  fixed_made :
      (a : Algorithms)
      → str_eq c.chunking "fixed" ≡ true
      → create_hasher a c.hashing ≡ some h
      → new_chunker a s c ≡ made (fixed_length (Fixed.reset (FixedRun.over h s b m (pos 0))))
  unfolding new_chunker chunker_reset
  fixed_made a e f = rw (new_chunker, configured, e, f, eb, em)

  fresh :
      RabinKarp.reset (record {
        signer = record { hasher = some h };
        contents = s;
        hash_len = 32;
        bytes = 31;
        index = 0;
        offset = 0;
        block_size = to_u64 c.block_size;
        min_block_size = to_u64 c.min_block_size;
        max_block_size = to_u64 c.max_block_size;
        saved = none;
      })
      ≡ RabinKarp.reset (RabinKarpRun.over params s 0 0)
  unfolding RabinKarp.reset params
  fresh = refl

  variable_made :
      (a : Algorithms)
      → str_eq c.chunking "fixed" ≡ false
      → str_eq c.chunking "variable" ≡ true
      → create_hasher a c.hashing ≡ some h
      → new_chunker a s c ≡ made (rabin_karp (RabinKarp.reset (RabinKarpRun.over params s 0 0)))
  unfolding new_chunker chunker_reset params
  variable_made a e g f =
      rw (new_chunker, configured, e, g, f) (ap (λ t. made (rabin_karp t)) fresh)

-- With a storage configuration that passed its checks, `NewChunker` fails on no data, and the loop over
-- the chunker that it makes ends and yields blobs that together hold exactly the data, whichever the
-- method. The smallest block size is at least 1, the data is bytes and has at least that size, and
-- the data and two largest blocks fit into an `int`. As many rounds as there are bytes, and two, are
-- enough.
pub checked-Covers :
    (a : Algorithms) (strings : Strings) (conf c : StorageConfig) (s : Bytes) (b m x fuel : ℕ)
    → storage_check strings conf ≡ (c, valid)
    → c.block_size ≡ pos b
    → c.min_block_size ≡ pos m
    → c.max_block_size ≡ pos x
    → 0 < m
    → m ≤ length s
    → All (λ y. y < 256) s
    → length s + x + x + 32 < int_limit
    → length s + 1 < fuel
    → (ch : Chunker) × (new_chunker a s c ≡ made ch) × Covers s fuel ch
checked-Covers a strings conf c s b m x fuel e eb em ex pos_m least are_bytes fits enough =
    let k : IsChecked c =
      subst (λ r. IsChecked r.0) e (storage_check-IsChecked strings conf (ap (λ r. r.1) e)) in
    let (h, found) = hasher_found a c.hashing k.hashing in
    elim (method_cases c.chunking k.chunking) [
      | inl fixed ↦ (
        fixed_length (Fixed.reset (FixedRun.over h s b m (pos 0))),
        fixed_made h s c b m x k eb em ex fuel enough fits a fixed found,
        fixed-Covers h s c b m x k eb em ex fuel enough fits pos_m least,
      )
      | inr (other, variable) ↦ (
        rabin_karp (
            RabinKarp.reset
              (RabinKarpRun.over (params h s c b m x k eb em ex fuel enough fits) s 0 0)),
        variable_made h s c b m x k eb em ex fuel enough fits a other variable found,
        variable-Covers h s c b m x k eb em ex fuel enough fits are_bytes (omega arith),
      )
    ]
