-- ===== src/Tests/Chunks.antt =====
-- Concrete data for fluid/chunk.go.
use fluidfs.Prelude.{
  ◌<◌, ◌≡◌, refl, [], ◌∷◌, List, some, map, arith, concat, All, String, str_eq, false,
}
use fluidfs.Prelude.Slices.{Bytes}
use fluidfs.Prelude.Int.{pos}
use fluidfs.Utils.{list_contains}
use fluidfs.Config.Defaults.{Machine, default_database, database_defaults}
use fluidfs.Config.{Strings, StorageConfig, storage_check, valid, regularize}
use fluidfs.Chunk.{Hash, Algorithms, finished, out_of_fuel, drain}
use fluidfs.Chunk.Fixed
use fluidfs.Chunk.Fixed.Run as FixedRun
use fluidfs.Chunk.RabinKarp
use fluidfs.Chunk.RabinKarp.Offset.{block_length, next_offset-block_length}
use fluidfs.Chunk.RabinKarp.Run as RabinKarpRun
use fluidfs.Chunk.Factory.{Chunker, new_chunker, made}
use fluidfs.Config.Storage.{Covers, checked-Covers}

abbrev plain_hash : Hash
plain_hash s = s

abbrev five_bytes : Bytes
five_bytes = 11 ∷ 22 ∷ 33 ∷ 44 ∷ 55 ∷ []

five_bytes_small : All (λ x. x < 256) five_bytes
five_bytes_small = (omega arith, (omega arith, (omega arith, (omega arith, (omega arith, tt)))))

drain-reset_fixed_example :
    (parts : List Bytes) × (drain Fixed.advance Fixed.chunk 7
        (Fixed.reset (FixedRun.over plain_hash five_bytes 2 1 (pos 0)))
      ≡ finished
          (map (FixedRun.blob_of plain_hash) parts)
          (Fixed.reset (FixedRun.over plain_hash five_bytes 2 1 (pos 0))))
    × (concat parts ≡ five_bytes)
    × FixedRun.FixedSizes 2 1 parts
drain-reset_fixed_example =
    FixedRun.drain-reset_fixed plain_hash five_bytes 2 1 (omega arith) (omega arith) (omega arith) 7
      (pos 0) (omega arith) (omega arith)

drain_short_example :
    drain Fixed.advance Fixed.chunk 8
      (Fixed.reset (FixedRun.over plain_hash five_bytes 8 6 (pos 0)))
    ≡ finished [] (Fixed.reset (FixedRun.over plain_hash five_bytes 8 6 (pos 0)))
drain_short_example =
    FixedRun.drain_short plain_hash five_bytes 8 6 (omega arith) (omega arith) (omega arith) 7
      (pos 0) (omega arith)

abbrev small_params : RabinKarpRun.Params
small_params = record {
  hash = plain_hash;
  w = 1;
  bytes = 31;
  block_size = 3;
  min_block_size = 2;
  max_block_size = 4;
}

drain-reset_example :
    (parts : List Bytes) × (drain RabinKarp.next RabinKarp.chunk 7
        (RabinKarp.reset (RabinKarpRun.over small_params five_bytes 0 0))
      ≡ finished
          (map (FixedRun.blob_of plain_hash) parts)
          (RabinKarp.reset (RabinKarpRun.over small_params five_bytes 0 0)))
    × (concat parts ≡ five_bytes)
    × RabinKarpRun.CutParts small_params five_bytes 0 parts
drain-reset_example =
    RabinKarpRun.drain-reset small_params five_bytes five_bytes_small (omega arith) (omega arith)
      (omega arith) 7 0 0 (omega arith) (omega arith)

drain_empty_example :
    drain RabinKarp.next RabinKarp.chunk 5 (RabinKarp.reset (RabinKarpRun.over small_params [] 0 0))
    ≡ out_of_fuel
drain_empty_example =
    RabinKarpRun.drain_empty small_params 5 0 0 (omega arith) (omega arith) (omega arith)

next_offset-block_length_example :
    RabinKarp.next_offset (RabinKarpRun.over small_params five_bytes 1 0)
    ≡ some (block_length (RabinKarpRun.over small_params five_bytes 1 0))
next_offset-block_length_example =
    next_offset-block_length 1 (RabinKarpRun.over small_params five_bytes 1 0) (record {
      hash_len = refl;
      saved = refl;
      are_bytes = five_bytes_small;
      index = omega arith;
      fits = omega arith;
      block_size = omega arith;
    })

abbrev five_algorithms : Algorithms
five_algorithms = record {
  md5 = plain_hash;
  sha1 = plain_hash;
  sha224 = plain_hash;
  sha256 = plain_hash;
  murmur = plain_hash;
}

abbrev same_strings : Strings
same_strings = record { trim_space = λ s. s; to_lower = λ s. s }

abbrev variable_storage : StorageConfig
variable_storage = record {
  path = "/blobs";
  chunking = "variable";
  block_size = pos 3;
  min_block_size = pos 2;
  max_block_size = pos 4;
  hashing = "sha256";
}

variable_storage_valid : storage_check same_strings variable_storage ≡ (variable_storage, valid)
unfolding storage_check list_contains regularize
variable_storage_valid = refl

checked-Covers_example :
    (ch : Chunker) × (new_chunker five_algorithms five_bytes variable_storage ≡ made ch)
    × Covers five_bytes 7 ch
checked-Covers_example =
    checked-Covers five_algorithms same_strings variable_storage variable_storage five_bytes 3 2 4 7
      variable_storage_valid refl refl refl (omega arith) (omega arith) five_bytes_small
      (omega arith) (omega arith)

abbrev home_machine : Machine
home_machine = record {
  hostname = some "alpha";
  home = some "/home/alpha";
  join = λ parts. "/joined";
}

kept_name : (name : String) → regularize same_strings name ≡ name
unfolding regularize
kept_name name = refl

default_path : str_eq (default_database home_machine).path "" ≡ false
unfolding database_defaults
default_path = refl
