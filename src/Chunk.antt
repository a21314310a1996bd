-- ===== src/Chunk.antt =====
-- fluid/chunk.go: splitting data into blobs. This module has what both chunkers share: the hashing
-- algorithms, the signatures, the blobs and the loop over a chunker; the children have the chunkers.
pub mod Drain
pub mod Fixed
pub mod RabinKarp
pub mod Factory
pub mod Blobs
use fluidfs.Prelude.{
  ℕ, zero, suc, ◌+◌, ◌-◌, ◌*◌, ◌/◌, ◌%◌, Bool, true, false, List, [], ◌∷◌, Option, none, some,
  String, str_eq, ltb, ◌==◌, if◌then◌else◌, length,
}
use fluidfs.Prelude.Slices.{Bytes}
use fluidfs.Prelude.Text.Base64.{encode_to_string}

-- `hash.Hash` as the chunkers use it: the sum of the bytes that were written to a new hash.
abbrev pub Hash : Type 0
Hash = Bytes → Bytes

-- The hashing packages that `CreateHasher` chooses from; their code is not in the repository.
pub record Algorithms : Type 0 where
  pub md5 : Hash
  pub sha1 : Hash
  pub sha224 : Hash
  pub sha256 : Hash
  pub murmur : Hash

-- `none` is the error `unknown hashing algorithm`.
unfoldable pub create_hasher : Algorithms → String → Option Hash
create_hasher a name =
    if str_eq name "md5"
    then some a.md5
    else if str_eq name "sha1"
    then some a.sha1
    else if str_eq name "sha224"
    then some a.sha224
    else if str_eq name "sha256"
    then some a.sha256
    else if str_eq name "murmur"
    then some a.murmur
    else none

-- The hasher is nil until it is set.
pub record SignedChunker : Type 0 where
  pub hasher : Option Hash

pub set_hasher : Hash → SignedChunker → SignedChunker
set_hasher hash c = record c { hasher = some hash }

-- `none` is the panic of a call of a nil hasher.
unfoldable pub signature : SignedChunker → Bytes → Option Bytes
unfolding encode_to_string
signature c contents = elim c.hasher [
  | none ↦ none
  | some hash ↦ some (encode_to_string (hash contents))
]

-- The field `size` is an `int` that is 0 as long as it is not cached.
pub record Blob : Type 0 where
  pub contents : Bytes
  pub size : ℕ
  pub hash : Bytes
  pub path : Bytes

-- The blob as the call leaves it, and the size.
unfoldable pub size : Blob → Blob × ℕ
size b =
    if b.size == 0 then (record b { size = length b.contents }, length b.contents) else (b, b.size)

unfoldable pub make_blob : Algorithms → Bytes → String → Option Blob
unfolding create_hasher set_hasher signature
make_blob a contents hash = elim (create_hasher a hash) [
  | none ↦ none
  | some hasher ↦ elim (signature (set_hasher hasher (record { hasher = none })) contents) [
    | none ↦ none
    | some s ↦ some (record { contents = contents; size = 0; hash = s; path = [] })
  ]
]

-- `for chunker.Next() { chunk := chunker.Chunk() }`
pub data Run (S : Type 0) : Type 0 where
  finished : List Blob → S → Run S
  panicked : Run S
  out_of_fuel : Run S

unfoldable pub push : {S : Type 0} → Blob → Run S → Run S
push b (finished bs s) = finished (b ∷ bs) s
push b panicked = panicked
push b out_of_fuel = out_of_fuel

-- The rest of a round, by what `Next` returned and left; `none` is a panic.
unfoldable pub round : {S : Type 0} → (S → Option Blob) → (S → Run S) → Option (S × Bool) → Run S
unfolding push
round chunk rest none = panicked
round chunk rest (some (s, false)) = finished [] s
round chunk rest (some (s, true)) = elim (chunk s) [ none ↦ panicked | some b ↦ push b (rest s) ]

module _ {S : Type 0} (next : S → Option (S × Bool)) (chunk : S → Option Blob) where
  unfoldable pub drain : ℕ → S → Run S
  unfolding round
  drain zero s = out_of_fuel
  drain (suc fuel) s = round chunk (drain fuel) (next s)
