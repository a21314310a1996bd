-- ===== src/Utils.antt =====
-- fluid/utils.go: helpers on strings, on lists of strings and on unsigned numbers.
-- A string is the list of its runes; `utf8_length` is Go's `len` of such a string.
pub mod Numeric
pub mod Stride
use fluidfs.Prelude.{
  ℕ, zero, suc, ◌+◌, ◌/◌, ◌%◌, Bool, true, false, List, [], ◌∷◌, ◌++◌, Option, none, some, String,
  str_eq, ltb, ◌==◌, if◌then◌else◌, length,
}
use fluidfs.Prelude.Slices.{segment}

-- fluid/fuse.go
abbrev pub min_block_size : ℕ
min_block_size = 512

-- A `uint64`, which the division and the test read as a number.
unfoldable pub blocks : ℕ → ℕ
blocks value =
    if value == 0
    then 0
    else if ltb 0 (value % min_block_size)
    then value / min_block_size + 1
    else value / min_block_size

max_loop : ℕ → List ℕ → ℕ
max_loop max [] = max
max_loop max (val ∷ values) = max_loop (if ltb max val then val else max) values

unfoldable pub max_uint64 : List ℕ → ℕ
unfolding max_loop
max_uint64 values = max_loop 0 values

unfoldable pub list_contains : String → List String → Bool
list_contains value [] = false
list_contains value (elem ∷ list) = if str_eq elem value then true else list_contains value list

abbrev pub Runes : Type 0
Runes = List ℕ

-- The bytes of a rune's encoding.
unfoldable pub rune_length : ℕ → ℕ
rune_length r = if ltb r 0x80 then 1 else if ltb r 0x800 then 2 else if ltb r 0x1_0000 then 3 else 4

unfoldable pub utf8_length : Runes → ℕ
unfolding rune_length
utf8_length [] = 0
utf8_length (r ∷ s) = rune_length r + utf8_length s

-- `for i := 0; i < len(a); i = i + n`: each round moves `i` on by `n`, which is positive, so no more
-- rounds are made than there are runes.
stride_loop : ℕ → Runes → ℕ → ℕ → List Runes → List Runes
stride_loop zero a n i o = o
stride_loop (suc rounds) a n i o =
    let j = if ltb (length a) (i + n) then length a else i + n in
    let rest = stride_loop rounds a n (i + n) (o ++ segment i j a ∷ []) in
    if ltb i (length a) then rest else o

-- `none` is the panic of the division by zero.
unfoldable pub stride : Runes → ℕ → Option (List Runes)
unfolding stride_loop
stride s zero = none
stride s n = some (stride_loop (length s) s n 0 [])

-- `o[:len(o)-1]`, or `o`, by its last element; `none` is the panic of `o[len(o)-1]` where `o` is empty.
drop_short_last : ℕ → List Runes → Option (List Runes)
unfolding utf8_length
drop_short_last n [] = none
drop_short_last n (p ∷ []) = if ltb (utf8_length p) n then some [] else some (p ∷ [])
drop_short_last n (p ∷ q ∷ o) = elim (drop_short_last n (q ∷ o)) [
  | none ↦ none
  | some o' ↦ some (p ∷ o')
]

unfoldable pub stride_fixed : Runes → ℕ → Option (List Runes)
unfolding stride drop_short_last
stride_fixed s n = elim (stride s n) [ none ↦ none | some o ↦ drop_short_last n o ]
