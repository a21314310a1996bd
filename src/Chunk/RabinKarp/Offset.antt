-- ===== src/Chunk/RabinKarp/Offset.antt =====
-- `Offset` of the Rabin-Karp chunker against its reference: the first place where the hash of the
-- window before it, computed anew, or the largest size asks for a cut.
use fluidfs.Prelude.{
  ℕ, zero, suc, ◌+◌, ◌-◌, ◌*◌, ◌%◌, ◌^◌, ◌≤◌, ◌<◌, ◌≡◌, refl, sym, ap, ap₂, ◌∙◌, Bool, ◌&&◌, ◌||◌,
  [], ◌∷◌, some, arith, min, ltb, leb, ◌==◌, if◌then◌else◌, Bool-cases, inl, inr, ltb→lt, leb→le,
  length, get_elem?, All,
}
use fluidfs.Prelude.Slices.{Bytes}
use fluidfs.Prelude.Int.{u64_mod, int_limit, add_u64, sub_u64, mul_u64}
use fluidfs.Chunk.RabinKarp.{
  RabinKarpChunker, saved_at, warm, cuts, slide, roll, next_offset, mul_loop, saved_table,
}
use fluidfs.Chunk.RabinKarp.Hash.{
  byte_at, window, window_first, mul_mod_right, mul-mod-add, sub_mod_part, mul_loop-pow,
  get_elem?-saved_table,
}

-- A chunker as `NewChunker` leaves it, in a loop: its table is filled, its window has `w + 1` bytes,
-- its data is bytes, its index is not past the data, and its sizes are in range.
pub record IsReady (w : ℕ) (c : RabinKarpChunker) : Type 0 where
  pub hash_len : c.hash_len ≡ suc w
  pub saved : c.saved ≡ some (saved_table 256 0 (mul_loop w c.bytes 1))
  pub are_bytes : All (λ x. x < 256) c.contents
  pub index : c.index ≤ length c.contents
  pub fits : length c.contents + suc w < int_limit
  pub block_size : 0 < c.block_size

-- Whether a block may end `o` bytes behind the index: the hash of the window before that place has
-- remainder 1, and the block is not too small; or it has reached the largest size.
abbrev pub boundary : RabinKarpChunker → ℕ → Bool
boundary c o =
    let hash = window c.bytes c.contents (c.index + o - c.hash_len) c.hash_len % u64_mod in
    (leb c.min_block_size o && hash % c.block_size == 1) || leb c.max_block_size o

-- The first boundary after `o`, or the end of the data, `rounds` bytes further.
unfoldable pub first_cut : RabinKarpChunker → ℕ → ℕ → ℕ
first_cut c zero o = o
first_cut c (suc rounds) o =
    let rest = first_cut c rounds (o + 1) in if boundary c (o + 1) then o + 1 else rest

-- The length of the block at the index: what is left, if the window does not fit in, or up to the
-- first boundary behind the window.
unfoldable pub block_length : RabinKarpChunker → ℕ
unfolding first_cut
block_length c =
    let left = length c.contents - c.index in
    if leb left c.hash_len then left else first_cut c (left - c.hash_len) c.hash_len

get_elem?-byte_at : (s : Bytes) (k : ℕ) → k < length s → get_elem? s k ≡ some (byte_at s k)
get_elem?-byte_at [] k h = absurd (omega arith)
get_elem?-byte_at (x ∷ s) zero h = refl
get_elem?-byte_at (x ∷ s) (suc k) h = get_elem?-byte_at s k (omega arith)

byte_at-lt : (s : Bytes) (k : ℕ) → All (λ x. x < 256) s → byte_at s k < 256
byte_at-lt [] k h = omega arith
byte_at-lt (x ∷ s) zero h = h.0
byte_at-lt (x ∷ s) (suc k) h = byte_at-lt s k h.1

module _ (w : ℕ) (c : RabinKarpChunker) (r : IsReady w c) where
  abbrev hash_at : ℕ → ℕ → ℕ
  hash_at start n = window c.bytes c.contents start n % u64_mod

  read_at :
      (k e : ℕ)
      → k ≡ e
      → e < length c.contents
      → get_elem? c.contents k ≡ some (byte_at c.contents e)
  read_at k e p h = ap (get_elem? c.contents) p ∙ get_elem?-byte_at c.contents e h

  add_hash :
      (start n : ℕ)
      → add_u64 (mul_u64 (hash_at start n) c.bytes) (byte_at c.contents (start + n))
        ≡ hash_at start (suc n)
  unfolding window
  add_hash start n =
      mul-mod-add (window c.bytes c.contents start n) c.bytes (byte_at c.contents (start + n))

  one_more : (o : ℕ) → o ≤ length c.contents + suc w → add_u64 o 1 ≡ suc o
  one_more o h = omega arith

  warm_lem :
      (rounds offset e : ℕ)
      → c.index + (offset + rounds) ≡ length c.contents
      → offset ≤ suc w
      → e ≡ min (offset + rounds) (suc w)
      → warm c rounds offset (hash_at c.index offset) ≡ some (e, hash_at c.index e)
  unfolding warm
  warm_lem zero offset e p q m =
      let same : offset ≡ e = omega arith in ap (λ t. some (t, hash_at c.index t)) same
  warm_lem (suc rounds) offset e p q m = elim (Bool-cases (ltb offset c.hash_len)) [
    | inl inside ↦
        let small : offset < suc w = omega (arith, ltb→lt offset c.hash_len inside, r.hash_len) in
        rw
          (
            inside,
            warm,
            read_at (add_u64 c.index offset) (c.index + offset) (omega arith) (omega arith),
          )
          (ap
              (λ o. warm c rounds o (
                add_u64 (mul_u64 (hash_at c.index offset) c.bytes)
                  (byte_at c.contents (c.index + offset))))
              (one_more offset (omega arith))
            ∙ ap (warm c rounds (suc offset)) (add_hash c.index offset)
            ∙ warm_lem rounds (suc offset) e (omega arith) (omega arith) (omega arith))
    | inr outside ↦
        let full : offset ≡ e = ground (arith, r.hash_len) in
        rw (outside, warm) (ap (λ t. some (t, hash_at c.index t)) full)
  ]

  saved_lem :
      (start : ℕ)
      → saved_at c (byte_at c.contents start)
        ≡ some (byte_at c.contents start * c.bytes ^ w % u64_mod)
  unfolding saved_at
  saved_lem start =
      let b = byte_at c.contents start in
      rw r.saved (
        get_elem?-saved_table 256 0 b (mul_loop w c.bytes 1)
          (byte_at-lt c.contents start r.are_bytes)
        ∙ ap some (
            ap (λ t. mul_u64 (0 + b) t) (mul_loop-pow w c.bytes 1)
            ∙ mul_mod_right (0 + b) (1 * c.bytes ^ w)
            ∙ ap (λ t. t % u64_mod) (omega arith)))

  gone_lem :
      (start : ℕ)
      → sub_u64 (hash_at start (suc w)) (byte_at c.contents start * c.bytes ^ w % u64_mod)
        ≡ hash_at (suc start) w
  gone_lem start =
      ap (λ t. sub_u64 (t % u64_mod) (byte_at c.contents start * c.bytes ^ w % u64_mod))
        (window_first c.bytes c.contents start w)
      ∙ sub_mod_part (byte_at c.contents start * c.bytes ^ w)
          (window c.bytes c.contents (suc start) w)

  slide_lem :
      (offset start : ℕ)
      → start + suc w ≡ c.index + offset
      → c.index + offset < length c.contents
      → slide c offset (hash_at start (suc w)) ≡ some (hash_at (suc start) (suc w))
  unfolding slide
  slide_lem offset start p q =
      rw
        (
          slide,
          read_at (sub_u64 (add_u64 c.index offset) c.hash_len) start (omega (arith, r.hash_len))
              (omega arith),
          saved_lem start,
          read_at (add_u64 c.index offset) (suc start + w) (omega arith) (omega arith),
        )
        (ap some (
          ap (λ t. add_u64 (mul_u64 t c.bytes) (byte_at c.contents (suc start + w)))
            (gone_lem start)
          ∙ add_hash (suc start) w))

  cuts_lem :
      (offset : ℕ)
      → cuts c offset (hash_at (c.index + offset - c.hash_len) c.hash_len)
        ≡ some (boundary c offset)
  unfolding cuts
  cuts_lem offset = ground (arith, r.block_size)

  cuts_at :
      (offset start : ℕ)
      → start + suc w ≡ c.index + offset
      → cuts c offset (hash_at start (suc w)) ≡ some (boundary c offset)
  cuts_at offset start p =
      ap₂ (λ a b. cuts c offset (hash_at a b))
        (let e : start ≡ c.index + offset - c.hash_len = omega (arith, r.hash_len) in e)
        (sym r.hash_len)
      ∙ cuts_lem offset

  plus_one : (o : ℕ) → o ≤ length c.contents + suc w → add_u64 o 1 ≡ o + 1
  plus_one o h = omega arith

  roll_lem :
      (rounds offset start : ℕ)
      → start + suc w ≡ c.index + offset
      → c.index + (offset + rounds) ≡ length c.contents
      → roll c rounds offset (hash_at start (suc w)) ≡ some (first_cut c rounds offset)
  unfolding roll first_cut
  roll_lem zero offset start p q = refl
  roll_lem (suc rounds) offset start p q =
      let up = plus_one offset (omega arith) in
      let test =
        ap (λ o. cuts c o (hash_at (suc start) (suc w))) up
        ∙ cuts_at (offset + 1) (suc start) (omega arith) in
      elim (Bool-cases (boundary c (offset + 1))) [
        | inl cut ↦
            rw (roll, slide_lem offset start p (omega arith), test ∙ ap some cut, cut) (ap some up)
        | inr go_on ↦
            rw (roll, slide_lem offset start p (omega arith), test ∙ ap some go_on, go_on)
              (ap (λ o. roll c rounds o (hash_at (suc start) (suc w))) up
                ∙ roll_lem rounds (offset + 1) (suc start) (omega arith) (omega arith))
      ]

  abbrev left : ℕ
  left = length c.contents - c.index

  warm_all : (e : ℕ) → e ≡ min left (suc w) → warm c left 0 0 ≡ some (e, hash_at c.index e)
  unfolding window
  warm_all e m = warm_lem left 0 e (omega (arith, r.index)) (omega arith) (omega arith)

  -- The loops of `Offset`, with their rolling hash, compute the length of the block that the reference
  -- finds by hashing every window anew, and no index is out of range.
  pub next_offset-block_length : next_offset c ≡ some (block_length c)
  unfolding next_offset block_length
  next_offset-block_length =
      let all : sub_u64 (length c.contents) c.index ≡ left = omega (arith, r.index, r.fits) in
      elim (Bool-cases (leb left c.hash_len)) [
        | inl short ↦
            rw
              (
                next_offset,
                all,
                warm_all left (omega (arith, r.hash_len, leb→le left c.hash_len short)),
                block_length,
                short,
              )
              (ap (λ k. roll c k left (hash_at c.index left))
                (let e : sub_u64 (length c.contents) c.index - left ≡ 0 = omega (arith, all) in e))
        | inr long ↦
            let room : suc w < left = ground (arith, r.hash_len) in
            rw (next_offset, all, warm_all (suc w) (omega arith), block_length, long)
              (ap (λ k. roll c (k - suc w) (suc w) (hash_at c.index (suc w))) all
                ∙ roll_lem (left - suc w) (suc w) c.index refl (omega arith)
                ∙ ap₂ (λ a b. some (first_cut c a b)) (ap (λ t. left - t) (sym r.hash_len))
                    (sym r.hash_len))
      ]
