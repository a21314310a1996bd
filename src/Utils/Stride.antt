-- ===== src/Utils/Stride.antt =====
-- What `Stride` and `StrideFixed` of fluid/utils.go return: the pieces of a string, in order.
use fluidfs.Prelude.{
  ℕ, zero, suc, ◌+◌, ◌≤◌, ◌<◌, ◌≡◌, ◌≢◌, ◌⊎◌, inl, inr, refl, sym, ap, ◌∙◌, List, [], ◌∷◌, ◌++◌,
  append-nil, append_assoc, none, some, arith, ltb, ltb-false, Bool-cases, ltb→lt, if◌then◌else◌,
  length, drop, concat, All,
}
use fluidfs.Prelude.Slices.{segment, segment-append-drop, length-segment, drop_all}
use fluidfs.Utils.{Runes, utf8_length, stride_loop, stride, drop_short_last, stride_fixed}

-- The index at which the piece from `i` on ends.
abbrev piece_end : Runes → ℕ → ℕ → ℕ
piece_end a n i = if ltb (length a) (i + n) then length a else i + n

-- The loop without its accumulator.
pieces : ℕ → Runes → ℕ → ℕ → List Runes
pieces zero a n i = []
pieces (suc rounds) a n i =
    let rest = pieces rounds a n (i + n) in
    if ltb i (length a) then segment i (piece_end a n i) a ∷ rest else []

stride_loop-pieces :
    (rounds : ℕ) (a : Runes) (n i : ℕ) (o : List Runes)
    → stride_loop rounds a n i o ≡ o ++ pieces rounds a n i
unfolding stride_loop pieces
stride_loop-pieces zero a n i o = sym (append-nil o)
stride_loop-pieces (suc rounds) a n i o = elim (Bool-cases (ltb i (length a))) [
  | inl more ↦
      rw (more, stride_loop-pieces rounds a n (i + n) (o ++ segment i (piece_end a n i) a ∷ []))
        (append_assoc o (segment i (piece_end a n i) a ∷ []) (pieces rounds a n (i + n)))
  | inr done ↦ rw done (sym (append-nil o))
]

pieces_done : (rounds : ℕ) (a : Runes) (n i : ℕ) → length a ≤ i → pieces rounds a n i ≡ []
unfolding pieces
pieces_done zero a n i h = refl
pieces_done (suc rounds) a n i h = rw (ltb-false i (length a) h)

piece_end_bounds :
    (a : Runes) (n i : ℕ)
    → i < length a
    → 0 < n
    → (i < piece_end a n i) × (piece_end a n i ≤ length a) × (piece_end a n i ≤ i + n)
piece_end_bounds a n i h p = ground arith

piece_end_cases :
    (a : Runes) (n i : ℕ)
    → ((length a ≤ i + n) × (drop (i + n) a ≡ drop (piece_end a n i) a)) ⊎ (piece_end a n i ≡ i + n)
piece_end_cases a n i = elim (Bool-cases (ltb (length a) (i + n))) [
  | inl out ↦
      let long : length a < i + n = ltb→lt (length a) (i + n) out in
      inl (
        (omega arith),
        rw (out, drop_all (i + n) a (omega arith)) (sym (drop_all (length a) a (omega arith))),
      )
  | inr fits ↦ inr (rw fits)
]

drop-piece_end : (a : Runes) (n i : ℕ) → drop (i + n) a ≡ drop (piece_end a n i) a
drop-piece_end a n i = elim (piece_end_cases a n i) [
  | inl out ↦ out.1
  | inr fits ↦ ap (λ k. drop k a) (sym fits)
]

-- With a round for each rune that is left, the pieces spell the rest of the string.
concat-pieces :
    (rounds : ℕ) (a : Runes) (n i : ℕ)
    → 0 < n
    → length a ≤ rounds + i
    → concat (pieces rounds a n i) ≡ drop i a
unfolding pieces
concat-pieces zero a n i p h = sym (drop_all i a (omega arith))
concat-pieces (suc rounds) a n i p h = elim (Bool-cases (ltb i (length a))) [
  | inl more ↦
      rw (more, concat-pieces rounds a n (i + n) p (omega arith), drop-piece_end a n i)
        (segment-append-drop i (piece_end a n i) a
          (omega (arith, (piece_end_bounds a n i (ltb→lt _ _ more) p).0)))
  | inr done ↦ rw done (sym (drop_all i a (ground arith)))
]

-- Every piece but the last holds `n` runes, and the last between 1 and `n`.
abbrev pub Strides : ℕ → List Runes → Type 0
Strides n [] = Unit
Strides n (p ∷ []) = (0 < length p) × (length p ≤ n)
Strides n (p ∷ q ∷ o) = (length p ≡ n) × Strides n (q ∷ o)

Strides-cons :
    (n : ℕ) (p : Runes) (o : List Runes)
    → 0 < length p
    → length p ≤ n
    → (o ≡ []) ⊎ (length p ≡ n)
    → Strides n o
    → Strides n (p ∷ o)
Strides-cons n p [] a b c s = (a, b)
Strides-cons n p (q ∷ o) a b (inl e) s = cc
Strides-cons n p (q ∷ o) a b (inr e) s = (e, s)

Strides-pieces : (rounds : ℕ) (a : Runes) (n i : ℕ) → 0 < n → Strides n (pieces rounds a n i)
unfolding pieces
Strides-pieces zero a n i p = tt
Strides-pieces (suc rounds) a n i p = elim (Bool-cases (ltb i (length a))) [
  | inl more ↦
      let b = piece_end_bounds a n i (ltb→lt _ _ more) p in
      let size = length-segment i (piece_end a n i) a (omega (arith, b)) b.1 in
      rw more (
        Strides-cons n (segment i (piece_end a n i) a) (pieces rounds a n (i + n))
          (omega (arith, b, size)) (omega (arith, b, size))
          (elim (piece_end_cases a n i) [
            | inl out ↦ inl (pieces_done rounds a n (i + n) out.0)
            | inr fits ↦ inr (omega (arith, fits, size))
          ])
          (Strides-pieces rounds a n (i + n) p))
  | inr done ↦ rw done tt
]

-- A string is cut into pieces of `n` runes, of which only the last may be shorter, and none is empty;
-- joined, they give the string back. The length `n` of a piece must not be 0.
pub stride_lem :
    (s : Runes) (n : ℕ)
    → 0 < n
    → (o : List Runes) × (stride s n ≡ some o) × (concat o ≡ s) × Strides n o
unfolding stride
stride_lem s zero p = absurd (omega arith)
stride_lem s (suc n) p = (
  pieces (length s) s (suc n) 0,
  ap some (stride_loop-pieces (length s) s (suc n) 0 []),
  concat-pieces (length s) s (suc n) 0 p (omega arith),
  Strides-pieces (length s) s (suc n) 0 p,
)

-- A rune of one byte.
abbrev pub IsAscii : ℕ → Type 0
IsAscii r = r < 128

utf8_length-ascii : (s : Runes) → All IsAscii s → utf8_length s ≡ length s
unfolding utf8_length
utf8_length-ascii [] h = refl
utf8_length-ascii (r ∷ s) h = ground (arith, utf8_length-ascii s h.1)

All-append-left : (xs ys : Runes) → All IsAscii (xs ++ ys) → All IsAscii xs
All-append-left [] ys h = tt
All-append-left (x ∷ xs) ys h = (h.0, All-append-left xs ys h.1)

All-append-right : (xs ys : Runes) → All IsAscii (xs ++ ys) → All IsAscii ys
All-append-right [] ys h = h
All-append-right (x ∷ xs) ys h = All-append-right xs ys h.1

abbrev pub Size : ℕ → Runes → Type 0
Size n p = length p ≡ n

-- What is kept of the pieces, and the runes that are left out.
record Kept (n : ℕ) (o : List Runes) : Type 0 where
  kept : List Runes
  rest : Runes
  runs : drop_short_last n o ≡ some kept
  spells : concat kept ++ rest ≡ concat o
  short : length rest < n
  sizes : All (Size n) kept

drop_short_last-Kept :
    (n : ℕ) (p : Runes) (o : List Runes)
    → 0 < n
    → Strides n (p ∷ o)
    → All IsAscii (concat (p ∷ o))
    → Kept n (p ∷ o)
unfolding drop_short_last
drop_short_last-Kept n p [] pos s h = elim (Bool-cases (ltb (length p) n)) [
  | inl cut ↦ record {
    kept = [];
    rest = p;
    runs = rw (utf8_length-ascii p (All-append-left p [] h), cut);
    spells = sym (append-nil p);
    short = ltb→lt _ _ cut;
    sizes = tt;
  }
  | inr whole ↦ record {
    kept = p ∷ [];
    rest = [];
    runs = rw (utf8_length-ascii p (All-append-left p [] h), whole);
    spells = append-nil (p ++ []);
    short = pos;
    sizes = (ground arith, tt);
  }
]
drop_short_last-Kept n p (q ∷ o) pos s h =
    let k = drop_short_last-Kept n q o pos s.1 (All-append-right p (concat (q ∷ o)) h) in
    record {
      kept = p ∷ k.kept;
      rest = k.rest;
      runs = rw k.runs;
      spells = append_assoc p (concat k.kept) k.rest ∙ ap (λ t. p ++ t) k.spells;
      short = k.short;
      sizes = (s.0, k.sizes);
    }

-- Of a string of ASCII characters that is not empty, exactly the pieces of `n` characters are kept:
-- they spell the string up to fewer than `n` characters at its end.
pub stride_fixed_lem :
    (s : Runes) (n : ℕ)
    → 0 < n
    → s ≢ []
    → All IsAscii s
    → (o : List Runes) × (rest : Runes) × (stride_fixed s n ≡ some o)
      × (concat o ++ rest ≡ s)
      × (length rest < n)
      × All (Size n) o
unfolding stride_fixed
stride_fixed_lem s n pos nonempty ascii = go (stride_lem s n pos)
  where
    go :
        (o : List Runes) × (stride s n ≡ some o) × (concat o ≡ s) × Strides n o
        → (o : List Runes) × (rest : Runes) × (stride_fixed s n ≡ some o)
          × (concat o ++ rest ≡ s)
          × (length rest < n)
          × All (Size n) o
    go ([], e, spells, strides) = absurd (nonempty (sym spells))
    go (p ∷ o, e, spells, strides) =
        let k = drop_short_last-Kept n p o pos strides (rw spells ascii) in
        (k.kept, k.rest, rw (e, stride_fixed, k.runs), k.spells ∙ spells, k.short, k.sizes)

-- Of the empty string there is no last piece: the call panics, whatever the length of a piece.
pub stride_fixed-nil : (n : ℕ) → stride_fixed [] n ≡ none
unfolding stride_fixed
stride_fixed-nil zero = refl
stride_fixed-nil (suc n) = refl
