-- ===== src/Prelude/Slices.antt =====
-- Go's slices: `s[lo:hi]`, and the bytes below an index.
use Prim.Native.Nat.{ℕ, zero, suc, ◌+◌, ◌-◌, ◌≤◌, ◌<◌}
use Prim.Native.Nat.add
use mathlib.Core.Path.{◌≡◌, refl, sym, ap, ◌∙◌}
use mathlib.Core.List.{List, [], ◌∷◌, ◌++◌}
use mathlib.Core.Option.{Option, none, some}
use mathlib.Core.Bool.{◌&&◌}
use native.Mathlib.Omega.{arith}
use fluidfs.Prelude.Tests.{leb, le→leb, leb-false, if◌then◌else◌}
use fluidfs.Prelude.Lists.{
  length, take, drop, get_elem?, take-append-drop, length-take, length-drop,
}

abbrev pub Bytes : Type 0
Bytes = List ℕ

module _ {ℓ} {A : Type ℓ} where
  -- The elements from `lo` up to `hi`.
  abbrev pub segment : ℕ → ℕ → List A → List A
  segment lo hi xs = take (hi - lo) (drop lo xs)

  -- `s[lo:hi]` of a slice whose capacity is its length; `none` is the run-time panic.
  unfoldable pub slice : ℕ → ℕ → List A → Option (List A)
  slice lo hi xs = if leb lo hi && leb hi (length xs) then some (segment lo hi xs) else none

  pub length-segment :
      (lo hi : ℕ) (xs : List A) → lo ≤ hi → hi ≤ length xs → length (segment lo hi xs) ≡ hi - lo
  length-segment lo hi xs p q = omega (arith, length-take (hi - lo) (drop lo xs), length-drop lo xs)

  pub slice-in_range :
      (lo hi : ℕ) (xs : List A)
      → lo ≤ hi
      → hi ≤ length xs
      → slice lo hi xs ≡ some (segment lo hi xs)
  unfolding slice
  slice-in_range lo hi xs p q = rw (le→leb lo hi p, le→leb hi (length xs) q)

  -- Out of range, the run-time check fails.
  pub slice-out_of_range : (lo hi : ℕ) (xs : List A) → hi < lo → slice lo hi xs ≡ none
  unfolding slice
  slice-out_of_range lo hi xs p = rw (leb-false lo hi p)

  drop-nil : (n : ℕ) → drop {A = A} n [] ≡ []
  drop-nil zero = refl
  drop-nil (suc n) = refl

  pub drop-drop : (m n : ℕ) (xs : List A) → drop m (drop n xs) ≡ drop (n + m) xs
  drop-drop m zero xs = ap (λ k. drop k xs) (sym (add.zero m))
  drop-drop m (suc n) [] = drop-nil m ∙ sym (drop-nil (suc n + m))
  drop-drop m (suc n) (x ∷ xs) = drop-drop m n xs ∙ ap (λ k. drop k (x ∷ xs)) (sym (add.suc n m))

  -- A segment and what follows it.
  pub segment-append-drop :
      (lo hi : ℕ) (xs : List A) → lo ≤ hi → segment lo hi xs ++ drop hi xs ≡ drop lo xs
  segment-append-drop lo hi xs p =
      ap (λ t. segment lo hi xs ++ t)
        (ap (λ k. drop k xs) (let e : hi ≡ lo + (hi - lo) = omega arith in e)
          ∙ sym (drop-drop (hi - lo) lo xs))
      ∙ take-append-drop (hi - lo) (drop lo xs)

  pub drop_all : (n : ℕ) (xs : List A) → length xs ≤ n → drop n xs ≡ []
  drop_all zero [] h = refl
  drop_all zero (x ∷ xs) h = absurd (omega arith)
  drop_all (suc n) [] h = refl
  drop_all (suc n) (x ∷ xs) h = drop_all n xs (omega arith)

  pub get_elem?-in_range :
      (xs : List A) (i : ℕ) → i < length xs → (a : A) × (get_elem? xs i ≡ some a)
  get_elem?-in_range [] i h = absurd (omega arith)
  get_elem?-in_range (x ∷ xs) zero h = (x, refl)
  get_elem?-in_range (x ∷ xs) (suc i) h = get_elem?-in_range xs i (omega arith)
