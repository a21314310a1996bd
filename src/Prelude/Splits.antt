-- ===== src/Prelude/Splits.antt =====
-- Prefixes and rests of joined lists.
use Prim.Native.Nat.{ℕ, zero, suc, ◌+◌, ◌-◌, ◌≤◌}
use mathlib.Core.Path.{◌≡◌, refl, ap, ◌∙◌}
use mathlib.Core.List.{List, [], ◌∷◌, ◌++◌}
use native.Mathlib.Omega.{arith}
use fluidfs.Prelude.Lists.{length, take, drop, replicate}
use fluidfs.Prelude.Slices.{segment, drop_all}

module _ {ℓ} {A : Type ℓ} where
  pub take_all : (n : ℕ) (xs : List A) → length xs ≤ n → take n xs ≡ xs
  take_all zero [] h = refl
  take_all zero (x ∷ xs) h = absurd (omega arith)
  take_all (suc n) [] h = refl
  take_all (suc n) (x ∷ xs) h = ap (λ t. x ∷ t) (take_all n xs (omega arith))

  pub take-append-le : (n : ℕ) (xs ys : List A) → n ≤ length xs → take n (xs ++ ys) ≡ take n xs
  take-append-le zero xs ys h = refl
  take-append-le (suc n) [] ys h = absurd (omega arith)
  take-append-le (suc n) (x ∷ xs) ys h = ap (λ t. x ∷ t) (take-append-le n xs ys (omega arith))

  pub take-append-ge :
      (n : ℕ) (xs ys : List A) → length xs ≤ n → take n (xs ++ ys) ≡ xs ++ take (n - length xs) ys
  take-append-ge n [] ys h = ap (λ k. take k ys) (omega arith)
  take-append-ge zero (x ∷ xs) ys h = absurd (omega arith)
  take-append-ge (suc n) (x ∷ xs) ys h =
      ap (λ t. x ∷ t)
        (take-append-ge n xs ys (omega arith)
          ∙ ap (λ k. xs ++ take k ys)
              (let e : n - length xs ≡ suc n - suc (length xs) = omega arith in e))

  pub drop-append-le :
      (n : ℕ) (xs ys : List A) → n ≤ length xs → drop n (xs ++ ys) ≡ drop n xs ++ ys
  drop-append-le zero xs ys h = refl
  drop-append-le (suc n) [] ys h = absurd (omega arith)
  drop-append-le (suc n) (x ∷ xs) ys h = drop-append-le n xs ys (omega arith)

  pub take-append_length : (n : ℕ) (xs ys : List A) → length xs ≡ n → take n (xs ++ ys) ≡ xs
  take-append_length n xs ys h = take-append-le n xs ys (omega arith) ∙ take_all n xs (omega arith)

  pub drop-append_length : (n : ℕ) (xs ys : List A) → length xs ≡ n → drop n (xs ++ ys) ≡ ys
  drop-append_length n xs ys h =
      drop-append-le n xs ys (omega arith) ∙ ap (λ t. t ++ ys) (drop_all n xs (omega arith))

  pub drop-replicate : (n m : ℕ) (a : A) → drop n (replicate m a) ≡ replicate (m - n) a
  drop-replicate zero m a = ap (λ k. replicate k a) (let e : m ≡ m - 0 = omega arith in e)
  drop-replicate (suc n) zero a = ap (λ k. replicate k a) (let e : 0 ≡ 0 - suc n = omega arith in e)
  drop-replicate (suc n) (suc m) a =
      drop-replicate n m a
      ∙ ap (λ k. replicate k a) (let e : m - n ≡ suc m - suc n = omega arith in e)

  pub take-replicate : (n m : ℕ) (a : A) → n ≤ m → take n (replicate m a) ≡ replicate n a
  take-replicate zero m a h = refl
  take-replicate (suc n) zero a h = absurd (omega arith)
  take-replicate (suc n) (suc m) a h = ap (λ t. a ∷ t) (take-replicate n m a (omega arith))

  -- The middle of three parts.
  pub segment-middle :
      (lo hi : ℕ) (xs ys zs : List A)
      → length xs ≡ lo
      → lo + length ys ≡ hi
      → segment lo hi (xs ++ (ys ++ zs)) ≡ ys
  segment-middle lo hi xs ys zs p q =
      ap (take (hi - lo)) (drop-append_length lo xs (ys ++ zs) p)
      ∙ take-append_length (hi - lo) ys zs (omega arith)
