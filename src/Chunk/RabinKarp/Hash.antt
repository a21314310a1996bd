-- ===== src/Chunk/RabinKarp/Hash.antt =====
-- The rolling hash of the Rabin-Karp chunker: the hash of a window is a polynomial in its bytes, and
-- one step of the loop turns it into the hash of the next window.
use native.Mathlib.Nat.{div-add-mod, pow-zero, pow-suc}
use fluidfs.Prelude.{
  ℕ, zero, suc, ◌+◌, ◌*◌, ◌%◌, ◌^◌, ◌<◌, ◌≡◌, ap, ◌∙◌, [], ◌∷◌, arith, get_elem?, some,
}
use fluidfs.Prelude.Slices.{Bytes}
use fluidfs.Prelude.Int.{u64_mod, add_u64, sub_u64, mul_u64}
use fluidfs.Chunk.RabinKarp.{mul_loop, saved_table}

-- The byte at an index, or 0 past the end.
abbrev pub byte_at : Bytes → ℕ → ℕ
byte_at [] k = 0
byte_at (x ∷ s) zero = x
byte_at (x ∷ s) (suc k) = byte_at s k

-- The hash of `n` bytes from `start` on, as a number without bound.
unfoldable pub window : ℕ → Bytes → ℕ → ℕ → ℕ
window p s start zero = 0
window p s start (suc n) = window p s start n * p + byte_at s (start + n)

start_zero : (start : ℕ) → start + 0 ≡ start
start_zero start = omega arith

start_suc : (start n : ℕ) → start + suc n ≡ suc start + n
start_suc start n = omega arith

-- The first byte of a window carries the highest power.
pub window_first :
    (p : ℕ) (s : Bytes) (start n : ℕ)
    → window p s start (suc n) ≡ byte_at s start * p ^ n + window p s (suc start) n
unfolding window
window_first p s start zero =
    omega (arith, ap (byte_at s) (start_zero start), ap (λ t. byte_at s start * t) (pow-zero p))
window_first p s start (suc n) = omega (
  arith,
  ap (λ t. t * p) (window_first p s start n),
  ap (λ t. byte_at s start * t) (pow-suc p n),
  ap (byte_at s) (start_suc start n),
)

pub mul_mod_right : (a b : ℕ) → a * (b % u64_mod) % u64_mod ≡ a * b % u64_mod
mul_mod_right a b = omega (arith, ap (λ t. a * t) (div-add-mod b u64_mod))

mul_mod_left : (a p : ℕ) → mul_u64 (a % u64_mod) p ≡ a * p % u64_mod
mul_mod_left a p = omega (arith, ap (λ t. t * p) (div-add-mod a u64_mod))

pub mul-mod-add : (y p c : ℕ) → add_u64 (mul_u64 (y % u64_mod) p) c ≡ (y * p + c) % u64_mod
mul-mod-add y p c = omega (arith, ap (λ t. t * p) (div-add-mod y u64_mod))

pub sub_mod_part : (x y : ℕ) → sub_u64 ((x + y) % u64_mod) (x % u64_mod) ≡ y % u64_mod
sub_mod_part x y = omega arith

pub mul_loop-pow : (n p acc : ℕ) → mul_loop n p (acc % u64_mod) ≡ acc * p ^ n % u64_mod
unfolding mul_loop
mul_loop-pow zero p acc = omega (arith, ap (λ t. acc * t) (pow-zero p))
mul_loop-pow (suc n) p acc =
    ap (mul_loop n p) (mul_mod_left acc p)
    ∙ mul_loop-pow n p (acc * p)
    ∙ ap (λ t. t % u64_mod) (omega (arith, ap (λ t. acc * t) (pow-suc p n)))

pub get_elem?-saved_table :
    (rounds i k bidx : ℕ)
    → k < rounds
    → get_elem? (saved_table rounds i bidx) k ≡ some (mul_u64 (i + k) bidx)
unfolding saved_table
get_elem?-saved_table zero i k bidx h = elim h [ ]
get_elem?-saved_table (suc rounds) i zero bidx h =
    ap (λ t. some (mul_u64 t bidx)) (let e : i ≡ i + 0 = omega arith in e)
get_elem?-saved_table (suc rounds) i (suc k) bidx h =
    get_elem?-saved_table rounds (i + 1) k bidx (omega arith)
    ∙ ap (λ t. some (mul_u64 t bidx)) (let e : i + 1 + k ≡ i + suc k = omega arith in e)
