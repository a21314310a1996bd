-- ===== src/Prelude/Text/Decimal.antt =====
-- Reading back a number that was printed.
use Prim.Native.Nat.{ℕ, zero, suc, ◌+◌, ◌*◌, ◌/◌, ◌%◌, ◌^◌, ◌<◌, ◌≤◌}
use mathlib.Core.Path.{◌≡◌, refl, sym, ap, ◌∙◌}
use mathlib.Core.Logic.{inl, inr}
use mathlib.Core.List.{[], ◌∷◌}
use mathlib.Core.Option.{some}
use native.Mathlib.Omega.{arith}
use fluidfs.Prelude.Tests.{ltb, lt→ltb, ltb→lt, Bool-cases}
use fluidfs.Prelude.Lists.{All}
use fluidfs.Prelude.Text.{Text, digits, format_uint, digits_value, parse_uint}

abbrev pub IsDigit : ℕ → Type 0
IsDigit c = (b'0' ≤ c) × (c ≤ b'9')

digits_value_digit :
    (v d : ℕ) (s : Text) → d < 10 → digits_value v ((b'0' + d) ∷ s) ≡ digits_value (v * 10 + d) s
unfolding digits_value
digits_value_digit v d s h = ground arith

-- Printed digits are read before what stands behind them.
digits_value-digits :
    (rounds n : ℕ) (out : Text)
    → n < rounds
    → digits_value 0 (digits rounds n out) ≡ digits_value n out
unfolding digits
digits_value-digits zero n out h = absurd (omega arith)
digits_value-digits (suc rounds) n out h = elim (Bool-cases (ltb n 10)) [
  | inl small ↦
      rw (digits, small)
        (digits_value_digit 0 n out (ltb→lt n 10 small)
          ∙ ap (λ k. digits_value k out) (omega arith))
  | inr big ↦
      let ge : 10 ≤ n = ground arith in
      rw (digits, big)
        (digits_value-digits rounds (n / 10) ((b'0' + n % 10) ∷ out) (omega arith)
          ∙ digits_value_digit (n / 10) (n % 10) out (omega arith)
          ∙ ap (λ k. digits_value k out) (omega arith))
]

digits-IsDigit : (rounds n : ℕ) (out : Text) → All IsDigit out → All IsDigit (digits rounds n out)
unfolding digits
digits-IsDigit zero n out h = h
digits-IsDigit (suc rounds) n out h = elim (Bool-cases (ltb n 10)) [
  | inl small ↦ rw (digits, small) ((omega arith, omega (arith, ltb→lt n 10 small)), h)
  | inr big ↦
      rw (digits, big)
        (digits-IsDigit rounds (n / 10) ((b'0' + n % 10) ∷ out) ((omega arith, omega arith), h))
]

pub format_uint-IsDigit : (n : ℕ) → All IsDigit (format_uint n)
unfolding format_uint
format_uint-IsDigit n = digits-IsDigit (suc n) n [] tt

digits-cons :
    (rounds n : ℕ) (out : Text) → (c : ℕ) × (s : Text) × (digits (suc rounds) n out ≡ c ∷ s)
unfolding digits
digits-cons zero n out = elim (Bool-cases (ltb n 10)) [
  | inl small ↦ (b'0' + n, out, rw (digits, small) refl)
  | inr big ↦ (b'0' + n % 10, out, rw (digits, big) refl)
]
digits-cons (suc rounds) n out = elim (Bool-cases (ltb n 10)) [
  | inl small ↦ (b'0' + n, out, rw (digits, small) refl)
  | inr big ↦
      let (c, s, e) = digits-cons rounds (n / 10) ((b'0' + n % 10) ∷ out) in
      (c, s, rw (digits, big) e)
]

pub format_uint-cons : (n : ℕ) → (c : ℕ) × (s : Text) × (format_uint n ≡ c ∷ s)
unfolding format_uint
format_uint-cons n = digits-cons n n []

pub parse_uint-format_uint : (bits n : ℕ) → n < 2 ^ bits → parse_uint bits (format_uint n) ≡ some n
unfolding parse_uint format_uint digits_value
parse_uint-format_uint bits n h =
    let (c, s, e) = format_uint-cons n in
    let value : digits_value 0 (c ∷ s) ≡ some n =
      ap (digits_value 0) (sym e) ∙ digits_value-digits (suc n) n [] (omega arith) in
    rw e (rw (parse_uint, value, lt→ltb n (2 ^ bits) h) refl)
