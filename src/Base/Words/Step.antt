-- ===== src/Base/Words/Step.antt =====
-- The lowest binary digit of a bit operation.
use Prim.Native.Nat.{
  ℕ, zero, suc, ◌+◌, ◌*◌, ◌/◌, ◌%◌, ◌≤◌, min, max, bit_and, bit_or, bit_xor, differ,
}
use Prim.Native.Nat.{digits, bitwise, bit_and-bitwise, bit_or-bitwise, bit_xor-bitwise}
use mathlib.Core.Path.{◌≡◌, refl}
use native.Mathlib.Omega.{arith}

module _ (tail : ℕ → ℕ) (bit : ℕ → ℕ → ℕ) where
  -- Rounds beyond the size of the first number change nothing.
  spare_rounds :
      (x y few many : ℕ) → x ≤ few → few ≤ many → digits tail bit many x y ≡ digits tail bit few x y
  spare_rounds zero y zero zero _ _ = refl
  spare_rounds zero y zero (suc many) _ _ = refl
  spare_rounds zero y (suc few) zero _ le = absurd (omega arith)
  spare_rounds zero y (suc few) (suc many) _ _ = refl
  spare_rounds (suc x) y zero many fits _ = absurd (omega arith)
  spare_rounds (suc x) y (suc few) zero _ le = absurd (omega arith)
  spare_rounds (suc x) y (suc few) (suc many) fits le =
      let halves : digits tail bit many (suc x / 2) (y / 2)
          ≡ digits tail bit few (suc x / 2) (y / 2) =
        spare_rounds (suc x / 2) (y / 2) few many (omega arith) (omega arith) in
      rw halves

  lowest :
      (x y : ℕ)
      → bitwise tail bit (suc x) y
        ≡ bit (suc x % 2) (y % 2) + 2 * bitwise tail bit (suc x / 2) (y / 2)
  lowest x y =
      let enough = spare_rounds (suc x / 2) (y / 2) (suc x / 2) x (omega arith) (omega arith) in
      omega (arith, enough)

pub zero-bit_or_lem : (y : ℕ) → bit_or 0 y ≡ y
zero-bit_or_lem y = simp bit_or-bitwise

pub zero-bit_and_lem : (y : ℕ) → bit_and 0 y ≡ 0
zero-bit_and_lem y = simp bit_and-bitwise

pub zero-bit_xor_lem : (y : ℕ) → bit_xor 0 y ≡ y
zero-bit_xor_lem y = simp bit_xor-bitwise

-- Each operation by the lowest digits of its numbers and the rest of them.
pub bit_or_step : (x y : ℕ) → bit_or x y ≡ max (x % 2) (y % 2) + 2 * bit_or (x / 2) (y / 2)
bit_or_step zero y = omega (arith, zero-bit_or_lem y, zero-bit_or_lem (y / 2))
bit_or_step (suc x) y = simp bit_or-bitwise (lowest (λ t. t) max x y)

pub bit_and_step : (x y : ℕ) → bit_and x y ≡ min (x % 2) (y % 2) + 2 * bit_and (x / 2) (y / 2)
bit_and_step zero y = omega (arith, zero-bit_and_lem y, zero-bit_and_lem (y / 2))
bit_and_step (suc x) y = simp bit_and-bitwise (lowest (λ t. 0) min x y)

pub bit_xor_step : (x y : ℕ) → bit_xor x y ≡ differ (x % 2) (y % 2) + 2 * bit_xor (x / 2) (y / 2)
bit_xor_step zero y = simp bit_xor-bitwise (omega arith)
bit_xor_step (suc x) y = simp bit_xor-bitwise (lowest (λ t. t) differ x y)
