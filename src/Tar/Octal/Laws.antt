-- ===== src/Tar/Octal/Laws.antt =====
-- Octal fields of cdoc/Tar.cpp are read back, and padding completes a block.
use libcdoc.Base.{
  ℕ, zero, suc, ◌+◌, ◌-◌, ◌*◌, ◌/◌, ◌%◌, ◌^◌, ◌<◌, Bytes, [], ◌∷◌, false, ltb, ◌||◌, ◌≡◌, ap, ◌∙◌,
  arith,
}
use native.Mathlib.Nat.{pow-suc}
use libcdoc.Tar.Octal.{
  block_size, int64_max, octal_loop, from_octal, shift_three, octal_digits, to_octal, padding,
}

-- The sum of a size and its padding is the least whole number of blocks that holds the size.
pub padding_lem : (n : ℕ) → ((n + padding n) % block_size ≡ 0) × (padding n < block_size)
unfolding padding
padding_lem n = omega arith

octal_loop_digit :
    (d i : ℕ) (s : Bytes)
    → d < 8
    → i < 2 ^ 60
    → octal_loop ((d + b'0') ∷ s) i ≡ octal_loop s (i * 8 + d)
unfolding octal_loop
octal_loop_digit d i s hd hi =
    let digit : (ltb (d + b'0') b'0' || ltb b'7' (d + b'0')) ≡ false = ground arith in
    let room : ltb (int64_max / 8) i ≡ false = ground arith in
    let value : i * 8 + (d + b'0' - b'0') ≡ i * 8 + d = omega arith in rw (digit, room, value)

shift_three_lem : (value : ℕ) → value < 2 ^ 63 → shift_three value ≡ value / 8
unfolding shift_three
shift_three_lem value h = ground arith

-- Writing k digits of a value below 8 ^ k in front of a text, and reading them behind a value so
-- far.
octal_digits_lem :
    (k value i : ℕ) (s : Bytes)
    → value < 8 ^ k
    → i * 8 ^ k + value < 2 ^ 63
    → octal_loop (octal_digits k value s) i ≡ octal_loop s (i * 8 ^ k + value)
unfolding octal_digits
octal_digits_lem zero value i s h fits = ap (octal_loop s) (omega arith)
octal_digits_lem (suc k) value i s h fits =
    let wide : i * 8 ^ suc k ≡ 8 * (i * 8 ^ k) =
      omega (arith, ap (λ (t : ℕ). i * t) (pow-suc 8 k)) in
    let shifted : shift_three value ≡ value / 8 = shift_three_lem value (omega arith) in
    let total : (i * 8 ^ k + value / 8) * 8 + value % 8 ≡ i * 8 ^ suc k + value =
      omega (arith, wide) in
    rw shifted (
      octal_digits_lem k (value / 8) i ((value % 8 + b'0') ∷ s) (omega (arith, pow-suc 8 k))
        (omega (arith, wide))
      ∙ (octal_loop_digit (value % 8) (i * 8 ^ k + value / 8) s (omega arith) (omega (arith, wide))
          ∙ ap (octal_loop s) total))

-- A number below 2 ^ 63 that fits the digits of an octal field is read back from it.
pub from_octal-to_octal :
    (k value : ℕ) → value < 2 ^ 63 → value < 8 ^ k → from_octal (to_octal (k + 1) value) ≡ value
unfolding from_octal to_octal
from_octal-to_octal k value small h =
    let digits : k + 1 - 1 ≡ k = omega arith in
    rw digits
      (octal_digits_lem k value 0 (b' ' ∷ []) h (omega arith) ∙ (unfold octal_loop in omega arith))
