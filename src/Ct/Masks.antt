-- ===== src/Ct/Masks.antt =====
-- What the masks of cdoc/utils/ct.h say.
use libcdoc.Base.{
  ℕ, ◌+◌, ◌-◌, ◌/◌, ◌%◌, ◌^◌, ◌<◌, Bytes, IsBytes, length, [], ◌∷◌, bit_and, bit_or, bit_xor,
  bit_and_mask, bit_and-zero, bit_or-zero, zero-bit_or, bit_xor-eq_zero, bit_xor_self, bit_xor-lt,
  Bool, true, false, ◌==◌, leb, if◌then◌else◌, ◌≡◌, ◌≢◌, refl, ap₂, arith, Bool-cases, inl, inr,
  ==_iff, not,
}
use libcdoc.Ct.{not8, eq8, ge_size, eq32, cmov}

-- The byte 0xff for true and 0 for false.
abbrev pub mask_of : Bool → ℕ
mask_of true = 0xff
mask_of false = 0

xor_of_eq : (a b : ℕ) → (a == b) ≡ true → bit_xor a b ≡ 0
xor_of_eq a b same = rw ((==_iff a b).0 same) (bit_xor_self b)

xor_of_ne : (a b : ℕ) → (a == b) ≡ false → bit_xor a b ≢ 0
xor_of_ne a b other e = cc ((==_iff a b).1 (bit_xor-eq_zero a b e), other)

-- On bytes, `eq8` is equality.
pub eq8_lem : (a b : ℕ) → a < 2 ^ 8 → b < 2 ^ 8 → eq8 a b ≡ mask_of (a == b)
unfolding eq8
eq8_lem a b p q =
    let x = bit_xor a b in
    let mask = bit_and_mask 8 ((x % 2 ^ 16 + 2 ^ 32 - 1) % 2 ^ 32 / 2 ^ 8) in
    let small = bit_xor-lt 8 a b p q in
    elim (Bool-cases (a == b)) [
      | inl same ↦ rw same (omega (arith, mask, xor_of_eq a b same))
      | inr other ↦ rw other (omega (arith, mask, small, xor_of_ne a b other))
    ]

-- On sizes below 2 ^ 63, `ge_size` is the order.
pub ge_size_lem : (a b : ℕ) → a < 2 ^ 63 → b < 2 ^ 63 → ge_size a b ≡ mask_of (leb b a)
unfolding ge_size
ge_size_lem a b p q = ground arith

-- On words below 2 ^ 31, `eq32` is equality.
pub eq32_lem : (a b : ℕ) → a < 2 ^ 31 → b < 2 ^ 31 → eq32 a b ≡ mask_of (a == b)
unfolding eq32
eq32_lem a b p q =
    let mask = bit_and_mask 1 ((bit_xor a b + 2 ^ 32 - 1) % 2 ^ 32 / 2 ^ 31) in
    let small = bit_xor-lt 31 a b p q in
    elim (Bool-cases (a == b)) [
      | inl same ↦ rw same (omega (arith, mask, xor_of_eq a b same))
      | inr other ↦ rw other (omega (arith, mask, small, xor_of_ne a b other))
    ]

-- On 32-bit words whose exclusive or is above 2 ^ 31 eq32 gives the mask of equality, and the words
-- differ.
pub eq32_false_positive :
    (a b : ℕ) → 2 ^ 31 < bit_xor a b → bit_xor a b < 2 ^ 32 → (eq32 a b ≡ 0xff) × (a ≢ b)
unfolding eq32
eq32_false_positive a b high word =
    let mask = bit_and_mask 1 ((bit_xor a b + 2 ^ 32 - 1) % 2 ^ 32 / 2 ^ 31) in
    (omega (arith, mask), λ e. absurd (omega (arith, xor_of_eq a b ((==_iff a b).1 e))))

-- A mask picks its whole byte or none of it.
pub bit_and-mask_of : (x : ℕ) (b : Bool) → x < 2 ^ 8 → bit_and x (mask_of b) ≡ (if b then x else 0)
bit_and-mask_of x true h = omega (arith, bit_and_mask 8 x)
bit_and-mask_of x false h = bit_and-zero x

pub not8-mask_of : (b : Bool) → not8 (mask_of b) ≡ mask_of (not b)
not8-mask_of true = refl
not8-mask_of false = refl

pub select :
    (x y : ℕ) (b : Bool)
    → x < 2 ^ 8
    → y < 2 ^ 8
    → bit_or (bit_and x (mask_of b)) (bit_and y (not8 (mask_of b))) % 2 ^ 8 ≡ (if b then x else y)
select x y true p q = rw (bit_and-mask_of x true p, bit_and-zero y, bit_or-zero x) (omega arith)
select x y false p q = rw (bit_and-mask_of y true q, bit_and-zero x, zero-bit_or y) (omega arith)

-- Under a mask of 0xff or 0, `cmov` copies the first or the second of two blocks of one length.
pub cmov_lem :
    (a b : Bytes) (choice : Bool)
    → IsBytes a
    → IsBytes b
    → length a ≡ length b
    → cmov a b (mask_of choice) ≡ (if choice then a else b)
unfolding cmov
cmov_lem [] [] true p q e = refl
cmov_lem [] [] false p q e = refl
cmov_lem [] (y ∷ b) choice p q e = absurd (omega arith)
cmov_lem (x ∷ a) [] choice p q e = absurd (omega arith)
cmov_lem (x ∷ a) (y ∷ b) true p q e =
    ap₂ ◌∷◌ (select x y true p.0 q.0) (cmov_lem a b true p.1 q.1 (omega arith))
cmov_lem (x ∷ a) (y ∷ b) false p q e =
    ap₂ ◌∷◌ (select x y false p.0 q.0) (cmov_lem a b false p.1 q.1 (omega arith))
