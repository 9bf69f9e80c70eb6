-- ===== src/Ct.antt =====
-- The branch-free helpers of cdoc/utils/ct.h, with the wrap-around of each C++ width written out.
pub mod Masks
use libcdoc.Base.{
  ℕ, zero, suc, ◌+◌, ◌-◌, ◌*◌, ◌/◌, ◌%◌, ◌^◌, Bytes, [], ◌∷◌, bit_and, bit_or, bit_xor,
}

-- `uint8_t(~mask)` of a byte.
abbrev pub not8 : ℕ → ℕ
not8 mask = 255 - mask

unfoldable pub eq8 : ℕ → ℕ → ℕ
eq8 a b = let x = bit_xor a b % 2 ^ 16 in bit_and ((x + 2 ^ 32 - 1) % 2 ^ 32 / 2 ^ 8) 0xff % 2 ^ 8

-- `b - a - 1u` is taken modulo 2 ^ 64.
unfoldable pub ge_size : ℕ → ℕ → ℕ
ge_size a b =
    let top_bit = (b + 2 ^ 64 + 2 ^ 64 - a - 1) % 2 ^ 64 / 2 ^ 63 in top_bit * 0xff % 2 ^ 8

unfoldable pub eq32 : ℕ → ℕ → ℕ
eq32 a b = let x = bit_xor a b in bit_and ((x + 2 ^ 32 - 1) % 2 ^ 32 / 2 ^ 31) 1 % 2 ^ 8 * 0xff

-- The loop of `cmov` over n bytes of both blocks.
unfoldable pub cmov : Bytes → Bytes → ℕ → Bytes
cmov (x ∷ a) (y ∷ b) mask = bit_or (bit_and x mask) (bit_and y (not8 mask)) % 2 ^ 8 ∷ cmov a b mask
cmov _ _ mask = []
