-- ===== src/Text/Hex/RoundTrip.antt =====
-- Hex digits written by cdoc/Utils.h are read back by it.
use libcdoc.Base.{
  ℕ, ◌*◌, ◌/◌, ◌%◌, ◌<◌, Bytes, IsBytes, length, [], ◌∷◌, none, some, ◌==◌, true, ◌≡◌, refl, ap,
  arith, bit_and_mask, bit_and,
}
use libcdoc.Text.Hex.{
  hex_char, hex_byte, to_hex, hex_digit, from_chars_pair, from_hex_loop, from_hex,
}

pub hex_digit-hex_char : (n : ℕ) → n < 16 → hex_digit (hex_char n) ≡ some n
unfolding hex_digit hex_char
hex_digit-hex_char n h = ground arith

pub from_chars_pair-hex_byte :
    (b : ℕ) → b < 256 → from_chars_pair (hex_char (b / 16)) (hex_char (b % 16)) ≡ some b
unfolding from_chars_pair
from_chars_pair-hex_byte b h =
    ground
      (arith, hex_digit-hex_char (b / 16) (omega arith), hex_digit-hex_char (b % 16) (omega arith))

low_byte : (b : ℕ) → b < 256 → bit_and b 0xff ≡ b
low_byte b h = omega (arith, bit_and_mask 8 b)

pub length-to_hex : (bs : Bytes) → length (to_hex bs) ≡ 2 * length bs
unfolding to_hex hex_byte
length-to_hex [] = refl
length-to_hex (b ∷ bs) = omega (arith, length-to_hex bs)

from_hex_loop-to_hex : (bs : Bytes) → IsBytes bs → from_hex_loop (length bs) (to_hex bs) ≡ bs
unfolding to_hex from_hex_loop hex_byte
from_hex_loop-to_hex [] h = refl
from_hex_loop-to_hex (b ∷ bs) h =
    rw (low_byte b h.0, from_chars_pair-hex_byte b h.0, from_hex_loop)
      (ap (λ t. b ∷ t) (from_hex_loop-to_hex bs h.1))

-- Reading the hex form of any byte string gives the byte string back.
pub from_hex-to_hex : (bs : Bytes) → IsBytes bs → from_hex (to_hex bs) ≡ bs
unfolding from_hex
from_hex-to_hex bs h = rw (length-to_hex, half, even) (from_hex_loop-to_hex bs h)
  where
    even : (2 * length bs % 2 == 0) ≡ true
    even = ground arith

    half : 2 * length bs / 2 ≡ length bs
    half = omega arith

-- The pair parser stops at the first character that is no digit: a digit before it is accepted.
pub from_chars_pair_short :
    (a b x : ℕ) → hex_digit a ≡ some x → hex_digit b ≡ none → from_chars_pair a b ≡ some x
unfolding from_chars_pair
from_chars_pair_short a b x ha hb = ground arith
