-- ===== src/Text/Hex.antt =====
-- `toHex`, `fromHex` (the pair parser and the string parser) of cdoc/Utils.h.
pub mod RoundTrip
use libcdoc.Base.{
  ℕ, zero, suc, ◌+◌, ◌-◌, ◌*◌, ◌/◌, ◌%◌, Bytes, length, replicate, List, [], ◌∷◌, ◌++◌, Option,
  none, some, ◌&&◌, leb, ltb, ◌==◌, if◌then◌else◌, bit_and,
}

-- `os << std::hex << std::uppercase` of one digit.
unfoldable pub hex_char : ℕ → ℕ
hex_char n = if ltb n 10 then b'0' + n else b'A' + (n - 10)

-- `std::setw(2)` with fill '0' of a number below 256.
unfoldable pub hex_byte : ℕ → Bytes
hex_byte b = hex_char (b / 16) ∷ hex_char (b % 16) ∷ []

unfoldable pub to_hex : Bytes → Bytes
to_hex [] = []
to_hex (b ∷ bs) = hex_byte (bit_and b 0xff) ++ to_hex bs

-- The digits that `std::from_chars` accepts in base 16.
unfoldable pub hex_digit : ℕ → Option ℕ
hex_digit c =
    if leb b'0' c && leb c b'9'
    then some (c - b'0')
    else if leb b'A' c && leb c b'F'
    then some (c - b'A' + 10)
    else if leb b'a' c && leb c b'f'
    then some (c - b'a' + 10)
    else none

-- `std::from_chars` over two characters: the longest run of digits, an error if it is empty.
unfoldable pub from_chars_pair : ℕ → ℕ → Option ℕ
from_chars_pair a b = elim (hex_digit a) [
  | none ↦ none
  | some x ↦ elim (hex_digit b) [ none ↦ some x | some y ↦ some (x * 16 + y) ]
]

-- `fromHex(pos, end, val)`: false when fewer than two characters are left.
unfoldable pub from_hex_at : Bytes → Option ℕ
from_hex_at [] = none
from_hex_at (a ∷ []) = none
from_hex_at (a ∷ b ∷ s) = from_chars_pair a b

-- The loop of `fromHex(hex)`: `left` bytes of the result are still to be written, and stay 0 when
-- a pair is refused.
unfoldable pub from_hex_loop : ℕ → Bytes → Bytes
from_hex_loop (suc left) (a ∷ b ∷ s) =
    let rest = from_hex_loop left s in
    elim (from_chars_pair a b) [ none ↦ replicate (suc left) 0 | some v ↦ v ∷ rest ]
from_hex_loop left s = replicate left 0

unfoldable pub from_hex : Bytes → Bytes
from_hex hex = if length hex % 2 == 0 then from_hex_loop (length hex / 2) hex else []
