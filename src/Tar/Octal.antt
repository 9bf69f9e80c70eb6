-- ===== src/Tar/Octal.antt =====
-- `fromOctal`, `toOctal` and `padding` of cdoc/Tar.cpp.
pub mod Laws
mod Tests
use libcdoc.Base.{
  ℕ, zero, suc, ◌+◌, ◌-◌, ◌*◌, ◌/◌, ◌%◌, ◌^◌, Bytes, [], ◌∷◌, ◌++◌, ◌||◌, leb, ltb, if◌then◌else◌,
}

abbrev pub block_size : ℕ
block_size = 512

abbrev pub int64_max : ℕ
int64_max = 2 ^ 63 - 1

-- 8 GiB.
abbrev pub max_file_size : ℕ
max_file_size = 8 * 1024 * 1024 * 1024

abbrev pub max_aux_header_size : ℕ
max_aux_header_size = 64 * 1024

-- The loop of `fromOctal` with the value so far; other characters are passed over.
unfoldable pub octal_loop : Bytes → ℕ → ℕ
octal_loop [] i = i
octal_loop (c ∷ s) i =
    let same = octal_loop s i in
    let more = octal_loop s (i * 8 + (c - b'0')) in
    if ltb c b'0' || ltb b'7' c then same else if ltb (int64_max / 8) i then int64_max else more

unfoldable pub from_octal : Bytes → ℕ
from_octal s = octal_loop s 0

-- `value >>= 3` of an int64_t, given as its bit pattern.
unfoldable pub shift_three : ℕ → ℕ
shift_three value = if ltb value (2 ^ 63) then value / 8 else value / 8 + 7 * 2 ^ 61

-- The loop of `toOctal` writes `left` digits from the last one to the first, before `done`.
unfoldable pub octal_digits : ℕ → ℕ → Bytes → Bytes
octal_digits zero value done = done
octal_digits (suc left) value done =
    octal_digits left (shift_three value) ((value % 8 + b'0') ∷ done)

-- `toOctal` of an array of `size` characters: the last one stays a space.
unfoldable pub to_octal : ℕ → ℕ → Bytes
to_octal size value = octal_digits (size - 1) value (b' ' ∷ [])

-- The bytes that fill the last block.
unfoldable pub padding : ℕ → ℕ
padding size = block_size * ((size + block_size - 1) / block_size) - size
