-- ===== src/Text/Utf8.antt =====
-- `isValidUtf8` of cdoc/Utils.cpp.
pub mod Grammar
use libcdoc.Base.{
  ℕ, zero, suc, Bytes, length, drop, get_or, [], ◌∷◌, Option, none, some, Bool, true, false, ◌&&◌,
  leb, ◌==◌, if◌then◌else◌, bit_and,
}

unfoldable pub is_ascii : ℕ → Bool
is_ascii a = bit_and a 0x80 == 0x0

unfoldable pub leads_two : ℕ → Bool
leads_two a = bit_and a 0xe0 == 0xc0

unfoldable pub leads_three : ℕ → Bool
leads_three a = bit_and a 0xf0 == 0xe0

unfoldable pub leads_four : ℕ → Bool
leads_four a = bit_and a 0xf8 == 0xf0

unfoldable pub is_continuation : ℕ → Bool
is_continuation a = bit_and a 0xc0 == 0x80

-- How far one round of the loop moves `s`, at a text that is not empty; `none` is `return false`.
unfoldable pub utf8_step : Bytes → Option ℕ
utf8_step s =
    let s_len = length s in
    if is_ascii (get_or s 0 0)
    then some 1
    else if leads_two (get_or s 0 0) && leb 2 s_len && is_continuation (get_or s 1 0)
    then some 2
    else if leads_three (get_or s 0 0)
        && leb 3 s_len
        && is_continuation (get_or s 1 0)
        && is_continuation (get_or s 2 0)
    then some 3
    else if leads_four (get_or s 0 0)
        && leb 4 s_len
        && is_continuation (get_or s 1 0)
        && is_continuation (get_or s 2 0)
        && is_continuation (get_or s 3 0)
    then some 4
    else none

-- The loop, with fuel for its rounds.
unfoldable pub utf8_loop : ℕ → Bytes → Bool
utf8_loop fuel [] = true
utf8_loop zero (a ∷ s) = false
utf8_loop (suc fuel) (a ∷ s) = elim (utf8_step (a ∷ s)) [
  | none ↦ false
  | some n ↦ utf8_loop fuel (drop n (a ∷ s))
]

-- Each round moves on, so a round for each byte is enough.
unfoldable pub is_valid_utf8 : Bytes → Bool
is_valid_utf8 s = utf8_loop (length s) s
