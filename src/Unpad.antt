-- ===== src/Unpad.antt =====
-- `unpadPKCS1v15CT` and `Crypto::rsaImplicitRejectFromEM` of cdoc/Crypto.cpp: PKCS#1 v1.5 unpadding
-- with no branch on the block, which gives a synthetic text when the padding is wrong.
pub mod Scan
pub mod Reference
mod Tests
use libcdoc.Base.{
  ℕ, zero, suc, ◌+◌, ◌-◌, ◌%◌, ◌^◌, Bytes, length, drop, take, get_or, replicate, [], ◌∷◌, bit_and,
  bit_or, Bool, leb, ltb, ◌==◌, if◌then◌else◌, Option, none, some,
}
use libcdoc.Outcome.{Result, fail, ok, crypto_error}
use libcdoc.Ct.{not8, eq8, ge_size, eq32}

-- `size_t(0) - size_t(bit & 1)`: all zeros or all ones.
unfoldable pub spread : ℕ → ℕ
spread bit = (2 ^ 64 - bit_and bit 1) % 2 ^ 64

-- `(x & mask) | (y & ~mask)` on `size_t`.
unfoldable pub mux : ℕ → ℕ → ℕ → ℕ
mux mask x y = bit_or (bit_and x mask) (bit_and y (2 ^ 64 - 1 - mask))

-- The loop that walks every byte from index i on and latches the index of the first zero; the
-- result is `first_zero_idx` and `found_zero`.
unfoldable pub find_zero : ℕ → Bytes → ℕ → ℕ → ℕ × ℕ
find_zero i [] first_zero_idx found_zero = (first_zero_idx, found_zero)
find_zero i (x ∷ em) first_zero_idx found_zero =
    let is_zero = eq8 x 0x00 in
    let latch = bit_and is_zero (not8 found_zero) in
    find_zero (i + 1) em (mux (spread latch) i first_zero_idx) (bit_or found_zero is_zero)

-- The copying loop, with `left` output bytes to go, from index i.
unfoldable pub copy_out : Bytes → Bytes → ℕ → ℕ → ℕ → ℕ → Bytes
copy_out em synth msg_off good i zero = []
copy_out em synth msg_off good i (suc left) =
    let src_idx = msg_off + i in
    let in_range = ge_size (length em - 1) src_idx in
    let safe_idx = mux (spread in_range) src_idx (length em - 1) in
    let real = get_or em safe_idx 0 in
    let synthetic = get_or synth i 0 in
    bit_or (bit_and real good) (bit_and synthetic (not8 good)) % 2 ^ 8
    ∷ copy_out em synth msg_off good (i + 1) left

-- The value of `good` behind all the checks, and `msg_off`.
unfoldable pub check_padding : Bytes → ℕ → ℕ × ℕ
check_padding em expected_len =
    let (first_zero_idx, found_zero) = find_zero 2 (drop 2 em) 0 0x00 in
    let good = bit_and (bit_and 0xff (eq8 (get_or em 0 0) 0x00)) (eq8 (get_or em 1 0) 0x02) in
    let good = bit_and good found_zero in
    let good = bit_and good (ge_size first_zero_idx 10) in
    let msg_off = first_zero_idx + 1 in
    let msg_len = if leb msg_off (length em) then length em - msg_off else 0 in
    (bit_and good (eq32 (msg_len % 2 ^ 32) (expected_len % 2 ^ 32)), msg_off)

-- `unpadPKCS1v15CT`; the result is `dst`.
unfoldable pub unpad : Bytes → Bytes → ℕ → Bytes
unpad em synth expected_len =
    if ltb (length em) (11 + expected_len)
    then take expected_len synth
    else (let (good, msg_off) = check_padding em expected_len in
        copy_out em synth msg_off good 0 expected_len)

-- `rsaImplicitRejectFromEM`: `dst` is left alone when the seed has the wrong size.
unfoldable pub implicit_reject : Bytes → Bytes → Bytes → ℕ → Result × Bytes
implicit_reject dst em synth_seed expected_len =
    if length synth_seed == expected_len
    then (ok, unpad em synth_seed expected_len)
    else (fail crypto_error, dst)
