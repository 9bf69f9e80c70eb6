-- ===== src/Tar/Writer/HeaderLaws.antt =====
-- The headers that `TarConsumer::writeHeader` (cdoc/Tar.cpp) fills in are read back.
use libcdoc.Base.{
  ℕ, zero, suc, ◌+◌, ◌-◌, ◌*◌, ◌%◌, ◌^◌, ◌≤◌, ◌<◌, Bytes, IsBytes, All, All-take, length,
  length-take, take, take_all, replicate, [], ◌∷◌, ◌++◌, true, false, Option, some, ltb, ==_refl,
  ◌≡◌, ◌≢◌, refl, arith,
}
use libcdoc.Tar.Octal.{max_file_size, to_octal, octal_digits, shift_three}
use libcdoc.Tar.Octal.Laws.{from_octal-to_octal}
use libcdoc.Tar.Header.{
  Header, to_bytes, empty, unsigned_sum, checksum, verify, until_nul, get_name, get_size,
}
use libcdoc.Tar.Writer.{size_pattern, fill_header}

unsigned_sum-append : (s t : Bytes) → unsigned_sum (s ++ t) ≡ unsigned_sum s + unsigned_sum t
unfolding unsigned_sum
unsigned_sum-append [] t = omega arith
unsigned_sum-append (b ∷ s) t = omega (arith, unsigned_sum-append s t)

unsigned_sum-le : (s : Bytes) → IsBytes s → unsigned_sum s ≤ 255 * length s
unfolding unsigned_sum
unsigned_sum-le [] h = omega arith
unsigned_sum-le (b ∷ s) h = omega (arith, unsigned_sum-le s h.1, h.0)

unsigned_sum-take : (n : ℕ) (s : Bytes) → unsigned_sum (take n s) ≤ unsigned_sum s
unfolding unsigned_sum
unsigned_sum-take zero s = omega arith
unsigned_sum-take (suc n) [] = omega arith
unsigned_sum-take (suc n) (b ∷ s) = omega (arith, unsigned_sum-take n s)

unsigned_sum-zeros : (n : ℕ) → unsigned_sum (replicate n 0) ≡ 0
unfolding unsigned_sum
unsigned_sum-zeros zero = refl
unsigned_sum-zeros (suc n) = omega (arith, unsigned_sum-zeros n)

unsigned_sum-octal_digits :
    (k value : ℕ) (s : Bytes) → unsigned_sum (octal_digits k value s) ≤ 55 * k + unsigned_sum s
unfolding octal_digits unsigned_sum
unsigned_sum-octal_digits zero value s = omega arith
unsigned_sum-octal_digits (suc k) value s =
    omega (arith, unsigned_sum-octal_digits k (shift_three value) ((value % 8 + b'0') ∷ s))

-- The header before its checksum is known.
abbrev blank : Bytes → Option ℕ → ℕ → Header
blank name size typeflag = record empty {
  name = take 100 name ++ replicate (100 - length (take 100 name)) 0;
  typeflag = typeflag;
  chksum = replicate 8 b' ';
  size = to_octal 12 (size_pattern size);
}

name_sum :
    (name : Bytes)
    → IsBytes name
    → unsigned_sum (take 100 name ++ replicate (100 - length (take 100 name)) 0) ≤ 25500
name_sum name h =
    let cut = take 100 name in
    omega (
      arith,
      unsigned_sum-append cut (replicate (100 - length cut) 0),
      unsigned_sum-zeros (100 - length cut),
      unsigned_sum-le cut (All-take (λ b. b < 256) 100 name h),
      length-take 100 name,
    )

-- The sum by fields.
header_sum :
    (h : Header)
    → unsigned_sum (to_bytes h)
      ≡ unsigned_sum h.name
        + (unsigned_sum h.mode
            + (unsigned_sum h.uid
                + (unsigned_sum h.gid
                    + (unsigned_sum h.size
                        + (unsigned_sum h.mtime
                            + (unsigned_sum h.chksum
                                + (h.typeflag
                                    + (unsigned_sum h.linkname
                                        + (unsigned_sum h.magic
                                            + (unsigned_sum h.version
                                                + (unsigned_sum h.uname
                                                    + (unsigned_sum h.gname
                                                        + (unsigned_sum h.devmajor
                                                            + (unsigned_sum h.devminor
                                                            + (unsigned_sum h.prefix
                                                            + unsigned_sum h.padding)))))))))))))))
unfolding to_bytes unsigned_sum
header_sum h = simp unsigned_sum-append

spaces_sum : unsigned_sum (replicate 8 b' ') ≡ 256
unfolding unsigned_sum
spaces_sum = refl

size_sum : (value : ℕ) → unsigned_sum (to_octal 12 value) ≤ 637
unfolding to_octal unsigned_sum
size_sum value = omega (arith, unsigned_sum-octal_digits 11 value (b' ' ∷ []))

blank_sum :
    (name : Bytes) (size : Option ℕ) (typeflag : ℕ)
    → IsBytes name
    → typeflag < 256
    → unsigned_sum (to_bytes (blank name size typeflag)) < 8 ^ 7
blank_sum name size typeflag hn hf = rw (header_sum (blank name size typeflag)) (
    omega (
      arith,
      name_sum name hn,
      spaces_sum,
      size_sum (size_pattern size),
      unsigned_sum-zeros 2,
      unsigned_sum-zeros 6,
      unsigned_sum-zeros 8,
      unsigned_sum-zeros 12,
      unsigned_sum-zeros 32,
      unsigned_sum-zeros 100,
      unsigned_sum-zeros 155,
    ))

-- A header that TarConsumer::writeHeader fills in passes the checksum test of the reader, for every
-- name of bytes, size and type.
pub verify-fill_header :
    (name : Bytes) (size : Option ℕ) (typeflag : ℕ)
    → IsBytes name
    → typeflag < 256
    → verify (fill_header name size typeflag) ≡ true
unfolding verify fill_header checksum
verify-fill_header name size typeflag hn hf =
    let sum = unsigned_sum (to_bytes (blank name size typeflag)) in
    let small : sum < 8 ^ 7 = blank_sum name size typeflag hn hf in
    rw (from_octal-to_octal 7 sum (omega arith) small, ==_refl sum)

-- A size below 8 GiB that is written is read back.
pub get_size-fill_header :
    (name : Bytes) (size typeflag : ℕ)
    → size < max_file_size
    → get_size (fill_header name (some size) typeflag) ≡ some size
unfolding get_size fill_header
get_size-fill_header name size typeflag h =
    let fits : ltb max_file_size size ≡ false = ground arith in
    rw (from_octal-to_octal 11 size (omega arith) (omega arith), fits)

until_nul-append : (s t : Bytes) → All (λ c. c ≢ 0) s → until_nul (s ++ 0 ∷ t) ≡ s
unfolding until_nul
until_nul-append [] t h = refl
until_nul-append (c ∷ s) t h = ground (arith, until_nul-append s t h.1)

-- A name of fewer than 100 bytes without a NUL is read back from the header that is written for it.
pub get_name-fill_header :
    (name : Bytes) (size : Option ℕ) (typeflag : ℕ)
    → All (λ c. c ≢ 0) name
    → length name < 100
    → get_name (fill_header name size typeflag) ≡ name
unfolding get_name fill_header
get_name-fill_header name size typeflag h short =
    let whole : take 100 name ≡ name = take_all 100 name (omega arith) in
    let room : 100 - length name ≡ suc (99 - length name) = omega arith in
    rw (whole, room) (until_nul-append name (replicate (99 - length name) 0) h)
