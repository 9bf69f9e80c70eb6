-- ===== src/Text/Tests.antt =====
-- Texts that the functions of cdoc/Utils.h and cdoc/Utils.cpp are run on.
use libcdoc.Base.{
  Bytes, IsBytes, All, codes, [], ◌∷◌, ◌++◌, some, true, ◌≡◌, ◌↔◌, refl, ap, length, arith,
}
use libcdoc.Text.Hex.{from_chars_pair, hex_digit}
use libcdoc.Text.Url.{url_encode, url_decode}
use libcdoc.Text.Url.RoundTrip.{url_decode-url_encode}
use libcdoc.Text.Parts.{split, join}
use libcdoc.Text.Parts.Laws.{Lacks, split-join}
use libcdoc.Text.Utf8.{is_valid_utf8}
use libcdoc.Text.Utf8.Grammar.{WellFormed, is_valid_utf8_iff}

abbrev sample : Bytes
sample = codes "a b%" ++ 0xf0 ∷ 0x9f ∷ 0x98 ∷ 0x80 ∷ []

sample-IsBytes : IsBytes sample
sample-IsBytes = ground arith

-- `1g` is read as 1.
short_pair : from_chars_pair b'1' b'g' ≡ some 1
unfolding from_chars_pair hex_digit
short_pair = refl

url_decode-url_encode_example : url_decode (url_encode sample) ≡ sample
url_decode-url_encode_example = url_decode-url_encode sample sample-IsBytes

abbrev part : Bytes
part = codes "ab"

abbrev other_part : Bytes
other_part = codes "cde"

parts-Lacks : All (Lacks b',') (part ∷ other_part ∷ [])
parts-Lacks = ground arith

split-join_example : split (join (part ∷ other_part ∷ []) (b',' ∷ [])) b',' ≡ part ∷ other_part ∷ []
split-join_example =
    split-join b',' part (other_part ∷ []) parts-Lacks ((λ e. omega (arith, ap length e)), tt)
      (λ e. cc e)

is_valid_utf8_iff_example : (is_valid_utf8 sample ≡ true) ↔ WellFormed sample
is_valid_utf8_iff_example = is_valid_utf8_iff sample sample-IsBytes
