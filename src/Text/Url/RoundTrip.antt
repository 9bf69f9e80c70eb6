-- ===== src/Text/Url/RoundTrip.antt =====
-- `urlDecode` undoes `urlEncode`.
use libcdoc.Base.{
  ℕ, ◌<◌, ◌/◌, ◌%◌, Bytes, IsBytes, [], ◌∷◌, ◌++◌, false, ◌==◌, ◌≡◌, refl, ap, ◌∙◌, arith,
}
use libcdoc.Text.Hex.{hex_char, hex_byte, from_hex_at}
use libcdoc.Text.Hex.RoundTrip.{from_chars_pair-hex_byte}
use libcdoc.Text.Url.{is_alnum, encode_char, url_encode, decode_char, url_decode}

decode_plain :
    (c : ℕ) (s : Bytes) → (c == b'%') ≡ false → url_decode (c ∷ s) ≡ decode_char c ∷ url_decode s
unfolding url_decode
decode_plain c [] h = refl
decode_plain c (a ∷ []) h = refl
decode_plain c (a ∷ b ∷ s) h = rw h

decode_escape :
    (b : ℕ) (s : Bytes)
    → b < 256
    → url_decode (b'%' ∷ hex_char (b / 16) ∷ hex_char (b % 16) ∷ s) ≡ b ∷ url_decode s
unfolding url_decode from_hex_at
decode_escape b s h = ground (arith, from_chars_pair-hex_byte b h)

decode-encode_char :
    (c : ℕ) (s : Bytes) → c < 256 → url_decode (encode_char c ++ s) ≡ c ∷ url_decode s
unfolding encode_char hex_byte is_alnum decode_char
decode-encode_char c s h =
    ground (arith, decode_escape c s h, decode_plain c s, decode_plain b'+' s)

-- Decoding the URL-encoded form of any byte string gives the byte string back.
pub url_decode-url_encode : (s : Bytes) → IsBytes s → url_decode (url_encode s) ≡ s
unfolding url_encode
url_decode-url_encode [] h = unfold url_decode in refl
url_decode-url_encode (c ∷ s) h =
    decode-encode_char c (url_encode s) h.0 ∙ ap (λ t. c ∷ t) (url_decode-url_encode s h.1)
