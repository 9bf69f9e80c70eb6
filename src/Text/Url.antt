-- ===== src/Text/Url.antt =====
-- `urlEncode` of cdoc/Utils.cpp and `urlDecode` of cdoc/Utils.h.
pub mod RoundTrip
use libcdoc.Base.{
  ℕ, Bytes, List, [], ◌∷◌, ◌++◌, Option, none, some, Bool, ◌&&◌, ◌||◌, leb, ◌==◌, if◌then◌else◌,
}
use libcdoc.Text.Hex.{hex_byte, from_hex_at, from_chars_pair}

-- `std::isalnum` in the "C" locale.
unfoldable pub is_alnum : ℕ → Bool
is_alnum c = (leb b'0' c && leb c b'9') || (leb b'A' c && leb c b'Z') || (leb b'a' c && leb c b'z')

-- One round of the loop of `operator<<(std::ostream&, urlEncode)`.
unfoldable pub encode_char : ℕ → Bytes
encode_char c =
    if c == b' '
    then b'+' ∷ []
    else if is_alnum c || c == b'-' || c == b'_' || c == b'.' || c == b'~'
    then c ∷ []
    else b'%' ∷ hex_byte c

unfoldable pub url_encode : Bytes → Bytes
url_encode [] = []
url_encode (c ∷ s) = encode_char c ++ url_encode s

-- What the loop of `urlDecode` appends for a character that starts no escape.
unfoldable pub decode_char : ℕ → ℕ
decode_char c = if c == b'+' then b' ' else c

-- `urlDecode`: an escape takes three characters, and a `%` that starts none stays.
unfoldable pub url_decode : Bytes → Bytes
url_decode [] = []
url_decode (c ∷ []) = decode_char c ∷ []
url_decode (c ∷ a ∷ []) = decode_char c ∷ url_decode (a ∷ [])
url_decode (c ∷ a ∷ b ∷ s) =
    let after = url_decode s in
    let next = url_decode (a ∷ b ∷ s) in
    if c == b'%'
    then elim (from_hex_at (a ∷ b ∷ s)) [ none ↦ c ∷ next | some v ↦ v ∷ after ]
    else decode_char c ∷ next
