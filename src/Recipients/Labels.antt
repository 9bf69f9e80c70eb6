-- ===== src/Recipients/Labels.antt =====
-- A label that `Recipient::getLabel` (cdoc/Recipient.cpp) makes is read back by `Lock::parseLabel`
-- (cdoc/Lock.cpp).
use libcdoc.Base.{
  ℕ, Bytes, IsBytes, All, map, codes, [], ◌∷◌, ◌++◌, append_assoc, append-nil, Bool, true, false,
  not, ◌&&◌, ◌==◌, ==_refl, list_eq, Option, none, if◌then◌else◌, ◌≡◌, refl, sym, ap, ◌∙◌, ◌⊎◌, inl,
  inr, arith, Bool-cases, all_below, all_below_sound,
}
use libcdoc.Text.Hex.{hex_byte, hex_char}
use libcdoc.Text.Url.{is_alnum, encode_char, url_encode, decode_char, url_decode}
use libcdoc.Text.Url.RoundTrip.{url_decode-url_encode}
use libcdoc.Locks.Label.{
  assign, lower_char, cut_at, split_view, read_entry, read_parts, after_mark, drop_comma,
  parse_label,
}
use libcdoc.Recipients.{
  Recipient, symmetric_key, public_key, Properties, label_part, extra_parts, label_parts, lookup,
  get_label,
}

-- The byte `d` does not occur.
unfoldable lacks : ℕ → Bytes → Bool
lacks d [] = true
lacks d (c ∷ s) = not (c == d) && lacks d s

lacks-append : (d : ℕ) (a b : Bytes) → lacks d a ≡ true → lacks d b ≡ true → lacks d (a ++ b) ≡ true
unfolding lacks
lacks-append d [] b ha hb = hb
lacks-append d (c ∷ a) b ha hb = let later = lacks-append d a b in ground (arith, later)

lacks-url_encode :
    (d : ℕ) (s : Bytes)
    → all_below 256 (λ c. lacks d (encode_char c)) ≡ true
    → IsBytes s
    → lacks d (url_encode s) ≡ true
unfolding url_encode lacks
lacks-url_encode d [] table bytes = refl
lacks-url_encode d (c ∷ s) table bytes =
    lacks-append d (encode_char c) (url_encode s)
      (all_below_sound 256 (λ x. lacks d (encode_char x)) c table bytes.0)
      (lacks-url_encode d s table bytes.1)

no_equals : all_below 256 (λ c. lacks b'=' (encode_char c)) ≡ true
unfolding all_below lacks encode_char is_alnum hex_byte hex_char
no_equals = refl

no_ampersand : all_below 256 (λ c. lacks b'&' (encode_char c)) ≡ true
unfolding all_below lacks encode_char is_alnum hex_byte hex_char
no_ampersand = refl

no_semicolon : all_below 256 (λ c. lacks b';' (encode_char c)) ≡ true
unfolding all_below lacks encode_char is_alnum hex_byte hex_char
no_semicolon = refl

cut_at-append :
    (d : ℕ) (p rest item : Bytes)
    → lacks d p ≡ true
    → cut_at d (p ++ rest) item ≡ cut_at d rest (item ++ p)
unfolding cut_at lacks
cut_at-append d [] rest item h = rw append-nil
cut_at-append d (c ∷ p) rest item h =
    ground (arith, cut_at-append d p rest (item ++ c ∷ []), append_assoc item (c ∷ []) p)

cut_at-all : (d : ℕ) (p item : Bytes) → lacks d p ≡ true → cut_at d p item ≡ (item ++ p) ∷ []
unfolding cut_at
cut_at-all d p item h = ap (λ t. cut_at d t item) (sym (append-nil p)) ∙ cut_at-append d p [] item h

cut_at_stop : (d : ℕ) (s item : Bytes) → cut_at d (d ∷ s) item ≡ item ∷ cut_at d s []
unfolding cut_at
cut_at_stop d s item = rw (==_refl d)

split_view-cut_at : (d x : ℕ) (a b : Bytes) → split_view d (a ++ x ∷ b) ≡ cut_at d (a ++ x ∷ b) []
unfolding split_view
split_view-cut_at d x [] b = refl
split_view-cut_at d x (c ∷ a) b = refl

read_pair :
    (k v : Bytes) (m : Properties)
    → IsBytes k
    → IsBytes v
    → map lower_char k ≡ k
    → read_entry (split_view b'=' (url_encode k ++ b'=' ∷ url_encode v)) m ≡ assign k v m
unfolding read_entry
read_pair k v m hk hv low =
    rw
      (
        split_view-cut_at b'=' b'=' (url_encode k) (url_encode v),
        cut_at-append b'=' (url_encode k) (b'=' ∷ url_encode v) []
            (lacks-url_encode b'=' k no_equals hk),
        cut_at_stop b'=' (url_encode v) (url_encode k),
        cut_at-all b'=' (url_encode v) [] (lacks-url_encode b'=' v no_equals hv),
        read_entry,
        url_decode-url_encode k hk,
        url_decode-url_encode v hv,
        low,
      )
      refl

after_mark-none : (s : Bytes) → lacks b';' s ≡ true → after_mark s ≡ none
unfolding after_mark lacks
after_mark-none [] h = refl
after_mark-none (c ∷ s) h = let later = after_mark-none s in ground (arith, later)

-- The properties of a map that a label can carry, keys in lower case.
abbrev pub IsPlain : Bytes × Bytes → Type 0
IsPlain (k, v) = IsBytes k × IsBytes v × (map lower_char k ≡ k)

-- Properties are assigned one after the other, but for the version.
unfoldable pub assign_all : Properties → Properties → Properties
assign_all [] m = m
assign_all ((k, v) ∷ ps) m =
    let skip = assign_all ps m in
    let next = assign_all ps (assign k v m) in if list_eq k (codes "v") then skip else next

lacks-part :
    (d : ℕ) (k v : Bytes)
    → all_below 256 (λ c. lacks d (encode_char c)) ≡ true
    → (b'=' == d) ≡ false
    → IsBytes k
    → IsBytes v
    → lacks d (url_encode k ++ b'=' ∷ url_encode v) ≡ true
unfolding lacks
lacks-part d k v table other hk hv =
    lacks-append d (url_encode k) (b'=' ∷ url_encode v) (lacks-url_encode d k table hk)
      (rw other (lacks-url_encode d v table hv))

read_parts-label_parts :
    (ps : Properties) (item : Bytes) (m : Properties)
    → All IsPlain ps
    → read_parts (cut_at b'&' (label_parts ps []) item) m
      ≡ assign_all ps (read_entry (split_view b'=' item) m)
unfolding label_parts label_part extra_parts lookup read_parts cut_at assign_all
read_parts-label_parts [] item m h = refl
read_parts-label_parts ((k, v) ∷ ps) item m h = elim (Bool-cases (list_eq k (codes "v"))) [
  | inl version ↦ rw (version, label_parts, assign_all) (read_parts-label_parts ps item m h.1)
  | inr other ↦
      (let part : Bytes = url_encode k ++ b'=' ∷ url_encode v in
        let rest : Bytes = label_parts ps [] in
        let before : Properties = read_entry (split_view b'=' item) m in
        rw
          (
            other,
            cut_at-append b'&' part rest [] (lacks-part b'&' k v no_ampersand refl h.0.0 h.0.1),
            read_parts,
            ← read_pair k v before h.0.0 h.0.1 h.0.2,
          )
          (read_parts-label_parts ps part before h.1))
]

lacks-label_parts : (ps : Properties) → All IsPlain ps → lacks b';' (label_parts ps []) ≡ true
unfolding label_parts label_part extra_parts lookup lacks
lacks-label_parts [] h = refl
lacks-label_parts ((k, v) ∷ ps) h = elim (Bool-cases (list_eq k (codes "v"))) [
  | inl version ↦ rw (version, label_parts) (lacks-label_parts ps h.1)
  | inr other ↦ rw other (
      lacks-append b';' (url_encode k ++ b'=' ∷ url_encode v) (label_parts ps [])
        (lacks-part b';' k v no_semicolon refl h.0.0 h.0.1) (lacks-label_parts ps h.1))
]

get_label_written :
    (r : Recipient)
    → (r.type ≡ symmetric_key) ⊎ (r.type ≡ public_key)
    → r.label ≡ []
    → get_label [] r ≡ codes "data:,v=1" ++ label_parts r.lbl_parts []
unfolding get_label
get_label_written r (inl kind) bare = rw (get_label, bare, kind) refl
get_label_written r (inr kind) bare = rw (get_label, bare, kind) refl

parse_written :
    (decode : Bytes → Option Bytes) (parts : Bytes)
    → lacks b';' parts ≡ true
    → parse_label decode (codes "data:,v=1" ++ parts)
      ≡ read_parts (cut_at b'&' parts (codes "v=1")) []
unfolding parse_label drop_comma split_view cut_at lacks
parse_written decode parts h =
    let plain = after_mark-none (codes ",v=1" ++ parts) h in rw plain refl

version_first :
    (ps : Properties)
    → assign_all ps (read_entry (split_view b'=' (codes "v=1")) [])
      ≡ assign_all ps ((codes "v", codes "1") ∷ [])
unfolding read_entry split_view cut_at assign url_decode decode_char lower_char
version_first ps = refl

-- The label that is made for a recipient without one, which has a symmetric key or a public key and
-- properties of bytes with keys in lower case, is read back, whatever decodes Base64: the
-- properties that are read are the version 1, and the recipient's own but for one named v, assigned
-- in order.
pub parse_label-get_label :
    (decode : Bytes → Option Bytes) (r : Recipient)
    → (r.type ≡ symmetric_key) ⊎ (r.type ≡ public_key)
    → r.label ≡ []
    → All IsPlain r.lbl_parts
    → parse_label decode (get_label [] r) ≡ assign_all r.lbl_parts ((codes "v", codes "1") ∷ [])
parse_label-get_label decode r kind bare plain =
    ap (parse_label decode) (get_label_written r kind bare)
    ∙ parse_written decode (label_parts r.lbl_parts []) (lacks-label_parts r.lbl_parts plain)
    ∙ read_parts-label_parts r.lbl_parts (codes "v=1") [] plain
    ∙ version_first r.lbl_parts
