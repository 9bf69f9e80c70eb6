-- ===== src/Cdoc1/Parse.antt =====
-- The constructor of `CDoc1Reader` and isCDoc1File (cdoc/CDoc1Reader.cpp).
use libcdoc.Base.{
  ℕ, zero, suc, Bytes, codes, length, take, drop, [], ◌∷◌, ◌++◌, Bool, false, ◌&&◌, not, Option,
  none, some, list_eq, if◌then◌else◌,
}
use libcdoc.Outcome.{got, refused}
use libcdoc.Io.{Source}
use libcdoc.Text.Hex.{from_hex}
use libcdoc.Locks.{
  Lock, new_lock, cdoc1, cert, rcpt_key, key_material, concat_digest, method, algorithm_id,
  party_uinfo, party_vinfo, set_bytes,
}
use libcdoc.Locks.Label.{assign}
use libcdoc.Cdoc1.Xml.{
  XmlReader, read, is_element, is_end_element, attribute, read_base64, read_text,
}
use libcdoc.Cdoc1.{Library, Cdoc1}

-- `hex2bin`.
abbrev pub starts_with : Bytes → Bytes → Bool
starts_with s p = list_eq (take (length p) s) p

unfoldable pub hex2bin : Bytes → Bytes
hex2bin s = from_hex (if starts_with s (codes "00") then drop 2 s else s)

module _ {S C Z : Type 0} {X : Type 0 → Type 0} (lib : Library S C Z X) where
  open lib use {io, xml, open_xml, source, public_key, cert_algorithm}

  -- One start tag within EncryptedKey.
  unfoldable pub key_element : XmlReader (X S) → Lock → XmlReader (X S) × Lock
  key_element x key =
      let attr : Bytes → Bytes = λ name. attribute xml name x in
      let (bytes, x') = read_base64 xml x in
      if is_element xml (codes "EncryptionMethod") x
      then (x, set_bytes method (attr (codes "Algorithm")) key)
      else if is_element xml (codes "ConcatKDFParams") x
      then (
        x,
        set_bytes party_vinfo (hex2bin (attr (codes "PartyVInfo"))) (
            set_bytes party_uinfo (hex2bin (attr (codes "PartyUInfo")))
              (set_bytes algorithm_id (hex2bin (attr (codes "AlgorithmID"))) key)),
      )
      else if is_element xml (codes "DigestMethod") x
      then (x, set_bytes concat_digest (attr (codes "Algorithm")) key)
      else if is_element xml (codes "PublicKey") x
      then (x', set_bytes key_material bytes key)
      else if is_element xml (codes "X509Certificate") x
      then (
        x',
        record (set_bytes rcpt_key (public_key bytes) (set_bytes cert bytes key)) {
          pk_type = cert_algorithm bytes;
        },
      )
      else if is_element xml (codes "CipherValue") x
      then (x', record key { encrypted_fmk = bytes })
      else (x, key)

  -- The loop over an EncryptedKey, with fuel for its rounds.
  unfoldable pub key_loop : ℕ → XmlReader (X S) → Lock → Option (XmlReader (X S) × Lock)
  key_loop zero x key = none
  key_loop (suc fuel) x key =
      let (more, x1) = read xml x in
      let (x2, key') = key_element x1 key in
      let passed = key_loop fuel x1 key in
      let rest = key_loop fuel x2 key' in
      if not more
      then some (x1, key)
      else if is_element xml (codes "EncryptedKey") x1 && is_end_element xml x1
      then some (x1, key)
      else if is_end_element xml x1
      then passed
      else rest

  -- The loop over the document, with fuel for its rounds.
  unfoldable pub parse_loop : ℕ → XmlReader (X S) → Cdoc1 S → Option (XmlReader (X S) × Cdoc1 S)
  parse_loop zero x r = none
  parse_loop (suc fuel) x r =
      let (more, x1) = read xml x in
      let attr : Bytes → Bytes = λ name. attribute xml name x1 in
      let (text, x2) = read_text xml x1 in
      let key = record new_lock { type = cdoc1; label = attr (codes "Recipient") } in
      let passed = parse_loop fuel x1 r in
      let typed = parse_loop fuel x1 (record r { mime = attr (codes "MimeType") }) in
      let named = parse_loop fuel x1 (record r { method = attr (codes "Algorithm") }) in
      let valued =
        parse_loop fuel x2
          (record r { properties = assign (attr (codes "Name")) text r.properties }) in
      let keyed : Option (XmlReader (X S) × Cdoc1 S) = elim (key_loop fuel x1 key) [
        | none ↦ none
        | some (x3, key') ↦ parse_loop fuel x3 (record r { locks = r.locks ++ key' ∷ [] })
      ] in
      if not more
      then some (x1, r)
      else if is_end_element xml x1
      then passed
      else if is_element xml (codes "EncryptedData") x1
      then typed
      else if is_element xml (codes "EncryptionMethod") x1
      then named
      else if is_element xml (codes "EncryptionProperty") x1
      then valued
      else if is_element xml (codes "EncryptedKey") x1
      then keyed
      else passed

  -- The state that the constructor starts from.
  abbrev pub new_cdoc1 : S → Cdoc1 S
  new_cdoc1 s = record {
    dsrc = s;
    mime = [];
    method = [];
    locks = [];
    properties = [];
    files = [];
    f_pos = none;
    src = none;
    is_rsa = false;
    throttle_key_id = [];
    throttled = [];
    last_error = [];
  }

  -- The constructor.
  unfoldable pub open_container : ℕ → S → Option (Cdoc1 S)
  open_container fuel s =
      let opened : XmlReader (X S) = record { d = open_xml io s; error = false } in
      elim (parse_loop fuel opened (new_cdoc1 s)) [
        | none ↦ none
        | some (x, r) ↦ some (record r {
          dsrc = source x.d;
          last_error = if x.error then codes "Cannot parse container" else r.last_error;
        })
      ]

module _ {S : Type 0} (io : Source S) where
  abbrev pub utf8_bom : Bytes
  utf8_bom = 0xEF ∷ 0xBB ∷ 0xBF ∷ []

  abbrev pub xml_tag : Bytes
  xml_tag = codes "<?xml"

  -- `isCDoc1File`; what stands in the buffer beyond the bytes that were read is not looked at.
  unfoldable pub is_cdoc1_file : S → Bool
  is_cdoc1_file s = elim (io.read 8 s) [
    | refused c s' ↦ false
    | got b s' ↦
        (let start = if starts_with b utf8_bom then drop 3 b else b in starts_with start xml_tag)
  ]
