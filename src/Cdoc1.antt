-- ===== src/Cdoc1.antt =====
-- `CDoc1Reader` of cdoc/CDoc1Reader.h and cdoc/CDoc1Reader.cpp, but its constructor, which is in
-- Cdoc1/Parse. A call through a missing back end is not modelled.
pub mod Xml
pub mod Session
pub mod Search
pub mod Key
pub mod Blind
pub mod Ends
mod Tests
pub mod Parse
pub mod Files
pub mod Oracle
pub mod Throttle
pub mod Verified
use libcdoc.Base.{
  ℕ, zero, suc, ◌+◌, ◌-◌, Bytes, codes, length, take, drop, replicate, get_elem?, List, [], ◌∷◌,
  ◌++◌, Bool, true, false, ◌&&◌, ◌||◌, not, Option, none, some, ltb, leb, ◌==◌, list_eq,
  if◌then◌else◌,
}
use libcdoc.Outcome.{
  Result, count, fail, ok, is_ok, wrong_arguments, workflow_error, crypto_error, io_error,
  not_found, not_supported, end_of_stream, Got, got, refused, File, file, no_file, Code,
}
use libcdoc.Io.{
  Source, Sink, VectorSource, vector_source, vector_read, vector_consumer, write_all_loop,
}
use libcdoc.Text.Hex.{to_hex}
use libcdoc.Locks.{
  Lock, Algorithm, rsa, ecc, unknown_algorithm, get_bytes, get_string, is_rsa, cert, rcpt_key,
  key_material, concat_digest, method, algorithm_id, party_uinfo, party_vinfo,
}
use libcdoc.Decrypt.{DecryptionSource}
use libcdoc.Decrypt as Decrypt
use libcdoc.Payload.{Parts, decryption_source, z_source, new_zsource}
use libcdoc.Payload.Whole.{MultiSink}
use libcdoc.Cdoc1.Xml.{
  TextReader, XmlReader, DdocFile, octet_stream, file_list, parse, read, read_base64, is_element,
  is_end_element, is_error,
}

-- The ciphers that Crypto::cipher knows.
pub data Evp : Type 0 where
  aes_128_gcm aes_192_gcm aes_256_gcm : Evp

abbrev pub aes128gcm_mth : Bytes
aes128gcm_mth = codes "http://www.w3.org/2009/xmlenc11#aes128-gcm"

abbrev pub aes192gcm_mth : Bytes
aes192gcm_mth = codes "http://www.w3.org/2009/xmlenc11#aes192-gcm"

abbrev pub aes256gcm_mth : Bytes
aes256gcm_mth = codes "http://www.w3.org/2009/xmlenc11#aes256-gcm"

abbrev pub rsa_mth : Bytes
rsa_mth = codes "http://www.w3.org/2001/04/xmlenc#rsa-1_5"

abbrev pub mime_zlib : Bytes
mime_zlib = codes "http://www.isi.edu/in-noes/iana/assignments/media-types/application/zip"

abbrev pub mime_ddoc : Bytes
mime_ddoc = codes "http://www.sk.ee/DigiDoc/v1.3.0/digidoc.xsd"

abbrev pub mime_ddoc_old : Bytes
mime_ddoc_old = codes "http://www.sk.ee/DigiDoc/1.3.0/digidoc.xsd"

-- `Crypto::cipher`.
unfoldable pub cipher_named : Bytes → Option Evp
cipher_named algo =
    if list_eq algo aes128gcm_mth
    then some aes_128_gcm
    else if list_eq algo aes192gcm_mth
    then some aes_192_gcm
    else if list_eq algo aes256gcm_mth
    then some aes_256_gcm
    else none

abbrev pub supported_kwaes : List Bytes
supported_kwaes =
    codes "http://www.w3.org/2001/04/xmlenc#kw-aes128"
    ∷ codes "http://www.w3.org/2001/04/xmlenc#kw-aes192"
    ∷ codes "http://www.w3.org/2001/04/xmlenc#kw-aes256"
    ∷ []

abbrev pub supported_methods : List Bytes
supported_methods = aes128gcm_mth ∷ aes192gcm_mth ∷ aes256gcm_mth ∷ []

-- `std::find`.
unfoldable pub is_member : Bytes → List Bytes → Bool
is_member s [] = false
is_member s (t ∷ l) = list_eq t s || is_member s l

-- The container's source, libxml2 over any source, the streams of the payload for a cipher (or for
-- a null pointer), EVP_CIPHER_key_length, `CryptoBackend`, Crypto::AESWrap, SHA256 and X.509.
pub record Library (S C Z : Type 0) (X : Type 0 → Type 0) : Type 1 where
  pub seek : ℕ → S → Result × S
  pub io : Source S
  pub xml : {T : Type 0} → TextReader (X T)
  pub open_xml : {T : Type 0} → Source T → T → X T
  pub source : {T : Type 0} → X T → T
  pub parts : Option Evp → Parts VectorSource C Z
  pub key_length : Evp → ℕ
  pub decrypt_rsa : Bytes → Bytes → ℕ → Result × Bytes
  pub derive_concat_kdf : Bytes → Bytes → Bytes → Bytes → Bytes → ℕ → Result × Bytes
  pub unwrap : Bytes → Bytes → Bytes
  pub sha256 : Bytes → Bytes
  pub public_key : Bytes → Bytes
  pub cert_algorithm : Bytes → Algorithm

-- `CDoc1Reader::Private`; an `f_pos` of -1 is `none`. `throttled` has the keys that
-- Crypto::rsaOracleThrottle was called with, which waits.
pub record Cdoc1 (S : Type 0) : Type 0 where
  pub dsrc : S
  pub mime : Bytes
  pub method : Bytes
  pub locks : List Lock
  pub properties : List (Bytes × Bytes)
  pub files : List DdocFile
  pub f_pos : Option ℕ
  pub src : Option VectorSource
  pub is_rsa : Bool
  pub throttle_key_id : Bytes
  pub throttled : List Bytes
  pub last_error : Bytes

-- `properties[key]`, which adds a value to the map where it has none.
unfoldable pub find_property : Bytes → List (Bytes × Bytes) → Option Bytes
find_property key [] = none
find_property key ((k, v) ∷ m) = if list_eq k key then some v else find_property key m

unfoldable pub property : {S : Type 0} → Bytes → Cdoc1 S → Bytes × Cdoc1 S
property key r = elim (find_property key r.properties) [
  | some v ↦ (v, r)
  | none ↦ ([], record r { properties = r.properties ++ (key, []) ∷ [] })
]

abbrev pub fail_msg : Bytes
fail_msg = codes "Failed to derive FMK"

abbrev pub body_msg : Bytes
body_msg = codes "Failed to decrypt data"

-- `fmk.resize`.
unfoldable pub resize : ℕ → Bytes → Bytes
resize n b = take n b ++ replicate (n - length b) 0

-- `report_failure`.
unfoldable pub report_failure : {S : Type 0} → Cdoc1 S → Cdoc1 S
report_failure r =
    if r.is_rsa && not (list_eq r.throttle_key_id [])
    then record r { throttled = r.throttled ++ r.throttle_key_id ∷ [] }
    else r

-- An exception, or an end of the fuel, goes on.
infixl 5 ◌>>=◌
abbrev pub ◌>>=◌ : {A B : Type 0} → Option A → (A → Option B) → Option B
none >>= f = none
(some a) >>= f = f a

abbrev pub is_ddoc : Bytes → Bool
is_ddoc mime = list_eq mime mime_ddoc || list_eq mime mime_ddoc_old

abbrev pub is_aes_len : ℕ → Bool
is_aes_len n = n == 16 || n == 24 || n == 32

module _ {S C Z : Type 0} {X : Type 0 → Type 0} (lib : Library S C Z X) where
  open lib use {
    seek, io, xml, open_xml, source, parts, key_length, decrypt_rsa, derive_concat_kdf, unwrap,
    sha256, cert_algorithm,
  }

  unfoldable pub expected_fmk_len : Bytes → ℕ
  expected_fmk_len m = elim (cipher_named m) [ none ↦ 0 | some c ↦ key_length c ]

  -- The end of `getFMK`.
  unfoldable pub check_len : ℕ → Bytes → Cdoc1 S → Result × Bytes × Cdoc1 S
  check_len n fmk r =
      if length fmk == n
      then (ok, fmk, r)
      else (fail crypto_error, [], record r { last_error = fail_msg })

  -- The branch of `getFMK` for RSA; `none` is the exception of `getBytes`.
  unfoldable pub rsa_fmk : ℕ → Lock → ℕ → Bytes → Cdoc1 S → Option (Result × Bytes × Cdoc1 S)
  rsa_fmk n lock idx fmk r =
      let (rv, key) = decrypt_rsa (resize n fmk) lock.encrypted_fmk idx in
      if is_ok rv
      then elim (get_bytes rcpt_key lock) [
        | none ↦ none
        | some pk ↦
            some
              (check_len n key (record r { is_rsa = true; throttle_key_id = to_hex (sha256 pk) }))
      ]
      else some (fail crypto_error, [], record r { last_error = fail_msg })

  -- The other branch.
  unfoldable pub ecc_fmk : ℕ → Lock → ℕ → Bytes → Cdoc1 S → Option (Result × Bytes × Cdoc1 S)
  ecc_fmk n lock idx fmk r = do
    material ← get_bytes key_material lock
    algorithm ← get_bytes algorithm_id lock
    uinfo ← get_bytes party_uinfo lock
    vinfo ← get_bytes party_vinfo lock
    (let (rv, key) =
          derive_concat_kdf material (get_string concat_digest lock) algorithm uinfo vinfo idx in
        let r' : Cdoc1 S = record r { is_rsa = false; throttle_key_id = [] } in
        let plain = unwrap key lock.encrypted_fmk in
        if is_error rv
        then some (fail crypto_error, fmk, record r' { last_error = fail_msg })
        else some (check_len n (if length plain == n then plain else replicate n 0) r'))

  -- `CDoc1Reader::getFMK`, with the caller's vector before and after it.
  unfoldable pub get_fmk : ℕ → Bytes → Cdoc1 S → Option (Result × Bytes × Cdoc1 S)
  get_fmk idx fmk r = elim (get_elem? r.locks idx) [
    | none ↦ some (fail wrong_arguments, fmk, r)
    | some lock ↦
        let n = expected_fmk_len r.method in
        let r' : Cdoc1 S = record r { last_error = [] } in
        if is_aes_len n
        then (if is_rsa lock then rsa_fmk n lock idx fmk r' else ecc_fmk n lock idx fmk r')
        else some (fail crypto_error, fmk, record r { last_error = fail_msg })
  ]

  -- The loop of `getLockForCert`, from index `i` on.
  unfoldable pub lock_loop : Bytes → ℕ → List Lock → Cdoc1 S → Option (Result × Cdoc1 S)
  lock_loop c i [] r =
      some (fail not_found, record r { last_error = codes "No lock found with certificate key" })
  lock_loop c i (lock ∷ locks) r =
      let rest = lock_loop c (i + 1) locks r in
      elim (get_bytes cert lock) [
        | none ↦ none
        | some c' ↦
            if not (list_eq c' c) || list_eq lock.encrypted_fmk []
            then rest
            else elim (cert_algorithm c) [
              | rsa ↦ if list_eq (get_string method lock) rsa_mth then some (count i, r) else rest
              | ecc ↦ elim (get_bytes key_material lock) [
                | none ↦ none
                | some material ↦
                    if not (list_eq material [])
                      && is_member (get_string method lock) supported_kwaes
                    then some (count i, r)
                    else rest
              ]
              | unknown_algorithm ↦
                  some (fail not_supported, record r { last_error = codes "Method not supported" })
            ]
      ]

  -- `CDoc1Reader::getLockForCert`.
  unfoldable pub get_lock_for_cert : Bytes → Cdoc1 S → Option (Result × Cdoc1 S)
  get_lock_for_cert c r =
      if is_member r.method supported_methods
      then lock_loop c 0 r.locks r
      else some (fail not_supported, r)

  -- What `decryptData` does with the stream of the payload: a source, its state and the media type.
  pub record Body (A : Type 0) : Type 1 where
    pub run : {T : Type 0} → Source T → T → Bytes → Cdoc1 S → A → Option (Result × T × Cdoc1 S × A)

  -- The loop of `decryptData` that looks for the payload, with fuel; `ends` and `starts` count the
  -- tags of KeyInfo, whose difference is `skipKeyInfo`.
  unfoldable pub payload_loop : ℕ → ℕ → ℕ → XmlReader (X S) → Option (Bytes × XmlReader (X S))
  payload_loop zero ends starts x = none
  payload_loop (suc fuel) ends starts x =
      let (more, x') = read xml x in
      let ended = payload_loop fuel (ends + 1) starts x' in
      let started = payload_loop fuel ends (starts + 1) x' in
      let passed = payload_loop fuel ends starts x' in
      if not more
      then some ([], x')
      else if is_element xml (codes "KeyInfo") x' && is_end_element xml x'
      then ended
      else if is_element xml (codes "KeyInfo") x'
      then started
      else if ltb ends starts
      then passed
      else if is_element xml (codes "CipherValue") x'
      then some (read_base64 xml x')
      else passed

  module _ {A : Type 0} (f : Body A) where
    -- The call of `f`, with what is left of the decrypting stream.
    unfoldable pub call_body :
        ℕ
        → Option Evp
        → DecryptionSource VectorSource C
        → Cdoc1 S
        → A
        → Option (Result × DecryptionSource VectorSource C × Cdoc1 S × A)
    call_body fuel evp d r a =
        let (original, r') = property (codes "OriginalMimeType") r in
        if list_eq r.mime mime_zlib
        then elim (f.run (z_source (parts evp) fuel) (new_zsource (parts evp) d) original r' a) [
          | none ↦ none
          | some (rv, z, r'', a') ↦ some (rv, z.src, r'', a')
        ]
        else f.run (decryption_source (parts evp)) d r.mime r a

    -- The end of `decryptData`, from what `f` returned.
    unfoldable pub close_body :
        Option Evp → Result → DecryptionSource VectorSource C → Cdoc1 S → A → Result × Cdoc1 S × A
    close_body evp rv d r a =
        let failed : Cdoc1 S = report_failure (record r { last_error = body_msg }) in
        let closed = (Decrypt.close (parts evp).io (parts evp).cipher d).0 in
        if is_error rv
        then (rv, failed, a)
        else if is_ok closed
        then (ok, r, a)
        else (closed, failed, a)

    -- Behind the search for the payload.
    unfoldable pub decrypt_body : ℕ → Bytes → Bytes → Cdoc1 S → A → Option (Result × Cdoc1 S × A)
    decrypt_body fuel fmk b64 r a =
        let evp = cipher_named r.method in
        let d =
          Decrypt.start (parts evp).io (parts evp).cipher fmk 0 (record { bytes = b64; ptr = 0 }) in
        elim d.error [
          | some c ↦
              some (fail crypto_error, report_failure (record r { last_error = body_msg }), a)
          | none ↦ elim (call_body fuel evp d r a) [
            | none ↦ none
            | some (rv, d', r', a') ↦ some (close_body evp rv d' r' a')
          ]
        ]

    -- What follows the search for the payload, from what was found.
    unfoldable pub decrypt_found :
        ℕ → Bytes → Cdoc1 S → A → Option (Bytes × XmlReader (X S)) → Option (Result × Cdoc1 S × A)
    decrypt_found fuel fmk r a none = none
    decrypt_found fuel fmk r a (some ([], x)) = some (
      fail io_error,
      record r { dsrc = source x.d; last_error = codes "Failed to decode base64 data" },
      a,
    )
    decrypt_found fuel fmk r a (some (b ∷ b64, x)) =
        decrypt_body fuel fmk (b ∷ b64) (record r { dsrc = source x.d; last_error = [] }) a

    -- `CDoc1Reader::decryptData`, with fuel for every loop.
    unfoldable pub decrypt_data : ℕ → Bytes → Cdoc1 S → A → Option (Result × Cdoc1 S × A)
    decrypt_data fuel fmk r a =
        let (rv, s) = seek 0 r.dsrc in
        let said : Bytes → Cdoc1 S = λ t. record r { last_error = t } in
        let opened : XmlReader (X S) = record { d = open_xml io s; error = false } in
        let found = decrypt_found fuel fmk r a (payload_loop fuel 0 0 opened) in
        if list_eq fmk []
        then some (fail wrong_arguments, said (codes "FMK is missing"), a)
        else if not (is_aes_len (length fmk))
        then some (
          fail wrong_arguments,
          said (codes "FMK must be AES key with size 128, 192, 256 bits"),
          a,
        )
        else elim r.files [
          | f0 ∷ files ↦ some (fail workflow_error, said (codes "Container is already parsed"), a)
          | [] ↦ elim r.f_pos [
            | some n ↦ some (fail workflow_error, said (codes "Container is already parsed"), a)
            | none ↦ if is_ok rv then found else some (rv, record r { dsrc = s }, a)
          ]
        ]
