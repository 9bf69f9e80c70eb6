-- ===== src/Capsules.antt =====
-- `CDoc2Writer::buildHeader` (cdoc/CDoc2Writer.cpp): the records of the recipients of a container,
-- each with the container's key under a key of its own.
pub mod Secret
pub mod Pki
pub mod Whole
mod Tests
use libcdoc.Base.{
  ℕ, zero, suc, ◌+◌, ◌-◌, ◌^◌, min, Bytes, length, replicate, codes, map, List, [], ◌∷◌, ◌++◌, Bool,
  true, false, not, ◌&&◌, ltb, ◌==◌, list_eq, Option, none, some, if◌then◌else◌,
}
use libcdoc.Outcome.{
  Code, configuration_error, crypto_error, unspecified_error, Result, count, fail, ok,
}
use libcdoc.Tar.Pax.{to_string}
use libcdoc.Zip.Consumer.{is_below}
use libcdoc.Container.{key_len}
use libcdoc.Locks.{Algorithm, ecc, rsa, Curve, unknown_curve, secp_384_r1, secp_256_r1, secp_521_r1}
use libcdoc.Locks.Build.{
  EllipticCurve, secp384r1, secp256r1, secp521r1, other_curve, KeyDetails, ecc_details, rsa_details,
  Capsule, ecc_public_key, rsa_public_key, key_server, symmetric, pbkdf2, key_shares,
  RecipientRecord,
}
use libcdoc.Recipients.{
  Recipient, RecipientType, no_recipient, symmetric_key, public_key, key_share, Properties,
  get_label,
}
use libcdoc.Keys.{Key, key, no_key, xor_data, first_share}
use libcdoc.Keys.Unlock.{Backend, kek_info, premaster, extract_hkdf}

-- What building leaves, with the state of the services: `undefined` is a call through a null
-- pointer.
pub data Made (A B : Type 0) : Type 0 where
  made : A → B → Made A B
  stopped : Result → B → Made A B
  undefined : Made A B

abbrev pub Build : Type 0 → Type 0 → Type 0
Build B A = B → Made A B

-- What follows a step that is made.
abbrev pub after : {B A C : Type 0} → Made A B → (A → Build B C) → Made C B
after (made a b) f = f a b
after (stopped r b) f = stopped r b
after undefined f = undefined

infixl 5 ◌>>=◌ ◌>>◌
abbrev pub ◌>>=◌ : {B A C : Type 0} → Build B A → (A → Build B C) → Build B C
◌>>=◌ m f b = after (m b) f

abbrev pub ◌>>◌ : {B C : Type 0} → Build B (Unit {0}) → Build B C → Build B C
m >> k = m >>= λ _. k

abbrev pub pure : {B A : Type 0} → A → Build B A
pure a b = made a b

abbrev pub stop : {B A : Type 0} → Code → Build B A
stop c b = stopped (fail c) b

abbrev pub unless : {B : Type 0} → Bool → Code → Build B (Unit {0})
unless fine c = if fine then pure tt else stop c

-- `if (rv < 0) FAIL(…, rv);`, of a call of a service.
abbrev pub checked : {B A : Type 0} → Result × A × B → Made A B
checked (rv, a, b) = if is_below rv then stopped rv b else made a b

-- `if (err != OK) FAIL(…, err);`, of a key.
abbrev pub as_made : {B : Type 0} → Key → Build B Bytes
as_made (key k) b = made k b
as_made (no_key r) b = stopped r b

-- What a writer uses beside the keys' back end: random bytes, the configuration with the URLs of
-- servers, OpenSSL's encryption to an RSA key (`none` for bytes that are no such key), its
-- ephemeral key with the secret that it shares with an EC key (likewise), and the servers.
-- `share_urls` is `none` when the setting is empty.
pub record Services (B : Type 0) : Type 0 where
  pub keys : Backend
  pub random : ℕ → B → Result × Bytes × B
  pub has_conf : Bool
  pub send_url : Bytes → Bytes
  pub share_urls : Bytes → Option (List Bytes)
  pub encrypt_rsa : Bytes → Bytes → B → Option Bytes × B
  pub ecc_secret : Curve → Bytes → B → Option (Bytes × Bytes) × B
  pub send_key : Bytes → Bytes → Bytes → Bytes → ℕ → B → Result × (Bytes × ℕ) × B
  pub send_share : Bytes → Bytes → Bytes → B → Result × Bytes × B

-- The table of the curves: flatbuffers' value and the name that a key server has for it.
unfoldable pub ec_data : Curve → Option (EllipticCurve × Bytes)
ec_data unknown_curve = none
ec_data secp_384_r1 = some (secp384r1, codes "ecc_secp384r1")
ec_data secp_256_r1 = some (secp256r1, codes "ecc_secp256r1")
ec_data secp_521_r1 = some (secp521r1, codes "ecc_secp521r1")

-- The property of a label that says when a server forgets a key.
abbrev pub expiry_property : Bytes → Properties
expiry_property text = (codes "server_exp", text) ∷ []

abbrev pub expiry_text : Recipient → Bytes
expiry_text r = if r.expiry_ts == 0 then [] else to_string r.expiry_ts

-- `if (rcpt.expiry_ts) expiry_time = std::min(rcpt.expiry_ts, expiry_time);`.
abbrev pub earlier : Recipient → ℕ → ℕ
earlier r time = if r.expiry_ts == 0 then time else min r.expiry_ts time

-- `CreateRecipientRecord`, with the method XOR.
abbrev pub record_of : Bytes → Bytes → Capsule → RecipientRecord
record_of label xor_key capsule = record {
  is_xor = true;
  key_label = label;
  encrypted_fmk = xor_key;
  capsule = capsule;
}

unfoldable pub rsa_capsule : Recipient → Bytes → Bytes → RecipientRecord
rsa_capsule r encrypted xor_key =
    record_of (get_label (expiry_property (expiry_text r)) r) xor_key
      (rsa_public_key r.rcpt_key encrypted)

unfoldable pub ecc_capsule : Recipient → EllipticCurve → Bytes → Bytes → RecipientRecord
ecc_capsule r curve ephemeral xor_key =
    record_of (get_label (expiry_property (expiry_text r)) r) xor_key
      (ecc_public_key curve r.rcpt_key ephemeral)

unfoldable pub server_capsule : Recipient → KeyDetails → Bytes × ℕ → Bytes → RecipientRecord
server_capsule r details (transaction, time) xor_key =
    record_of (get_label (expiry_property (to_string (earlier r time))) r) xor_key
      (key_server details r.server_id transaction)

unfoldable pub symmetric_capsule : Recipient → Bytes → Bytes → RecipientRecord
symmetric_capsule r salt xor_key = record_of (get_label [] r) xor_key (symmetric salt)

unfoldable pub password_capsule : Recipient → Bytes → Bytes → Bytes → RecipientRecord
password_capsule r salt pw_salt xor_key =
    record_of (get_label [] r) xor_key (pbkdf2 salt pw_salt true r.kdf_iter)

abbrev pub is_key_server : Recipient → Bool
is_key_server r = not (list_eq r.server_id [])

abbrev zip_pairs : List Bytes → List Bytes → List (Bytes × Bytes)
zip_pairs [] ids = []
zip_pairs (u ∷ urls) [] = []
zip_pairs (u ∷ urls) (i ∷ ids) = (u, i) ∷ zip_pairs urls ids

module _ {B : Type 0} (s : Services B) where
  open s use {
    keys, random, has_conf, send_url, share_urls, encrypt_rsa, ecc_secret, send_key, send_share,
  }

  abbrev pub random_key : Build B Bytes
  random_key b = checked (random key_len b)

  -- What a recipient with a key server needs; any other has no URL.
  unfoldable pub server_url : Recipient → Build B Bytes
  server_url r =
      if is_key_server r
      then (do
        unless has_conf configuration_error
        unless keys.has_network configuration_error
        unless (not (list_eq (send_url r.server_id) [])) configuration_error
        pure (send_url r.server_id))
      else pure []

  abbrev sent : Bytes → Recipient → Bytes → Bytes → Build B (Bytes × ℕ)
  sent url r material type b = checked (send_key url r.rcpt_key material type r.expiry_ts b)

  -- `none` is a key that OpenSSL does not take.
  abbrev pub known : {A : Type 0} → Option A × B → Made A B
  known (none, b) = stopped (fail crypto_error) b
  known (some a, b) = made a b

  -- An RSA key: its record, or that of the key server that has been told the key material.
  unfoldable pub rsa_record : Recipient → Bytes → Bytes → Bytes → Build B RecipientRecord
  rsa_record r url material xor_key =
      if is_key_server r
      then (do
        info ← sent url r material (codes "rsa")
        pure (server_capsule r (rsa_details r.rcpt_key) info xor_key))
      else pure (rsa_capsule r material xor_key)

  unfoldable pub build_rsa : Bytes → Recipient → Bytes → Build B RecipientRecord
  build_rsa fmk r url = do
    kek ← random_key
    xor_key ← as_made (xor_data fmk kek)
    material ← (λ b. known (encrypt_rsa r.rcpt_key kek b))
    rsa_record r url material xor_key

  -- An EC key, likewise, with the value and the name of its curve.
  unfoldable pub ecc_record :
      Recipient → Bytes → EllipticCurve × Bytes → Bytes → Bytes → Build B RecipientRecord
  ecc_record r url (curve, name) material xor_key =
      if is_key_server r
      then (do
        info ← sent url r material name
        pure (server_capsule r (ecc_details curve r.rcpt_key) info xor_key))
      else pure (ecc_capsule r curve material xor_key)

  -- The key-encrypting key of a secret that is shared with an ephemeral key, as long as the key of
  -- the container.
  unfoldable pub ecc_kek : Bytes → Recipient → Bytes → Bytes → Bytes
  ecc_kek fmk r material secret =
      keys.expand (keys.extract secret premaster) (kek_info ++ r.rcpt_key ++ material) (length fmk)

  unfoldable pub build_ecc : Bytes → Recipient → Bytes → Build B RecipientRecord
  build_ecc fmk r url = elim (ec_data r.ec_type) [
    | none ↦ stop crypto_error
    | some curve ↦ (do
      (material, secret) ← (λ b. known (ecc_secret r.ec_type r.rcpt_key b))
      xor_key ← as_made (xor_data fmk (ecc_kek fmk r material secret))
      ecc_record r url curve material xor_key)
  ]

  unfoldable pub build_pki : Bytes → Recipient → Build B RecipientRecord
  build_pki fmk r = do
    url ← server_url r
    elim r.pk_type [ rsa ↦ build_rsa fmk r url | _ ↦ build_ecc fmk r url ]

  -- What `extractHKDF` leaves in a block of zeros: a result that is not negative lets the zeros
  -- stand.
  unfoldable pub extracted : Key → Build B Bytes
  extracted (key k) b = made k b
  extracted (no_key r) b = if is_below r then stopped r b else made (replicate key_len 0) b

  -- `kdf_iter > 0`, of an int32_t.
  abbrev pub is_password : Recipient → Bool
  is_password r = ltb 0 r.kdf_iter && ltb r.kdf_iter (2 ^ 31)

  -- The record of a key-encrypting key that has been derived for a password or a symmetric key.
  unfoldable pub secret_record : Bytes → Recipient → Bytes → Bytes → Bytes → Build B RecipientRecord
  secret_record fmk r salt pw_salt kek = do
    unless (not (list_eq kek [])) crypto_error
    xor_key ← as_made (xor_data fmk kek)
    pure (
        if is_password r
        then password_capsule r salt pw_salt xor_key
        else symmetric_capsule r salt xor_key)

  unfoldable pub build_secret : Bytes → ℕ → Recipient → Build B RecipientRecord
  build_secret fmk idx r = do
    salt ← random_key
    pw_salt ← random_key
    pm ← extracted (extract_hkdf keys salt pw_salt r.kdf_iter idx)
    secret_record fmk r salt pw_salt (keys.expand pm (kek_info ++ get_label [] r) key_len)

  -- The shares but the first are random.
  unfoldable pub random_shares : ℕ → Build B (List Bytes)
  random_shares zero = pure []
  random_shares (suc n) = do share ← random_key; shares ← random_shares n; pure (share ∷ shares)

  -- Each share goes to its server, which names it.
  unfoldable pub send_shares : Bytes → List Bytes → List Bytes → Build B (List Bytes)
  send_shares to [] shares = pure []
  send_shares to (u ∷ urls) [] = pure []
  send_shares to (u ∷ urls) (share ∷ shares) = do
    id ← (λ b. checked (send_share u to share b))
    ids ← send_shares to urls shares
    pure (id ∷ ids)

  unfoldable pub build_shares : Bytes → Recipient → List Bytes → Build B RecipientRecord
  build_shares fmk r urls = do
    let to = codes "etsi/" ++ r.id
    salt ← random_key
    material ← random_key
    let kek = keys.expand (keys.extract salt material) (codes "CDOC2kekXOR" ++ to) key_len
    unless (not (list_eq kek [])) crypto_error
    xor_key ← as_made (xor_data fmk kek)
    others ← random_shares (length urls - 1)
    first ← as_made (first_share kek others)
    ids ← send_shares to urls (first ∷ others)
    pure (record_of r.label xor_key (key_shares true true (zip_pairs urls ids) salt to))

  -- A recipient with shares: the configuration is not asked for.
  unfoldable pub build_share : Bytes → Recipient → Build B RecipientRecord
  build_share fmk r b = if not has_conf then undefined else elim (share_urls r.server_id) [
    | none ↦ stopped (fail configuration_error) b
    | some [] ↦ stopped (fail configuration_error) b
    | some (u ∷ urls) ↦ build_shares fmk r (u ∷ urls) b
  ]

  -- One round of the loop over the recipients.
  unfoldable pub build_record : Bytes → ℕ → Recipient → Build B RecipientRecord
  build_record fmk idx r = elim r.type [
    | public_key ↦ build_pki fmk r
    | symmetric_key ↦ build_secret fmk idx r
    | key_share ↦ build_share fmk r
    | no_recipient ↦ stop unspecified_error
  ]

  -- `buildHeader` up to the records, which flatbuffers puts into bytes.
  unfoldable pub build_records : Bytes → ℕ → List Recipient → Build B (List RecipientRecord)
  build_records fmk idx [] = pure []
  build_records fmk idx (r ∷ recipients) = do
    x ← build_record fmk idx r
    rest ← build_records fmk (suc idx) recipients
    pure (x ∷ rest)
