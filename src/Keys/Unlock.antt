-- ===== src/Keys/Unlock.antt =====
-- How a lock gives the key of a container: `CDoc2Reader::getFMK` (cdoc/CDoc2Reader.cpp) and the
-- parts of `CryptoBackend` (cdoc/CryptoBackend.cpp) that it calls.
pub mod Verified
use libcdoc.Base.{
  ℕ, zero, suc, ◌^◌, Bytes, length, codes, List, [], ◌∷◌, ◌++◌, Bool, true, false, not, ◌&&◌, ltb,
  leb, ◌==◌, list_eq, Option, none, some, if◌then◌else◌,
}
use libcdoc.Outcome.{
  Code, other, wrong_key, wrong_arguments, crypto_error, configuration_error, unspecified_error,
  Result, count, fail, ok, is_ok,
}
use libcdoc.Locks.{
  Lock, LockType, password, symmetric_key, public_key, server, share_server, Param, keyserver_id,
  salt, pw_salt, kdf_iter, rcpt_key, key_material, transaction_id, get_bytes, get_string, get_int,
  is_rsa,
}
use libcdoc.Zip.Consumer.{is_below}
use libcdoc.Container.{key_len}
use libcdoc.Keys.{Key, key, no_key, xor_data, join_shares}

-- `INVALID_PARAMS` and `OPENSSL_ERROR` of the back end, -201 and -202.
abbrev pub invalid_params : Code
invalid_params = other 201

abbrev pub openssl_error : Code
openssl_error = other 202

-- What a reader's keys rest on: the back ends, each an answer with a result and the bytes that it
-- leaves, OpenSSL's functions, the fetch URL that the configuration has for a key server (`none`
-- without a configuration), and `share_answers`, what getFMK gets for a lock with shares before it
-- joins them: a result of the nonces and tickets, and an answer for each share.
pub record Backend : Type 0 where
  pub get_secret : ℕ → Result × Bytes
  pub decrypt_rsa : Bytes → ℕ → Result × Bytes
  pub derive_ecdh : Bytes → ℕ → Result × Bytes
  pub fetch_key : Bytes → Bytes → Result × Bytes
  pub has_network : Bool
  pub share_answers : Lock → ℕ → Result × List (Result × Bytes)
  pub fetch_url : Option (Bytes → Bytes)
  pub pbkdf2 : Bytes → Bytes → ℕ → Bytes
  pub extract : Bytes → Bytes → Bytes
  pub expand : Bytes → Bytes → ℕ → Bytes
  pub sign_hmac : Bytes → Bytes → Bytes

-- `CDoc2::HMAC`, `CDoc2::KEK` followed by the name of the method, and `CDoc2::KEKPREMASTER`.
abbrev pub hmac_info : Bytes
hmac_info = codes "CDOC20hmac"

abbrev pub kek_info : Bytes
kek_info = codes "CDOC20kekXOR"

abbrev pub premaster : Bytes
premaster = codes "CDOC20kekpremaster"

-- `if (x.empty()) return e;`.
abbrev pub unless_empty : Code → Bytes → Key
unless_empty c [] = no_key (fail c)
unless_empty c (x ∷ b) = key (x ∷ b)

-- `if (x.size() != 32) return INVALID_PARAMS;`.
abbrev pub of_key_len : Bytes → Key
of_key_len b = if length b == key_len then key b else no_key (fail invalid_params)

-- What follows a key, or the result without one.
abbrev pub and_then : Key → (Bytes → Key) → Key
and_then (no_key e) f = no_key e
and_then (key k) f = f k

-- `if (result) return result;`, of an answer of a back end.
abbrev pub answered : Result × Bytes → Key
answered (rv, b) = if is_ok rv then key b else no_key rv

-- `if (result < 0) return result;`.
abbrev pub not_failed : Result × Bytes → Key
not_failed (rv, b) = if is_below rv then no_key rv else key b

-- A parameter of a lock; `none` is the exception of `at`.
abbrev pub with_param : Option Bytes → (Bytes → Option Key) → Option Key
with_param none f = none
with_param (some b) f = f b

-- `priv->locks.at(lock_idx)`, if there is such a lock.
unfoldable pub lock_at : ℕ → List Lock → Option Lock
lock_at i [] = none
lock_at zero (l ∷ locks) = some l
lock_at (suc i) (l ∷ locks) = lock_at i locks

module _ (be : Backend) where
  open be use {
    get_secret, decrypt_rsa, derive_ecdh, fetch_key, has_network, fetch_url, share_answers, pbkdf2,
    extract, expand, sign_hmac,
  }

  -- `CryptoBackend::getKeyMaterial`; the number of iterations is the bit pattern of an int32_t.
  unfoldable pub get_key_material : Bytes → ℕ → ℕ → Key
  get_key_material pw iter idx =
      if ltb 0 iter && ltb iter (2 ^ 31)
      then (if list_eq pw []
          then no_key (fail invalid_params)
          else and_then (answered (get_secret idx))
              (λ s. unless_empty openssl_error (pbkdf2 s pw iter)))
      else and_then (answered (get_secret idx)) of_key_len

  -- `CryptoBackend::extractHKDF`.
  unfoldable pub extract_hkdf : Bytes → Bytes → ℕ → ℕ → Key
  extract_hkdf s pw iter idx =
      if list_eq s []
      then no_key (fail invalid_params)
      else if leb (2 ^ 31) iter
      then no_key (fail invalid_params)
      else if ltb 0 iter && list_eq pw []
      then no_key (fail invalid_params)
      else and_then (get_key_material pw iter idx)
          (λ m. and_then (unless_empty openssl_error (extract m s)) of_key_len)

  -- `CryptoBackend::deriveHMACExtract`.
  unfoldable pub derive_hmac_extract : Bytes → Bytes → ℕ → Key
  derive_hmac_extract public s idx =
      and_then (answered (derive_ecdh public idx)) (λ m. unless_empty openssl_error (extract m s))

  -- A password or a symmetric key: the branches that derive the key with HKDF.
  unfoldable pub expand_kek : Lock → Key → Key
  expand_kek lock pm = and_then pm (λ k. key (expand k (kek_info ++ lock.label) key_len))

  -- A key server is asked for the key material.
  unfoldable pub ask_server : Lock → Key
  ask_server lock = elim fetch_url [
    | none ↦ no_key (fail configuration_error)
    | some url ↦
        if not has_network
        then no_key (fail configuration_error)
        else if list_eq (url (get_string keyserver_id lock)) []
        then no_key (fail configuration_error)
        else not_failed
            (fetch_key (url (get_string keyserver_id lock)) (get_string transaction_id lock))
  ]

  -- The key out of the key material: RSA, or a shared secret and HKDF.
  unfoldable pub open_material : Lock → ℕ → Bytes → Option Key
  open_material lock idx material =
      if is_rsa lock
      then some (not_failed (decrypt_rsa material idx))
      else elim (derive_hmac_extract material premaster idx) [
        | no_key e ↦
            if is_below e
            then some (no_key e)
            else with_param (get_bytes rcpt_key lock)
                (λ pub_key. some (key (expand [] (kek_info ++ pub_key ++ material) key_len)))
        | key pm ↦
            with_param (get_bytes rcpt_key lock)
              (λ pub_key. some (key (expand pm (kek_info ++ pub_key ++ material) key_len)))
      ]

  -- What a key server or a lock has given.
  unfoldable pub after_material : Lock → ℕ → Key → Option Key
  after_material lock idx (no_key e) = some (no_key e)
  after_material lock idx (key m) = open_material lock idx m

  -- The key-encrypting key of a lock; `none` is an exception.
  unfoldable pub derive_kek : Lock → ℕ → Option Key
  derive_kek lock idx = elim lock.type [
    | password ↦ with_param (get_bytes salt lock) (λ s.
        with_param (get_bytes pw_salt lock)
          (λ pw. some (expand_kek lock (extract_hkdf s pw (get_int kdf_iter lock) idx))))
    | symmetric_key ↦
        with_param (get_bytes salt lock) (λ s. some (expand_kek lock (extract_hkdf s [] 0 idx)))
    | server ↦ after_material lock idx (ask_server lock)
    | public_key ↦ with_param (get_bytes key_material lock) (λ m. open_material lock idx m)
    | share_server ↦
        (let (rv, answers) = share_answers lock idx in
          some (if is_ok rv then join_shares answers else no_key rv))
    | _ ↦ some (no_key (fail unspecified_error))
  ]

  -- The end of getFMK: the key of the container, and the HMAC of the header under it.
  unfoldable pub check_fmk : Bytes → Bytes → Bytes → Key
  check_fmk header hmac fmk =
      if list_eq (sign_hmac (expand fmk hmac_info key_len) header) hmac
      then key fmk
      else no_key (fail wrong_key)

  unfoldable pub finish_fmk : Bytes → Bytes → Lock → Bytes → Key
  finish_fmk header hmac lock [] = no_key (fail crypto_error)
  finish_fmk header hmac lock (x ∷ kek) =
      and_then (xor_data lock.encrypted_fmk (x ∷ kek)) (check_fmk header hmac)

  -- The same of a lock of the reader.
  unfoldable pub unlock : Bytes → Bytes → Lock → ℕ → Option Key
  unlock header hmac lock idx = elim (derive_kek lock idx) [
    | none ↦ none
    | some k ↦ some (and_then k (finish_fmk header hmac lock))
  ]

  -- `CDoc2Reader::getFMK`.
  unfoldable pub get_fmk : Bytes → Bytes → List Lock → ℕ → Option Key
  get_fmk header hmac locks idx = elim (lock_at idx locks) [
    | none ↦ some (no_key (fail wrong_arguments))
    | some lock ↦ unlock header hmac lock idx
  ]
