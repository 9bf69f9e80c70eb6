-- ===== src/Locks/Build.antt =====
-- `CDoc2Reader::Private::buildLock` of cdoc/CDoc2Reader.cpp, on the records of
-- cdoc/schema/recipients.fbs and cdoc/schema/header.fbs.
pub mod Valid
use libcdoc.Base.{
  ℕ, ◌^◌, Bytes, codes, List, [], ◌∷◌, ◌++◌, map, Bool, true, false, not, ◌||◌, ltb, leb,
  if◌then◌else◌,
}
use libcdoc.Text.Parts.{join}
use libcdoc.Locks.{
  Lock, LockType, symmetric_key, password, public_key, server, share_server, Param, salt, pw_salt,
  kdf_iter, rcpt_key, key_material, keyserver_id, transaction_id, recipient_id, share_urls,
  Algorithm, ecc, rsa, Curve, unknown_curve, secp_384_r1, secp_256_r1, secp_521_r1, new_lock,
  set_bytes, set_int,
}

-- `other_curve` is any other value of the byte.
pub data EllipticCurve : Type 0 where
  secp384r1 secp256r1 secp521r1 other_curve : EllipticCurve

-- The union of a key server's capsule; the `no_` cases are a type with no value, and
-- `other_details` any other type.
pub data KeyDetails : Type 0 where
  ecc_details : EllipticCurve → Bytes → KeyDetails
  rsa_details : Bytes → KeyDetails
  no_ecc_details no_rsa_details other_details : KeyDetails

-- The union of a recipient; `no_capsule` is a type with no value, and `other_capsule` any other
-- type. The number of a password's capsule is the bit pattern of an int32_t; its flag says that the
-- algorithm is PBKDF2WithHmacSHA256. The flags of a capsule of shares say that the recipient's type
-- is SID_MID and the scheme N_OF_N, and each share is its server's URL and its id.
pub data Capsule : Type 0 where
  ecc_public_key : EllipticCurve → Bytes → Bytes → Capsule
  rsa_public_key : Bytes → Bytes → Capsule
  key_server : KeyDetails → Bytes → Bytes → Capsule
  symmetric : Bytes → Capsule
  pbkdf2 : Bytes → Bytes → Bool → ℕ → Capsule
  key_shares : Bool → Bool → List (Bytes × Bytes) → Bytes → Bytes → Capsule
  no_capsule other_capsule : Capsule

pub record RecipientRecord : Type 0 where
  pub is_xor : Bool
  pub key_label : Bytes
  pub encrypted_fmk : Bytes
  pub capsule : Capsule

-- `KDF_ITER_MAX_DECRYPT`.
abbrev pub kdf_iter_max_decrypt : ℕ
kdf_iter_max_decrypt = 100000000

abbrev pub curve_of : EllipticCurve → Curve
curve_of secp384r1 = secp_384_r1
curve_of secp256r1 = secp_256_r1
curve_of secp521r1 = secp_521_r1
curve_of other_curve = unknown_curve

-- The inner switch of a key server's capsule, and what follows it.
unfoldable pub build_server : KeyDetails → Bytes → Bytes → Lock → Lock
build_server details id transaction l =
    let named = λ (l' : Lock).
      set_bytes transaction_id transaction
        (set_bytes keyserver_id id (record l' { type = server })) in
    elim details [
      | ecc_details curve key ↦
          named (record (set_bytes rcpt_key key (record l { pk_type = ecc })) {
            ec_type = curve_of curve;
          })
      | rsa_details key ↦ named (set_bytes rcpt_key key (record l { pk_type = rsa }))
      | no_ecc_details ↦ named l
      | no_rsa_details ↦ named l
      | other_details ↦ l
    ]

-- `kdf_iter < 1 || kdf_iter > KDF_ITER_MAX_DECRYPT`.
abbrev pub is_bad_iteration : ℕ → Bool
is_bad_iteration n = ltb n 1 || leb (2 ^ 31) n || ltb kdf_iter_max_decrypt n

-- A password's capsule: the type and the salts are set before the number is tested.
unfoldable pub build_password : Bytes → Bytes → ℕ → Lock → Lock
build_password s pw n l =
    let salted = set_bytes pw_salt pw (set_bytes salt s (record l { type = password })) in
    if is_bad_iteration n then salted else set_int kdf_iter n salted

abbrev share_text : Bytes × Bytes → Bytes
share_text (url, id) = url ++ (b',' ∷ id)

unfoldable pub build_shares : List (Bytes × Bytes) → Bytes → Bytes → Lock → Lock
build_shares shares s recipient l = set_bytes recipient_id recipient (
    set_bytes salt s (
      set_bytes share_urls (join (map share_text shares) (codes ";"))
        (record l { type = share_server })))

-- The switch on the type of the capsule.
unfoldable pub build_capsule : Capsule → Lock → Lock
build_capsule (ecc_public_key curve key sender) l = set_bytes key_material sender (
    set_bytes rcpt_key key
      (record l { type = public_key; pk_type = ecc; ec_type = curve_of curve }))
build_capsule (rsa_public_key key kek) l =
    set_bytes key_material kek
      (set_bytes rcpt_key key (record l { type = public_key; pk_type = rsa }))
build_capsule (key_server details id transaction) l = build_server details id transaction l
build_capsule (symmetric s) l = set_bytes salt s (record l { type = symmetric_key })
build_capsule (pbkdf2 s pw known n) l = if known then build_password s pw n l else l
build_capsule (key_shares sid_mid n_of_n shares s recipient) l =
    if not sid_mid then l else if not n_of_n then l else build_shares shares s recipient l
build_capsule no_capsule l = l
build_capsule other_capsule l = l

-- `buildLock`, from the lock that the reader has just made.
unfoldable pub build_lock : RecipientRecord → Lock
build_lock r =
    if not r.is_xor
    then new_lock
    else build_capsule r.capsule
        (record new_lock { label = r.key_label; encrypted_fmk = r.encrypted_fmk })
