-- ===== src/Locks/Build/Valid.antt =====
-- What `buildLock` (cdoc/CDoc2Reader.cpp) makes of a record that it does not trust.
use libcdoc.Base.{
  ℕ, ◌≤◌, Bytes, [], Bool, true, false, not, ◌&&◌, list_eq, ◌≡◌, refl, arith, Bool-cases, inl, inr,
}
use libcdoc.Locks.{
  Lock, kdf_iter, salt, pw_salt, find, put, set_bytes, get_int, set_int, new_lock, is_valid,
  password,
}
use libcdoc.Locks.Params.{get_int-set_int}
use libcdoc.Locks.Build.{
  KeyDetails, ecc_details, rsa_details, no_ecc_details, no_rsa_details, other_details, Capsule,
  ecc_public_key, rsa_public_key, key_server, symmetric, pbkdf2, key_shares, no_capsule,
  other_capsule, RecipientRecord, kdf_iter_max_decrypt, is_bad_iteration, build_server,
  build_password, build_shares, build_capsule, build_lock,
}

abbrev pub is_supported_details : KeyDetails → Bool
is_supported_details other_details = false
is_supported_details _ = true

-- The capsules that give a lock its type.
abbrev pub is_supported : Capsule → Bool
is_supported (key_server details id transaction) = is_supported_details details
is_supported (pbkdf2 s pw known n) = known
is_supported (key_shares sid_mid n_of_n shares s recipient) = sid_mid && n_of_n
is_supported no_capsule = false
is_supported other_capsule = false
is_supported _ = true

-- A lock with a label and an encrypted key.
abbrev begun : Bytes → Bytes → Lock
begun label fmk = record new_lock { label = label; encrypted_fmk = fmk }

abbrev is_full : Bytes → Bytes → Bool
is_full label fmk = not (list_eq label []) && not (list_eq fmk [])

build_server-valid :
    (details : KeyDetails) (id transaction label fmk : Bytes)
    → is_valid (build_server details id transaction (begun label fmk))
      ≡ (is_supported_details details && is_full label fmk)
unfolding build_server is_valid set_bytes
build_server-valid (ecc_details curve key) id transaction label fmk = refl
build_server-valid (rsa_details key) id transaction label fmk = refl
build_server-valid no_ecc_details id transaction label fmk = refl
build_server-valid no_rsa_details id transaction label fmk = refl
build_server-valid other_details id transaction label fmk = refl

build_password-valid :
    (s pw : Bytes) (n : ℕ) (label fmk : Bytes)
    → is_valid (build_password s pw n (begun label fmk)) ≡ is_full label fmk
unfolding build_password is_valid set_bytes set_int
build_password-valid s pw n label fmk = elim (Bool-cases (is_bad_iteration n)) [
  | inl bad ↦ rw bad refl
  | inr fine ↦ rw fine refl
]

build_capsule-valid :
    (c : Capsule) (label fmk : Bytes)
    → is_valid (build_capsule c (begun label fmk)) ≡ (is_supported c && is_full label fmk)
unfolding build_capsule is_valid set_bytes build_shares
build_capsule-valid (ecc_public_key curve key sender) label fmk = refl
build_capsule-valid (rsa_public_key key kek) label fmk = refl
build_capsule-valid (key_server details id transaction) label fmk =
    build_server-valid details id transaction label fmk
build_capsule-valid (symmetric s) label fmk = refl
build_capsule-valid (pbkdf2 s pw true n) label fmk = build_password-valid s pw n label fmk
build_capsule-valid (pbkdf2 s pw false n) label fmk = refl
build_capsule-valid (key_shares true true shares s recipient) label fmk = refl
build_capsule-valid (key_shares true false shares s recipient) label fmk = refl
build_capsule-valid (key_shares false n_of_n shares s recipient) label fmk = refl
build_capsule-valid no_capsule label fmk = refl
build_capsule-valid other_capsule label fmk = refl

valid_of :
    (is_xor : Bool) (label fmk : Bytes) (c : Capsule)
    → is_valid (
        build_lock
          (record { is_xor = is_xor; key_label = label; encrypted_fmk = fmk; capsule = c }))
      ≡ (is_xor && (is_supported c && is_full label fmk))
unfolding build_lock
valid_of true label fmk c = build_capsule-valid c label fmk
valid_of false label fmk c = unfold is_valid in refl

-- A lock that is built is valid exactly when the key of the record is encrypted by exclusive or,
-- its capsule is of a supported kind, and neither its label nor its encrypted key is empty; the
-- number of iterations of a password capsule does not matter.
pub build_lock-valid :
    (r : RecipientRecord)
    → is_valid (build_lock r) ≡ (
        r.is_xor
        && (is_supported r.capsule
            && (not (list_eq r.key_label []) && not (list_eq r.encrypted_fmk []))))
build_lock-valid r = valid_of r.is_xor r.key_label r.encrypted_fmk r.capsule

password_iterations :
    (s pw : Bytes) (n : ℕ) (label fmk : Bytes)
    → get_int kdf_iter (build_password s pw n (begun label fmk)) ≤ kdf_iter_max_decrypt
unfolding build_password
password_iterations s pw n label fmk = elim (Bool-cases (is_bad_iteration n)) [
  | inl bad ↦ rw bad (unfold get_int set_bytes find put in omega arith)
  | inr fine ↦
      let small : n ≤ kdf_iter_max_decrypt = ground arith in
      rw
        (
          fine,
          get_int-set_int kdf_iter n
              (set_bytes pw_salt pw
                (set_bytes salt s (record (begun label fmk) { type = password })))
              (omega arith),
        )
        small
]

capsule_iterations :
    (c : Capsule) (label fmk : Bytes)
    → get_int kdf_iter (build_capsule c (begun label fmk)) ≤ kdf_iter_max_decrypt
unfolding build_capsule build_server build_shares get_int set_bytes find put
capsule_iterations (ecc_public_key curve key sender) label fmk = omega arith
capsule_iterations (rsa_public_key key kek) label fmk = omega arith
capsule_iterations (key_server (ecc_details curve key) id transaction) label fmk = omega arith
capsule_iterations (key_server (rsa_details key) id transaction) label fmk = omega arith
capsule_iterations (key_server no_ecc_details id transaction) label fmk = omega arith
capsule_iterations (key_server no_rsa_details id transaction) label fmk = omega arith
capsule_iterations (key_server other_details id transaction) label fmk = omega arith
capsule_iterations (symmetric s) label fmk = omega arith
capsule_iterations (pbkdf2 s pw true n) label fmk = password_iterations s pw n label fmk
capsule_iterations (pbkdf2 s pw false n) label fmk = omega arith
capsule_iterations (key_shares true true shares s recipient) label fmk = omega arith
capsule_iterations (key_shares true false shares s recipient) label fmk = omega arith
capsule_iterations (key_shares false n_of_n shares s recipient) label fmk = omega arith
capsule_iterations no_capsule label fmk = omega arith
capsule_iterations other_capsule label fmk = omega arith

iterations_of :
    (is_xor : Bool) (label fmk : Bytes) (c : Capsule)
    → get_int kdf_iter (
        build_lock
          (record { is_xor = is_xor; key_label = label; encrypted_fmk = fmk; capsule = c }))
      ≤ kdf_iter_max_decrypt
unfolding build_lock
iterations_of true label fmk c = capsule_iterations c label fmk
iterations_of false label fmk c = unfold get_int find in omega arith

-- Whatever a recipient record says, the number of iterations of the lock that is built from it is
-- at most 100000000, as an int32_t that is not negative.
pub build_lock-iterations :
    (r : RecipientRecord) → get_int kdf_iter (build_lock r) ≤ kdf_iter_max_decrypt
build_lock-iterations r = iterations_of r.is_xor r.key_label r.encrypted_fmk r.capsule
