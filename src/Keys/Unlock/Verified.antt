-- ===== src/Keys/Unlock/Verified.antt =====
-- What holds of a key that `CDoc2Reader::getFMK` (cdoc/CDoc2Reader.cpp) gives.
use libcdoc.Container.{key_len}
use libcdoc.Base.{
  ℕ, Bytes, length, List, [], ◌∷◌, list_eq, list_eq_refl, list_eq_sound, Option, none, some, ◌≡◌,
  inl, inr, refl, Bool-cases, Option-cases,
}
use libcdoc.Locks.{Lock, password, symmetric_key, salt, pw_salt, kdf_iter, get_bytes, get_int}
use libcdoc.Keys.{Key, key, no_key, xor_data}
use libcdoc.Keys.Xor.{xor_data_twice}
use libcdoc.Keys.Unlock.{
  Backend, and_then, get_key_material, extract_hkdf, expand_kek, derive_kek, check_fmk, finish_fmk,
  unlock, lock_at, get_fmk, hmac_info,
}

module _ (be : Backend) (header hmac : Bytes) where
  check-verified :
      (k fmk : Bytes)
      → check_fmk be header hmac k ≡ key fmk
      → be.sign_hmac (be.expand fmk hmac_info key_len) header ≡ hmac
  unfolding check_fmk
  check-verified k fmk e =
      elim (Bool-cases (list_eq (be.sign_hmac (be.expand k hmac_info key_len) header) hmac)) [
        | inl right ↦
            (let same : k ≡ fmk = cc (rw right at e) in rw (← same) (list_eq_sound _ _ right))
        | inr wrong ↦ absurd (cc (rw wrong at e))
      ]

  after_xor :
      (x : Key) (fmk : Bytes)
      → and_then x (check_fmk be header hmac) ≡ key fmk
      → be.sign_hmac (be.expand fmk hmac_info key_len) header ≡ hmac
  after_xor (no_key r) fmk e = absurd (cc e)
  after_xor (key k) fmk e = check-verified k fmk e

  finish-verified :
      (lock : Lock) (kek fmk : Bytes)
      → finish_fmk be header hmac lock kek ≡ key fmk
      → be.sign_hmac (be.expand fmk hmac_info key_len) header ≡ hmac
  unfolding finish_fmk
  finish-verified lock [] fmk e = absurd (cc e)
  finish-verified lock (x ∷ kek) fmk e = after_xor _ fmk e

  unlock-verified :
      (lock : Lock) (idx : ℕ) (fmk : Bytes) (o : Option Key)
      → derive_kek be lock idx ≡ o
      → unlock be header hmac lock idx ≡ some (key fmk)
      → be.sign_hmac (be.expand fmk hmac_info key_len) header ≡ hmac
  unfolding unlock
  unlock-verified lock idx fmk none d e = absurd (cc (rw (unlock, d) at e))
  unlock-verified lock idx fmk (some (no_key r)) d e = absurd (cc (rw (unlock, d) at e))
  unlock-verified lock idx fmk (some (key kek)) d e =
      finish-verified lock kek fmk (cc (rw (unlock, d) at e))

  -- Whatever the back ends answer, a key that getFMK returns with OK is one under which the header
  -- has the HMAC that stands in the container.
  pub get_fmk-verified :
      (locks : List Lock) (idx : ℕ) (fmk : Bytes)
      → get_fmk be header hmac locks idx ≡ some (key fmk)
      → be.sign_hmac (be.expand fmk hmac_info key_len) header ≡ hmac
  unfolding get_fmk
  get_fmk-verified locks idx fmk e = elim (Option-cases (lock_at idx locks)) [
    | inl missing ↦ absurd (cc (rw (get_fmk, missing) at e))
    | inr (lock, found) ↦ unlock-verified lock idx fmk _ refl (rw (get_fmk, found) at e)
  ]

  -- A lock whose encrypted key is the exclusive or of the container's key and the key that the back
  -- ends derive for it, which is not empty, is opened when the header has the HMAC of that key.
  pub unlock-locked :
      (lock : Lock) (idx : ℕ) (x : ℕ) (kek fmk : Bytes)
      → derive_kek be lock idx ≡ some (key (x ∷ kek))
      → length fmk ≡ length (x ∷ kek)
      → xor_data fmk (x ∷ kek) ≡ key lock.encrypted_fmk
      → be.sign_hmac (be.expand fmk hmac_info key_len) header ≡ hmac
      → unlock be header hmac lock idx ≡ some (key fmk)
  unfolding unlock finish_fmk check_fmk
  unlock-locked lock idx x kek fmk derives size locked signed =
      let (text, put, taken) = xor_data_twice fmk (x ∷ kek) size in
      let same : text ≡ lock.encrypted_fmk = cc (put, locked) in
      let back : xor_data lock.encrypted_fmk (x ∷ kek) ≡ key fmk = rw same at taken in
      rw (derives, unlock, finish_fmk, back, check_fmk, signed, list_eq_refl hmac) refl

  -- A password's lock without a number of iterations, or with the number 0, and with both salts:
  -- its key is derived as that of the same lock with a symmetric key, and the password's salt is
  -- not used.
  pub password_without_iterations :
      (lock : Lock) (idx : ℕ) (s pw : Bytes)
      → get_bytes salt lock ≡ some s
      → get_bytes pw_salt lock ≡ some pw
      → get_int kdf_iter lock ≡ 0
      → derive_kek be (record lock { type = password }) idx
        ≡ derive_kek be (record lock { type = symmetric_key }) idx
  unfolding derive_kek extract_hkdf get_key_material expand_kek get_bytes get_int
  password_without_iterations lock idx s pw hs hp hi = rw (hs, hp, hi) refl
