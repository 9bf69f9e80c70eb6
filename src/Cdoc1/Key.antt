-- ===== src/Cdoc1/Key.antt =====
-- What `CDoc1Reader::getFMK` (cdoc/CDoc1Reader.cpp) answers.
use libcdoc.Base.{
  ℕ, Bytes, length, [], get_elem?, true, none, some, ◌==◌, ◌≡◌, inl, inr, refl, arith, Bool-cases,
  Option-cases, OnSome, on_some,
}
use libcdoc.Outcome.{Result, fail, ok, is_ok, wrong_arguments, crypto_error}
use libcdoc.Locks.{
  Lock, get_bytes, get_string, concat_digest, is_rsa, rcpt_key, key_material, algorithm_id,
  party_uinfo, party_vinfo,
}
use libcdoc.Cdoc1.Xml.{is_error}
use libcdoc.Cdoc1.{
  Library, Cdoc1, resize, fail_msg, expected_fmk_len, is_aes_len, check_len, rsa_fmk, ecc_fmk,
  get_fmk,
}

-- An answer of `getFMK`: a key of the length that the cipher of the container takes, or one and the
-- same error, or an index that no lock has.
pub data Uniform {S : Type 0} (idx n : ℕ) (fmk : Bytes) (r : Cdoc1 S)
    : Result × Bytes × Cdoc1 S → Type 0 where
  gives_key :
      (key : Bytes) (r' : Cdoc1 S)
      → is_aes_len n ≡ true
      → length key ≡ n
      → Uniform idx n fmk r (ok, key, r')
  gives_error :
      (key : Bytes) (r' : Cdoc1 S)
      → r'.last_error ≡ fail_msg
      → Uniform idx n fmk r (fail crypto_error, key, r')
  no_lock : get_elem? r.locks idx ≡ none → Uniform idx n fmk r (fail wrong_arguments, fmk, r)

module _ {S C Z : Type 0} {X : Type 0 → Type 0} (lib : Library S C Z X) (idx n : ℕ) (fmk : Bytes)
    (r0 r : Cdoc1 S) where
  check_len-Uniform :
      (key : Bytes) (r' : Cdoc1 S)
      → is_aes_len n ≡ true
      → Uniform idx n fmk r0 (check_len lib n key r')
  unfolding check_len
  check_len-Uniform key r' aes = elim (Bool-cases (length key == n)) [
    | inl same ↦ rw same (gives_key key r' aes (ground arith))
    | inr other ↦ rw other (gives_error [] _ refl)
  ]

  rsa_fmk-Uniform :
      (lock : Lock)
      → is_aes_len n ≡ true
      → OnSome (Uniform idx n fmk r0) (rsa_fmk lib n lock idx fmk r)
  unfolding rsa_fmk
  rsa_fmk-Uniform lock aes =
      elim (Bool-cases (is_ok (lib.decrypt_rsa (resize n fmk) lock.encrypted_fmk idx).0)) [
        | inl fine ↦ elim (Option-cases (get_bytes rcpt_key lock)) [
          | inl missing ↦ rw (fine, missing) tt
          | inr (pk, there) ↦ rw (fine, there) (check_len-Uniform _ _ aes)
        ]
        | inr failed ↦ rw failed (gives_error [] _ refl)
      ]

  ecc_fmk-Uniform :
      (lock : Lock)
      → is_aes_len n ≡ true
      → OnSome (Uniform idx n fmk r0) (ecc_fmk lib n lock idx fmk r)
  unfolding ecc_fmk
  ecc_fmk-Uniform lock aes = elim (Option-cases (get_bytes key_material lock)) [
    | inl no_material ↦ rw no_material tt
    | inr (m, material) ↦ elim (Option-cases (get_bytes algorithm_id lock)) [
      | inl no_algorithm ↦ rw (material, no_algorithm) tt
      | inr (g, algorithm) ↦ elim (Option-cases (get_bytes party_uinfo lock)) [
        | inl no_uinfo ↦ rw (material, algorithm, no_uinfo) tt
        | inr (u, uinfo) ↦ elim (Option-cases (get_bytes party_vinfo lock)) [
          | inl no_vinfo ↦ rw (material, algorithm, uinfo, no_vinfo) tt
          | inr (v, vinfo) ↦
              let rv = (lib.derive_concat_kdf m (get_string concat_digest lock) g u v idx).0 in
              elim (Bool-cases (is_error rv)) [
                | inl failed ↦
                    rw (material, algorithm, uinfo, vinfo, failed) (gives_error fmk _ refl)
                | inr fine ↦
                    rw (material, algorithm, uinfo, vinfo, fine) (check_len-Uniform _ _ aes)
              ]
        ]
      ]
    ]
  ]

all_Uniform :
    {S C Z : Type 0} {X : Type 0 → Type 0} (lib : Library S C Z X) (idx : ℕ) (fmk : Bytes)
    (r : Cdoc1 S)
    → OnSome (Uniform idx (expected_fmk_len lib r.method) fmk r) (get_fmk lib idx fmk r)
unfolding get_fmk
all_Uniform lib idx fmk r =
    let n = expected_fmk_len lib r.method in
    let r' = record r { last_error = [] } in
    elim (Option-cases (get_elem? r.locks idx)) [
      | inl missing ↦ rw (get_fmk, missing) (no_lock missing)
      | inr (lock, there) ↦ elim (Bool-cases (is_aes_len n)) [
        | inr strange ↦ rw (get_fmk, there, strange) (gives_error fmk _ refl)
        | inl aes ↦ elim (Bool-cases (is_rsa lock)) [
          | inl by_rsa ↦
              rw (get_fmk, there, aes, by_rsa) (rsa_fmk-Uniform lib idx n fmk r r' lock aes)
          | inr by_ecc ↦
              rw (get_fmk, there, aes, by_ecc) (ecc_fmk-Uniform lib idx n fmk r r' lock aes)
        ]
      ]
    ]

-- Whatever the back end answers, for every index and every vector of the caller: a call of getFMK
-- that returns gives OK and a key of the length that the cipher of the container takes, which is
-- 16, 24 or 32, or CRYPTO_ERROR with one and the same text of the last error, or, where no lock has
-- the index, WRONG_ARGUMENTS and changes nothing.
pub get_fmk-Uniform :
    {S C Z : Type 0} {X : Type 0 → Type 0} (lib : Library S C Z X) (idx : ℕ) (fmk : Bytes)
    (r : Cdoc1 S) (a : Result × Bytes × Cdoc1 S)
    → get_fmk lib idx fmk r ≡ some a
    → Uniform idx (expected_fmk_len lib r.method) fmk r a
get_fmk-Uniform lib idx fmk r a e =
    on_some (Uniform idx (expected_fmk_len lib r.method) fmk r) (get_fmk lib idx fmk r) a
      (all_Uniform lib idx fmk r) e
