-- ===== src/Cdoc1/Blind.antt =====
-- What `CDoc1Reader::getFMK` (cdoc/CDoc1Reader.cpp) lets be seen of an unwrapping.
use libcdoc.Base.{
  ℕ, Bytes, length, length-replicate, replicate, get_elem?, [], true, false, Option, none, some,
  ◌==◌, if◌then◌else◌, ◌≡◌, inl, inr, refl, sym, ap, ◌∙◌, arith, Bool-cases, Option-cases,
}
use libcdoc.Outcome.{Result, ok}
use libcdoc.Locks.{
  Lock, get_bytes, get_string, concat_digest, is_rsa, key_material, algorithm_id, party_uinfo,
  party_vinfo,
}
use libcdoc.Cdoc1.Xml.{is_error}
use libcdoc.Cdoc1.{
  Library, Cdoc1, expected_fmk_len, is_aes_len, check_len, rsa_fmk, ecc_fmk, get_fmk,
}

-- What is seen of an answer without a look at the bytes of the key.
abbrev pub verdict :
    {S : Type 0} → Option (Result × Bytes × Cdoc1 S) → Option (Result × ℕ × Cdoc1 S)
verdict none = none
verdict (some (rv, key, r)) = some (rv, length key, r)

module _ {S C Z : Type 0} {X : Type 0 → Type 0} (lib : Library S C Z X) where
  check_len-fits :
      (n : ℕ) (plain : Bytes) (r : Cdoc1 S)
      → verdict (some (check_len lib n (if length plain == n then plain else replicate n 0) r))
        ≡ some (ok, n, r)
  unfolding check_len
  check_len-fits n plain r = elim (Bool-cases (length plain == n)) [
    | inl same ↦ let size : length plain ≡ n = ground arith in rw (same, same, size) refl
    | inr other ↦
        let size : length (replicate {A = ℕ} n 0) ≡ n = length-replicate n 0 in
        let whole : (length (replicate {A = ℕ} n 0) == n) ≡ true = ground arith in
        rw (other, whole, size) refl
  ]

module _ {S C Z : Type 0} {X : Type 0 → Type 0} (lib : Library S C Z X) where
  abbrev pub with_unwrap : (Bytes → Bytes → Bytes) → Library S C Z X
  with_unwrap u = record lib { unwrap = u }

  rsa_fmk-blind :
      (u w : Bytes → Bytes → Bytes) (n : ℕ) (lock : Lock) (idx : ℕ) (fmk : Bytes) (r : Cdoc1 S)
      → rsa_fmk (with_unwrap u) n lock idx fmk r ≡ rsa_fmk (with_unwrap w) n lock idx fmk r
  unfolding rsa_fmk check_len
  rsa_fmk-blind u w n lock idx fmk r = refl

  ecc_fmk-blind :
      (u w : Bytes → Bytes → Bytes) (n : ℕ) (lock : Lock) (idx : ℕ) (fmk : Bytes) (r : Cdoc1 S)
      → verdict (ecc_fmk (with_unwrap u) n lock idx fmk r)
        ≡ verdict (ecc_fmk (with_unwrap w) n lock idx fmk r)
  unfolding ecc_fmk
  ecc_fmk-blind u w n lock idx fmk r = elim (Option-cases (get_bytes key_material lock)) [
    | inl no_material ↦ rw no_material refl
    | inr (m, material) ↦ elim (Option-cases (get_bytes algorithm_id lock)) [
      | inl no_algorithm ↦ rw (material, no_algorithm) refl
      | inr (g, algorithm) ↦ elim (Option-cases (get_bytes party_uinfo lock)) [
        | inl no_uinfo ↦ rw (material, algorithm, no_uinfo) refl
        | inr (f, uinfo) ↦ elim (Option-cases (get_bytes party_vinfo lock)) [
          | inl no_vinfo ↦ rw (material, algorithm, uinfo, no_vinfo) refl
          | inr (v, vinfo) ↦
              let (rv, key) = lib.derive_concat_kdf m (get_string concat_digest lock) g f v idx in
              let r' : Cdoc1 S = record r { is_rsa = false; throttle_key_id = [] } in
              elim (Bool-cases (is_error rv)) [
                | inl failed ↦ rw (material, algorithm, uinfo, vinfo, failed) refl
                | inr fine ↦
                    rw (material, algorithm, uinfo, vinfo, fine)
                      (check_len-fits (with_unwrap u) n (u key lock.encrypted_fmk) r'
                        ∙ sym (check_len-fits (with_unwrap w) n (w key lock.encrypted_fmk) r'))
              ]
        ]
      ]
    ]
  ]

  -- Whatever Crypto::AESWrap gives, for every index, every vector of the caller and every state of
  -- the reader: the result of getFMK, the length of the key, the exception of a parameter that is
  -- missing, and all that the reader keeps are the same.
  pub get_fmk-blind :
      (u w : Bytes → Bytes → Bytes) (idx : ℕ) (fmk : Bytes) (r : Cdoc1 S)
      → verdict (get_fmk (with_unwrap u) idx fmk r) ≡ verdict (get_fmk (with_unwrap w) idx fmk r)
  unfolding get_fmk expected_fmk_len
  get_fmk-blind u w idx fmk r = elim (Option-cases (get_elem? r.locks idx)) [
    | inl missing ↦ rw (get_fmk, missing) refl
    | inr (lock, there) ↦
        let n = expected_fmk_len lib r.method in
        let r' : Cdoc1 S = record r { last_error = [] } in
        elim (Bool-cases (is_aes_len n)) [
          | inr strange ↦ rw (get_fmk, there, strange) refl
          | inl aes ↦ elim (Bool-cases (is_rsa lock)) [
            | inl by_rsa ↦
                rw (get_fmk, there, aes, by_rsa) (ap verdict (rsa_fmk-blind u w n lock idx fmk r'))
            | inr by_ecc ↦ rw (get_fmk, there, aes, by_ecc) (ecc_fmk-blind u w n lock idx fmk r')
          ]
        ]
  ]
