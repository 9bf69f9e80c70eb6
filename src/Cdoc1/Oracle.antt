-- ===== src/Cdoc1/Oracle.antt =====
-- A failure of `CDoc1Reader::decrypt` and `beginDecryption` behind `getFMK`
-- (cdoc/CDoc1Reader.cpp), and the calls of Crypto::rsaOracleThrottle.
use libcdoc.Base.{
  ℕ, Bytes, length, List, [], ◌∷◌, ◌++◌, get_elem?, Bool, true, false, none, some, OnSome, on_some,
  list_eq, if◌then◌else◌, ◌==◌, ◌≡◌, ◌≢◌, inl, inr, refl, arith, Bool-cases, Option-cases,
}
use libcdoc.Outcome.{Result, ok, is_ok}
use libcdoc.Locks.{
  Lock, get_bytes, is_rsa, rcpt_key, key_material, algorithm_id, party_uinfo, party_vinfo,
  get_string, concat_digest,
}
use libcdoc.Text.Hex.{to_hex}
use libcdoc.Text.Hex.RoundTrip.{length-to_hex}
use libcdoc.Payload.Whole.{MultiSink}
use libcdoc.Cdoc1.Xml.{is_error}
use libcdoc.Cdoc1.{
  Library, Cdoc1, resize, expected_fmk_len, is_aes_len, check_len, rsa_fmk, ecc_fmk, get_fmk,
  decrypt_body,
}
use libcdoc.Cdoc1.Session.{consume, collect}
use libcdoc.Cdoc1.Throttle.{failure_calls, decrypt_body-throttled}

module _ {S C Z : Type 0} {X : Type 0 → Type 0} (lib : Library S C Z X) where
  -- The identifier of a lock's key, of RSA: the digits of the hash of its public key.
  abbrev pub key_calls : Lock → List Bytes
  key_calls lock =
      if is_rsa lock
      then (elim (get_bytes rcpt_key lock) [ none ↦ [] | some pk ↦ to_hex (lib.sha256 pk) ∷ [] ])
      else []

  -- The calls of the throttle for a lock and the result of a decryption with its key.
  abbrev pub calls_of : Lock → Result → List Bytes
  calls_of lock rv = if is_ok rv then [] else key_calls lock

  list_eq_full : (b : Bytes) → length b ≢ 0 → list_eq b [] ≡ false
  list_eq_full [] full = absurd (full refl)
  list_eq_full (x ∷ b) full = refl

  -- What getFMK leaves for the throttle.
  record Told (lock : Lock) (r r' : Cdoc1 S) : Type 0 where
    calls_kept : r'.throttled ≡ r.throttled
    told : failure_calls r' ≡ key_calls lock

  module _ (hashes : (b : Bytes) → length (lib.sha256 b) ≡ 32) (lock : Lock) (r0 : Cdoc1 S) where
    check_len-Told :
        (n : ℕ) (key : Bytes) (r : Cdoc1 S)
        → Told lock r0 r
        → is_ok (check_len lib n key r).0 ≡ true
        → Told lock r0 (check_len lib n key r).2
    unfolding check_len
    check_len-Told n key r known fine = elim (Bool-cases (length key == n)) [
      | inl same ↦ rw same known
      | inr other ↦ absurd (cc (rw (other, check_len) at fine))
    ]

    rsa_fmk-Told :
        (n idx : ℕ) (fmk : Bytes) (r : Cdoc1 S)
        → r.throttled ≡ r0.throttled
        → is_rsa lock ≡ true
        → OnSome
            (λ (a : Result × Bytes × Cdoc1 S). is_ok a.0 ≡ true → Told lock r0 a.2)
            (rsa_fmk lib n lock idx fmk r)
    unfolding rsa_fmk
    rsa_fmk-Told n idx fmk r kept kind =
        let (rv, key) = lib.decrypt_rsa (resize n fmk) lock.encrypted_fmk idx in
        elim (Bool-cases (is_ok rv)) [
          | inr failed ↦ rw failed (λ fine. absurd (cc fine))
          | inl opened ↦ elim (Option-cases (get_bytes rcpt_key lock)) [
            | inl missing ↦ rw (opened, missing) tt
            | inr (pk, there) ↦
                (let id = to_hex (lib.sha256 pk) in
                  let full : list_eq id [] ≡ false =
                    list_eq_full id (omega (arith, length-to_hex (lib.sha256 pk), hashes pk)) in
                  rw (opened, there)
                    (λ fine.
                      check_len-Told n key (record r { is_rsa = true; throttle_key_id = id })
                        (record { calls_kept = kept; told = rw (kind, there, full) refl }) fine))
          ]
        ]

    ecc_fmk-Told :
        (n idx : ℕ) (fmk : Bytes) (r : Cdoc1 S)
        → r.throttled ≡ r0.throttled
        → is_rsa lock ≡ false
        → OnSome
            (λ (a : Result × Bytes × Cdoc1 S). is_ok a.0 ≡ true → Told lock r0 a.2)
            (ecc_fmk lib n lock idx fmk r)
    unfolding ecc_fmk
    ecc_fmk-Told n idx fmk r kept kind = elim (Option-cases (get_bytes key_material lock)) [
      | inl no_material ↦ rw no_material tt
      | inr (m, material) ↦ elim (Option-cases (get_bytes algorithm_id lock)) [
        | inl no_algorithm ↦ rw (material, no_algorithm) tt
        | inr (g, algorithm) ↦ elim (Option-cases (get_bytes party_uinfo lock)) [
          | inl no_uinfo ↦ rw (material, algorithm, no_uinfo) tt
          | inr (u, uinfo) ↦ elim (Option-cases (get_bytes party_vinfo lock)) [
            | inl no_vinfo ↦ rw (material, algorithm, uinfo, no_vinfo) tt
            | inr (v, vinfo) ↦
                let rv = (lib.derive_concat_kdf m (get_string concat_digest lock) g u v idx).0 in
                elim (Bool-cases (is_error rv)) [
                  | inl failed ↦
                      rw (material, algorithm, uinfo, vinfo, failed) (λ fine. absurd (cc fine))
                  | inr worked ↦
                      rw (material, algorithm, uinfo, vinfo, worked)
                        (check_len-Told n _ (record r { is_rsa = false; throttle_key_id = [] })
                          (record { calls_kept = kept; told = rw kind refl }))
                ]
          ]
        ]
      ]
    ]

    get_fmk-Told :
        (idx : ℕ) (fmk : Bytes)
        → get_elem? r0.locks idx ≡ some lock
        → OnSome
            (λ (a : Result × Bytes × Cdoc1 S). is_ok a.0 ≡ true → Told lock r0 a.2)
            (get_fmk lib idx fmk r0)
    unfolding get_fmk
    get_fmk-Told idx fmk there =
        let n = expected_fmk_len lib r0.method in
        let r = record r0 { last_error = [] } in
        elim (Bool-cases (is_aes_len n)) [
          | inr strange ↦ rw (get_fmk, there, strange) (λ fine. absurd (cc fine))
          | inl aes ↦ elim (Bool-cases (is_rsa lock)) [
            | inl kind ↦ rw (get_fmk, there, aes, kind) (rsa_fmk-Told n idx fmk r refl kind)
            | inr kind ↦ rw (get_fmk, there, aes, kind) (ecc_fmk-Told n idx fmk r refl kind)
          ]
        ]

  -- For a hash of 32 bytes: when getFMK gives OK for a lock, and decrypt or beginDecryption, behind
  -- its search for the payload, then returns with a result, for the reader as getFMK leaves it and
  -- whatever the key, the payload and the consumer, Crypto::rsaOracleThrottle has been called once,
  -- with the digits of the hash of the lock's public key, when the lock is of RSA and the result is
  -- not OK, and it has not been called otherwise.
  pub get_fmk-throttled :
      (hashes : (b : Bytes) → length (lib.sha256 b) ≡ 32) (fuel idx : ℕ) {D : Type 0}
      (out : MultiSink D) (is_broken : D → Bool) (lock : Lock) (before after : Bytes)
      (r0 r : Cdoc1 S) (fmk bytes : Bytes) (d : D)
      → get_elem? r0.locks idx ≡ some lock
      → get_fmk lib idx before r0 ≡ some (ok, after, r)
      → OnSome
          (λ (o : Result × Cdoc1 S × D). o.1.throttled ≡ r0.throttled ++ calls_of lock o.0)
          (decrypt_body lib (consume lib fuel out is_broken) fuel fmk bytes r d)
        × OnSome
            (λ (o : Result × Cdoc1 S × Unit {0}). o.1.throttled ≡ r0.throttled ++ calls_of lock o.0)
            (decrypt_body lib (collect lib fuel) fuel fmk bytes r tt)
  get_fmk-throttled hashes fuel idx out is_broken lock before after r0 r fmk bytes d there e =
      let known =
        on_some (λ (a : Result × Bytes × Cdoc1 S). is_ok a.0 ≡ true → Told lock r0 a.2) _ _
          (get_fmk-Told hashes lock r0 idx before there) e refl in
      rw (← known.told, ← known.calls_kept)
        (decrypt_body-throttled lib fuel out is_broken fmk bytes r d)
