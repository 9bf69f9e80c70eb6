-- ===== src/Capsules/Whole.antt =====
-- A header that a writer builds (cdoc/CDoc2Writer.cpp) lets every recipient that it is made for
-- find the container's key in the reader (cdoc/CDoc2Reader.cpp).
use libcdoc.Base.{
  ℕ, zero, suc, get_elem?, ◌+◌, Bytes, length, List, [], ◌∷◌, map, true, Option, none, some, ◌≡◌,
  inl, inr, refl, ap, arith, Bool-cases,
}
use libcdoc.Container.{key_len}
use libcdoc.Locks.{Lock, Algorithm, rsa, ecc, unknown_algorithm}
use libcdoc.Locks.Build.{RecipientRecord, EllipticCurve, build_lock}
use libcdoc.Recipients.{Recipient, symmetric_key, public_key, validate}
use libcdoc.Keys.{key, xor_data}
use libcdoc.Keys.Unlock.{hmac_info, unlock, lock_at, get_fmk}
use libcdoc.Capsules.{
  made, Build, Services, random_key, as_made, known, is_key_server, server_url, ec_data, ecc_kek,
  build_rsa, build_ecc, build_pki, build_record, build_records,
}
use libcdoc.Capsules.Secret.{
  IsAnswering, after-made, as_made-made, pure-made, xor_data-length, derived_opens,
  build_secret-unlocks,
}
use libcdoc.Capsules.Pki.{
  Serves, Derives, known-made, rsa_record-Derives, ecc_record-Derives, ecc_kek-whole,
}

server_url-networked :
    {B : Type 0} (sv : Services B) (r : Recipient) (url : Bytes) (b b' : B)
    → server_url sv r b ≡ made url b'
    → is_key_server r ≡ true
    → sv.keys.has_network ≡ true
unfolding server_url
server_url-networked sv r url b b' e served = elim (Bool-cases sv.keys.has_network) [
  | inl there ↦ there
  | inr missing ↦ elim (Bool-cases sv.has_conf) [
    | inl conf ↦ absurd (cc (rw (served, server_url, conf, missing) at e))
    | inr no_conf ↦ absurd (cc (rw (served, server_url, no_conf) at e))
  ]
]

module _ {B : Type 0} (sv : Services B) (idx : ℕ) (r : Recipient) (law : Serves sv idx r)
    (fmk : Bytes) (whole : length fmk ≡ key_len) where
  build_rsa-Derives :
      (url : Bytes) (x : RecipientRecord) (b b' : B)
      → (is_key_server r ≡ true → sv.keys.has_network ≡ true)
      → build_rsa sv fmk r url b ≡ made x b'
      → Derives sv.keys idx fmk x
  unfolding build_rsa
  build_rsa-Derives url x b b' networked e =
      let (kek, b1, drawn, e1) = after-made (random_key sv b) _ b' x e in
      let (locked, b2, put, e2) = after-made (as_made (xor_data fmk kek) b1) _ b' x e1 in
      let (m, b3, text, e3) = after-made (known sv (sv.encrypt_rsa r.rcpt_key kek b2)) _ b' x e2 in
      rsa_record-Derives sv idx r law fmk locked kek
        (as_made-made (xor_data fmk kek) b1 b2 locked put) url m x b3 b'
        (law.rsa_decrypts kek m b2 b3 (known-made sv _ m b3 text)) networked e3

  build_ecc-Derives :
      (url : Bytes) (x : RecipientRecord) (b b' : B) (o : Option (EllipticCurve × Bytes))
      → ec_data r.ec_type ≡ o
      → (is_key_server r ≡ true → sv.keys.has_network ≡ true)
      → build_ecc sv fmk r url b ≡ made x b'
      → Derives sv.keys idx fmk x
  unfolding build_ecc
  build_ecc-Derives url x b b' none d networked e = absurd (cc (rw (build_ecc, d) at e))
  build_ecc-Derives url x b b' (some (curve, name)) d networked e =
      let ((m, secret), b1, shared, e1) =
        after-made (known sv (sv.ecc_secret r.ec_type r.rcpt_key b)) _ b' x
          (rw (build_ecc, d) at e) in
      let (locked, b2, put, e2) =
        after-made (as_made (xor_data fmk (ecc_kek sv fmk r m secret)) b1) _ b' x e1 in
      ecc_record-Derives sv idx r law fmk locked (ecc_kek sv fmk r m secret)
        (as_made-made (xor_data fmk (ecc_kek sv fmk r m secret)) b1 b2 locked put) url m secret name
        curve x b2 b' (law.ecc_shares m secret b b1 (known-made sv _ (m, secret) b1 shared))
        (ecc_kek-whole sv fmk r m secret whole) networked e2

  key-Derives :
      (a : Algorithm) (url : Bytes) (x : RecipientRecord) (b b' : B)
      → (is_key_server r ≡ true → sv.keys.has_network ≡ true)
      → (elim a as (λ t. Build B RecipientRecord) [
        | rsa ↦ build_rsa sv fmk r url
        | _ ↦ build_ecc sv fmk r url
      ])
          b
        ≡ made x b'
      → Derives sv.keys idx fmk x
  key-Derives rsa url x b b' networked e = build_rsa-Derives url x b b' networked e
  key-Derives ecc url x b b' networked e =
      build_ecc-Derives url x b b' (ec_data r.ec_type) refl networked e
  key-Derives unknown_algorithm url x b b' networked e =
      build_ecc-Derives url x b b' (ec_data r.ec_type) refl networked e

  build_pki-Derives :
      (x : RecipientRecord) (b b' : B)
      → build_pki sv fmk r b ≡ made x b'
      → Derives sv.keys idx fmk x
  unfolding build_pki
  build_pki-Derives x b b' e =
      let (url, b1, found, e1) = after-made (server_url sv r b) _ b' x e in
      key-Derives r.pk_type url x b1 b' (server_url-networked sv r url b b1 found) e1

-- A recipient that the reader's back end can act for as lock `idx`: it has the secret of a password
-- or of a symmetric key, or the private key of a public one.
pub data CanOpen {B : Type 0} (sv : Services B) (idx : ℕ) (r : Recipient) : Type 0 where
  by_secret : r.type ≡ symmetric_key → validate r ≡ true → IsAnswering sv.keys → CanOpen sv idx r
  by_key : r.type ≡ public_key → Serves sv idx r → CanOpen sv idx r

module _ {B : Type 0} (sv : Services B) (header hmac fmk : Bytes) (whole : length fmk ≡ key_len)
    (signed : sv.keys.sign_hmac (sv.keys.expand fmk hmac_info key_len) header ≡ hmac) where
  Derives-opens :
      (idx : ℕ) (x : RecipientRecord)
      → Derives sv.keys idx fmk x
      → unlock sv.keys header hmac (build_lock x) idx ≡ some (key fmk)
  Derives-opens idx x d =
      let size = xor_data-length fmk d.kek d.locked d.encrypts in
      derived_opens sv.keys header hmac fmk signed (build_lock x) idx d.kek d.locked d.derived
        (λ none_left. absurd (omega (arith, whole, size, ap length none_left))) d.encrypts d.kept

  build_record-unlocks :
      (idx : ℕ) (r : Recipient) (x : RecipientRecord) (b b' : B)
      → CanOpen sv idx r
      → build_record sv fmk idx r b ≡ made x b'
      → unlock sv.keys header hmac (build_lock x) idx ≡ some (key fmk)
  unfolding build_record
  build_record-unlocks idx r x b b' (by_secret kind valid answers) e =
      build_secret-unlocks sv header hmac fmk idx r x b b' answers signed kind valid
        (rw (kind, build_record) at e)
  build_record-unlocks idx r x b b' (by_key kind law) e =
      Derives-opens idx x
        (build_pki-Derives sv idx r law fmk whole x b b' (rw (kind, build_record) at e))

  build_records-unlocks :
      (n i k : ℕ) (recipients : List Recipient) (r : Recipient) (xs : List RecipientRecord)
      (b b' : B)
      → n + i ≡ k
      → get_elem? recipients i ≡ some r
      → CanOpen sv k r
      → build_records sv fmk n recipients b ≡ made xs b'
      → (l : Lock) × (lock_at i (map build_lock xs) ≡ some l)
        × (unlock sv.keys header hmac l k ≡ some (key fmk))
  unfolding build_records lock_at
  build_records-unlocks n i k [] r xs b b' ek found opens e = absurd (cc found)
  build_records-unlocks n zero k (r0 ∷ recipients) r xs b b' ek found opens e =
      let (x, b1, first, e1) = after-made (build_record sv fmk n r0 b) _ b' xs e in
      let (rest, b2, later, e2) =
        after-made (build_records sv fmk (suc n) recipients b1) _ b' xs e1 in
      let same : r0 ≡ r = cc found in
      let here : n ≡ k = omega (arith, ek) in
      rw (pure-made (x ∷ rest) xs b2 b' e2)
        (build_lock x, refl, build_record-unlocks k r x b b1 opens (rw (here, same) at first))
  build_records-unlocks n (suc i) k (r0 ∷ recipients) r xs b b' ek found opens e =
      let (x, b1, first, e1) = after-made (build_record sv fmk n r0 b) _ b' xs e in
      let (rest, b2, later, e2) =
        after-made (build_records sv fmk (suc n) recipients b1) _ b' xs e1 in
      rw (pure-made (x ∷ rest) xs b2 b' e2) (
        build_records-unlocks (suc n) i k recipients r rest b1 b2 (omega (arith, ek)) found opens
          later)

  -- For a key of the container of 32 bytes and a header whose HMAC under it is given: when
  -- buildHeader makes records of the recipients, getFMK gives the key for the lock of each
  -- recipient whose secret or private key the back end holds.
  pub get_fmk-build_records :
      (i : ℕ) (recipients : List Recipient) (r : Recipient) (xs : List RecipientRecord) (b b' : B)
      → get_elem? recipients i ≡ some r
      → CanOpen sv i r
      → build_records sv fmk 0 recipients b ≡ made xs b'
      → get_fmk sv.keys header hmac (map build_lock xs) i ≡ some (key fmk)
  unfolding get_fmk
  get_fmk-build_records i recipients r xs b b' found opens e =
      let (l, there, unlocked) =
        build_records-unlocks 0 i i recipients r xs b b' (omega arith) found opens e in
      rw (there, get_fmk) unlocked
