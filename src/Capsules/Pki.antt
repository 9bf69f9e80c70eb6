-- ===== src/Capsules/Pki.antt =====
-- The record that a writer makes for a public key, with or without a key server
-- (cdoc/CDoc2Writer.cpp), gives a lock from which the reader (cdoc/CDoc2Reader.cpp) derives the
-- same key.
use libcdoc.Base.{
  ℕ, Bytes, length, codes, [], ◌∷◌, ◌++◌, true, false, list_eq, Option, none, some, ◌≡◌, ◌≢◌, inl,
  inr, refl, Bool-cases,
}
use libcdoc.Outcome.{Code, Result, ok}
use libcdoc.Zip.Consumer.{is_below}
use libcdoc.Locks.{
  Lock, public_key, server, is_rsa, rcpt_key, key_material, keyserver_id, transaction_id, get_bytes,
  get_string, set_bytes, find, put,
}
use libcdoc.Locks.Build.{
  RecipientRecord, EllipticCurve, rsa_details, ecc_details, build_lock, build_capsule, build_server,
}
use libcdoc.Container.{key_len}
use libcdoc.Recipients.{Recipient}
use libcdoc.Keys.{Key, key, xor_data}
use libcdoc.Keys.Unlock.{
  Backend, unless_empty, openssl_error, premaster, kek_info, derive_hmac_extract, ask_server,
  open_material, after_material, derive_kek,
}
use libcdoc.Capsules.{
  made, Services, known, checked, sent, is_key_server, rsa_capsule, ecc_capsule, server_capsule,
  rsa_record, ecc_record, ecc_kek,
}
use libcdoc.Capsules.Secret.{after-made, pure-made}

unless_empty_full : (c : Code) (b : Bytes) → b ≢ [] → unless_empty c b ≡ key b
unless_empty_full c [] full = absurd (full refl)
unless_empty_full c (x ∷ b) full = refl

-- The key that the reader derives from a shared secret.
abbrev pub shared_kek : Backend → Bytes → Bytes → Bytes → Bytes
shared_kek be public m secret =
    be.expand (be.extract secret premaster) (kek_info ++ public ++ m) key_len

module _ (be : Backend) (lock : Lock) (idx : ℕ) (m : Bytes) where
  derive-public :
      (k : Key)
      → lock.type ≡ public_key
      → get_bytes key_material lock ≡ some m
      → open_material be lock idx m ≡ some k
      → derive_kek be lock idx ≡ some k
  unfolding derive_kek
  derive-public k kind hm e = rw (derive_kek, kind, hm) e

  derive-server :
      (k : Key)
      → lock.type ≡ server
      → ask_server be lock ≡ key m
      → open_material be lock idx m ≡ some k
      → derive_kek be lock idx ≡ some k
  unfolding derive_kek after_material
  derive-server k kind asked e = rw (derive_kek, kind, asked) e

  ask_server-fetched :
      (url : Bytes → Bytes)
      → be.fetch_url ≡ some url
      → be.has_network ≡ true
      → list_eq (url (get_string keyserver_id lock)) [] ≡ false
      → be.fetch_key (url (get_string keyserver_id lock)) (get_string transaction_id lock) ≡ (ok, m)
      → ask_server be lock ≡ key m
  unfolding ask_server
  ask_server-fetched url hu hn full fetched = rw (hu, ask_server, hn, full, fetched) refl

  open_rsa :
      (kek : Bytes)
      → is_rsa lock ≡ true
      → be.decrypt_rsa m idx ≡ (ok, kek)
      → open_material be lock idx m ≡ some (key kek)
  unfolding open_material
  open_rsa kek kind decrypted = rw (kind, decrypted) refl

  open_ecc :
      (public secret : Bytes)
      → is_rsa lock ≡ false
      → be.derive_ecdh m idx ≡ (ok, secret)
      → be.extract secret premaster ≢ []
      → get_bytes rcpt_key lock ≡ some public
      → open_material be lock idx m ≡ some (key (shared_kek be public m secret))
  unfolding open_material derive_hmac_extract
  open_ecc public secret kind shared full hp =
      rw
        (
          kind,
          open_material,
          derive_hmac_extract,
          shared,
          unless_empty_full openssl_error (be.extract secret premaster) full,
          hp,
        )
        refl

-- What the services and the back end that opens lock `idx` do with the keys of a recipient: RSA
-- decrypts what it has encrypted, both sides of ECDH share their secret, HKDF gives some bytes, and
-- a key server that is configured for reading too gives out under its transaction what it has
-- taken.
pub record Serves {B : Type 0} (sv : Services B) (idx : ℕ) (r : Recipient) : Type 0 where
  pub rsa_decrypts :
      (kek m : Bytes) (b b' : B)
      → sv.encrypt_rsa r.rcpt_key kek b ≡ (some m, b')
      → sv.keys.decrypt_rsa m idx ≡ (ok, kek)
  pub ecc_shares :
      (m secret : Bytes) (b b' : B)
      → sv.ecc_secret r.ec_type r.rcpt_key b ≡ (some (m, secret), b')
      → sv.keys.derive_ecdh m idx ≡ (ok, secret)
  pub extracts : (m s : Bytes) → sv.keys.extract m s ≢ []
  pub url : Bytes → Bytes
  pub fetches : is_key_server r ≡ true → sv.keys.fetch_url ≡ some url
  pub has_url : is_key_server r ≡ true → list_eq (url r.server_id) [] ≡ false
  pub stores :
      (to m type transaction : Bytes) (time : ℕ) (rv : Result) (b b' : B)
      → sv.send_key to r.rcpt_key m type r.expiry_ts b ≡ (rv, (transaction, time), b')
      → is_below rv ≡ false
      → sv.keys.fetch_key (url r.server_id) transaction ≡ (ok, m)

pub known-made :
    {A B : Type 0} (sv : Services B) (o : Option A × B) (a : A) (b : B)
    → known sv o ≡ made a b
    → o ≡ (some a, b)
known-made sv (none, b1) a b e = absurd (cc e)
known-made sv (some a1, b1) a b e = cc e

checked-made :
    {A B : Type 0} (o : Result × A × B) (a : A) (b : B)
    → checked o ≡ made a b
    → (rv : Result) × (o ≡ (rv, a, b)) × (is_below rv ≡ false)
checked-made (rv, a1, b1) a b e = elim (Bool-cases (is_below rv)) [
  | inl low ↦ absurd (cc (rw low at e))
  | inr fine ↦ (rv, cc (rw fine at e), fine)
]

-- The writer's key of a shared secret is the reader's where the container's key has 32 bytes.
pub ecc_kek-whole :
    {B : Type 0} (sv : Services B) (fmk : Bytes) (r : Recipient) (m secret : Bytes)
    → length fmk ≡ key_len
    → ecc_kek sv fmk r m secret ≡ shared_kek sv.keys r.rcpt_key m secret
unfolding ecc_kek
ecc_kek-whole sv fmk r m secret whole = rw (ecc_kek, whole) refl

-- A record from which the back end derives the key that its key is encrypted with.
pub record Derives (be : Backend) (idx : ℕ) (fmk : Bytes) (x : RecipientRecord) : Type 0 where
  pub kek : Bytes
  pub locked : Bytes
  pub derived : derive_kek be (build_lock x) idx ≡ some (key kek)
  pub encrypts : xor_data fmk kek ≡ key locked
  pub kept : (build_lock x).encrypted_fmk ≡ locked

module _ {B : Type 0} (sv : Services B) (idx : ℕ) (r : Recipient) (law : Serves sv idx r)
    (fmk locked kek : Bytes) (put_in : xor_data fmk kek ≡ key locked) where
  rsa_public-Derives :
      (m : Bytes)
      → sv.keys.decrypt_rsa m idx ≡ (ok, kek)
      → Derives sv.keys idx fmk (rsa_capsule r m locked)
  unfolding build_lock build_capsule rsa_capsule get_bytes set_bytes find put is_rsa
  rsa_public-Derives m h = record {
    kek = kek;
    locked = locked;
    derived =
        derive-public sv.keys (build_lock (rsa_capsule r m locked)) idx m (key kek) refl refl
          (open_rsa sv.keys (build_lock (rsa_capsule r m locked)) idx m kek refl h);
    encrypts = put_in;
    kept = refl;
  }

  ecc_public-Derives :
      (curve : EllipticCurve) (m secret : Bytes)
      → sv.keys.derive_ecdh m idx ≡ (ok, secret)
      → kek ≡ shared_kek sv.keys r.rcpt_key m secret
      → Derives sv.keys idx fmk (ecc_capsule r curve m locked)
  unfolding build_lock build_capsule ecc_capsule get_bytes set_bytes find put is_rsa
  ecc_public-Derives curve m secret h e = record {
    kek = kek;
    locked = locked;
    derived =
        derive-public sv.keys (build_lock (ecc_capsule r curve m locked)) idx m (key kek) refl refl
          (rw e (
            open_ecc sv.keys (build_lock (ecc_capsule r curve m locked)) idx m r.rcpt_key secret
              refl h (law.extracts secret premaster) refl));
    encrypts = put_in;
    kept = refl;
  }

  module _ (server_set : is_key_server r ≡ true) (networked : sv.keys.has_network ≡ true)
      (m transaction : Bytes) (time : ℕ)
      (stored : sv.keys.fetch_key (law.url r.server_id) transaction ≡ (ok, m)) where
    rsa_server-Derives :
        sv.keys.decrypt_rsa m idx ≡ (ok, kek)
        → Derives sv.keys idx fmk
            (server_capsule r (rsa_details r.rcpt_key) (transaction, time) locked)
    unfolding build_lock build_capsule build_server server_capsule get_bytes get_string set_bytes
        find put is_rsa
    rsa_server-Derives h =
        let x = server_capsule r (rsa_details r.rcpt_key) (transaction, time) locked in
        record {
          kek = kek;
          locked = locked;
          derived =
              derive-server sv.keys (build_lock x) idx m (key kek) refl
                (ask_server-fetched sv.keys (build_lock x) idx m law.url (law.fetches server_set)
                  networked (law.has_url server_set) stored)
                (open_rsa sv.keys (build_lock x) idx m kek refl h);
          encrypts = put_in;
          kept = refl;
        }

    ecc_server-Derives :
        (curve : EllipticCurve) (secret : Bytes)
        → sv.keys.derive_ecdh m idx ≡ (ok, secret)
        → kek ≡ shared_kek sv.keys r.rcpt_key m secret
        → Derives sv.keys idx fmk
            (server_capsule r (ecc_details curve r.rcpt_key) (transaction, time) locked)
    unfolding build_lock build_capsule build_server server_capsule get_bytes get_string set_bytes
        find put is_rsa
    ecc_server-Derives curve secret h e =
        let x = server_capsule r (ecc_details curve r.rcpt_key) (transaction, time) locked in
        record {
          kek = kek;
          locked = locked;
          derived =
              derive-server sv.keys (build_lock x) idx m (key kek) refl
                (ask_server-fetched sv.keys (build_lock x) idx m law.url (law.fetches server_set)
                  networked (law.has_url server_set) stored)
                (rw e (
                  open_ecc sv.keys (build_lock x) idx m r.rcpt_key secret refl h
                    (law.extracts secret premaster) refl));
          encrypts = put_in;
          kept = refl;
        }

  pub rsa_record-Derives :
      (url m : Bytes) (x : RecipientRecord) (b b' : B)
      → sv.keys.decrypt_rsa m idx ≡ (ok, kek)
      → (is_key_server r ≡ true → sv.keys.has_network ≡ true)
      → rsa_record sv r url m locked b ≡ made x b'
      → Derives sv.keys idx fmk x
  unfolding rsa_record
  rsa_record-Derives url m x b b' h networked e = elim (Bool-cases (is_key_server r)) [
    | inr alone ↦
        (let same = pure-made _ x b b' (rw (alone, rsa_record) at e) in
          rw same (rsa_public-Derives m h))
    | inl served ↦
        (let ((transaction, time), b1, told, rest) =
            after-made (sent sv url r m (codes "rsa") b) _ b' x (rw (served, rsa_record) at e) in
          let (rv, taken, fine) = checked-made _ (transaction, time) b1 told in
          rw (pure-made _ x b1 b' rest) (
            rsa_server-Derives served (networked served) m transaction time
              (law.stores url m (codes "rsa") transaction time rv b b1 taken fine) h))
  ]

  pub ecc_record-Derives :
      (url m secret name : Bytes) (curve : EllipticCurve) (x : RecipientRecord) (b b' : B)
      → sv.keys.derive_ecdh m idx ≡ (ok, secret)
      → kek ≡ shared_kek sv.keys r.rcpt_key m secret
      → (is_key_server r ≡ true → sv.keys.has_network ≡ true)
      → ecc_record sv r url (curve, name) m locked b ≡ made x b'
      → Derives sv.keys idx fmk x
  unfolding ecc_record
  ecc_record-Derives url m secret name curve x b b' h ek networked e =
      elim (Bool-cases (is_key_server r)) [
        | inr alone ↦
            (let same = pure-made _ x b b' (rw (alone, ecc_record) at e) in
              rw same (ecc_public-Derives curve m secret h ek))
        | inl served ↦
            (let ((transaction, time), b1, told, rest) =
                after-made (sent sv url r m name b) _ b' x (rw (served, ecc_record) at e) in
              let (rv, taken, fine) = checked-made _ (transaction, time) b1 told in
              rw (pure-made _ x b1 b' rest) (
                ecc_server-Derives served (networked served) m transaction time
                  (law.stores url m name transaction time rv b b1 taken fine) curve secret h ek))
      ]
