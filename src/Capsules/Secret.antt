-- ===== src/Capsules/Secret.antt =====
-- The record that a writer makes for a password or a symmetric key (cdoc/CDoc2Writer.cpp) gives a
-- lock from which the reader (cdoc/CDoc2Reader.cpp) derives the same key.
use libcdoc.Base.{
  ℕ, zero, suc, ◌≢◌, ◌^◌, ◌<◌, Bytes, length, [], ◌∷◌, ◌++◌, Bool, true, false, ◌&&◌, ltb, leb,
  list_eq, some, if◌then◌else◌, ◌≡◌, ◌⊎◌, inl, inr, refl, sym, ap, ◌∙◌, arith, Bool-cases, ◌==◌,
}
use libcdoc.Outcome.{Result, count, fail, other, is_ok}
use libcdoc.Container.{key_len}
use libcdoc.Zip.Consumer.{is_below}
use libcdoc.Locks.{
  Lock, new_lock, password, symmetric_key, salt, pw_salt, kdf_iter, get_bytes, get_int, set_bytes,
  set_int, find, put,
}
use libcdoc.Locks.Params.{get_int-set_int}
use libcdoc.Locks.Build.{
  RecipientRecord, is_bad_iteration, build_lock, build_capsule, build_password,
}
use libcdoc.Recipients.{Recipient, validate, get_label}
use libcdoc.Recipients as Recipients
use libcdoc.Recipients.Iterations.{validate-iterations}
use libcdoc.Keys.{Key, key, no_key, xor_data}
use libcdoc.Keys.Unlock.{
  Backend, and_then, answered, unless_empty, of_key_len, openssl_error, kek_info, get_key_material,
  extract_hkdf, expand_kek, derive_kek, hmac_info, unlock,
}
use libcdoc.Keys.Unlock.Verified.{unlock-locked}
use libcdoc.Capsules.{
  Made, made, stopped, undefined, Build, after, Services, random_key, as_made, extracted,
  is_password, symmetric_capsule, password_capsule, secret_record, build_secret,
}

-- A step that is made has made its first part.
pub after-made :
    {B A C : Type 0} (o : Made A B) (f : A → Build B C) (b' : B) (x : C)
    → after o f ≡ made x b'
    → (a : A) × (b : B) × (o ≡ made a b) × (f a b ≡ made x b')
after-made (made a b) f b' x h = (a, b, refl, h)
after-made (stopped r b) f b' x h = absurd (cc h)
after-made undefined f b' x h = absurd (cc h)

-- `getSecret` returns an error code or OK.
pub record IsAnswering (be : Backend) : Type 0 where
  pub answers :
      (idx : ℕ) → (is_ok (be.get_secret idx).0 ≡ true) ⊎ (is_below (be.get_secret idx).0 ≡ true)

module _ (be : Backend) where
  derive-password :
      (lock : Lock) (idx n : ℕ) (s pw pm : Bytes)
      → lock.type ≡ password
      → get_bytes salt lock ≡ some s
      → get_bytes pw_salt lock ≡ some pw
      → get_int kdf_iter lock ≡ n
      → extract_hkdf be s pw n idx ≡ key pm
      → derive_kek be lock idx ≡ some (key (be.expand pm (kek_info ++ lock.label) key_len))
  unfolding derive_kek expand_kek
  derive-password lock idx n s pw pm kind hs hp hn he = rw (derive_kek, kind, hs, hp, hn, he) refl

  derive-symmetric :
      (lock : Lock) (idx : ℕ) (s pm : Bytes)
      → lock.type ≡ symmetric_key
      → get_bytes salt lock ≡ some s
      → extract_hkdf be s [] 0 idx ≡ key pm
      → derive_kek be lock idx ≡ some (key (be.expand pm (kek_info ++ lock.label) key_len))
  unfolding derive_kek expand_kek
  derive-symmetric lock idx s pm kind hs he = rw (derive_kek, kind, hs, he) refl

  -- Without iterations the salt of the password is not used.
  extract_hkdf_raw :
      (s pw : Bytes) (idx : ℕ) → extract_hkdf be s pw 0 idx ≡ extract_hkdf be s [] 0 idx
  unfolding extract_hkdf get_key_material
  extract_hkdf_raw s pw idx = refl

module _ (r : Recipient) (s x : Bytes) where
  abbrev begun : Lock
  begun = record new_lock { label = get_label [] r; encrypted_fmk = x }

  abbrev salted : Bytes → Lock
  salted pw = set_bytes pw_salt pw (set_bytes salt s (record begun { type = password }))

  password_lock :
      (pw : Bytes)
      → is_bad_iteration r.kdf_iter ≡ false
      → build_lock (password_capsule r s pw x) ≡ set_int kdf_iter r.kdf_iter (salted pw)
  unfolding build_lock build_capsule build_password password_capsule
  password_lock pw fine = rw fine refl

  symmetric_lock :
      build_lock (symmetric_capsule r s x)
      ≡ set_bytes salt s (record begun { type = symmetric_key })
  unfolding build_lock build_capsule symmetric_capsule
  symmetric_lock = refl

  module _ (be : Backend) (idx : ℕ) (pm : Bytes) where
    password_opens :
        (pw : Bytes)
        → is_bad_iteration r.kdf_iter ≡ false
        → extract_hkdf be s pw r.kdf_iter idx ≡ key pm
        → derive_kek be (build_lock (password_capsule r s pw x)) idx
          ≡ some (key (be.expand pm (kek_info ++ get_label [] r) key_len))
    unfolding get_bytes set_int set_bytes find put
    password_opens pw fine he =
        let small : r.kdf_iter < 2 ^ 32 = ground arith in
        rw (password_lock pw fine) (
          derive-password be (set_int kdf_iter r.kdf_iter (salted pw)) idx r.kdf_iter s pw pm refl
            refl refl (get_int-set_int kdf_iter r.kdf_iter (salted pw) small) he)

    symmetric_opens :
        (pw : Bytes)
        → r.kdf_iter ≡ 0
        → extract_hkdf be s pw r.kdf_iter idx ≡ key pm
        → derive_kek be (build_lock (symmetric_capsule r s x)) idx
          ≡ some (key (be.expand pm (kek_info ++ get_label [] r) key_len))
    unfolding get_bytes set_bytes find put
    symmetric_opens pw none_set he = rw symmetric_lock (
        derive-symmetric be (set_bytes salt s (record begun { type = symmetric_key })) idx s pm refl
          refl (sym (extract_hkdf_raw be s pw idx) ∙ rw none_set at he))

-- A key, or a result that is negative.
abbrev IsNegative : Key → Type 0
IsNegative (key k) = Unit {0}
IsNegative (no_key r) = is_below r ≡ true

if-IsNegative :
    (b : Bool) (x y : Key) → IsNegative x → IsNegative y → IsNegative (if b then x else y)
if-IsNegative true x y hx hy = hx
if-IsNegative false x y hx hy = hy

and_then-IsNegative :
    (k : Key) (f : Bytes → Key)
    → IsNegative k
    → ((m : Bytes) → IsNegative (f m))
    → IsNegative (and_then k f)
and_then-IsNegative (key m) f hk hf = hf m
and_then-IsNegative (no_key r) f hk hf = hk

answered-IsNegative :
    (a : Result × Bytes) → (is_ok a.0 ≡ true) ⊎ (is_below a.0 ≡ true) → IsNegative (answered a)
answered-IsNegative (count zero, b) h = tt
answered-IsNegative (count (suc n), b) (inl h) = absurd (cc h)
answered-IsNegative (count (suc n), b) (inr h) = h
answered-IsNegative (fail c, b) (inl h) = absurd (cc h)
answered-IsNegative (fail c, b) (inr h) = h

unless_empty-IsNegative : (n : ℕ) (b : Bytes) → IsNegative (unless_empty (other n) b)
unless_empty-IsNegative n [] = refl
unless_empty-IsNegative n (x ∷ b) = tt

of_key_len-IsNegative : (b : Bytes) → IsNegative (of_key_len b)
of_key_len-IsNegative b = if-IsNegative (length b == key_len) _ _ tt refl

module _ (be : Backend) (answers : IsAnswering be) (idx : ℕ) (pw : Bytes) (n : ℕ) where
  get_key_material-IsNegative : IsNegative (get_key_material be pw n idx)
  unfolding get_key_material
  get_key_material-IsNegative =
      let asked = answered-IsNegative (be.get_secret idx) (answers.answers idx) in
      if-IsNegative (ltb 0 n && ltb n (2 ^ 31)) _ _
        (if-IsNegative (list_eq pw []) _ _ refl (
          and_then-IsNegative (answered (be.get_secret idx)) _ asked
            (λ m. unless_empty-IsNegative 202 (be.pbkdf2 m pw n))))
        (and_then-IsNegative (answered (be.get_secret idx)) of_key_len asked of_key_len-IsNegative)

  extract_hkdf-IsNegative : (s : Bytes) → IsNegative (extract_hkdf be s pw n idx)
  unfolding extract_hkdf
  extract_hkdf-IsNegative s = if-IsNegative (list_eq s []) _ _ refl (
      if-IsNegative (leb (2 ^ 31) n) _ _ refl (
        if-IsNegative (ltb 0 n && list_eq pw []) _ _ refl (
          and_then-IsNegative (get_key_material be pw n idx) _ get_key_material-IsNegative (λ m.
            and_then-IsNegative (unless_empty openssl_error (be.extract m s)) of_key_len
              (unless_empty-IsNegative 202 (be.extract m s)) of_key_len-IsNegative))))

extracted-made :
    {B : Type 0} (s : Services B) (k : Key) (pm : Bytes) (b b' : B)
    → IsNegative k
    → extracted s k b ≡ made pm b'
    → k ≡ key pm
unfolding extracted
extracted-made s (key m) pm b b' h e = cc e
extracted-made s (no_key r) pm b b' h e = absurd (cc (rw h at e))

pub as_made-made :
    {B : Type 0} (k : Key) (b b' : B) (m : Bytes) → as_made k b ≡ made m b' → k ≡ key m
as_made-made (key m') b b' m e = cc e
as_made-made (no_key r) b b' m e = absurd (cc e)

pub pure-made :
    {A B : Type 0} (a x : A) (b b' : B) → ◌≡◌ {A = Made A B} (made a b) (made x b') → x ≡ a
pure-made a x b b' e = cc e

-- What a record holds that has been made for a key-encrypting key.
secret_record-made :
    {B : Type 0} (sv : Services B) (fmk : Bytes) (r : Recipient) (s pw kek : Bytes)
    (x : RecipientRecord) (b b' : B)
    → secret_record sv fmk r s pw kek b ≡ made x b'
    → (locked : Bytes) × (xor_data fmk kek ≡ key locked)
      × (kek ≢ [])
      × (x ≡ (
          if is_password sv r
          then password_capsule r s pw locked
          else symmetric_capsule r s locked))
unfolding secret_record
secret_record-made sv fmk r s pw [] x b b' e = absurd (cc e)
secret_record-made sv fmk r s pw (y ∷ kek) x b b' e =
    let (locked, b1, put, rest) = after-made (as_made (xor_data fmk (y ∷ kek)) b) _ b' x e in
    (locked, as_made-made (xor_data fmk (y ∷ kek)) b b1 locked put, (cc), pure-made _ x b1 b' rest)

pub xor_data-length : (a b k : Bytes) → xor_data a b ≡ key k → length a ≡ length b
unfolding xor_data
xor_data-length a b k e = elim (Bool-cases (length a == length b)) [
  | inl same ↦ ground arith
  | inr other_size ↦ absurd (cc (rw other_size at e))
]

module _ (be : Backend) (header hmac fmk : Bytes)
    (signed : be.sign_hmac (be.expand fmk hmac_info key_len) header ≡ hmac) where
  -- A lock opens whose key-encrypting key is the one that its key was encrypted with.
  pub derived_opens :
      (lock : Lock) (idx : ℕ) (kek locked : Bytes)
      → derive_kek be lock idx ≡ some (key kek)
      → kek ≢ []
      → xor_data fmk kek ≡ key locked
      → lock.encrypted_fmk ≡ locked
      → unlock be header hmac lock idx ≡ some (key fmk)
  derived_opens lock idx [] locked derives full put same = absurd (full refl)
  derived_opens lock idx (y ∷ kek) locked derives full put same =
      unlock-locked be header hmac lock idx y kek fmk derives
        (xor_data-length fmk (y ∷ kek) locked put) (put ∙ ap key (sym same)) signed

  secret_lock_opens :
      (r : Recipient) (idx : ℕ) (s pw pm locked : Bytes) (password_set : Bool)
      → (ltb 0 r.kdf_iter && ltb r.kdf_iter (2 ^ 31)) ≡ password_set
      → r.type ≡ Recipients.symmetric_key
      → validate r ≡ true
      → extract_hkdf be s pw r.kdf_iter idx ≡ key pm
      → be.expand pm (kek_info ++ get_label [] r) key_len ≢ []
      → xor_data fmk (be.expand pm (kek_info ++ get_label [] r) key_len) ≡ key locked
      → unlock be header hmac
          (build_lock
            (if password_set then password_capsule r s pw locked else symmetric_capsule r s locked))
          idx
        ≡ some (key fmk)
  secret_lock_opens r idx s pw pm locked true set kind valid he full put =
      elim (validate-iterations r kind valid) [
        | inl none_set ↦ absurd (ground arith)
        | inr (low, high, fine) ↦
            derived_opens (build_lock (password_capsule r s pw locked)) idx _ locked
              (password_opens r s locked be idx pm pw fine he) full put
              (rw (password_lock r s locked pw fine) (unfold set_int set_bytes in refl))
      ]
  secret_lock_opens r idx s pw pm locked false set kind valid he full put =
      elim (validate-iterations r kind valid) [
        | inl none_set ↦
            derived_opens (build_lock (symmetric_capsule r s locked)) idx _ locked
              (symmetric_opens r s locked be idx pm pw none_set he) full put
              (rw (symmetric_lock r s locked) (unfold set_bytes in refl))
        | inr (low, high, fine) ↦ absurd (ground arith)
      ]

-- The record that is made for a valid recipient with a password or a symmetric key gives a lock
-- that the reader opens with the same back end.
pub build_secret-unlocks :
    {B : Type 0} (sv : Services B) (header hmac fmk : Bytes) (idx : ℕ) (r : Recipient)
    (x : RecipientRecord) (b b' : B)
    → IsAnswering sv.keys
    → sv.keys.sign_hmac (sv.keys.expand fmk hmac_info key_len) header ≡ hmac
    → r.type ≡ Recipients.symmetric_key
    → validate r ≡ true
    → build_secret sv fmk idx r b ≡ made x b'
    → unlock sv.keys header hmac (build_lock x) idx ≡ some (key fmk)
unfolding build_secret
build_secret-unlocks sv header hmac fmk idx r x b b' answers signed kind valid e =
    let (s, b1, drawn, e1) = after-made (random_key sv b) _ b' x e in
    let (pw, b2, drawn', e2) = after-made (random_key sv b1) _ b' x e1 in
    let (pm, b3, taken, e3) =
      after-made (extracted sv (extract_hkdf sv.keys s pw r.kdf_iter idx) b2) _ b' x e2 in
    let (locked, put, full, shape) =
      secret_record-made sv fmk r s pw (sv.keys.expand pm (kek_info ++ get_label [] r) key_len) x b3
        b' e3 in
    let he =
      extracted-made sv (extract_hkdf sv.keys s pw r.kdf_iter idx) pm b2 b3
        (extract_hkdf-IsNegative sv.keys answers idx pw r.kdf_iter s) taken in
    rw shape (
      secret_lock_opens sv.keys header hmac fmk signed r idx s pw pm locked _ refl kind valid he
        full put)
