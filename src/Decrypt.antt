-- ===== src/Decrypt.antt =====
-- `DecryptionSource` of cdoc/Crypto.h and cdoc/Crypto.cpp: the stream behind the IV is a ciphertext
-- and a tag of 16 bytes, and the tag is known only at the end, so the source holds back the last
-- 16 bytes that it has seen.
pub mod Window
pub mod Whole
pub mod Start
pub mod Short
mod Tests
use libcdoc.Base.{
  ℕ, zero, suc, ◌+◌, ◌-◌, Bytes, length, take, drop, replicate, List, [], ◌∷◌, ◌++◌, Bool, true,
  false, Option, none, some, ltb, leb, ◌==◌, if◌then◌else◌,
}
use libcdoc.Outcome.{
  Code, io_error, crypto_error, hash_mismatch, Result, count, fail, ok, is_ok, Got, got, refused,
}
use libcdoc.Io.{Source}

-- What the source uses of OpenSSL's EVP_CIPHER_CTX: `fresh` is EVP_CIPHER_CTX_new, `init` is
-- EVP_CipherInit_ex with a key and an IV, `update` is EVP_CipherUpdate (`none` when it fails or its
-- output has another length than its input), `aad` is EVP_CipherUpdate with no output, `set_tag` is
-- EVP_CIPHER_CTX_ctrl (the identity for a cipher without a tag) and `final` is EVP_CipherFinal_ex.
pub record Cipher (C : Type 0) : Type 0 where
  pub fresh : C
  pub init : C → Bytes → Bytes → Option C
  pub iv_length : ℕ
  pub update : C → Bytes → Option (Bytes × C)
  pub aad : C → Bytes → Option C
  pub set_tag : C → Bytes → Option C
  pub final : C → Bool

abbrev pub tag_size : ℕ
tag_size = 16

pub record DecryptionSource (S C : Type 0) : Type 0 where
  pub src : S
  pub ctx : C
  pub tag : Bytes
  pub error : Option Code

module _ {S C : Type 0} (io : Source S) (cipher : Cipher C) where
  abbrev pub failed_start : S → C → Bytes → Code → DecryptionSource S C
  failed_start s ctx tag c = record { src = s; ctx = ctx; tag = tag; error = some c }

  -- The constructor's last step reads the first 16 bytes behind the IV.
  unfoldable pub read_first_tag : S → C → DecryptionSource S C
  read_first_tag s ctx = elim (io.read tag_size s) [
    | refused c s' ↦ failed_start s' ctx (replicate tag_size 0) c
    | got t s' ↦
        if length t == tag_size
        then record { src = s'; ctx = ctx; tag = t; error = none }
        else failed_start s' ctx (t ++ replicate (tag_size - length t) 0) io_error
  ]

  -- The constructor.
  unfoldable pub start : Bytes → ℕ → S → DecryptionSource S C
  start key iv_len s =
      let n = if iv_len == 0 then cipher.iv_length else iv_len in
      elim (io.read n s) [
        | refused c s' ↦ failed_start s' cipher.fresh (replicate tag_size 0) c
        | got iv s' ↦
            if length iv == n
            then elim (cipher.init cipher.fresh key iv) [
              | none ↦ failed_start s' cipher.fresh (replicate tag_size 0) crypto_error
              | some ctx ↦ read_first_tag s' ctx
            ]
            else failed_start s' cipher.fresh (replicate tag_size 0) io_error
      ]

  -- The end of `read`: the block is decrypted in place.
  unfoldable pub decrypt_block : Bytes → DecryptionSource S C → Got (DecryptionSource S C)
  decrypt_block block d = elim (cipher.update d.ctx block) [
    | none ↦ refused crypto_error (record d { error = some crypto_error })
    | some (plain, ctx') ↦ got plain (record d { ctx = ctx' })
  ]

  -- The first branch of `read`, for a block no longer than a tag.
  unfoldable pub read_small : ℕ → DecryptionSource S C → Got (DecryptionSource S C)
  read_small size d = elim (io.read size d.src) [
    | refused c s' ↦ refused c (record d { src = s' })
    | got [] s' ↦ got [] (record d { src = s' })
    | got (x ∷ r) s' ↦
        (let n = length (x ∷ r) in
          decrypt_block (take n d.tag) (record d { src = s'; tag = drop n d.tag ++ x ∷ r }))
  ]

  -- The rest of `read`: `block` is the old tag and the bytes read behind it.
  unfoldable pub refill_tag : ℕ → Bytes → DecryptionSource S C → Got (DecryptionSource S C)
  refill_tag size block d =
      let nread = length block - tag_size in
      if ltb nread (size - tag_size)
      then decrypt_block (take nread block) (record d { tag = take tag_size (drop nread block) })
      else elim (io.read tag_size d.src) [
        | refused c s' ↦ refused c (record d { src = s' })
        | got t s' ↦
            (let more = tag_size - length t in
              if ltb (length t) tag_size
              then decrypt_block (take (size - more) block)
                  (record d { src = s'; tag = drop (size - more) block ++ t })
              else decrypt_block block (record d { src = s'; tag = t }))
      ]

  unfoldable pub read_large : ℕ → DecryptionSource S C → Got (DecryptionSource S C)
  read_large size d = elim (io.read (size - tag_size) d.src) [
    | refused c s' ↦ refused c (record d { src = s' })
    | got [] s' ↦ got [] (record d { src = s' })
    | got (x ∷ r) s' ↦ refill_tag size (d.tag ++ x ∷ r) (record d { src = s' })
  ]

  -- `DecryptionSource::read`.
  unfoldable pub read : ℕ → DecryptionSource S C → Got (DecryptionSource S C)
  read size d = elim d.error [
    | some c ↦ refused c d
    | none ↦
        if size == 0
        then got [] d
        else if leb size tag_size
        then read_small size d
        else read_large size d
  ]

  -- `DecryptionSource::updateAAD`.
  unfoldable pub update_aad : Bytes → DecryptionSource S C → Result × DecryptionSource S C
  update_aad bytes d = elim d.error [
    | some c ↦ (fail c, d)
    | none ↦ elim (cipher.aad d.ctx bytes) [
      | none ↦ (fail crypto_error, d)
      | some ctx' ↦ (ok, record d { ctx = ctx' })
    ]
  ]

  -- The blocks of additional data, as CDoc2Reader::beginDecryption gives them.
  unfoldable pub update_aads : List Bytes → DecryptionSource S C → Result × DecryptionSource S C
  update_aads [] d = (ok, d)
  update_aads (x ∷ r) d =
      let (rv, d') = update_aad x d in
      let rest = update_aads r d' in if is_ok rv then rest else (rv, d')

  -- `DecryptionSource::close`; the modes that have a tag are those whose `set_tag` is not the
  -- identity.
  unfoldable pub close : DecryptionSource S C → Result × DecryptionSource S C
  close d = elim d.error [
    | some c ↦ (fail c, d)
    | none ↦ elim (cipher.set_tag d.ctx d.tag) [
      | none ↦ (fail crypto_error, record d { error = some crypto_error })
      | some ctx' ↦
          if cipher.final ctx'
          then (ok, record d { ctx = ctx' })
          else (fail hash_mismatch, record d { ctx = ctx'; error = some hash_mismatch })
    ]
  ]
