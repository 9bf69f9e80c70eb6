-- ===== src/Encrypt.antt =====
-- `EncryptionConsumer` of cdoc/Crypto.h and cdoc/Crypto.cpp: the IV, the ciphertext and, for a mode
-- that has one, the tag of 16 bytes are written to the consumer below.
pub mod Output
pub mod RoundTrip
mod Tests
use libcdoc.Base.{
  ℕ, Bytes, length, List, [], ◌∷◌, Bool, false, Option, none, some, ◌==◌, if◌then◌else◌,
}
use libcdoc.Outcome.{Result, count, fail, ok, is_ok, crypto_error, io_error}
use libcdoc.Io.{Sink}

-- What the consumer uses of OpenSSL's EVP_CIPHER_CTX: `update` is EVP_CipherUpdate with its block
-- as the int that the code makes of its size, `aad` the same with no output, `final`
-- EVP_CipherFinal and `get_tag` the control call for a tag of 16 bytes; `has_tag` is that the mode
-- is GCM or an AEAD.
pub record Cipher (C : Type 0) : Type 0 where
  pub fresh : C
  pub init : C → Bytes → Bytes → Option C
  pub update : C → Bytes → Option (Bytes × C)
  pub aad : C → Bytes → Option C
  pub final : C → Option (Bytes × C)
  pub has_tag : Bool
  pub get_tag : C → Option Bytes

-- `error` is a `result_t`: the constructor puts there what the write of the IV returned, which may
-- be a count.
pub record EncryptionConsumer (D C : Type 0) : Type 0 where
  pub dst : D
  pub ctx : C
  pub error : Result

-- `rv != size`, of a result and a size.
unfoldable pub is_count : ℕ → Result → Bool
is_count n (count m) = m == n
is_count n (fail c) = false

module _ {D C : Type 0} (sink : Sink D) (cipher : Cipher C) where
  -- The constructor's write of the IV.
  unfoldable pub write_iv : Bytes → Result → C → D → EncryptionConsumer D C
  write_iv iv error c d =
      let (rv, d') = sink.write iv d in
      record { dst = d'; ctx = c; error = if is_count (length iv) rv then error else rv }

  -- The constructor.
  unfoldable pub start : Bytes → Bytes → D → EncryptionConsumer D C
  start key iv d = elim (cipher.init cipher.fresh key iv) [
    | none ↦ write_iv iv (fail crypto_error) cipher.fresh d
    | some c ↦ write_iv iv ok c d
  ]

  -- The end of `write`: what the cipher gives goes to the consumer below.
  unfoldable pub forward :
      EncryptionConsumer D C → Option (Bytes × C) → Result × EncryptionConsumer D C
  forward e none = (fail crypto_error, e)
  forward e (some (text, c)) =
      let (rv, d) = sink.write text e.dst in (rv, record e { dst = d; ctx = c })

  -- `EncryptionConsumer::write`; nothing to write comes before the error.
  unfoldable pub write : Bytes → EncryptionConsumer D C → Result × EncryptionConsumer D C
  write [] e = (ok, e)
  write (x ∷ r) e = if is_ok e.error then forward e (cipher.update e.ctx (x ∷ r)) else (e.error, e)

  -- `EncryptionConsumer::writeAAD`, which does not look at the error.
  unfoldable pub write_aad : Bytes → EncryptionConsumer D C → Result × EncryptionConsumer D C
  write_aad block e = elim (cipher.aad e.ctx block) [
    | none ↦ (fail crypto_error, e)
    | some c ↦ (ok, record e { ctx = c })
  ]

  -- The tag, behind the last block.
  unfoldable pub write_tag : EncryptionConsumer D C → Result × EncryptionConsumer D C
  write_tag e =
      if cipher.has_tag
      then elim (cipher.get_tag e.ctx) [
        | none ↦ (fail crypto_error, e)
        | some tag ↦
            (let (rv, d) = sink.write tag e.dst in
              (if is_count 16 rv then ok else fail io_error, record e { dst = d }))
      ]
      else (ok, e)

  -- `if(auto rv = dst.write(...); rv < 0) return rv;`, before the tag.
  unfoldable pub after_last : Result × EncryptionConsumer D C → Result × EncryptionConsumer D C
  after_last (fail c, e) = (fail c, e)
  after_last (count n, e) = write_tag e

  -- `EncryptionConsumer::close`, which does not look at the error either.
  unfoldable pub close : EncryptionConsumer D C → Result × EncryptionConsumer D C
  close e = after_last (forward e (cipher.final e.ctx))

  -- The blocks of additional data, as CDoc2Writer::writeHeader gives them.
  unfoldable pub write_aads : List Bytes → EncryptionConsumer D C → Result × EncryptionConsumer D C
  write_aads [] e = (ok, e)
  write_aads (x ∷ r) e =
      let (rv, e') = write_aad x e in
      let rest = write_aads r e' in if is_ok rv then rest else (rv, e')

  -- The consumer as one that other consumers write to.
  abbrev pub encrypting : Sink (EncryptionConsumer D C)
  encrypting = record { write = write; close = close }
