-- ===== src/Writer.antt =====
-- The work flow of encryption of `CDoc2Writer` (cdoc/CDoc2Writer.cpp) over its stack of consumers:
-- `TarConsumer` over `ZConsumer` over `EncryptionConsumer` over the output.
pub mod Phases
pub mod Runs
pub mod Whole
pub mod Layout
mod Tests
use libcdoc.Base.{
  ℕ, zero, suc, ◌^◌, ◌/◌, ◌*◌, ◌%◌, Bytes, length, codes, List, [], ◌∷◌, ◌++◌, Bool, true, false,
  not, ◌&&◌, ◌||◌, Option, none, some, ltb, ◌==◌, list_eq, if◌then◌else◌,
}
use libcdoc.Outcome.{
  Code, end_of_stream, workflow_error, wrong_arguments, data_format_error, crypto_error,
  unspecified_error, is_negative, Result, count, fail, ok, is_ok, Call, gives, undefined, exhausted,
  File, file, no_file,
}
use libcdoc.Io.{Source, Sink, write_all_loop}
use libcdoc.Encrypt.{Cipher, EncryptionConsumer, encrypting, write_aads, is_count}
use libcdoc.Encrypt as Encrypt
use libcdoc.Zip.Consumer.{Deflate, ZConsumer, new_zconsumer, is_below}
use libcdoc.Zip.Consumer as Zip
use libcdoc.Tar.Writer.{TarConsumer, open_entry}
use libcdoc.Tar.Writer as Tar
use libcdoc.Text.Utf8.{is_valid_utf8}
use libcdoc.Recipients.{Recipient, RecipientType, symmetric_key, public_key, validate}
use libcdoc.Container.{label, key_len}
use libcdoc.Payload.{payload, cek_info, nonce_len}

-- The consumers of a writer: the output alone, or the stack over it.
pub data Streams (D C Z : Type 0) : Type 0 where
  direct : D → Streams D C Z
  open_tar : TarConsumer (ZConsumer (EncryptionConsumer D C) Z) → Streams D C Z

-- `backend` is the state of the back ends for cryptography and the network, where they keep one.
pub record Writer (D C Z B : Type 0) : Type 0 where
  pub streams : Streams D C Z
  pub recipients : List Recipient
  pub finished : Bool
  pub owned : Bool
  pub backend : B

-- What a writer uses that comes from elsewhere: the output, the back ends (each may be missing),
-- OpenSSL's cipher, HKDF and HMAC, zlib, and the header that flatbuffers builds of the recipients.
pub record Parts (D C Z B : Type 0) : Type 0 where
  pub sink : Sink D
  pub has_crypto : Bool
  pub has_network : Bool
  pub random : ℕ → B → Result × Bytes × B
  pub build_header : List Recipient → Bytes → B → Result × Bytes × B
  pub extract : Bytes → Bytes → Bytes
  pub expand : Bytes → Bytes → Bytes
  pub sign_hmac : Bytes → Bytes → Bytes
  pub cipher : Cipher C
  pub zlib : Deflate Z

-- `CDoc2::SALT` and `CDoc2::HMAC`.
abbrev pub salt : Bytes
salt = codes "CDOC20salt"

abbrev pub hmac_info : Bytes
hmac_info = codes "CDOC20hmac"

-- The four bytes of `header_len`, of a size as a uint32_t.
unfoldable pub header_len : ℕ → Bytes
header_len n = n / 2 ^ 24 % 2 ^ 8 ∷ n / 2 ^ 16 % 2 ^ 8 ∷ n / 2 ^ 8 % 2 ^ 8 ∷ n % 2 ^ 8 ∷ []

-- The greatest size of `addFile`.
abbrev pub max_size : ℕ
max_size = 8 * 1024 * 1024 * 1024

module _ {D C Z B : Type 0} (parts : Parts D C Z B) where
  open parts use {
    sink, has_crypto, has_network, random, build_header, extract, expand, sign_hmac, cipher, zlib,
  }

  -- `ZConsumer` as a `DataConsumer`, with fuel for its inner loop; an end of the fuel is the code
  -- UNSPECIFIED_ERROR.
  abbrev as_result : {T : Type 0} → T → Option (Result × T) → Result × T
  as_result t none = (fail unspecified_error, t)
  as_result t (some r) = r

  abbrev pub z_sink : ℕ → Sink (ZConsumer (EncryptionConsumer D C) Z)
  z_sink inner = record {
    write = λ src t. as_result t (Zip.write (encrypting sink cipher) zlib inner src t);
    close = λ t. as_result t (Zip.close (encrypting sink cipher) zlib inner t);
  }

  -- The output below the streams.
  unfoldable pub output_of : Streams D C Z → D
  output_of (direct d) = d
  output_of (open_tar t) = t.dst.dst.dst

  -- `CDoc2Writer::addRecipient`.
  unfoldable pub accepts : Recipient → Result
  accepts rcpt = elim rcpt.type [
    | symmetric_key ↦
        if not has_crypto
        then fail workflow_error
        else if not (validate rcpt)
        then fail wrong_arguments
        else ok
    | public_key ↦
        if not (list_eq rcpt.server_id []) && not has_network
        then fail workflow_error
        else if not (validate rcpt)
        then fail wrong_arguments
        else ok
    | _ ↦ fail wrong_arguments
  ]

  unfoldable pub add_recipient : Recipient → Writer D C Z B → Result × Writer D C Z B
  add_recipient rcpt w = if w.finished then (fail workflow_error, w) else elim w.streams [
    | open_tar t ↦ (fail workflow_error, w)
    | direct d ↦
        if is_ok (accepts rcpt)
        then (ok, record w { recipients = w.recipients ++ rcpt ∷ [] })
        else (accepts rcpt, w)
  ]

  -- The writes of the header, whose results are not looked at.
  unfoldable pub write_parts : List Bytes → D → D
  write_parts [] d = d
  write_parts (x ∷ r) d = write_parts r (sink.write x d).1

  -- Behind the nonce: the streams over the output, with the additional data.
  unfoldable pub open_streams : Bytes → Bytes → Bytes → Bytes → D → Result × Streams D C Z
  open_streams cek nonce header hmac d =
      let (rv, e) =
        write_aads sink cipher (payload ∷ header ∷ hmac ∷ [])
          (Encrypt.start sink cipher cek nonce d) in
      if is_below rv then (rv, direct e.dst) else (
        ok,
        open_tar record {
          dst = new_zconsumer (encrypting sink cipher) zlib e true;
          owned = true;
          current_size = some 0;
          current_written = 0;
        },
      )

  -- Behind the header: the nonce.
  unfoldable pub write_nonce :
      Bytes → Bytes → Bytes → Writer D C Z B → D → B → Result × Writer D C Z B
  write_nonce cek header hmac w d b =
      let (rv, nonce, b') = random nonce_len b in
      if is_below rv
      then (rv, record w { streams = direct d; backend = b' })
      else if not (length nonce == nonce_len)
      then (fail crypto_error, record w { streams = direct d; backend = b' })
      else (let (result, s) = open_streams cek nonce header hmac d in
          (result, record w { streams = s; backend = b' }))

  -- Behind the first random bytes: the header, and what is written of it.
  unfoldable pub write_built : Bytes → D → Writer D C Z B → B → Result × Writer D C Z B
  write_built fmk d w b =
      let (rv, header, b') = build_header w.recipients fmk b in
      if is_below rv
      then (rv, record w { backend = b' })
      else (let hmac = sign_hmac (expand fmk hmac_info) header in
          write_nonce (expand fmk cek_info) header hmac w
            (write_parts (label ∷ header_len (length header % 2 ^ 32) ∷ header ∷ hmac ∷ []) d) b')

  -- `CDoc2Writer::writeHeader` on the output; the back end for cryptography is not asked for.
  unfoldable pub write_header : D → Writer D C Z B → Call Result (Writer D C Z B)
  write_header d w =
      if has_crypto
      then (let (rv, rnd, b) = random key_len w.backend in
          let (result, w') = write_built (extract rnd salt) d w b in
          if is_below rv then gives rv (record w { backend = b }) else gives result w')
      else undefined

  -- `CDoc2Writer::beginEncryption`.
  unfoldable pub begin_encryption : Writer D C Z B → Call Result (Writer D C Z B)
  begin_encryption w = if w.finished then gives (fail workflow_error) w else elim w.recipients [
    | [] ↦ gives (fail workflow_error) w
    | x ∷ r ↦ elim w.streams [
      | open_tar t ↦ gives (fail workflow_error) w
      | direct d ↦ write_header d w
    ]
  ]

  -- `CDoc2Writer::addFile`, with fuel for the streams.
  unfoldable pub add_file : ℕ → Bytes → ℕ → Writer D C Z B → Result × Writer D C Z B
  add_file inner name size w = if w.finished then (fail workflow_error, w) else elim w.streams [
    | direct d ↦ (fail workflow_error, w)
    | open_tar t ↦
        if list_eq name [] || not (is_valid_utf8 name)
        then (fail data_format_error, w)
        else if ltb max_size size
        then (fail wrong_arguments, w)
        else (let (rv, t') = open_entry (z_sink inner) name (some size) t in
            (if is_below rv then rv else ok, record w { streams = open_tar t' }))
  ]

  -- `CDoc2Writer::writeData`.
  unfoldable pub write_data : ℕ → Bytes → Writer D C Z B → Result × Writer D C Z B
  write_data inner src w = if w.finished then (fail workflow_error, w) else elim w.streams [
    | direct d ↦ (fail workflow_error, w)
    | open_tar t ↦
        (let (rv, t') = Tar.write (z_sink inner) src t in
          (if is_count (length src) rv then ok else rv, record w { streams = open_tar t' }))
  ]

  -- `if (owned) dst->close()`, whose result is not looked at.
  unfoldable pub close_output : Bool → D → D
  close_output owned d = if owned then (sink.close d).1 else d

  -- `CDoc2Writer::finishEncryption`.
  unfoldable pub finish_encryption : ℕ → Writer D C Z B → Result × Writer D C Z B
  finish_encryption inner w = if w.finished then (fail workflow_error, w) else elim w.streams [
    | direct d ↦ (fail workflow_error, w)
    | open_tar t ↦
        (let (rv, t') = Tar.close (z_sink inner) t in
          (
            rv,
            record w {
              streams = direct (close_output w.owned (output_of (open_tar t')));
              recipients = [];
              finished = true;
            },
          ))
  ]

  -- The recipients that `encrypt` is given; `inl` is the first result that is not OK.
  unfoldable pub add_all : List Recipient → Writer D C Z B → Result × Writer D C Z B
  add_all [] w = (ok, w)
  add_all (x ∷ r) w =
      let (rv, w') = add_recipient x w in
      let rest = add_all r w' in if is_ok rv then rest else (rv, w')
