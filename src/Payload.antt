-- ===== src/Payload.antt =====
-- The work flow of decryption of `CDoc2Reader` (cdoc/CDoc2Reader.cpp) over its stack of streams:
-- `TarSource` over `ZSource` over `DecryptionSource` over the container.
pub mod Drain
pub mod Integrity
pub mod Reached
pub mod Started
pub mod Runs
pub mod Whole
mod Tests
use libcdoc.Base.{
  ℕ, zero, suc, Bytes, length, codes, [], ◌∷◌, Bool, true, false, Option, none, some, ◌==◌,
  if◌then◌else◌,
}
use libcdoc.Outcome.{
  Call, gives, undefined, exhausted, File, file, no_file, is_negative, Code, end_of_stream,
  workflow_error, wrong_arguments, io_error, zlib_error, unspecified_error, Result, count, fail, ok,
  is_ok, Got, got, refused,
}
use libcdoc.Io.{Source, Sink, write_all_loop}
use libcdoc.Decrypt.{Cipher, DecryptionSource, update_aads}
use libcdoc.Decrypt as Decrypt
use libcdoc.Zip.{Zlib, ZSource}
use libcdoc.Zip as Zip
use libcdoc.Tar.Reader.{TarSource, Next, entry, stopped}
use libcdoc.Tar.Reader as Tar

-- `CDoc2::PAYLOAD`, `CDoc2::CEK` and `CDoc2::NONCE_LEN`.
abbrev pub payload : Bytes
payload = codes "CDOC20payload"

abbrev pub cek_info : Bytes
cek_info = codes "CDOC20cek"

abbrev pub nonce_len : ℕ
nonce_len = 12

-- The block of `decryptAllAndClose`.
abbrev pub drain_size : ℕ
drain_size = 1024

-- The streams of a reader: none, the decrypting one alone, all three, or the upper two behind a new
-- decrypting one, over the old one that is gone.
pub data Streams (S C Z : Type 0) : Type 0 where
  closed : S → Streams S C Z
  keyed : DecryptionSource S C → Streams S C Z
  running : TarSource (ZSource (DecryptionSource S C) Z) → Streams S C Z
  dangling : DecryptionSource S C → Streams S C Z

pub record Session (S C Z : Type 0) : Type 0 where
  pub streams : Streams S C Z
  pub header_data : Bytes
  pub header_hmac : Bytes
  pub nonce_pos : ℕ
  pub at_nonce : Bool

-- What `readData` gives.
pub data Data : Type 0 where
  bytes : Bytes → Data
  no_data : Code → Data

module _ {S C : Type 0} (io : Source S) (cipher : Cipher C) where
  -- The loop of `decryptAllAndClose`, with fuel for its reads; `none` is fuel that ran out.
  unfoldable pub drain_loop : ℕ → DecryptionSource S C → Option (Option Code × DecryptionSource S C)
  drain_loop zero d = none
  drain_loop (suc fuel) d = elim (Decrypt.read io cipher drain_size d) [
    | refused c d' ↦ some (if is_negative c then some c else none, d')
    | got b d' ↦
        let rest = drain_loop fuel d' in if length b == drain_size then rest else some (none, d')
  ]

  -- `decryptAllAndClose`: `inr` when the streams are reset.
  unfoldable pub decrypt_all :
      ℕ → DecryptionSource S C → Option (Result × Bool × DecryptionSource S C)
  decrypt_all fuel d = elim (drain_loop fuel d) [
    | none ↦ none
    | some (some c, d') ↦ some (fail c, false, d')
    | some (none, d') ↦ let (rv, d'') = Decrypt.close io cipher d' in some (rv, true, d'')
  ]

  -- What a parse error of the archive leads to: the rest of the payload is decrypted, and a failure
  -- of that is what is reported. If the payload is authentic, the reader is asked through a pointer
  -- that has been reset.
  unfoldable pub after_error :
      {A Z : Type 0}
      → ℕ
      → (Code → A)
      → TarSource (ZSource (DecryptionSource S C) Z)
      → Session S C Z
      → Call A (Session S C Z)
  after_error fuel report t r = elim (decrypt_all fuel t.src.src) [
    | none ↦ exhausted
    | some (fail c, false, d) ↦
        gives (report c)
          record r { streams = running (record t { src = record t.src { src = d } }) }
    | some (fail c, true, d) ↦ gives (report c) (record r { streams = closed d.src })
    | some (count n, _, d) ↦ undefined
  ]

-- What a reader uses that comes from elsewhere: the container with its `seek`, OpenSSL's cipher and
-- HKDF expansion to its default length of 32 bytes, zlib with inflateInit2 (`none` when it fails,
-- which leaves `scratch`), and the limit of the decompressed size, which the configuration may set.
pub record Parts (S C Z : Type 0) : Type 0 where
  pub io : Source S
  pub seek : ℕ → S → Result × S
  pub cipher : Cipher C
  pub expand : Bytes → Bytes → Bytes
  pub zlib : Zlib Z
  pub inflate_init : Option Z
  pub scratch : Z
  pub max_size : ℕ

module _ {S C Z : Type 0} (parts : Parts S C Z) where
  open parts use {io, seek, cipher, expand, zlib, inflate_init, scratch, max_size}

  -- `DecryptionSource` as a `DataSource`.
  abbrev pub decryption_source : Source (DecryptionSource S C)
  decryption_source = record { read = Decrypt.read io cipher; is_eof = λ d. io.is_eof d.src }

  -- `ZSource` as a `DataSource`, with fuel for its inner loop; an end of the fuel is the code
  -- UNSPECIFIED_ERROR, which the stream itself does not return.
  abbrev pub as_got : {A : Type 0} → A → Option (Got A) → Got A
  as_got a none = refused unspecified_error a
  as_got a (some g) = g

  abbrev pub z_source : ℕ → Source (ZSource (DecryptionSource S C) Z)
  z_source inner = record {
    read = λ n t. as_got t (Zip.read decryption_source zlib inner n t);
    is_eof = Zip.is_eof decryption_source zlib;
  }

  -- `TarSource` as a `DataSource`.
  abbrev pub tar_source : ℕ → Source (TarSource (ZSource (DecryptionSource S C) Z))
  tar_source inner = record { read = Tar.read (z_source inner); is_eof = λ t. t.eof }

  -- The constructors of `ZSource`, where `scratch` is what a failed inflateInit2 leaves, and of
  -- `TarSource`.
  unfoldable pub new_zsource : DecryptionSource S C → ZSource (DecryptionSource S C) Z
  new_zsource d = elim inflate_init [
    | none ↦ record {
      src = d;
      z = scratch;
      error = some zlib_error;
      buf = [];
      avail_in = 0;
      limit = max_size;
      total = 0;
    }
    | some z ↦ record {
      src = d;
      z = z;
      error = none;
      buf = [];
      avail_in = 0;
      limit = max_size;
      total = 0;
    }
  ]

  abbrev pub new_tar : {T : Type 0} → T → TarSource T
  new_tar t = record { src = t; eof = false; error = none; block_end = 0; data_size = 0; pos = 0 }

  -- The container's source, which every stack of streams reads from.
  unfoldable pub source_of : Streams S C Z → S
  source_of (closed s) = s
  source_of (keyed d) = d.src
  source_of (running t) = t.src.src.src
  source_of (dangling d) = d.src

  unfoldable pub with_source : S → Streams S C Z → Streams S C Z
  with_source s (closed s') = closed s
  with_source s (keyed d) = keyed (record d { src = s })
  with_source s (running t) =
      running (record t { src = record t.src { src = record t.src.src { src = s } } })
  with_source s (dangling d) = dangling (record d { src = s })

  -- A new `dec` in the place of the old one, before the upper two are made.
  unfoldable pub rekeyed : DecryptionSource S C → Streams S C Z → Streams S C Z
  rekeyed d (closed s) = keyed d
  rekeyed d (keyed d') = keyed d
  rekeyed d (running t) = dangling d
  rekeyed d (dangling d') = dangling d

  -- `priv->_src->seek(priv->_nonce_pos)`, unless the source stands there.
  unfoldable pub seek_nonce : Session S C Z → Result × S
  seek_nonce r =
      if r.at_nonce then (ok, source_of r.streams) else seek r.nonce_pos (source_of r.streams)

  -- Behind the seek: the key, the additional data and the upper streams.
  unfoldable pub build_streams : Bytes → S → Session S C Z → Result × Session S C Z
  build_streams fmk s r =
      let (rv, d) =
        update_aads io cipher (payload ∷ r.header_data ∷ r.header_hmac ∷ [])
          (Decrypt.start io cipher (expand fmk cek_info) nonce_len s) in
      if is_ok rv
      then (ok, record r { streams = running (new_tar (new_zsource d)); at_nonce = false })
      else (rv, record r { streams = rekeyed d r.streams; at_nonce = false })

  -- `CDoc2Reader::beginDecryption`.
  unfoldable pub begin_decryption : Bytes → Session S C Z → Result × Session S C Z
  begin_decryption fmk r =
      if length fmk == 32
      then (let (rv, s) = seek_nonce r in
          if is_ok rv
          then build_streams fmk s r
          else (fail io_error, record r { streams = with_source s r.streams }))
      else (fail wrong_arguments, r)

  -- `CDoc2Reader::nextFile`, with fuel for the streams; a use of an object that is gone counts as
  -- undefined, whatever the call would look at.
  unfoldable pub next_file : ℕ → Session S C Z → Call File (Session S C Z)
  next_file fuel r = elim r.streams [
    | closed s ↦ gives (no_file workflow_error) r
    | keyed d ↦ gives (no_file workflow_error) r
    | dangling d ↦ undefined
    | running t ↦ elim (Tar.next (z_source fuel) fuel t) [
      | none ↦ exhausted
      | some (entry name size t') ↦ gives (file name size) (record r { streams = running t' })
      | some (stopped c t') ↦
          let broken = after_error io cipher fuel no_file t' (record r { streams = running t' }) in
          if is_negative c then broken else gives (no_file c) (record r { streams = running t' })
    ]
  ]

  -- `CDoc2Reader::readData`.
  unfoldable pub read_data : ℕ → ℕ → Session S C Z → Call Data (Session S C Z)
  read_data fuel size r = elim r.streams [
    | closed s ↦ gives (no_data workflow_error) r
    | keyed d ↦ gives (no_data workflow_error) r
    | dangling d ↦ undefined
    | running t ↦ elim (Tar.read (z_source fuel) size t) [
      | got b t' ↦ gives (bytes b) (record r { streams = running t' })
      | refused c t' ↦
          let broken = after_error io cipher fuel no_data t' (record r { streams = running t' }) in
          if is_negative c then broken else gives (no_data c) (record r { streams = running t' })
    ]
  ]

  -- `CDoc2Reader::finishDecryption`; data behind the archive is only logged.
  unfoldable pub finish_decryption : Session S C Z → Call Result (Session S C Z)
  finish_decryption r = elim r.streams [
    | closed s ↦ gives (fail workflow_error) r
    | keyed d ↦ gives (fail workflow_error) r
    | dangling d ↦ undefined
    | running t ↦
        let (rv, d) = Decrypt.close io cipher t.src.src in
        gives rv (record r { streams = closed d.src })
  ]
