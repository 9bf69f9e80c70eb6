-- ===== src/Payload/Tests.antt =====
-- A container in memory whose payload is no archive, under a toy cipher that takes no tag.
mod Archive
use libcdoc.Base.{
  Option, ℕ, ◌+◌, ◌-◌, ◌<◌, min, Bytes, length, take, drop, replicate, [], ◌∷◌, ◌++◌, none, some,
  true, false, ltb, ◌==◌, if◌then◌else◌, ◌≡◌, refl, ap, arith, codes, inl, inr, Bool-cases,
}
use libcdoc.Outcome.{
  Call, gives, undefined, File, no_file, is_negative, Code, Result, ok, count, fail, Got, got,
  refused, input_stream_error, hash_mismatch, workflow_error,
}
use libcdoc.Io.{
  VectorSource, vector_source, vector_read, vector_is_eof, vector_seek, vector_consumer, skip,
  skip_loop,
}
use libcdoc.Io.Stream.{vector_source-IsSource, vector_rest}
use libcdoc.Decrypt.{
  Cipher, DecryptionSource, start, read_first_tag, update_aad, update_aads, read_large, refill_tag,
  decrypt_block, close,
}
use libcdoc.Decrypt as Decrypt
use libcdoc.Decrypt.Whole.{IsStreamCipher}
use libcdoc.Decrypt.Short.{KeepsLength}
use libcdoc.Zip.{Zlib, ZSource, progress, finished, inflate_loop, read_loop, is_over, counted}
use libcdoc.Zip as Zip
use libcdoc.Tar.Reader.{TarSource, stopped, next, next_loop, read_block, failed}
use libcdoc.Payload.{
  Parts, Session, Streams, closed, running, begin_decryption, build_streams, seek_nonce, source_of,
  new_zsource, next_file, after_error, decrypt_all, drain_loop, finish_decryption, z_source,
  drain_size,
}
use libcdoc.Payload.Drain.{FailsNegative, drain_loop-Ends}
use libcdoc.Payload.Integrity.{Reported, next_file-Reported}
use libcdoc.Payload.Runs.{finish_closes, Refuses}

abbrev pub plain_cipher : Cipher ℕ
plain_cipher = record {
  fresh = 0;
  init = λ c key iv. some 1;
  iv_length = 12;
  update = λ c x. some (x, c);
  aad = λ c x. some c;
  set_tag = λ c t. some c;
  final = λ c. false;
}

-- A zlib that stores.
abbrev stored : Zlib ℕ
stored = record {
  inflate = λ z input avail.
      if length input == 0
      then finished 0 [] z
      else progress (min (length input) avail) (take avail input) z;
}

abbrev pub parts : Parts VectorSource ℕ ℕ
parts = record {
  io = vector_source;
  seek = vector_seek;
  cipher = plain_cipher;
  expand = λ key info. key ++ info;
  zlib = stored;
  inflate_init = some 0;
  scratch = 0;
  max_size = 0;
}

abbrev container : Bytes
container = codes "nonce-nonce-oops0123456789abcdef"

abbrev pub fresh_reader : Session VectorSource ℕ ℕ
fresh_reader = record {
  streams = closed (record { bytes = container; ptr = 0 });
  header_data = codes "header";
  header_hmac = codes "hmac";
  nonce_pos = 0;
  at_nonce = true;
}

abbrev opened : TarSource (ZSource (DecryptionSource VectorSource ℕ) ℕ)
opened = record {
  src = record {
    src = record {
      src = record { bytes = container; ptr = 28 };
      ctx = 1;
      tag = codes "oops0123456789ab";
      error = none;
    };
    z = 0;
    error = none;
    buf = [];
    avail_in = 0;
    limit = 0;
    total = 0;
  };
  eof = false;
  error = none;
  block_end = 0;
  data_size = 0;
  pos = 0;
}

abbrev open_reader : Session VectorSource ℕ ℕ
open_reader = record fresh_reader { streams = running opened; at_nonce = false }

begun : begin_decryption parts (replicate 32 7) fresh_reader ≡ (ok, open_reader)
unfolding begin_decryption build_streams seek_nonce source_of new_zsource start read_first_tag
    update_aads update_aad vector_read
begun = refl

-- Behind the error: the archive's header is too short.
abbrev broken : TarSource (ZSource (DecryptionSource VectorSource ℕ) ℕ)
broken = record opened {
  error = some input_stream_error;
  src = record opened.src {
    src = record {
      src = record { bytes = container; ptr = 32 };
      ctx = 1;
      tag = codes "0123456789abcdef";
      error = none;
    };
    total = 4;
  };
}

stops : next (z_source parts 20) 20 opened ≡ some (stopped input_stream_error broken)
unfolding next next_loop read_block failed Zip.read read_loop inflate_loop is_over Zip.is_eof
    vector_is_eof Decrypt.read read_large refill_tag decrypt_block vector_read
stops = refl

vector_negative : FailsNegative vector_source
unfolding vector_read
vector_negative n s s' c e = absurd (cc e)

plain-IsStreamCipher : IsStreamCipher plain_cipher
plain-IsStreamCipher = record {
  update-nil = λ c. refl;
  update-append = λ c c1 c2 x y p q h k. cc (h, k);
}

plain_keeps : KeepsLength plain_cipher
plain_keeps c c' x p e = let same : x ≡ p = cc e in rw same refl

next_file-Reported_example :
    Reported vector_source plain_cipher vector_rest vector_source-IsSource vector_negative
      plain_keeps plain-IsStreamCipher no_file broken
      (record open_reader { streams = running broken })
      (next_file parts 20 open_reader)
next_file-Reported_example =
    next_file-Reported parts vector_rest vector_source-IsSource vector_negative plain_keeps
      plain-IsStreamCipher 20 open_reader opened broken input_stream_error refl refl refl refl
      (omega arith) stops

drain_loop-Ends_example :
    (r : Option Code × DecryptionSource VectorSource ℕ) × (drain_loop vector_source plain_cipher 21
        opened.src.src
      ≡ some r)
drain_loop-Ends_example =
    drain_loop-Ends vector_source plain_cipher vector_rest vector_source-IsSource plain_keeps 21
      opened.src.src refl refl (omega arith)

finishes_first :
    finish_decryption parts open_reader
    ≡ gives
        (fail hash_mismatch)
        (record open_reader { streams = closed (record { bytes = container; ptr = 28 }) })
unfolding finish_decryption close
finishes_first = refl

finish_closes_example :
    Refuses parts 20 100
      (record open_reader { streams = closed (record { bytes = container; ptr = 28 }) })
finish_closes_example =
    finish_closes parts open_reader
      (record open_reader { streams = closed (record { bytes = container; ptr = 28 }) })
      (fail hash_mismatch) 20 100 finishes_first

-- With a cipher that takes every tag the payload is authentic, and nextFile is undefined.
abbrev pub willing : Parts VectorSource ℕ ℕ
willing = record parts { cipher = record plain_cipher { final = λ c. true } }

authentic_undefined : next_file willing 20 open_reader ≡ undefined
unfolding next_file after_error decrypt_all drain_loop close next next_loop read_block failed
    Zip.read read_loop inflate_loop is_over Zip.is_eof vector_is_eof Decrypt.read read_large
    refill_tag decrypt_block vector_read
authentic_undefined = refl
