-- ===== src/Writer/Tests.antt =====
-- A container that is written into memory, with toys for the cipher, zlib and the header.
use libcdoc.Base.{
  ℕ, ◌+◌, Bytes, length, replicate, map, codes, [], ◌∷◌, ◌++◌, Bool, true, false, some, ◌==◌,
  if◌then◌else◌, ◌≡◌, refl, arith,
}
use libcdoc.Outcome.{ok, end_of_stream, gives, undefined, file, no_file, got, refused}
use libcdoc.Io.{
  VectorSource, vector_source, vector_read, vector_is_eof, vector_consumer, vector_write,
  write_all_loop,
}
use libcdoc.Encrypt.{is_count, write_iv, forward, after_last, write_tag, write_aad, write_aads}
use libcdoc.Encrypt as Encrypt
use libcdoc.Zip.Consumer.{
  Deflated, more, ended, Deflate, new_zconsumer, pass_on, deflate_loop, chunk_loop, close_below,
}
use libcdoc.Zip.Consumer as Zip
use libcdoc.Locks.{ecc, secp_384_r1}
use libcdoc.Locks.Build.{RecipientRecord, symmetric, build_lock}
use libcdoc.Container.{label, open_container}
use libcdoc.Recipients.{Recipient, public_key, validate}
use libcdoc.Tar.Octal.{padding, to_octal, octal_digits, shift_three}
use libcdoc.Tar.Header.{to_bytes, checksum, unsigned_sum, signed_excess}
use libcdoc.Tar.Writer.{
  fill_header, open_entry, unfinished, finish_entry, write_padding, write_block, write_header,
  write_pax, need_pax_name, need_pax_size, any_special, is_special,
}
use libcdoc.Tar.Writer as Tar
use libcdoc.Writer.{
  Parts, Writer, direct, accepts, add_recipient, add_all, begin_encryption, write_built,
  write_nonce, write_parts, header_len, open_streams, finish_encryption, output_of, close_output,
}
use libcdoc.Writer as Writing
use libcdoc.Writer.Phases.{adding, finishing, Phase, collecting, At, at_collecting}
use libcdoc.Writer.Runs.{Run, still, step, recipient, finishes, PathOf, Run-Refined}
use libcdoc.Writer.Whole.{
  MultiSource, encrypt, files_loop, encrypt_files, after_begin, finish_all, give_up, IsDone,
  encrypt-IsDone,
}
use libcdoc.Writer.Layout.{written, written-opens}

abbrev plain_cipher : Encrypt.Cipher ℕ
plain_cipher = record {
  fresh = 0;
  init = λ c key iv. some 1;
  update = λ c x. some (x, c);
  aad = λ c x. some c;
  final = λ c. some ([], c);
  has_tag = true;
  get_tag = λ c. some (codes "0123456789abcdef");
}

abbrev storing : Deflate ℕ
storing = record {
  init = some 0;
  scratch = 0;
  deflate = λ z x fin. if length x == 0 then ended 0 [] z else more (length x) x z;
}

abbrev parts : Parts Bytes ℕ ℕ ℕ
parts = record {
  sink = vector_consumer;
  has_crypto = true;
  has_network = false;
  random = λ n b. (ok, replicate n 7, b + 1);
  build_header = λ rs fmk b. (ok, codes "header", b);
  extract = λ key salt. key;
  expand = λ key info. key;
  sign_hmac = λ key text. replicate 32 9;
  cipher = plain_cipher;
  zlib = storing;
}

abbrev reader_key : Recipient
reader_key = record {
  type = public_key;
  pk_type = ecc;
  ec_type = secp_384_r1;
  kdf_iter = 0;
  label = codes "reader";
  rcpt_key = codes "key";
  cert = [];
  id = [];
  server_id = [];
  expiry_ts = 0;
  lbl_parts = [];
}

abbrev new_writer : Writer Bytes ℕ ℕ ℕ
new_writer = record {
  streams = direct [];
  recipients = [];
  finished = false;
  owned = false;
  backend = 0;
}

-- One file in memory, `true` when it has been named.
abbrev one_file : MultiSource (VectorSource × Bool)
one_file = record {
  source = record {
    read = λ n m. elim (vector_read n m.0) [
      | got b v ↦ got b (v, m.1)
      | refused c v ↦ refused c (v, m.1)
    ];
    is_eof = λ m. vector_is_eof m.0;
  };
  next = λ m. if m.1 then (no_file end_of_stream, m) else (file (codes "a") (some 2), (m.0, true));
}

abbrev unread : VectorSource × Bool
unread = (record { bytes = codes "hi"; ptr = 0 }, false)

abbrev front : Bytes
front = label ++ (0 ∷ 0 ∷ 0 ∷ 6 ∷ codes "header") ++ replicate 32 9

abbrev finished_writer : Writer Bytes ℕ ℕ ℕ
finished_writer = record new_writer {
  streams = direct (
      front
      ++ replicate 12 7
      ++ to_bytes (fill_header (codes "a") (some 2) b'0')
      ++ codes "hi"
      ++ replicate 510 0
      ++ replicate 1024 0
      ++ codes "0123456789abcdef");
  finished = true;
  backend = 2;
}

encrypted :
    encrypt parts one_file 5 9 (reader_key ∷ []) unread new_writer
    ≡ gives ok (finished_writer, (record { bytes = codes "hi"; ptr = 2 }, true))
unfolding encrypt files_loop encrypt_files after_begin finish_all give_up add_all add_recipient
    accepts validate begin_encryption Writing.write_header write_built write_nonce write_parts
    header_len open_streams finish_encryption output_of close_output Encrypt.start write_iv is_count
    write_aads write_aad Encrypt.write forward Encrypt.close after_last write_tag new_zconsumer
    pass_on deflate_loop chunk_loop Zip.write Zip.close close_below Tar.write Tar.close open_entry
    unfinished finish_entry write_padding write_block write_header write_pax need_pax_name
    need_pax_size any_special is_special fill_header to_bytes checksum unsigned_sum signed_excess
    padding to_octal octal_digits shift_three vector_write vector_read vector_is_eof write_all_loop
encrypted = refl

encrypt-IsDone_example : IsDone parts one_file finished_writer
encrypt-IsDone_example =
    encrypt-IsDone parts one_file 5 9 (reader_key ∷ []) unread
      (record { bytes = codes "hi"; ptr = 2 }, true) new_writer finished_writer encrypted

abbrev with_recipient : Writer Bytes ℕ ℕ ℕ
with_recipient = (add_recipient parts reader_key new_writer).1

run :
    Run parts new_writer
      (adding reader_key ∷ finishing ∷ [])
      (finish_encryption parts 9 with_recipient).1
run =
    step new_writer with_recipient (finish_encryption parts 9 with_recipient).1 (adding reader_key)
      (finishing ∷ []) (recipient reader_key)
      (step with_recipient (finish_encryption parts 9 with_recipient).1
        (finish_encryption parts 9 with_recipient).1 finishing [] (finishes 9)
        (still (finish_encryption parts 9 with_recipient).1))

Run-Refined_example :
    (b : Phase) × PathOf parts (collecting []) (adding reader_key ∷ finishing ∷ []) b
    × At parts (finish_encryption parts 9 with_recipient).1 b
Run-Refined_example =
    Run-Refined parts (adding reader_key ∷ finishing ∷ []) new_writer
      (finish_encryption parts 9 with_recipient).1 (collecting []) (at_collecting [] [] false 0) run

-- A record that stands in the header.
abbrev record_of : RecipientRecord
record_of = record {
  is_xor = true;
  key_label = codes "label";
  encrypted_fmk = codes "key";
  capsule = symmetric (codes "salt");
}

written-opens_example :
    open_container vector_source
      (λ header. some (record_of ∷ []))
      (record {
        bytes = written parts refl (codes "header") (replicate 32 9) ++ codes "nonce";
        ptr = 0;
      })
    ≡ record {
      src = record {
        bytes = written parts refl (codes "header") (replicate 32 9) ++ codes "nonce";
        ptr = 47;
      };
      header_data = codes "header";
      header_hmac = replicate 32 9;
      nonce_pos = 47;
      at_nonce = true;
      locks = map build_lock (record_of ∷ []);
      is_open = true;
    }
written-opens_example =
    written-opens parts refl (codes "header") (replicate 32 9) (λ header. some (record_of ∷ []))
      (record_of ∷ []) (codes "nonce") (omega arith) refl refl

-- Without a back end for cryptography a recipient with a public key is accepted, and
-- beginEncryption calls through a null pointer.
no_crypto :
    begin_encryption
      (record parts { has_crypto = false })
      (add_recipient (record parts { has_crypto = false }) reader_key new_writer).1
    ≡ undefined
unfolding begin_encryption add_recipient accepts validate Writing.write_header
no_crypto = refl
