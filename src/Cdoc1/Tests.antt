-- ===== src/Cdoc1/Tests.antt =====
-- Tests of `CDoc1Reader` (cdoc/CDoc1Reader.cpp) on a document of four nodes.
use libcdoc.Base.{
  ℕ, ◌≤◌, ◌<◌, Bytes, codes, length, replicate, List, [], ◌∷◌, true, false, none, some, OnSome,
  ◌++◌, ◌≡◌, refl, arith,
}
use libcdoc.Outcome.{Result, fail, ok, got, refused, end_of_stream, file, no_file}
use libcdoc.Io.{VectorSource, vector_source, vector_seek, vector_read, vector_consumer}
use libcdoc.Locks.{
  Lock, new_lock, cdoc1, ecc, rsa, rcpt_key, key_material, algorithm_id, party_uinfo, party_vinfo,
  get_bytes, get_string, find, is_rsa,
}
use libcdoc.Decrypt.{
  Cipher, start, read_first_tag, read_small, read_large, refill_tag, decrypt_block,
}
use libcdoc.Decrypt as Decrypt
use libcdoc.Zip.{Zlib, finished}
use libcdoc.Payload.Whole.{MultiSink}
use libcdoc.Cdoc1.Xml.{
  node, no_node, other_node, TextReader, XmlReader, read, read_base64, is_element, is_end_element,
  arrived,
}
use libcdoc.Cdoc1.{
  Library, aes128gcm_mth, Cdoc1, Body, get_fmk, ecc_fmk, rsa_fmk, resize, check_len,
  expected_fmk_len, cipher_named, decrypt_data, decrypt_found, decrypt_body, call_body, close_body,
  payload_loop, property, find_property,
}
use libcdoc.Cdoc1.Session.{next_file, read_data, consume, collect}
use libcdoc.Cdoc1.Parse.{new_cdoc1, open_container}
use libcdoc.Cdoc1.Key.{Uniform, get_fmk-Uniform}
use libcdoc.Cdoc1.Blind.{verdict, with_unwrap, get_fmk-blind}
use libcdoc.Cdoc1.Verified.{Verified, decrypt_data-Verified}
use libcdoc.Text.Hex.{to_hex}
use libcdoc.Cdoc1.Oracle.{calls_of, get_fmk-throttled}
use libcdoc.Cdoc1.Files.{after, next_file-ordered}
use libcdoc.Cdoc1.Ends.{IsFinite, open_container-ends}

record DocNode : Type 0 where
  name : Bytes
  attr : Bytes
  text : Bytes

-- A source with the nodes that are left; the first is the one the reader stands on.
abbrev Doc : Type 0 → Type 0
Doc T = T × List DocNode

abbrev doc : List DocNode
doc =
    record { name = []; attr = []; text = [] }
    ∷ record { name = codes "EncryptedData"; attr = codes "text/plain"; text = [] }
    ∷ record { name = codes "EncryptionMethod"; attr = aes128gcm_mth; text = [] }
    ∷ record { name = codes "CipherValue"; attr = []; text = [] }
    ∷ record { name = []; attr = []; text = codes "nonce-nonce-hello0123456789abcdef" }
    ∷ []

module _ {T : Type 0} where
  abbrev tail : Doc T → Doc T
  tail (s, []) = (s, [])
  tail (s, n ∷ l) = (s, l)

  abbrev head : Doc T → DocNode
  head (s, []) = record { name = []; attr = []; text = [] }
  head (s, n ∷ l) = n

  abbrev doc_reader : TextReader (Doc T)
  doc_reader = record {
    is_null = λ x. false;
    advance = λ (s, l). elim l [ [] ↦ (no_node, (s, [])) | n ∷ r ↦ (node, (s, r)) ];
    node_type = λ x. other_node;
    local_name = λ x. some (head x).name;
    get_attribute = λ name x. some (head x).attr;
    value = λ x. some (head x).text;
    decode_base64 = λ t. elim t [ none ↦ [] | some b ↦ b ];
  }

-- A cipher that changes nothing and takes every tag.
abbrev plain_cipher : Cipher ℕ
plain_cipher = record {
  fresh = 0;
  init = λ c key iv. some 1;
  iv_length = 12;
  update = λ c x. some (x, c);
  aad = λ c x. some c;
  set_tag = λ c t. some c;
  final = λ c. true;
}

abbrev stored : Zlib ℕ
stored = record { inflate = λ z input avail. finished (length input) [] z }

abbrev lib : Library VectorSource ℕ ℕ Doc
lib = record {
  seek = vector_seek;
  io = vector_source;
  xml = doc_reader;
  open_xml = λ src s. (s, doc);
  source = λ x. x.0;
  parts = λ evp. record {
    io = vector_source;
    seek = vector_seek;
    cipher = plain_cipher;
    expand = λ key info. key ++ info;
    zlib = stored;
    inflate_init = some 0;
    scratch = 0;
    max_size = 0;
  };
  key_length = λ evp. 16;
  decrypt_rsa = λ fmk b idx. (ok, fmk);
  derive_concat_kdf = λ m d a u v idx. (ok, m);
  unwrap = λ key b. [];
  sha256 = λ b. b;
  public_key = λ b. b;
  cert_algorithm = λ b. ecc;
}

abbrev lock : Lock
lock = record new_lock {
  type = cdoc1;
  encrypted_fmk = codes "wrapped";
  params =
      (key_material, codes "point")
      ∷ (algorithm_id, [])
      ∷ (party_uinfo, [])
      ∷ (party_vinfo, [])
      ∷ [];
}

abbrev closed_reader : Cdoc1 VectorSource
closed_reader = record (new_cdoc1 lib (record { bytes = []; ptr = 0 })) {
  method = aes128gcm_mth;
  mime = codes "text/plain";
  locks = lock ∷ [];
}

abbrev two_files : Cdoc1 VectorSource
two_files = record closed_reader {
  files =
      record { name = codes "a"; mime = []; content = codes "one" }
      ∷ record { name = codes "b"; mime = []; content = codes "two" }
      ∷ [];
}

gets_key : get_fmk lib 0 [] closed_reader ≡ some (ok, replicate 16 0, closed_reader)
unfolding get_fmk ecc_fmk check_len get_bytes get_string find is_rsa expected_fmk_len cipher_named
gets_key = refl

get_fmk-Uniform_example :
    Uniform 0
      (expected_fmk_len lib aes128gcm_mth)
      []
      closed_reader
      (ok, replicate 16 0, closed_reader)
get_fmk-Uniform_example =
    get_fmk-Uniform lib 0 [] closed_reader (ok, replicate 16 0, closed_reader) gets_key

get_fmk-blind_example :
    verdict (get_fmk (with_unwrap lib (λ key b. [])) 0 [] closed_reader)
    ≡ verdict (get_fmk (with_unwrap lib (λ key b. replicate 16 7)) 0 [] closed_reader)
get_fmk-blind_example = get_fmk-blind lib (λ key b. []) (λ key b. replicate 16 7) 0 [] closed_reader

next_file-ordered_example :
    ((next_file (after 1 two_files)).0 ≡ file (codes "b") (some 3))
    × ((r' : Cdoc1 VectorSource) × (read_data 3 (next_file (after 1 two_files)).1
          ≡ got (codes "two") r'))
    × ((next_file (after 2 two_files)).0 ≡ no_file end_of_stream)
next_file-ordered_example =
    next_file-ordered 1 two_files (record { name = codes "b"; mime = []; content = codes "two" })
      refl refl

-- A body that reads at most 100 bytes.
abbrev reads : Body lib Bytes
reads = record {
  run = λ src t mime r a. elim (src.read 100 t) [
    | refused c t' ↦ some (fail c, t', r, a)
    | got b t' ↦ some (ok, t', r, b)
  ];
}

decrypts :
    decrypt_data lib reads 10 (replicate 16 1) closed_reader []
    ≡ some (ok, closed_reader, codes "hello")
unfolding decrypt_data decrypt_found decrypt_body call_body close_body payload_loop property
    find_property read read_base64 is_element is_end_element arrived cipher_named vector_seek
    vector_read start read_first_tag Decrypt.read read_small read_large refill_tag decrypt_block
    Decrypt.close
decrypts = refl

decrypt_data-Verified_example :
    Verified lib reads 10 (replicate 16 1) [] closed_reader closed_reader (codes "hello")
decrypt_data-Verified_example =
    decrypt_data-Verified lib reads 10 (replicate 16 1) [] closed_reader closed_reader
      (codes "hello") decrypts

-- `VectorConsumer` as a consumer of files.
abbrev one_vector : MultiSink Bytes
one_vector = record { sink = vector_consumer; open_file = λ name size d. (ok, d) }

abbrev hashing : Library VectorSource ℕ ℕ Doc
hashing = record lib { sha256 = λ b. replicate 32 10 }

abbrev rsa_lock : Lock
rsa_lock = record lock { pk_type = rsa; params = (rcpt_key, codes "public") ∷ [] }

abbrev oracle_reader : Cdoc1 VectorSource
oracle_reader = record closed_reader { locks = rsa_lock ∷ [] }

abbrev told_reader : Cdoc1 VectorSource
told_reader = record oracle_reader { is_rsa = true; throttle_key_id = to_hex (replicate 32 10) }

gets_rsa_key : get_fmk hashing 0 [] oracle_reader ≡ some (ok, replicate 16 0, told_reader)
unfolding get_fmk rsa_fmk check_len get_bytes find is_rsa expected_fmk_len cipher_named resize
gets_rsa_key = refl

get_fmk-throttled_example :
    OnSome
      (λ (o : Result × Cdoc1 VectorSource × Bytes).
        o.1.throttled ≡ [] ++ calls_of hashing rsa_lock o.0)
      (decrypt_body hashing
        (consume hashing 10 one_vector (λ d. false))
        10
        (replicate 16 1)
        (codes "short")
        told_reader
        [])
    × OnSome
        (λ (o : Result × Cdoc1 VectorSource × Unit {0}).
          o.1.throttled ≡ [] ++ calls_of hashing rsa_lock o.0)
        (decrypt_body hashing
          (collect hashing 10)
          10
          (replicate 16 1)
          (codes "short")
          told_reader
          tt)
get_fmk-throttled_example =
    get_fmk-throttled hashing (λ b. refl) 10 0 one_vector (λ d. false) rsa_lock [] (replicate 16 0)
      oracle_reader told_reader (replicate 16 1) (codes "short") [] refl gets_rsa_key

doc_never_back : (d : Doc VectorSource) → length (doc_reader.advance d).1.1 ≤ length d.1
doc_never_back (s, []) = omega arith
doc_never_back (s, n ∷ r) = omega arith

doc_forward :
    (d : Doc VectorSource)
    → (doc_reader.advance d).0 ≡ node
    → length (doc_reader.advance d).1.1 < length d.1
doc_forward (s, []) e = absurd (cc e)
doc_forward (s, n ∷ r) e = omega arith

doc-IsFinite : IsFinite (doc_reader {T = VectorSource}) (λ x. length x.1)
doc-IsFinite = record { never_back = doc_never_back; forward = doc_forward }

open_container-ends_example :
    ((r : Cdoc1 VectorSource) × (open_container lib 6 (record { bytes = []; ptr = 0 }) ≡ some r))
    × ((o : Bytes × XmlReader (Doc VectorSource)) × (payload_loop lib 6 0 0
            (record { d = (record { bytes = []; ptr = 0 }, doc); error = false })
          ≡ some o))
open_container-ends_example =
    open_container-ends lib (λ x. length x.1) doc-IsFinite 6 (record { bytes = []; ptr = 0 })
      (omega arith)
