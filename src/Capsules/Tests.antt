-- ===== src/Capsules/Tests.antt =====
-- A header for a symmetric key and for an RSA key with a key server, with toys for the services.
use libcdoc.Base.{ℕ, suc, Bytes, replicate, map, codes, List, [], ◌∷◌, true, some, ◌≡◌, refl, inl}
use libcdoc.Outcome.{ok}
use libcdoc.Io.{vector_consumer}
use libcdoc.Zip.Consumer.{ended}
use libcdoc.Locks.{rsa, ecc, secp_384_r1}
use libcdoc.Locks.Build.{RecipientRecord, symmetric, key_server, rsa_details, build_lock}
use libcdoc.Recipients.{Recipient, symmetric_key, public_key, get_label, validate}
use libcdoc.Keys.{key, xor_data, xor_loop}
use libcdoc.Keys.Unlock.{Backend, extract_hkdf, get_key_material, get_fmk}
use libcdoc.Writer.{Parts}
use libcdoc.Capsules.{
  Services, made, record_of, server_url, server_capsule, symmetric_capsule, rsa_record, build_rsa,
  build_pki, extracted, secret_record, build_secret, build_record, build_records,
}
use libcdoc.Capsules.Whole.{CanOpen, by_secret, get_fmk-build_records}

abbrev backend : Backend
backend = record {
  get_secret = λ idx. (ok, replicate 32 5);
  decrypt_rsa = λ text idx. (ok, text);
  derive_ecdh = λ public idx. (ok, public);
  fetch_key = λ url id. (ok, id);
  has_network = true;
  share_answers = λ lock idx. (ok, []);
  fetch_url = some (λ id. codes "get");
  pbkdf2 = λ s pw iter. s;
  extract = λ m s. replicate 32 5;
  expand = λ k info n. k;
  sign_hmac = λ k text. k;
}

abbrev services : Services ℕ
services = record {
  keys = backend;
  random = λ n b. (ok, replicate n b, suc b);
  has_conf = true;
  send_url = λ id. codes "put";
  share_urls = λ id. some (codes "share" ∷ []);
  encrypt_rsa = λ public kek b. (some kek, b);
  ecc_secret = λ curve public b. (some (public, public), b);
  send_key = λ url public m type expiry b. (ok, (m, 7), b);
  send_share = λ url to share b. (ok, share, b);
}

abbrev me : Recipient
me = record {
  type = symmetric_key;
  pk_type = ecc;
  ec_type = secp_384_r1;
  kdf_iter = 0;
  label = codes "me";
  rcpt_key = [];
  cert = [];
  id = [];
  server_id = [];
  expiry_ts = 0;
  lbl_parts = [];
}

abbrev you : Recipient
you = record me {
  type = public_key;
  pk_type = rsa;
  label = codes "you";
  rcpt_key = codes "public";
  server_id = codes "server";
}

abbrev fmk : Bytes
fmk = replicate 32 9

abbrev records : List RecipientRecord
records =
    record_of (codes "me") (replicate 32 12) (symmetric (replicate 32 0))
    ∷ record_of (codes "you") (replicate 32 11)
        (key_server (rsa_details (codes "public")) (codes "server") (replicate 32 2))
    ∷ []

built : build_records services fmk 0 (me ∷ you ∷ []) 0 ≡ made records 3
unfolding build_records build_record build_secret secret_record extracted extract_hkdf
    get_key_material build_pki server_url build_rsa rsa_record server_capsule symmetric_capsule
    get_label xor_data xor_loop
built = refl

me_valid : validate me ≡ true
unfolding validate
me_valid = refl

me-CanOpen : CanOpen services 0 me
me-CanOpen = by_secret refl me_valid (record { answers = λ idx. inl refl })

get_fmk-build_records_example :
    get_fmk backend (codes "header") fmk (map build_lock records) 0 ≡ some (key fmk)
get_fmk-build_records_example =
    get_fmk-build_records services (codes "header") fmk fmk refl refl 0 (me ∷ you ∷ []) me records 0
      3 refl me-CanOpen built

abbrev parts : Parts Bytes ℕ ℕ ℕ
parts = record {
  sink = vector_consumer;
  has_crypto = true;
  has_network = true;
  random = λ n b. (ok, replicate n 0, b);
  build_header = λ recipients key b. (ok, codes "header", b);
  extract = λ k salt. k;
  expand = λ k info. k;
  sign_hmac = λ k text. k;
  cipher = record {
    fresh = 0;
    init = λ c k iv. some 1;
    update = λ c x. some (x, c);
    aad = λ c x. some c;
    final = λ c. some ([], c);
    has_tag = true;
    get_tag = λ c. some (codes "0123456789abcdef");
  };
  zlib = record { init = some 0; scratch = 0; deflate = λ z x fin. ended 0 [] z };
}
