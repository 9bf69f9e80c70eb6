-- ===== src/Decrypt/Tests.antt =====
-- A toy cipher, and a run of reads over a source in memory.
use libcdoc.Base.{
  ℕ, ◌+◌, ◌%◌, Bytes, length, map, [], ◌∷◌, ◌++◌, none, some, ◌==◌, ◌≡◌, ◌↔◌, refl, ap, arith,
  codes,
}
use libcdoc.Outcome.{ok, got}
use libcdoc.Io.{VectorSource, vector_source, vector_read}
use libcdoc.Io.Stream.{vector_source-IsSource, vector_rest}
use libcdoc.Decrypt.{
  Cipher, DecryptionSource, tag_size, read, read_small, read_large, refill_tag, decrypt_block,
  start, close,
}
use libcdoc.Decrypt.Whole.{IsStreamCipher, Reads, here, next, Accepts, Reads-whole}
use libcdoc.Decrypt.Start.{start-vector_source}

-- A cipher that adds its key to each byte, with a running sum as its tag.
abbrev shift : ℕ → Bytes → Bytes
shift k = map (λ b. (b + k) % 256)

abbrev toy : Cipher ℕ
toy = record {
  fresh = 0;
  init = λ c key iv. some 7;
  iv_length = 2;
  update = λ c x. some (shift c x, c);
  aad = λ c x. some c;
  set_tag = λ c t. some (length t);
  final = λ c. c == 16;
}

shift-append : (k : ℕ) (x y : Bytes) → shift k (x ++ y) ≡ shift k x ++ shift k y
shift-append k [] y = refl
shift-append k (b ∷ x) y = ap (λ t. (b + k) % 256 ∷ t) (shift-append k x y)

toy-IsStreamCipher : IsStreamCipher toy
toy-IsStreamCipher = record {
  update-nil = λ c. refl;
  update-append = λ c c1 c2 x y p q h k. cc (h, k, shift-append c x y);
}

abbrev file : Bytes
file = codes "ivHello, world! 0123456789abcdef"

abbrev opened : DecryptionSource VectorSource ℕ
opened = record {
  src = record { bytes = file; ptr = 18 };
  ctx = 7;
  tag = codes "Hello, world! 01";
  error = none;
}

start-vector_source_example :
    start vector_source toy [] 2 (record { bytes = file; ptr = 0 }) ≡ opened
start-vector_source_example =
    start-vector_source toy [] 2 (record { bytes = file; ptr = 0 }) 7 (omega arith) (omega arith)
      refl

abbrev finished : DecryptionSource VectorSource ℕ
finished = record {
  src = record { bytes = file; ptr = 32 };
  ctx = 7;
  tag = codes "0123456789abcdef";
  error = none;
}

abbrev first : DecryptionSource VectorSource ℕ
first = record {
  src = record { bytes = file; ptr = 23 };
  ctx = 7;
  tag = codes ", world! 0123456";
  error = none;
}

first_read : read vector_source toy 5 opened ≡ got (shift 7 (codes "Hello")) first
unfolding read read_small decrypt_block vector_read
first_read = refl

second_read : read vector_source toy 40 first ≡ got (shift 7 (codes ", world! ")) finished
unfolding read read_large refill_tag decrypt_block vector_read
second_read = refl

run :
    Reads vector_source toy opened (shift 7 (codes "Hello") ++ shift 7 (codes ", world! ")) finished
run =
    next 40 (shift 7 (codes "Hello")) (shift 7 (codes ", world! ")) first finished
      (next 5 [] (shift 7 (codes "Hello")) opened first here (omega arith) first_read) (omega arith)
      second_read

Reads-whole_example :
    (text tag : Bytes) × (c : ℕ) × (opened.tag ++ vector_rest opened.src ≡ text ++ tag)
    × (length tag ≡ tag_size)
    × (toy.update 7 text ≡ some (shift 7 (codes "Hello") ++ shift 7 (codes ", world! "), c))
    × (((close vector_source toy finished).0 ≡ ok) ↔ Accepts toy c tag)
Reads-whole_example =
    Reads-whole vector_source toy vector_rest vector_source-IsSource toy-IsStreamCipher opened
      finished (shift 7 (codes "Hello") ++ shift 7 (codes ", world! ")) refl refl run refl
