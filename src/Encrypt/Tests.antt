-- ===== src/Encrypt/Tests.antt =====
-- A toy cipher with a tag, whose two directions belong together, and one round through both.
use libcdoc.Base.{
  Option, ℕ, ◌+◌, ◌-◌, Bytes, length, replicate, map, [], ◌∷◌, ◌++◌, none, some, true, false, Bool,
  list_eq, list_eq_refl, sym, subst, ◌≡◌, refl, ap, ap₂, arith, codes,
}
use libcdoc.Outcome.{ok, got}
use libcdoc.Io.{VectorSource, vector_consumer, vector_source, vector_read, vector_write}
use libcdoc.Decrypt.{
  DecryptionSource, update_aad, update_aads, read, read_small, read_large, refill_tag,
  decrypt_block,
}
use libcdoc.Decrypt as Decrypt
use libcdoc.Decrypt.Whole.{IsStreamCipher, Reads, here, next}
use libcdoc.Encrypt.{
  EncryptionConsumer, start, write, write_iv, forward, after_last, write_tag, write_aad, write_aads,
  close, is_count,
}
use libcdoc.Encrypt as Encrypt
use libcdoc.Encrypt.Output.{Writes}
use libcdoc.Encrypt.Output as Output
use libcdoc.Encrypt.RoundTrip.{IsPair, reads_back}

-- The key, the number of bytes that went through, and that the tag was right.
abbrev State : Type 0
State = ℕ × ℕ × Bool

abbrev stepped : ℕ → State → State
stepped n c = (c.0, c.1 + n, c.2)

abbrev step_to : ℕ → State → Option (Bytes × State)
step_to n c = some ([], (c.0, n, c.2))

abbrev tag_of : ℕ → Bytes
tag_of n = replicate 16 n

abbrev toy_enc : Encrypt.Cipher State
toy_enc = record {
  fresh = (0, 0, false);
  init = λ c key iv. some (length key, 0, false);
  update = λ c x. some (map (λ b. b + c.0) x, stepped (length x) c);
  aad = λ c x. some (stepped (length x) c);
  final = λ c. some ([], c);
  has_tag = true;
  get_tag = λ c. some (tag_of c.1);
}

abbrev toy_dec : Decrypt.Cipher State
toy_dec = record {
  fresh = (0, 0, false);
  init = λ c key iv. some (length key, 0, false);
  iv_length = 2;
  update = λ c x. some (map (λ b. b - c.0) x, stepped (length x) c);
  aad = λ c x. some (stepped (length x) c);
  set_tag = λ c t. some (c.0, c.1, list_eq t (tag_of c.1));
  final = λ c. c.2;
}

unshift-shift : (k : ℕ) (x : Bytes) → map (λ b. b - k) (map (λ b. b + k) x) ≡ x
unshift-shift k [] = refl
unshift-shift k (b ∷ x) =
    let same : b + k - k ≡ b = omega arith in ap₂ (λ y r. y ∷ r) same (unshift-shift k x)

length-shift : (k : ℕ) (x : Bytes) → length (map (λ b. b + k) x) ≡ length x
length-shift k [] = refl
length-shift k (b ∷ x) = omega (arith, length-shift k x)

length-append : (x y : Bytes) → length (x ++ y) ≡ length x + length y
length-append [] y = omega arith
length-append (b ∷ x) y = omega (arith, length-append x y)

map-append : (f : ℕ → ℕ) (x y : Bytes) → map f (x ++ y) ≡ map f x ++ map f y
map-append f [] y = refl
map-append f (b ∷ x) y = ap (λ t. f b ∷ t) (map-append f x y)

toy_dec-IsStreamCipher : IsStreamCipher toy_dec
toy_dec-IsStreamCipher = record {
  update-nil = λ c. ap (λ n. step_to n c) (omega arith);
  update-append = λ c c1 c2 x y p q h k.
      let h1 : stepped (length x) c ≡ c1 = cc h in
      let hp : map (λ b. b - c.0) x ≡ p = cc h in
      let k' : ◌≡◌ {A = Option (Bytes × State)}
          (some (map (λ b. b - c.0) y, stepped (length y) (stepped (length x) c))) (some (q, c2)) =
        rw (← h1) at k in
      let kq : map (λ b. b - c.0) y ≡ q = cc k' in
      let k2 : stepped (length y) (stepped (length x) c) ≡ c2 = cc k' in
      let sum : c.1 + length (x ++ y) ≡ c.1 + length x + length y =
        omega (arith, length-append x y) in
      rw (← hp, ← kq, ← k2, map-append, sum) refl;
}

toy-IsPair : IsPair toy_enc toy_dec (λ c k. c ≡ k)
toy-IsPair = record {
  has_tag = refl;
  init = λ key iv c h. ((length key, 0, false), refl, cc h);
  aad = λ c c' k x same h. (stepped (length x) c, rw (← same) refl, cc h);
  update = λ c c' k x y same h.
      let hy : map (λ b. b + c.0) x ≡ y = cc h in
      let hc : stepped (length x) c ≡ c' = cc h in
      (c', rw (← same, ← hy, ← hc, unshift-shift c.0 x, length-shift c.0 x) refl, refl);
  final = λ c c' k y tag same h t.
      let hy : [] ≡ y = cc h in
      let hc : c ≡ c' = cc h in
      let ht : tag_of c'.1 ≡ tag = cc t in
      (sym hy, ((c'.0, c'.1, true), rw (← same, hc, ← ht, list_eq_refl (tag_of c'.1)) refl, refl));
}

-- The run: one block of additional data and two writes.
abbrev key : Bytes
key = codes "1234567"

abbrev begun : EncryptionConsumer Bytes State
begun = record { dst = codes "iv"; ctx = (7, 1, false); error = ok }

abbrev first : EncryptionConsumer Bytes State
first = record {
  dst = codes "iv" ++ map (λ b. b + 7) (codes "Hello");
  ctx = (7, 6, false);
  error = ok;
}

abbrev second : EncryptionConsumer Bytes State
second = record {
  dst = codes "iv" ++ map (λ b. b + 7) (codes "Hello, you");
  ctx = (7, 11, false);
  error = ok;
}

abbrev done : EncryptionConsumer Bytes State
done = record second { dst = second.dst ++ tag_of 11 }

fed :
    write_aads vector_consumer toy_enc
      (codes "a" ∷ [])
      (start vector_consumer toy_enc key (codes "iv") [])
    ≡ (ok, begun)
unfolding start write_iv vector_write is_count write_aads write_aad
fed = refl

run : Writes toy_enc begun (codes "Hello" ++ codes ", you") second
unfolding write forward vector_write
run =
    Output.next (codes "Hello") (codes ", you") first second
      (Output.next [] (codes "Hello") begun first Output.here refl) refl

closed : close vector_consumer toy_enc second ≡ (ok, done)
unfolding close forward after_last write_tag vector_write is_count
closed = refl

abbrev opened : DecryptionSource VectorSource State
opened = record {
  src = record { bytes = done.dst; ptr = 18 };
  ctx = (7, 1, false);
  tag = map (λ b. b + 7) (codes "Hello, you") ++ replicate 6 11;
  error = none;
}

abbrev drained : DecryptionSource VectorSource State
drained = record {
  src = record { bytes = done.dst; ptr = 28 };
  ctx = (7, 11, false);
  tag = tag_of 11;
  error = none;
}

read_all : read vector_source toy_dec 40 opened ≡ got (codes "Hello, you") drained
unfolding read read_large refill_tag decrypt_block vector_read
read_all = refl

prepared :
    update_aads vector_source toy_dec
      (codes "a" ∷ [])
      (Decrypt.start vector_source toy_dec key 2 (record { bytes = done.dst; ptr = 0 }))
    ≡ (ok, opened)
unfolding update_aads update_aad Decrypt.start Decrypt.read_first_tag vector_read
prepared = refl

drains :
    Reads vector_source toy_dec
      (update_aads vector_source toy_dec
        (codes "a" ∷ [])
        (Decrypt.start vector_source toy_dec key 2 (record { bytes = done.dst; ptr = 0 }))).1
      (codes "Hello, you")
      drained
drains =
    subst (λ x. Reads vector_source toy_dec x (codes "Hello, you") drained)
      (sym (ap (λ p. p.1) prepared))
      (next 40 [] (codes "Hello, you") opened drained here (omega arith) read_all)

reads_back_example :
    ((update_aads vector_source toy_dec
        (codes "a" ∷ [])
        (Decrypt.start vector_source toy_dec key 2 (record { bytes = done.dst; ptr = 0 }))).0
      ≡ ok)
    × (codes "Hello, you" ≡ codes "Hello, you")
    × ((Decrypt.close vector_source toy_dec drained).0 ≡ ok)
reads_back_example =
    reads_back toy_enc toy_dec (λ c k. c ≡ k) toy-IsPair toy_dec-IsStreamCipher key (codes "iv")
      (codes "a" ∷ []) (7, 0, false) refl (omega arith) begun second done (codes "Hello, you") fed
      run closed (codes "Hello, you") drained drains refl
