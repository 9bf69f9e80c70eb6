-- ===== src/Decrypt/Start.antt =====
-- The constructor of `DecryptionSource` and its `close` (cdoc/Crypto.cpp).
use libcdoc.Base.{
  ℕ, ◌+◌, ◌≤◌, ◌<◌, Bytes, length, take, drop, length-take, length-drop, drop-drop, true, false,
  none, some, ◌==◌, ◌≡◌, sym, arith,
}
use libcdoc.Io.{VectorSource, vector_source}
use libcdoc.Io.Stream.{vector_read_full, vector_rest}
use libcdoc.Decrypt.{Cipher, tag_size, start, read_first_tag}

module _ {C : Type 0} (cipher : Cipher C) (key : Bytes) (n : ℕ) (v : VectorSource) where
  -- Over a source in memory with an IV, of a length that is not 0, and 16 more bytes, and a cipher
  -- that takes the key and the IV, the constructor reads the IV, holds back the 16 bytes behind it
  -- and leaves the rest to be read.
  pub start-vector_source :
      (ctx : C)
      → 0 < n
      → n + tag_size ≤ length (vector_rest v)
      → cipher.init cipher.fresh key (take n (vector_rest v)) ≡ some ctx
      → start vector_source cipher key n v ≡ record {
        src = record v { ptr = v.ptr + n + tag_size };
        ctx = ctx;
        tag = take tag_size (drop n (vector_rest v));
        error = none;
      }
  unfolding start read_first_tag
  start-vector_source ctx pos long takes =
      let asked : (n == 0) ≡ false = ground arith in
      let whole_iv : (length (take n (vector_rest v)) == n) ≡ true =
        ground (arith, length-take n (vector_rest v)) in
      let rest_eq : vector_rest (record v { ptr = v.ptr + n }) ≡ drop n (vector_rest v) =
        sym (drop-drop n v.ptr v.bytes) in
      let room : tag_size ≤ length (vector_rest (record v { ptr = v.ptr + n })) =
        rw rest_eq (omega (arith, length-drop n (vector_rest v))) in
      let whole_tag : (length (take tag_size (drop n (vector_rest v))) == tag_size) ≡ true =
        ground
          (arith, length-take tag_size (drop n (vector_rest v)), length-drop n (vector_rest v)) in
      rw (
        asked,
        vector_read_full n v (omega arith),
        start,
        asked,
        whole_iv,
        takes,
        vector_read_full tag_size (record v { ptr = v.ptr + n }) room,
        read_first_tag,
        rest_eq,
        whole_tag,
      )
