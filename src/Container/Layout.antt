-- ===== src/Container/Layout.antt =====
-- A container that is laid out as CDoc 2 says is opened, and the reader stands at its payload.
use libcdoc.Base.{
  ℕ, ◌+◌, ◌≤◌, Bytes, length, length-append, take, drop, take-append, drop-append, drop-drop, List,
  ◌++◌, map, true, false, Option, some, ltb, ==_refl, ◌≡◌, refl, sym, ap, ◌∙◌, arith,
}
use libcdoc.Io.{VectorSource, vector_source}
use libcdoc.Io.Stream.{vector_rest, vector_read_full}
use libcdoc.Locks.Build.{RecipientRecord, build_lock}
use libcdoc.Container.{
  label, key_len, max_len, big_endian, whole, as_exact, read_exact, finish_open, open_header,
  open_container,
}

abbrev moved : ℕ → VectorSource → VectorSource
moved n v = record v { ptr = v.ptr + n }

module _ (parse : Bytes → Option (List RecipientRecord)) where
  -- The next part of the input is read whole.
  read_part :
      (v : VectorSource) (n : ℕ) (x y : Bytes)
      → vector_rest v ≡ x ++ y
      → length x ≡ n
      → read_exact vector_source parse n v ≡ whole x (moved n v)
  unfolding read_exact
  read_part v n x y e size =
      let enough : n ≤ length (vector_rest v) = omega (arith, ap length e, length-append x y) in
      let part : take n (vector_rest v) ≡ x = ap (take n) e ∙ take-append n x y size in
      ap (as_exact n) (vector_read_full n v enough) ∙ rw (part, size, ==_refl n)

  rest_part :
      (v : VectorSource) (n : ℕ) (x y : Bytes)
      → vector_rest v ≡ x ++ y
      → length x ≡ n
      → vector_rest (moved n v) ≡ y
  rest_part v n x y e size =
      sym (drop-drop n v.ptr v.bytes) ∙ (ap (drop n) e ∙ drop-append n x y size)

  -- A source in memory that holds the label, the length of the header, a header of at most 2 ^ 20
  -- bytes that the generated parser takes, an HMAC of 32 bytes and a payload is opened: the reader
  -- has the header, the HMAC and a lock for each recipient, and its source stands at the payload,
  -- whose position it keeps.
  pub open_container-Layout :
      (v : VectorSource) (len header hmac payload : Bytes) (recipients : List RecipientRecord)
      → vector_rest v ≡ label ++ (len ++ (header ++ (hmac ++ payload)))
      → length len ≡ 4
      → big_endian len ≡ length header
      → length header ≤ max_len
      → length hmac ≡ key_len
      → parse header ≡ some recipients
      → open_container vector_source parse v ≡ record {
        src = record v { ptr = v.ptr + length label + 4 + length header + key_len };
        header_data = header;
        header_hmac = hmac;
        nonce_pos = length label + 4 + length header + key_len;
        at_nonce = true;
        locks = map build_lock recipients;
        is_open = true;
      }
  unfolding open_container open_header finish_open
  open_container-Layout v len header hmac payload recipients e len_size states fits hmac_size
        parsed =
      let v1 = moved 5 v in
      let v2 = moved 4 v1 in
      let v3 = moved (length header) v2 in
      let e1 = rest_part v 5 label (len ++ (header ++ (hmac ++ payload))) e refl in
      let e2 = rest_part v1 4 len (header ++ (hmac ++ payload)) e1 len_size in
      let e3 = rest_part v2 (length header) header (hmac ++ payload) e2 refl in
      let small : ltb max_len (length header) ≡ false = ground arith in
      rw (
        read_part v 5 label (len ++ (header ++ (hmac ++ payload))) e refl,
        open_container,
        read_part v1 4 len (header ++ (hmac ++ payload)) e1 len_size,
        states,
        open_header,
        small,
        read_part v2 (length header) header (hmac ++ payload) e2 refl,
        read_part v3 key_len hmac payload e3 hmac_size,
        finish_open,
        parsed,
      )
