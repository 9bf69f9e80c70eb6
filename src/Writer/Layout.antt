-- ===== src/Writer/Layout.antt =====
-- The header that a writer puts before its payload (cdoc/CDoc2Writer.cpp) is the one that a reader
-- opens.
use libcdoc.Base.{
  ℕ, ◌+◌, ◌%◌, ◌^◌, ◌≤◌, Bytes, length, List, [], ◌∷◌, ◌++◌, append_assoc, map, true, some, Option,
  ◌≡◌, refl, ap, ◌∙◌, arith,
}
use libcdoc.Io.{vector_source, vector_consumer, vector_write}
use libcdoc.Locks.Build.{RecipientRecord, build_lock}
use libcdoc.Container.{label, key_len, max_len, big_endian, open_container}
use libcdoc.Container.Layout.{open_container-Layout}
use libcdoc.Writer.{Parts, header_len, write_parts}

big_endian-header_len : (n : ℕ) → n ≤ max_len → big_endian (header_len (n % 2 ^ 32)) ≡ n
unfolding header_len big_endian
big_endian-header_len n small = omega arith

module _ {C Z B : Type 0} (p : Parts Bytes C Z B) (in_memory : p.sink ≡ vector_consumer)
    (header hmac : Bytes) where
  -- What is written in front of the payload, into an empty vector.
  abbrev pub written : Bytes
  written = write_parts p (label ∷ header_len (length header % 2 ^ 32) ∷ header ∷ hmac ∷ []) []

  written_eq : written ≡ label ++ (header_len (length header % 2 ^ 32) ++ (header ++ hmac))
  unfolding write_parts vector_write
  written_eq =
      let len : Bytes = header_len (length header % 2 ^ 32) in
      rw (in_memory, write_parts)
        (ap (λ u. u ++ hmac) (append_assoc label len header)
          ∙ (append_assoc label (len ++ header) hmac
              ∙ ap (λ u. label ++ u) (append_assoc len header hmac)))

  written_before :
      (payload : Bytes)
      → written ++ payload
        ≡ label ++ (header_len (length header % 2 ^ 32) ++ (header ++ (hmac ++ payload)))
  written_before payload =
      let len : Bytes = header_len (length header % 2 ^ 32) in
      ap (λ u. u ++ payload) written_eq
      ∙ (append_assoc label (len ++ (header ++ hmac)) payload
          ∙ ap (λ u. label ++ u)
              (append_assoc len (header ++ hmac) payload
                ∙ ap (λ u. len ++ u) (append_assoc header hmac payload)))

  header_len_size : (n : ℕ) → length (header_len n) ≡ 4
  unfolding header_len
  header_len_size n = refl

  -- For a writer into memory, a header of at most 2 ^ 20 bytes that the reader's parser takes and
  -- an HMAC of 32 bytes: what the writer puts before any payload is opened by the reader, which has
  -- the header, the HMAC and a lock for each recipient of the header, and stands at the payload.
  pub written-opens :
      (parse : Bytes → Option (List RecipientRecord)) (recipients : List RecipientRecord)
      (payload : Bytes)
      → length header ≤ max_len
      → length hmac ≡ key_len
      → parse header ≡ some recipients
      → open_container vector_source parse (record { bytes = written ++ payload; ptr = 0 })
        ≡ record {
          src = record {
            bytes = written ++ payload;
            ptr = 0 + length label + 4 + length header + key_len;
          };
          header_data = header;
          header_hmac = hmac;
          nonce_pos = length label + 4 + length header + key_len;
          at_nonce = true;
          locks = map build_lock recipients;
          is_open = true;
        }
  written-opens parse recipients payload fits size parsed =
      open_container-Layout parse (record { bytes = written ++ payload; ptr = 0 })
        (header_len (length header % 2 ^ 32)) header hmac payload recipients
        (written_before payload) (header_len_size _) (big_endian-header_len (length header) fits)
        fits size parsed
