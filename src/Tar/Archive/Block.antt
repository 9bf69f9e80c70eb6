-- ===== src/Tar/Archive/Block.antt =====
-- A header that is written (cdoc/Tar.cpp) is read as the same header.
use libcdoc.Base.{
  ℕ, zero, suc, ◌+◌, ◌-◌, ◌%◌, Bytes, length, length-append, length-take, length-replicate, Option,
  take, drop, take-append, drop-append, drop-drop, replicate, [], ◌∷◌, ◌++◌, ◌≡◌, refl, sym, ap,
  ◌∙◌, arith,
}
use libcdoc.Tar.Octal.{block_size, to_octal, octal_digits, shift_three}
use libcdoc.Tar.Writer.{fill_header}
use libcdoc.Tar.Header.{Header, to_bytes, of_bytes, empty}

drop_past : (n k : ℕ) (a b : Bytes) → length a ≡ n → drop (n + k) (a ++ b) ≡ drop k b
drop_past n k a b h = sym (drop-drop k n (a ++ b)) ∙ ap (λ t. drop k t) (drop-append n a b h)

module _ (nm sz ck : Bytes) (tf : ℕ) (hn : length nm ≡ 100) (hs : length sz ≡ 12)
    (hc : length ck ≡ 8) where
  abbrev filled : Header
  filled = record empty { name = nm; size = sz; chksum = ck; typeflag = tf }

  -- What stands behind the name, the size and the checksum.
  abbrev tail : Bytes
  tail =
      tf
      ∷ (replicate 100 0
          ++ (replicate 6 0
              ++ (replicate 2 0
                  ++ (replicate 32 0
                      ++ (replicate 32 0
                          ++ (replicate 8 0
                              ++ (replicate 8 0 ++ (replicate 155 0 ++ replicate 12 0))))))))

  abbrev middle : Bytes
  middle = replicate 12 0 ++ (ck ++ tail)

  abbrev behind : Bytes
  behind = replicate 8 0 ++ (replicate 8 0 ++ (replicate 8 0 ++ (sz ++ middle)))

  past_name : (k : ℕ) → drop (100 + k) (to_bytes filled) ≡ drop k behind
  unfolding to_bytes
  past_name k = drop_past 100 k nm behind hn

  past_size : (k : ℕ) → drop (136 + k) (to_bytes filled) ≡ drop k middle
  past_size k =
      let sum : 136 + k ≡ 100 + (24 + (12 + k)) = omega arith in
      ap (λ n. drop n (to_bytes filled)) sum
      ∙ past_name (24 + (12 + k))
      ∙ drop_past 24 (12 + k) (replicate 24 0) (sz ++ middle) refl
      ∙ drop_past 12 k sz middle hs

  past_chksum : (k : ℕ) → drop (156 + k) (to_bytes filled) ≡ drop k tail
  past_chksum k =
      let sum : 156 + k ≡ 136 + (12 + (8 + k)) = omega arith in
      ap (λ n. drop n (to_bytes filled)) sum
      ∙ past_size (12 + (8 + k))
      ∙ drop_past 12 (8 + k) (replicate 12 0) (ck ++ tail) refl
      ∙ drop_past 8 k ck tail hc

  pub of_bytes-filled : of_bytes (to_bytes filled) ≡ filled
  unfolding of_bytes
  of_bytes-filled =
      let b = to_bytes filled in
      let name_at : take 100 b ≡ nm = unfold to_bytes in take-append 100 nm behind hn in
      let size_at : take 12 (drop 124 b) ≡ sz =
        ap (take 12) (past_name 24) ∙ take-append 12 sz middle hs in
      let chksum_at : take 8 (drop 148 b) ≡ ck =
        ap (take 8) (past_size 12) ∙ take-append 8 ck tail hc in
      rw
        (
          name_at,
          size_at,
          chksum_at,
          past_name 0,
          past_name 8,
          past_name 16,
          past_size 0,
          past_chksum 0,
          past_chksum 1,
          past_chksum 101,
          past_chksum 107,
          past_chksum 109,
          past_chksum 141,
          past_chksum 173,
          past_chksum 181,
          past_chksum 189,
          past_chksum 344,
        )
        refl

  pub length-filled : length (to_bytes filled) ≡ block_size
  unfolding to_bytes
  length-filled = omega (
    arith,
    length-append nm behind,
    length-append (replicate 24 0 ++ sz) middle,
    length-append sz middle,
    length-append ck tail,
    hn,
    hs,
    hc,
  )

length-octal_digits : (k v : ℕ) (s : Bytes) → length (octal_digits k v s) ≡ k + length s
unfolding octal_digits
length-octal_digits zero v s = omega arith
length-octal_digits (suc k) v s =
    omega (arith, length-octal_digits k (shift_three v) ((v % 8 + b'0') ∷ s))

module _ (name : Bytes) (size : Option ℕ) (typeflag : ℕ) where
  length-name : length (take 100 name ++ replicate (100 - length (take 100 name)) 0) ≡ 100
  length-name = omega (
    arith,
    length-append (take 100 name) (replicate (100 - length (take 100 name)) 0),
    length-take 100 name,
    length-replicate {A = ℕ} (100 - length (take 100 name)) 0,
  )

  -- A header that is filled in takes 512 bytes, which are read as the same header.
  pub fill_header-of_bytes :
      (of_bytes (to_bytes (fill_header name size typeflag)) ≡ fill_header name size typeflag)
      × (length (to_bytes (fill_header name size typeflag)) ≡ block_size)
  unfolding fill_header to_octal
  fill_header-of_bytes = (
    of_bytes-filled _ _ _ typeflag length-name (length-octal_digits 11 _ (b' ' ∷ []))
        (length-octal_digits 7 _ (b' ' ∷ [])),
    length-filled _ _ _ typeflag length-name (length-octal_digits 11 _ (b' ' ∷ []))
        (length-octal_digits 7 _ (b' ' ∷ [])),
  )
