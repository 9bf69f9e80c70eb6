-- ===== src/Unpad/Reference.antt =====
-- The branch-free unpadding of cdoc/Crypto.cpp against the rule of PKCS#1 v1.5 with branches.
use libcdoc.Base.{
  ℕ, zero, suc, ◌+◌, ◌-◌, ◌%◌, ◌^◌, ◌≤◌, ◌<◌, Bytes, All, All-append, All-drop, IsBytes, length,
  length-drop, length-append, drop, drop-drop, drop-append, take, take_all, get_or, [], ◌∷◌, ◌++◌,
  Bool, true, false, ◌&&◌, leb, ltb, ◌==◌, if◌then◌else◌, none, some, ◌≡◌, ◌≢◌, refl, sym, ap, ◌∙◌,
  arith, Bool-cases, inl, inr, zero-bit_and, bit_and-zero, Option-cases, ==_iff,
}
use libcdoc.Ct.Masks.{mask_of, eq8_lem, ge_size_lem, eq32_lem}
use libcdoc.Unpad.{find_zero, check_padding, unpad}
use libcdoc.Unpad.Scan.{
  and-mask_of, first_zero, find_zero_lem, located, copy_out_synth, copy_out_message,
}

-- The test of a block whose first 0 behind its second byte stands at index 2 + k.
unfoldable pub padding_holds : Bytes → ℕ → ℕ → Bool
padding_holds em k len =
    (get_or em 0 0 == 0) && (get_or em 1 0 == 2) && leb 8 k && (length em - (3 + k) == len)

-- The block is 0, 2, at least 8 bytes that are not 0, a 0 and a message of the expected length; any
-- other block gives the synthetic text.
unfoldable pub reference : Bytes → Bytes → ℕ → Bytes
reference em synth len = elim (first_zero (drop 2 em)) [
  | none ↦ synth
  | some k ↦ if padding_holds em k len then drop (3 + k) em else synth
]

first_zero-lt : (s : Bytes) (k : ℕ) → first_zero s ≡ some k → k < length s
unfolding first_zero
first_zero-lt [] k e = cc
first_zero-lt (x ∷ s) k e = elim (Bool-cases (x == 0)) [
  | inl z ↦ ground arith
  | inr z ↦ elim (Option-cases (first_zero s)) [
    | inl h ↦ absurd (cc (rw (z, first_zero, h) at e))
    | inr (j, h) ↦
        let e' : some (suc j) ≡ some k = rw (z, first_zero, h) at e in
        ground (arith, first_zero-lt s j h)
  ]
]

get_or-lt : (em : Bytes) (i : ℕ) → IsBytes em → get_or em i 0 < 2 ^ 8
get_or-lt [] i bs = omega arith
get_or-lt (x ∷ em) zero bs = bs.0
get_or-lt (x ∷ em) (suc i) bs = get_or-lt em i bs.1

module _ (em synth : Bytes) (len : ℕ) (em_bytes : IsBytes em) (synth_bytes : IsBytes synth)
    (seed : length synth ≡ len) (room : 11 + len ≤ length em) (small : length em < 2 ^ 31) where
  verdict : ℕ → Bool
  verdict k =
      ((((true && (get_or em 0 0 == 0)) && (get_or em 1 0 == 2)) && true) && leb 10 (2 + k))
      && (length em - (2 + k + 1) == len)

  verdict-holds : (k : ℕ) → verdict k ≡ padding_holds em k len
  unfolding verdict padding_holds
  verdict-holds k = ground arith

  fits_of : (k : ℕ) → verdict k ≡ true → (length em - (2 + k + 1) ≡ len) × (8 ≤ k)
  unfolding verdict
  fits_of k good = ground arith

  check_found :
      (k : ℕ)
      → first_zero (drop 2 em) ≡ some k
      → check_padding em len ≡ (mask_of (verdict k), 2 + k + 1)
  unfolding check_padding verdict
  check_found k e =
      let loc : find_zero 2 (drop 2 em) 0 0 ≡ located 2 (some k) =
        find_zero_lem 2 (drop 2 em) (All-drop _ 2 em em_bytes) (omega (arith, length-drop 2 em))
        ∙ ap (located 2) e in
      let below : k < length (drop 2 em) = first_zero-lt (drop 2 em) k e in
      let inside : leb (2 + k + 1) (length em) ≡ true = ground (arith, length-drop 2 em) in
      let msg_word : (length em - (2 + k + 1)) % 2 ^ 32 ≡ length em - (2 + k + 1) = omega arith in
      let len_word : len % 2 ^ 32 ≡ len = omega arith in
      rw (
        loc,
        eq8_lem (get_or em 0 0) 0 (get_or-lt em 0 em_bytes) (omega arith),
        eq8_lem (get_or em 1 0) 2 (get_or-lt em 1 em_bytes) (omega arith),
        ge_size_lem (2 + k) 10 (omega (arith, length-drop 2 em)) (omega arith),
        inside,
        msg_word,
        len_word,
        eq32_lem (length em - (2 + k + 1)) len (omega arith) (omega arith),
        and-mask_of true (get_or em 0 0 == 0),
        and-mask_of (get_or em 0 0 == 0) (get_or em 1 0 == 2),
        and-mask_of ((get_or em 0 0 == 0) && (get_or em 1 0 == 2)) true,
        and-mask_of,
        and-mask_of,
      )

  check_none : first_zero (drop 2 em) ≡ none → check_padding em len ≡ (0, 0 + 1)
  unfolding check_padding
  check_none e =
      let loc : find_zero 2 (drop 2 em) 0 0 ≡ located 2 none =
        find_zero_lem 2 (drop 2 em) (All-drop _ 2 em em_bytes) (omega (arith, length-drop 2 em))
        ∙ ap (located 2) e in
      rw (loc, bit_and-zero, zero-bit_and, zero-bit_and)

  -- For a block of bytes with at least 11 bytes more than the message and fewer than 2 ^ 31, and a
  -- synthetic text of bytes of the length of the message, the branch-free unpadding gives the same
  -- output as the plain parser of PKCS#1 v1.5 padding that returns the message when the padding and
  -- the length are right and the synthetic text otherwise.
  pub unpad-reference : unpad em synth len ≡ reference em synth len
  unfolding unpad reference
  unpad-reference =
      let long : ltb (length em) (11 + len) ≡ false = ground arith in
      elim (Option-cases (first_zero (drop 2 em))) [
        | inl e ↦
            rw (long, check_none e, reference, e)
              (copy_out_synth em synth 1 em_bytes synth_bytes 0 len (omega arith)
                ∙ take_all len synth (omega arith))
        | inr (k, e) ↦ elim (Bool-cases (verdict k)) [
          | inl good ↦
              let exact : length em - (2 + k + 1) ≡ len = (fits_of k good).0 in
              let below : k < length (drop 2 em) = first_zero-lt (drop 2 em) k e in
              let from : 2 + k + 1 + 0 ≡ 3 + k = omega arith in
              rw (long, check_found k e, reference, e, good, ← verdict-holds k, good)
                (copy_out_message em synth (2 + k + 1) em_bytes synth_bytes 0 len
                    (omega (arith, length-drop 2 em)) (omega arith)
                  ∙ (ap (λ i. take len (drop i em)) from
                      ∙ take_all len (drop (3 + k) em) (omega (arith, length-drop (3 + k) em))))
          | inr bad ↦
              rw (long, check_found k e, reference, e, bad, ← verdict-holds k, bad)
                (copy_out_synth em synth (2 + k + 1) em_bytes synth_bytes 0 len (omega arith)
                  ∙ take_all len synth (omega arith))
        ]
      ]

first_zero-append :
    (ps m : Bytes) → All (λ b. b ≢ 0) ps → first_zero (ps ++ 0 ∷ m) ≡ some (length ps)
unfolding first_zero
first_zero-append [] m h = refl
first_zero-append (x ∷ ps) m h = elim (Bool-cases (x == 0)) [
  | inl z ↦ absurd (h.0 ((==_iff x 0).0 z))
  | inr z ↦ rw (z, first_zero-append ps m h.1)
]

-- A block of 0, 2, at least 8 bytes that are not 0, a 0 and a message, of fewer than 2 ^ 31 bytes,
-- is unpadded to the message, whatever the synthetic text of bytes of the length of the message.
pub unpad_padded :
    (ps m synth : Bytes)
    → IsBytes ps
    → IsBytes m
    → IsBytes synth
    → All (λ b. b ≢ 0) ps
    → 8 ≤ length ps
    → length synth ≡ length m
    → 3 + length ps + length m < 2 ^ 31
    → unpad (0 ∷ 2 ∷ ps ++ 0 ∷ m) synth (length m) ≡ m
unfolding reference padding_holds
unpad_padded ps m synth ps_bytes m_bytes synth_bytes nonzero long seed small =
    let em : Bytes = 0 ∷ 2 ∷ ps ++ 0 ∷ m in
    let size : length em ≡ 3 + length ps + length m = omega (arith, length-append ps (0 ∷ m)) in
    let tail_bytes : IsBytes (ps ++ 0 ∷ m) =
      All-append _ ps (0 ∷ m) ps_bytes (omega arith, m_bytes) in
    let start : 3 + length ps ≡ suc (suc (length ps + 1)) = omega arith in
    let message : drop (3 + length ps) em ≡ m =
      ap (λ k. drop k em) start
      ∙ (sym (drop-drop 1 (length ps) (ps ++ 0 ∷ m))
          ∙ ap (λ s. drop 1 s) (drop-append (length ps) ps (0 ∷ m) refl)) in
    let passes : padding_holds em (length ps) (length m) ≡ true = ground arith in
    unpad-reference em synth (length m) (omega arith, (omega arith, tail_bytes)) synth_bytes seed
      (omega arith) (omega arith)
    ∙ rw (first_zero-append ps m nonzero, reference, passes) message
