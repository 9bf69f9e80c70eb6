-- ===== src/Unpad/Scan.antt =====
-- The loops of `unpadPKCS1v15CT` (cdoc/Crypto.cpp), their masks read as truth values.
use libcdoc.Base.{
  ℕ, zero, suc, ◌+◌, ◌-◌, ◌^◌, ◌≤◌, ◌<◌, Bytes, IsBytes, length, drop, take, get_or, [], ◌∷◌,
  bit_and, bit_or, bit_and_mask, bit_and-zero, zero-bit_and, bit_or-zero, zero-bit_or, Bool, true,
  false, not, ◌&&◌, ◌||◌, leb, ◌==◌, if◌then◌else◌, Option, none, some, ◌≡◌, refl, ap, ap₂, ◌∙◌,
  arith, Bool-cases, inl, inr,
}
use mathlib.Core.Option
use libcdoc.Ct.{not8, ge_size}
use libcdoc.Ct.Masks.{mask_of, eq8_lem, ge_size_lem, select}
use libcdoc.Unpad.{spread, mux, find_zero, copy_out}

pub and-mask_of : (p q : Bool) → bit_and (mask_of p) (mask_of q) ≡ mask_of (p && q)
and-mask_of true true = refl
and-mask_of true false = refl
and-mask_of false q = zero-bit_and (mask_of q)

or-mask_of : (p q : Bool) → bit_or (mask_of p) (mask_of q) ≡ mask_of (p || q)
or-mask_of true true = refl
or-mask_of true false = refl
or-mask_of false q = zero-bit_or (mask_of q)

latch-mask_of : (z f : Bool) → bit_and (mask_of z) (not8 (mask_of f)) ≡ mask_of (z && not f)
latch-mask_of true true = refl
latch-mask_of false true = refl
latch-mask_of true false = refl
latch-mask_of false false = refl

mux_lem :
    (b : Bool) (x y : ℕ)
    → x < 2 ^ 64
    → y < 2 ^ 64
    → mux (spread (mask_of b)) x y ≡ (if b then x else y)
unfolding mux spread
mux_lem true x y p q = rw (bit_and-zero y, bit_or-zero) (omega (arith, bit_and_mask 64 x))
mux_lem false x y p q = rw (bit_and-zero x, zero-bit_or) (omega (arith, bit_and_mask 64 y))

-- The index of the first zero.
unfoldable pub first_zero : Bytes → Option ℕ
first_zero [] = none
first_zero (x ∷ xs) = if x == 0 then some 0 else Option.map suc (first_zero xs)

find_zero_round :
    (i x idx : ℕ) (em : Bytes) (f : Bool)
    → x < 2 ^ 8
    → i < 2 ^ 64
    → idx < 2 ^ 64
    → find_zero i (x ∷ em) idx (mask_of f)
      ≡ find_zero (i + 1) em (if (x == 0) && not f then i else idx) (mask_of (f || (x == 0)))
unfolding find_zero
find_zero_round i x idx em f hx hi hidx = rw (
  eq8_lem x 0 hx (omega arith),
  latch-mask_of (x == 0) f,
  mux_lem ((x == 0) && not f) i idx hi hidx,
  or-mask_of f (x == 0),
)

-- Once a zero is found the index stays.
find_zero_found :
    (i idx : ℕ) (em : Bytes)
    → IsBytes em
    → i + length em < 2 ^ 64
    → idx < 2 ^ 64
    → find_zero i em idx 0xff ≡ (idx, 0xff)
find_zero_found i idx [] bs hi hidx = unfold find_zero in refl
find_zero_found i idx (x ∷ em) bs hi hidx = elim (Bool-cases (x == 0)) [
  | inl z ↦
      find_zero_round i x idx em true bs.0 (omega arith) hidx
      ∙ rw z (find_zero_found (i + 1) idx em bs.1 (omega arith) hidx)
  | inr z ↦
      find_zero_round i x idx em true bs.0 (omega arith) hidx
      ∙ rw z (find_zero_found (i + 1) idx em bs.1 (omega arith) hidx)
]

abbrev pub located : ℕ → Option ℕ → ℕ × ℕ
located i none = (0, 0)
located i (some k) = (i + k, 0xff)

located-suc : (i : ℕ) (o : Option ℕ) → located (i + 1) o ≡ located i (Option.map suc o)
located-suc i none = refl
located-suc i (some k) = let e : i + 1 + k ≡ i + suc k = omega arith in ap (λ n. (n, 255)) e

-- The loop finds the first zero, wherever it is.
pub find_zero_lem :
    (i : ℕ) (em : Bytes)
    → IsBytes em
    → i + length em < 2 ^ 64
    → find_zero i em 0 0 ≡ located i (first_zero em)
unfolding first_zero
find_zero_lem i [] bs hi = unfold find_zero first_zero in refl
find_zero_lem i (x ∷ em) bs hi = elim (Bool-cases (x == 0)) [
  | inl z ↦
      find_zero_round i x 0 em false bs.0 (omega arith) (omega arith)
      ∙ rw z (find_zero_found (i + 1) i em bs.1 (omega arith) (omega arith) ∙ start_here)
  | inr z ↦
      find_zero_round i x 0 em false bs.0 (omega arith) (omega arith)
      ∙ rw z (find_zero_lem (i + 1) em bs.1 (omega arith) ∙ located-suc i (first_zero em))
]
  where
    start_here : Path (ℕ × ℕ) (i, 255) (i + 0, 255)
    start_here = let e : i ≡ i + 0 = omega arith in ap (λ n. (n, 255)) e

get_or-lt : (em : Bytes) (i : ℕ) → IsBytes em → get_or em i 0 < 2 ^ 8
get_or-lt [] i bs = omega arith
get_or-lt (x ∷ em) zero bs = bs.0
get_or-lt (x ∷ em) (suc i) bs = get_or-lt em i bs.1

take-suc-drop :
    (n i : ℕ) (em : Bytes)
    → i < length em
    → get_or em i 0 ∷ take n (drop (i + 1) em) ≡ take (suc n) (drop i em)
take-suc-drop n i [] h = absurd (omega arith)
take-suc-drop n zero (x ∷ em) h =
    let e : 0 + 1 ≡ suc 0 = omega arith in ap (λ k. x ∷ take n (drop k (x ∷ em))) e
take-suc-drop n (suc i) (x ∷ em) h =
    let e : suc i + 1 ≡ suc (i + 1) = omega arith in
    ap (λ k. get_or em i 0 ∷ take n (drop k (x ∷ em))) e ∙ take-suc-drop n i em (omega arith)

module _ (em synth : Bytes) (msg_off : ℕ) (em_bytes : IsBytes em)
    (synth_bytes : IsBytes synth) where
  -- With a mask of 0 the synthetic text is copied.
  pub copy_out_synth :
      (i left : ℕ)
      → i + left ≤ length synth
      → copy_out em synth msg_off 0 i left ≡ take left (drop i synth)
  unfolding copy_out
  copy_out_synth i zero h = refl
  copy_out_synth i (suc left) h =
      ap₂ ◌∷◌
        (select _ (get_or synth i 0) false (get_or-lt em _ em_bytes)
          (get_or-lt synth i synth_bytes))
        (copy_out_synth (i + 1) left (omega arith))
      ∙ take-suc-drop left i synth (omega arith)

  -- With a mask of 0xff the message is copied, and no read is clamped.
  pub copy_out_message :
      (i left : ℕ)
      → msg_off + i + left ≤ length em
      → length em < 2 ^ 63
      → copy_out em synth msg_off 0xff i left ≡ take left (drop (msg_off + i) em)
  unfolding copy_out
  copy_out_message i zero h small = refl
  copy_out_message i (suc left) h small =
      let src : ℕ = msg_off + i in
      let last : ℕ = length em - 1 in
      let within : leb src last ≡ true = ground arith in
      let in_range : ge_size last src ≡ mask_of true =
        ge_size_lem last src (omega arith) (omega arith) ∙ ap mask_of within in
      let safe : mux (spread (ge_size last src)) src last ≡ src =
        ap (λ m. mux (spread m) src last) in_range
        ∙ mux_lem true src last (omega arith) (omega arith) in
      let next : msg_off + (i + 1) ≡ src + 1 = omega arith in
      rw safe (
        ap₂ ◌∷◌
          (select (get_or em src 0) (get_or synth i 0) true (get_or-lt em src em_bytes)
            (get_or-lt synth i synth_bytes))
          (copy_out_message (i + 1) left (omega arith) small ∙ ap (λ k. take left (drop k em)) next)
        ∙ take-suc-drop left src em (omega arith))
