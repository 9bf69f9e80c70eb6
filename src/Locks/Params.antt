-- ===== src/Locks/Params.antt =====
-- The map of a lock's parameters (cdoc/Lock.h), and the integers in it (cdoc/Lock.cpp).
use libcdoc.Base.{
  ℕ, ◌+◌, ◌*◌, ◌/◌, ◌%◌, ◌^◌, ◌<◌, Bytes, [], ◌∷◌, false, some, ◌==◌, ==_refl, bit_and, bit_or,
  bit_and_mask, bit_or_fields, zero-bit_or, ◌≡◌, ◌∙◌, arith, Bool-cases, inl, inr,
}
use libcdoc.Locks.{
  Param, number, ParamMap, find, put, Lock, set_bytes, int_loop, get_int, shift_eight, int_bytes,
  set_int,
}

pub find-put : (p : Param) (v : Bytes) (m : ParamMap) → find p (put p v m) ≡ some v
unfolding find put
find-put p v [] = rw (==_refl (number p))
find-put p v ((q, w) ∷ m) = elim (Bool-cases (number q == number p)) [
  | inl same ↦ rw (same, find, same)
  | inr other ↦ rw (other, find, other) (find-put p v m)
]

pub find-put_other :
    (p q : Param) (v : Bytes) (m : ParamMap)
    → (number q == number p) ≡ false
    → find p (put q v m) ≡ find p m
unfolding find put
find-put_other p q v [] apart = rw apart
find-put_other p q v ((r, w) ∷ m) apart = elim (Bool-cases (number r == number q)) [
  | inl same ↦ let far : (number r == number p) ≡ false = ground (arith) in rw (same, find, far)
  | inr other ↦ elim (Bool-cases (number r == number p)) [
    | inl hit ↦ rw (other, find, hit)
    | inr miss ↦ rw (other, find, miss) (find-put_other p q v m apart)
  ]
]

-- A round of `getInt` on a value below 2 ^ 24.
add_byte :
    (v x : ℕ) → v < 2 ^ 24 → bit_or (v * 2 ^ 8 % 2 ^ 32) (bit_and x 0xff) ≡ v * 2 ^ 8 + x % 2 ^ 8
add_byte v x h =
    let byte : bit_and x 0xff ≡ x % 2 ^ 8 = bit_and_mask 8 x in
    let whole : v * 2 ^ 8 % 2 ^ 32 ≡ v * 2 ^ 8 = omega arith in
    rw (byte, whole) (bit_or_fields 8 v (x % 2 ^ 8) (omega arith))

-- A shift leaves the next byte lowest, and the rest of the shifts do not see the sign.
shift_lem : (n : ℕ) → n < 2 ^ 32 → (shift_eight n < 2 ^ 32) × (shift_eight n % 2 ^ 24 ≡ n / 2 ^ 8)
unfolding shift_eight
shift_lem n h = ground arith

-- The four bytes of an int32_t are read back as its bit pattern.
int_loop-int_bytes : (n : ℕ) → n < 2 ^ 32 → int_loop 4 0 (int_bytes 4 n []) ≡ n
unfolding int_loop int_bytes
int_loop-int_bytes n h =
    let a = shift_eight n in
    let b = shift_eight a in
    let c = shift_eight b in
    let first : bit_or 0 (bit_and c 0xff) ≡ c % 2 ^ 8 =
      zero-bit_or (bit_and c 0xff) ∙ bit_and_mask 8 c in
    let two = c % 2 ^ 8 * 2 ^ 8 + b % 2 ^ 8 in
    let three = two * 2 ^ 8 + a % 2 ^ 8 in
    let sa = shift_lem n h in
    let sb = shift_lem a sa.0 in
    let sc = shift_lem b sb.0 in
    rw
      (
        first,
        add_byte (c % 2 ^ 8) b (omega arith),
        add_byte two a (omega arith),
        add_byte three n (omega arith),
      )
      (omega (arith, h, sa.1, sb.1, sc.1, sa.0, sb.0))

-- An integer that is set as a parameter of a lock is read back, as the bit pattern of an int32_t.
pub get_int-set_int : (p : Param) (n : ℕ) (l : Lock) → n < 2 ^ 32 → get_int p (set_int p n l) ≡ n
unfolding get_int set_int set_bytes
get_int-set_int p n l h =
    rw (find-put p (int_bytes 4 n []) l.params, get_int) (int_loop-int_bytes n h)
