-- ===== src/Base/Words.antt =====
-- Bit operations on machine words: the masks 0 and all ones at every width, and tables on bytes.
mod Step
use Step.{bit_and_step, bit_or_step, bit_xor_step}
use Prim.Native.Nat.{
  ℕ, zero, suc, ◌+◌, ◌-◌, ◌*◌, ◌/◌, ◌%◌, ◌^◌, ◌<◌, ◌≤◌, bit_and, bit_or, bit_xor, differ,
}
use mathlib.Core.Path.{◌≡◌, refl, sym, ap, ◌∙◌}
use mathlib.Core.Bool.{Bool, true, ◌&&◌}
use mathlib.Core.WellFounded
use native.Mathlib.Nat.{pow-suc, one-le-pow}
use native.Mathlib.Omega.{arith}
use libcdoc.Base.Order.{lt_wf}

-- Strong induction on a number, by its half.
pub by_halves : (P : ℕ → Type 0) → P 0 → ((n : ℕ) → P (suc n / 2) → P (suc n)) → (x : ℕ) → P x
by_halves P base halve x = WellFounded.induction lt_wf {C = P} x go
  where
    go : (n : ℕ) → ((m : ℕ) → m < n → P m) → P n
    go zero below = base
    go (suc n) below = halve n (below (suc n / 2) (omega arith))

pub bit_or-zero : (x : ℕ) → bit_or x 0 ≡ x
bit_or-zero = by_halves (λ n. bit_or n 0 ≡ n) refl (λ n h. omega (arith, bit_or_step (suc n) 0, h))

pub zero-bit_or : (x : ℕ) → bit_or 0 x ≡ x
zero-bit_or x = omega (arith, Step.zero-bit_or_lem x)

pub bit_and-zero : (x : ℕ) → bit_and x 0 ≡ 0
bit_and-zero =
    by_halves (λ n. bit_and n 0 ≡ 0) refl (λ n h. omega (arith, bit_and_step (suc n) 0, h))

-- Masking a number of a high part and a low part of w bits by w ones leaves the low part.
keep_low : (w high low : ℕ) → low < 2 ^ w → bit_and (high * 2 ^ w + low) (2 ^ w - 1) ≡ low
keep_low zero high low small =
    let nothing = bit_and-zero (high * 2 ^ 0 + low) in omega (arith, nothing)
keep_low (suc w) high low small =
    let twice : high * 2 ^ suc w ≡ 2 * (high * 2 ^ w) =
      omega (arith, ap (λ (p : ℕ). high * p) (pow-suc 2 w)) in
    let below = keep_low w high (low / 2) (omega (arith, pow-suc 2 w)) in
    let digit = bit_and_step (high * 2 ^ suc w + low) (2 ^ suc w - 1) in
    ground (arith, digit, twice, below, pow-suc 2 w)

-- A high part and a low part of w bits are put together by their sum.
pub bit_or_fields : (w high low : ℕ) → low < 2 ^ w → bit_or (high * 2 ^ w) low ≡ high * 2 ^ w + low
bit_or_fields zero high low small =
    let nothing : low ≡ 0 = omega arith in rw nothing (bit_or-zero (high * 2 ^ 0) ∙ omega arith)
bit_or_fields (suc w) high low small =
    let twice : high * 2 ^ suc w ≡ 2 * (high * 2 ^ w) =
      omega (arith, ap (λ (p : ℕ). high * p) (pow-suc 2 w)) in
    let below = bit_or_fields w high (low / 2) (omega (arith, pow-suc 2 w)) in
    let digit = bit_or_step (high * 2 ^ suc w) low in ground (arith, digit, twice, below)

-- Masking by w ones is the remainder by 2 ^ w.
pub bit_and_mask : (w x : ℕ) → bit_and x (2 ^ w - 1) ≡ x % 2 ^ w
bit_and_mask w x =
    let split = keep_low w (x / 2 ^ w) (x % 2 ^ w) in ground (arith, split, one-le-pow w 2)

-- A test of every number below a limit, by evaluation.
unfoldable pub all_below : ℕ → (ℕ → Bool) → Bool
all_below zero test = true
all_below (suc limit) test = all_below limit test && test limit

pub all_below_sound :
    (limit : ℕ) (test : ℕ → Bool) (i : ℕ) → all_below limit test ≡ true → i < limit → test i ≡ true
unfolding all_below
all_below_sound zero test i passed below = absurd (omega arith)
all_below_sound (suc limit) test i passed below =
    let earlier = all_below_sound limit test i in ground (arith, earlier)

pub zero-bit_and : (b : ℕ) → bit_and 0 b ≡ 0
zero-bit_and b = Step.zero-bit_and_lem b

differ_digits :
    (x y : ℕ) → x < 2 → y < 2 → (differ x y ≡ 0 → x ≡ y) × (differ x x ≡ 0) × (differ x y < 2)
differ_digits zero zero p q = (λ h. refl, refl, omega arith)
differ_digits zero (suc y) p q = (λ h. sym h, refl, q)
differ_digits (suc zero) zero p q = (λ h. h, refl, omega arith)
differ_digits (suc zero) (suc zero) p q = (λ h. refl, refl, omega arith)
differ_digits (suc zero) (suc (suc y)) p q = absurd (omega arith)
differ_digits (suc (suc x)) y p q = absurd (omega arith)

-- Two words are equal when no bit of them differs.
pub bit_xor-eq_zero : (a b : ℕ) → bit_xor a b ≡ 0 → a ≡ b
bit_xor-eq_zero =
    by_halves (λ n. (b : ℕ) → bit_xor n b ≡ 0 → n ≡ b)
      (λ b h. omega (arith, h, Step.zero-bit_xor_lem b))
      (λ n ih b h.
        let s = bit_xor_step (suc n) b in
        let high : bit_xor (suc n / 2) (b / 2) ≡ 0 = omega (arith, s, h) in
        let low : differ (suc n % 2) (b % 2) ≡ 0 = omega (arith, s, h) in
        omega (
          arith,
          ih (b / 2) high,
          (differ_digits (suc n % 2) (b % 2) (omega arith) (omega arith)).0 low,
        ))

pub bit_xor_self : (a : ℕ) → bit_xor a a ≡ 0
bit_xor_self =
    by_halves (λ n. bit_xor n n ≡ 0) refl
      (λ n h. omega (
        arith,
        bit_xor_step (suc n) (suc n),
        h,
        (differ_digits (suc n % 2) (suc n % 2) (omega arith) (omega arith)).1,
      ))

pub bit_xor-lt : (k a b : ℕ) → a < 2 ^ k → b < 2 ^ k → bit_xor a b < 2 ^ k
bit_xor-lt zero a b p q =
    let ea : a ≡ 0 = omega arith in let eb : b ≡ 0 = omega arith in rw (ea, eb) (omega arith)
bit_xor-lt (suc k) a b p q = omega (
  arith,
  bit_xor_step a b,
  pow-suc 2 k,
  bit_xor-lt k (a / 2) (b / 2) (omega (arith, pow-suc 2 k)) (omega (arith, pow-suc 2 k)),
  (differ_digits (a % 2) (b % 2) (omega arith) (omega arith)).2,
)

differ_twice : (x y : ℕ) → x < 2 → y < 2 → differ (differ x y) y ≡ x
differ_twice zero zero p q = refl
differ_twice zero (suc zero) p q = refl
differ_twice (suc zero) zero p q = refl
differ_twice (suc zero) (suc zero) p q = refl
differ_twice zero (suc (suc y)) p q = absurd (omega arith)
differ_twice (suc zero) (suc (suc y)) p q = absurd (omega arith)
differ_twice (suc (suc x)) y p q = absurd (omega arith)

-- A word that is taken away by exclusive or as it was put there.
pub bit_xor_twice : (a b : ℕ) → bit_xor (bit_xor a b) b ≡ a
bit_xor_twice =
    by_halves (λ n. (b : ℕ) → bit_xor (bit_xor n b) b ≡ n)
      (λ b. rw (Step.zero-bit_xor_lem b) (bit_xor_self b))
      (λ n ih b.
        let s = bit_xor_step (suc n) b in
        let small = (differ_digits (suc n % 2) (b % 2) (omega arith) (omega arith)).2 in
        let low : bit_xor (suc n) b % 2 ≡ differ (suc n % 2) (b % 2) = omega (arith, s, small) in
        let high : bit_xor (suc n) b / 2 ≡ bit_xor (suc n / 2) (b / 2) = omega (arith, s, small) in
        let t : bit_xor (bit_xor (suc n) b) b
            ≡ differ (differ (suc n % 2) (b % 2)) (b % 2)
              + 2 * bit_xor (bit_xor (suc n / 2) (b / 2)) (b / 2) =
          bit_xor_step (bit_xor (suc n) b) b ∙ rw (low, high) refl in
        omega (arith, t, differ_twice (suc n % 2) (b % 2) (omega arith) (omega arith), ih (b / 2)))

differ_swap : (x y z : ℕ) → x < 2 → y < 2 → z < 2 → differ (differ x y) z ≡ differ (differ x z) y
differ_swap zero zero zero p q r = refl
differ_swap zero zero (suc zero) p q r = refl
differ_swap zero (suc zero) zero p q r = refl
differ_swap zero (suc zero) (suc zero) p q r = refl
differ_swap (suc zero) zero zero p q r = refl
differ_swap (suc zero) zero (suc zero) p q r = refl
differ_swap (suc zero) (suc zero) zero p q r = refl
differ_swap (suc zero) (suc zero) (suc zero) p q r = refl
differ_swap (suc (suc x)) y z p q r = absurd (omega arith)
differ_swap zero (suc (suc y)) z p q r = absurd (omega arith)
differ_swap (suc zero) (suc (suc y)) z p q r = absurd (omega arith)
differ_swap zero zero (suc (suc z)) p q r = absurd (omega arith)
differ_swap zero (suc zero) (suc (suc z)) p q r = absurd (omega arith)
differ_swap (suc zero) zero (suc (suc z)) p q r = absurd (omega arith)
differ_swap (suc zero) (suc zero) (suc (suc z)) p q r = absurd (omega arith)

-- Two steps of an exclusive or in one equation.
bit_xor_two_steps :
    (x y z : ℕ)
    → bit_xor (bit_xor x y) z
      ≡ differ (differ (x % 2) (y % 2)) (z % 2) + 2 * bit_xor (bit_xor (x / 2) (y / 2)) (z / 2)
bit_xor_two_steps x y z =
    let s = bit_xor_step x y in
    let small = (differ_digits (x % 2) (y % 2) (omega arith) (omega arith)).2 in
    let low : bit_xor x y % 2 ≡ differ (x % 2) (y % 2) = omega (arith, s, small) in
    let high : bit_xor x y / 2 ≡ bit_xor (x / 2) (y / 2) = omega (arith, s, small) in
    bit_xor_step (bit_xor x y) z ∙ rw (low, high) refl

swap_below :
    (n a b c : ℕ) → a ≤ n → b ≤ n → c ≤ n → bit_xor (bit_xor a b) c ≡ bit_xor (bit_xor a c) b
swap_below zero a b c p q r =
    let ea : a ≡ 0 = omega arith in
    let eb : b ≡ 0 = omega arith in let ec : c ≡ 0 = omega arith in rw (ea, eb, ec) refl
swap_below (suc n) a b c p q r = omega (
  arith,
  bit_xor_two_steps a b c,
  bit_xor_two_steps a c b,
  differ_swap (a % 2) (b % 2) (c % 2) (omega arith) (omega arith) (omega arith),
  swap_below n (a / 2) (b / 2) (c / 2) (omega arith) (omega arith) (omega arith),
)

-- Two words may be put in by exclusive or in either order.
pub bit_xor_swap : (a b c : ℕ) → bit_xor (bit_xor a b) c ≡ bit_xor (bit_xor a c) b
bit_xor_swap a b c = swap_below (a + b + c) a b c (omega arith) (omega arith) (omega arith)

pub zero-bit_xor : (b : ℕ) → bit_xor 0 b ≡ b
zero-bit_xor b = Step.zero-bit_xor_lem b
