-- ===== src/Tar/Pax/Width.antt =====
-- How many characters `std::to_string` gives.
use libcdoc.Base.{
  ℕ, zero, suc, ◌+◌, ◌/◌, ◌%◌, ◌^◌, ◌≤◌, ◌<◌, Bytes, length, [], ◌∷◌, false, ltb, if◌then◌else◌,
  ◌≡◌, ap, arith, lt_wf, le→ltb,
}
use mathlib.Core.WellFounded
use native.Mathlib.Decide.{dec_lt}
use native.Mathlib.Nat.{pow-suc}
use libcdoc.Tar.Pax.{decimal_loop, to_string}

-- The number of decimal digits, by recursion on fuel.
width_loop : ℕ → ℕ → ℕ
width_loop zero n = 0
width_loop (suc fuel) n = let rest = width_loop fuel (n / 10) in if ltb n 10 then 1 else rest + 1

pub width : ℕ → ℕ
unfolding width_loop
width n = width_loop (n + 1) n

length-decimal_loop :
    (fuel n : ℕ) (done : Bytes)
    → length (decimal_loop fuel n done) ≡ width_loop fuel n + length done
unfolding decimal_loop width_loop
length-decimal_loop zero n done = omega arith
length-decimal_loop (suc fuel) n done =
    ground (arith, length-decimal_loop fuel (n / 10) ((b'0' + n % 10) ∷ done))

pub length-to_string : (n : ℕ) → length (to_string n) ≡ width n
unfolding to_string width
length-to_string n = omega (arith, length-decimal_loop (n + 1) n [])

width_loop_fuel : (f g n : ℕ) → n < f → n < g → width_loop f n ≡ width_loop g n
unfolding width_loop
width_loop_fuel zero g n p q = absurd (omega arith)
width_loop_fuel (suc f) zero n p q = absurd (omega arith)
width_loop_fuel (suc f) (suc g) n p q = ground (arith, width_loop_fuel f g (n / 10))

pub width_small : (n : ℕ) → n < 10 → width n ≡ 1
unfolding width width_loop
width_small n h = let e : n + 1 ≡ suc n = omega arith in rw e (ground arith)

pub width_large : (n : ℕ) → 10 ≤ n → width n ≡ width (n / 10) + 1
unfolding width
width_large n h =
    let e : n + 1 ≡ suc n = omega arith in
    let large : ltb n 10 ≡ false = le→ltb n 10 h in
    rw (e, width_loop, large)
      (omega (arith, width_loop_fuel n (n / 10 + 1) (n / 10) (omega arith) (omega arith)))

-- A number one greater has as many digits or one more.
pub width_step : (n : ℕ) → (width n ≤ width (n + 1)) × (width (n + 1) ≤ width n + 1)
width_step n =
    WellFounded.induction lt_wf {C = λ k. (width k ≤ width (k + 1)) × (width (k + 1) ≤ width k + 1)}
      n divide
  where
    divide :
        (k : ℕ)
        → ((m : ℕ) → m < k → (width m ≤ width (m + 1)) × (width (m + 1) ≤ width m + 1))
        → (width k ≤ width (k + 1)) × (width (k + 1) ≤ width k + 1)
    divide k ih = elim (dec_lt k 10) [
      | yes small ↦ elim (dec_lt (k + 1) 10) [
        | yes next_small ↦ omega (arith, width_small k small, width_small (k + 1) next_small)
        | no next_large ↦
            let one : (k + 1) / 10 ≡ 1 = omega arith in
            let tenth : width ((k + 1) / 10) ≡ 1 = rw one (width_small 1 (omega arith)) in
            omega (arith, width_small k small, width_large (k + 1) (omega arith), tenth)
      ]
      | no large ↦
          let below = width_large k (omega arith) in
          let above = width_large (k + 1) (omega arith) in
          elim (dec_lt (k % 10) 9) [
            | yes same ↦
                let e : (k + 1) / 10 ≡ k / 10 = omega arith in
                omega (arith, below, above, ap width e)
            | no carry ↦
                let e : (k + 1) / 10 ≡ k / 10 + 1 = omega arith in
                omega (arith, below, above, ap width e, ih (k / 10) (omega arith))
          ]
    ]

pub width-le : (k n : ℕ) → n < 10 ^ suc k → width n ≤ suc k
width-le zero n h = omega (arith, width_small n (omega arith))
width-le (suc k) n h = elim (dec_lt n 10) [
  | yes small ↦ omega (arith, width_small n small)
  | no large ↦
      omega (
        arith,
        width_large n (omega arith),
        width-le k (n / 10) (omega (arith, pow-suc 10 (suc k))),
      )
]

pub one-le-width : (n : ℕ) → 1 ≤ width n
one-le-width n = elim (dec_lt n 10) [
  | yes small ↦ omega (arith, width_small n small)
  | no large ↦ omega (arith, width_large n (omega arith))
]
