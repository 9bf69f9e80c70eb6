-- ===== src/Tar/Pax/Fixpoint.antt =====
-- The loop of `toPaxRecord` (cdoc/Tar.cpp) looks for a number that counts its own digits.
mod Tests
use libcdoc.Base.{
  ℕ, zero, suc, ◌+◌, ◌-◌, ◌/◌, ◌%◌, ◌^◌, ◌≤◌, ◌<◌, Bytes, length, length-append, [], ◌∷◌, ◌++◌,
  true, false, Option, none, some, ◌==◌, ==_iff, if◌then◌else◌, ◌≡◌, ◌≢◌, refl, ap, ◌∙◌, arith,
  Bool-cases, inl, inr, length-append,
}
use libcdoc.Tar.Pax.{to_string, pax_loop, pax_text, to_pax_record}
use libcdoc.Tar.Pax.Width.{
  width, length-to_string, width_step, width-le, width_small, width_large, one-le-width,
}

-- A record whose number is the length of the whole record.
abbrev pub Counts : Option Bytes → Bytes → Type 0
Counts result text =
    (m : ℕ) × (result ≡ some (to_string m ++ text)) × (length (to_string m ++ text) ≡ m)

round_length :
    (len : ℕ) (text : Bytes) → length (to_string (len + 1) ++ text) ≡ width (len + 1) + length text
round_length len text =
    omega (arith, length-append (to_string (len + 1)) text, length-to_string (len + 1))

wraps_not : (n : ℕ) → n < 2 ^ 64 → n % 2 ^ 64 ≡ n
wraps_not n small = omega (arith, small)

pax_loop_total :
    (fuel len : ℕ) (text : Bytes)
    → len + 1 ≤ length text + width (len + 1)
    → length text + 20 < len + fuel
    → length text < 10 ^ 19
    → len + 1 < 10 ^ 20
    → Counts (pax_loop fuel len text) text
unfolding pax_loop
pax_loop_total zero len text below enough short bound =
    absurd (omega (arith, width-le 19 (len + 1) bound))
pax_loop_total (suc fuel) len text below enough short bound =
    let inside : (len + 1) % 2 ^ 64 ≡ len + 1 =
      wraps_not (len + 1) (omega (arith, width-le 19 (len + 1) bound)) in
    elim (Bool-cases (length (to_string (len + 1) ++ text) == len + 1)) [
      | inl hit ↦ (len + 1, rw (inside, hit), (==_iff _ (len + 1)).0 hit)
      | inr miss ↦
          let far : width (len + 1) + length text ≢ len + 1 =
            λ e. cc ((==_iff _ (len + 1)).1 (round_length len text ∙ e), miss) in
          rw (inside, miss)
            (pax_loop_total fuel (len + 1) text (omega (arith, far, width_step (len + 1)))
              (omega arith) short (omega (arith, far, width-le 19 (len + 1) bound)))
    ]

length-pax_text :
    (keyword value : Bytes) → length (pax_text keyword value) ≡ length keyword + length value + 3
unfolding pax_text
length-pax_text keyword value =
    omega (
      arith,
      length-append keyword (b'=' ∷ (value ++ b'\n' ∷ [])),
      length-append value (b'\n' ∷ []),
    )

-- With a keyword and a value of at least 5 characters together and fewer than 10 ^ 18, 22 rounds
-- are enough for toPaxRecord, and the record begins with its own length.
pub to_pax_record_total :
    (fuel : ℕ) (keyword value : Bytes)
    → 22 ≤ fuel
    → 5 ≤ length keyword + length value
    → length keyword + length value < 10 ^ 18
    → Counts (to_pax_record fuel keyword value) (pax_text keyword value)
unfolding to_pax_record
to_pax_record_total fuel keyword value enough long short =
    let text = pax_text keyword value in
    let size = length-pax_text keyword value in
    pax_loop_total fuel (length text + 1) text
      (omega (
        arith,
        size,
        width_large (length text + 1 + 1) (omega (arith, size)),
        one-le-width ((length text + 1 + 1) / 10),
      ))
      (omega arith) (omega (arith, size)) (omega (arith, size))

pax_loop_goes_on :
    (fuel len : ℕ) (text : Bytes)
    → length text + width (len + 1) < len + 1
    → len + fuel < 2 ^ 64
    → pax_loop fuel len text ≡ none
unfolding pax_loop
pax_loop_goes_on zero len text past room = refl
pax_loop_goes_on (suc fuel) len text past room =
    let inside : (len + 1) % 2 ^ 64 ≡ len + 1 = wraps_not (len + 1) (omega arith) in
    let miss : (length (to_string (len + 1) ++ text) == len + 1) ≡ false =
      ground (arith, round_length len text) in
    rw (inside, miss)
      (pax_loop_goes_on fuel (len + 1) text (omega (arith, width_step (len + 1))) (omega arith))

-- With a keyword and a value of at most 4 characters together, toPaxRecord has not ended after any
-- number of rounds up to 2 ^ 64 - 9: its counter has passed the length of the record, and goes on
-- to the end of its range.
pub to_pax_record_goes_on :
    (fuel : ℕ) (keyword value : Bytes)
    → length keyword + length value ≤ 4
    → fuel + 9 ≤ 2 ^ 64
    → to_pax_record fuel keyword value ≡ none
unfolding to_pax_record
to_pax_record_goes_on fuel keyword value short room =
    let text = pax_text keyword value in
    let size = length-pax_text keyword value in
    pax_loop_goes_on fuel (length text + 1) text
      (omega (arith, size, width_small (length text + 1 + 1) (omega (arith, size))))
      (omega (arith, size))
