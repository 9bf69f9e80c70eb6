-- ===== src/Text/Etsi/Clean.antt =====
-- What `parseEtsiRecipientId` (cdoc/Utils.cpp) lets through.
use libcdoc.Base.{
  ℕ, ◌≤◌, Bytes, All, length, take, drop, get_or, length-take, [], ◌∷◌, ◌++◌, map, true, false,
  ◌||◌, ltb, ◌==◌, list_eq, ◌≡◌, ◌≢◌, inl, inr, refl, arith, Bool-cases,
}
use libcdoc.Text.Filename.{to_upper}
use libcdoc.Text.Etsi.{
  EtsiRecipientId, no_id, prefix, is_letter, is_digit, every, parse_parts, parse_etsi,
}

abbrev pub IsDigit : ℕ → Type 0
IsDigit c = (b'0' ≤ c) × (c ≤ b'9')

abbrev pub IsUpper : ℕ → Type 0
IsUpper c = (b'A' ≤ c) × (c ≤ b'Z')

every-IsDigit : (s : Bytes) → every is_digit s ≡ true → All IsDigit s
unfolding every
every-IsDigit [] h = tt
every-IsDigit (c ∷ s) h = (ground arith, every-IsDigit s (ground arith))

every-IsUpper : (s : Bytes) → every is_letter s ≡ true → All IsUpper (map to_upper s)
unfolding every to_upper
every-IsUpper [] h = tt
every-IsUpper (c ∷ s) h = (ground arith, every-IsUpper s (ground arith))

length-map_upper : (s : Bytes) → length (map to_upper s) ≡ length s
length-map_upper [] = refl
length-map_upper (c ∷ s) = omega (arith, length-map_upper s)

-- Two capital letters and 1 to 32 digits.
pub record IsId (e : EtsiRecipientId) : Type 0 where
  pub letters : All IsUpper e.country
  pub two : length e.country ≤ 2
  pub digits : All IsDigit e.national_id
  pub short : length e.national_id ≤ 32

no_id-IsId : IsId no_id
no_id-IsId = record { letters = tt; two = omega arith; digits = tt; short = omega arith }

parse_parts-IsId :
    (cc : Bytes) (separator : ℕ) (nat_id : Bytes)
    → length cc ≤ 2
    → IsId (parse_parts cc separator nat_id)
unfolding parse_parts
parse_parts-IsId cc separator nat_id two = elim (Bool-cases (every is_letter cc)) [
  | inr bad ↦ rw bad no_id-IsId
  | inl letters ↦ elim (Bool-cases (separator == b'-')) [
    | inr bad ↦ rw (letters, bad) no_id-IsId
    | inl dash ↦ elim (Bool-cases (list_eq nat_id [] || ltb 32 (length nat_id))) [
      | inl bad ↦ rw (letters, dash, bad) no_id-IsId
      | inr fits ↦ elim (Bool-cases (every is_digit nat_id)) [
        | inr bad ↦ rw (letters, dash, fits, bad) no_id-IsId
        | inl digits ↦
            let short : length nat_id ≤ 32 = ground arith in
            rw (letters, dash, fits, digits)
              record {
                letters = every-IsUpper cc letters;
                two = omega (arith, length-map_upper cc);
                digits = every-IsDigit nat_id digits;
                short = short;
              }
      ]
    ]
  ]
]

-- Whatever the identifier, the country that parseEtsiRecipientId gives has at most two letters,
-- which are capitals, and the national id at most 32 characters, which are digits.
pub parse_etsi-IsId : (rcpt_id : Bytes) → IsId (parse_etsi rcpt_id)
unfolding parse_etsi
parse_etsi-IsId rcpt_id = elim (Bool-cases (ltb (length rcpt_id) 12)) [
  | inl short ↦ rw short no_id-IsId
  | inr long ↦ elim (Bool-cases (list_eq (take 8 rcpt_id) prefix)) [
    | inr bad ↦ rw (long, bad) no_id-IsId
    | inl good ↦
        rw (long, good)
          (parse_parts-IsId (take 2 (drop 8 rcpt_id)) (get_or rcpt_id 10 0) (drop 11 rcpt_id)
            (omega (arith, length-take 2 (drop 8 rcpt_id))))
  ]
]

-- An identifier of the prefix, two letters, a dash and 1 to 32 digits is taken apart, with the
-- letters as capitals.
pub parse_etsi_written :
    (a b : ℕ) (nat_id : Bytes)
    → every is_letter (a ∷ b ∷ []) ≡ true
    → every is_digit nat_id ≡ true
    → nat_id ≢ []
    → length nat_id ≤ 32
    → parse_etsi (prefix ++ (a ∷ b ∷ b'-' ∷ nat_id))
      ≡ record { country = to_upper a ∷ to_upper b ∷ []; national_id = nat_id }
unfolding parse_etsi parse_parts
parse_etsi_written a b [] letters digits full short = absurd (full refl)
parse_etsi_written a b (c ∷ nat_id) letters digits full short =
    let long : ltb (length (prefix ++ (a ∷ b ∷ b'-' ∷ c ∷ nat_id))) 12 ≡ false = ground arith in
    let fits : ltb 32 (length (c ∷ nat_id)) ≡ false = ground arith in
    rw (long, letters, fits, digits)
