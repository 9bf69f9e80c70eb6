-- ===== src/Text/Etsi.antt =====
-- `parseEtsiRecipientId` of cdoc/Utils.cpp: a country and a national id behind a fixed prefix.
pub mod Clean
mod Tests
use libcdoc.Base.{
  ℕ, ◌+◌, ◌-◌, Bytes, codes, length, take, drop, get_or, [], ◌∷◌, map, Bool, true, false, not, ◌&&◌,
  ◌||◌, ltb, leb, ◌==◌, list_eq, if◌then◌else◌,
}
use libcdoc.Text.Filename.{to_upper}

pub record EtsiRecipientId : Type 0 where
  pub country : Bytes
  pub national_id : Bytes

-- `return {}`.
abbrev pub no_id : EtsiRecipientId
no_id = record { country = []; national_id = [] }

abbrev pub prefix : Bytes
prefix = codes "etsi/PNO"

abbrev pub is_letter : ℕ → Bool
is_letter c = (leb b'A' c && leb c b'Z') || (leb b'a' c && leb c b'z')

abbrev pub is_digit : ℕ → Bool
is_digit c = leb b'0' c && leb c b'9'

unfoldable pub every : (ℕ → Bool) → Bytes → Bool
every test [] = true
every test (c ∷ s) = test c && every test s

-- The checks behind the length and the prefix.
unfoldable pub parse_parts : Bytes → ℕ → Bytes → EtsiRecipientId
parse_parts cc separator nat_id =
    if not (every is_letter cc)
    then no_id
    else if not (separator == b'-')
    then no_id
    else if list_eq nat_id [] || ltb 32 (length nat_id)
    then no_id
    else if not (every is_digit nat_id)
    then no_id
    else record { country = map to_upper cc; national_id = nat_id }

unfoldable pub parse_etsi : Bytes → EtsiRecipientId
parse_etsi rcpt_id =
    if ltb (length rcpt_id) (length prefix + 2 + 1 + 1)
    then no_id
    else if not (list_eq (take 8 rcpt_id) prefix)
    then no_id
    else parse_parts (take 2 (drop 8 rcpt_id)) (get_or rcpt_id 10 0) (drop 11 rcpt_id)
