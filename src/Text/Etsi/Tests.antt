-- ===== src/Text/Etsi/Tests.antt =====
-- An identifier that is taken apart.
use libcdoc.Base.{codes, true, ◌++◌, [], ◌∷◌, ◌≡◌, refl, arith}
use libcdoc.Text.Filename.{to_upper}
use libcdoc.Text.Etsi.{prefix, is_letter, is_digit, every, parse_etsi}
use libcdoc.Text.Etsi.Clean.{IsId, parse_etsi-IsId, parse_etsi_written}

parse_etsi-IsId_example : IsId (parse_etsi (codes "etsi/PNOee-48010010101"))
parse_etsi-IsId_example = parse_etsi-IsId (codes "etsi/PNOee-48010010101")

letters : every is_letter (codes "eE") ≡ true
unfolding every
letters = refl

digits : every is_digit (codes "48010010101") ≡ true
unfolding every
digits = refl

parse_etsi_written_example :
    parse_etsi (prefix ++ (b'e' ∷ b'E' ∷ b'-' ∷ codes "48010010101"))
    ≡ record { country = to_upper b'e' ∷ to_upper b'E' ∷ []; national_id = codes "48010010101" }
parse_etsi_written_example =
    parse_etsi_written b'e' b'E' (codes "48010010101") letters digits (λ e. cc e) (omega arith)
