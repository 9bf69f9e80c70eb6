-- ===== src/Recipients/Tests.antt =====
-- A password's recipient, and a label.
use libcdoc.Base.{ℕ, ◌≤◌, codes, [], ◌∷◌, true, false, All, none, inr, arith, ◌≡◌, ◌⊎◌, refl}
use libcdoc.Locks.{ecc, secp_384_r1}
use libcdoc.Locks.Build.{is_bad_iteration}
use libcdoc.Text.Url.{url_encode, encode_char, is_alnum}
use libcdoc.Recipients.{
  Recipient, Properties, symmetric_key, public_key, validate, contains, is_out_of_range, get_label,
  label_parts, label_part, extra_parts, lookup, erase,
}
use libcdoc.Locks.Label.{lower_char, parse_label}
use libcdoc.Recipients.Labels.{IsPlain}
use libcdoc.Recipients.Merged.{IsMap, shown}
use libcdoc.Recipients.Kept.{lookup-parse_label}
use libcdoc.Recipients.Iterations.{validate-iterations}

abbrev password : Recipient
password = record {
  type = symmetric_key;
  pk_type = ecc;
  ec_type = secp_384_r1;
  kdf_iter = 200000;
  label = [];
  rcpt_key = [];
  cert = [];
  id = [];
  server_id = [];
  expiry_ts = 0;
  lbl_parts = (codes "label", codes "a b") ∷ (codes "type", codes "pw") ∷ [];
}

password_valid : validate password ≡ true
unfolding validate contains is_out_of_range
password_valid = refl

validate-iterations_example :
    (◌≡◌ {A = ℕ} 200000 0)
    ⊎ ((100000 ≤ 200000) × (200000 ≤ 10000000) × (is_bad_iteration 200000 ≡ false))
validate-iterations_example = validate-iterations password refl password_valid

labelled :
    get_label ((codes "type", codes "x") ∷ (codes "z", codes "1") ∷ []) password
    ≡ codes "data:,v=1&label=a+b&type=x&z=1"
unfolding get_label label_parts label_part extra_parts lookup erase url_encode encode_char is_alnum
labelled = refl

-- What a writer adds to the label of a recipient with a key server.
abbrev expiry : Properties
expiry = (codes "server_exp", codes "1700000000") ∷ []

abbrev key_holder : Recipient
key_holder = record password { type = public_key }

password_keys : IsMap password.lbl_parts
unfolding lookup
password_keys = ground arith

password_properties : All IsPlain password.lbl_parts
unfolding lower_char
password_properties = ground arith

expiry_properties : All IsPlain expiry
unfolding lower_char
expiry_properties = ground arith

no_version : lookup (codes "v") expiry ≡ none
unfolding lookup
no_version = refl

expiry_keys : IsMap expiry
unfolding lookup
expiry_keys = (refl, tt)

lookup-parse_label_example :
    lookup (codes "server_exp") (parse_label (λ b. none) (get_label expiry key_holder))
    ≡ shown (lookup (codes "server_exp") key_holder.lbl_parts) (lookup (codes "server_exp") expiry)
lookup-parse_label_example =
    lookup-parse_label (λ b. none) expiry key_holder (codes "server_exp") (inr refl) refl
      password_properties password_keys expiry_properties expiry_keys no_version refl
