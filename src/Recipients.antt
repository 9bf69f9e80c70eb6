-- ===== src/Recipients.antt =====
-- `Recipient` of cdoc/Recipient.h and cdoc/Recipient.cpp: the party that a container is encrypted
-- for.
pub mod Labels
pub mod Merged
pub mod Kept
mod Tests
pub mod Iterations
use libcdoc.Base.{
  ℕ, ◌^◌, Bytes, codes, List, [], ◌∷◌, ◌++◌, Bool, true, false, not, ◌&&◌, ◌||◌, ltb, leb, ◌==◌,
  list_eq, Option, none, some, if◌then◌else◌,
}
use libcdoc.Locks.{Algorithm, Curve}
use libcdoc.Text.Url.{url_encode}

pub data RecipientType : Type 0 where
  no_recipient symmetric_key public_key key_share : RecipientType

-- The properties of a label, a map ordered by its keys, as a list of pairs.
abbrev pub Properties : Type 0
Properties = List (Bytes × Bytes)

-- `kdf_iter` is the bit pattern of an int32_t.
pub record Recipient : Type 0 where
  pub type : RecipientType
  pub pk_type : Algorithm
  pub ec_type : Curve
  pub kdf_iter : ℕ
  pub label : Bytes
  pub rcpt_key : Bytes
  pub cert : Bytes
  pub id : Bytes
  pub server_id : Bytes
  pub expiry_ts : ℕ
  pub lbl_parts : Properties

unfoldable pub is_symmetric : Recipient → Bool
is_symmetric r = elim r.type [ symmetric_key ↦ true | _ ↦ false ]

unfoldable pub is_pki : Recipient → Bool
is_pki r = elim r.type [ public_key ↦ true | _ ↦ false ]

-- `isTheSameRecipient`, of another recipient and of a public key.
unfoldable pub is_same_recipient : Recipient → Recipient → Bool
is_same_recipient r other = is_pki r && (is_pki other && list_eq r.rcpt_key other.rcpt_key)

unfoldable pub has_key : Bytes → Recipient → Bool
has_key key r =
    is_pki r && (not (list_eq r.rcpt_key [] || list_eq key []) && list_eq r.rcpt_key key)

unfoldable pub contains : Bytes → Properties → Bool
contains k [] = false
contains k ((key, value) ∷ m) = list_eq key k || contains k m

-- `KDF_ITER_MIN_ENCRYPT` and `KDF_ITER_MAX_ENCRYPT`.
abbrev pub kdf_iter_min_encrypt : ℕ
kdf_iter_min_encrypt = 100000

abbrev pub kdf_iter_max_encrypt : ℕ
kdf_iter_max_encrypt = 10000000

-- `kdf_iter < KDF_ITER_MIN_ENCRYPT || kdf_iter > KDF_ITER_MAX_ENCRYPT`, of an int32_t.
unfoldable pub is_out_of_range : ℕ → Bool
is_out_of_range n = leb (2 ^ 31) n || ltb n kdf_iter_min_encrypt || ltb kdf_iter_max_encrypt n

-- `Recipient::validate`.
unfoldable pub validate : Recipient → Bool
validate r = elim r.type [
  | symmetric_key ↦
      if list_eq r.label [] && not (contains (codes "label") r.lbl_parts)
      then false
      else not (not (r.kdf_iter == 0) && is_out_of_range r.kdf_iter)
  | public_key ↦ not (list_eq r.rcpt_key [])
  | _ ↦ false
]

unfoldable pub lookup : Bytes → Properties → Option Bytes
lookup k [] = none
lookup k ((key, value) ∷ m) = if list_eq key k then some value else lookup k m

unfoldable pub erase : Bytes → Properties → Properties
erase k [] = []
erase k ((key, value) ∷ m) = if list_eq key k then m else (key, value) ∷ erase k m

-- `'&' << urlEncode(key) << '=' << urlEncode(value)`.
unfoldable pub label_part : Bytes → Bytes → Bytes
label_part key value = b'&' ∷ url_encode key ++ b'=' ∷ url_encode value

-- The loop over what is left of `extra`.
unfoldable pub extra_parts : Properties → Bytes
extra_parts [] = []
extra_parts ((key, value) ∷ m) =
    if list_eq value [] then extra_parts m else label_part key value ++ extra_parts m

-- The loop over `lbl_parts`, and the one behind it.
unfoldable pub label_parts : Properties → Properties → Bytes
label_parts [] extra = extra_parts extra
label_parts ((key, value) ∷ m) extra =
    let rest = label_parts m extra in
    let rest_erased = label_parts m (erase key extra) in
    if list_eq key (codes "v") then rest else elim (lookup key extra) [
      | some other ↦ label_part key other ++ rest_erased
      | none ↦ label_part key value ++ rest
    ]

-- `Recipient::getLabel`.
unfoldable pub get_label : Properties → Recipient → Bytes
get_label extra r =
    if list_eq r.label []
    then elim r.type [
      | symmetric_key ↦ codes "data:,v=1" ++ label_parts r.lbl_parts extra
      | public_key ↦ codes "data:,v=1" ++ label_parts r.lbl_parts extra
      | _ ↦ []
    ]
    else r.label
