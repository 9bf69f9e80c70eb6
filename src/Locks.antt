-- ===== src/Locks.antt =====
-- `Lock` of cdoc/Lock.h and cdoc/Lock.cpp: the parameters by which a recipient opens a container.
pub mod Label
pub mod Params
pub mod Build
mod Tests
use libcdoc.Base.{
  ℕ, zero, suc, ◌+◌, ◌-◌, ◌*◌, ◌/◌, ◌%◌, ◌^◌, Bytes, List, [], ◌∷◌, Bool, true, false, not, ◌&&◌,
  ◌||◌, Option, none, some, ltb, ◌==◌, list_eq, if◌then◌else◌, bit_and, bit_or,
}

pub data LockType : Type 0 where
  unknown symmetric_key password public_key cdoc1 server share_server : LockType

pub data Param : Type 0 where
  salt pw_salt kdf_iter rcpt_key cert key_material keyserver_id transaction_id : Param
  recipient_id share_urls concat_digest method algorithm_id party_uinfo party_vinfo : Param

pub data Algorithm : Type 0 where
  ecc rsa unknown_algorithm : Algorithm

pub data Curve : Type 0 where
  unknown_curve secp_384_r1 secp_256_r1 secp_521_r1 : Curve

-- The value of an enumerator, which orders the map.
abbrev pub number : Param → ℕ
number salt = 0
number pw_salt = 1
number kdf_iter = 2
number rcpt_key = 3
number cert = 4
number key_material = 5
number keyserver_id = 6
number transaction_id = 7
number recipient_id = 8
number share_urls = 9
number concat_digest = 10
number method = 11
number algorithm_id = 12
number party_uinfo = 13
number party_vinfo = 14

-- `std::map<Params, std::vector<uint8_t>>` as a list of pairs.
abbrev pub ParamMap : Type 0
ParamMap = List (Param × Bytes)

unfoldable pub find : Param → ParamMap → Option Bytes
find p [] = none
find p ((q, v) ∷ m) = if number q == number p then some v else find p m

-- `params[p] = v`.
unfoldable pub put : Param → Bytes → ParamMap → ParamMap
put p v [] = (p, v) ∷ []
put p v ((q, w) ∷ m) = if number q == number p then (q, v) ∷ m else (q, w) ∷ put p v m

pub record Lock : Type 0 where
  pub type : LockType
  pub pk_type : Algorithm
  pub ec_type : Curve
  pub label : Bytes
  pub encrypted_fmk : Bytes
  pub params : ParamMap

-- `Lock()`.
abbrev pub new_lock : Lock
new_lock = record {
  type = unknown;
  pk_type = ecc;
  ec_type = secp_384_r1;
  label = [];
  encrypted_fmk = [];
  params = [];
}

unfoldable pub set_bytes : Param → Bytes → Lock → Lock
set_bytes p v l = record l { params = put p v l.params }

-- `getBytes`; `none` is the exception of `at`.
unfoldable pub get_bytes : Param → Lock → Option Bytes
get_bytes p l = find p l.params

unfoldable pub get_string : Param → Lock → Bytes
get_string p l = elim (find p l.params) [ none ↦ [] | some b ↦ b ]

-- The loop of `getInt`, on the bit pattern of an int32_t; `left` bytes are still to be read.
unfoldable pub int_loop : ℕ → ℕ → Bytes → ℕ
int_loop zero val b = val
int_loop (suc left) val [] = val
int_loop (suc left) val (x ∷ b) = int_loop left (bit_or (val * 2 ^ 8 % 2 ^ 32) x) b

unfoldable pub get_int : Param → Lock → ℕ
get_int p l = elim (find p l.params) [ none ↦ 0 | some b ↦ int_loop 4 0 b ]

-- `val >> 8` of an int32_t.
unfoldable pub shift_eight : ℕ → ℕ
shift_eight val = if ltb val (2 ^ 31) then val / 2 ^ 8 else val / 2 ^ 8 + 255 * 2 ^ 24

-- The loop of `setInt` writes from the last byte to the first.
unfoldable pub int_bytes : ℕ → ℕ → Bytes → Bytes
int_bytes zero val done = done
int_bytes (suc left) val done = int_bytes left (shift_eight val) (bit_and val 0xff ∷ done)

unfoldable pub set_int : Param → ℕ → Lock → Lock
set_int p val l = set_bytes p (int_bytes 4 val []) l

abbrev is_unknown : LockType → Bool
is_unknown unknown = true
is_unknown _ = false

unfoldable pub is_valid : Lock → Bool
is_valid l = not (is_unknown l.type) && not (list_eq l.label []) && not (list_eq l.encrypted_fmk [])

unfoldable pub is_symmetric : Lock → Bool
is_symmetric l = elim l.type [ symmetric_key ↦ true | password ↦ true | _ ↦ false ]

unfoldable pub is_pki : Lock → Bool
is_pki l = elim l.type [ cdoc1 ↦ true | public_key ↦ true | server ↦ true | _ ↦ false ]

unfoldable pub is_rsa : Lock → Bool
is_rsa l = elim l.pk_type [ rsa ↦ true | _ ↦ false ]
