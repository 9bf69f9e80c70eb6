-- ===== src/Container.antt =====
-- The header of a CDoc 2 container: the constructor of `CDoc2Reader` and `isCDoc2File` of
-- cdoc/CDoc2Reader.cpp.
pub mod Layout
mod Tests
use libcdoc.Base.{
  ℕ, ◌+◌, ◌-◌, ◌*◌, ◌^◌, Bytes, length, replicate, codes, List, [], ◌∷◌, ◌++◌, map, Bool, true,
  false, Option, none, some, ltb, ◌==◌, list_eq, if◌then◌else◌,
}
use libcdoc.Outcome.{Got, got, refused}
use libcdoc.Io.{Source}
use libcdoc.Locks.{Lock}
use libcdoc.Locks.Build.{RecipientRecord, build_lock}

-- `CDoc2::LABEL`, `CDoc2::KEY_LEN` and the limit of the header's length.
abbrev pub label : Bytes
label = codes "CDOC" ++ 2 ∷ []

abbrev pub key_len : ℕ
key_len = 32

abbrev pub max_len : ℕ
max_len = 2 ^ 20

-- What the constructor leaves. The source stands behind what has been read; `is_open` is an error
-- text that has been taken back, the only sign of a header that was read to its end.
pub record Reader (S : Type 0) : Type 0 where
  pub src : S
  pub header_data : Bytes
  pub header_hmac : Bytes
  pub nonce_pos : ℕ
  pub at_nonce : Bool
  pub locks : List Lock
  pub is_open : Bool

abbrev pub fresh : {S : Type 0} → S → Reader S
fresh s = record {
  src = s;
  header_data = [];
  header_hmac = [];
  nonce_pos = 0;
  at_nonce = false;
  locks = [];
  is_open = false;
}

-- A big-endian 32-bit number; the source puts the bytes together by `|`, and they do not overlap.
unfoldable pub big_endian : Bytes → ℕ
big_endian (a ∷ b ∷ c ∷ d ∷ []) = a * 2 ^ 24 + b * 2 ^ 16 + c * 2 ^ 8 + d
big_endian _ = 0

-- What a read of exactly n bytes leaves: when it is too short, the block that it was read into,
-- which was zero before.
pub data Exact (S : Type 0) : Type 0 where
  whole : Bytes → S → Exact S
  short : Bytes → S → Exact S

abbrev pub as_exact : {S : Type 0} → ℕ → Got S → Exact S
as_exact n (refused c s) = short (replicate n 0) s
as_exact n (got b s) =
    if length b == n then whole b s else short (b ++ replicate (n - length b) 0) s

-- `parse` stands for the verifier and the accessors that flatbuffers generates from
-- cdoc/schema/header.fbs: the recipients of a header that is well formed, with a payload that is
-- encrypted by ChaCha20-Poly1305.
module _ {S : Type 0} (io : Source S) (parse : Bytes → Option (List RecipientRecord)) where
  unfoldable pub read_exact : ℕ → S → Exact S
  read_exact n s = as_exact n (io.read n s)

  -- Behind the HMAC.
  unfoldable pub finish_open : Bytes → Bytes → S → Reader S
  finish_open header hmac s =
      let r = record (fresh s) {
        header_data = header;
        header_hmac = hmac;
        nonce_pos = length label + 4 + length header + key_len;
        at_nonce = true;
      } in
      elim (parse header) [
        | none ↦ r
        | some recipients ↦ record r { locks = map build_lock recipients; is_open = true }
      ]

  unfoldable pub open_header : ℕ → S → Reader S
  open_header header_len s =
      if ltb max_len header_len then fresh s else elim (read_exact header_len s) [
        | short part s' ↦ record (fresh s') { header_data = part }
        | whole header s' ↦ elim (read_exact key_len s') [
          | short part s'' ↦ record (fresh s'') { header_data = header; header_hmac = part }
          | whole hmac s'' ↦ finish_open header hmac s''
        ]
      ]

  -- The constructor.
  unfoldable pub open_container : S → Reader S
  open_container s = elim (read_exact (length label) s) [
    | short part s' ↦ fresh s'
    | whole tag s' ↦
        if list_eq tag label
        then elim (read_exact 4 s') [
          | short part s'' ↦ fresh s''
          | whole len s'' ↦ open_header (big_endian len) s''
        ]
        else fresh s'
  ]

  -- `isCDoc2File`.
  unfoldable pub is_cdoc2_file : S → Bool
  is_cdoc2_file s = elim (read_exact (length label) s) [
    | short part s' ↦ false
    | whole tag s' ↦ list_eq tag label
  ]
