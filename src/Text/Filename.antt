-- ===== src/Text/Filename.antt =====
-- `sanitiseExtractedFilename` of cdoc/Utils.cpp: the name of a file that is extracted.
pub mod Safe
pub mod Kept
mod Tests
use libcdoc.Base.{
  ℕ, zero, suc, ◌+◌, ◌-◌, min, Bytes, codes, length, take, drop, get_or, List, [], ◌∷◌, ◌++◌, map,
  Bool, true, false, not, ◌&&◌, ◌||◌, Option, none, some, ltb, leb, ◌==◌, list_eq, if◌then◌else◌,
}
use libcdoc.Text.Utf8.{is_valid_utf8, is_continuation}

-- Step 1: no control character but the tab.
unfoldable pub has_no_control : Bytes → Bool
has_no_control [] = true
has_no_control (c ∷ s) =
    let rest = has_no_control s in
    if c == 0 then false else if ltb c 0x20 && not (c == b'\t') then false else rest

-- Step 2: what stands behind the last separator; `part` is the component read so far.
unfoldable pub last_component : Bytes → Bytes → Bytes
last_component [] part = part
last_component (c ∷ s) part =
    let fresh = last_component s [] in
    let more = last_component s (part ++ c ∷ []) in if c == b'\\' || c == b'/' then fresh else more

abbrev is_letter : ℕ → Bool
is_letter c = (leb b'A' c && leb c b'Z') || (leb b'a' c && leb c b'z')

-- Step 3: a drive letter and its colon.
unfoldable pub strip_drive : Bytes → Bytes
strip_drive [] = []
strip_drive (a ∷ []) = a ∷ []
strip_drive (a ∷ b ∷ s) = if b == b':' && is_letter a then s else a ∷ b ∷ s

unfoldable pub has_byte : ℕ → Bytes → Bool
has_byte d [] = false
has_byte d (c ∷ s) = (c == d) || has_byte d s

-- Step 4: dots and spaces at the end, spaces and tabs at the front.
unfoldable pub trim_end : Bytes → Bytes
trim_end [] = []
trim_end (c ∷ s) = elim (trim_end s) [
  | [] ↦ if c == b'.' || c == b' ' then [] else c ∷ []
  | d ∷ r ↦ c ∷ d ∷ r
]

unfoldable pub trim_front : Bytes → Bytes
trim_front [] = []
trim_front (c ∷ s) = let rest = trim_front s in if c == b' ' || c == b'\t' then rest else c ∷ s

-- Step 6: the name before its first dot in upper case, against the names of devices.
unfoldable pub before_dot : Bytes → Bytes
before_dot [] = []
before_dot (c ∷ s) = if c == b'.' then [] else c ∷ before_dot s

unfoldable pub to_upper : ℕ → ℕ
to_upper ch = if leb b'a' ch && leb ch b'z' then ch - b'a' + b'A' else ch

abbrev pub reserved : List Bytes
reserved =
    codes "CON"
    ∷ codes "PRN"
    ∷ codes "AUX"
    ∷ codes "NUL"
    ∷ codes "COM1"
    ∷ codes "COM2"
    ∷ codes "COM3"
    ∷ codes "COM4"
    ∷ codes "COM5"
    ∷ codes "COM6"
    ∷ codes "COM7"
    ∷ codes "COM8"
    ∷ codes "COM9"
    ∷ codes "LPT1"
    ∷ codes "LPT2"
    ∷ codes "LPT3"
    ∷ codes "LPT4"
    ∷ codes "LPT5"
    ∷ codes "LPT6"
    ∷ codes "LPT7"
    ∷ codes "LPT8"
    ∷ codes "LPT9"
    ∷ []

unfoldable pub is_one_of : Bytes → List Bytes → Bool
is_one_of s [] = false
is_one_of s (r ∷ rs) = list_eq s r || is_one_of s rs

unfoldable pub is_reserved : Bytes → Bool
is_reserved base = is_one_of (map to_upper (before_dot base)) reserved

-- Step 7: `utf8_boundary` from a position that the text reaches, and `find_last_of('.')`.
unfoldable pub boundary_loop : ℕ → Bytes → ℕ
boundary_loop zero s = 0
boundary_loop (suc pos) s =
    if is_continuation (get_or s pos 0) then boundary_loop pos s else suc pos

unfoldable pub utf8_boundary : Bytes → ℕ → ℕ
utf8_boundary s max_pos = boundary_loop (min max_pos (length s)) s

unfoldable pub find_last_dot : Bytes → Option ℕ
find_last_dot [] = none
find_last_dot (c ∷ s) = elim (find_last_dot s) [
  | none ↦ if c == b'.' then some 0 else none
  | some i ↦ some (suc i)
]

abbrev pub max_bytes : ℕ
max_bytes = 255

unfoldable pub keep_extension : Bytes → ℕ → Bytes
keep_extension base dot =
    let ext = drop dot base in
    let stem = take dot base in take (utf8_boundary stem (max_bytes - length ext)) stem ++ ext

unfoldable pub cap : Bytes → Bytes
cap base =
    if ltb max_bytes (length base)
    then elim (find_last_dot base) [
      | none ↦ take (utf8_boundary base max_bytes) base
      | some dot ↦
          if ltb 0 dot && ltb (length base - dot) 16
          then keep_extension base dot
          else take (utf8_boundary base max_bytes) base
    ]
    else base

-- Steps 5 to 7. The empty text is a refusal.
unfoldable pub finish : Bytes → Bytes
finish base =
    if list_eq base [] || list_eq base (codes ".") || list_eq base (codes "..") || is_reserved base
    then []
    else cap base

-- Steps 3 to 7.
unfoldable pub leaf : Bytes → Bytes
leaf component =
    let base = strip_drive component in
    if has_byte b':' base then [] else finish (trim_front (trim_end base))

unfoldable pub sanitise : Bytes → Bytes
sanitise name =
    if list_eq name [] || not (is_valid_utf8 name) || not (has_no_control name)
    then []
    else leaf (last_component name [])
