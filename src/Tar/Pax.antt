-- ===== src/Tar/Pax.antt =====
-- `svtoi`, `toPaxRecord` and the parser of PAX data in `TarSource::readPaxHeader` (cdoc/Tar.cpp).
pub mod Width
pub mod Fixpoint
use libcdoc.Base.{
  ℕ, zero, suc, ◌+◌, ◌-◌, ◌*◌, ◌/◌, ◌%◌, ◌^◌, Bytes, codes, length, take, drop, List, [], ◌∷◌, ◌++◌,
  Bool, true, false, ◌&&◌, ◌||◌, Option, none, some, ltb, leb, ◌==◌, list_eq, if◌then◌else◌,
}
use libcdoc.Tar.Octal.{max_file_size, int64_max}

-- `std::to_string` of a number that is not negative, with fuel for its digits.
unfoldable pub decimal_loop : ℕ → ℕ → Bytes → Bytes
decimal_loop zero n done = done
decimal_loop (suc fuel) n done =
    let rest = decimal_loop fuel (n / 10) ((b'0' + n % 10) ∷ done) in
    if ltb n 10 then (b'0' + n) ∷ done else rest

unfoldable pub to_string : ℕ → Bytes
to_string n = decimal_loop (n + 1) n []

-- The digits that `std::from_chars` reads, all of the text; `none` when a character is no digit.
unfoldable pub from_chars_digits : Bytes → ℕ → Option ℕ
from_chars_digits [] n = some n
from_chars_digits (c ∷ s) n =
    if ltb c b'0' || ltb b'9' c then none else from_chars_digits s (n * 10 + (c - b'0'))

-- An integer as its sign and its magnitude.
pub record Signed : Type 0 where
  pub negative : Bool
  pub magnitude : ℕ

abbrev in_range : Bool → ℕ → Option ℕ → Option Signed
in_range negative limit none = none
in_range negative limit (some n) =
    if leb n limit then some (record { negative = negative; magnitude = n }) else none

-- `svtoi` into a signed type with the greatest value `max_value`.
unfoldable pub svtoi : ℕ → Bytes → Option Signed
svtoi max_value [] = none
svtoi max_value (c ∷ []) = in_range false max_value (from_chars_digits (c ∷ []) 0)
svtoi max_value (c ∷ d ∷ s) =
    if c == b'-'
    then in_range true (max_value + 1) (from_chars_digits (d ∷ s) 0)
    else in_range false max_value (from_chars_digits (c ∷ d ∷ s) 0)

-- The loop of `toPaxRecord`: `len` is the loop's variable, a size_t, and the round's text has the
-- number len + 1 before the record. It ends when that text is as long as the next value of `len`.
unfoldable pub pax_loop : ℕ → ℕ → Bytes → Option Bytes
pax_loop zero len text = none
pax_loop (suc fuel) len text =
    let following = (len + 1) % 2 ^ 64 in
    let result = to_string following ++ text in
    let rest = pax_loop fuel following text in
    if length result == following then some result else rest

unfoldable pub pax_text : Bytes → Bytes → Bytes
pax_text keyword value = b' ' ∷ (keyword ++ (b'=' ∷ (value ++ b'\n' ∷ [])))

-- `toPaxRecord`; `none` is fuel that ran out.
unfoldable pub to_pax_record : ℕ → Bytes → Bytes → Option Bytes
to_pax_record fuel keyword value =
    let text = pax_text keyword value in pax_loop fuel (length text + 1) text

-- `std::ranges::find`, as an index.
unfoldable pub find_index : ℕ → Bytes → Option ℕ
find_index c [] = none
find_index c (x ∷ s) =
    if x == c then some 0 else elim (find_index c s) [ none ↦ none | some i ↦ some (suc i) ]

-- What the lines have set so far: the name, and the size, where `none` is -1.
pub record PaxState : Type 0 where
  pub name : Bytes
  pub size : Option ℕ

-- The parts of a line "<length> <key>=<value>".
unfoldable pub split_line : Bytes → Option (Bytes × Bytes × Bytes)
split_line line = elim (find_index b' ' line) [
  | none ↦ none
  | some sp ↦
      let after = drop (sp + 1) line in
      elim (find_index b'=' after) [
        | none ↦ none
        | some eq ↦ some (take sp line, take eq after, drop (eq + 1) after)
      ]
]

abbrev states_length : Option Signed → ℕ → Bool
states_length none n = false
states_length (some v) n = if v.negative then (v.magnitude == 0) && (n == 0) else v.magnitude == n

-- The value of a "size" line.
unfoldable pub pax_size : Bytes → Option ℕ
pax_size value = elim (svtoi int64_max value) [
  | none ↦ none
  | some v ↦
      if (v.negative && (ltb 0 v.magnitude)) || ltb max_file_size v.magnitude
      then none
      else some v.magnitude
]

-- One line that is not empty; `none` is a format error.
unfoldable pub pax_line : Bytes → PaxState → Option PaxState
pax_line line st = elim (split_line line) [
  | none ↦ none
  | some (len_str, key, value) ↦
      if states_length (svtoi (2 ^ 31 - 1) len_str) (length line + 1)
      then (let named = if list_eq key (codes "path") then record st { name = value } else st in
          if list_eq key (codes "size")
          then elim (pax_size value) [
            | none ↦ none
            | some n ↦ some (record named { size = some n })
          ]
          else some named)
      else none
]

-- `paxData | std::views::split('\n')`: the parts between the newlines, empty ones too.
unfoldable pub lines : Bytes → Bytes → List Bytes
lines [] line = line ∷ []
lines (c ∷ s) line =
    let stop = lines s [] in
    let more = lines s (line ++ c ∷ []) in if c == b'\n' then line ∷ stop else more

-- The loop over the lines ends at an empty one.
unfoldable pub pax_lines : List Bytes → PaxState → Option PaxState
pax_lines [] st = some st
pax_lines ([] ∷ ls) st = some st
pax_lines ((c ∷ line) ∷ ls) st = elim (pax_line (c ∷ line) st) [
  | none ↦ none
  | some st' ↦ pax_lines ls st'
]

unfoldable pub parse_pax : Bytes → PaxState → Option PaxState
parse_pax bytes st = pax_lines (lines bytes []) st
