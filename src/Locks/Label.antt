-- ===== src/Locks/Label.antt =====
-- `Lock::parseLabel` (cdoc/Lock.cpp): the properties in a machine-readable label.
use libcdoc.Base.{
  ℕ, ◌+◌, Bytes, take, drop, map, codes, List, [], ◌∷◌, ◌++◌, Bool, true, false, ◌&&◌, ◌||◌, ltb,
  leb, ◌==◌, list_eq, Option, none, some, if◌then◌else◌,
}
use libcdoc.Text.Url.{url_decode}

-- The order of `std::string`.
unfoldable pub is_before : Bytes → Bytes → Bool
is_before [] [] = false
is_before [] (y ∷ b) = true
is_before (x ∷ a) [] = false
is_before (x ∷ a) (y ∷ b) = ltb x y || (x == y && is_before a b)

-- `parsed_label[key] = value`, of a map ordered by its keys.
unfoldable pub assign : Bytes → Bytes → List (Bytes × Bytes) → List (Bytes × Bytes)
assign k v [] = (k, v) ∷ []
assign k v ((key, value) ∷ m) =
    let rest = assign k v m in
    if list_eq key k
    then (k, v) ∷ m
    else if is_before k key
    then (k, v) ∷ (key, value) ∷ m
    else (key, value) ∷ rest

-- `std::tolower` in the "C" locale.
unfoldable pub lower_char : ℕ → ℕ
lower_char c = if leb b'A' c && leb c b'Z' then c + 32 else c

-- The pieces between separators, the first one behind `item`.
unfoldable pub cut_at : ℕ → Bytes → Bytes → List Bytes
cut_at d [] item = item ∷ []
cut_at d (c ∷ s) item =
    let stop = cut_at d s [] in
    let more = cut_at d s (item ++ c ∷ []) in if c == d then item ∷ stop else more

-- `std::ranges::split_view`, which is empty for an empty text.
unfoldable pub split_view : ℕ → Bytes → List Bytes
split_view d [] = []
split_view d (c ∷ s) = cut_at d (c ∷ s) []

-- The loop over the parts: a key, and the value behind it, if there is one.
unfoldable pub read_entry : List Bytes → List (Bytes × Bytes) → List (Bytes × Bytes)
read_entry [] m = m
read_entry (k ∷ []) m = assign (map lower_char (url_decode k)) [] m
read_entry (k ∷ v ∷ more) m = assign (map lower_char (url_decode k)) (url_decode v) m

unfoldable pub read_parts : List Bytes → List (Bytes × Bytes) → List (Bytes × Bytes)
read_parts [] m = m
read_parts (p ∷ parts) m = read_parts parts (read_entry (split_view b'=' p) m)

-- What stands behind the first `CDoc2::LABELBASE64IND`, if there is one.
unfoldable pub after_mark : Bytes → Option Bytes
after_mark [] = none
after_mark (c ∷ s) =
    let later = after_mark s in
    if list_eq (take 8 (c ∷ s)) (codes ";base64,") then some (drop 8 (c ∷ s)) else later

unfoldable pub drop_comma : Bytes → Bytes
drop_comma [] = []
drop_comma (c ∷ s) = if c == b',' then s else c ∷ s

-- `decode` is the decoder of Base64; `none` is its exception.
unfoldable pub parse_label : (Bytes → Option Bytes) → Bytes → List (Bytes × Bytes)
parse_label decode label =
    if list_eq (take 5 label) (codes "data:")
    then elim (after_mark (drop 5 label)) [
      | none ↦ read_parts (split_view b'&' (drop_comma (drop 5 label))) []
      | some b ↦ elim (decode b) [ none ↦ [] | some t ↦ read_parts (split_view b'&' t) [] ]
    ]
    else []
