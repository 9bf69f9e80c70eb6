-- ===== src/Text/Parts.antt =====
-- `split` and `join` of cdoc/Utils.h.
pub mod Laws
use libcdoc.Base.{ℕ, Bytes, List, [], ◌∷◌, ◌++◌, list_eq, ◌==◌, if◌then◌else◌}

-- `getline` until it fails: `item` is the part read so far. At the end of the input a part with no
-- character makes it fail, so a separator at the end adds no empty part.
unfoldable pub split_loop : ℕ → Bytes → Bytes → List Bytes
split_loop delim [] [] = []
split_loop delim [] (x ∷ item) = (x ∷ item) ∷ []
split_loop delim (c ∷ s) item =
    let stop = split_loop delim s [] in
    let more = split_loop delim s (item ++ c ∷ []) in if c == delim then item ∷ stop else more

unfoldable pub split : Bytes → ℕ → List Bytes
split s delim = split_loop delim s []

-- The loop of `join` compares each part with the first one, not its position.
unfoldable pub join_loop : Bytes → Bytes → List Bytes → Bytes → Bytes
join_loop front sep [] result = result
join_loop front sep (part ∷ parts) result =
    join_loop front sep parts ((if list_eq part front then result else result ++ sep) ++ part)

unfoldable pub join : List Bytes → Bytes → Bytes
join [] sep = []
join (p ∷ ps) sep = join_loop p sep (p ∷ ps) []
