-- ===== src/Tar/Writer.antt =====
-- `TarConsumer` of cdoc/Tar.cpp over any `DataConsumer`.
pub mod HeaderLaws
mod Tests
use libcdoc.Base.{
  ℕ, zero, suc, ◌+◌, ◌-◌, ◌^◌, min, Bytes, codes, length, take, drop, replicate, List, [], ◌∷◌,
  ◌++◌, Bool, true, false, ◌&&◌, ◌||◌, Option, none, some, ltb, leb, ◌==◌, if◌then◌else◌, bit_and,
  not,
}
use libcdoc.Outcome.{
  Result, count, fail, ok, is_ok, workflow_error, output_error, data_format_error, internal_error,
}
use libcdoc.Io.{Sink}
use libcdoc.Tar.Octal.{block_size, to_octal, padding}
use libcdoc.Tar.Header.{Header, to_bytes, empty, unsigned_sum, checksum}
use libcdoc.Tar.Pax.{to_string, to_pax_record}

-- The bit pattern of a size, where `none` is -1.
abbrev pub size_pattern : Option ℕ → ℕ
size_pattern none = 2 ^ 64 - 1
size_pattern (some n) = n

-- The header that `writeHeader(name, size, typeflag)` fills in.
unfoldable pub fill_header : Bytes → Option ℕ → ℕ → Header
fill_header name size typeflag =
    let cut = take 100 name in
    let h = record empty {
      name = cut ++ replicate (100 - length cut) 0;
      typeflag = typeflag;
      chksum = replicate 8 b' ';
      size = to_octal 12 (size_pattern size);
    } in
    record h { chksum = to_octal 8 (checksum h).0 }

-- `need_pax_name`. A `char` from 128 on is negative, and its top bit is set.
unfoldable pub is_special : ℕ → Bool
is_special c = not (bit_and c 0x80 == 0) || ltb c b' '

unfoldable pub any_special : Bytes → Bool
any_special [] = false
any_special (c ∷ s) = is_special c || any_special s

unfoldable pub need_pax_name : Bytes → Bool
need_pax_name name = if leb 100 (length name) then true else any_special name

-- `size > 07777777`, where -1 is not.
unfoldable pub need_pax_size : Option ℕ → Bool
need_pax_size none = false
need_pax_size (some n) = ltb 2097151 n

-- `std::filesystem::path::filename` and `parent_path` of a POSIX path: the part behind the last
-- separator, and the part before it without the separators at its end.
unfoldable pub filename : Bytes → Bytes → Bytes
filename [] part = part
filename (c ∷ s) part =
    let fresh = filename s [] in
    let more = filename s (part ++ c ∷ []) in if c == b'/' then fresh else more

unfoldable pub trim_separators : Bytes → Bytes
trim_separators [] = []
trim_separators (c ∷ s) =
    let rest = trim_separators s in
    elim rest [ [] ↦ (if c == b'/' then [] else c ∷ []) | d ∷ r ↦ c ∷ d ∷ r ]

unfoldable pub has_separator : Bytes → Bool
has_separator [] = false
has_separator (c ∷ s) = (c == b'/') || has_separator s

unfoldable pub parent_path : Bytes → Bytes
parent_path name =
    let dir = trim_separators (take (length name - length (filename name [])) name) in
    elim dir [ [] ↦ b'/' ∷ [] | c ∷ d ↦ c ∷ d ]

abbrev ends_in_separator : Bytes → Bool
ends_in_separator [] = false
ends_in_separator (c ∷ []) = c == b'/'
ends_in_separator (c ∷ d ∷ s) = ends_in_separator (d ∷ s)

unfoldable pub pax_path : Bytes → Bytes
pax_path name =
    if has_separator name
    then (let dir = parent_path name in
        (if ends_in_separator dir then dir else dir ++ codes "/")
        ++ (codes "PaxHeaders.X/" ++ filename name []))
    else codes "./PaxHeaders.X/" ++ filename name []

pub record TarConsumer (D : Type 0) : Type 0 where
  pub dst : D
  pub owned : Bool
  pub current_size : Option ℕ
  pub current_written : ℕ

-- The rounds that `toPaxRecord` is given.
abbrev pub pax_fuel : ℕ
pax_fuel = 22

-- The records for an entry; `none` is a loop of `toPaxRecord` that needs more rounds.
unfoldable pub pax_records : Bytes → Option ℕ → Option Bytes
pax_records name size =
    elim (if need_pax_name name then to_pax_record pax_fuel (codes "path") name else some []) [
      | none ↦ none
      | some path ↦
          elim (if need_pax_size size
            then to_pax_record pax_fuel (codes "size") (to_string (size_pattern size))
            else some []) [ none ↦ none | some rest ↦ some (path ++ rest) ]
    ]

module _ {D : Type 0} (sink : Sink D) where
  -- `_dst->write`, with what stands for a write that is too short.
  unfoldable pub write_block : Bytes → D → Result × D
  write_block block d =
      let (rv, d') = sink.write block d in
      elim rv [
        | fail c ↦ (fail c, d')
        | count n ↦ if n == length block then (ok, d') else (fail output_error, d')
      ]

  -- `writeHeader(h)` and `writePadding(size)`.
  unfoldable pub write_header : Header → D → Result × D
  write_header h d = write_block (to_bytes h) d

  unfoldable pub write_padding : ℕ → D → Result × D
  write_padding size d = write_block (replicate (padding size) 0) d

  -- Steps that stop at the first result that is not OK.
  infixl 5 ◌then_do◌
  abbrev pub ◌then_do◌ : Result × D → (D → Result × D) → Result × D
  (rv, d) then_do f = if is_ok rv then f d else (rv, d)

  -- `TarConsumer::write`.
  unfoldable pub write : Bytes → TarConsumer D → Result × TarConsumer D
  write src t =
      let full : Bool = elim t.current_size [
        | none ↦ false
        | some limit ↦ ltb limit (t.current_written + length src)
      ] in
      if full
      then (fail workflow_error, t)
      else (let (rv, d) = sink.write src t.dst in
          (rv, record t { dst = d; current_written = t.current_written + length src }))

  unfoldable pub unfinished : TarConsumer D → Bool
  unfinished t = elim t.current_size [ none ↦ false | some limit ↦ ltb t.current_written limit ]

  -- The padding behind the entry that is open, if it has bytes.
  unfoldable pub finish_entry : TarConsumer D → Result × D
  finish_entry t =
      if ltb 0 t.current_written then write_padding t.current_written t.dst else (ok, t.dst)

  -- `TarConsumer::close`.
  unfoldable pub close : TarConsumer D → Result × TarConsumer D
  close t =
      let (rv, d) =
        if unfinished t
        then (ok, t.dst)
        else ◌then_do◌ (◌then_do◌ (finish_entry t) (write_header empty)) (write_header empty) in
      let result = if unfinished t then fail data_format_error else ok in
      if is_ok rv
      then (if t.owned
          then (let (rc, d') = sink.close d in
              (if is_ok rc then result else rc, record t { dst = d' }))
          else (result, record t { dst = d }))
      else (rv, record t { dst = d })

  -- The PAX header of `open`, if the name or the size needs one; `none` stands for fuel that ran
  -- out.
  unfoldable pub write_pax : Bytes → Option ℕ → D → Result × D
  write_pax name size d =
      if need_pax_name name || need_pax_size size
      then elim (pax_records name size) [
        | none ↦ (fail internal_error, d)
        | some records ↦
            ◌then_do◌
              (◌then_do◌ (write_header (fill_header (pax_path name) (some (length records)) b'x') d)
                (write_block records))
              (write_padding (length records))
      ]
      else (ok, d)

  -- `TarConsumer::open`.
  unfoldable pub open_entry : Bytes → Option ℕ → TarConsumer D → Result × TarConsumer D
  open_entry name size t =
      if unfinished t
      then (fail workflow_error, t)
      else (let (rv, d) = finish_entry t in
          if is_ok rv
          then (let (rv', d') =
                ◌then_do◌ (write_pax name size d) (write_header (fill_header name size b'0')) in
              (rv', record t { dst = d'; current_size = size; current_written = 0 }))
          else (rv, record t { dst = d }))
