-- ===== src/Tar/Reader.antt =====
-- `TarSource` of cdoc/Tar.cpp over any `DataSource`.
pub mod Ends
pub mod InEntry
pub mod Kept
mod Tests
use libcdoc.Base.{
  ℕ, zero, suc, ◌+◌, ◌-◌, ◌/◌, ◌^◌, min, Bytes, length, [], ◌∷◌, Bool, true, false, not, ◌&&◌, ◌||◌,
  Option, none, some, ltb, leb, ◌==◌, if◌then◌else◌,
}
use libcdoc.Outcome.{
  Code, end_of_stream, input_stream_error, data_format_error, Result, count, fail, ok, Got, got,
  refused, unless_failed,
}
use libcdoc.Io.{Source, skip}
use libcdoc.Tar.Octal.{block_size, max_aux_header_size, padding}
use libcdoc.Tar.Header.{Header, of_bytes, is_null, verify, get_name, get_size}
use libcdoc.Tar.Pax.{PaxState, parse_pax}

-- `block_end` is the source's `_block_size`.
pub record TarSource (S : Type 0) : Type 0 where
  pub src : S
  pub eof : Bool
  pub error : Option Code
  pub block_end : ℕ
  pub data_size : ℕ
  pub pos : ℕ

-- What `next` returns: an entry with its name and size, where a size of `none` is -1, or a code.
pub data Next (S : Type 0) : Type 0 where
  entry : Bytes → Option ℕ → TarSource S → Next S
  stopped : Code → TarSource S → Next S

-- What a read of one header leaves.
pub data Block (S : Type 0) : Type 0 where
  block : Header → S → Block S
  no_block : S → Block S

-- What `readPaxHeader` leaves.
pub data Pax (S : Type 0) : Type 0 where
  pax : PaxState → S → Pax S
  bad_pax : Code → S → Pax S

-- The fields that `_data_size` and `_block_size` get; -1 as a size_t is 2 ^ 64 - 1, and its
-- padding makes the block empty.
abbrev pub data_size_of : Option ℕ → ℕ
data_size_of none = 2 ^ 64 - 1
data_size_of (some n) = n

abbrev pub block_end_of : Option ℕ → ℕ
block_end_of none = 0
block_end_of (some n) = n + padding n

-- An entry with data.
abbrev pub is_file : Header → Bool
is_file h = (h.typeflag == b'0') || (h.typeflag == 0)

-- What stands for a read of a header: all of its 512 bytes, or an error.
abbrev pub as_block : {S : Type 0} → Got S → Block S
as_block (refused c s) = no_block s
as_block (got b s) = if length b == block_size then block (of_bytes b) s else no_block s

module _ {S : Type 0} (io : Source S) where
  -- What `read` does with the result of the read below it.
  unfoldable pub take_read : Got S → TarSource S → Got (TarSource S)
  take_read (refused c s) t = refused c (record t { src = s })
  take_read (got [] s) t = got [] (record t { src = s; eof = true })
  take_read (got (x ∷ r) s) t = got (x ∷ r) (record t { src = s; pos = t.pos + length (x ∷ r) })

  -- `TarSource::read`.
  unfoldable pub read : ℕ → TarSource S → Got (TarSource S)
  read size t =
      unless_failed t.error (λ c. refused c t)
        (if leb t.data_size t.pos
          then got [] (record t { eof = true })
          else take_read (io.read (min (t.data_size - t.pos) size) t.src) t)

  unfoldable pub read_block : S → Block S
  read_block s = as_block (io.read block_size s)

  -- `readPaxHeader`; the result of the last `skip` is not looked at.
  unfoldable pub read_pax : Header → S → Pax S
  read_pax h s = elim (get_size h) [
    | none ↦ bad_pax data_format_error s
    | some n ↦
        if ltb max_aux_header_size n then bad_pax data_format_error s else elim (io.read n s) [
          | refused c s' ↦ bad_pax input_stream_error s'
          | got b s' ↦
              if length b == n
              then (let s'' = (skip io (padding n) s').1 in
                  elim (parse_pax b (record { name = []; size = none })) [
                    | none ↦ bad_pax data_format_error s''
                    | some st ↦ pax st s''
                  ])
              else bad_pax input_stream_error s'
        ]
  ]

  unfoldable pub failed : Code → S → TarSource S → Next S
  failed c s t = stopped c (record t { src = s; error = some c })

  -- The entry of a header, with what a PAX header has set before it.
  unfoldable pub enter : Header → PaxState → S → TarSource S → Next S
  enter h st s t =
      let name : Bytes = elim st.name [ [] ↦ get_name h | c ∷ r ↦ c ∷ r ] in
      let size : Option ℕ = elim st.size [ none ↦ get_size h | some n ↦ some n ] in
      entry name size record {
        src = s;
        eof = false;
        error = t.error;
        block_end = block_end_of size;
        data_size = data_size_of size;
        pos = 0;
      }

  -- The header that must follow a PAX header.
  unfoldable pub after_pax : PaxState → S → TarSource S → Next S
  after_pax st s t = elim (read_block s) [
    | no_block s' ↦ failed input_stream_error s' t
    | block h s' ↦
        if is_null h || not (verify h)
        then failed data_format_error s' t
        else if is_file h
        then enter h st s' t
        else failed data_format_error s' t
  ]

  -- Two null headers end the archive.
  unfoldable pub at_end : S → TarSource S → Next S
  at_end s t = elim (read_block s) [
    | no_block s' ↦ failed input_stream_error s' t
    | block h s' ↦ stopped end_of_stream (record t { src = s'; eof = true })
  ]

  -- The loop of `next`, with fuel for its headers; `none` is fuel that ran out.
  unfoldable pub next_loop : ℕ → S → TarSource S → Option (Next S)
  next_loop zero s t = none
  next_loop (suc fuel) s t =
      if io.is_eof s
      then some (stopped end_of_stream (record t { src = s }))
      else elim (read_block s) [
        | no_block s' ↦ some (failed input_stream_error s' t)
        | block h s' ↦
            let passed : Option (Next S) = elim (get_size h) [
              | none ↦ some (failed data_format_error s' t)
              | some n ↦
                  let rest = next_loop fuel (skip io (n + padding n) s').1 t in
                  if ltb max_aux_header_size n then some (failed data_format_error s' t) else rest
            ] in
            if is_null h
            then some (at_end s' t)
            else if not (verify h)
            then some (failed data_format_error s' t)
            else if h.typeflag == b'x'
            then elim (read_pax h s') [
              | bad_pax c s'' ↦ some (failed c s'' t)
              | pax st s'' ↦ some (after_pax st s'' (record t { error = none }))
            ]
            else if is_file h
            then some (enter h (record { name = []; size = none }) s' t)
            else passed
      ]

  abbrev pub rewound : S → TarSource S → TarSource S
  rewound s t = record t { src = s; pos = 0; block_end = 0; data_size = 0 }

  -- `TarSource::next`: the rest of the entry is skipped first.
  unfoldable pub next : ℕ → TarSource S → Option (Next S)
  next fuel t =
      if ltb t.pos t.block_end
      then (let (rv, s) = skip io (t.block_end - t.pos) t.src in
          elim rv [
            | fail c ↦ some (failed input_stream_error s (rewound s t))
            | count n ↦ next_loop fuel s (rewound s t)
          ])
      else next_loop fuel t.src t
