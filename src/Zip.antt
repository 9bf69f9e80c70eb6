-- ===== src/Zip.antt =====
-- `ZSource` of cdoc/ZStream.h: a stream that is decompressed as it is read, up to a limit.
pub mod Limit
pub mod Kept
pub mod Consumer
mod Tests
use libcdoc.Base.{
  ℕ, zero, suc, ◌+◌, ◌-◌, ◌*◌, ◌^◌, min, Bytes, length, take, drop, [], ◌∷◌, ◌++◌, Bool, ◌&&◌,
  Option, none, some, ltb, ◌==◌, if◌then◌else◌,
}
use libcdoc.Outcome.{Code, io_error, zlib_error, Got, got, refused, unless_failed}
use libcdoc.Io.{Source}

-- What a call of `inflate` does: `progress` is Z_OK and `finished` is Z_STREAM_END, both with the
-- number of input bytes used and the output; `broken` is any other result.
pub data Inflated (Z : Type 0) : Type 0 where
  progress finished : ℕ → Bytes → Z → Inflated Z
  broken : ℕ → Inflated Z

-- What the source uses of zlib's z_stream: `inflate` with the input and the room for output.
pub record Zlib (Z : Type 0) : Type 0 where
  pub inflate : Z → Bytes → ℕ → Inflated Z

-- `limit` is the source's `max_decompressed_size`, `total` its `total_inflated`, and `avail_in`
-- that of its z_stream.
pub record ZSource (S Z : Type 0) : Type 0 where
  pub src : S
  pub z : Z
  pub error : Option Code
  pub buf : Bytes
  pub avail_in : ℕ
  pub limit : ℕ
  pub total : ℕ

abbrev pub chunk_size : ℕ
chunk_size = 16 * 1024

abbrev pub uint_max : ℕ
uint_max = 2 ^ 32 - 1

-- Behind the inner loop of `read`: what it wrote is counted, against the limit if there is one.
unfoldable pub is_over : {S Z : Type 0} → ZSource S Z → Bool
is_over t = ltb 0 t.limit && ltb t.limit t.total

abbrev pub counted : {S Z : Type 0} → Bytes → ZSource S Z → ZSource S Z
counted p t = record t { total = t.total + length p }

module _ {S Z : Type 0} (io : Source S) (zlib : Zlib Z) where
  -- The inner loop of `read`, with fuel for its rounds: `avail` is `avail_out`, which is not 0, and
  -- `out` what the loop has written; `none` is fuel that ran out.
  unfoldable pub inflate_loop : ℕ → ℕ → Bytes → ZSource S Z → Option (Got (ZSource S Z))
  inflate_loop zero avail out t = none
  inflate_loop (suc fuel) avail out t = elim (io.read chunk_size t.src) [
    | refused c s ↦ some (refused c (record t { src = s; error = some c }))
    | got b s ↦
        let buf = t.buf ++ b in
        let given = min (length buf) uint_max in
        elim (zlib.inflate t.z (take given buf) avail) [
          | broken used ↦ some (
              refused zlib_error
                record t { src = s; buf = buf; avail_in = given - used; error = some zlib_error })
          | finished used p z ↦
              some (got (out ++ p) (record t { src = s; z = z; buf = []; avail_in = given - used }))
          | progress used p z ↦
              let t' = record t { src = s; z = z; buf = drop used buf; avail_in = given - used } in
              let rest = inflate_loop fuel (avail - length p) (out ++ p) t' in
              if avail - length p == 0 then some (got (out ++ p) t') else rest
        ]
  ]

  -- The outer loop of `read`, with fuel for its rounds and for those of the inner one.
  unfoldable pub read_loop : ℕ → ℕ → ℕ → Bytes → ZSource S Z → Option (Got (ZSource S Z))
  read_loop zero inner size out t = none
  read_loop (suc fuel) inner size out t =
      if ltb (length out) size
      then elim (inflate_loop inner (min (size - length out) uint_max) [] t) [
        | none ↦ none
        | some (refused c t') ↦ some (refused c t')
        | some (got p t') ↦
            let t'' = counted p t' in
            let rest = read_loop fuel inner size (out ++ p) t'' in
            if is_over t''
            then some (refused io_error (record t'' { error = some io_error }))
            else if length p == 0
            then some (got out t'')
            else rest
      ]
      else some (got out t)

  -- `ZSource::read`; the outer loop ends after a round that writes nothing.
  unfoldable pub read : ℕ → ℕ → ZSource S Z → Option (Got (ZSource S Z))
  read inner size t =
      unless_failed t.error (λ c. some (refused c t)) (read_loop (size + 1) inner size [] t)

  -- `ZSource::isEof`.
  unfoldable pub is_eof : ZSource S Z → Bool
  is_eof t = (t.avail_in == 0) && io.is_eof t.src
