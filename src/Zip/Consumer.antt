-- ===== src/Zip/Consumer.antt =====
-- `ZConsumer` of cdoc/ZStream.h: what is written is compressed and passed on.
pub mod Chain
mod Tests
use libcdoc.Base.{
  ℕ, zero, suc, ◌+◌, ◌-◌, ◌*◌, Bytes, length, take, drop, [], ◌∷◌, Bool, true, false, Option, none,
  some, not, ◌==◌, if◌then◌else◌,
}
use libcdoc.Outcome.{is_negative, Code, end_of_stream, Result, count, fail, ok, output_error}
use libcdoc.Io.{Sink}
use libcdoc.Zip.{uint_max}

-- What a call of `deflate` does: `more` is Z_OK or Z_BUF_ERROR and `ended` Z_STREAM_END, both with
-- the number of input bytes used and the output; `broken` is Z_STREAM_ERROR.
pub data Deflated (Z : Type 0) : Type 0 where
  more ended : ℕ → Bytes → Z → Deflated Z
  broken : Z → Deflated Z

-- What the consumer uses of zlib's z_stream: `deflateInit` (`none` when it fails) and `deflate`
-- with the input, its room of 16384 bytes for output, and whether the flush is Z_FINISH.
pub record Deflate (Z : Type 0) : Type 0 where
  pub init : Option Z
  pub scratch : Z
  pub deflate : Z → Bytes → Bool → Deflated Z

-- `finishing` is that `flush` is Z_FINISH.
pub record ZConsumer (D Z : Type 0) : Type 0 where
  pub dst : D
  pub owned : Bool
  pub z : Z
  pub broken : Bool
  pub finishing : Bool

-- What a round of the inner loop leaves: `write` returns, or the chunk is done.
pub data Chunk (D Z : Type 0) : Type 0 where
  returns : Result → ZConsumer D Z → Chunk D Z
  done : ZConsumer D Z → Chunk D Z

-- `result != o_size`, the result of a write and the size of the block.
abbrev pub is_short : ℕ → Result → Bool
is_short n (count m) = not (m == n)
is_short n (fail c) = true

-- `rv < 0`.
abbrev pub is_below : Result → Bool
is_below (count n) = false
is_below (fail c) = is_negative c

module _ {D Z : Type 0} (sink : Sink D) (zlib : Deflate Z) where
  -- The constructor.
  unfoldable pub new_zconsumer : D → Bool → ZConsumer D Z
  new_zconsumer d owned = elim zlib.init [
    | none ↦ record { dst = d; owned = owned; z = zlib.scratch; broken = true; finishing = false }
    | some z ↦ record { dst = d; owned = owned; z = z; broken = false; finishing = false }
  ]

  -- The output of a round goes to the consumer below, if there is any; `inl` when that is too
  -- short.
  unfoldable pub pass_on : Bytes → ZConsumer D Z → Chunk D Z
  pass_on [] t = done t
  pass_on (x ∷ out) t =
      let (rv, d) = sink.write (x ∷ out) t.dst in
      if is_short (length (x ∷ out)) rv
      then returns rv (record t { dst = d })
      else done (record t { dst = d })

  -- The inner loop of `write` over one chunk, with fuel for its rounds; `none` is fuel that ran
  -- out.
  unfoldable pub deflate_loop : ℕ → Bytes → ZConsumer D Z → Option (Chunk D Z)
  deflate_loop zero input t = none
  deflate_loop (suc fuel) input t = elim (zlib.deflate t.z input t.finishing) [
    | broken z ↦ some (returns (fail output_error) (record t { z = z }))
    | ended used out z ↦ some (pass_on out (record t { z = z }))
    | more used out z ↦ elim (pass_on out (record t { z = z })) [
      | returns rv t' ↦ some (returns rv t')
      | done t' ↦
          (let rest = deflate_loop fuel (drop used input) t' in
            if t.finishing then rest else if length input - used == 0 then some (done t') else rest)
    ]
  ]

  -- The outer loop, a chunk of at most UINT_MAX bytes a round; `size` is what `write` returns.
  unfoldable pub chunk_loop : ℕ → ℕ → ℕ → Bytes → ZConsumer D Z → Option (Result × ZConsumer D Z)
  chunk_loop zero inner size src t = none
  chunk_loop (suc fuel) inner size src t = elim (deflate_loop inner (take uint_max src) t) [
    | none ↦ none
    | some (returns rv t') ↦ some (rv, t')
    | some (done t') ↦
        (let rest = chunk_loop fuel inner size (drop uint_max src) t' in
          if length (drop uint_max src) == 0 then some (count size, t') else rest)
  ]

  -- `ZConsumer::write`, with fuel for the rounds of the inner loop.
  unfoldable pub write : ℕ → Bytes → ZConsumer D Z → Option (Result × ZConsumer D Z)
  write inner src t =
      if t.broken
      then some (fail output_error, t)
      else chunk_loop (suc (length src)) inner (length src) src t

  -- What follows the last write of `close`, unless its result is negative.
  unfoldable pub close_below : Result → ZConsumer D Z → Result × ZConsumer D Z
  close_below rv t =
      if is_below rv
      then (rv, t)
      else if t.owned
      then (let (rc, d) = sink.close t.dst in (rc, record t { dst = d }))
      else (ok, t)

  -- `ZConsumer::close`.
  unfoldable pub close : ℕ → ZConsumer D Z → Option (Result × ZConsumer D Z)
  close inner t = elim (write inner [] (record t { finishing = true })) [
    | none ↦ none
    | some (rv, t') ↦ some (close_below rv t')
  ]
