-- ===== src/Io.antt =====
-- The streams of cdoc/Io.h and cdoc/Io.cpp: the interfaces `DataSource` and `DataConsumer`, the two
-- in memory, and the loops over an interface.
pub mod Stream
pub mod Invariant
mod Tests
use libcdoc.Base.{
  ℕ, zero, suc, ◌+◌, ◌-◌, ◌/◌, ◌≤◌, min, Bytes, length, take, drop, [], ◌∷◌, ◌++◌, Bool, true,
  false, Option, none, some, ltb, leb, ◌==◌, if◌then◌else◌, ◌≡◌, not,
}
use libcdoc.Outcome.{Result, count, fail, ok, Got, got, refused, input_stream_error}

-- `DataSource::read` and `isEof`, over the state of the stream.
pub record Source (S : Type 0) : Type 0 where
  pub read : ℕ → S → Got S
  pub is_eof : S → Bool

-- `DataConsumer::write` and `close`.
pub record Sink (S : Type 0) : Type 0 where
  pub write : Bytes → S → Result × S
  pub close : S → Result × S

-- `VectorSource`.
pub record VectorSource : Type 0 where
  pub bytes : Bytes
  pub ptr : ℕ

unfoldable pub vector_read : ℕ → VectorSource → Got VectorSource
vector_read size v =
    let n = min size (length v.bytes - v.ptr) in
    got (take n (drop v.ptr v.bytes)) (record v { ptr = v.ptr + n })

unfoldable pub vector_is_eof : VectorSource → Bool
vector_is_eof v = leb (length v.bytes) v.ptr

unfoldable pub vector_seek : ℕ → VectorSource → Result × VectorSource
vector_seek pos v =
    if ltb (length v.bytes) pos then (fail input_stream_error, v) else (ok, record v { ptr = pos })

abbrev pub vector_source : Source VectorSource
vector_source = record { read = vector_read; is_eof = vector_is_eof }

-- `VectorConsumer`; its state is the vector that it appends to.
unfoldable pub vector_write : Bytes → Bytes → Result × Bytes
vector_write src v = (count (length src), v ++ src)

abbrev pub vector_consumer : Sink Bytes
vector_consumer = record { write = vector_write; close = λ v. (ok, v) }

module _ {S : Type 0} (src : Source S) where
  open src use {read, is_eof}

  abbrev pub skip_block_size : ℕ
  skip_block_size = 65536

  -- The loop of `DataSource::skip`, with fuel for its rounds.
  unfoldable pub skip_loop : ℕ → ℕ → ℕ → S → Result × S
  skip_loop zero size total_read s = (count total_read, s)
  skip_loop (suc fuel) size total_read s =
      if ltb total_read size
      then (let to_read = min (size - total_read) skip_block_size in
          elim (read to_read s) [
            | refused c s' ↦ (fail c, s')
            | got b s' ↦
                (let more = skip_loop fuel size (total_read + length b) s' in
                  if ltb (length b) to_read then (count (total_read + length b), s') else more)
          ])
      else (count total_read, s)

  -- Every round but the last one reads a whole block.
  unfoldable pub skip : ℕ → S → Result × S
  skip size s = skip_loop (size / skip_block_size + 2) size 0 s

  module _ {D : Type 0} (dst : Sink D) where
    abbrev pub copy_block_size : ℕ
    copy_block_size = 65536

    -- The loop of `DataConsumer::writeAll`; `none` is fuel that ran out.
    unfoldable pub write_all_loop : ℕ → ℕ → S → D → Option (Result × S × D)
    write_all_loop zero total s d = none
    write_all_loop (suc fuel) total s d =
        if is_eof s then some (count total, s, d) else elim (read copy_block_size s) [
          | refused c s' ↦ some (fail c, s', d)
          | got b s' ↦
              (let (written, d') = dst.write b d in
                elim b [
                  | [] ↦ write_all_loop fuel total s' d
                  | x ∷ r ↦ elim written [
                    | fail c ↦ some (fail c, s', d')
                    | count n ↦ write_all_loop fuel (total + n) s' d'
                  ]
                ])
        ]
