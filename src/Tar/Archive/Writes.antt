-- ===== src/Tar/Archive/Writes.antt =====
-- What `TarConsumer` (cdoc/Tar.cpp) leaves in memory.
use libcdoc.Base.{
  ℕ, suc, ◌+◌, Bytes, length, List, [], ◌∷◌, ◌++◌, append_assoc, append-nil, replicate, subst, Bool,
  true, false, some, ltb, ◌==◌, ◌≡◌, refl, sym, ap, ◌∙◌, inl, inr, arith, Bool-cases,
}
use libcdoc.Outcome.{count, ok}
use libcdoc.Io.{vector_consumer, vector_write}
use libcdoc.Tar.Octal.{padding}
use libcdoc.Tar.Header.{to_bytes, empty}
use libcdoc.Tar.Writer.{
  TarConsumer, fill_header, write_block, write_header, write_padding, ◌then_do◌, write, unfinished,
  finish_entry, close, write_pax, open_entry,
}
use libcdoc.Tar.Archive.{image, archive, IsPlain, ArePlain}
use libcdoc.Tar.Archive.Reads.{Gives, over_bytes, archive-Gives_files}

-- Calls of `open` and `write` that store files, and then of `close`, which all succeed.
pub data Stores : TarConsumer Bytes → List (Bytes × Bytes) → TarConsumer Bytes → Type 0 where
  closes : (t t' : TarConsumer Bytes) → close vector_consumer t ≡ (ok, t') → Stores t [] t'
  stores :
      (name contents : Bytes) (t t1 t2 t3 : TarConsumer Bytes) (files : List (Bytes × Bytes))
      → open_entry vector_consumer name (some (length contents)) t ≡ (ok, t1)
      → write vector_consumer contents t1 ≡ (count (length contents), t2)
      → Stores t2 files t3
      → Stores t ((name, contents) ∷ files) t3

-- A `TarConsumer` before its first call.
abbrev pub fresh : Bool → TarConsumer Bytes
fresh owned = record { dst = []; owned = owned; current_size = some 0; current_written = 0 }

write_block-appends : (b d : Bytes) → write_block vector_consumer b d ≡ (ok, d ++ b)
unfolding write_block vector_write
write_block-appends b d = let whole : (length b == length b) ≡ true = ground arith in rw whole refl

padding-zero : padding 0 ≡ 0
unfolding padding
padding-zero = refl

finish_entry-pads :
    (t : TarConsumer Bytes)
    → finish_entry vector_consumer t ≡ (ok, t.dst ++ replicate (padding t.current_written) 0)
unfolding finish_entry write_padding
finish_entry-pads t = elim (Bool-cases (ltb 0 t.current_written)) [
  | inl some_written ↦ rw (some_written, write_block-appends _ t.dst) refl
  | inr none_written ↦
      let start : t.current_written ≡ 0 = ground arith in
      rw (none_written, start, padding-zero, append-nil t.dst) refl
]

-- The entry that is open is complete, and `b` stands behind it once it is padded.
record AtBlock (t : TarConsumer Bytes) (b : Bytes) : Type 0 where
  complete : unfinished vector_consumer t ≡ false
  padded : t.dst ++ replicate (padding t.current_written) 0 ≡ b

module _ (t : TarConsumer Bytes) (b : Bytes) (at : AtBlock t b) where
  tail_written :
      ◌then_do◌ vector_consumer
        (◌then_do◌ vector_consumer
          (finish_entry vector_consumer t)
          (write_header vector_consumer empty))
        (write_header vector_consumer empty)
      ≡ (ok, b ++ archive [])
  unfolding write_header
  tail_written =
      rw
        (
          finish_entry-pads t,
          at.padded,
          write_block-appends (to_bytes empty) b,
          write_block-appends (to_bytes empty) (b ++ to_bytes empty),
          append_assoc b (to_bytes empty) (to_bytes empty),
        )
        refl

  close-archive : close vector_consumer t ≡ (ok, record t { dst = b ++ archive [] })
  unfolding close
  close-archive = elim (Bool-cases t.owned) [
    | inl own ↦ rw (at.complete, tail_written, own) refl
    | inr shared ↦ rw (at.complete, tail_written, shared) refl
  ]

  open_entry-header :
      (name contents : Bytes)
      → IsPlain name contents
      → open_entry vector_consumer name (some (length contents)) t ≡ (
        ok,
        record t {
          dst = b ++ to_bytes (fill_header name (some (length contents)) b'0');
          current_size = some (length contents);
          current_written = 0;
        },
      )
  unfolding open_entry write_pax write_header
  open_entry-header name contents plain =
      rw
        (
          at.complete,
          finish_entry-pads t,
          at.padded,
          plain.short_name,
          plain.small,
          write_block-appends (to_bytes (fill_header name (some (length contents)) b'0')) b,
        )
        refl

write_contents :
    (contents : Bytes) (t : TarConsumer Bytes)
    → t.current_size ≡ some (length contents)
    → t.current_written ≡ 0
    → write vector_consumer contents t ≡ (
      count (length contents),
      record t { dst = t.dst ++ contents; current_written = t.current_written + length contents },
    )
unfolding write vector_write
write_contents contents t size start =
    let fits : ltb (length contents) (t.current_written + length contents) ≡ false = ground arith in
    rw (size, fits) refl

-- Behind an entry whose bytes are all written, the archive goes on at the next block.
entry-AtBlock :
    (name contents b : Bytes) (t : TarConsumer Bytes)
    → AtBlock
        (record t {
          dst = (b ++ to_bytes (fill_header name (some (length contents)) b'0')) ++ contents;
          current_size = some (length contents);
          current_written = 0 + length contents;
        })
        (b ++ image name contents)
unfolding unfinished
entry-AtBlock name contents b t =
    let h = to_bytes (fill_header name (some (length contents)) b'0') in
    let z : Bytes = replicate (padding (length contents)) 0 in
    let written : 0 + length contents ≡ length contents = omega arith in
    record {
      complete = ground arith;
      padded =
          ap (λ n. ((b ++ h) ++ contents) ++ replicate (padding n) 0) written
          ∙ append_assoc (b ++ h) contents z
          ∙ append_assoc b h (contents ++ z);
    }

Stores-archive :
    (files : List (Bytes × Bytes)) (b : Bytes) (t : TarConsumer Bytes)
    → ArePlain files
    → AtBlock t b
    → (t' : TarConsumer Bytes) × Stores t files t' × (t'.dst ≡ b ++ archive files)
Stores-archive [] b t plain at =
    let t' : TarConsumer Bytes = record t { dst = b ++ archive [] } in
    (t', closes t t' (close-archive t b at), refl)
Stores-archive ((name, contents) ∷ files) b t plain at =
    let h = to_bytes (fill_header name (some (length contents)) b'0') in
    let t1 : TarConsumer Bytes = record t {
      dst = b ++ h;
      current_size = some (length contents);
      current_written = 0;
    } in
    let t2 : TarConsumer Bytes = record t1 {
      dst = (b ++ h) ++ contents;
      current_written = 0 + length contents;
    } in
    let (t', rest, all) =
      Stores-archive files (b ++ image name contents) t2 plain.1
        (entry-AtBlock name contents b t) in
    (
      t',
      stores name contents t t1 t2 t' files (open_entry-header t b at name contents plain.0)
          (write_contents contents t1 refl refl) rest,
      all ∙ append_assoc b (image name contents) (archive files),
    )

fresh-AtBlock : (owned : Bool) → AtBlock (fresh owned) []
unfolding unfinished
fresh-AtBlock owned = record { complete = refl; padded = ap (λ n. replicate n 0) padding-zero }

-- For any files whose names and sizes need no PAX header: a TarConsumer over an empty vector
-- takes open and write of each file and then close, all with success, and a TarSource over the
-- bytes that stand in the vector then gives every file, its name, size and contents, in the
-- order they were stored, without an error, and after the last one the end of the stream.
pub Stores-Gives :
    (owned : Bool) (fuel : ℕ) (files : List (Bytes × Bytes))
    → ArePlain files
    → (t : TarConsumer Bytes) × Stores (fresh owned) files t
      × Gives (suc fuel) (over_bytes t.dst) files
Stores-Gives owned fuel files plain =
    let (t, stored, all) = Stores-archive files [] (fresh owned) plain (fresh-AtBlock owned) in
    (
      t,
      stored,
      subst (λ b. Gives (suc fuel) (over_bytes b) files) (sym all)
          (archive-Gives_files fuel files plain),
    )
