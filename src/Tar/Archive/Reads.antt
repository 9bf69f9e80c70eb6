-- ===== src/Tar/Archive/Reads.antt =====
-- What `TarSource` (cdoc/Tar.cpp) reads from an archive in memory.
use libcdoc.Base.{
  ℕ, zero, suc, ◌+◌, ◌-◌, ◌≤◌, ◌<◌, min, Bytes, All, length, length-append, length-replicate, take,
  drop, take-append, drop-append, drop-drop, drop_all, replicate, List, [], ◌∷◌, ◌++◌, append_assoc,
  append-nil, true, false, ◌||◌, Option, none, some, ltb, leb, ◌==◌, list_eq, list_eq_sound, ◌≡◌,
  ◌≢◌, refl, sym, ap, ◌∙◌, inl, inr, arith, Bool-cases,
}
use libcdoc.Outcome.{count, got, end_of_stream}
use libcdoc.Io.{VectorSource, vector_source, vector_read, vector_is_eof, skip}
use libcdoc.Io.Stream.{vector_rest, vector_read_full, skip-vector_source}
use libcdoc.Tar.Octal.{block_size, max_file_size, padding}
use libcdoc.Tar.Header.{Header, to_bytes, of_bytes, empty, is_null, verify, get_name, get_size}
use libcdoc.Tar.Writer.{fill_header, need_pax_name, need_pax_size, any_special, is_special}
use libcdoc.Tar.Writer.HeaderLaws.{verify-fill_header, get_size-fill_header, get_name-fill_header}
use libcdoc.Tar.Reader.{
  TarSource, entry, stopped, block, take_read, read, read_block, as_block, enter, at_end, next_loop,
  rewound, next, is_file,
}
use libcdoc.Tar.Archive.{image, archive, IsPlain, ArePlain}
use libcdoc.Tar.Archive.Block.{fill_header-of_bytes}

-- Moved on by `n` bytes.
abbrev moved : ℕ → VectorSource → VectorSource
moved n v = record v { ptr = v.ptr + n }

module _ (n : ℕ) (v : VectorSource) (a r : Bytes) (front : vector_rest v ≡ a ++ r)
    (size : length a ≡ n) where
  rest_moved : vector_rest (moved n v) ≡ r
  rest_moved = sym (drop-drop n v.ptr v.bytes) ∙ ap (λ t. drop n t) front ∙ drop-append n a r size

  enough_left : n ≤ length (vector_rest v)
  enough_left = omega (arith, ap length front, length-append a r, size)

  read_front : vector_read n v ≡ got a (moved n v)
  read_front =
      vector_read_full n v enough_left
      ∙ ap (λ t. got t (moved n v)) (ap (λ t. take n t) front ∙ take-append n a r size)

  skip_front : skip vector_source n v ≡ (count n, moved n v)
  skip_front =
      let least : min n (length (vector_rest v)) ≡ n = omega (arith, enough_left) in
      skip-vector_source n v ∙ ap (λ k. (count k, moved k v)) least

not_at_end : (v : VectorSource) → vector_rest v ≢ [] → vector_is_eof v ≡ false
unfolding vector_is_eof
not_at_end v full = elim (Bool-cases (leb (length v.bytes) v.ptr)) [
  | inl over ↦ absurd (full (drop_all v.ptr v.bytes (ground arith)))
  | inr more ↦ more
]

any_special-All : (s : Bytes) → any_special s ≡ false → All (λ c. c ≢ 0) s
unfolding any_special is_special
any_special-All [] h = tt
any_special-All (c ∷ s) h = ((λ e. absurd (ground arith)), any_special-All s (ground arith))

plain_name :
    (name : Bytes) → need_pax_name name ≡ false → All (λ c. c ≢ 0) name × (length name < 100)
unfolding need_pax_name
plain_name name h = elim (Bool-cases (leb 100 (length name))) [
  | inl long ↦ absurd (cc (rw (need_pax_name, long) at h))
  | inr short ↦ (any_special-All name (rw (need_pax_name, short) at h), ground arith)
]

empty_flag : (of_bytes (to_bytes empty)).typeflag ≡ 0
unfolding of_bytes to_bytes
empty_flag = refl

filled_flag :
    (name : Bytes) (size : Option ℕ) (typeflag : ℕ)
    → (fill_header name size typeflag).typeflag ≡ typeflag
unfolding fill_header
filled_flag name size typeflag = refl

filled-full : (name : Bytes) (size : Option ℕ) → is_null (fill_header name size b'0') ≡ false
unfolding is_null
filled-full name size =
    let h = fill_header name size b'0' in
    elim (Bool-cases (list_eq (to_bytes h) (to_bytes empty))) [
      | inl null ↦
          (let same =
              ap (λ b. (of_bytes b).typeflag) (list_eq_sound (to_bytes h) (to_bytes empty) null) in
            let whole = ap (λ (x : Header). x.typeflag) (fill_header-of_bytes name size b'0').0 in
            absurd (omega (arith, same, whole, empty_flag, filled_flag name size b'0')))
      | inr full ↦ full
    ]

as_block_front :
    (b : Bytes) (v : VectorSource)
    → length b ≡ block_size
    → as_block (got b v) ≡ block (of_bytes b) v
as_block_front b v e = let whole : (length b == block_size) ≡ true = ground arith in rw whole refl

plain_size : (n : ℕ) → need_pax_size (some n) ≡ false → n < max_file_size
unfolding need_pax_size
plain_size n h = ground arith

next_loop_file :
    (fuel : ℕ) (v v' : VectorSource) (h : Header) (name : Bytes) (n : ℕ)
    (t : TarSource VectorSource)
    → vector_is_eof v ≡ false
    → read_block vector_source v ≡ block h v'
    → is_null h ≡ false
    → verify h ≡ true
    → (h.typeflag == b'x') ≡ false
    → is_file h ≡ true
    → get_name h ≡ name
    → get_size h ≡ some n
    → next_loop vector_source (suc fuel) v t
      ≡ some (
          entry name (some n) (record {
            src = v';
            eof = false;
            error = t.error;
            block_end = n + padding n;
            data_size = n;
            pos = 0;
          }))
unfolding next_loop enter
next_loop_file fuel v v' h name n t more came full right not_pax file named sized =
    rw (more, next_loop, came, full, right, not_pax, file, named, sized) refl

module _ (name contents rest : Bytes) (v : VectorSource) (plain : IsPlain name contents)
    (front : vector_rest v ≡ image name contents ++ rest) where
  abbrev header : Header
  header = fill_header name (some (length contents)) b'0'

  abbrev body : Bytes
  body = contents ++ replicate (padding (length contents)) 0

  front_header : vector_rest v ≡ to_bytes header ++ (body ++ rest)
  front_header = front ∙ append_assoc (to_bytes header) body rest

  read_block_front : read_block vector_source v ≡ block header (moved block_size v)
  unfolding read_block
  read_block_front =
      let whole = fill_header-of_bytes name (some (length contents)) b'0' in
      ap as_block (read_front block_size v (to_bytes header) (body ++ rest) front_header whole.1)
      ∙ as_block_front (to_bytes header) (moved block_size v) whole.1
      ∙ ap (λ h. block h (moved block_size v)) whole.0

  rest_block :
      vector_rest (moved block_size v)
      ≡ contents ++ (replicate (padding (length contents)) 0 ++ rest)
  rest_block =
      rest_moved block_size v (to_bytes header) (body ++ rest) front_header
        (fill_header-of_bytes name (some (length contents)) b'0').1
      ∙ append_assoc contents (replicate (padding (length contents)) 0) rest

  abbrev entered : TarSource VectorSource → TarSource VectorSource
  entered t = record {
    src = moved block_size v;
    eof = false;
    error = t.error;
    block_end = length contents + padding (length contents);
    data_size = length contents;
    pos = 0;
  }

  next_loop_front :
      (fuel : ℕ) (t : TarSource VectorSource)
      → next_loop vector_source (suc fuel) v t
        ≡ some (entry name (some (length contents)) (entered t))
  next_loop_front fuel t =
      let (clean, short) = plain_name name plain.short_name in
      let more : vector_is_eof v ≡ false = not_at_end v (λ e. absurd (
        omega (
          arith,
          ap length e,
          ap length front_header,
          length-append (to_bytes header) (body ++ rest),
          (fill_header-of_bytes name (some (length contents)) b'0').1,
        ))) in
      next_loop_file fuel v (moved block_size v) header name (length contents) t more
        read_block_front (filled-full name (some (length contents)))
        (verify-fill_header name (some (length contents)) b'0' plain.bytes (omega arith))
        (ap (λ c. c == b'x') (filled_flag name (some (length contents)) b'0'))
        (ap (λ c. (c == b'0') || (c == 0)) (filled_flag name (some (length contents)) b'0'))
        (get_name-fill_header name (some (length contents)) b'0' clean short)
        (get_size-fill_header name (length contents) b'0'
          (plain_size (length contents) plain.small))

-- A read takes the bytes of an entry that has just been entered.
take_contents :
    (b rest : Bytes) (v : VectorSource) (t : TarSource VectorSource)
    → t.error ≡ none
    → t.src ≡ v
    → t.pos ≡ 0
    → t.data_size ≡ length b
    → vector_rest v ≡ b ++ rest
    → (t' : TarSource VectorSource) × (read vector_source (length b) t ≡ got b t')
      × (vector_rest t'.src ≡ rest)
      × (t'.pos ≡ length b)
      × (t'.block_end ≡ t.block_end)
      × (t'.error ≡ none)
unfolding read take_read
take_contents [] rest v t fine at_v start size front =
    let none_left : leb t.data_size t.pos ≡ true = ground arith in
    (record t { eof = true }, rw (fine, read, none_left) refl, rw at_v front, start, refl, fine)
take_contents (x ∷ b) rest v t fine at_v start size front =
    let some_left : leb t.data_size t.pos ≡ false = ground arith in
    let asked : min (t.data_size - t.pos) (length (x ∷ b)) ≡ length (x ∷ b) = omega arith in
    (
      record t { src = moved (length (x ∷ b)) v; pos = t.pos + length (x ∷ b) },
      rw (fine, read, some_left, asked, at_v, read_front (length (x ∷ b)) v (x ∷ b) rest front refl)
          refl,
      rest_moved (length (x ∷ b)) v (x ∷ b) rest front refl,
      omega arith,
      refl,
      fine,
    )

-- Before a header: `next` starts its loop on what is left, without an error.
record AtFront (t : TarSource VectorSource) (b : Bytes) : Type 0 where
  source : VectorSource
  inner : TarSource VectorSource
  starts : (fuel : ℕ) → next vector_source fuel t ≡ next_loop vector_source fuel source inner
  front : vector_rest source ≡ b
  fine : inner.error ≡ none

-- The padding behind an entry is skipped.
skip_padding :
    (n : ℕ) (b : Bytes) (t : TarSource VectorSource)
    → t.error ≡ none
    → vector_rest t.src ≡ replicate n 0 ++ b
    → t.block_end ≡ t.pos + n
    → AtFront t b
unfolding next
skip_padding zero b t fine front ends =
    let at_block : ltb t.pos t.block_end ≡ false = ground arith in
    record {
      source = t.src;
      inner = t;
      starts = λ fuel. rw at_block refl;
      front = front;
      fine = fine;
    }
skip_padding (suc n) b t fine front ends =
    let inside : ltb t.pos t.block_end ≡ true = ground arith in
    let left : t.block_end - t.pos ≡ suc n = omega arith in
    let zeros : Bytes = replicate (suc n) 0 in
    let size : length zeros ≡ suc n = length-replicate (suc n) 0 in
    let jumped : skip vector_source (t.block_end - t.pos) t.src
        ≡ (count (suc n), moved (suc n) t.src) =
      ap (λ k. skip vector_source k t.src) left ∙ skip_front (suc n) t.src zeros b front size in
    record {
      source = moved (suc n) t.src;
      inner = rewound vector_source (moved (suc n) t.src) t;
      starts = λ fuel. rw (inside, ap (λ r. r.0) jumped, ap (λ r. r.1) jumped) refl;
      front = rest_moved (suc n) t.src zeros b front size;
      fine = fine;
    }

-- Calls of `next` and `read` that give files, and then the end of the archive.
pub data Gives (fuel : ℕ) : TarSource VectorSource → List (Bytes × Bytes) → Type 0 where
  ends :
      (t t' : TarSource VectorSource)
      → next vector_source fuel t ≡ some (stopped end_of_stream t')
      → Gives fuel t []
  gives :
      (name contents : Bytes) (t t1 t2 : TarSource VectorSource) (files : List (Bytes × Bytes))
      → next vector_source fuel t ≡ some (entry name (some (length contents)) t1)
      → read vector_source (length contents) t1 ≡ got contents t2
      → Gives fuel t2 files
      → Gives fuel t ((name, contents) ∷ files)

null_again : is_null (of_bytes (to_bytes empty)) ≡ true
unfolding is_null of_bytes to_bytes
null_again = refl

length-empty : length (to_bytes empty) ≡ block_size
unfolding to_bytes
length-empty = refl

read_null :
    (v : VectorSource) (r : Bytes)
    → vector_rest v ≡ to_bytes empty ++ r
    → read_block vector_source v ≡ block (of_bytes (to_bytes empty)) (moved block_size v)
unfolding read_block
read_null v r front =
    ap as_block (read_front block_size v (to_bytes empty) r front length-empty)
    ∙ as_block_front (to_bytes empty) (moved block_size v) length-empty

null_ends :
    (fuel : ℕ) (v : VectorSource) (t : TarSource VectorSource)
    → vector_rest v ≡ archive []
    → (t' : TarSource VectorSource) × (next_loop vector_source (suc fuel) v t
        ≡ some (stopped end_of_stream t'))
unfolding next_loop at_end
null_ends fuel v t front =
    let v1 = moved block_size v in
    let more : vector_is_eof v ≡ false = not_at_end v (λ e. absurd (
      omega (
        arith,
        ap length e,
        ap length front,
        length-append (to_bytes empty) (to_bytes empty),
        length-empty,
      ))) in
    let after_one : vector_rest v1 ≡ to_bytes empty ++ [] =
      rest_moved block_size v (to_bytes empty) (to_bytes empty) front length-empty
      ∙ sym (append-nil (to_bytes empty)) in
    (
      record t { src = moved block_size v1; eof = true },
      rw
          (
            more,
            read_null v (to_bytes empty) front,
            next_loop,
            null_again,
            at_end,
            read_null v1 [] after_one,
          )
          refl,
    )

archive-Gives :
    (fuel : ℕ) (files : List (Bytes × Bytes)) (t : TarSource VectorSource)
    → ArePlain files
    → AtFront t (archive files)
    → Gives (suc fuel) t files
archive-Gives fuel [] t plain at =
    let (t', over) = null_ends fuel at.source at.inner at.front in
    ends t t' (at.starts (suc fuel) ∙ over)
archive-Gives fuel ((name, contents) ∷ files) t plain at =
    let e = entered name contents (archive files) at.source plain.0 at.front at.inner in
    let (t2, taken, left, pos_at, block_at, fine) =
      take_contents contents (replicate (padding (length contents)) 0 ++ archive files)
        (moved block_size at.source) e at.fine refl refl refl
        (rest_block name contents (archive files) at.source plain.0 at.front) in
    gives name contents t e t2 files
      (at.starts (suc fuel)
        ∙ next_loop_front name contents (archive files) at.source plain.0 at.front fuel at.inner)
      taken
      (archive-Gives fuel files t2 plain.1 (
        skip_padding (padding (length contents)) (archive files) t2 fine left
          (block_at ∙ ap (λ n. n + padding (length contents)) (sym pos_at))))

-- A `TarSource` over the bytes `b`, before its first call.
abbrev pub over_bytes : Bytes → TarSource VectorSource
over_bytes b = record {
  src = record { bytes = b; ptr = 0 };
  eof = false;
  error = none;
  block_end = 0;
  data_size = 0;
  pos = 0;
}

pub archive-Gives_files :
    (fuel : ℕ) (files : List (Bytes × Bytes))
    → ArePlain files
    → Gives (suc fuel) (over_bytes (archive files)) files
archive-Gives_files fuel files plain = archive-Gives fuel files _ plain record {
  source = record { bytes = archive files; ptr = 0 };
  inner = over_bytes (archive files);
  starts = λ fuel. unfold next in refl;
  front = refl;
  fine = refl;
}
