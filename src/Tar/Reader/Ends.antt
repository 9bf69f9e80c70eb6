-- ===== src/Tar/Reader/Ends.antt =====
-- The loop of `TarSource::next` (cdoc/Tar.cpp) ends on every archive in memory.
use libcdoc.Base.{
  ℕ, zero, suc, ◌+◌, ◌-◌, ◌^◌, ◌≤◌, ◌<◌, min, length, length-take, length-drop, take, Bool, true,
  false, Option, none, some, ltb, ◌==◌, ==_iff, if◌then◌else◌, ◌≡◌, refl, sym, ap, ◌∙◌, arith,
  Bool-cases, Option-cases, inl, inr,
}
use libcdoc.Outcome.{Code, data_format_error}
use libcdoc.Io.{VectorSource, vector_source, vector_is_eof, skip}
use libcdoc.Io.Stream.{vector_read_lem, vector_rest, skip-vector_source}
use libcdoc.Tar.Octal.{block_size, max_aux_header_size, padding}
use libcdoc.Tar.Header.{Header, is_null, verify, get_size, get_name}
use libcdoc.Tar.Pax.{PaxState}
use libcdoc.Tar.Reader.{
  TarSource, Next, entry, stopped, Block, block, no_block, Pax, pax, bad_pax, read_block, read_pax,
  failed, is_file, as_block, enter, next_loop, next,
}

-- The bytes that are left.
abbrev left : VectorSource → ℕ
left v = length (vector_rest v)

data Came (b : Block VectorSource) : Type 0 where
  came : (h : Header) (s : VectorSource) → b ≡ block h s → Came b
  gone : (s : VectorSource) → b ≡ no_block s → Came b

Came-cases : (b : Block VectorSource) → Came b
Came-cases (block h s) = came h s refl
Came-cases (no_block s) = gone s refl

data Parsed (p : Pax VectorSource) : Type 0 where
  good : (st : PaxState) (s : VectorSource) → p ≡ pax st s → Parsed p
  bad : (c : Code) (s : VectorSource) → p ≡ bad_pax c s → Parsed p

Parsed-cases : (p : Pax VectorSource) → Parsed p
Parsed-cases (pax st s) = good st s refl
Parsed-cases (bad_pax c s) = bad c s refl

-- A header that is read uses 512 bytes.
block-left :
    (v v' : VectorSource) (h : Header)
    → read_block vector_source v ≡ block h v'
    → left v' + block_size ≤ left v
unfolding read_block
block-left v v' h e =
    let size = length-take block_size (vector_rest v) in
    let e' = ap as_block (sym (vector_read_lem block_size v)) ∙ e in
    elim (Bool-cases (length (take block_size (vector_rest v)) == block_size)) [
      | inl whole ↦
          let came_from : record v { ptr = v.ptr + min block_size (left v) } ≡ v' =
            cc (rw whole at e') in
          let enough : block_size ≤ left v = omega (arith, size, (==_iff _ block_size).0 whole) in
          rw (← came_from) (
            omega (
              arith,
              enough,
              length-drop (v.ptr + min block_size (left v)) v.bytes,
              length-drop v.ptr v.bytes,
            ))
      | inr part ↦ absurd (cc (rw part at e'))
    ]

skip-left : (n : ℕ) (v : VectorSource) → left (skip vector_source n v).1 ≤ left v
skip-left n v =
    rw (skip-vector_source n v)
      (omega (arith, length-drop (v.ptr + min n (left v)) v.bytes, length-drop v.ptr v.bytes))

abbrev pub is_some : {A : Type 0} → Option A → Bool
is_some none = false
is_some (some a) = true

next_loop-some :
    (fuel : ℕ) (v : VectorSource) (t : TarSource VectorSource)
    → left v < fuel
    → is_some (next_loop vector_source fuel v t) ≡ true
unfolding next_loop
next_loop-some zero v t enough = absurd (omega arith)
next_loop-some (suc fuel) v t enough = elim (Bool-cases (vector_is_eof v)) [
  | inl eof ↦ rw eof refl
  | inr more ↦ elim (Came-cases (read_block vector_source v)) [
    | gone s e ↦ rw (more, next_loop, e) refl
    | came h s e ↦ elim (Bool-cases (is_null h)) [
      | inl null ↦ rw (more, next_loop, e, null) refl
      | inr full ↦ elim (Bool-cases (verify h)) [
        | inr wrong ↦ rw (more, next_loop, e, full, wrong) refl
        | inl right ↦ elim (Bool-cases (h.typeflag == b'x')) [
          | inl is_pax ↦ elim (Parsed-cases (read_pax vector_source h s)) [
            | bad c s' p ↦ rw (more, next_loop, e, full, right, is_pax, p) refl
            | good st s' p ↦ rw (more, next_loop, e, full, right, is_pax, p) refl
          ]
          | inr not_pax ↦ elim (Bool-cases (is_file h)) [
            | inl file ↦ rw (more, next_loop, e, full, right, not_pax, file) refl
            | inr other ↦ elim (Option-cases (get_size h)) [
              | inl no_size ↦ rw (more, next_loop, e, full, right, not_pax, other, no_size) refl
              | inr (n, size) ↦ elim (Bool-cases (ltb max_aux_header_size n)) [
                | inl large ↦ rw (more, next_loop, e, full, right, not_pax, other, size, large) refl
                | inr small ↦
                    rw (more, next_loop, e, full, right, not_pax, other, size, small)
                      (next_loop-some fuel (skip vector_source (n + padding n) s).1 t
                        (omega (arith, skip-left (n + padding n) s, block-left v s h e)))
              ]
            ]
          ]
        ]
      ]
    ]
  ]
]

some_of : {A : Type 0} (o : Option A) → is_some o ≡ true → (a : A) × (o ≡ some a)
some_of none h = absurd (cc h)
some_of (some a) h = (a, refl)

-- Over an archive in memory TarSource::next ends, given more rounds than there are bytes left in
-- the archive.
pub next-Ends :
    (fuel : ℕ) (t : TarSource VectorSource)
    → left t.src < fuel
    → (r : Next VectorSource) × (next vector_source fuel t ≡ some r)
unfolding next
next-Ends fuel t enough =
    some_of (next vector_source fuel t) (elim (Bool-cases (ltb t.pos t.block_end)) [
      | inr at_start ↦ rw at_start (next_loop-some fuel t.src t enough)
      | inl inside ↦
          rw (inside, skip-vector_source (t.block_end - t.pos) t.src)
            (next_loop-some fuel _ _ (omega (arith, skip-left (t.block_end - t.pos) t.src)))
    ])

-- In an archive in memory that is not at its end, a header that is whole, not null and no PAX
-- header, with the right checksum and a size field above 8 GiB, is let through when it is that of a
-- file, with a size of -1 and room for 2 ^ 64 - 1 bytes of data; any other one stops the archive.
pub unsized_file :
    (fuel : ℕ) (v s : VectorSource) (t : TarSource VectorSource) (h : Header)
    → vector_is_eof v ≡ false
    → read_block vector_source v ≡ block h s
    → is_null h ≡ false
    → verify h ≡ true
    → (h.typeflag == b'x') ≡ false
    → get_size h ≡ none
    → next_loop vector_source (suc fuel) v t
      ≡ some (
          if is_file h
          then entry (get_name h) none record {
            src = s;
            eof = false;
            error = t.error;
            block_end = 0;
            data_size = 2 ^ 64 - 1;
            pos = 0;
          }
          else stopped data_format_error (record t { src = s; error = some data_format_error }))
unfolding next_loop enter failed
unsized_file fuel v s t h more e full right not_pax size = elim (Bool-cases (is_file h)) [
  | inl file ↦ rw (more, next_loop, e, full, right, not_pax, file, enter, size)
  | inr other ↦ rw (more, next_loop, e, full, right, not_pax, other, size)
]
