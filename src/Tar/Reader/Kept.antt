-- ===== src/Tar/Reader/Kept.antt =====
-- What the stream below keeps, `TarSource` (cdoc/Tar.cpp) keeps of it.
use libcdoc.Base.{
  ℕ, zero, suc, ◌+◌, ◌-◌, length, [], ◌∷◌, not, ◌||◌, Option, none, some, ltb, leb, ◌==◌, ◌≡◌, ◌⊎◌,
  inl, inr, refl, Bool-cases, Option-cases,
}
use libcdoc.Outcome.{Code, Result-cases, Got, got, refused, Got-cases}
use libcdoc.Io.{Source, skip}
use libcdoc.Io.Invariant.{Kept, Keeps, Kept-got, skip_kept}
use libcdoc.Tar.Octal.{block_size, max_aux_header_size, padding}
use libcdoc.Tar.Header.{Header, is_null, verify, get_size}
use libcdoc.Tar.Pax.{PaxState, parse_pax}
use libcdoc.Tar.Reader.{
  TarSource, Next, entry, stopped, Block, block, no_block, Pax, pax, bad_pax, as_block, is_file,
  take_read, read, read_block, read_pax, failed, enter, after_pax, at_end, next_loop, rewound, next,
}

module _ {S : Type 0} (io : Source S) (P : S → Type 0) (keeps : Keeps io P) where
  abbrev pub Below : TarSource S → Type 0
  Below t = P t.src

  abbrev BlockKept : Block S → Type 0
  BlockKept (block h s) = P s
  BlockKept (no_block s) = P s

  abbrev PaxKept : Pax S → Type 0
  PaxKept (pax st s) = P s
  PaxKept (bad_pax c s) = P s

  abbrev pub NextKept : Next S → Type 0
  NextKept (entry name size t) = Below t
  NextKept (stopped c t) = Below t

  abbrev pub NextSome : Option (Next S) → Type 0
  NextSome none = Unit
  NextSome (some r) = NextKept r

  take-Kept : (g : Got S) (t : TarSource S) → Kept P g → Kept Below (take_read io g t)
  unfolding take_read
  take-Kept (refused c s) t p = p
  take-Kept (got [] s) t p = p
  take-Kept (got (x ∷ r) s) t p = p

  pub read-Kept : (size : ℕ) (t : TarSource S) → Below t → Kept Below (read io size t)
  unfolding read
  read-Kept size t p = elim (Option-cases t.error) [
    | inr (c, e) ↦ rw (e, read) p
    | inl clean ↦ elim (Bool-cases (leb t.data_size t.pos)) [
      | inl done ↦ rw (clean, read, done) p
      | inr more ↦
          rw (clean, read, more) (take-Kept _ (record t { error = none }) (keeps _ t.src p))
    ]
  ]

  as_block-Kept : (g : Got S) → Kept P g → BlockKept (as_block g)
  as_block-Kept (refused c s) p = p
  as_block-Kept (got b s) p = elim (Bool-cases (length b == block_size)) [
    | inl whole ↦ rw whole p
    | inr short ↦ rw short p
  ]

  block_kept : (s : S) → P s → BlockKept (read_block io s)
  unfolding read_block
  block_kept s p = as_block-Kept _ (keeps block_size s p)

  read_pax_kept : (h : Header) (s : S) → P s → PaxKept (read_pax io h s)
  unfolding read_pax
  read_pax_kept h s p = elim (Option-cases (get_size h)) [
    | inl unsized ↦ rw (unsized, read_pax) p
    | inr (n, sized) ↦ elim (Bool-cases (ltb max_aux_header_size n)) [
      | inl large ↦ rw (sized, read_pax, large) p
      | inr fits ↦ elim (Got-cases (io.read n s)) [
        | inl (c, s', e) ↦ rw (sized, read_pax, fits, e) (Kept-got io P keeps n s _ p e)
        | inr (b, s', e) ↦
            let p' = Kept-got io P keeps n s _ p e in
            elim (Bool-cases (length b == n)) [
              | inr short ↦ rw (sized, read_pax, fits, e, short) p'
              | inl whole ↦
                  let p'' = skip_kept io P keeps (padding n) s' p' in
                  elim (Option-cases (parse_pax b (record { name = []; size = none }))) [
                    | inl bad ↦ rw (sized, read_pax, fits, e, whole, bad) p''
                    | inr (st, good) ↦ rw (sized, read_pax, fits, e, whole, good) p''
                  ]
            ]
      ]
    ]
  ]

  -- To split on a header that is read, with the property of what it leaves.
  Block-cases :
      (b : Block S)
      → BlockKept b
      → ((s : S) × P s × (b ≡ no_block s)) ⊎ ((h : Header) × (s : S) × P s × (b ≡ block h s))
  Block-cases (no_block s) p = inl (s, p, refl)
  Block-cases (block h s) p = inr (h, s, p, refl)

  after_pax_kept : (st : PaxState) (s : S) (t : TarSource S) → P s → NextKept (after_pax io st s t)
  unfolding after_pax failed enter
  after_pax_kept st s t p = elim (Block-cases (read_block io s) (block_kept s p)) [
    | inl (s', p', e) ↦ rw (e, after_pax) p'
    | inr (h, s', p', e) ↦ elim (Bool-cases (is_null h || not (verify h))) [
      | inl bad ↦ rw (e, after_pax, bad) p'
      | inr good ↦ elim (Bool-cases (is_file h)) [
        | inl is ↦ rw (e, after_pax, good, is) p'
        | inr other ↦ rw (e, after_pax, good, other) p'
      ]
    ]
  ]

  at_end_kept : (s : S) (t : TarSource S) → P s → NextKept (at_end io s t)
  unfolding at_end failed
  at_end_kept s t p = elim (Block-cases (read_block io s) (block_kept s p)) [
    | inl (s', p', e) ↦ rw (e, at_end) p'
    | inr (h, s', p', e) ↦ rw (e, at_end) p'
  ]

  -- To split on what a PAX header leaves.
  Pax-cases :
      (x : Pax S)
      → PaxKept x
      → ((c : Code) × (s : S) × P s × (x ≡ bad_pax c s))
        ⊎ ((st : PaxState) × (s : S) × P s × (x ≡ pax st s))
  Pax-cases (bad_pax c s) p = inl (c, s, p, refl)
  Pax-cases (pax st s) p = inr (st, s, p, refl)

  next_loop_kept : (fuel : ℕ) (s : S) (t : TarSource S) → P s → NextSome (next_loop io fuel s t)
  unfolding next_loop failed enter
  next_loop_kept zero s t p = tt
  next_loop_kept (suc fuel) s t p = elim (Bool-cases (io.is_eof s)) [
    | inl over ↦ rw (over, next_loop) p
    | inr more ↦ elim (Block-cases (read_block io s) (block_kept s p)) [
      | inl (s', p', e) ↦ rw (more, next_loop, e) p'
      | inr (h, s', p', e) ↦ elim (Bool-cases (is_null h)) [
        | inl null ↦ rw (more, next_loop, e, null) (at_end_kept s' t p')
        | inr full ↦ elim (Bool-cases (verify h)) [
          | inr bad ↦ rw (more, next_loop, e, full, bad) p'
          | inl good ↦ elim (Bool-cases (h.typeflag == b'x')) [
            | inl extended ↦ elim (Pax-cases (read_pax io h s') (read_pax_kept h s' p')) [
              | inl (c, s'', q, f) ↦ rw (more, next_loop, e, full, good, extended, f) q
              | inr (st, s'', q, f) ↦
                  rw (more, next_loop, e, full, good, extended, f)
                    (after_pax_kept st s'' (record t { error = none }) q)
            ]
            | inr plain ↦ elim (Bool-cases (is_file h)) [
              | inl is ↦ rw (more, next_loop, e, full, good, plain, is) p'
              | inr other ↦ elim (Option-cases (get_size h)) [
                | inl unsized ↦ rw (more, next_loop, e, full, good, plain, other, unsized) p'
                | inr (n, sized) ↦ elim (Bool-cases (ltb max_aux_header_size n)) [
                  | inl large ↦ rw (more, next_loop, e, full, good, plain, other, sized, large) p'
                  | inr fits ↦
                      rw (more, next_loop, e, full, good, plain, other, sized, fits)
                        (next_loop_kept fuel (skip io (n + padding n) s').1 t
                          (skip_kept io P keeps (n + padding n) s' p'))
                ]
              ]
            ]
          ]
        ]
      ]
    ]
  ]

  pub next_kept : (fuel : ℕ) (t : TarSource S) → Below t → NextSome (next io fuel t)
  unfolding next failed
  next_kept fuel t p = elim (Bool-cases (ltb t.pos t.block_end)) [
    | inr behind ↦ rw (behind, next) (next_loop_kept fuel t.src t p)
    | inl inside ↦
        let q = skip_kept io P keeps (t.block_end - t.pos) t.src p in
        elim (Result-cases (skip io (t.block_end - t.pos) t.src).0) [
          | inl (c, e) ↦ rw (inside, next, e) q
          | inr (n, e) ↦ rw (inside, next, e) (next_loop_kept fuel _ (rewound io _ t) q)
        ]
  ]
