-- ===== src/Zip/Kept.antt =====
-- What the stream below keeps, `ZSource::read` (cdoc/ZStream.h) keeps of it.
use libcdoc.Base.{
  ℕ, zero, suc, ◌-◌, min, Bytes, length, take, drop, [], ◌++◌, none, some, ltb, ◌==◌, ◌≡◌, inl, inr,
  subst, Bool-cases, Option-cases,
}
use libcdoc.Outcome.{Got, got, refused, Got-cases}
use libcdoc.Io.{Source}
use libcdoc.Io.Invariant.{Kept, KeptSome, Keeps, Kept-got}
use libcdoc.Zip.{
  Zlib, ZSource, chunk_size, uint_max, inflate_loop, is_over, counted, read_loop, read,
}
use libcdoc.Zip.Limit.{did_progress, did_finish, did_break, Did-cases}

module _ {S Z : Type 0} (io : Source S) (zlib : Zlib Z) (P : S → Type 0) (keeps : Keeps io P) where
  abbrev pub Below : ZSource S Z → Type 0
  Below t = P t.src

  inflate_loop-KeptSome :
      (fuel avail : ℕ) (out : Bytes) (t : ZSource S Z)
      → Below t
      → KeptSome Below (inflate_loop io zlib fuel avail out t)
  unfolding inflate_loop
  inflate_loop-KeptSome zero avail out t p = tt
  inflate_loop-KeptSome (suc fuel) avail out t p = elim (Got-cases (io.read chunk_size t.src)) [
    | inl (c, s, e) ↦ rw (e, inflate_loop) (Kept-got io P keeps chunk_size t.src _ p e)
    | inr (b, s, e) ↦
        let p' = Kept-got io P keeps chunk_size t.src _ p e in
        let buf : Bytes = t.buf ++ b in
        let given : ℕ = min (length buf) uint_max in
        elim (Did-cases (zlib.inflate t.z (take given buf) avail)) [
          | did_break used i ↦ rw (e, inflate_loop, i) p'
          | did_finish used o z i ↦ rw (e, inflate_loop, i) p'
          | did_progress used o z i ↦ elim (Bool-cases (avail - length o == 0)) [
            | inl full ↦ rw (e, inflate_loop, i, full) p'
            | inr room ↦
                rw (e, inflate_loop, i, room)
                  (inflate_loop-KeptSome fuel (avail - length o) (out ++ o)
                    (record t { src = s; z = z; buf = drop used buf; avail_in = given - used }) p')
          ]
        ]
  ]

  Kept-some :
      (inner n : ℕ) (t : ZSource S Z) (g : Got (ZSource S Z))
      → Below t
      → inflate_loop io zlib inner n [] t ≡ some g
      → Kept Below g
  Kept-some inner n t g p e = subst (λ o. KeptSome Below o) e (inflate_loop-KeptSome inner n [] t p)

  read_loop-KeptSome :
      (fuel inner size : ℕ) (out : Bytes) (t : ZSource S Z)
      → Below t
      → KeptSome Below (read_loop io zlib fuel inner size out t)
  unfolding read_loop
  read_loop-KeptSome zero inner size out t p = tt
  read_loop-KeptSome (suc fuel) inner size out t p = elim (Bool-cases (ltb (length out) size)) [
    | inr full ↦ rw (full, read_loop) p
    | inl more ↦
        elim (Option-cases (inflate_loop io zlib inner (min (size - length out) uint_max) [] t)) [
          | inl spent ↦ rw (more, read_loop, spent) tt
          | inr (refused c t', e) ↦ rw (more, read_loop, e) (Kept-some inner _ t (refused c t') p e)
          | inr (got o t', e) ↦
              let p' = Kept-some inner _ t (got o t') p e in
              elim (Bool-cases (is_over (counted o t'))) [
                | inl over ↦ rw (more, read_loop, e, over) p'
                | inr below ↦ elim (Bool-cases (length o == 0)) [
                  | inl nothing ↦ rw (more, read_loop, e, below, nothing) p'
                  | inr moved ↦
                      rw (more, read_loop, e, below, moved)
                        (read_loop-KeptSome fuel inner size (out ++ o) (counted o t') p')
                ]
              ]
        ]
  ]

  pub read-KeptSome :
      (inner size : ℕ) (t : ZSource S Z) → Below t → KeptSome Below (read io zlib inner size t)
  unfolding read
  read-KeptSome inner size t p = elim (Option-cases t.error) [
    | inr (c, failed) ↦ rw (failed, read) p
    | inl clean ↦
        rw (clean, read) (read_loop-KeptSome _ inner size [] (record t { error = none }) p)
  ]
