-- ===== src/Zip/Limit.antt =====
-- `ZSource::read` (cdoc/ZStream.h) ends, and what it hands over stays below its limit.
use libcdoc.Base.{
  ℕ, zero, suc, ◌+◌, ◌-◌, ◌≤◌, ◌<◌, min, Bytes, length, length-append, length-take, length-drop,
  take, drop, [], ◌++◌, true, false, Option, none, some, ltb, ◌==◌, ◌≡◌, inl, inr, refl, ap, subst,
  ◌∙◌, arith, Bool-cases,
}
use libcdoc.Outcome.{Code, io_error, zlib_error, Got, Got-cases, got, refused, unless_failed}
use libcdoc.Io.{Source}
use libcdoc.Io.Stream.{IsSource}
use libcdoc.Zip.{
  Inflated, progress, finished, broken, Zlib, ZSource, chunk_size, uint_max, inflate_loop, is_over,
  counted, read_loop, read,
}

-- `inflate` stays in the blocks that it is given, and returns Z_OK only when it has done something.
pub record IsZlib {Z : Type 0} (zlib : Zlib Z) : Type 0 where
  pub room :
      (z z' : Z) (input out : Bytes) (avail used : ℕ)
      → zlib.inflate z input avail ≡ progress used out z'
      → (length out ≤ avail) × (used ≤ length input) × (1 ≤ used + length out)
  pub room_end :
      (z z' : Z) (input out : Bytes) (avail used : ℕ)
      → zlib.inflate z input avail ≡ finished used out z'
      → length out ≤ avail

-- To split on what a call does and keep the equation.
pub data Did {Z : Type 0} (i : Inflated Z) : Type 0 where
  did_progress : (used : ℕ) (out : Bytes) (z : Z) → i ≡ progress used out z → Did i
  did_finish : (used : ℕ) (out : Bytes) (z : Z) → i ≡ finished used out z → Did i
  did_break : (used : ℕ) → i ≡ broken used → Did i

pub Did-cases : {Z : Type 0} (i : Inflated Z) → Did i
Did-cases (progress used out z) = did_progress used out z refl
Did-cases (finished used out z) = did_finish used out z refl
Did-cases (broken used) = did_break used refl

module _ {S Z : Type 0} (io : Source S) (rest : S → Bytes) (law : IsSource io rest) (zlib : Zlib Z)
    (zip : IsZlib zlib) where
  -- The input bytes that are still to be used.
  abbrev pub weight : ZSource S Z → ℕ
  weight t = length (rest t.src) + length t.buf

  -- The same but for the stream, its buffer and what zlib keeps.
  pub record Follows (t t' : ZSource S Z) : Type 0 where
    pub total : t'.total ≡ t.total
    pub limit : t'.limit ≡ t.limit
    pub error : t'.error ≡ t.error
    pub weight : weight t' ≤ weight t

  -- The inner loop from `t` with `avail` bytes of room and `n` bytes written.
  abbrev Filled : ZSource S Z → ℕ → ℕ → Got (ZSource S Z) → Type 0
  Filled t avail n (refused c t') = t'.error ≡ some c
  Filled t avail n (got out t') = (length out ≤ n + avail) × Follows t t'

  Fills : Option (Got (ZSource S Z)) → ZSource S Z → ℕ → ℕ → Type 0
  Fills r t avail n = (g : Got (ZSource S Z)) × (r ≡ some g) × Filled t avail n g

  Follows-step :
      (t : ZSource S Z) (b : Bytes) (s : S) (z : Z) (buf : Bytes) (left : ℕ)
      → rest t.src ≡ b ++ rest s
      → length buf ≤ length t.buf + length b
      → Follows t (record t { src = s; z = z; buf = buf; avail_in = left })
  Follows-step t b s z buf left came fits = record {
    total = refl;
    limit = refl;
    error = refl;
    weight = omega (arith, ap length came, length-append b (rest s));
  }

  Filled-step :
      (t t' : ZSource S Z) (avail n used : ℕ) (g : Got (ZSource S Z))
      → Follows t t'
      → used ≤ avail
      → Filled t' (avail - used) (n + used) g
      → Filled t avail n g
  Filled-step t t' avail n used (refused c t'') f le h = h
  Filled-step t t' avail n used (got out t'') f le h = (
    omega (arith, h.0),
    record {
      total = h.1.total ∙ f.total;
      limit = h.1.limit ∙ f.limit;
      error = h.1.error ∙ f.error;
      weight = omega (arith, h.1.weight, f.weight);
    },
  )

  inflate_loop-Fills :
      (fuel avail : ℕ) (out : Bytes) (t : ZSource S Z)
      → weight t + avail < fuel
      → Fills (inflate_loop io zlib fuel avail out t) t avail (length out)
  unfolding inflate_loop Fills
  inflate_loop-Fills zero avail out t enough = absurd (omega arith)
  inflate_loop-Fills (suc fuel) avail out t enough = elim (Got-cases (io.read chunk_size t.src)) [
    | inl (c, s, e) ↦ (refused c (record t { src = s; error = some c }), rw (e, inflate_loop), refl)
    | inr (b, s, e) ↦
        let buf = t.buf ++ b in
        let given = min (length buf) uint_max in
        let came = law.next chunk_size t.src b s e in
        let size = length-append t.buf b in
        elim (Did-cases (zlib.inflate t.z (take given buf) avail)) [
          | did_break used i ↦ (
            refused zlib_error
                record t { src = s; buf = buf; avail_in = given - used; error = some zlib_error },
            rw (e, inflate_loop, i),
            refl,
          )
          | did_finish used p z i ↦ (
            got (out ++ p) (record t { src = s; z = z; buf = []; avail_in = given - used }),
            rw (e, inflate_loop, i),
            (
              omega (arith, length-append out p, zip.room_end t.z z _ p avail used i),
              Follows-step t b s z [] (given - used) came (omega arith),
            ),
          )
          | did_progress used p z i ↦
              let t' = record t { src = s; z = z; buf = drop used buf; avail_in = given - used } in
              let room = zip.room t.z z (take given buf) p avail used i in
              let left = length-drop used buf in
              let f =
                Follows-step t b s z (drop used buf) (given - used) came
                  (omega (arith, left, size)) in
              elim (Bool-cases (avail - length p == 0)) [
                | inl full ↦ (
                  got (out ++ p) t',
                  rw (e, inflate_loop, i, full),
                  (omega (arith, length-append out p, room.0), f),
                )
                | inr open_still ↦
                    let (g, done, filled) =
                      inflate_loop-Fills fuel (avail - length p) (out ++ p) t' (
                        omega (
                          arith,
                          room.0,
                          room.1,
                          room.2,
                          left,
                          size,
                          length-take given buf,
                          ap length came,
                          length-append b (rest s),
                        )) in
                    (
                      g,
                      rw (e, inflate_loop, i, open_still) done,
                      Filled-step t t' avail (length out) (length p) g f room.0 (
                          subst (λ k. Filled t' (avail - length p) k g) (length-append out p)
                            filled),
                    )
              ]
        ]
  ]

  -- What a read of `size` bytes leaves when `n` bytes of it are already there.
  abbrev pub Kept : ZSource S Z → ℕ → ℕ → Got (ZSource S Z) → Type 0
  Kept t size n (refused c t') = t'.error ≡ some c
  Kept t size n (got out t') =
      (length out ≤ size) × (t'.total + n ≡ t.total + length out) × (is_over t' ≡ false)

  Keeps : Option (Got (ZSource S Z)) → ZSource S Z → ℕ → ℕ → Type 0
  Keeps r t size n = (g : Got (ZSource S Z)) × (r ≡ some g) × Kept t size n g

  Kept-step :
      (t t' : ZSource S Z) (size n p : ℕ) (g : Got (ZSource S Z))
      → t'.total ≡ t.total + p
      → Kept t' size (n + p) g
      → Kept t size n g
  Kept-step t t' size n p (refused c t'') e h = h
  Kept-step t t' size n p (got out t'') e h = (h.0, omega (arith, h.1, e), h.2)

  is_over_same :
      (t t' : ZSource S Z) → t'.total ≡ t.total → t'.limit ≡ t.limit → is_over t' ≡ is_over t
  unfolding is_over
  is_over_same t t' e l = rw (e, l)

  -- What is to be shown of the rounds that are left.
  abbrev Rounds : ℕ → ℕ → ℕ → Type 0
  Rounds fuel inner size =
      (out : Bytes) (t : ZSource S Z)
      → length out ≤ size
      → size < length out + fuel
      → weight t + size < inner
      → is_over t ≡ false
      → Keeps (read_loop io zlib fuel inner size out t) t size (length out)

  -- One round of the outer loop, whose inner loop has left `g`.
  round-Keeps :
      (fuel inner size : ℕ) (out : Bytes) (t : ZSource S Z) (g : Got (ZSource S Z))
      → Rounds fuel inner size
      → ltb (length out) size ≡ true
      → size < length out + suc fuel
      → weight t + size < inner
      → inflate_loop io zlib inner (min (size - length out) uint_max) [] t ≡ some g
      → Filled t (min (size - length out) uint_max) 0 g
      → Keeps (read_loop io zlib (suc fuel) inner size out t) t size (length out)
  unfolding read_loop Keeps
  round-Keeps fuel inner size out t (refused c t') ih more enough deep done filled =
      (refused c t', rw (more, done, read_loop), filled)
  round-Keeps fuel inner size out t (got p t') ih more enough deep done filled =
      let t'' = counted p t' in
      let total : t''.total ≡ t.total + length p = omega (arith, filled.1.total) in
      elim (Bool-cases (is_over t'')) [
        | inl over ↦ (
          refused io_error (record t'' { error = some io_error }),
          rw (more, done, read_loop, over),
          refl,
        )
        | inr under ↦ elim (Bool-cases (length p == 0)) [
          | inl nothing ↦ (
            got out t'',
            rw (more, done, read_loop, under, nothing),
            (ground arith, ground (arith, total), under),
          )
          | inr some_out ↦
              let (g, end, kept) =
                ih (out ++ p) t'' (ground (arith, length-append out p, filled.0))
                  (ground (arith, length-append out p)) (omega (arith, filled.1.weight)) under in
              (
                g,
                rw (more, done, read_loop, under, some_out) end,
                Kept-step t t'' size (length out) (length p) g total
                    (subst (λ k. Kept t'' size k g) (length-append out p) kept),
              )
        ]
      ]

  read_loop-Rounds : (fuel inner size : ℕ) → Rounds fuel inner size
  unfolding Keeps Fills
  read_loop-Rounds zero inner size out t le enough deep under = absurd (omega arith)
  read_loop-Rounds (suc fuel) inner size out t le enough deep under =
      elim (Bool-cases (ltb (length out) size)) [
        | inr full ↦ (got out t, (unfold read_loop in rw full), (le, refl, under))
        | inl more ↦
            let (g, done, filled) =
              inflate_loop-Fills inner (min (size - length out) uint_max) [] t (omega arith) in
            round-Keeps fuel inner size out t g (read_loop-Rounds fuel inner size) more
              (omega arith) deep done filled
      ]

  read_open :
      (inner size : ℕ) (t : ZSource S Z)
      → t.error ≡ none
      → read io zlib inner size t ≡ read_loop io zlib (size + 1) inner size [] t
  unfolding read
  read_open inner size t clean =
      ap
        (λ (e : Option Code).
          unless_failed e (λ c. some (refused c t)) (read_loop io zlib (size + 1) inner size [] t))
        clean

  -- Over a source and a zlib that keep their contracts, a read of a decompressing source without an
  -- error and within its limit ends, given more rounds than there are input bytes and bytes asked
  -- for; it hands over no more than was asked for, counts all of it and stays within the limit if
  -- there is one, or it fails and the error stays.
  pub read-Kept :
      (inner size : ℕ) (t : ZSource S Z)
      → t.error ≡ none
      → is_over t ≡ false
      → weight t + size < inner
      → (g : Got (ZSource S Z)) × (read io zlib inner size t ≡ some g) × Kept t size 0 g
  unfolding Keeps
  read-Kept inner size t clean under deep =
      let (g, done, kept) =
        read_loop-Rounds (size + 1) inner size [] t (omega arith) (omega arith) deep under in
      (g, read_open inner size t clean ∙ done, kept)
