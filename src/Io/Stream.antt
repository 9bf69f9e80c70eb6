-- ===== src/Io/Stream.antt =====
-- The contract of a `DataSource` (cdoc/Io.h) as a view of the bytes that are still to come, and the
-- loops of cdoc/Io.cpp over the sources and consumers in memory.
use libcdoc.Base.{
  ℕ, zero, suc, ◌+◌, ◌-◌, ◌*◌, ◌/◌, ◌≤◌, ◌<◌, min, Bytes, length, take, drop, length-take,
  length-drop, take-append-drop, drop-drop, drop_all, take-min, drop-min, [], ◌++◌, true, false,
  ltb, Bool-cases, inl, inr, ◌≡◌, sym, ap, ap₂, ◌∙◌, arith,
}
use libcdoc.Outcome.{Result, count, got}
use libcdoc.Io.{Source, VectorSource, vector_read, vector_source, skip_loop, skip}

-- A read hands over the next bytes of `rest`, no more than were asked for, and fewer only at the
-- end.
pub record IsSource {S : Type 0} (src : Source S) (rest : S → Bytes) : Type 0 where
  pub next : (n : ℕ) (s : S) (b : Bytes) (s' : S) → src.read n s ≡ got b s' → rest s ≡ b ++ rest s'
  pub fits : (n : ℕ) (s : S) (b : Bytes) (s' : S) → src.read n s ≡ got b s' → length b ≤ n
  pub short :
      (n : ℕ) (s : S) (b : Bytes) (s' : S) → src.read n s ≡ got b s' → length b < n → rest s' ≡ []

abbrev pub vector_rest : VectorSource → Bytes
vector_rest v = drop v.ptr v.bytes

-- A read in one equation: the next `n` bytes, or as many as there are.
pub vector_read_lem :
    (n : ℕ) (v : VectorSource)
    → vector_read n v
      ≡ got (take n (vector_rest v)) (record v { ptr = v.ptr + min n (length (vector_rest v)) })
unfolding vector_read
vector_read_lem n v = rw (← length-drop v.ptr v.bytes, take-min n (vector_rest v))

-- A read that finds all it asks for.
pub vector_read_full :
    (n : ℕ) (v : VectorSource)
    → n ≤ length (vector_rest v)
    → vector_read n v ≡ got (take n (vector_rest v)) (record v { ptr = v.ptr + n })
vector_read_full n v h =
    let e : min n (length (vector_rest v)) ≡ n = omega arith in
    vector_read_lem n v ∙ ap (λ k. got (take n (vector_rest v)) (record v { ptr = v.ptr + k })) e

module _ (n : ℕ) (v : VectorSource) (b : Bytes) (v' : VectorSource)
    (e : vector_read n v ≡ got b v') where
  read_bytes : take n (vector_rest v) ≡ b
  read_bytes = cc (vector_read_lem n v, e)

  read_moves : record v { ptr = v.ptr + min n (length (vector_rest v)) } ≡ v'
  read_moves = cc (vector_read_lem n v, e)

  rest_after : vector_rest v' ≡ drop n (vector_rest v)
  rest_after =
      rw (← read_moves) (
        sym (drop-drop (min n (length (vector_rest v))) v.ptr v.bytes) ∙ drop-min n (vector_rest v))

pub vector_source-IsSource : IsSource vector_source vector_rest
vector_source-IsSource = record {
  next = λ n v b v' e.
      rw (rest_after n v b v' e, ← read_bytes n v b v' e)
        (sym (take-append-drop n (vector_rest v)));
  fits = λ n v b v' e. rw (← read_bytes n v b v' e) (omega (arith, length-take n (vector_rest v)));
  short = λ n v b v' e h.
      rest_after n v b v' e
      ∙ drop_all n (vector_rest v)
          (omega (arith, length-take n (vector_rest v), ap length (read_bytes n v b v' e)));
}

abbrev moved : ℕ → VectorSource → VectorSource
moved n v = record v { ptr = v.ptr + n }

-- The count that a skip returns, and the source that it leaves.
abbrev landed : ℕ → ℕ → VectorSource → Result × VectorSource
landed n m v = (count n, moved m v)

landed_eq : (a b c d : ℕ) (v : VectorSource) → a ≡ b → c ≡ d → landed a c v ≡ landed b d v
landed_eq a b c d v p q = ap₂ (λ x y. landed x y v) p q

landed_moved : (n m k : ℕ) (v : VectorSource) → landed n m (moved k v) ≡ landed n (k + m) v
landed_moved n m k v =
    let e : v.ptr + k + m ≡ v.ptr + (k + m) = omega arith in
    ap (λ p. (count n, record v { ptr = p })) e

moved_zero : (v : VectorSource) → moved 0 v ≡ v
moved_zero v = ground arith

length-rest-moved :
    (n : ℕ) (v : VectorSource) → length (vector_rest (moved n v)) ≡ length (vector_rest v) - n
length-rest-moved n v = omega (arith, length-drop (v.ptr + n) v.bytes, length-drop v.ptr v.bytes)

-- What one round reads.
abbrev chunk : ℕ → ℕ → VectorSource → ℕ
chunk size total v = min (min (size - total) 65536) (length (vector_rest v))

skip_loop_stop :
    (fuel size total : ℕ) (v : VectorSource)
    → ltb total size ≡ false
    → skip_loop vector_source (suc fuel) size total v ≡ landed total 0 v
unfolding skip_loop
skip_loop_stop fuel size total v full = rw full (ap (λ x. (count total, x)) (sym (moved_zero v)))

module _ (fuel size total : ℕ) (v : VectorSource) (more : ltb total size ≡ true) where
  skip_loop_short :
      ltb (chunk size total v) (min (size - total) 65536) ≡ true
      → skip_loop vector_source (suc fuel) size total v
        ≡ landed (total + chunk size total v) (chunk size total v) v
  unfolding skip_loop
  skip_loop_short last = rw (more, vector_read_lem, skip_loop, length-take, last)

  skip_loop_full :
      ltb (chunk size total v) (min (size - total) 65536) ≡ false
      → skip_loop vector_source (suc fuel) size total v
        ≡ skip_loop vector_source fuel size
            (total + chunk size total v)
            (moved (chunk size total v) v)
  unfolding skip_loop
  skip_loop_full whole = rw (more, vector_read_lem, skip_loop, length-take, whole)

skip_loop-vector_source :
    (fuel size total : ℕ) (v : VectorSource)
    → total ≤ size
    → size + 65535 < total + 65536 * fuel
    → skip_loop vector_source fuel size total v
      ≡ landed
          (total + min (size - total) (length (vector_rest v)))
          (min (size - total) (length (vector_rest v)))
          v
skip_loop-vector_source zero size total v le enough = absurd (omega arith)
skip_loop-vector_source (suc fuel) size total v le enough = elim (Bool-cases (ltb total size)) [
  | inr full ↦
      skip_loop_stop fuel size total v full ∙ landed_eq _ _ _ _ v (ground arith) (ground arith)
  | inl more ↦ elim (Bool-cases (ltb (chunk size total v) (min (size - total) 65536))) [
    | inl last ↦
        skip_loop_short fuel size total v more last
        ∙ landed_eq _ _ _ _ v (ground arith) (ground arith)
    | inr whole ↦
        skip_loop_full fuel size total v more whole
        ∙ (skip_loop-vector_source fuel size (total + chunk size total v)
              (moved (chunk size total v) v) (ground arith) (ground arith)
            ∙ (landed_moved _ _ (chunk size total v) v
                ∙ landed_eq _ _ _ _ v (ground (arith, length-rest-moved (chunk size total v) v))
                    (ground (arith, length-rest-moved (chunk size total v) v))))
  ]
]

-- `skip` moves a `VectorSource` on by `size` bytes, or to its end, and returns how far it moved.
pub skip-vector_source :
    (size : ℕ) (v : VectorSource)
    → skip vector_source size v ≡ (
      count (min size (length (vector_rest v))),
      record v { ptr = v.ptr + min size (length (vector_rest v)) },
    )
unfolding skip
skip-vector_source size v =
    rw (skip_loop-vector_source (size / 65536 + 2) size 0 v (omega arith) (omega arith))
      (landed_eq _ _ _ _ v (omega arith) (omega arith))
