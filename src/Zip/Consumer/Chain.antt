-- ===== src/Zip/Consumer/Chain.antt =====
-- A write of `ZConsumer` (cdoc/ZStream.h) over a consumer in memory is a chain of calls of deflate.
use libcdoc.Base.{
  ℕ, zero, suc, ◌-◌, ◌≤◌, ◌<◌, Bytes, length, take, drop, take_all, length-drop, [], ◌∷◌, ◌++◌,
  append_assoc, append-nil, Bool, true, false, Option, some, ◌==◌, ◌≡◌, ◌⊎◌, inl, inr, refl, sym,
  ap, subst, arith, if◌then◌else◌,
}
use libcdoc.Outcome.{Result, count, fail, output_error}
use libcdoc.Io.{vector_consumer, vector_write}
use libcdoc.Zip.{uint_max}
use libcdoc.Zip.Consumer.{
  Deflated, more, ended, broken, Deflate, ZConsumer, Chunk, returns, done, pass_on, deflate_loop,
  chunk_loop, write,
}

-- While zlib is ready for an input, a call of deflate that leaves more to do, with Z_FINISH or
-- because not all of the input is used, makes progress, by a measure of the state and the input,
-- and leaves it ready for the rest.
pub record IsDeflate {Z : Type 0} (zlib : Deflate Z) (Ready : Z → Bytes → Type 0)
    (left : Z → Bytes → ℕ) : Type 0 where
  pub progress :
      (z z' : Z) (x out : Bytes) (fin : Bool) (used : ℕ)
      → Ready z x
      → zlib.deflate z x fin ≡ more used out z'
      → (fin ≡ true) ⊎ (used < length x)
      → Ready z' (drop used x) × (left z' (drop used x) < left z x)

-- Calls of deflate on an input, their output one after the other: to the end of the stream, or,
-- without Z_FINISH, until the input is used.
pub data Deflates {Z : Type 0} (zlib : Deflate Z) (fin : Bool)
    : Z → Bytes → Bytes → Z → Type 0 where
  to_end :
      (z z' : Z) (x out : Bytes) (used : ℕ)
      → zlib.deflate z x fin ≡ ended used out z'
      → Deflates zlib fin z x out z'
  all_used :
      (z z' : Z) (x out : Bytes) (used : ℕ)
      → fin ≡ false
      → length x ≤ used
      → zlib.deflate z x fin ≡ more used out z'
      → Deflates zlib fin z x out z'
  further :
      (z z1 z' : Z) (x out rest : Bytes) (used : ℕ)
      → zlib.deflate z x fin ≡ more used out z1
      → Deflates zlib fin z1 (drop used x) rest z'
      → Deflates zlib fin z x (out ++ rest) z'

-- Calls of deflate on an input, each of which leaves more to do, up to one that fails, with their
-- output one after the other.
pub data Breaks {Z : Type 0} (zlib : Deflate Z) (fin : Bool) : Z → Bytes → Bytes → Z → Type 0 where
  at_once : (z z' : Z) (x : Bytes) → zlib.deflate z x fin ≡ broken z' → Breaks zlib fin z x [] z'
  broken_later :
      (z z1 z' : Z) (x out rest : Bytes) (used : ℕ)
      → zlib.deflate z x fin ≡ more used out z1
      → Breaks zlib fin z1 (drop used x) rest z'
      → Breaks zlib fin z x (out ++ rest) z'

-- To split on what a call does and keep the equation.
data Did {Z : Type 0} (i : Deflated Z) : Type 0 where
  did_more : (used : ℕ) (out : Bytes) (z : Z) → i ≡ more used out z → Did i
  did_end : (used : ℕ) (out : Bytes) (z : Z) → i ≡ ended used out z → Did i
  did_break : (z : Z) → i ≡ broken z → Did i

Did-cases : {Z : Type 0} (i : Deflated Z) → Did i
Did-cases (more used out z) = did_more used out z refl
Did-cases (ended used out z) = did_end used out z refl
Did-cases (broken z) = did_break z refl

pick :
    {A : Type 0} (P : A → Type 0) (b c : Bool) (x y : A)
    → ((b ≡ true) ⊎ (c ≡ false) → P x)
    → (b ≡ false → c ≡ true → P y)
    → P (if b then x else if c then y else x)
pick P true c x y p q = p (inl refl)
pick P false true x y p q = q refl refl
pick P false false x y p q = p (inr refl)

otherwise :
    {A : Type 0} (P : A → Type 0) (b : Bool) (x y : A) → b ≡ false → P y → P (if b then x else y)
otherwise P true x y e p = absurd (cc e)
otherwise P false x y e p = p

unused :
    (fin : Bool) (n used : ℕ) → (fin ≡ true) ⊎ ((n - used == 0) ≡ false) → (fin ≡ true) ⊎ (used < n)
unused fin n used (inl e) = inl e
unused fin n used (inr e) = inr (ground arith)

module _ {Z : Type 0} (zlib : Deflate Z) (Ready : Z → Bytes → Type 0) (left : Z → Bytes → ℕ)
    (law : IsDeflate zlib Ready left) where
  pass_on_all :
      (out : Bytes) (t : ZConsumer Bytes Z)
      → pass_on vector_consumer zlib out t ≡ done (record t { dst = t.dst ++ out })
  unfolding pass_on vector_write
  pass_on_all [] t = ap (λ d. done (record t { dst = d })) (sym (append-nil t.dst))
  pass_on_all (x ∷ r) t =
      let whole : (length (x ∷ r) == length (x ∷ r)) ≡ true = ground arith in rw whole refl

  -- What the inner loop leaves: the chain's output is behind what was there, or deflate has failed.
  data Looped (input : Bytes) (t : ZConsumer Bytes Z) : Option (Chunk Bytes Z) → Type 0 where
    looped :
        (out : Bytes) (z : Z)
        → Deflates zlib t.finishing t.z input out z
        → Looped input t (some (done (record t { dst = t.dst ++ out; z = z })))
    failed :
        (out : Bytes) (z : Z)
        → Breaks zlib t.finishing t.z input out z
        → Looped input t
            (some (returns (fail output_error) (record t { dst = t.dst ++ out; z = z })))

  Looped-further :
      (input out : Bytes) (used : ℕ) (z : Z) (t : ZConsumer Bytes Z) (o : Option (Chunk Bytes Z))
      → zlib.deflate t.z input t.finishing ≡ more used out z
      → Looped (drop used input) (record t { dst = t.dst ++ out; z = z }) o
      → Looped input t o
  Looped-further input out used z t _ e (failed rest z' chain) =
      subst
        (λ d. Looped input t (some (returns (fail output_error) (record t { dst = d; z = z' }))))
        (sym (append_assoc t.dst out rest))
        (failed (out ++ rest) z' (broken_later t.z z z' input out rest used e chain))
  Looped-further input out used z t _ e (looped rest z' chain) =
      subst (λ d. Looped input t (some (done (record t { dst = d; z = z' }))))
        (sym (append_assoc t.dst out rest))
        (looped (out ++ rest) z' (further t.z z z' input out rest used e chain))

  deflate_loop-Looped :
      (fuel : ℕ) (input : Bytes) (t : ZConsumer Bytes Z)
      → Ready t.z input
      → left t.z input < fuel
      → Looped input t (deflate_loop vector_consumer zlib fuel input t)
  unfolding deflate_loop
  deflate_loop-Looped zero input t ready enough = absurd (omega arith)
  deflate_loop-Looped (suc fuel) input t ready enough =
      elim (Did-cases (zlib.deflate t.z input t.finishing)) [
        | did_break z e ↦
            rw (e, deflate_loop)
              (subst
                (λ d.
                  Looped input t (some (returns (fail output_error) (record t { dst = d; z = z }))))
                (append-nil t.dst) (failed [] z (at_once t.z z input e)))
        | did_end used out z e ↦
            rw (e, deflate_loop, pass_on_all out (record t { z = z }))
              (looped out z (to_end t.z z input out used e))
        | did_more used out z e ↦
            rw (e, deflate_loop, pass_on_all out (record t { z = z }))
              (pick (λ o. Looped input t o) t.finishing (length input - used == 0) _ _
                (λ onward.
                  let (later, less) =
                    law.progress t.z z input out t.finishing used ready e
                      (unused t.finishing (length input) used onward) in
                  Looped-further input out used z t _ e (
                    deflate_loop-Looped fuel (drop used input)
                      (record t { dst = t.dst ++ out; z = z }) later (omega arith)))
                (λ going empty.
                  looped out z (all_used t.z z input out used going (ground arith) e)))
      ]

  -- What a write leaves: the chain's output is behind what was there, or deflate has failed.
  pub data Wrote (src : Bytes) (t : ZConsumer Bytes Z)
      : Option (Result × ZConsumer Bytes Z) → Type 0 where
    wrote :
        (out : Bytes) (z : Z)
        → Deflates zlib t.finishing t.z src out z
        → Wrote src t (some (count (length src), record t { dst = t.dst ++ out; z = z }))
    stopped :
        (out : Bytes) (z : Z)
        → Breaks zlib t.finishing t.z src out z
        → Wrote src t (some (fail output_error, record t { dst = t.dst ++ out; z = z }))

  chunk_Wrote :
      (inner : ℕ) (src : Bytes) (t : ZConsumer Bytes Z) (o : Option (Chunk Bytes Z))
      → length src ≤ uint_max
      → deflate_loop vector_consumer zlib inner (take uint_max src) t ≡ o
      → Looped src t o
      → Wrote src t (chunk_loop vector_consumer zlib (suc (length src)) inner (length src) src t)
  unfolding chunk_loop
  chunk_Wrote inner src t _ small e (failed out z chain) = rw (e, chunk_loop) (stopped out z chain)
  chunk_Wrote inner src t _ small e (looped out z chain) =
      let none_left : (length (drop uint_max src) == 0) ≡ true =
        ground (arith, length-drop uint_max src) in
      rw (e, chunk_loop, none_left) (wrote out z chain)

  -- From a consumer in memory that has been started, and a block that an unsigned int can count and
  -- zlib is ready for, with more rounds than the measure says: a write returns the size of the
  -- block, and what it has put behind what was there is the output of a chain of calls of deflate
  -- that uses all of the block, or ends the stream; or the write returns OUTPUT_ERROR, and what it
  -- has put there is the output of a chain of calls of deflate whose last one has failed.
  pub write-Wrote :
      (inner : ℕ) (src : Bytes) (t : ZConsumer Bytes Z)
      → t.broken ≡ false
      → length src ≤ uint_max
      → Ready t.z src
      → left t.z src < inner
      → Wrote src t (write vector_consumer zlib inner src t)
  unfolding write
  write-Wrote inner src t started small ready enough =
      let chunk : Looped src t (deflate_loop vector_consumer zlib inner (take uint_max src) t) =
        rw (take_all uint_max src small) (deflate_loop-Looped inner src t ready enough) in
      otherwise (λ o. Wrote src t o) t.broken _ _ started
        (chunk_Wrote inner src t _ small refl chunk)
