-- ===== src/Tar/Reader/InEntry.antt =====
-- `TarSource::read` (cdoc/Tar.cpp) stays in the entry.
use libcdoc.Base.{
  ℕ, ◌+◌, ◌-◌, ◌≤◌, min, Bytes, length, [], ◌∷◌, ◌++◌, Bool, true, false, Option, none, some, leb,
  if◌then◌else◌, ◌≡◌, refl, arith,
}
use libcdoc.Outcome.{Code, Got, got, refused, unless_failed}
use libcdoc.Io.{Source}
use libcdoc.Io.Stream.{IsSource}
use libcdoc.Tar.Reader.{TarSource, take_read, read}

module _ {S : Type 0} (io : Source S) (rest : S → Bytes) (law : IsSource io rest) where
  -- A read hands over the next bytes of the stream, no more than were asked for and none beyond the
  -- end of the entry's data, and moves on by as many.
  pub record Stays (t : TarSource S) (size : ℕ) (b : Bytes) (t' : TarSource S) : Type 0 where
    pub next : rest t.src ≡ b ++ rest t'.src
    pub fits : length b ≤ size
    pub moved : t'.pos ≡ t.pos + length b
    pub inside : t'.pos ≤ t.data_size
    pub same_entry : (t'.data_size ≡ t.data_size) × (t'.block_end ≡ t.block_end)

  -- A read that fails does not move.
  abbrev pub Right : TarSource S → ℕ → Got (TarSource S) → Type 0
  Right t size (refused c t') = t'.pos ≡ t.pos
  Right t size (got b t') = Stays t size b t'

  take_read-Right :
      (size n : ℕ) (t : TarSource S) (g : Got S)
      → n ≤ size
      → t.pos + n ≤ t.data_size
      → io.read n t.src ≡ g
      → Right t size (take_read io g t)
  unfolding take_read
  take_read-Right size n t (refused c s) le room e = refl
  take_read-Right size n t (got [] s) le room e = record {
    next = law.next n t.src [] s e;
    fits = omega arith;
    moved = omega arith;
    inside = omega arith;
    same_entry = (refl, refl);
  }
  take_read-Right size n t (got (x ∷ r) s) le room e =
      let fits = law.fits n t.src (x ∷ r) s e in
      record {
        next = law.next n t.src (x ∷ r) s e;
        fits = omega (arith, fits);
        moved = refl;
        inside = omega (arith, fits);
        same_entry = (refl, refl);
      }

  stay-Right :
      (size : ℕ) (t : TarSource S)
      → t.pos ≤ t.data_size
      → Right t size (got [] (record t { eof = true }))
  stay-Right size t inside = record {
    next = refl;
    fits = omega arith;
    moved = omega arith;
    inside = inside;
    same_entry = (refl, refl);
  }

  -- Over a source that keeps its contract and from a position in the entry, TarSource::read returns
  -- the next bytes of the stream, no more than were asked for, and its new position is in the entry
  -- again; a read that fails keeps the position.
  pub read-Right :
      (size : ℕ) (t : TarSource S) → t.pos ≤ t.data_size → Right t size (read io size t)
  unfolding read
  read-Right size t inside = by_error t.error
    where
      by_end :
          (b : Bool)
          → leb t.data_size t.pos ≡ b
          → Right t size (
              if b
              then got [] (record t { eof = true })
              else take_read io (io.read (min (t.data_size - t.pos) size) t.src) t)
      by_end true e = stay-Right size t inside
      by_end false e =
          take_read-Right size (min (t.data_size - t.pos) size) t _ (omega arith) (ground arith)
            refl

      by_error :
          (o : Option Code)
          → Right t size (
              unless_failed o
                (λ c. refused c t)
                (if leb t.data_size t.pos
                  then got [] (record t { eof = true })
                  else take_read io (io.read (min (t.data_size - t.pos) size) t.src) t))
      by_error none = by_end (leb t.data_size t.pos) refl
      by_error (some c) = refl
