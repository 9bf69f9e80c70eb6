-- ===== src/Io/Invariant.antt =====
-- A property of a stream's state that every read keeps (cdoc/Io.h), also one that fails.
use libcdoc.Base.{
  ℕ, zero, suc, ◌+◌, ◌-◌, min, length, ltb, ◌≡◌, inl, inr, Bool-cases, Option, none, some,
}
use libcdoc.Outcome.{Got, got, refused, Got-cases}
use libcdoc.Io.{Source, skip_loop, skip}

-- The state that a read leaves has the property.
abbrev pub Kept : {S : Type 0} → (S → Type 0) → Got S → Type 0
Kept P (got b s) = P s
Kept P (refused c s) = P s

-- The same of a read with fuel, if that does not run out.
abbrev pub KeptSome : {S : Type 0} → (S → Type 0) → Option (Got S) → Type 0
KeptSome P none = Unit
KeptSome P (some g) = Kept P g

abbrev pub Keeps : {S : Type 0} → Source S → (S → Type 0) → Type 0
Keeps {S} io P = (n : ℕ) (s : S) → P s → Kept P (io.read n s)

module _ {S : Type 0} (io : Source S) (P : S → Type 0) (keeps : Keeps io P) where
  pub Kept-got : (n : ℕ) (s : S) (g : Got S) → P s → io.read n s ≡ g → Kept P g
  Kept-got n s g p e = rw (← e) (keeps n s p)

  skip_loop_kept : (fuel size total : ℕ) (s : S) → P s → P (skip_loop io fuel size total s).1
  unfolding skip_loop
  skip_loop_kept zero size total s p = p
  skip_loop_kept (suc fuel) size total s p = elim (Bool-cases (ltb total size)) [
    | inr full ↦ rw (full, skip_loop) p
    | inl more ↦ elim (Got-cases (io.read (min (size - total) 65536) s)) [
      | inl (c, s', e) ↦ rw (more, e, skip_loop) (Kept-got _ s _ p e)
      | inr (b, s', e) ↦ elim (Bool-cases (ltb (length b) (min (size - total) 65536))) [
        | inl short ↦ rw (more, e, skip_loop, short) (Kept-got _ s _ p e)
        | inr whole ↦
            rw (more, e, skip_loop, whole)
              (skip_loop_kept fuel size (total + length b) s' (Kept-got _ s _ p e))
      ]
    ]
  ]

  -- `DataSource::skip` keeps it too.
  pub skip_kept : (size : ℕ) (s : S) → P s → P (skip io size s).1
  unfolding skip
  skip_kept size s p = skip_loop_kept _ size 0 s p
