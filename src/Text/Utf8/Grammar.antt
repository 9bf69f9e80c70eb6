-- ===== src/Text/Utf8/Grammar.antt =====
-- `isValidUtf8` accepts exactly the texts of a grammar by ranges of bytes.
use libcdoc.Base.{
  ℕ, zero, suc, ◌≤◌, ◌<◌, Bytes, IsBytes, All-drop, length, drop, [], ◌∷◌, some, Bool, true, false,
  ◌&&◌, leb, ltb, ◌≡◌, ◌≢◌, ◌↔◌, inl, inr, refl, sym, arith, Option-cases, all_below,
  all_below_sound, not,
}
use libcdoc.Text.Utf8.{
  is_ascii, leads_two, leads_three, leads_four, is_continuation, utf8_step, utf8_loop,
  is_valid_utf8,
}

abbrev pub IsContinuation : ℕ → Type 0
IsContinuation c = (0x80 ≤ c) × (c < 0xc0)

-- A text is a row of characters of one to four bytes, told apart by their first byte.
pub data WellFormed : Bytes → Type 0 where
  done : WellFormed []
  one : (a : ℕ) (s : Bytes) → a < 0x80 → WellFormed s → WellFormed (a ∷ s)
  two :
      (a b : ℕ) (s : Bytes)
      → 0xc0 ≤ a
      → a < 0xe0
      → IsContinuation b
      → WellFormed s
      → WellFormed (a ∷ b ∷ s)
  three :
      (a b c : ℕ) (s : Bytes)
      → 0xe0 ≤ a
      → a < 0xf0
      → IsContinuation b
      → IsContinuation c
      → WellFormed s
      → WellFormed (a ∷ b ∷ c ∷ s)
  four :
      (a b c d : ℕ) (s : Bytes)
      → 0xf0 ≤ a
      → a < 0xf8
      → IsContinuation b
      → IsContinuation c
      → IsContinuation d
      → WellFormed s
      → WellFormed (a ∷ b ∷ c ∷ d ∷ s)

abbrev same : Bool → Bool → Bool
same true b = b
same false b = not b

same_sound : (a b : Bool) → same a b ≡ true → a ≡ b
same_sound true b h = sym h
same_sound false true h = h
same_sound false false h = refl

module _ (p q : ℕ → Bool) (table : all_below 256 (λ x. same (p x) (q x)) ≡ true) where
  by_table : (a : ℕ) → a < 256 → p a ≡ q a
  by_table a h = same_sound (p a) (q a) (all_below_sound 256 (λ x. same (p x) (q x)) a table h)

pub is_ascii-ltb : (a : ℕ) → a < 256 → is_ascii a ≡ ltb a 0x80
unfolding all_below is_ascii
is_ascii-ltb = by_table is_ascii (λ a. ltb a 0x80) refl

pub leads_two-range : (a : ℕ) → a < 256 → leads_two a ≡ (leb 0xc0 a && ltb a 0xe0)
unfolding all_below leads_two
leads_two-range = by_table leads_two (λ a. leb 0xc0 a && ltb a 0xe0) refl

pub leads_three-range : (a : ℕ) → a < 256 → leads_three a ≡ (leb 0xe0 a && ltb a 0xf0)
unfolding all_below leads_three
leads_three-range = by_table leads_three (λ a. leb 0xe0 a && ltb a 0xf0) refl

pub leads_four-range : (a : ℕ) → a < 256 → leads_four a ≡ (leb 0xf0 a && ltb a 0xf8)
unfolding all_below leads_four
leads_four-range = by_table leads_four (λ a. leb 0xf0 a && ltb a 0xf8) refl

pub is_continuation-range : (a : ℕ) → a < 256 → is_continuation a ≡ (leb 0x80 a && ltb a 0xc0)
unfolding all_below is_continuation
is_continuation-range = by_table is_continuation (λ a. leb 0x80 a && ltb a 0xc0) refl

-- A round that moves on by n has read one character of n bytes.
Step-Sound :
    (s : Bytes) (n : ℕ)
    → IsBytes s
    → length s ≢ 0
    → utf8_step s ≡ some n
    → WellFormed (drop n s)
    → WellFormed s
unfolding utf8_step
Step-Sound [] n bs ne h w = done
Step-Sound (a ∷ []) n bs ne h w = ground (arith, is_ascii-ltb a, one a [])
Step-Sound (a ∷ b ∷ []) n bs ne h w =
    ground (
      arith,
      is_ascii-ltb a,
      leads_two-range a,
      is_continuation-range b,
      one a (b ∷ []),
      two a b [],
    )
Step-Sound (a ∷ b ∷ c ∷ []) n bs ne h w = ground (
  arith,
  is_ascii-ltb a,
  leads_two-range a,
  leads_three-range a,
  is_continuation-range b,
  is_continuation-range c,
  one a (b ∷ c ∷ []),
  two a b (c ∷ []),
  three a b c [],
)
Step-Sound (a ∷ b ∷ c ∷ d ∷ s) n bs ne h w = ground (
  arith,
  is_ascii-ltb a,
  leads_two-range a,
  leads_three-range a,
  leads_four-range a,
  is_continuation-range b,
  is_continuation-range c,
  is_continuation-range d,
  one a (b ∷ c ∷ d ∷ s),
  two a b (c ∷ d ∷ s),
  three a b c (d ∷ s),
  four a b c d s,
)

utf8_loop_sound : (fuel : ℕ) (s : Bytes) → IsBytes s → utf8_loop fuel s ≡ true → WellFormed s
unfolding utf8_loop
utf8_loop_sound fuel [] bs h = done
utf8_loop_sound zero (a ∷ s) bs h = cc
utf8_loop_sound (suc fuel) (a ∷ s) bs h = elim (Option-cases (utf8_step (a ∷ s))) [
  | inl refused ↦ absurd (cc (rw (refused, utf8_loop) at h))
  | inr (n, moved) ↦
      Step-Sound (a ∷ s) n bs (ground arith) moved (
        utf8_loop_sound fuel (drop n (a ∷ s)) (All-drop _ n (a ∷ s) bs)
          (rw (moved, utf8_loop) at h))
]

WellFormed-IsBytes : (s : Bytes) → WellFormed s → IsBytes s
WellFormed-IsBytes _ done = tt
WellFormed-IsBytes _ (one a s h w) = (omega arith, WellFormed-IsBytes s w)
WellFormed-IsBytes _ (two a b s l h p w) = (omega arith, (omega arith, WellFormed-IsBytes s w))
WellFormed-IsBytes _ (three a b c s l h p q w) =
    (omega arith, (omega arith, (omega arith, WellFormed-IsBytes s w)))
WellFormed-IsBytes _ (four a b c d s l h p q r w) =
    (omega arith, (omega arith, (omega arith, (omega arith, WellFormed-IsBytes s w))))

step_one : (a : ℕ) (s : Bytes) → a < 0x80 → utf8_step (a ∷ s) ≡ some 1
unfolding utf8_step
step_one a s h = ground (arith, is_ascii-ltb a)

step_two :
    (a b : ℕ) (s : Bytes) → 0xc0 ≤ a → a < 0xe0 → IsContinuation b → utf8_step (a ∷ b ∷ s) ≡ some 2
unfolding utf8_step
step_two a b s l h p = ground (arith, is_ascii-ltb a, leads_two-range a, is_continuation-range b)

step_three :
    (a b c : ℕ) (s : Bytes)
    → 0xe0 ≤ a
    → a < 0xf0
    → IsContinuation b
    → IsContinuation c
    → utf8_step (a ∷ b ∷ c ∷ s) ≡ some 3
unfolding utf8_step
step_three a b c s l h p q = ground (
  arith,
  is_ascii-ltb a,
  leads_two-range a,
  leads_three-range a,
  is_continuation-range b,
  is_continuation-range c,
)

step_four :
    (a b c d : ℕ) (s : Bytes)
    → 0xf0 ≤ a
    → a < 0xf8
    → IsContinuation b
    → IsContinuation c
    → IsContinuation d
    → utf8_step (a ∷ b ∷ c ∷ d ∷ s) ≡ some 4
unfolding utf8_step
step_four a b c d s l h p q r = ground (
  arith,
  is_ascii-ltb a,
  leads_two-range a,
  leads_three-range a,
  leads_four-range a,
  is_continuation-range b,
  is_continuation-range c,
  is_continuation-range d,
)

utf8_loop_complete :
    (fuel : ℕ) (s : Bytes) → WellFormed s → length s ≤ fuel → utf8_loop fuel s ≡ true
unfolding utf8_loop
utf8_loop_complete fuel _ done le = refl
utf8_loop_complete zero _ (one a s h w) le = absurd (omega arith)
utf8_loop_complete zero _ (two a b s l h p w) le = absurd (omega arith)
utf8_loop_complete zero _ (three a b c s l h p q w) le = absurd (omega arith)
utf8_loop_complete zero _ (four a b c d s l h p q r w) le = absurd (omega arith)
utf8_loop_complete (suc fuel) _ (one a s h w) le =
    rw (step_one a s h, utf8_loop) (utf8_loop_complete fuel s w (omega arith))
utf8_loop_complete (suc fuel) _ (two a b s l h p w) le =
    rw (step_two a b s l h p, utf8_loop) (utf8_loop_complete fuel s w (omega arith))
utf8_loop_complete (suc fuel) _ (three a b c s l h p q w) le =
    rw (step_three a b c s l h p q, utf8_loop) (utf8_loop_complete fuel s w (omega arith))
utf8_loop_complete (suc fuel) _ (four a b c d s l h p q r w) le =
    rw (step_four a b c d s l h p q r, utf8_loop) (utf8_loop_complete fuel s w (omega arith))

-- A byte string is accepted by isValidUtf8 exactly when it is a row of characters of one to four
-- bytes, each with a lead byte of its range and continuation bytes behind it.
pub is_valid_utf8_iff : (s : Bytes) → IsBytes s → (is_valid_utf8 s ≡ true) ↔ WellFormed s
unfolding is_valid_utf8
is_valid_utf8_iff s bs =
    (utf8_loop_sound (length s) s bs, λ w. utf8_loop_complete (length s) s w (omega arith))
