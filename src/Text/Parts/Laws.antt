-- ===== src/Text/Parts/Laws.antt =====
-- When `split` and `join` of cdoc/Utils.h undo each other, and when they do not.
use libcdoc.Base.{
  ℕ, Bytes, All, List, [], ◌∷◌, ◌++◌, append_assoc, append-nil, list_eq, list_eq_refl,
  list_eq_sound, if◌then◌else◌, ◌≡◌, ◌≢◌, refl, sym, ap, ◌∙◌, arith, Bool-cases, inl, inr, ==_refl,
}
use libcdoc.Text.Parts.{split_loop, split, join_loop, join}

-- The byte `d` does not occur.
abbrev pub Lacks : ℕ → Bytes → Type 0
Lacks d = All (λ c. c ≢ d)

-- The last part is not empty.
abbrev pub EndsFull : List Bytes → Type 0
EndsFull [] = Unit {0}
EndsFull (p ∷ []) = p ≢ []
EndsFull (p ∷ q ∷ ps) = EndsFull (q ∷ ps)

-- The parts behind the first one, each with the separator unless it equals the first one.
pub tail_text : Bytes → Bytes → List Bytes → Bytes
tail_text front sep [] = []
tail_text front sep (p ∷ ps) = (if list_eq p front then p else sep ++ p) ++ tail_text front sep ps

join_loop-tail_text :
    (front sep : Bytes) (ps : List Bytes) (out : Bytes)
    → join_loop front sep ps out ≡ out ++ tail_text front sep ps
unfolding join_loop tail_text
join_loop-tail_text front sep [] out = sym (append-nil out)
join_loop-tail_text front sep (p ∷ ps) out = elim (Bool-cases (list_eq p front)) [
  | inl same ↦ rw (same, join_loop-tail_text front sep ps (out ++ p)) (append_assoc out p _)
  | inr other ↦ rw (other, join_loop-tail_text front sep ps ((out ++ sep) ++ p)) (simp append_assoc)
]

pub join-tail_text :
    (p : Bytes) (ps : List Bytes) (sep : Bytes) → join (p ∷ ps) sep ≡ p ++ tail_text p sep ps
unfolding join tail_text
join-tail_text p ps sep = rw (join_loop-tail_text p sep (p ∷ ps) [], tail_text, list_eq_refl p)

-- With parts that all differ from the first one, each has its separator.
abbrev pub separated : Bytes → List Bytes → Bytes
separated sep [] = []
separated sep (p ∷ ps) = sep ++ (p ++ separated sep ps)

tail_text-separated :
    (front sep : Bytes) (ps : List Bytes)
    → All (λ q. q ≢ front) ps
    → tail_text front sep ps ≡ separated sep ps
unfolding tail_text
tail_text-separated front sep [] h = refl
tail_text-separated front sep (p ∷ ps) h = elim (Bool-cases (list_eq p front)) [
  | inl same ↦ absurd (h.0 (list_eq_sound p front same))
  | inr other ↦ rw (other, tail_text-separated front sep ps h.1) (append_assoc sep p _)
]

split_loop-append :
    (d : ℕ) (p rest item : Bytes)
    → Lacks d p
    → split_loop d (p ++ rest) item ≡ split_loop d rest (item ++ p)
unfolding split_loop
split_loop-append d [] rest item h = rw append-nil
split_loop-append d (c ∷ p) rest item h =
    ground (arith, split_loop-append d p rest (item ++ c ∷ []), append_assoc item (c ∷ []) p)

split_loop_stop : (d : ℕ) (s item : Bytes) → split_loop d (d ∷ s) item ≡ item ∷ split_loop d s []
unfolding split_loop
split_loop_stop d s item = rw (==_refl d)

split_loop_end : (d : ℕ) (item : Bytes) → item ≢ [] → split_loop d [] item ≡ item ∷ []
unfolding split_loop
split_loop_end d [] h = absurd (h refl)
split_loop_end d (x ∷ item) h = refl

split_loop-separated :
    (d : ℕ) (p : Bytes) (ps : List Bytes)
    → All (Lacks d) (p ∷ ps)
    → EndsFull (p ∷ ps)
    → split_loop d (separated (d ∷ []) ps) p ≡ p ∷ ps
split_loop-separated d p [] h full = split_loop_end d p full
split_loop-separated d p (q ∷ ps) h full =
    rw (split_loop_stop, split_loop-append d q (separated (d ∷ []) ps) [] h.1.0)
      (ap (λ t. p ∷ t) (split_loop-separated d q ps h.1 full))

-- Splitting a join gives the parts back if no part holds the separator, the last one is not empty
-- and no later part equals the first one.
pub split-join :
    (d : ℕ) (p : Bytes) (ps : List Bytes)
    → All (Lacks d) (p ∷ ps)
    → All (λ q. q ≢ p) ps
    → EndsFull (p ∷ ps)
    → split (join (p ∷ ps) (d ∷ [])) d ≡ p ∷ ps
unfolding split
split-join d p ps lacks other full =
    rw
      (
        join-tail_text p ps (d ∷ []),
        tail_text-separated p (d ∷ []) ps other,
        split_loop-append d p (separated (d ∷ []) ps) [] lacks.0,
      )
      (split_loop-separated d p ps lacks full)

split_loop_whole :
    (d : ℕ) (p item : Bytes) → Lacks d p → item ≢ [] → split_loop d p item ≡ (item ++ p) ∷ []
split_loop_whole d p [] lacks full = absurd (full refl)
split_loop_whole d p (x ∷ item) lacks full =
    ap (λ t. split_loop d t (x ∷ item)) (sym (append-nil p))
    ∙ (split_loop-append d p [] (x ∷ item) lacks ∙ split_loop_end d (x ∷ item ++ p) (cc))

-- Two equal parts that are not empty and do not hold the separator are joined without it, and read
-- back as one.
pub split-join_repeat :
    (d : ℕ) (p : Bytes) → Lacks d p → p ≢ [] → split (join (p ∷ p ∷ []) (d ∷ [])) d ≡ (p ++ p) ∷ []
unfolding split tail_text
split-join_repeat d p lacks full =
    rw
      (
        join-tail_text p (p ∷ []) (d ∷ []),
        tail_text,
        list_eq_refl p,
        append-nil p,
        split_loop-append d p p [] lacks,
      )
      (split_loop_whole d p p lacks full)
