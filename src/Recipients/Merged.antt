-- ===== src/Recipients/Merged.antt =====
-- The additional properties of a label: what `Recipient::getLabel` (cdoc/Recipient.cpp) makes of
-- `extra`.
use libcdoc.Base.{
  Bytes, All, codes, [], ◌∷◌, ◌++◌, false, Option, none, some, list_eq, list_eq_sound, list_eq_refl,
  ◌≡◌, refl, sym, ap, ap₂, ◌∙◌, IsBytes, inl, inr, Bool-cases, Option-cases,
}
use libcdoc.Recipients.{Properties, lookup, erase, extra_parts, label_part, label_parts}
use libcdoc.Recipients.Labels.{IsPlain}

-- The keys of a map are different.
abbrev pub IsMap : Properties → Type 0
IsMap [] = Unit {0}
IsMap ((k, v) ∷ ps) = (lookup k ps ≡ none) × IsMap ps

-- What a label shows of a key: the additional value takes the place of the recipient's own, and a
-- new key needs a value that is not empty.
abbrev pub shown : Option Bytes → Option Bytes → Option Bytes
shown own none = own
shown (some v) (some e) = some e
shown none (some []) = none
shown none (some (x ∷ e)) = some (x ∷ e)

-- The properties of the label: the recipient's own, and the rest of the additional ones.
abbrev rest_of : Properties → Properties
rest_of [] = []
rest_of ((k, []) ∷ m) = rest_of m
rest_of ((k, x ∷ v) ∷ m) = (k, x ∷ v) ∷ rest_of m

unfoldable pub merged : Properties → Properties → Properties
merged [] extra = rest_of extra
merged ((k, v) ∷ m) extra =
    let rest = merged m extra in
    let rest_erased = merged m (erase k extra) in
    elim (lookup k extra) [ none ↦ (k, v) ∷ rest | some e ↦ (k, e) ∷ rest_erased ]

unlike : (q k : Bytes) → list_eq q k ≡ false → list_eq k q ≡ false
unlike q k other = elim (Bool-cases (list_eq k q)) [
  | inr h ↦ h
  | inl same ↦
      (let equal : k ≡ q = list_eq_sound k q same in
        absurd (cc (ap (λ x. list_eq q x) equal, list_eq_refl q, other)))
]

lookup-erase : (q k : Bytes) (m : Properties) → lookup q m ≡ none → lookup q (erase k m) ≡ none
unfolding lookup erase
lookup-erase q k [] h = refl
lookup-erase q k ((j, v) ∷ m) h = elim (Bool-cases (list_eq j q)) [
  | inl same ↦ absurd (cc (rw same at h))
  | inr other ↦ elim (Bool-cases (list_eq j k)) [
    | inl gone ↦ rw gone (rw other at h)
    | inr there ↦ rw (there, other) (lookup-erase q k m (rw other at h))
  ]
]

lookup-erase_other :
    (q k : Bytes) (m : Properties) → list_eq k q ≡ false → lookup q (erase k m) ≡ lookup q m
unfolding lookup erase
lookup-erase_other q k [] h = refl
lookup-erase_other q k ((j, v) ∷ m) h = elim (Bool-cases (list_eq j k)) [
  | inl gone ↦
      (let equal : j ≡ k = list_eq_sound j k gone in
        let other : list_eq j q ≡ false = ap (λ x. list_eq x q) equal ∙ h in rw (gone, other) refl)
  | inr there ↦ elim (Bool-cases (list_eq j q)) [
    | inl same ↦ rw (there, same) refl
    | inr other ↦ rw (there, other) (lookup-erase_other q k m h)
  ]
]

lookup-erase_same : (k : Bytes) (m : Properties) → IsMap m → lookup k (erase k m) ≡ none
unfolding lookup erase
lookup-erase_same k [] keys = refl
lookup-erase_same k ((j, v) ∷ m) keys = elim (Bool-cases (list_eq j k)) [
  | inl gone ↦
      (let equal : j ≡ k = list_eq_sound j k gone in
        rw gone (ap (λ x. lookup x m) (sym equal) ∙ keys.0))
  | inr there ↦ rw (there, there) (lookup-erase_same k m keys.1)
]

erase-IsMap : (k : Bytes) (m : Properties) → IsMap m → IsMap (erase k m)
unfolding erase
erase-IsMap k [] keys = tt
erase-IsMap k ((j, v) ∷ m) keys = elim (Bool-cases (list_eq j k)) [
  | inl gone ↦ rw gone keys.1
  | inr there ↦ rw there (lookup-erase j k m keys.0, erase-IsMap k m keys.1)
]

lookup-rest_of :
    (q : Bytes) (m : Properties) → IsMap m → lookup q (rest_of m) ≡ shown none (lookup q m)
unfolding lookup
lookup-rest_of q [] keys = refl
lookup-rest_of q ((k, []) ∷ m) keys = elim (Bool-cases (list_eq k q)) [
  | inl same ↦
      (let equal : k ≡ q = list_eq_sound k q same in
        let missing : lookup q m ≡ none = ap (λ x. lookup x m) (sym equal) ∙ keys.0 in
        rw same (lookup-rest_of q m keys.1 ∙ rw missing refl))
  | inr other ↦ rw other (lookup-rest_of q m keys.1)
]
lookup-rest_of q ((k, x ∷ v) ∷ m) keys = elim (Bool-cases (list_eq k q)) [
  | inl same ↦ rw same refl
  | inr other ↦ rw other (lookup-rest_of q m keys.1)
]

-- Under every key the properties of the label show what they show of the two maps.
pub lookup-merged :
    (q : Bytes) (ps extra : Properties)
    → IsMap ps
    → IsMap extra
    → lookup q (merged ps extra) ≡ shown (lookup q ps) (lookup q extra)
unfolding lookup merged
lookup-merged q [] extra keys ekeys = lookup-rest_of q extra ekeys
lookup-merged q ((k, v) ∷ ps) extra keys ekeys = elim (Option-cases (lookup k extra)) [
  | inl missing ↦ elim (Bool-cases (list_eq k q)) [
    | inl same ↦
        (let equal : k ≡ q = list_eq_sound k q same in
          let absent : lookup q extra ≡ none = ap (λ x. lookup x extra) (sym equal) ∙ missing in
          rw (missing, merged, same, lookup, absent) refl)
    | inr other ↦ rw (missing, merged, other, lookup) (lookup-merged q ps extra keys.1 ekeys)
  ]
  | inr (e, there) ↦ elim (Bool-cases (list_eq k q)) [
    | inl same ↦
        (let equal : k ≡ q = list_eq_sound k q same in
          let found : lookup q extra ≡ some e = ap (λ x. lookup x extra) (sym equal) ∙ there in
          rw (there, merged, same, lookup, found) refl)
    | inr other ↦
        rw (there, merged, other, lookup)
          (lookup-merged q ps (erase k extra) keys.1 (erase-IsMap k extra ekeys)
            ∙ ap (λ o. shown (lookup q ps) o) (lookup-erase_other q k extra other))
  ]
]

-- Keys and values of bytes, with keys in lower case.
rest_of-IsPlain : (m : Properties) → All IsPlain m → All IsPlain (rest_of m)
rest_of-IsPlain [] h = h
rest_of-IsPlain ((k, []) ∷ m) h = rest_of-IsPlain m h.1
rest_of-IsPlain ((k, x ∷ v) ∷ m) h = (h.0, rest_of-IsPlain m h.1)

erase-IsPlain : (k : Bytes) (m : Properties) → All IsPlain m → All IsPlain (erase k m)
unfolding erase
erase-IsPlain k [] h = h
erase-IsPlain k ((j, v) ∷ m) h = elim (Bool-cases (list_eq j k)) [
  | inl gone ↦ rw gone h.1
  | inr there ↦ rw there (h.0, erase-IsPlain k m h.1)
]

value-IsBytes : (k e : Bytes) (m : Properties) → All IsPlain m → lookup k m ≡ some e → IsBytes e
unfolding lookup
value-IsBytes k e [] h found = absurd (cc found)
value-IsBytes k e ((j, v) ∷ m) h found = elim (Bool-cases (list_eq j k)) [
  | inl same ↦ (let equal : v ≡ e = cc (rw same at found) in rw (← equal) h.0.1)
  | inr other ↦ value-IsBytes k e m h.1 (rw other at found)
]

pub merged-IsPlain :
    (ps extra : Properties) → All IsPlain ps → All IsPlain extra → All IsPlain (merged ps extra)
unfolding merged
merged-IsPlain [] extra h x = rest_of-IsPlain extra x
merged-IsPlain ((k, v) ∷ ps) extra h x = elim (Option-cases (lookup k extra)) [
  | inl missing ↦ rw (missing, merged) (h.0, merged-IsPlain ps extra h.1 x)
  | inr (e, there) ↦
      rw (there, merged)
        (
          (h.0.0, value-IsBytes k e extra x there, h.0.2),
          merged-IsPlain ps (erase k extra) h.1 (erase-IsPlain k extra x),
        )
]

rest_of-IsMap : (m : Properties) → IsMap m → IsMap (rest_of m)
rest_of-IsMap [] keys = tt
rest_of-IsMap ((k, []) ∷ m) keys = rest_of-IsMap m keys.1
rest_of-IsMap ((k, x ∷ v) ∷ m) keys =
    (lookup-rest_of k m keys.1 ∙ ap (shown none) keys.0, rest_of-IsMap m keys.1)

pub merged-IsMap : (ps extra : Properties) → IsMap ps → IsMap extra → IsMap (merged ps extra)
unfolding merged
merged-IsMap [] extra keys ekeys = rest_of-IsMap extra ekeys
merged-IsMap ((k, v) ∷ ps) extra keys ekeys = elim (Option-cases (lookup k extra)) [
  | inl missing ↦
      rw (missing, merged)
        (
          lookup-merged k ps extra keys.1 ekeys ∙ ap₂ shown keys.0 missing,
          merged-IsMap ps extra keys.1 ekeys,
        )
  | inr (e, there) ↦
      (let ekeys' = erase-IsMap k extra ekeys in
        rw (there, merged)
          (
            lookup-merged k ps (erase k extra) keys.1 ekeys'
                ∙ ap₂ shown keys.0 (lookup-erase_same k extra ekeys),
            merged-IsMap ps (erase k extra) keys.1 ekeys',
          ))
]

extra_parts-rest_of :
    (m : Properties) → lookup (codes "v") m ≡ none → extra_parts m ≡ label_parts (rest_of m) []
unfolding extra_parts label_parts lookup
extra_parts-rest_of [] h = refl
extra_parts-rest_of ((k, []) ∷ m) h = elim (Bool-cases (list_eq k (codes "v"))) [
  | inl same ↦ absurd (cc (rw same at h))
  | inr other ↦ extra_parts-rest_of m (rw other at h)
]
extra_parts-rest_of ((k, x ∷ v) ∷ m) h = elim (Bool-cases (list_eq k (codes "v"))) [
  | inl same ↦ absurd (cc (rw same at h))
  | inr other ↦
      rw (other, extra_parts, label_parts)
        (ap (λ s. label_part k (x ∷ v) ++ s) (extra_parts-rest_of m (rw other at h)))
]

-- The label of two maps is that of the merged one.
pub label_parts-merged :
    (ps extra : Properties)
    → lookup (codes "v") extra ≡ none
    → label_parts ps extra ≡ label_parts (merged ps extra) []
unfolding label_parts merged lookup label_part
label_parts-merged [] extra h = extra_parts-rest_of extra h
label_parts-merged ((k, v) ∷ ps) extra h = elim (Bool-cases (list_eq k (codes "v"))) [
  | inl same ↦
      (let equal : k ≡ codes "v" = list_eq_sound k (codes "v") same in
        let missing : lookup k extra ≡ none = ap (λ x. lookup x extra) equal ∙ h in
        rw (missing, label_parts, merged, same) (label_parts-merged ps extra h))
  | inr other ↦ elim (Option-cases (lookup k extra)) [
    | inl missing ↦
        rw (missing, label_parts, merged, other)
          (ap (λ s. label_part k v ++ s) (label_parts-merged ps extra h))
    | inr (e, there) ↦
        rw (there, label_parts, merged, other)
          (ap (λ s. label_part k e ++ s)
            (label_parts-merged ps (erase k extra) (lookup-erase (codes "v") k extra h)))
  ]
]
