-- ===== src/Recipients/Kept.antt =====
-- The properties of a label one by one: what `Recipient::getLabel` (cdoc/Recipient.cpp) puts into
-- it, `Lock::parseLabel` (cdoc/Lock.cpp) finds there.
use libcdoc.Base.{
  Bytes, All, codes, [], ◌∷◌, ◌++◌, false, Option, none, some, if◌then◌else◌, list_eq,
  list_eq_sound, list_eq_refl, ◌≡◌, ◌⊎◌, refl, sym, ap, ◌∙◌, inl, inr, Bool-cases,
}
use libcdoc.Locks.Label.{is_before, assign, parse_label}
use libcdoc.Recipients.{Recipient, symmetric_key, public_key, Properties, lookup, get_label}
use libcdoc.Recipients.Merged.{
  IsMap, shown, merged, lookup-merged, merged-IsPlain, merged-IsMap, label_parts-merged,
}
use libcdoc.Recipients.Labels.{IsPlain, assign_all, parse_label-get_label}

abbrev or_else : Option Bytes → Option Bytes → Option Bytes
or_else none d = d
or_else (some v) d = some v

or_else-none : (o : Option Bytes) → or_else o none ≡ o
or_else-none none = refl
or_else-none (some v) = refl

lookup-assign : (k v : Bytes) (m : Properties) → lookup k (assign k v m) ≡ some v
unfolding lookup assign
lookup-assign k v [] = rw (list_eq_refl k)
lookup-assign k v ((key, value) ∷ m) = elim (Bool-cases (list_eq key k)) [
  | inl same ↦ rw (same, assign, lookup, list_eq_refl k) refl
  | inr other ↦ elim (Bool-cases (is_before k key)) [
    | inl first ↦ rw (other, assign, first, lookup, list_eq_refl k) refl
    | inr later ↦ rw (other, assign, later, lookup, other) (lookup-assign k v m)
  ]
]

lookup-assign_other :
    (q k v : Bytes) (m : Properties) → list_eq k q ≡ false → lookup q (assign k v m) ≡ lookup q m
unfolding lookup assign
lookup-assign_other q k v [] h = rw h
lookup-assign_other q k v ((key, value) ∷ m) h = elim (Bool-cases (list_eq key k)) [
  | inl same ↦
      (let equal : key ≡ k = list_eq_sound key k same in
        let unlike : list_eq key q ≡ false = ap (λ x. list_eq x q) equal ∙ h in
        rw (same, assign, lookup, h, unlike) refl)
  | inr other ↦ elim (Bool-cases (is_before k key)) [
    | inl first ↦ rw (other, assign, first, lookup, h) refl
    | inr later ↦
        rw (other, assign, later, lookup)
          (ap (λ rest. if list_eq key q then some value else rest) (lookup-assign_other q k v m h))
  ]
]

lookup-assign_all :
    (q : Bytes) (ps m : Properties)
    → list_eq (codes "v") q ≡ false
    → IsMap ps
    → lookup q (assign_all ps m) ≡ or_else (lookup q ps) (lookup q m)
unfolding lookup assign_all
lookup-assign_all q [] m h keys = refl
lookup-assign_all q ((k, v) ∷ ps) m h keys = elim (Bool-cases (list_eq k (codes "v"))) [
  | inl version ↦
      (let equal : k ≡ codes "v" = list_eq_sound k (codes "v") version in
        let unlike : list_eq k q ≡ false = ap (λ x. list_eq x q) equal ∙ h in
        rw (version, assign_all, lookup, unlike) (lookup-assign_all q ps m h keys.1))
  | inr other ↦ elim (Bool-cases (list_eq k q)) [
    | inl same ↦
        (let equal : k ≡ q = list_eq_sound k q same in
          let later : lookup q ps ≡ none = ap (λ x. lookup x ps) (sym equal) ∙ keys.0 in
          let now : lookup q (assign k v m) ≡ some v =
            ap (λ x. lookup x (assign k v m)) (sym equal) ∙ lookup-assign k v m in
          rw (other, assign_all, lookup, same)
            (lookup-assign_all q ps (assign k v m) h keys.1 ∙ rw (later, now) refl))
    | inr unlike ↦
        rw (other, assign_all, lookup, unlike)
          (lookup-assign_all q ps (assign k v m) h keys.1
            ∙ ap (λ o. or_else (lookup q ps) o) (lookup-assign_other q k v m unlike))
  ]
]

kept_alone :
    (decode : Bytes → Option Bytes) (r : Recipient) (q : Bytes)
    → (r.type ≡ symmetric_key) ⊎ (r.type ≡ public_key)
    → r.label ≡ []
    → All IsPlain r.lbl_parts
    → IsMap r.lbl_parts
    → list_eq (codes "v") q ≡ false
    → lookup q (parse_label decode (get_label [] r)) ≡ lookup q r.lbl_parts
unfolding lookup
kept_alone decode r q kind bare plain keys other =
    ap (lookup q) (parse_label-get_label decode r kind bare plain)
    ∙ lookup-assign_all q r.lbl_parts ((codes "v", codes "1") ∷ []) other keys
    ∙ rw other (or_else-none (lookup q r.lbl_parts))

get_label-merged :
    (extra : Properties) (r : Recipient)
    → (r.type ≡ symmetric_key) ⊎ (r.type ≡ public_key)
    → r.label ≡ []
    → lookup (codes "v") extra ≡ none
    → get_label extra r ≡ get_label [] (record r { lbl_parts = merged r.lbl_parts extra })
unfolding get_label
get_label-merged extra r (inl kind) bare fresh =
    rw (get_label, bare, kind)
      (ap (λ s. codes "data:,v=1" ++ s) (label_parts-merged r.lbl_parts extra fresh))
get_label-merged extra r (inr kind) bare fresh =
    rw (get_label, bare, kind)
      (ap (λ s. codes "data:,v=1" ++ s) (label_parts-merged r.lbl_parts extra fresh))

-- The label that getLabel makes with additional properties, none of which is v, the version, for a
-- recipient without a label of its own, which has a symmetric key or a public key, is read back,
-- whatever decodes Base64, where the properties of both are of bytes, with different keys in lower
-- case: under each key but v there is the additional value, if there is one and it is not empty or
-- the recipient has the key too, and else what the recipient has there.
pub lookup-parse_label :
    (decode : Bytes → Option Bytes) (extra : Properties) (r : Recipient) (q : Bytes)
    → (r.type ≡ symmetric_key) ⊎ (r.type ≡ public_key)
    → r.label ≡ []
    → All IsPlain r.lbl_parts
    → IsMap r.lbl_parts
    → All IsPlain extra
    → IsMap extra
    → lookup (codes "v") extra ≡ none
    → list_eq (codes "v") q ≡ false
    → lookup q (parse_label decode (get_label extra r))
      ≡ shown (lookup q r.lbl_parts) (lookup q extra)
lookup-parse_label decode extra r q kind bare plain keys xplain xkeys fresh other =
    ap (λ s. lookup q (parse_label decode s)) (get_label-merged extra r kind bare fresh)
    ∙ kept_alone decode (record r { lbl_parts = merged r.lbl_parts extra }) q kind bare
        (merged-IsPlain r.lbl_parts extra plain xplain) (merged-IsMap r.lbl_parts extra keys xkeys)
        other
    ∙ lookup-merged q r.lbl_parts extra keys xkeys
