-- ===== src/Cdoc1/Ends.antt =====
-- The loops of `CDoc1Reader` (cdoc/CDoc1Reader.cpp) over a document end.
use libcdoc.Base.{
  ℕ, zero, suc, ◌+◌, ◌<◌, ◌≤◌, Bytes, codes, [], Bool, true, false, Option, some, if◌then◌else◌,
  ◌≡◌, refl, inl, inr, arith, Bool-cases,
}
use libcdoc.Locks.{Lock, new_lock, cdoc1}
use libcdoc.Cdoc1.Xml.{
  Advance, node, no_node, bad_document, NodeType, end_element, document_type, entity_reference,
  other_node, TextReader, XmlReader, arrived, read, read_base64, read_text, is_element,
  is_end_element, attribute,
}
use libcdoc.Cdoc1.{Library, Cdoc1, payload_loop}
use libcdoc.Cdoc1.Parse.{key_element, key_loop, parse_loop, open_container, new_cdoc1}

-- A reader of libxml2 has a number of nodes before it, which xmlTextReaderRead never makes larger,
-- and makes smaller when it returns 1.
pub record IsFinite {X : Type 0} (lib : TextReader X) (left : X → ℕ) : Type 0 where
  pub never_back : (d : X) → left (lib.advance d).1 ≤ left d
  pub forward : (d : X) → (lib.advance d).0 ≡ node → left (lib.advance d).1 < left d

arrived-d :
    {X : Type 0} (a : Advance) (t : NodeType) (d : X) (x : XmlReader X) → (arrived a t d x).1.d ≡ d
unfolding arrived
arrived-d no_node t d x = refl
arrived-d bad_document t d x = refl
arrived-d node document_type d x = refl
arrived-d node entity_reference d x = refl
arrived-d node end_element d x = refl
arrived-d node other_node d x = refl

arrived-node :
    {X : Type 0} (a : Advance) (t : NodeType) (d : X) (x : XmlReader X)
    → (arrived a t d x).0 ≡ true
    → a ≡ node
unfolding arrived
arrived-node no_node t d x more = absurd (cc more)
arrived-node bad_document t d x more = absurd (cc more)
arrived-node node t d x more = refl

module _ {X : Type 0} (lib : TextReader X) (left : X → ℕ) (finite : IsFinite lib left) where
  read-left : (x : XmlReader X) → left (read lib x).1.d ≤ left x.d
  unfolding read
  read-left x =
      let (a, d) = lib.advance x.d in
      elim (Bool-cases (lib.is_null x.d)) [
        | inl null ↦ rw null (omega arith)
        | inr there ↦ rw (there, arrived-d a (lib.node_type d) d x) (finite.never_back x.d)
      ]

  read-forward : (x : XmlReader X) → (read lib x).0 ≡ true → left (read lib x).1.d < left x.d
  unfolding read
  read-forward x more =
      let (a, d) = lib.advance x.d in
      elim (Bool-cases (lib.is_null x.d)) [
        | inl null ↦ absurd (cc (rw (read, null) at more))
        | inr there ↦
            rw (there, arrived-d a (lib.node_type d) d x)
              (finite.forward x.d (arrived-node a (lib.node_type d) d x (rw (read, there) at more)))
      ]

  read_base64-left : (x : XmlReader X) → left (read_base64 lib x).1.d ≤ left x.d
  unfolding read_base64
  read_base64-left x = elim (Bool-cases (lib.is_null x.d)) [
    | inl null ↦ rw null (omega arith)
    | inr there ↦ rw there (finite.never_back x.d)
  ]

  read_text-left : (x : XmlReader X) → left (read_text lib x).1.d ≤ left x.d
  unfolding read_text
  read_text-left x = elim (Bool-cases (lib.is_null x.d)) [
    | inl null ↦ rw null (omega arith)
    | inr there ↦ rw there (finite.never_back x.d)
  ]

-- What holds of both branches.
if-both : {A : Type 0} (P : A → Type 0) (b : Bool) (x y : A) → P x → P y → P (if b then x else y)
if-both P true x y p q = p
if-both P false x y p q = q

-- A loop that ends, with a reader that has no more before it than the one it started from.
abbrev Ended : {A X : Type 0} → (X → ℕ) → ℕ → Option (XmlReader X × A) → Type 0
Ended {A} {X} left n o = (x : XmlReader X) × (a : A) × (o ≡ some (x, a)) × (left x.d ≤ n)

module _ {S C Z : Type 0} {X : Type 0 → Type 0} (lib : Library S C Z X) (left : X S → ℕ)
    (finite : IsFinite lib.xml left) where
  abbrev Found : {A : Type 0} → Option A → Type 0
  Found {A} p = (o : A) × (p ≡ some o)

  payload_loop-ends :
      (fuel ends starts : ℕ) (x : XmlReader (X S))
      → left x.d < fuel
      → Found (payload_loop lib fuel ends starts x)
  unfolding payload_loop
  payload_loop-ends zero ends starts x enough = absurd (omega (arith, enough))
  payload_loop-ends (suc fuel) ends starts x enough =
      let x' = (read lib.xml x).1 in
      elim (Bool-cases (read lib.xml x).0) [
        | inr over ↦ (([], x'), rw over refl)
        | inl more ↦
            let less : left x'.d < fuel =
              omega (arith, read-forward lib.xml left finite x more, enough) in
            rw more (
              if-both Found _ _ _ (payload_loop-ends fuel (ends + 1) starts x' less) (
                if-both Found _ _ _ (payload_loop-ends fuel ends (starts + 1) x' less) (
                  if-both Found _ _ _ (payload_loop-ends fuel ends starts x' less) (
                    if-both Found _ _ _ (read_base64 lib.xml x', refl)
                      (payload_loop-ends fuel ends starts x' less)))))
      ]

  key_element-left :
      (x : XmlReader (X S)) (key : Lock) → left (key_element lib x key).0.d ≤ left x.d
  unfolding key_element
  key_element-left x key =
      let less = read_base64-left lib.xml left finite x in
      let same : left x.d ≤ left x.d = omega arith in
      elim (Bool-cases (is_element lib.xml (codes "EncryptionMethod") x)) [
        | inl this ↦ rw (key_element, this) same
        | inr no0 ↦ elim (Bool-cases (is_element lib.xml (codes "ConcatKDFParams") x)) [
          | inl this ↦ rw (key_element, no0, this) same
          | inr no1 ↦ elim (Bool-cases (is_element lib.xml (codes "DigestMethod") x)) [
            | inl this ↦ rw (key_element, no0, no1, this) same
            | inr no2 ↦ elim (Bool-cases (is_element lib.xml (codes "PublicKey") x)) [
              | inl this ↦ rw (key_element, no0, no1, no2, this) less
              | inr no3 ↦ elim (Bool-cases (is_element lib.xml (codes "X509Certificate") x)) [
                | inl this ↦ rw (key_element, no0, no1, no2, no3, this) less
                | inr no4 ↦ elim (Bool-cases (is_element lib.xml (codes "CipherValue") x)) [
                  | inl this ↦ rw (key_element, no0, no1, no2, no3, no4, this) less
                  | inr no5 ↦ rw (key_element, no0, no1, no2, no3, no4, no5) same
                ]
              ]
            ]
          ]
        ]
      ]

  key_loop-ends :
      (fuel n : ℕ) (x : XmlReader (X S)) (key : Lock)
      → left x.d < fuel
      → left x.d ≤ n
      → Ended left n (key_loop lib fuel x key)
  unfolding key_loop
  key_loop-ends zero n x key enough most = absurd (omega (arith, enough))
  key_loop-ends (suc fuel) n x key enough most =
      let x1 = (read lib.xml x).1 in
      let back : left x1.d ≤ n = omega (arith, read-left lib.xml left finite x, most) in
      elim (Bool-cases (read lib.xml x).0) [
        | inr over ↦ (x1, key, rw over refl, back)
        | inl more ↦
            let less : left x1.d < fuel =
              omega (arith, read-forward lib.xml left finite x more, enough) in
            let (x2, key') = key_element lib x1 key in
            let still = key_element-left x1 key in
            rw more (
              if-both (Ended left n) _ _ _ (x1, key, refl, back)
                (if-both (Ended left n) _ _ _ (key_loop-ends fuel n x1 key less back) (
                  key_loop-ends fuel n x2 key' (omega (arith, still, less))
                    (omega (arith, still, back)))))
      ]

  parse_loop-ends :
      (fuel : ℕ) (x : XmlReader (X S)) (r : Cdoc1 S)
      → left x.d < fuel
      → Found (parse_loop lib fuel x r)
  unfolding parse_loop
  parse_loop-ends zero x r enough = absurd (omega (arith, enough))
  parse_loop-ends (suc fuel) x r enough =
      let x1 = (read lib.xml x).1 in
      elim (Bool-cases (read lib.xml x).0) [
        | inr over ↦ ((x1, r), rw over refl)
        | inl more ↦
            let less : left x1.d < fuel =
              omega (arith, read-forward lib.xml left finite x more, enough) in
            let x2 = (read_text lib.xml x1).1 in
            let text_less : left x2.d < fuel =
              omega (arith, read_text-left lib.xml left finite x1, less) in
            let key0 : Lock = record new_lock {
              type = cdoc1;
              label = attribute lib.xml (codes "Recipient") x1;
            } in
            let (x3, key, keyed, back) =
              key_loop-ends fuel (left x1.d) x1 key0 less (omega arith) in
            let passed = parse_loop-ends fuel x1 r less in
            elim (Bool-cases (is_end_element lib.xml x1)) [
              | inl this ↦ rw (more, this) passed
              | inr no0 ↦ elim (Bool-cases (is_element lib.xml (codes "EncryptedData") x1)) [
                | inl this ↦ rw (more, no0, this) (parse_loop-ends fuel x1 _ less)
                | inr no1 ↦ elim (Bool-cases (is_element lib.xml (codes "EncryptionMethod") x1)) [
                  | inl this ↦ rw (more, no0, no1, this) (parse_loop-ends fuel x1 _ less)
                  | inr no2 ↦
                      elim (Bool-cases (is_element lib.xml (codes "EncryptionProperty") x1)) [
                        | inl this ↦
                            rw (more, no0, no1, no2, this) (parse_loop-ends fuel x2 _ text_less)
                        | inr no3 ↦
                            elim (Bool-cases (is_element lib.xml (codes "EncryptedKey") x1)) [
                              | inl this ↦
                                  rw (more, no0, no1, no2, no3, this, keyed)
                                    (parse_loop-ends fuel x3 _ (omega (arith, back, less)))
                              | inr no4 ↦ rw (more, no0, no1, no2, no3, no4) passed
                            ]
                      ]
                ]
              ]
            ]
      ]

  -- Over a document with fewer nodes than the fuel, the constructor of CDoc1Reader returns, and so
  -- does the search of decryptData for the payload.
  pub open_container-ends :
      (fuel : ℕ) (s : S)
      → left (lib.open_xml lib.io s) < fuel
      → ((r : Cdoc1 S) × (open_container lib fuel s ≡ some r))
        × ((o : Bytes × XmlReader (X S)) × (payload_loop lib fuel 0 0
                (record { d = lib.open_xml lib.io s; error = false })
              ≡ some o))
  unfolding open_container
  open_container-ends fuel s enough =
      let opened : XmlReader (X S) = record { d = lib.open_xml lib.io s; error = false } in
      let ((x, r), parsed) = parse_loop-ends fuel opened (new_cdoc1 lib s) enough in
      let said = if x.error then codes "Cannot parse container" else r.last_error in
      (
        (record r { dsrc = lib.source x.d; last_error = said }, rw (open_container, parsed) refl),
        payload_loop-ends fuel 0 0 opened enough,
      )
