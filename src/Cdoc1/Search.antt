-- ===== src/Cdoc1/Search.antt =====
-- Where `CDoc1Reader::decryptData` (cdoc/CDoc1Reader.cpp) finds the payload in a document.
use libcdoc.Base.{
  ℕ, zero, suc, ◌+◌, ◌≤◌, ◌<◌, Bytes, codes, [], Bool, true, false, some, ltb, ◌≡◌, ◌≢◌, sym, ap,
  inl, inr, arith, subst, Bool-cases,
}
use libcdoc.Cdoc1.Xml.{XmlReader, read, read_base64, is_element, is_end_element}
use libcdoc.Cdoc1.{Library, payload_loop}

module _ {S C Z : Type 0} {X : Type 0 → Type 0} (lib : Library S C Z X) where
  abbrev following : XmlReader (X S) → XmlReader (X S)
  following x = (read lib.xml x).1

  abbrev IsKeyInfo : XmlReader (X S) → Bool → Type 0
  IsKeyInfo x b = is_element lib.xml (codes "KeyInfo") x ≡ b

  -- The payload is the text of the first CipherValue that does not stand within a KeyInfo: behind
  -- `ends` end tags and `starts` start tags of KeyInfo, with the reader at `x`.
  pub data Payload : ℕ → ℕ → XmlReader (X S) → Bytes × XmlReader (X S) → Type 0 where
    is_here :
        (ends starts : ℕ) (x : XmlReader (X S))
        → (read lib.xml x).0 ≡ true
        → IsKeyInfo (following x) false
        → starts ≤ ends
        → is_element lib.xml (codes "CipherValue") (following x) ≡ true
        → Payload ends starts x (read_base64 lib.xml (following x))
    key_info_ends :
        (ends starts : ℕ) (x : XmlReader (X S)) (p : Bytes × XmlReader (X S))
        → (read lib.xml x).0 ≡ true
        → IsKeyInfo (following x) true
        → is_end_element lib.xml (following x) ≡ true
        → Payload (ends + 1) starts (following x) p
        → Payload ends starts x p
    key_info_starts :
        (ends starts : ℕ) (x : XmlReader (X S)) (p : Bytes × XmlReader (X S))
        → (read lib.xml x).0 ≡ true
        → IsKeyInfo (following x) true
        → is_end_element lib.xml (following x) ≡ false
        → Payload ends (starts + 1) (following x) p
        → Payload ends starts x p
    within :
        (ends starts : ℕ) (x : XmlReader (X S)) (p : Bytes × XmlReader (X S))
        → (read lib.xml x).0 ≡ true
        → IsKeyInfo (following x) false
        → ends < starts
        → Payload ends starts (following x) p
        → Payload ends starts x p
    passed :
        (ends starts : ℕ) (x : XmlReader (X S)) (p : Bytes × XmlReader (X S))
        → (read lib.xml x).0 ≡ true
        → IsKeyInfo (following x) false
        → starts ≤ ends
        → is_element lib.xml (codes "CipherValue") (following x) ≡ false
        → Payload ends starts (following x) p
        → Payload ends starts x p

  pub payload_loop-Payload :
      (fuel ends starts : ℕ) (x : XmlReader (X S)) (p : Bytes × XmlReader (X S))
      → p.0 ≢ []
      → payload_loop lib fuel ends starts x ≡ some p
      → Payload ends starts x p
  unfolding payload_loop
  payload_loop-Payload zero ends starts x p full e = absurd (cc e)
  payload_loop-Payload (suc fuel) ends starts x p full e =
      let x1 = following x in
      elim (Bool-cases (read lib.xml x).0) [
        | inr over ↦
            let same : ([], x1) ≡ p = cc (rw (over, payload_loop) at e) in
            absurd (full (ap (λ (o : Bytes × XmlReader (X S)). o.0) (sym same)))
        | inl more ↦ elim (Bool-cases (is_element lib.xml (codes "KeyInfo") x1)) [
          | inl key ↦ elim (Bool-cases (is_end_element lib.xml x1)) [
            | inl end ↦ key_info_ends ends starts x p more key end (
                payload_loop-Payload fuel (ends + 1) starts x1 p full
                  (rw (more, key, end, payload_loop) at e))
            | inr start ↦ key_info_starts ends starts x p more key start (
                payload_loop-Payload fuel ends (starts + 1) x1 p full
                  (rw (more, key, start, payload_loop) at e))
          ]
          | inr other ↦ elim (Bool-cases (ltb ends starts)) [
            | inl inside ↦ within ends starts x p more other (ground arith) (
                payload_loop-Payload fuel ends starts x1 p full
                  (rw (more, other, inside, payload_loop) at e))
            | inr outside ↦ elim (Bool-cases (is_element lib.xml (codes "CipherValue") x1)) [
              | inl value ↦
                  let same : read_base64 lib.xml x1 ≡ p =
                    cc (rw (more, other, outside, value, payload_loop) at e) in
                  subst (λ o. Payload ends starts x o) same
                    (is_here ends starts x more other (ground arith) value)
              | inr miss ↦ passed ends starts x p more other (ground arith) miss (
                  payload_loop-Payload fuel ends starts x1 p full
                    (rw (more, other, outside, miss, payload_loop) at e))
            ]
          ]
        ]
      ]
