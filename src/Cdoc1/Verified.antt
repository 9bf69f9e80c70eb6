-- ===== src/Cdoc1/Verified.antt =====
-- What an OK of `CDoc1Reader::decryptData` (cdoc/CDoc1Reader.cpp) shows.
use libcdoc.Base.{
  ℕ, Bytes, codes, true, [], ◌∷◌, false, Option, none, some, OnSome, on_some, list_eq, ◌≡◌, ◌≢◌,
  inl, inr, refl, subst, Bool-cases, Option-cases, List-cases, length,
}
use libcdoc.Outcome.{Result, ok, is_ok, not_ok, is_ok-ok}
use libcdoc.Io.{VectorSource}
use libcdoc.Decrypt.{DecryptionSource}
use libcdoc.Decrypt as Decrypt
use libcdoc.Decrypt.Whole.{Accepts, close-Accepts}
use libcdoc.Zip.{ZSource}
use libcdoc.Payload.{decryption_source, z_source, new_zsource}
use libcdoc.Cdoc1.Search.{Payload, payload_loop-Payload}
use libcdoc.Cdoc1.Xml.{XmlReader, is_error}
use libcdoc.Cdoc1.{
  Library, Evp, Cdoc1, Body, cipher_named, mime_zlib, property, payload_loop, is_aes_len, call_body,
  close_body, decrypt_body, decrypt_found, decrypt_data,
}

module _ {S C Z : Type 0} {X : Type 0 → Type 0} (lib : Library S C Z X) {A : Type 0}
    (f : Body lib A) (fuel : ℕ) (fmk : Bytes) (a : A) where
  -- The bytes of the container, before their decryption.
  abbrev text : Bytes → VectorSource
  text b = record { bytes = b; ptr = 0 }

  -- The decrypting stream that the key opens over the bytes of a payload.
  abbrev opened : Option Evp → Bytes → DecryptionSource VectorSource C
  opened evp b = Decrypt.start (lib.parts evp).io (lib.parts evp).cipher fmk 0 (text b)

  -- The function ran on the decrypting stream `d0` itself, and left `dec` of it; or, for the media
  -- type of a zip, on its decompression, whose stream has `dec` below it.
  pub data Ran (evp : Option Evp) (d0 : DecryptionSource VectorSource C) (from : Cdoc1 S)
      (rv : Result) (r' : Cdoc1 S) (a' : A) : DecryptionSource VectorSource C → Type 0 where
    on_plain :
        (dec : DecryptionSource VectorSource C)
        → list_eq from.mime mime_zlib ≡ false
        → f.run (decryption_source (lib.parts evp)) d0 from.mime from a ≡ some (rv, dec, r', a')
        → Ran evp d0 from rv r' a' dec
    on_packed :
        (z : ZSource (DecryptionSource VectorSource C) Z)
        → list_eq from.mime mime_zlib ≡ true
        → f.run
            (z_source (lib.parts evp) fuel)
            (new_zsource (lib.parts evp) d0)
            (property (codes "OriginalMimeType") from).0
            (property (codes "OriginalMimeType") from).1
            a
          ≡ some (rv, z, r', a')
        → Ran evp d0 from rv r' a' z.src

  -- The reader when the function is called, with the document read up to `x`.
  abbrev before : Cdoc1 S → XmlReader (X S) → Cdoc1 S
  before r x = record r { dsrc = lib.source x.d; last_error = [] }

  -- The document at its start.
  abbrev document : Cdoc1 S → XmlReader (X S)
  document r = record { d = lib.open_xml lib.io (lib.seek 0 r.dsrc).1; error = false }

  -- The function ran without an error on the stream that the key opens over the payload of the
  -- container, and the cipher took the tag behind what it left of that stream.
  pub record Verified (r r' : Cdoc1 S) (a' : A) : Type 0 where
    pub sought : (lib.seek 0 r.dsrc).0 ≡ ok
    pub bytes : Bytes
    pub behind : XmlReader (X S)
    pub payload : Payload lib 0 0 (document r) (bytes, behind)
    pub rv : Result
    pub dec : DecryptionSource VectorSource C
    pub clean : (opened (cipher_named r.method) bytes).error ≡ none
    pub ran :
        Ran
          (cipher_named r.method)
          (opened (cipher_named r.method) bytes)
          (before r behind)
          rv
          r'
          a'
          dec
    pub fine : is_error rv ≡ false
    pub accepts : Accepts (lib.parts (cipher_named r.method)).cipher dec.ctx dec.tag

  call_body-Ran :
      (evp : Option Evp) (d0 dec : DecryptionSource VectorSource C) (from r' : Cdoc1 S)
      (rv : Result) (a' : A)
      → call_body lib f fuel evp d0 from a ≡ some (rv, dec, r', a')
      → Ran evp d0 from rv r' a' dec
  unfolding call_body
  call_body-Ran evp d0 dec from r' rv a' e = elim (Bool-cases (list_eq from.mime mime_zlib)) [
    | inr plain ↦ on_plain dec plain (rw (plain, call_body) at e)
    | inl packed ↦
        let (original, r0) = property (codes "OriginalMimeType") from in
        let src = z_source (lib.parts evp) fuel in
        elim (Option-cases (f.run src (new_zsource (lib.parts evp) d0) original r0 a)) [
          | inl out ↦ absurd (cc (rw (packed, out, call_body) at e))
          | inr ((rv1, z, r1, a1), run) ↦
              let same : ◌≡◌ {A = Result × DecryptionSource VectorSource C × Cdoc1 S × A}
                  (rv1, z.src, r1, a1) (rv, dec, r', a') =
                cc (rw (packed, run, call_body) at e) in
              subst
                (λ (o : Result × DecryptionSource VectorSource C × Cdoc1 S × A).
                  Ran evp d0 from o.0 o.2 o.3 o.1)
                same (on_packed z packed run)
        ]
  ]

  module _ (r : Cdoc1 S) (sought : (lib.seek 0 r.dsrc).0 ≡ ok) where
    abbrev evp_of : Option Evp
    evp_of = cipher_named r.method

    abbrev IfOk : Result × Cdoc1 S × A → Type 0
    IfOk (rv, r', a') = rv ≡ ok → Verified r r' a'

    module _ (bytes : Bytes) (behind : XmlReader (X S))
        (payload : Payload lib 0 0 (document r) (bytes, behind)) where
      close_body-IfOk :
          (rv : Result) (dec : DecryptionSource VectorSource C) (r1 : Cdoc1 S) (a1 : A)
          → (opened evp_of bytes).error ≡ none
          → call_body lib f fuel evp_of (opened evp_of bytes) (before r behind) a
            ≡ some (rv, dec, r1, a1)
          → IfOk (close_body lib f evp_of rv dec r1 a1)
      unfolding close_body
      close_body-IfOk rv dec r1 a1 clean ran =
          let closed = (Decrypt.close (lib.parts evp_of).io (lib.parts evp_of).cipher dec).0 in
          elim (Bool-cases (is_error rv)) [
            | inl failed ↦ rw failed (λ e. absurd (cc (rw e at failed)))
            | inr fine ↦ elim (Bool-cases (is_ok closed)) [
              | inr refused ↦ rw (fine, refused) (λ e. absurd (not_ok closed refused e))
              | inl sound ↦
                  rw (fine, sound)
                    (λ e. record {
                      sought = sought;
                      bytes = bytes;
                      behind = behind;
                      payload = payload;
                      rv = rv;
                      dec = dec;
                      clean = clean;
                      ran =
                          call_body-Ran evp_of (opened evp_of bytes) dec (before r behind) r1 rv a1
                            ran;
                      fine = fine;
                      accepts =
                          close-Accepts (lib.parts evp_of).io (lib.parts evp_of).cipher dec
                            (is_ok-ok closed sound);
                    })
            ]
          ]

      decrypt_body-IfOk : OnSome IfOk (decrypt_body lib f fuel fmk bytes (before r behind) a)
      unfolding decrypt_body
      decrypt_body-IfOk =
          let d = opened evp_of bytes in
          elim (Option-cases d.error) [
            | inr (c, failed) ↦ rw (decrypt_body, failed) (λ e. absurd (cc e))
            | inl clean ↦ elim (Option-cases (call_body lib f fuel evp_of d (before r behind) a)) [
              | inl out ↦ rw (decrypt_body, clean, out) tt
              | inr ((rv, dec, r1, a1), ran) ↦
                  rw (decrypt_body, clean, ran) (close_body-IfOk rv dec r1 a1 clean ran)
            ]
          ]

    decrypt_found-IfOk :
        (o : Option (Bytes × XmlReader (X S)))
        → payload_loop lib fuel 0 0 (document r) ≡ o
        → OnSome IfOk (decrypt_found lib f fuel fmk r a o)
    unfolding decrypt_found
    decrypt_found-IfOk none e = tt
    decrypt_found-IfOk (some ([], x)) e = λ e. absurd (cc e)
    decrypt_found-IfOk (some (b ∷ bytes, x)) e =
        decrypt_body-IfOk (b ∷ bytes) x
          (payload_loop-Payload lib fuel 0 0 (document r) (b ∷ bytes, x) (λ e. cc e) e)

  abbrev Shows : Cdoc1 S → Result × Cdoc1 S × A → Type 0
  Shows r (rv, r', a') = rv ≡ ok → Verified r r' a'

  -- What holds of every result but OK, and of what follows a search for the payload, holds.
  decrypt_data-all :
      (P : Result × Cdoc1 S × A → Type 0) (r : Cdoc1 S)
      → ((rv : Result) (r' : Cdoc1 S) (a' : A) → rv ≢ ok → P (rv, r', a'))
      → ((lib.seek 0 r.dsrc).0 ≡ ok
          → OnSome P (decrypt_found lib f fuel fmk r a (payload_loop lib fuel 0 0 (document r))))
      → OnSome P (decrypt_data lib f fuel fmk r a)
  unfolding decrypt_data
  decrypt_data-all P r fails found = elim (Bool-cases (list_eq fmk [])) [
    | inl missing ↦ rw (decrypt_data, missing) (fails _ _ _ (λ e. cc e))
    | inr there ↦ elim (Bool-cases (is_aes_len (length fmk))) [
      | inr strange ↦ rw (decrypt_data, there, strange) (fails _ _ _ (λ e. cc e))
      | inl aes ↦ elim (List-cases r.files) [
        | inr (f0, rest, listed) ↦ rw (decrypt_data, there, aes, listed) (fails _ _ _ (λ e. cc e))
        | inl empty ↦ elim (Option-cases r.f_pos) [
          | inr (n, placed) ↦ rw (decrypt_data, there, aes, empty, placed) (fails _ _ _ (λ e. cc e))
          | inl start ↦ elim (Bool-cases (is_ok (lib.seek 0 r.dsrc).0)) [
            | inr failed ↦
                rw (decrypt_data, there, aes, empty, start, failed) (fails _ _ _ (not_ok _ failed))
            | inl sought ↦
                rw (decrypt_data, there, aes, empty, start, sought) (found (is_ok-ok _ sought))
          ]
        ]
      ]
    ]
  ]

  -- For every function that decryptData is given, and with any fuel: when decryptData returns OK,
  -- the text of the first CipherValue outside KeyInfo has been found from the start of the
  -- document, the function has run without an error on the decrypting stream that the key opens
  -- over that text, or, for a container of the media type of a zip, on its decompression, it left
  -- the reader as it is returned, and the cipher accepted the tag that the decrypting stream holds
  -- where the function left it.
  pub decrypt_data-Verified :
      (r r' : Cdoc1 S) (a' : A)
      → decrypt_data lib f fuel fmk r a ≡ some (ok, r', a')
      → Verified r r' a'
  decrypt_data-Verified r r' a' e =
      on_some (Shows r) (decrypt_data lib f fuel fmk r a) (ok, r', a')
        (decrypt_data-all (Shows r) r (λ rv r1 a1 bad fine. absurd (bad fine))
          (λ sought. decrypt_found-IfOk r sought _ refl))
        e refl
