-- ===== src/Cdoc1/Throttle.antt =====
-- When `CDoc1Reader::decryptData` (cdoc/CDoc1Reader.cpp) calls Crypto::rsaOracleThrottle.
use libcdoc.Base.{
  ℕ, Bytes, List, [], ◌∷◌, ◌++◌, append-nil, Bool, true, false, ◌&&◌, not, Option, none, OnSome,
  on_some, list_eq, if◌then◌else◌, codes, ◌≡◌, inl, inr, refl, sym, ◌∙◌, Bool-cases, Option-cases,
}
use libcdoc.Outcome.{Result, count, fail, is_ok}
use libcdoc.Io.{Source, VectorSource, vector_consumer, write_all_loop}
use libcdoc.Decrypt.{DecryptionSource}
use libcdoc.Decrypt as Decrypt
use libcdoc.Payload.Whole.{MultiSink}
use libcdoc.Payload.{new_zsource, z_source, decryption_source}
use libcdoc.Cdoc1.Xml.{XmlReader, file_list, parse, is_error}
use libcdoc.Cdoc1.{
  Library, Evp, Cdoc1, Body, property, find_property, is_ddoc, mime_zlib, cipher_named, body_msg,
  report_failure, call_body, close_body, decrypt_body,
}
use libcdoc.Cdoc1.Session.{copy_body, ddoc_body, consume, list_ddoc, list_file, collect}

-- What the throttle goes by.
pub record Alike {S : Type 0} (r r' : Cdoc1 S) : Type 0 where
  rsa_kept : r'.is_rsa ≡ r.is_rsa
  id_kept : r'.throttle_key_id ≡ r.throttle_key_id
  calls_kept : r'.throttled ≡ r.throttled

module _ {S : Type 0} where
  alike : (r : Cdoc1 S) → Alike r r
  alike r = record { rsa_kept = refl; id_kept = refl; calls_kept = refl }

  property-Alike : (key : Bytes) (r : Cdoc1 S) → Alike r (property key r).1
  unfolding property
  property-Alike key r = elim (Option-cases (find_property key r.properties)) [
    | inl missing ↦
        rw (property, missing) record { rsa_kept = refl; id_kept = refl; calls_kept = refl }
    | inr (v, there) ↦ rw (property, there) (alike r)
  ]

-- The calls that a failure behind a lock leads to: one with the key's identifier, if it is of RSA.
abbrev pub failure_calls : {S : Type 0} → Cdoc1 S → List Bytes
failure_calls r =
    if r.is_rsa && not (list_eq r.throttle_key_id []) then r.throttle_key_id ∷ [] else []

abbrev pub throttle_calls : {S : Type 0} → Cdoc1 S → Result → List Bytes
throttle_calls r rv = if is_ok rv then [] else failure_calls r

is_error-not_ok : (rv : Result) → is_error rv ≡ true → is_ok rv ≡ false
is_error-not_ok (count n) bad = absurd (cc bad)
is_error-not_ok (fail c) bad = refl

Alike-trans : {S : Type 0} (r r0 r1 : Cdoc1 S) → Alike r r0 → Alike r0 r1 → Alike r r1
Alike-trans r r0 r1 p q = record {
  rsa_kept = q.rsa_kept ∙ p.rsa_kept;
  id_kept = q.id_kept ∙ p.id_kept;
  calls_kept = q.calls_kept ∙ p.calls_kept;
}

report_failure-calls :
    {S : Type 0} (r r1 : Cdoc1 S)
    → Alike r r1
    → (report_failure r1).throttled ≡ r.throttled ++ failure_calls r
unfolding report_failure
report_failure-calls r r1 same =
    elim (Bool-cases (r.is_rsa && not (list_eq r.throttle_key_id []))) [
      | inl told ↦ rw (same.rsa_kept, same.id_kept, told, same.calls_kept) refl
      | inr quiet ↦
          rw (same.rsa_kept, same.id_kept, quiet) (same.calls_kept ∙ sym (append-nil r.throttled))
    ]

module _ {S C Z : Type 0} {X : Type 0 → Type 0} (lib : Library S C Z X) (fuel : ℕ) where
  -- A body that leaves alone what the throttle goes by.
  abbrev KeepsCalls : {A : Type 0} → Body lib A → Type 1
  KeepsCalls {A} f =
      (T : Type 0) (src : Source T) (t : T) (mime : Bytes) (r : Cdoc1 S) (a : A)
      → OnSome (λ (o : Result × T × Cdoc1 S × A). Alike r o.2) (f.run src t mime r a)

  module _ {D : Type 0} (out : MultiSink D) (is_broken : D → Bool) where
    copy_body-Alike :
        (T : Type 0) (src : Source T) (t : T) (r : Cdoc1 S) (d : D)
        → OnSome
            (λ (o : Result × T × Cdoc1 S × D). Alike r o.2)
            (copy_body lib fuel out is_broken src t r d)
    unfolding copy_body
    copy_body-Alike T src t r d =
        let kept = property-Alike (codes "Filename") r in
        let (opened, d1) = out.open_file (property (codes "Filename") r).0 none d in
        elim (Bool-cases (is_ok opened)) [
          | inr failed ↦ rw failed kept
          | inl fine ↦ elim (Option-cases (write_all_loop src out.sink fuel 0 t d1)) [
            | inl over ↦ rw (fine, over) tt
            | inr ((rv, t', d2), wrote) ↦ elim (Bool-cases (is_error rv)) [
              | inl bad ↦ rw (fine, wrote, bad) kept
              | inr good ↦ rw (fine, wrote, good) kept
            ]
          ]
        ]

    ddoc_body-Alike :
        (T : Type 0) (src : Source T) (t : T) (r : Cdoc1 S) (d : D)
        → OnSome
            (λ (o : Result × T × Cdoc1 S × D). Alike r o.2)
            (ddoc_body lib fuel out is_broken src t r d)
    unfolding ddoc_body
    ddoc_body-Alike T src t r d =
        let opened : XmlReader (X T) = record { d = lib.open_xml src t; error = false } in
        elim (Option-cases (parse lib.xml out is_broken fuel opened d)) [
          | inl over ↦ rw (ddoc_body, over) tt
          | inr ((rv, x, d'), parsed) ↦ elim (Bool-cases (is_ok rv)) [
            | inl fine ↦ rw (ddoc_body, parsed, fine) (alike r)
            | inr failed ↦
                rw (ddoc_body, parsed, failed)
                  record { rsa_kept = refl; id_kept = refl; calls_kept = refl }
          ]
        ]

    consume-KeepsCalls : KeepsCalls (consume lib fuel out is_broken)
    consume-KeepsCalls T src t mime r d = elim (Bool-cases (is_ddoc mime)) [
      | inl ddoc ↦ rw ddoc (ddoc_body-Alike T src t r d)
      | inr other ↦ rw other (copy_body-Alike T src t r d)
    ]

  list_ddoc-Alike :
      (T : Type 0) (src : Source T) (t : T) (r : Cdoc1 S)
      → OnSome (λ (o : Result × T × Cdoc1 S × Unit {0}). Alike r o.2) (list_ddoc lib fuel src t r)
  unfolding list_ddoc
  list_ddoc-Alike T src t r =
      let opened : XmlReader (X T) = record { d = lib.open_xml src t; error = false } in
      elim (Option-cases (parse lib.xml file_list (λ files. false) fuel opened r.files)) [
        | inl over ↦ rw (list_ddoc, over) tt
        | inr ((rv, x, files), parsed) ↦ elim (Bool-cases (is_ok rv)) [
          | inl fine ↦
              rw (list_ddoc, parsed, fine)
                record { rsa_kept = refl; id_kept = refl; calls_kept = refl }
          | inr failed ↦
              rw (list_ddoc, parsed, failed)
                record { rsa_kept = refl; id_kept = refl; calls_kept = refl }
        ]
      ]

  list_file-Alike :
      (T : Type 0) (src : Source T) (t : T) (r : Cdoc1 S)
      → OnSome (λ (o : Result × T × Cdoc1 S × Unit {0}). Alike r o.2) (list_file lib fuel src t r)
  unfolding list_file
  list_file-Alike T src t r =
      let kept = property-Alike (codes "Filename") r in
      elim (Option-cases (write_all_loop src vector_consumer fuel 0 t [])) [
        | inl over ↦ rw (list_file, over) tt
        | inr ((rv, t', bytes), wrote) ↦ elim (Bool-cases (is_error rv)) [
          | inl bad ↦
              rw (list_file, wrote, bad)
                record { rsa_kept = refl; id_kept = refl; calls_kept = refl }
          | inr good ↦
              rw (list_file, wrote, good)
                record {
                  rsa_kept = kept.rsa_kept;
                  id_kept = kept.id_kept;
                  calls_kept = kept.calls_kept;
                }
        ]
      ]

  collect-KeepsCalls : KeepsCalls (collect lib fuel)
  collect-KeepsCalls T src t mime r d = elim (Bool-cases (is_ddoc mime)) [
    | inl ddoc ↦ rw ddoc (list_ddoc-Alike T src t r)
    | inr other ↦ rw other (list_file-Alike T src t r)
  ]

  module _ {A : Type 0} (f : Body lib A) (keeps : KeepsCalls f) where
    call_body-Alike :
        (evp : Option Evp) (d : DecryptionSource VectorSource C) (r : Cdoc1 S) (a : A)
        → OnSome
            (λ (o : Result × DecryptionSource VectorSource C × Cdoc1 S × A). Alike r o.2)
            (call_body lib f fuel evp d r a)
    unfolding call_body
    call_body-Alike evp d r a = elim (Bool-cases (list_eq r.mime mime_zlib)) [
      | inr plain ↦ rw plain (keeps _ (decryption_source (lib.parts evp)) d r.mime r a)
      | inl packed ↦
          let (original, r0) = property (codes "OriginalMimeType") r in
          let src = z_source (lib.parts evp) fuel in
          let z = new_zsource (lib.parts evp) d in
          let same = property-Alike (codes "OriginalMimeType") r in
          elim (Option-cases (f.run src z original r0 a)) [
            | inl over ↦ rw (packed, over) tt
            | inr ((rv, z', r1, a1), ran) ↦
                rw (packed, ran)
                  (Alike-trans r r0 r1 same (
                    on_some (λ (o : Result × _ × Cdoc1 S × A). Alike r0 o.2) _ _
                      (keeps _ src z original r0 a) ran))
          ]
    ]

    close_body-calls :
        (evp : Option Evp) (rv : Result) (dec : DecryptionSource VectorSource C) (r r1 : Cdoc1 S)
        (a1 : A)
        → Alike r r1
        → (close_body lib f evp rv dec r1 a1).1.throttled
          ≡ r.throttled ++ throttle_calls r (close_body lib f evp rv dec r1 a1).0
    unfolding close_body
    close_body-calls evp rv dec r r1 a1 same =
        let closed = (Decrypt.close (lib.parts evp).io (lib.parts evp).cipher dec).0 in
        let failed : Cdoc1 S = record r1 { last_error = body_msg } in
        let reported = report_failure-calls r failed (record {
          rsa_kept = same.rsa_kept;
          id_kept = same.id_kept;
          calls_kept = same.calls_kept;
        }) in
        elim (Bool-cases (is_error rv)) [
          | inl bad ↦ rw (bad, is_error-not_ok rv bad) reported
          | inr good ↦ elim (Bool-cases (is_ok closed)) [
            | inl sound ↦ rw (good, sound) (same.calls_kept ∙ sym (append-nil r.throttled))
            | inr broken ↦ rw (good, broken, broken) reported
          ]
        ]

    decrypt_body-calls :
        (fmk bytes : Bytes) (r : Cdoc1 S) (a : A)
        → OnSome
            (λ (o : Result × Cdoc1 S × A). o.1.throttled ≡ r.throttled ++ throttle_calls r o.0)
            (decrypt_body lib f fuel fmk bytes r a)
    unfolding decrypt_body
    decrypt_body-calls fmk bytes r a =
        let evp = cipher_named r.method in
        let d =
          Decrypt.start (lib.parts evp).io (lib.parts evp).cipher fmk 0
            (record { bytes = bytes; ptr = 0 }) in
        elim (Option-cases d.error) [
          | inr (c, failed) ↦
              rw (decrypt_body, failed)
                (report_failure-calls r (record r { last_error = body_msg })
                  (record { rsa_kept = refl; id_kept = refl; calls_kept = refl }))
          | inl clean ↦ elim (Option-cases (call_body lib f fuel evp d r a)) [
            | inl over ↦ rw (decrypt_body, clean, over) tt
            | inr ((rv, dec, r1, a1), ran) ↦
                rw (decrypt_body, clean, ran)
                  (close_body-calls evp rv dec r r1 a1 (
                    on_some (λ (o : Result × _ × Cdoc1 S × A). Alike r o.2) _ _
                      (call_body-Alike evp d r a) ran))
          ]
        ]

  -- Behind the search for the payload the throttle is called by what the reader knows of the lock.
  pub decrypt_body-throttled :
      {D : Type 0} (out : MultiSink D) (is_broken : D → Bool) (fmk bytes : Bytes) (r : Cdoc1 S)
      (d : D)
      → OnSome
          (λ (o : Result × Cdoc1 S × D). o.1.throttled ≡ r.throttled ++ throttle_calls r o.0)
          (decrypt_body lib (consume lib fuel out is_broken) fuel fmk bytes r d)
        × OnSome
            (λ (o : Result × Cdoc1 S × Unit {0}).
              o.1.throttled ≡ r.throttled ++ throttle_calls r o.0)
            (decrypt_body lib (collect lib fuel) fuel fmk bytes r tt)
  decrypt_body-throttled out is_broken fmk bytes r d = (
    decrypt_body-calls (consume lib fuel out is_broken) (consume-KeepsCalls out is_broken) fmk bytes
        r d,
    decrypt_body-calls (collect lib fuel) collect-KeepsCalls fmk bytes r tt,
  )
