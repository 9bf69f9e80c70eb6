-- ===== src/Payload/Started.antt =====
-- The decrypting stream that `CDoc2Reader::beginDecryption` (cdoc/CDoc2Reader.cpp) starts.
use libcdoc.Base.{
  Bytes, List, [], ◌∷◌, length, ◌==◌, ◌≡◌, inl, inr, refl, ap, Bool-cases, Option-cases,
}
use libcdoc.Outcome.{ok, is_ok, is_ok-ok, not_ok}
use libcdoc.Decrypt.{DecryptionSource, update_aads}
use libcdoc.Decrypt as Decrypt
use libcdoc.Payload.{
  Parts, Session, payload, cek_info, nonce_len, new_zsource, seek_nonce, build_streams,
  begin_decryption,
}
use libcdoc.Payload.Reached.{Over, still}

module _ {S C Z : Type 0} (p : Parts S C Z) where
  -- A stream over the source at its nonce, with the key of the payload that is expanded from `fmk`,
  -- which has taken the payload's name, the header and its HMAC as additional data.
  abbrev pub Starts : Bytes → S → Session S C Z → DecryptionSource S C → Type 0
  Starts fmk s r d =
      update_aads p.io p.cipher (payload ∷ r.header_data ∷ r.header_hmac ∷ [])
        (Decrypt.start p.io p.cipher (p.expand fmk cek_info) nonce_len s)
      ≡ (ok, d)

  new_zsource_src : (d : DecryptionSource S C) → (new_zsource p d).src ≡ d
  unfolding new_zsource
  new_zsource_src d = elim (Option-cases p.inflate_init) [
    | inl broken ↦ rw (broken, new_zsource) refl
    | inr (z, started) ↦ rw (started, new_zsource) refl
  ]

  build-Starts :
      (fmk : Bytes) (s : S) (r : Session S C Z)
      → (build_streams p fmk s r).0 ≡ ok
      → (d : DecryptionSource S C) × Starts fmk s r d × Over p d (build_streams p fmk s r).1.streams
  unfolding build_streams
  build-Starts fmk s r e =
      let aads : List Bytes = payload ∷ r.header_data ∷ r.header_hmac ∷ [] in
      let (rv, d) =
        update_aads p.io p.cipher aads
          (Decrypt.start p.io p.cipher (p.expand fmk cek_info) nonce_len s) in
      elim (Bool-cases (is_ok rv)) [
        | inl fine ↦ (
          d,
          ap (λ x. (x, d)) (is_ok-ok rv fine),
          rw (fine, build_streams, new_zsource_src) still,
        )
        | inr failed ↦ absurd (not_ok rv failed (rw (failed, build_streams) at e))
      ]

  pub begin-Starts :
      (fmk : Bytes) (r : Session S C Z)
      → (begin_decryption p fmk r).0 ≡ ok
      → (d : DecryptionSource S C) × Starts fmk (seek_nonce p r).1 r d
        × Over p d (begin_decryption p fmk r).1.streams
  unfolding begin_decryption
  begin-Starts fmk r e = elim (Bool-cases (length fmk == 32)) [
    | inr wrong ↦ absurd (cc (rw (wrong, begin_decryption) at e))
    | inl right ↦ elim (Bool-cases (is_ok (seek_nonce p r).0)) [
      | inl there ↦
          rw (right, begin_decryption, there)
            (build-Starts fmk (seek_nonce p r).1 r (rw (right, begin_decryption, there) at e))
      | inr lost ↦ absurd (cc (rw (right, begin_decryption, lost) at e))
    ]
  ]
