-- ===== src/Payload/Integrity.antt =====
-- What a parse error of the archive is reported as: `decryptAllAndClose` and its callers `nextFile`
-- and `readData` (cdoc/CDoc2Reader.cpp).
use libcdoc.Base.{
  ℕ, ◌<◌, Bytes, length, [], ◌++◌, false, true, Bool, none, some, Option, ◌≡◌, ◌↔◌, ◌⊎◌, inl, inr,
  refl, Option-cases, Bool-cases,
}
use libcdoc.Outcome.{
  Call, gives, undefined, no_file, is_negative, Code, crypto_error, hash_mismatch, Result, fail, ok,
  refused,
}
use libcdoc.Io.{Source}
use libcdoc.Io.Stream.{IsSource}
use libcdoc.Decrypt.{Cipher, DecryptionSource, tag_size, close, read}
use libcdoc.Decrypt.Whole.{IsStreamCipher, here, Accepts, Reads, Reads-whole}
use libcdoc.Decrypt.Short.{KeepsLength}
use libcdoc.Zip.{ZSource}
use libcdoc.Tar.Reader.{TarSource, stopped}
use libcdoc.Tar.Reader as Tar
use libcdoc.Payload.{
  Parts, decrypt_all, drain_loop, drain_size, Session, running, closed, no_data, after_error,
  next_file, read_data, z_source,
}
use libcdoc.Payload.Drain.{FailsNegative, drain_loop-Ends, drain_loop-Reads, drain_loop-Refused}

module _ {S C : Type 0} (io : Source S) (cipher : Cipher C) (rest : S → Bytes)
    (law : IsSource io rest) (negative : FailsNegative io) (keeps : KeepsLength cipher)
    (stream : IsStreamCipher cipher) where
  -- The rest of the payload could not be decrypted, and the streams are left; or all of it was, and
  -- closing tells whether the cipher accepts its last 16 bytes as the tag.
  pub data Drained (d : DecryptionSource S C)
      : Option (Result × Bool × DecryptionSource S C) → Type 0 where
    unreadable :
        (c : Code) (d1 d' : DecryptionSource S C) (plain : Bytes)
        → Reads io cipher d plain d1
        → read io cipher drain_size d1 ≡ refused c d'
        → Drained d (some (fail c, false, d'))
    rejected :
        (e : Code) (d' : DecryptionSource S C) (text tag plain : Bytes) (c : C)
        → d.tag ++ rest d.src ≡ text ++ tag
        → length tag ≡ tag_size
        → cipher.update d.ctx text ≡ some (plain, c)
        → ¬ Accepts cipher c tag
        → Drained d (some (fail e, true, d'))
    accepted :
        (d' : DecryptionSource S C) (text tag plain : Bytes) (c : C)
        → d.tag ++ rest d.src ≡ text ++ tag
        → length tag ≡ tag_size
        → cipher.update d.ctx text ≡ some (plain, c)
        → Accepts cipher c tag
        → Drained d (some (ok, true, d'))

  close_outcome :
      (d : DecryptionSource S C)
      → ((close io cipher d).0 ≡ ok) ⊎ ((c : Code) × ((close io cipher d).0 ≡ fail c))
  unfolding close
  close_outcome d = elim (Option-cases d.error) [
    | inr (c, failed) ↦ inr (c, rw (failed, close) refl)
    | inl clean ↦ elim (Option-cases (cipher.set_tag d.ctx d.tag)) [
      | inl refusal ↦ inr (crypto_error, rw (clean, refusal, close) refl)
      | inr (c, set) ↦ elim (Bool-cases (cipher.final c)) [
        | inl right ↦ inl (rw (clean, set, right, close) refl)
        | inr wrong ↦ inr (hash_mismatch, rw (clean, set, wrong, close) refl)
      ]
    ]
  ]

  verdict :
      (d d1 : DecryptionSource S C) (text tag plain : Bytes) (c : C)
      → d.tag ++ rest d.src ≡ text ++ tag
      → length tag ≡ tag_size
      → cipher.update d.ctx text ≡ some (plain, c)
      → (((close io cipher d1).0 ≡ ok) ↔ Accepts cipher c tag)
      → Drained d (some ((close io cipher d1).0, true, (close io cipher d1).1))
  verdict d d1 text tag plain c kept size decrypted closes = elim (close_outcome d1) [
    | inl fine ↦
        (let yes_tag : Accepts cipher c tag = closes.0 fine in
          rw fine (accepted (close io cipher d1).1 text tag plain c kept size decrypted yes_tag))
    | inr (e, failed) ↦
        (let never : ¬ Accepts cipher c tag = λ a. absurd (cc (closes.1 a, failed)) in
          rw failed (rejected e (close io cipher d1).1 text tag plain c kept size decrypted never))
  ]

  ended :
      (fuel : ℕ) (d d' : DecryptionSource S C) (o : Option Code)
      → length d.tag ≡ tag_size
      → d.error ≡ none
      → drain_loop io cipher fuel d ≡ some (o, d')
      → Drained d (decrypt_all io cipher fuel d)
  unfolding decrypt_all
  ended fuel d d' (some c) window clean done =
      let (plain, d1, run, refusal) =
        drain_loop-Refused io cipher rest law keeps negative fuel d d d' c [] window clean here
          done in
      rw (done, decrypt_all) (unreadable c d1 d' plain run refusal)
  ended fuel d d' none window clean done =
      let (plain, run, empty) =
        drain_loop-Reads io cipher rest law keeps negative fuel d d d' [] window clean here done in
      let (text, tag, c, kept, size, decrypted, closes) =
        Reads-whole io cipher rest law stream d d' plain window clean run empty in
      rw (done, decrypt_all) (verdict d d' text tag plain c kept size decrypted closes)

  decrypt_all-Drained :
      (fuel : ℕ) (d : DecryptionSource S C)
      → length d.tag ≡ tag_size
      → d.error ≡ none
      → length (d.tag ++ rest d.src) < fuel
      → Drained d (decrypt_all io cipher fuel d)
  decrypt_all-Drained fuel d window clean enough =
      let (r, done) = drain_loop-Ends io cipher rest law keeps fuel d window clean enough in
      ended fuel d r.1 r.0 window clean done

  module _ {Z : Type 0} {A : Type 0} (report : Code → A)
      (t : TarSource (ZSource (DecryptionSource S C) Z)) (r : Session S C Z) where
    abbrev dec : DecryptionSource S C
    dec = t.src.src

    -- What is reported: a code of the streams below the archive; that of closing, when the cipher
    -- does not accept the tag of the payload; or nothing, since the call is undefined, when it
    -- does.
    pub data Reported : Call A (Session S C Z) → Type 0 where
      not_read :
          (c : Code) (d1 d : DecryptionSource S C) (plain : Bytes)
          → Reads io cipher dec plain d1
          → read io cipher drain_size d1 ≡ refused c d
          → Reported (
              gives
                (report c)
                record r { streams = running (record t { src = record t.src { src = d } }) })
      forged :
          (c : Code) (s : S) (text tag plain : Bytes) (k : C)
          → dec.tag ++ rest dec.src ≡ text ++ tag
          → length tag ≡ tag_size
          → cipher.update dec.ctx text ≡ some (plain, k)
          → ¬ Accepts cipher k tag
          → Reported (gives (report c) (record r { streams = closed s }))
      authentic :
          (text tag plain : Bytes) (k : C)
          → dec.tag ++ rest dec.src ≡ text ++ tag
          → length tag ≡ tag_size
          → cipher.update dec.ctx text ≡ some (plain, k)
          → Accepts cipher k tag
          → Reported undefined

    report_Drained :
        (fuel : ℕ) (o : Option (Result × Bool × DecryptionSource S C))
        → decrypt_all io cipher fuel dec ≡ o
        → Drained dec o
        → Reported (after_error io cipher fuel report t r)
    unfolding after_error
    report_Drained fuel _ e (unreadable c d1 d' plain run refusal) =
        rw (e, after_error) (not_read c d1 d' plain run refusal)
    report_Drained fuel _ e (rejected c d' text tag plain k kept size decrypted never) =
        rw (e, after_error) (forged c d'.src text tag plain k kept size decrypted never)
    report_Drained fuel _ e (accepted d' text tag plain k kept size decrypted yes_tag) =
        rw (e, after_error) (authentic text tag plain k kept size decrypted yes_tag)

    -- After a parse error, from a decrypting stream without an error that holds back 16 bytes, over
    -- a source and a cipher that keep their contracts, and with more rounds than there are bytes
    -- left, the rest of the payload decides what is reported.
    pub after_error-Reported :
        (fuel : ℕ)
        → length dec.tag ≡ tag_size
        → dec.error ≡ none
        → length (dec.tag ++ rest dec.src) < fuel
        → Reported (after_error io cipher fuel report t r)
    after_error-Reported fuel window clean enough =
        report_Drained fuel _ refl (decrypt_all-Drained fuel dec window clean enough)

module _ {S C Z : Type 0} (p : Parts S C Z) (rest : S → Bytes) (law : IsSource p.io rest)
    (negative : FailsNegative p.io) (keeps : KeepsLength p.cipher)
    (stream : IsStreamCipher p.cipher) where
  module _ (fuel : ℕ) (r : Session S C Z) (t0 t : TarSource (ZSource (DecryptionSource S C) Z))
      (e : Code) (open_streams : r.streams ≡ running t0) (parse_error : is_negative e ≡ true)
      (window : length t.src.src.tag ≡ tag_size) (clean : t.src.src.error ≡ none)
      (enough : length (t.src.src.tag ++ rest t.src.src.src) < fuel) where
    -- Over a source and a cipher that keep their contracts: when nextFile meets a negative code of
    -- the archive, with a decrypting stream that has no error and holds back 16 bytes, and with
    -- more rounds than there are bytes left, the rest of the payload decides what it gives: the
    -- code with which a read of the decrypting stream is refused behind others that succeed, with
    -- the streams kept; or, when all of the ciphertext
    -- is decrypted and the cipher does not accept its last 16 bytes as the tag, a code with the
    -- streams closed; or, when the cipher accepts them, the call is undefined.
    pub next_file-Reported :
        Tar.next (z_source p fuel) fuel t0 ≡ some (stopped e t)
        → Reported p.io p.cipher rest law negative keeps stream no_file t
            (record r { streams = running t })
            (next_file p fuel r)
    unfolding next_file
    next_file-Reported stops =
        rw (open_streams, next_file, stops, parse_error)
          (after_error-Reported p.io p.cipher rest law negative keeps stream no_file t
            (record r { streams = running t }) fuel window clean enough)

    -- The same of readData.
    pub read_data-Reported :
        (size : ℕ)
        → Tar.read (z_source p fuel) size t0 ≡ refused e t
        → Reported p.io p.cipher rest law negative keeps stream no_data t
            (record r { streams = running t })
            (read_data p fuel size r)
    unfolding read_data
    read_data-Reported size fails =
        rw (open_streams, read_data, fails, parse_error)
          (after_error-Reported p.io p.cipher rest law negative keeps stream no_data t
            (record r { streams = running t }) fuel window clean enough)
