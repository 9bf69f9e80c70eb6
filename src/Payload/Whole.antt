-- ===== src/Payload/Whole.antt =====
-- `CDoc2Reader::decrypt` (cdoc/CDoc2Reader.cpp): all files of a payload go to a consumer.
use libcdoc.Base.{
  ℕ, zero, suc, Bytes, Bool, false, Option, none, some, if◌then◌else◌, ◌≡◌, ap₂, inl, inr, sym, ap,
  ◌∙◌, refl, Bool-cases, Option-cases, subst,
}
use libcdoc.Outcome.{
  not_ok, is_ok-ok, Call-cases, is_end, Call, gives, undefined, exhausted, File, file, no_file,
  is_negative, Result, count, fail, ok, is_ok,
}
use libcdoc.Io.{Sink, write_all_loop}
use libcdoc.Decrypt.{DecryptionSource}
use libcdoc.Decrypt as Decrypt
use libcdoc.Decrypt.Whole.{Accepts, close-Accepts}
use libcdoc.Payload.{
  Parts, Session, Streams, closed, keyed, running, dangling, tar_source, begin_decryption,
  next_file, finish_decryption, seek_nonce,
}
use libcdoc.Payload.Started.{Starts, begin-Starts}
use libcdoc.Payload.Reached.{Reached, Over, Leaves, WriteKept, write_all_kept, tar_keeps, next-Over}

-- `MultiDataConsumer`: a consumer that is told of every file.
pub record MultiSink (D : Type 0) : Type 0 where
  pub sink : Sink D
  pub open_file : Bytes → Option ℕ → D → Result × D

module _ {S C Z D : Type 0} (p : Parts S C Z) (out : MultiSink D) where
  -- What stands for a call of the reader in one with a consumer.
  unfoldable pub with_consumer : D → Call Result (Session S C Z) → Call Result (Session S C Z × D)
  with_consumer d (gives rv r) = gives rv (r, d)
  with_consumer d undefined = undefined
  with_consumer d exhausted = exhausted

  -- `consumer->writeAll(*priv->tar)`, of a reader with open streams.
  unfoldable pub copy_file : ℕ → Session S C Z → D → Call Result (Session S C Z × D)
  copy_file fuel r d = elim r.streams [
    | running t ↦ elim (write_all_loop (tar_source p fuel) out.sink fuel 0 t d) [
      | none ↦ exhausted
      | some (rv, t', d') ↦ gives rv (record r { streams = running t' }, d')
    ]
    | _ ↦ undefined
  ]

  -- `result < 0`.
  abbrev pub is_error : Result → Bool
  is_error (count n) = false
  is_error (fail c) = is_negative c

  -- The loop over the files, from what nextFile gave, with fuel for its rounds.
  unfoldable pub files_loop :
      ℕ → ℕ → Call File (Session S C Z) → D → Call Result (Session S C Z × D)
  files_loop zero fuel f d = exhausted
  files_loop (suc rounds) fuel undefined d = undefined
  files_loop (suc rounds) fuel exhausted d = exhausted
  files_loop (suc rounds) fuel (gives (no_file c) r) d =
      if is_end c then with_consumer d (finish_decryption p r) else gives (fail c) (r, d)
  files_loop (suc rounds) fuel (gives (file name size) r) d =
      let (rv, d') = out.open_file name size d in
      if is_ok rv
      then elim (copy_file fuel r d') [
        | undefined ↦ undefined
        | exhausted ↦ exhausted
        | gives written (r', d'') ↦
            (let rest = files_loop rounds fuel (next_file p fuel r') d'' in
              if is_error written then gives written (r', d'') else rest)
      ]
      else gives rv (r, d')

  -- `CDoc2Reader::decrypt`.
  unfoldable pub decrypt : ℕ → ℕ → Bytes → Session S C Z → D → Call Result (Session S C Z × D)
  decrypt rounds fuel fmk r d =
      let (rv, r') = begin_decryption p fmk r in
      let rest = files_loop rounds fuel (next_file p fuel r') d in
      if is_ok rv then rest else gives rv (r', d)

  -- What an OK of decrypt tells of the payload. `first` is the decrypting stream that is started at
  -- the nonce with the key that is expanded from `fmk` and takes the additional data of the header,
  -- `last` is reached from it by reads alone, it has no error, the cipher accepts what it holds back
  -- as the tag, and `last` closed is all that the reader keeps of its streams.
  pub record Authentic (fmk : Bytes) (r r' : Session S C Z) : Type 0 where
    pub first : DecryptionSource S C
    pub last : DecryptionSource S C
    pub started : Starts p fmk (seek_nonce p r).1 r first
    pub run : Reached p.io p.cipher first last
    pub clean : last.error ≡ none
    pub accepts : Accepts p.cipher last.ctx last.tag
    pub at : r'.streams ≡ closed (Decrypt.close p.io p.cipher last).1.src

  module _ (d0 : DecryptionSource S C) where
    -- The same, of the stream that has been started.
    record Finished (r' : Session S C Z) : Type 0 where
      last : DecryptionSource S C
      run : Reached p.io p.cipher d0 last
      clean : last.error ≡ none
      accepts : Accepts p.cipher last.ctx last.tag
      at : r'.streams ≡ closed (Decrypt.close p.io p.cipher last).1.src

    close_clean :
        (d : DecryptionSource S C) → (Decrypt.close p.io p.cipher d).0 ≡ ok → d.error ≡ none
    unfolding Decrypt.close
    close_clean d e = elim (Option-cases d.error) [
      | inl clean ↦ clean
      | inr (c, failed) ↦ absurd (cc (rw (failed, Decrypt.close) at e))
    ]

    finish-Finished :
        (r r' : Session S C Z) (x : Streams S C Z)
        → r.streams ≡ x
        → Over p d0 x
        → finish_decryption p r ≡ gives ok r'
        → Finished r'
    unfolding finish_decryption
    finish-Finished r r' (closed s) at h e = absurd (cc (rw (at, finish_decryption) at e))
    finish-Finished r r' (keyed d) at h e = absurd (cc (rw (at, finish_decryption) at e))
    finish-Finished r r' (dangling d) at h e = absurd (cc (rw (at, finish_decryption) at e))
    finish-Finished r r' (running t) at h e =
        let d : DecryptionSource S C = t.src.src in
        let done : gives (Decrypt.close p.io p.cipher d).0
              (record r { streams = closed (Decrypt.close p.io p.cipher d).1.src })
            ≡ gives ok r' =
          rw (at, finish_decryption) at e in
        let fine : (Decrypt.close p.io p.cipher d).0 ≡ ok = cc done in
        let state : record r { streams = closed (Decrypt.close p.io p.cipher d).1.src } ≡ r' =
          cc done in
        record {
          last = d;
          run = h;
          clean = close_clean d fine;
          accepts = close-Accepts p.io p.cipher d fine;
          at = ap (λ (y : Session S C Z). y.streams) (sym state);
        }

    with_consumer-Finished :
        (r r' : Session S C Z) (d d' : D) (c : Call Result (Session S C Z))
        → Over p d0 r.streams
        → finish_decryption p r ≡ c
        → with_consumer d c ≡ gives ok (r', d')
        → Finished r'
    unfolding with_consumer
    with_consumer-Finished r r' d d' undefined h at e = absurd (cc e)
    with_consumer-Finished r r' d d' exhausted h at e = absurd (cc e)
    with_consumer-Finished r r' d d' (gives rv m) h at e =
        let fine : rv ≡ ok = cc e in
        let state : m ≡ r' = cc e in
        finish-Finished r r' r.streams refl h (at ∙ ap₂ (λ x y. gives x y) fine state)

    copy-Over :
        (fuel : ℕ) (r m : Session S C Z) (d dm : D) (rv : Result) (x : Streams S C Z)
        → r.streams ≡ x
        → Over p d0 x
        → copy_file fuel r d ≡ gives rv (m, dm)
        → Over p d0 m.streams
    unfolding copy_file
    copy-Over fuel r m d dm rv (closed s) at h e = absurd (cc (rw (at, copy_file) at e))
    copy-Over fuel r m d dm rv (keyed s) at h e = absurd (cc (rw (at, copy_file) at e))
    copy-Over fuel r m d dm rv (dangling s) at h e = absurd (cc (rw (at, copy_file) at e))
    copy-Over fuel r m d dm rv (running t) at h e =
        elim (Option-cases (write_all_loop (tar_source p fuel) out.sink fuel 0 t d)) [
          | inl over ↦ absurd (cc (rw (at, copy_file, over) at e))
          | inr ((written, t', d'), wrote) ↦
              let kept : WriteKept (tar_source p fuel) (λ x. Reached p.io p.cipher d0 x.src.src)
                  (tar_keeps p d0 fuel) out.sink (some (written, t', d')) =
                rw wrote at (
                  write_all_kept (tar_source p fuel) (λ x. Reached p.io p.cipher d0 x.src.src)
                    (tar_keeps p d0 fuel) out.sink fuel 0 t d h) in
              let state : record r { streams = running t' } ≡ m =
                cc (rw (at, copy_file, wrote) at e) in
              subst (λ (y : Session S C Z). Over p d0 y.streams) state kept
        ]

    files-Finished :
        (rounds fuel : ℕ) (f : Call File (Session S C Z)) (d d' : D) (r' : Session S C Z)
        → Leaves p d0 f
        → files_loop rounds fuel f d ≡ gives ok (r', d')
        → Finished r'
    unfolding files_loop
    files-Finished zero fuel f d d' r' h e = absurd (cc e)
    files-Finished (suc rounds) fuel undefined d d' r' h e = absurd (cc e)
    files-Finished (suc rounds) fuel exhausted d d' r' h e = absurd (cc e)
    files-Finished (suc rounds) fuel (gives (no_file c) r) d d' r' h e =
        elim (Bool-cases (is_end c)) [
          | inl end ↦ with_consumer-Finished r r' d d' _ h refl (rw end at e)
          | inr other ↦ absurd (cc (rw other at e))
        ]
    files-Finished (suc rounds) fuel (gives (file name size) r) d d' r' h e =
        elim (Bool-cases (is_ok (out.open_file name size d).0)) [
          | inr failed ↦ absurd (not_ok _ failed (cc (rw failed at e)))
          | inl fine ↦ elim (Call-cases (copy_file fuel r (out.open_file name size d).1)) [
            | inl c ↦ absurd (cc (rw (fine, c) at e))
            | inr (inl c) ↦ absurd (cc (rw (fine, c) at e))
            | inr (inr (written, m, dm, c)) ↦ elim (Bool-cases (is_error written)) [
              | inl bad ↦
                  (let same : written ≡ ok = cc (rw (fine, c, bad) at e) in absurd (cc (bad, same)))
              | inr good ↦
                  files-Finished rounds fuel (next_file p fuel m) dm d' r'
                    (next-Over p d0 fuel m m.streams refl
                      (copy-Over fuel r m _ dm written r.streams refl h c))
                    (rw (fine, c, good) at e)
            ]
          ]
        ]

  -- From any state of the reader and of the consumer and with any fuel: when decrypt returns OK,
  -- the decrypting stream that was started at the nonce with the key expanded from the given key,
  -- and that took the payload's name, the header and the HMAC as additional data, has been brought
  -- by calls of its read alone into a state without an error, in which the cipher accepts the bytes
  -- that the stream holds back as the tag, and the streams of the reader are closed behind it.
  pub decrypt-Authentic :
      (rounds fuel : ℕ) (fmk : Bytes) (r r' : Session S C Z) (d d' : D)
      → decrypt rounds fuel fmk r d ≡ gives ok (r', d')
      → Authentic fmk r r'
  unfolding decrypt
  decrypt-Authentic rounds fuel fmk r r' d d' e =
      elim (Bool-cases (is_ok (begin_decryption p fmk r).0)) [
        | inr failed ↦ absurd (not_ok _ failed (cc (rw failed at e)))
        | inl fine ↦
            (let b = (begin_decryption p fmk r).1 in
              let (d0, started, over) = begin-Starts p fmk r (is_ok-ok _ fine) in
              let done =
                files-Finished d0 rounds fuel (next_file p fuel b) d d' r'
                  (next-Over p d0 fuel b b.streams refl over) (rw fine at e) in
              record {
                first = d0;
                last = done.last;
                started = started;
                run = done.run;
                clean = done.clean;
                accepts = done.accepts;
                at = done.at;
              })
      ]
