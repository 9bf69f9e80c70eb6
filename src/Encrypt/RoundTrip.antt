-- ===== src/Encrypt/RoundTrip.antt =====
-- What `EncryptionConsumer` writes is read back by `DecryptionSource` (cdoc/Crypto.cpp).
use libcdoc.Base.{
  ◌+◌, ◌<◌, Bytes, length, take, drop, length-append, take-append, drop-append, drop-drop,
  take-append-drop, length-take, List, [], ◌∷◌, ◌++◌, append_assoc, append-nil, none, some, true,
  ◌≡◌, refl, sym, ap, subst, ◌∙◌, arith, Option-cases, inl, inr,
}
use libcdoc.Outcome.{Result, ok}
use libcdoc.Io.{Source, VectorSource, vector_consumer, vector_source}
use libcdoc.Io.Stream.{vector_rest, vector_source-IsSource}
use libcdoc.Decrypt.{DecryptionSource, tag_size, update_aad, update_aads}
use libcdoc.Decrypt as Decrypt
use libcdoc.Decrypt.Start.{start-vector_source}
use libcdoc.Decrypt.Whole.{IsStreamCipher, Reads, Accepts, Reads-whole}
use libcdoc.Encrypt.{EncryptionConsumer, start, write, write_aad, write_aads, close}
use libcdoc.Encrypt as Encrypt
use libcdoc.Encrypt.Output.{Writes, here, next, write-Moved, start_output, Closed, close-Closed}

-- The two directions of one AEAD cipher without padding: states that are related take the same
-- calls, and what one gives the other takes back.
pub record IsPair {C K : Type 0} (enc : Encrypt.Cipher C) (dec : Decrypt.Cipher K)
    (Pair : C → K → Type 0) : Type 0 where
  pub has_tag : enc.has_tag ≡ true
  pub init :
      (key iv : Bytes) (c : C)
      → enc.init enc.fresh key iv ≡ some c
      → (k : K) × (dec.init dec.fresh key iv ≡ some k) × Pair c k
  pub aad :
      (c c' : C) (k : K) (x : Bytes)
      → Pair c k
      → enc.aad c x ≡ some c'
      → (k' : K) × (dec.aad k x ≡ some k') × Pair c' k'
  pub update :
      (c c' : C) (k : K) (x y : Bytes)
      → Pair c k
      → enc.update c x ≡ some (y, c')
      → (k' : K) × (dec.update k y ≡ some (x, k')) × Pair c' k'
  pub final :
      (c c' : C) (k : K) (y tag : Bytes)
      → Pair c k
      → enc.final c ≡ some (y, c')
      → enc.get_tag c' ≡ some tag
      → (y ≡ []) × Accepts dec k tag

module _ {C K : Type 0} (enc : Encrypt.Cipher C) (dec : Decrypt.Cipher K) (Pair : C → K → Type 0)
    (pair : IsPair enc dec Pair) (stream : IsStreamCipher dec) where
  -- The text that writes have put out, and the decrypting state behind it.
  record Wrote (e e' : EncryptionConsumer Bytes C) (k : K) (plain : Bytes) : Type 0 where
    text : Bytes
    after : K
    output : e'.dst ≡ e.dst ++ text
    decrypts : dec.update k text ≡ some (plain, after)
    paired : Pair e'.ctx after
    clean : e'.error ≡ ok

  Writes-Wrote :
      (e e' : EncryptionConsumer Bytes C) (k : K) (plain : Bytes)
      → Pair e.ctx k
      → e.error ≡ ok
      → Writes enc e plain e'
      → Wrote e e' k plain
  unfolding write
  Writes-Wrote e _ k _ paired clean here = record {
    text = [];
    after = k;
    output = sym (append-nil e.dst);
    decrypts = stream.update-nil k;
    paired = paired;
    clean = clean;
  }
  Writes-Wrote e _ k _ paired clean (next before [] m e' run done) =
      let w = Writes-Wrote e m k before paired clean run in
      rw (← ap (λ p. p.1) done, append-nil before) w
  Writes-Wrote e _ k _ paired clean (next before (x ∷ r) m e' run done) =
      let w = Writes-Wrote e m k before paired clean run in
      let moved = write-Moved enc x r m e' w.clean done in
      let (k', taken, paired') =
        pair.update m.ctx e'.ctx w.after (x ∷ r) moved.text w.paired moved.encrypts in
      record {
        text = w.text ++ moved.text;
        after = k';
        output =
            moved.output
            ∙ (ap (λ u. u ++ moved.text) w.output ∙ append_assoc e.dst w.text moved.text);
        decrypts =
            stream.update-append k w.after k' w.text moved.text before (x ∷ r) w.decrypts taken;
        paired = paired';
        clean = moved.clean;
      }

  taken_aad :
      {S : Type 0} (io : Source S) (x : Bytes) (r : List Bytes) (d : DecryptionSource S K) (k : K)
      → d.error ≡ none
      → dec.aad d.ctx x ≡ some k
      → update_aads io dec (x ∷ r) d ≡ update_aads io dec r (record d { ctx = k })
  unfolding update_aads update_aad
  taken_aad io x r d k clean taken =
      let one : update_aad io dec x d ≡ (ok, record d { ctx = k }) =
        rw (clean, taken, update_aad) (ap (λ o. (ok, record d { ctx = k; error = o })) clean) in
      rw (one, update_aads) refl

  -- Both sides take the same additional data.
  aads-Pair :
      {S : Type 0} (io : Source S) (aads : List Bytes) (e e' : EncryptionConsumer Bytes C)
      (d : DecryptionSource S K)
      → Pair e.ctx d.ctx
      → d.error ≡ none
      → write_aads vector_consumer enc aads e ≡ (ok, e')
      → (k : K) × (update_aads io dec aads d ≡ (ok, record d { ctx = k }))
        × Pair e'.ctx k
        × (record e { ctx = e'.ctx } ≡ e')
  unfolding write_aads write_aad update_aads
  aads-Pair io [] e e' d paired clean done =
      let same : e ≡ e' = ap (λ p. p.1) done in
      (
        d.ctx,
        refl,
        subst (λ (x : EncryptionConsumer Bytes C). Pair x.ctx d.ctx) same paired,
        rw (← same) refl,
      )
  aads-Pair io (x ∷ r) e e' d paired clean done = elim (Option-cases (enc.aad e.ctx x)) [
    | inl failed ↦ absurd (cc (rw (write_aads, write_aad, failed) at done))
    | inr (c, worked) ↦
        (let (k, taken, paired') = pair.aad e.ctx c d.ctx x paired worked in
          let (k', rest, last, same) =
            aads-Pair io r (record e { ctx = c }) e' (record d { ctx = k }) paired' clean
              (rw (write_aads, write_aad, worked) at done) in
          (k', taken_aad io x r d k clean taken ∙ rest, last, same))
  ]

  append_same_tail : (x y t u : Bytes) → x ++ t ≡ y ++ u → length t ≡ length u → (x ≡ y) × (t ≡ u)
  append_same_tail x y t u e h =
      let same : length x ≡ length y =
        omega (arith, length-append x t, length-append y u, ap length e) in
      (
        sym (take-append (length y) x t same)
            ∙ (ap (λ z. take (length y) z) e ∙ take-append (length y) y u refl),
        sym (drop-append (length y) x t same)
            ∙ (ap (λ z. drop (length y) z) e ∙ drop-append (length y) y u refl),
      )

  abbrev input : EncryptionConsumer Bytes C → VectorSource
  input e = record { bytes = e.dst; ptr = 0 }

  module _ (key iv : Bytes) (aads : List Bytes) (c : C) (takes : enc.init enc.fresh key iv ≡ some c)
      (some_iv : 0 < length iv) (e1 e2 e3 : EncryptionConsumer Bytes C) (plain : Bytes)
      (fed : write_aads vector_consumer enc aads (start vector_consumer enc key iv []) ≡ (ok, e1))
      (run : Writes enc e1 plain e2) (closed : close vector_consumer enc e2 ≡ (ok, e3)) where
    abbrev k0 : K
    k0 = (pair.init key iv c takes).0

    -- The decrypting source behind its constructor, over what closing has left.
    abbrev opened : DecryptionSource VectorSource K
    opened = record {
      src = record (input e3) { ptr = 0 + length iv + tag_size };
      ctx = k0;
      tag = take tag_size (drop (length iv) (vector_rest (input e3)));
      error = none;
    }

    fed_back :
        (k : K) × (update_aads vector_source dec aads opened ≡ (ok, record opened { ctx = k }))
        × Pair e1.ctx k
        × (record (start vector_consumer enc key iv []) { ctx = e1.ctx } ≡ e1)
    fed_back =
        aads-Pair vector_source aads (start vector_consumer enc key iv []) e1 opened
          (rw (start_output enc key iv c [] takes) (pair.init key iv c takes).2) refl fed

    abbrev k1 : K
    k1 = fed_back.0

    begun : (e1.dst ≡ iv) × (e1.error ≡ ok)
    begun =
        let s = start_output enc key iv c [] takes in
        let e = fed_back.3 in
        (
          cc (
            ap (λ (x : EncryptionConsumer Bytes C). x.dst) e,
            ap (λ (x : EncryptionConsumer Bytes C). x.dst) s,
          ),
          cc (
            ap (λ (x : EncryptionConsumer Bytes C). x.error) e,
            ap (λ (x : EncryptionConsumer Bytes C). x.error) s,
          ),
        )

    wrote : Wrote e1 e2 k1 plain
    wrote = Writes-Wrote e1 e2 k1 plain fed_back.2 begun.1 run

    last : Closed enc e2 e3
    last = close-Closed enc e2 e3 pair.has_tag closed

    accepted : (last.last ≡ []) × Accepts dec wrote.after last.tag
    accepted =
        pair.final e2.ctx last.ctx wrote.after last.last last.tag wrote.paired last.final
          last.tagged

    all : e3.dst ≡ iv ++ (wrote.text ++ last.tag)
    all =
        last.output
        ∙ rw (accepted.0, append-nil e2.dst, wrote.output, begun.0)
            (append_assoc iv wrote.text last.tag)

    after_iv : drop (length iv) e3.dst ≡ wrote.text ++ last.tag
    after_iv = rw all (drop-append (length iv) iv (wrote.text ++ last.tag) refl)

    open_again : Decrypt.start vector_source dec key (length iv) (input e3) ≡ opened
    open_again =
        start-vector_source dec key (length iv) (input e3) k0 some_iv
          (rw all (
            omega (
              arith,
              length-append iv (wrote.text ++ last.tag),
              length-append wrote.text last.tag,
              last.size,
            )))
          (rw (all, take-append (length iv) iv (wrote.text ++ last.tag) refl)
            (pair.init key iv c takes).1)

    -- The state of the reader behind its constructor and the additional data.
    abbrev pub reader : Result × DecryptionSource VectorSource K
    reader =
        update_aads vector_source dec aads
          (Decrypt.start vector_source dec key (length iv) (input e3))

    reader_eq : reader ≡ (ok, record opened { ctx = k1 })
    reader_eq = rw open_again fed_back.1

    opened_rest : opened.tag ++ vector_rest opened.src ≡ wrote.text ++ last.tag
    opened_rest =
        ap (λ u. opened.tag ++ u)
          (sym (drop-drop tag_size (0 + length iv) e3.dst)
            ∙ ap (λ u. drop tag_size u) (sym (drop-drop (length iv) 0 e3.dst)))
        ∙ (take-append-drop tag_size (drop (length iv) e3.dst) ∙ after_iv)

    -- For the two directions of a cipher that belong together and an IV that is not empty: what a
    -- run of calls of EncryptionConsumer that all succeed has written into memory (the constructor,
    -- the additional data, any cut of the text into writes, and close) is read back by a
    -- DecryptionSource with the same key and additional data: it takes the additional data, any run
    -- of reads that empties its input returns the whole text, and its close returns OK.
    pub reads_back :
        (text : Bytes) (d : DecryptionSource VectorSource K)
        → Reads vector_source dec reader.1 text d
        → vector_rest d.src ≡ []
        → (reader.0 ≡ ok) × (text ≡ plain) × ((Decrypt.close vector_source dec d).0 ≡ ok)
    reads_back text d reads empty =
        let from : DecryptionSource VectorSource K = record opened { ctx = k1 } in
        let window : length opened.tag ≡ tag_size = omega (
          arith,
          ap length after_iv,
          length-take tag_size (drop (length iv) e3.dst),
          length-append wrote.text last.tag,
          last.size,
        ) in
        let (fed_text, tag, ctx, kept, size, decrypted, closes) =
          Reads-whole vector_source dec vector_rest vector_source-IsSource stream from d text window
            refl (subst (λ x. Reads vector_source dec x text d) (ap (λ p. p.1) reader_eq) reads)
            empty in
        let (same_text, same_tag) =
          append_same_tail fed_text wrote.text tag last.tag (sym kept ∙ opened_rest)
            (size ∙ sym last.size) in
        let same : some (text, ctx) ≡ some (plain, wrote.after) =
          sym decrypted ∙ (ap (λ u. dec.update k1 u) same_text ∙ wrote.decrypts) in
        let same_ctx : ctx ≡ wrote.after = cc same in
        (ap (λ p. p.0) reader_eq, cc same, closes.1 (rw (same_ctx, same_tag) accepted.1))
