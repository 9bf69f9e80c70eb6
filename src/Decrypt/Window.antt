-- ===== src/Decrypt/Window.antt =====
-- One `DecryptionSource::read` (cdoc/Crypto.cpp) moves the window of 16 held-back bytes over the
-- input and loses none of it.
use libcdoc.Base.{
  ℕ, ◌-◌, ◌≤◌, ◌<◌, Bytes, length, take, drop, length-take, length-drop, length-append,
  take-append-drop, take_all, [], ◌∷◌, ◌++◌, append_assoc, false, none, some, ltb, leb, ◌==◌, ◌≡◌,
  ◌⊎◌, inl, inr, refl, sym, ap, ◌∙◌, arith, Bool-cases, Option-cases,
}
use libcdoc.Outcome.{Got, got, Got-cases}
use libcdoc.Io.{Source}
use libcdoc.Io.Stream.{IsSource}
use libcdoc.Decrypt.{
  Cipher, DecryptionSource, tag_size, decrypt_block, read_small, refill_tag, read_large, read,
}

regroup : (n : ℕ) (t b r : Bytes) → t ++ (b ++ r) ≡ take n t ++ ((drop n t ++ b) ++ r)
regroup n t b r = rw (append_assoc (drop n t) b r) (
    ap (λ u. u ++ (b ++ r)) (sym (take-append-drop n t))
    ∙ append_assoc (take n t) (drop n t) (b ++ r))

module _ {S C : Type 0} (io : Source S) (cipher : Cipher C) (rest : S → Bytes) where
  -- What the source has still to hand over, decrypted or as the tag.
  abbrev pub pending : DecryptionSource S C → Bytes
  pending d = d.tag ++ rest d.src

  -- The block `fed` went through the cipher and came out as `plain`; nothing went in if it is
  -- empty.
  abbrev pub Decrypts : C → Bytes → Bytes → C → Type 0
  Decrypts c fed plain c' =
      ((fed ≡ []) × (plain ≡ []) × (c ≡ c')) ⊎ (cipher.update c fed ≡ some (plain, c'))

  pub record Moves (d d' : DecryptionSource S C) (plain : Bytes) : Type 0 where
    pub fed : Bytes
    pub kept : pending d ≡ fed ++ pending d'
    pub decrypts : Decrypts d.ctx fed plain d'.ctx
    pub window : length d'.tag ≡ tag_size
    pub clean : d'.error ≡ none

  decrypt_block-Moves :
      (block plain : Bytes) (d d1 d' : DecryptionSource S C)
      → pending d ≡ block ++ pending d1
      → d.ctx ≡ d1.ctx
      → length d1.tag ≡ tag_size
      → d1.error ≡ none
      → decrypt_block io cipher block d1 ≡ got plain d'
      → Moves d d' plain
  unfolding decrypt_block
  decrypt_block-Moves block plain d d1 d' kept same window clean e =
      elim (Option-cases (cipher.update d1.ctx block)) [
        | inl failed ↦ absurd (cc (rw (failed, decrypt_block) at e))
        | inr ((out, ctx'), worked) ↦
            (let result : got out (record d1 { ctx = ctx' }) ≡ got plain d' =
                rw (worked, decrypt_block) at e in
              let plain_eq : out ≡ plain = cc in
              let state_eq : record d1 { ctx = ctx' } ≡ d' = cc in
              rw (← plain_eq, ← state_eq)
                record {
                  fed = block;
                  kept = kept;
                  decrypts = inr (rw same worked);
                  window = window;
                  clean = clean;
                })
      ]

  module _ (law : IsSource io rest) (size : ℕ) (d : DecryptionSource S C)
      (window : length d.tag ≡ tag_size) (clean : d.error ≡ none) where
    -- A read of nothing leaves all but the state of the stream below.
    nothing-Moves :
        (n : ℕ) (plain : Bytes) (d' : DecryptionSource S C) (s' : S)
        → io.read n d.src ≡ got [] s'
        → Path (Got (DecryptionSource S C)) (got [] (record d { src = s' })) (got plain d')
        → Moves d d' plain
    nothing-Moves n plain d' s' heard e =
        let plain_eq : [] ≡ plain = cc in
        let state_eq : record d { src = s' } ≡ d' = cc in
        rw (← plain_eq, ← state_eq)
          record {
            fed = [];
            kept = ap (λ t. d.tag ++ t) (law.next n d.src [] s' heard);
            decrypts = inl (refl, refl, refl);
            window = window;
            clean = clean;
          }

    small_case :
        (b plain : Bytes) (s' : S) (d' : DecryptionSource S C)
        → size ≤ tag_size
        → io.read size d.src ≡ got b s'
        → read_small io cipher size d ≡ got plain d'
        → Moves d d' plain
    unfolding read_small
    small_case [] plain s' d' small heard e =
        nothing-Moves size plain d' s' heard (rw (heard, read_small) at e)
    small_case (x ∷ r) plain s' d' small heard e =
        let n = length (x ∷ r) in
        let few : n ≤ size = law.fits size d.src (x ∷ r) s' heard in
        decrypt_block-Moves (take n d.tag) plain d
          (record d { src = s'; tag = drop n d.tag ++ x ∷ r }) d'
          (ap (λ u. d.tag ++ u) (law.next size d.src (x ∷ r) s' heard)
            ∙ regroup n d.tag (x ∷ r) (rest s'))
          refl (omega (arith, length-append (drop n d.tag) (x ∷ r), length-drop n d.tag)) clean
          (rw (heard, read_small) at e)

    read_small-Moves :
        (plain : Bytes) (d' : DecryptionSource S C)
        → size ≤ tag_size
        → read_small io cipher size d ≡ got plain d'
        → Moves d d' plain
    unfolding read_small
    read_small-Moves plain d' small e = elim (Got-cases (io.read size d.src)) [
      | inl (c, s', heard) ↦ absurd (cc (rw (heard, read_small) at e))
      | inr (b, s', heard) ↦ small_case b plain s' d' small heard e
    ]

    module _ (block : Bytes) (s' : S) (kept : pending d ≡ block ++ rest s')
        (more_asked : tag_size < size) (long : tag_size < length block)
        (fits : length block ≤ size) where
      refill_end :
          (t plain : Bytes) (s'' : S) (d' : DecryptionSource S C)
          → ltb (length block - tag_size) (size - tag_size) ≡ false
          → io.read tag_size s' ≡ got t s''
          → refill_tag io cipher size block (record d { src = s' }) ≡ got plain d'
          → Moves d d' plain
      unfolding refill_tag
      refill_end t plain s'' d' whole heard e =
          let few : length t ≤ tag_size = law.fits tag_size s' t s'' heard in
          let exact : length block ≡ size = ground arith in
          elim (Bool-cases (ltb (length t) tag_size)) [
            | inl short ↦
                let cut : ℕ = size - (tag_size - length t) in
                decrypt_block-Moves (take cut block) plain d
                  (record d { src = s''; tag = drop cut block ++ t }) d'
                  (kept
                    ∙ (ap (λ u. block ++ u) (law.next tag_size s' t s'' heard)
                        ∙ regroup cut block t (rest s'')))
                  refl (ground (arith, length-append (drop cut block) t, length-drop cut block))
                  clean (rw (whole, heard, short, refill_tag) at e)
            | inr full ↦
                decrypt_block-Moves block plain d (record d { src = s''; tag = t }) d'
                  (kept ∙ ap (λ u. block ++ u) (law.next tag_size s' t s'' heard)) refl
                  (ground arith) clean (rw (whole, heard, full, refill_tag) at e)
          ]

      refill_tag-Moves :
          (plain : Bytes) (d' : DecryptionSource S C)
          → refill_tag io cipher size block (record d { src = s' }) ≡ got plain d'
          → Moves d d' plain
      unfolding refill_tag
      refill_tag-Moves plain d' e =
          let nread : ℕ = length block - tag_size in
          elim (Bool-cases (ltb nread (size - tag_size))) [
            | inl short ↦
                decrypt_block-Moves (take nread block) plain d
                  (record d { src = s'; tag = take tag_size (drop nread block) }) d'
                  (kept
                    ∙ rw
                        (take_all tag_size (drop nread block)
                          (omega (arith, length-drop nread block)))
                        (ap (λ u. u ++ rest s') (sym (take-append-drop nread block))
                          ∙ append_assoc (take nread block) (drop nread block) (rest s')))
                  refl
                  (omega (arith, length-take tag_size (drop nread block), length-drop nread block))
                  clean (rw (short, refill_tag) at e)
            | inr whole ↦ elim (Got-cases (io.read tag_size s')) [
              | inl (c, s'', heard) ↦ absurd (cc (rw (whole, heard, refill_tag) at e))
              | inr (t, s'', heard) ↦ refill_end t plain s'' d' whole heard e
            ]
          ]

    large_case :
        (b plain : Bytes) (s' : S) (d' : DecryptionSource S C)
        → tag_size < size
        → io.read (size - tag_size) d.src ≡ got b s'
        → read_large io cipher size d ≡ got plain d'
        → Moves d d' plain
    unfolding read_large
    large_case [] plain s' d' large heard e =
        nothing-Moves (size - tag_size) plain d' s' heard (rw (heard, read_large) at e)
    large_case (x ∷ r) plain s' d' large heard e =
        let few : length (x ∷ r) ≤ size - tag_size =
          law.fits (size - tag_size) d.src (x ∷ r) s' heard in
        refill_tag-Moves (d.tag ++ x ∷ r) s'
          (ap (λ u. d.tag ++ u) (law.next (size - tag_size) d.src (x ∷ r) s' heard)
            ∙ sym (append_assoc d.tag (x ∷ r) (rest s')))
          large (omega (arith, length-append d.tag (x ∷ r)))
          (omega (arith, length-append d.tag (x ∷ r))) plain d' (rw (heard, read_large) at e)

    read_large-Moves :
        (plain : Bytes) (d' : DecryptionSource S C)
        → tag_size < size
        → read_large io cipher size d ≡ got plain d'
        → Moves d d' plain
    unfolding read_large
    read_large-Moves plain d' large e = elim (Got-cases (io.read (size - tag_size) d.src)) [
      | inl (c, s', heard) ↦ absurd (cc (rw (heard, read_large) at e))
      | inr (b, s', heard) ↦ large_case b plain s' d' large heard e
    ]

    -- A read that returns bytes loses nothing: what was pending is what went through the cipher
    -- followed by what is pending afterwards, and 16 bytes are held back again.
    pub read-Moves :
        (plain : Bytes) (d' : DecryptionSource S C)
        → 0 < size
        → read io cipher size d ≡ got plain d'
        → Moves d d' plain
    unfolding read
    read-Moves plain d' some_asked e =
        let asked : (size == 0) ≡ false = ground arith in
        elim (Bool-cases (leb size tag_size)) [
          | inl small ↦
              read_small-Moves plain d' (ground arith) (rw (clean, asked, small, read) at e)
          | inr large ↦
              read_large-Moves plain d' (ground arith) (rw (clean, asked, large, read) at e)
        ]
