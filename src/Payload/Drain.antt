-- ===== src/Payload/Drain.antt =====
-- The loop of `decryptAllAndClose` (cdoc/CDoc2Reader.cpp) over a `DecryptionSource`.
use libcdoc.Base.{
  ℕ, zero, suc, ◌-◌, ◌<◌, Bytes, length, length-append, [], ◌∷◌, ◌++◌, true, none, some, Option,
  ltb, ◌==◌, ◌≡◌, inl, inr, refl, ap, ap₂, ◌∙◌, subst, if◌then◌else◌, arith, Bool-cases,
  Option-cases,
}
use libcdoc.Outcome.{is_negative, Code, crypto_error, refused, Got-cases}
use libcdoc.Io.{Source}
use libcdoc.Io.Stream.{IsSource}
use libcdoc.Decrypt.{
  Cipher, DecryptionSource, tag_size, decrypt_block, refill_tag, read_large, read,
}
use libcdoc.Decrypt.Window.{Moves, pending, read-Moves}
use libcdoc.Decrypt.Whole.{Reads, next}
use libcdoc.Decrypt.Short.{KeepsLength, read_short}
use libcdoc.Payload.{drain_size, drain_loop}

-- A failing read returns a negative code.
abbrev pub FailsNegative : {S : Type 0} → Source S → Type 0
FailsNegative {S} io =
    (n : ℕ) (s s' : S) (c : Code) → io.read n s ≡ refused c s' → is_negative c ≡ true

module _ {S C : Type 0} (io : Source S) (cipher : Cipher C) (rest : S → Bytes)
    (law : IsSource io rest) (keeps : KeepsLength cipher) where
  shrinks :
      (d d' : DecryptionSource S C) (b : Bytes)
      → length b ≡ drain_size
      → Moves io cipher rest d d' b
      → length (pending io cipher rest d') < length (pending io cipher rest d)
  shrinks d d' b full moved = elim moved.decrypts [
    | inl (nothing, silent, same) ↦ absurd (omega (arith, ap length silent))
    | inr worked ↦ omega (
      arith,
      keeps d.ctx d'.ctx moved.fed b worked,
      ap length moved.kept,
      length-append moved.fed (pending io cipher rest d'),
    )
  ]

  -- From a decrypting stream without an error that holds back 16 bytes, over a source that keeps
  -- its contract and a cipher that gives as many bytes as it takes, the loop of decryptAllAndClose
  -- ends, given more rounds than there are bytes left.
  pub drain_loop-Ends :
      (fuel : ℕ) (d : DecryptionSource S C)
      → length d.tag ≡ tag_size
      → d.error ≡ none
      → length (d.tag ++ rest d.src) < fuel
      → (r : Option Code × DecryptionSource S C) × (drain_loop io cipher fuel d ≡ some r)
  unfolding drain_loop
  drain_loop-Ends zero d window clean enough = absurd (omega arith)
  drain_loop-Ends (suc fuel) d window clean enough =
      elim (Got-cases (read io cipher drain_size d)) [
        | inl (c, d', heard) ↦
            ((if is_negative c then some c else none, d'), rw (heard, drain_loop) refl)
        | inr (b, d', heard) ↦ elim (Bool-cases (length b == drain_size)) [
          | inr short ↦ ((none, d'), rw (heard, drain_loop, short) refl)
          | inl full ↦
              (let moved =
                  read-Moves io cipher rest law drain_size d window clean b d' (omega arith)
                    heard in
                let less = shrinks d d' b (ground arith) moved in
                let (r, done) = drain_loop-Ends fuel d' moved.window moved.clean (omega arith) in
                (r, rw (heard, drain_loop, full) done))
        ]
      ]

  block_negative :
      (block : Bytes) (d d' : DecryptionSource S C) (c : Code)
      → decrypt_block io cipher block d ≡ refused c d'
      → is_negative c ≡ true
  unfolding decrypt_block
  block_negative block d d' c e = elim (Option-cases (cipher.update d.ctx block)) [
    | inl failed ↦
        (let same : crypto_error ≡ c = cc (rw (failed, decrypt_block) at e) in rw (← same) refl)
    | inr ((out, c'), worked) ↦ absurd (cc (rw (worked, decrypt_block) at e))
  ]

  module _ (negative : FailsNegative io) where
    refill_negative :
        (size : ℕ) (block : Bytes) (d d' : DecryptionSource S C) (c : Code)
        → refill_tag io cipher size block d ≡ refused c d'
        → is_negative c ≡ true
    unfolding refill_tag
    refill_negative size block d d' c e =
        elim (Bool-cases (ltb (length block - tag_size) (size - tag_size))) [
          | inl short ↦ block_negative _ _ d' c (rw (short, refill_tag) at e)
          | inr whole ↦ elim (Got-cases (io.read tag_size d.src)) [
            | inl (c', s', failed) ↦
                (let same : c' ≡ c = cc (rw (whole, failed, refill_tag) at e) in
                  rw (← same) (negative tag_size d.src s' c' failed))
            | inr (t, s', heard) ↦ elim (Bool-cases (ltb (length t) tag_size)) [
              | inl short ↦ block_negative _ _ d' c (rw (whole, heard, short, refill_tag) at e)
              | inr full ↦ block_negative _ _ d' c (rw (whole, heard, full, refill_tag) at e)
            ]
          ]
        ]

    large_negative :
        (size : ℕ) (d d' : DecryptionSource S C) (c : Code)
        → read_large io cipher size d ≡ refused c d'
        → is_negative c ≡ true
    unfolding read_large
    large_negative size d d' c e = elim (Got-cases (io.read (size - tag_size) d.src)) [
      | inl (c', s', failed) ↦
          (let same : c' ≡ c = cc (rw (failed, read_large) at e) in
            rw (← same) (negative (size - tag_size) d.src s' c' failed))
      | inr ([], s', heard) ↦ absurd (cc (rw (heard, read_large) at e))
      | inr (x ∷ r, s', heard) ↦ refill_negative size _ _ d' c (rw (heard, read_large) at e)
    ]

    read_negative :
        (d d' : DecryptionSource S C) (c : Code)
        → d.error ≡ none
        → read io cipher drain_size d ≡ refused c d'
        → is_negative c ≡ true
    unfolding read
    read_negative d d' c clean e = large_negative drain_size d d' c (rw (clean, read) at e)

    -- A loop that ends without a code has read all of the input.
    pub drain_loop-Reads :
        (fuel : ℕ) (d0 d d' : DecryptionSource S C) (before : Bytes)
        → length d.tag ≡ tag_size
        → d.error ≡ none
        → Reads io cipher d0 before d
        → drain_loop io cipher fuel d ≡ some (none, d')
        → (plain : Bytes) × Reads io cipher d0 plain d' × (rest d'.src ≡ [])
    unfolding drain_loop
    drain_loop-Reads zero d0 d d' before window clean run e = absurd (cc e)
    drain_loop-Reads (suc fuel) d0 d d' before window clean run e =
        elim (Got-cases (read io cipher drain_size d)) [
          | inl (c, m, heard) ↦
              absurd (cc (rw (heard, drain_loop, read_negative d m c clean heard) at e))
          | inr (b, m, heard) ↦
              let moved =
                read-Moves io cipher rest law drain_size d window clean b m (omega arith) heard in
              let more = next drain_size before b d m run (omega arith) heard in
              elim (Bool-cases (length b == drain_size)) [
                | inl full ↦
                    drain_loop-Reads fuel d0 m d' (before ++ b) moved.window moved.clean more
                      (rw (heard, drain_loop, full) at e)
                | inr short ↦
                    (let same : some (none, m) ≡ some (none, d') =
                        rw (heard, drain_loop, short) at e in
                      let state : m ≡ d' = cc same in
                      (
                        before ++ b,
                        subst (λ x. Reads io cipher d0 (before ++ b) x) state more,
                        subst (λ (x : DecryptionSource S C). rest x.src ≡ []) state
                            (read_short io cipher rest law keeps drain_size (omega arith) b d m
                              window short clean heard),
                      ))
              ]
        ]

    -- A loop that ends with a code has had a read refused with it.
    pub drain_loop-Refused :
        (fuel : ℕ) (d0 d d' : DecryptionSource S C) (c : Code) (before : Bytes)
        → length d.tag ≡ tag_size
        → d.error ≡ none
        → Reads io cipher d0 before d
        → drain_loop io cipher fuel d ≡ some (some c, d')
        → (plain : Bytes) × (d1 : DecryptionSource S C) × Reads io cipher d0 plain d1
          × (read io cipher drain_size d1 ≡ refused c d')
    unfolding drain_loop
    drain_loop-Refused zero d0 d d' c before window clean run e = absurd (cc e)
    drain_loop-Refused (suc fuel) d0 d d' c before window clean run e =
        elim (Got-cases (read io cipher drain_size d)) [
          | inl (k, m, heard) ↦
              let bad = read_negative d m k clean heard in
              let done : some (some k, m) ≡ some (some c, d') = rw (heard, drain_loop, bad) at e in
              let code : k ≡ c = cc done in
              let state : m ≡ d' = cc done in
              (before, d, run, heard ∙ ap₂ (λ x y. refused x y) code state)
          | inr (b, m, heard) ↦
              let moved =
                read-Moves io cipher rest law drain_size d window clean b m (omega arith) heard in
              let more = next drain_size before b d m run (omega arith) heard in
              elim (Bool-cases (length b == drain_size)) [
                | inl full ↦
                    drain_loop-Refused fuel d0 m d' c (before ++ b) moved.window moved.clean more
                      (rw (heard, drain_loop, full) at e)
                | inr short ↦ absurd (cc (rw (heard, drain_loop, short) at e))
              ]
        ]
