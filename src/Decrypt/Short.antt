-- ===== src/Decrypt/Short.antt =====
-- A `DecryptionSource::read` (cdoc/Crypto.cpp) that returns fewer bytes than were asked for stands
-- at the end of its input.
use libcdoc.Base.{
  ℕ, ◌+◌, ◌-◌, ◌≤◌, ◌<◌, Bytes, length, length-append, [], ◌∷◌, ◌++◌, false, none, some, ltb, leb,
  ◌==◌, ◌≡◌, inl, inr, ap, arith, Bool-cases, Option-cases,
}
use libcdoc.Outcome.{got, Got-cases}
use libcdoc.Io.{Source}
use libcdoc.Io.Stream.{IsSource}
use libcdoc.Decrypt.{
  Cipher, DecryptionSource, tag_size, decrypt_block, refill_tag, read_large, read,
}

-- The cipher gives as many bytes as it takes.
abbrev pub KeepsLength : {C : Type 0} → Cipher C → Type 0
KeepsLength {C} cipher =
    (c c' : C) (x p : Bytes) → cipher.update c x ≡ some (p, c') → length p ≡ length x

module _ {S C : Type 0} (io : Source S) (cipher : Cipher C) (rest : S → Bytes)
    (law : IsSource io rest) (keeps : KeepsLength cipher) where
  block_result :
      (block plain : Bytes) (d d' : DecryptionSource S C)
      → decrypt_block io cipher block d ≡ got plain d'
      → (length plain ≡ length block) × (d.src ≡ d'.src)
  unfolding decrypt_block
  block_result block plain d d' e = elim (Option-cases (cipher.update d.ctx block)) [
    | inl failed ↦ absurd (cc (rw (failed, decrypt_block) at e))
    | inr ((out, c), worked) ↦
        (let result : got out (record d { ctx = c }) ≡ got plain d' =
            rw (worked, decrypt_block) at e in
          let plain_eq : out ≡ plain = cc in
          let state_eq : record d { ctx = c } ≡ d' = cc in
          (
            rw (← plain_eq) (keeps d.ctx c block out worked),
            ap (λ (x : DecryptionSource S C). x.src) state_eq,
          ))
  ]

  module _ (size : ℕ) (large : tag_size < size) (plain : Bytes) (d d' : DecryptionSource S C)
      (window : length d.tag ≡ tag_size) (few : (length plain == size) ≡ false) where
    refill_short :
        (b : Bytes) (s' : S)
        → io.read (size - tag_size) d.src ≡ got b s'
        → refill_tag io cipher size (d.tag ++ b) (record d { src = s' }) ≡ got plain d'
        → rest d'.src ≡ []
    unfolding refill_tag
    refill_short b s' heard e =
        let fits : length b ≤ size - tag_size = law.fits (size - tag_size) d.src b s' heard in
        let long : length (d.tag ++ b) ≡ 16 + length b = omega (arith, length-append d.tag b) in
        elim (Bool-cases (ltb (length (d.tag ++ b) - tag_size) (size - tag_size))) [
          | inl short ↦
              (let moved = block_result _ plain _ d' (rw (short, refill_tag) at e) in
                rw (← moved.1) (law.short (size - tag_size) d.src b s' heard (ground arith)))
          | inr whole ↦ elim (Got-cases (io.read tag_size s')) [
            | inl (c, s'', failed) ↦ absurd (cc (rw (whole, failed, refill_tag) at e))
            | inr (t, s'', again) ↦ elim (Bool-cases (ltb (length t) tag_size)) [
              | inl short ↦
                  (let moved =
                      block_result _ plain _ d' (rw (whole, again, short, refill_tag) at e) in
                    rw (← moved.1) (law.short tag_size s' t s'' again (ground arith)))
              | inr full ↦
                  (let moved =
                      block_result (d.tag ++ b) plain _ d'
                        (rw (whole, again, full, refill_tag) at e) in
                    absurd (ground (arith, moved.0)))
            ]
          ]
        ]

    large_short :
        (b : Bytes) (s' : S)
        → io.read (size - tag_size) d.src ≡ got b s'
        → read_large io cipher size d ≡ got plain d'
        → rest d'.src ≡ []
    unfolding read_large
    large_short [] s' heard e =
        let result : got [] (record d { src = s' }) ≡ got plain d' = rw (heard, read_large) at e in
        let state_eq : record d { src = s' } ≡ d' = cc in
        rw (← state_eq) (law.short (size - tag_size) d.src [] s' heard (omega arith))
    large_short (x ∷ r) s' heard e = refill_short (x ∷ r) s' heard (rw (heard, read_large) at e)

    -- Over a source that keeps its contract and a cipher that gives as many bytes as it takes, a
    -- read of more than a tag that does not return as many bytes as were asked for has emptied the
    -- input.
    pub read_short : d.error ≡ none → read io cipher size d ≡ got plain d' → rest d'.src ≡ []
    unfolding read read_large
    read_short clean e =
        let asked : (size == 0) ≡ false = ground arith in
        let big : leb size tag_size ≡ false = ground arith in
        let done : read_large io cipher size d ≡ got plain d' = rw (clean, asked, big, read) at e in
        elim (Got-cases (io.read (size - tag_size) d.src)) [
          | inl (c, s', failed) ↦ absurd (cc (rw (failed, read_large) at done))
          | inr (b, s', heard) ↦ large_short b s' heard done
        ]
