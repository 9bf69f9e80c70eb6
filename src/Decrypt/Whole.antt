-- ===== src/Decrypt/Whole.antt =====
-- A whole run of reads of a `DecryptionSource` (cdoc/Crypto.cpp), and its `close`.
use libcdoc.Base.{
  ℕ, ◌<◌, Bytes, length, [], ◌++◌, append_assoc, append-nil, none, some, ◌≡◌, ◌↔◌, Option-cases,
  Bool-cases, true, inl, inr, refl, sym, ap, ◌∙◌,
}
use libcdoc.Outcome.{ok, got}
use libcdoc.Io.{Source}
use libcdoc.Io.Stream.{IsSource}
use libcdoc.Decrypt.{Cipher, DecryptionSource, tag_size, read, close}
use libcdoc.Decrypt.Window.{Moves, read-Moves}

-- EVP_CipherUpdate of a stream cipher may be called on the text in pieces.
pub record IsStreamCipher {C : Type 0} (cipher : Cipher C) : Type 0 where
  pub update-nil : (c : C) → cipher.update c [] ≡ some ([], c)
  pub update-append :
      (c c1 c2 : C) (x y p q : Bytes)
      → cipher.update c x ≡ some (p, c1)
      → cipher.update c1 y ≡ some (q, c2)
      → cipher.update c (x ++ y) ≡ some (p ++ q, c2)

-- The cipher takes the tag, and its last step succeeds.
abbrev pub Accepts : {C : Type 0} → Cipher C → C → Bytes → Type 0
Accepts {C} cipher c tag = (c' : C) × (cipher.set_tag c tag ≡ some c') × (cipher.final c' ≡ true)

module _ {S C : Type 0} (io : Source S) (cipher : Cipher C) where
  pub close_iff :
      (d : DecryptionSource S C)
      → d.error ≡ none
      → ((close io cipher d).0 ≡ ok) ↔ Accepts cipher d.ctx d.tag
  unfolding close
  close_iff d clean = elim (Option-cases (cipher.set_tag d.ctx d.tag)) [
    | inl refused ↦ (λ e. absurd (cc (rw (clean, refused, close) at e)), λ a. absurd (cc (a.1)))
    | inr (c', set) ↦ elim (Bool-cases (cipher.final c')) [
      | inl yes_final ↦ (λ e. (c', set, yes_final), λ a. rw (clean, set, yes_final, close))
      | inr no_final ↦ (
        λ e. absurd (cc (rw (clean, set, no_final, close) at e)),
        λ a.
            let same : a.0 ≡ c' = cc (a.1) in
            absurd (cc (a.2, ap (λ (c : C). cipher.final c) same)),
      )
    ]
  ]

  -- A stream that closes with OK has had its tag accepted.
  pub close-Accepts :
      (d : DecryptionSource S C) → (close io cipher d).0 ≡ ok → Accepts cipher d.ctx d.tag
  unfolding close
  close-Accepts d e = elim (Option-cases d.error) [
    | inl clean ↦ (close_iff d clean).0 e
    | inr (c, failed) ↦ absurd (cc (rw (failed, close) at e))
  ]

  -- Reads of any sizes, all of which return bytes or the end, and the bytes that they return.
  pub data Reads (d : DecryptionSource S C) : Bytes → DecryptionSource S C → Type 0 where
    here : Reads d [] d
    next :
        (size : ℕ) (before plain : Bytes) (m d' : DecryptionSource S C)
        → Reads d before m
        → 0 < size
        → read io cipher size m ≡ got plain d'
        → Reads d (before ++ plain) d'

  module _ (rest : S → Bytes) (law : IsSource io rest) (stream : IsStreamCipher cipher) where
    pub record Ran (d d' : DecryptionSource S C) (plain : Bytes) : Type 0 where
      pub fed : Bytes
      pub kept : d.tag ++ rest d.src ≡ fed ++ (d'.tag ++ rest d'.src)
      pub decrypts : cipher.update d.ctx fed ≡ some (plain, d'.ctx)
      pub window : length d'.tag ≡ tag_size
      pub clean : d'.error ≡ none

    Moves-Ran :
        (d m d' : DecryptionSource S C) (before plain : Bytes)
        → Ran d m before
        → Moves io cipher rest m d' plain
        → Ran d d' (before ++ plain)
    Moves-Ran d m d' before plain ran step =
        let worked : cipher.update m.ctx step.fed ≡ some (plain, d'.ctx) = elim step.decrypts [
          | inl (nothing, silent, same) ↦ rw (nothing, silent, ← same) (stream.update-nil m.ctx)
          | inr done ↦ done
        ] in
        record {
          fed = ran.fed ++ step.fed;
          kept =
              ran.kept ∙ (ap (λ u. ran.fed ++ u) step.kept ∙ sym (append_assoc ran.fed step.fed _));
          decrypts =
              stream.update-append d.ctx m.ctx d'.ctx ran.fed step.fed before plain ran.decrypts
                worked;
          window = step.window;
          clean = step.clean;
        }

    pub Reads-Ran :
        (d d' : DecryptionSource S C) (plain : Bytes)
        → length d.tag ≡ tag_size
        → d.error ≡ none
        → Reads d plain d'
        → Ran d d' plain
    Reads-Ran d _ _ window clean here = record {
      fed = [];
      kept = refl;
      decrypts = stream.update-nil d.ctx;
      window = window;
      clean = clean;
    }
    Reads-Ran d _ _ window clean (next size before plain m d' run some_asked e) =
        let ran = Reads-Ran d m before window clean run in
        Moves-Ran d m d' before plain ran
          (read-Moves io cipher rest law size m ran.window ran.clean plain d' some_asked e)

    -- Over a source and a stream cipher that keep their contracts, a run of reads of any positive
    -- sizes from a decryption source without an error, with a tag of 16 bytes, that empties the
    -- source below has decrypted all of the input but its last 16 bytes, in order, and close then
    -- succeeds exactly when the cipher accepts those 16 bytes as the tag.
    pub Reads-whole :
        (d d' : DecryptionSource S C) (plain : Bytes)
        → length d.tag ≡ tag_size
        → d.error ≡ none
        → Reads d plain d'
        → rest d'.src ≡ []
        → (text tag : Bytes) × (c : C) × (d.tag ++ rest d.src ≡ text ++ tag)
          × (length tag ≡ tag_size)
          × (cipher.update d.ctx text ≡ some (plain, c))
          × (((close io cipher d').0 ≡ ok) ↔ Accepts cipher c tag)
    Reads-whole d d' plain window clean run empty =
        let ran = Reads-Ran d d' plain window clean run in
        (
          ran.fed,
          d'.tag,
          d'.ctx,
          ran.kept ∙ ap (λ u. ran.fed ++ u) (rw empty (append-nil d'.tag)),
          ran.window,
          ran.decrypts,
          close_iff d' ran.clean,
        )
