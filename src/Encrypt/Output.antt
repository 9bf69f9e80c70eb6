-- ===== src/Encrypt/Output.antt =====
-- What an `EncryptionConsumer` (cdoc/Crypto.cpp) over a consumer in memory leaves there.
use libcdoc.Base.{
  ℕ, Bytes, length, [], ◌∷◌, ◌++◌, some, true, ◌==◌, ◌≡◌, refl, ap, Option-cases, Bool-cases,
  if◌then◌else◌, inl, inr, arith,
}
use libcdoc.Outcome.{ok, count, fail, io_error}
use libcdoc.Io.{vector_consumer, vector_write}
use libcdoc.Encrypt.{
  Cipher, EncryptionConsumer, start, write, write_iv, forward, close, after_last, write_tag,
  is_count,
}

same_count : (n : ℕ) → is_count n (count n) ≡ true
unfolding is_count
same_count n = ground arith

tag_size_lem :
    (tag : Bytes)
    → (if is_count 16 (count (length tag)) then ok else fail io_error) ≡ ok
    → length tag ≡ 16
unfolding is_count
tag_size_lem tag e = elim (Bool-cases (length tag == 16)) [
  | inl whole ↦ ground arith
  | inr other ↦ absurd (cc (rw (is_count, other) at e))
]

module _ {C : Type 0} (cipher : Cipher C) where
  -- Writes of blocks that all come through, and their text.
  pub data Writes (e : EncryptionConsumer Bytes C)
      : Bytes → EncryptionConsumer Bytes C → Type 0 where
    here : Writes e [] e
    next :
        (before block : Bytes) (m e' : EncryptionConsumer Bytes C)
        → Writes e before m
        → write vector_consumer cipher block m ≡ (count (length block), e')
        → Writes e (before ++ block) e'

  -- One write: the cipher's output is behind what was there.
  pub record Moved (e e' : EncryptionConsumer Bytes C) (block : Bytes) : Type 0 where
    pub text : Bytes
    pub output : e'.dst ≡ e.dst ++ text
    pub encrypts : cipher.update e.ctx block ≡ some (text, e'.ctx)
    pub clean : e'.error ≡ ok

  pub write-Moved :
      (x : ℕ) (r : Bytes) (e e' : EncryptionConsumer Bytes C)
      → e.error ≡ ok
      → write vector_consumer cipher (x ∷ r) e ≡ (count (length (x ∷ r)), e')
      → Moved e e' (x ∷ r)
  unfolding write forward vector_write
  write-Moved x r e e' clean done = elim (Option-cases (cipher.update e.ctx (x ∷ r))) [
    | inl failed ↦ absurd (cc (rw (clean, write, failed, forward) at done))
    | inr ((text, c), worked) ↦
        (let state : record e { dst = e.dst ++ text; ctx = c } ≡ e' =
            ap (λ p. p.1) (rw (clean, write, worked, forward, vector_write) at done) in
          rw (← state) record { text = text; output = refl; encrypts = worked; clean = clean })
  ]

  pub start_output :
      (key iv : Bytes) (c : C) (d : Bytes)
      → cipher.init cipher.fresh key iv ≡ some c
      → start vector_consumer cipher key iv d ≡ record { dst = d ++ iv; ctx = c; error = ok }
  unfolding start write_iv vector_write
  start_output key iv c d takes = rw (takes, start, same_count (length iv))

  -- What closing writes, when it returns OK: the cipher's last block and the tag.
  pub record Closed (e e' : EncryptionConsumer Bytes C) : Type 0 where
    pub last : Bytes
    pub tag : Bytes
    pub ctx : C
    pub final : cipher.final e.ctx ≡ some (last, ctx)
    pub tagged : cipher.get_tag ctx ≡ some tag
    pub output : e'.dst ≡ e.dst ++ last ++ tag
    pub size : length tag ≡ 16

  write_tag-Closed :
      (e e1 e' : EncryptionConsumer Bytes C) (last : Bytes)
      → cipher.has_tag ≡ true
      → cipher.final e.ctx ≡ some (last, e1.ctx)
      → e1.dst ≡ e.dst ++ last
      → write_tag vector_consumer cipher e1 ≡ (ok, e')
      → Closed e e'
  unfolding write_tag vector_write
  write_tag-Closed e e1 e' last tags final output done =
      elim (Option-cases (cipher.get_tag e1.ctx)) [
        | inl failed ↦ absurd (cc (rw (tags, write_tag, failed) at done))
        | inr (tag, tagged) ↦
            (let state : record e1 { dst = e1.dst ++ tag } ≡ e' =
                ap (λ p. p.1) (rw (tags, write_tag, tagged, vector_write) at done) in
              record {
                last = last;
                tag = tag;
                ctx = e1.ctx;
                final = final;
                tagged = tagged;
                output = rw (← state, output) refl;
                size =
                    tag_size_lem tag
                      (ap (λ p. p.0) (rw (tags, write_tag, tagged, vector_write) at done));
              })
      ]

  pub close-Closed :
      (e e' : EncryptionConsumer Bytes C)
      → cipher.has_tag ≡ true
      → close vector_consumer cipher e ≡ (ok, e')
      → Closed e e'
  unfolding close forward after_last vector_write
  close-Closed e e' tags done = elim (Option-cases (cipher.final e.ctx)) [
    | inl failed ↦ absurd (cc (rw (failed, forward, after_last) at done))
    | inr ((last, c), worked) ↦
        write_tag-Closed e (record e { dst = e.dst ++ last; ctx = c }) e' last tags worked refl
          (rw (worked, forward, after_last) at done)
  ]
