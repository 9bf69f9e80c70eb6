-- ===== src/Writer/Phases.antt =====
-- The phases of a writer (cdoc/CDoc2Writer.cpp) and the calls that move it from one to the next.
use libcdoc.Base.{
  Bytes, length, List, [], ◌∷◌, ◌++◌, true, false, Bool, ◌==◌, ◌≡◌, inl, inr, Bool-cases, ◌⊎◌,
}
use libcdoc.Outcome.{Result, is_ok, gives}
use libcdoc.Recipients.{Recipient}
use libcdoc.Zip.Consumer.{is_below, ZConsumer}
use libcdoc.Encrypt.{EncryptionConsumer, write_aads}
use libcdoc.Encrypt as Encrypt
use libcdoc.Container.{key_len}
use libcdoc.Payload.{payload, nonce_len}
use libcdoc.Tar.Writer.{TarConsumer}
use libcdoc.Writer.{
  direct, open_tar, Writer, Parts, accepts, add_recipient, open_streams, write_nonce, write_built,
  write_header, salt,
}

-- Recipients are collected, then files are written, then nothing more is.
pub data Phase : Type 0 where
  collecting : List Recipient → Phase
  writing done : Phase

-- The calls of a writer, by what the phases depend on.
pub data Action : Type 0 where
  adding : Recipient → Action
  beginning naming putting finishing : Action

-- The calls that never move a writer.
pub data IsFileCall : Action → Type 0 where
  is_naming : IsFileCall naming
  is_putting : IsFileCall putting

module _ {D C Z B : Type 0} (p : Parts D C Z B) where
  -- The abstract machine. While recipients are collected, adding one that is accepted puts it
  -- behind the others, once, and adding another does nothing; beginning may fail, and starts the
  -- writing otherwise, where there is a recipient; finishing ends the writing. Nothing else moves.
  pub data Moves : Action → Phase → Phase → Type 0 where
    adds :
        (x : Recipient) (r : List Recipient)
        → is_ok (accepts p x) ≡ true
        → Moves (adding x) (collecting r) (collecting (r ++ x ∷ []))
    refuses :
        (x : Recipient) (r : List Recipient)
        → is_ok (accepts p x) ≡ false
        → Moves (adding x) (collecting r) (collecting r)
    adds_late : (x : Recipient) → Moves (adding x) writing writing
    fails : (r : List Recipient) → Moves beginning (collecting r) (collecting r)
    starts : (x : Recipient) (r : List Recipient) → Moves beginning (collecting (x ∷ r)) writing
    begins_late : Moves beginning writing writing
    ends : Moves finishing writing done
    ends_early : (r : List Recipient) → Moves finishing (collecting r) (collecting r)
    keeps : (c : Action) (a : Phase) → IsFileCall c → Moves c a a
    is_over : (c : Action) → Moves c done done

  -- The phase that a writer is in.
  pub data At : Writer D C Z B → Phase → Type 0 where
    at_collecting :
        (d : D) (r : List Recipient) (o : Bool) (b : B)
        → At
            (record {
              streams = direct d;
              recipients = r;
              finished = false;
              owned = o;
              backend = b;
            })
            (collecting r)
    at_writing :
        (t : TarConsumer (ZConsumer (EncryptionConsumer D C) Z)) (x : Recipient)
        (r : List Recipient) (o : Bool) (b : B)
        → At
            record {
              streams = open_tar t;
              recipients = x ∷ r;
              finished = false;
              owned = o;
              backend = b;
            }
            writing
    at_done :
        (d : D) (o : Bool) (b : B)
        → At
            (record {
              streams = direct d;
              recipients = [];
              finished = true;
              owned = o;
              backend = b;
            })
            done

  -- Where a call leaves a writer that was in a phase.
  abbrev pub Refined : Action → Phase → Writer D C Z B → Type 0
  Refined c a w = (b : Phase) × Moves c a b × At w b

  pub add-Refined :
      (x : Recipient) (w : Writer D C Z B) (a : Phase)
      → At w a
      → Refined (adding x) a (add_recipient p x w).1
  unfolding add_recipient
  add-Refined x _ _ (at_done d o b) = (done, is_over (adding x), at_done d o b)
  add-Refined x _ _ (at_writing t y r o b) = (writing, adds_late x, at_writing t y r o b)
  add-Refined x _ _ (at_collecting d r o b) = elim (Bool-cases (is_ok (accepts p x))) [
    | inl fine ↦ (
      collecting (r ++ x ∷ []),
      adds x r fine,
      rw (add_recipient, fine) (at_collecting d (r ++ x ∷ []) o b),
    )
    | inr bad ↦ (collecting r, refuses x r bad, rw (add_recipient, bad) (at_collecting d r o b))
  ]

  -- Where beginEncryption leaves a writer with a recipient: it collects still, or it writes.
  abbrev pub Begun : Recipient → List Recipient → Writer D C Z B → Type 0
  Begun x r w = At w (collecting (x ∷ r)) ⊎ At w writing

  module _ (d : D) (x : Recipient) (r : List Recipient) (o : Bool) (b : B) where
    abbrev pub here : Writer D C Z B
    here = record {
      streams = direct d;
      recipients = x ∷ r;
      finished = false;
      owned = o;
      backend = b;
    }

    streams-Begun :
        (cek nonce header hmac : Bytes) (d1 : D) (b1 : B)
        → Begun x r
            (record here { streams = (open_streams p cek nonce header hmac d1).1; backend = b1 })
    unfolding open_streams
    streams-Begun cek nonce header hmac d1 b1 =
        elim (Bool-cases (
          is_below
            (write_aads p.sink p.cipher (payload ∷ header ∷ hmac ∷ [])
              (Encrypt.start p.sink p.cipher cek nonce d1)).0)) [
                | inl bad ↦ inl (rw (bad, open_streams) (at_collecting _ (x ∷ r) o b1))
                | inr fine ↦ inr (rw (fine, open_streams) (at_writing _ x r o b1))
              ]

    nonce-Begun :
        (cek header hmac : Bytes) (d1 : D) (b1 : B)
        → Begun x r (write_nonce p cek header hmac here d1 b1).1
    unfolding write_nonce
    nonce-Begun cek header hmac d1 b1 = elim (Bool-cases (is_below (p.random nonce_len b1).0)) [
      | inl bad ↦ inl (rw (bad, write_nonce) (at_collecting d1 (x ∷ r) o (p.random nonce_len b1).2))
      | inr fine ↦ elim (Bool-cases (length (p.random nonce_len b1).1 == nonce_len)) [
        | inr short ↦
            inl
              (rw (fine, write_nonce, short) (at_collecting d1 (x ∷ r) o (p.random nonce_len b1).2))
        | inl whole ↦
            rw (fine, write_nonce, whole)
              (streams-Begun cek (p.random nonce_len b1).1 header hmac d1 (p.random nonce_len b1).2)
      ]
    ]

    built-Begun : (fmk : Bytes) (b1 : B) → Begun x r (write_built p fmk d here b1).1
    unfolding write_built
    built-Begun fmk b1 = elim (Bool-cases (is_below (p.build_header (x ∷ r) fmk b1).0)) [
      | inl bad ↦
          inl (rw (bad, write_built) (at_collecting d (x ∷ r) o (p.build_header (x ∷ r) fmk b1).2))
      | inr fine ↦ rw (fine, write_built) (nonce-Begun _ _ _ _ _)
    ]

    pub header-Begun :
        (rv : Result) (w : Writer D C Z B) → write_header p d here ≡ gives rv w → Begun x r w
    unfolding write_header
    header-Begun rv w e = elim (Bool-cases p.has_crypto) [
      | inr missing ↦ absurd (cc (rw (missing, write_header) at e))
      | inl there ↦ elim (Bool-cases (is_below (p.random key_len b).0)) [
        | inl bad ↦
            (let same : record here { backend = (p.random key_len b).2 } ≡ w =
                cc (rw (there, write_header, bad) at e) in
              inl (rw (← same) (at_collecting d (x ∷ r) o (p.random key_len b).2)))
        | inr fine ↦
            (let same : (write_built p (p.extract (p.random key_len b).1 salt) d here
                    (p.random key_len b).2).1
                  ≡ w =
                cc (rw (there, write_header, fine) at e) in
              rw (← same) (built-Begun _ _))
      ]
    ]
