-- ===== src/Writer/Whole.antt =====
-- `CDoc2Writer::encrypt` (cdoc/CDoc2Writer.cpp): all files of a source go into a container.
use libcdoc.Base.{
  ℕ, zero, suc, List, [], true, false, none, some, if◌then◌else◌, ◌≡◌, ◌≢◌, ◌⊎◌, Option-cases, inl,
  inr, refl, Bool-cases,
}
use libcdoc.Outcome.{
  is_end, not_ok, Code, workflow_error, Result, fail, ok, is_ok, Call, gives, undefined, exhausted,
  File, file, no_file,
}
use libcdoc.Io.{Source, Sink, write_all_loop}
use libcdoc.Encrypt.{EncryptionConsumer}
use libcdoc.Zip.Consumer.{ZConsumer, is_below}
use libcdoc.Tar.Writer.{TarConsumer, open_entry}
use libcdoc.Tar.Writer as Tar
use libcdoc.Recipients.{Recipient}
use libcdoc.Writer.{
  Streams, direct, open_tar, Writer, Parts, z_sink, output_of, add_all, begin_encryption,
  finish_encryption, close_output,
}

-- `MultiDataSource`: a source that names its files.
pub record MultiSource (M : Type 0) : Type 0 where
  pub source : Source M
  pub next : M → File × M

Streams-cases :
    {D C Z : Type 0} (x : Streams D C Z)
    → ((d : D) × (x ≡ direct d))
      ⊎ ((t : TarConsumer (ZConsumer (EncryptionConsumer D C) Z)) × (x ≡ open_tar t))
Streams-cases (direct d) = inl (d, refl)
Streams-cases (open_tar t) = inr (t, refl)

module _ {D C Z B M : Type 0} (p : Parts D C Z B) (from : MultiSource M) where
  abbrev pub tar_sink : ℕ → Sink (TarConsumer (ZConsumer (EncryptionConsumer D C) Z))
  tar_sink inner = record {
    write = λ src t. Tar.write (z_sink p inner) src t;
    close = λ t. Tar.close (z_sink p inner) t;
  }

  -- `tar.reset(); return result;`.
  unfoldable pub give_up : Result → M → Writer D C Z B → Call Result (Writer D C Z B × M)
  give_up rv m w = gives rv (record w { streams = direct (output_of p w.streams) }, m)

  -- What follows the loop, unless its result is END_OF_STREAM.
  unfoldable pub finish_all : ℕ → M → Writer D C Z B → Call Result (Writer D C Z B × M)
  finish_all inner m w = let (rv, w') = finish_encryption p inner w in gives rv (w', m)

  -- The loop over the files, with fuel for its rounds.
  unfoldable pub files_loop :
      ℕ
      → ℕ
      → File × M
      → TarConsumer (ZConsumer (EncryptionConsumer D C) Z)
      → Writer D C Z B
      → Call Result (Writer D C Z B × M)
  files_loop zero inner f t w = exhausted
  files_loop (suc rounds) inner (no_file c, m) t w =
      if is_end c
      then finish_all inner m (record w { streams = open_tar t })
      else give_up (fail c) m (record w { streams = open_tar t })
  files_loop (suc rounds) inner (file name size, m) t w =
      let (rv, t1) = open_entry (z_sink p inner) name size t in
      if is_ok rv
      then elim (write_all_loop from.source (tar_sink inner) rounds 0 m t1) [
        | none ↦ exhausted
        | some (rw_all, m', t') ↦
            (let rest = files_loop rounds inner (from.next m') t' w in
              if is_below rw_all
              then give_up rw_all m' (record w { streams = open_tar t' })
              else rest)
      ]
      else give_up rv m (record w { streams = open_tar t1 })

  -- Behind beginEncryption; without streams the pointer to the tar consumer is null.
  unfoldable pub encrypt_files : ℕ → ℕ → M → Writer D C Z B → Call Result (Writer D C Z B × M)
  encrypt_files rounds inner m w = elim w.streams [
    | direct d ↦ undefined
    | open_tar t ↦ files_loop rounds inner (from.next m) t w
  ]

  -- What stands for beginEncryption in `encrypt`.
  unfoldable pub after_begin :
      ℕ → ℕ → M → Call Result (Writer D C Z B) → Call Result (Writer D C Z B × M)
  after_begin rounds inner m undefined = undefined
  after_begin rounds inner m exhausted = exhausted
  after_begin rounds inner m (gives rv w) =
      let rest = encrypt_files rounds inner m w in if is_below rv then gives rv (w, m) else rest

  -- `CDoc2Writer::encrypt`.
  unfoldable pub encrypt :
      ℕ → ℕ → List Recipient → M → Writer D C Z B → Call Result (Writer D C Z B × M)
  encrypt rounds inner keys m w =
      if w.finished
      then gives (fail workflow_error) (w, m)
      else (let (rv, w') = add_all p keys w in
          let rest = after_begin rounds inner m (begin_encryption p w') in
          if is_ok rv then rest else gives rv (w', m))

  -- A writer that is done, with nothing over its output.
  pub record IsDone (w : Writer D C Z B) : Type 0 where
    pub output : D
    pub finished : w.finished ≡ true
    pub at : w.streams ≡ direct output
    pub empty : w.recipients ≡ []

  finish_IsDone :
      (inner : ℕ) (w w' : Writer D C Z B) (m m' : M)
      → finish_all inner m w ≡ gives ok (w', m')
      → IsDone w'
  unfolding finish_all finish_encryption
  finish_IsDone inner w w' m m' e = elim (Bool-cases w.finished) [
    | inl over ↦ absurd (cc (rw (over, finish_encryption) at e))
    | inr unfinished ↦ elim (Streams-cases w.streams) [
      | inl (d, s) ↦ absurd (cc (rw (unfinished, s, finish_encryption) at e))
      | inr (t, s) ↦
          (let out : D =
              close_output p w.owned (output_of p (open_tar (Tar.close (z_sink p inner) t).1)) in
            let same : record w { streams = direct out; recipients = []; finished = true } ≡ w' =
              cc (rw (unfinished, s, finish_encryption) at e) in
            rw (← same) record { output = out; finished = refl; at = refl; empty = refl })
    ]
  ]

  gave_up : (c : Code) (w w' : Writer D C Z B) (m m' : M) → give_up (fail c) m w ≢ gives ok (w', m')
  unfolding give_up
  gave_up c w w' m m' e = absurd (cc e)

  files_IsDone :
      (rounds inner : ℕ) (f : File × M) (t : TarConsumer (ZConsumer (EncryptionConsumer D C) Z))
      (w w' : Writer D C Z B) (m' : M)
      → files_loop rounds inner f t w ≡ gives ok (w', m')
      → IsDone w'
  unfolding files_loop give_up
  files_IsDone zero inner f t w w' m' e = absurd (cc e)
  files_IsDone (suc rounds) inner (no_file c, m) t w w' m' e = elim (Bool-cases (is_end c)) [
    | inl end ↦ finish_IsDone inner (record w { streams = open_tar t }) w' m m' (rw end at e)
    | inr other ↦ absurd (cc (rw (other, give_up) at e))
  ]
  files_IsDone (suc rounds) inner (file name size, m) t w w' m' e =
      let opened = open_entry (z_sink p inner) name size t in
      elim (Bool-cases (is_ok opened.0)) [
        | inr bad ↦ absurd (not_ok _ bad (cc (rw (bad, give_up) at e)))
        | inl fine ↦
            elim (Option-cases (write_all_loop from.source (tar_sink inner) rounds 0 m opened.1)) [
              | inl spent ↦ absurd (cc (rw (fine, spent) at e))
              | inr ((all, m1, t1), wrote) ↦ elim (Bool-cases (is_below all)) [
                | inl bad ↦
                    (let same : all ≡ ok = cc (rw (fine, wrote, bad, give_up) at e) in
                      absurd (cc (bad, same)))
                | inr good ↦
                    files_IsDone rounds inner (from.next m1) t1 w w' m'
                      (rw (fine, wrote, good) at e)
              ]
            ]
      ]

  begin_IsDone :
      (rounds inner : ℕ) (m m' : M) (w' : Writer D C Z B) (c : Call Result (Writer D C Z B))
      → after_begin rounds inner m c ≡ gives ok (w', m')
      → IsDone w'
  unfolding after_begin encrypt_files
  begin_IsDone rounds inner m m' w' undefined e = absurd (cc e)
  begin_IsDone rounds inner m m' w' exhausted e = absurd (cc e)
  begin_IsDone rounds inner m m' w' (gives rv w) e = elim (Bool-cases (is_below rv)) [
    | inl bad ↦ (let same : rv ≡ ok = cc (rw bad at e) in absurd (cc (bad, same)))
    | inr good ↦ elim (Streams-cases w.streams) [
      | inl (d, s) ↦ absurd (cc (rw (good, s) at e))
      | inr (t, s) ↦
          files_IsDone rounds inner (from.next m) t (record w { streams = open_tar t }) w' m'
            (rw (good, s) at e)
    ]
  ]

  -- From any state of the writer and with any fuel: when encrypt returns OK, the writer is done,
  -- with its recipients forgotten and no streams over its output.
  pub encrypt-IsDone :
      (rounds inner : ℕ) (keys : List Recipient) (m m' : M) (w w' : Writer D C Z B)
      → encrypt rounds inner keys m w ≡ gives ok (w', m')
      → IsDone w'
  unfolding encrypt
  encrypt-IsDone rounds inner keys m m' w w' e = elim (Bool-cases w.finished) [
    | inl over ↦ absurd (cc (rw over at e))
    | inr more ↦ elim (Bool-cases (is_ok (add_all p keys (record w { finished = false })).0)) [
      | inr bad ↦ absurd (not_ok _ bad (cc (rw (more, bad) at e)))
      | inl fine ↦ begin_IsDone rounds inner m m' w' _ (rw (more, fine) at e)
    ]
  ]
