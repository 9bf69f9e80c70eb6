-- ===== src/Payload/Reached.antt =====
-- What the calls of a reader do with its decrypting stream (cdoc/CDoc2Reader.cpp): they read it.
use libcdoc.Base.{
  ℕ, zero, suc, ◌+◌, Bytes, [], ◌∷◌, Option, none, some, ◌==◌, length, ◌≡◌, inl, inr, refl,
  Bool-cases,
}
use libcdoc.Outcome.{
  Call, gives, no_file, is_negative, Code, Result, Got, got, refused, Got-cases, Result-cases,
}
use libcdoc.Io.{Source, Sink, write_all_loop, copy_block_size}
use libcdoc.Io.Invariant.{Kept, KeptSome, Keeps, Kept-got}
use libcdoc.Decrypt.{Cipher, DecryptionSource}
use libcdoc.Decrypt as Decrypt
use libcdoc.Zip.{ZSource}
use libcdoc.Zip.Kept as Zip
use libcdoc.Tar.Reader.{TarSource, Next, entry, stopped, next}
use libcdoc.Tar.Reader.Kept.{NextSome, next_kept}
use libcdoc.Tar.Reader.Kept as TarKept
use libcdoc.Payload.{
  Parts, Streams, Session, closed, keyed, running, dangling, drain_size, decryption_source,
  drain_loop, decrypt_all, after_error, as_got, z_source, tar_source, next_file,
}

-- Any number of calls of DecryptionSource::read, of any sizes, some of which may be refused.
pub data Reached {S C : Type 0} (io : Source S) (cipher : Cipher C) (d : DecryptionSource S C)
    : DecryptionSource S C → Type 0 where
  still : Reached io cipher d d
  gave :
      (size : ℕ) (b : Bytes) (m d' : DecryptionSource S C)
      → Reached io cipher d m
      → Decrypt.read io cipher size m ≡ got b d'
      → Reached io cipher d d'
  refuses :
      (size : ℕ) (c : Code) (m d' : DecryptionSource S C)
      → Reached io cipher d m
      → Decrypt.read io cipher size m ≡ refused c d'
      → Reached io cipher d d'

-- `writeAll` keeps what every read of its source keeps.
module _ {T D : Type 0} (io : Source T) (P : T → Type 0) (keeps : Keeps io P) (dst : Sink D) where
  abbrev pub WriteKept : Option (Result × T × D) → Type 0
  WriteKept none = Unit
  WriteKept (some r) = P r.1

  pub write_all_kept :
      (fuel total : ℕ) (t : T) (d : D) → P t → WriteKept (write_all_loop io dst fuel total t d)
  unfolding write_all_loop
  write_all_kept zero total t d p = tt
  write_all_kept (suc fuel) total t d p = elim (Bool-cases (io.is_eof t)) [
    | inl over ↦ rw (over, write_all_loop) p
    | inr more ↦ elim (Got-cases (io.read (copy_block_size io dst) t)) [
      | inl (c, t', e) ↦ rw (more, e, write_all_loop) (Kept-got io P keeps _ t _ p e)
      | inr ([], t', e) ↦
          rw (more, e, write_all_loop)
            (write_all_kept fuel total t' _ (Kept-got io P keeps _ t _ p e))
      | inr (x ∷ r, t', e) ↦ elim (Result-cases (dst.write (x ∷ r) d).0) [
        | inl (c, put) ↦ rw (more, e, put, write_all_loop) (Kept-got io P keeps _ t _ p e)
        | inr (n, put) ↦
            rw (more, e, put, write_all_loop)
              (write_all_kept fuel (total + n) t' _ (Kept-got io P keeps _ t _ p e))
      ]
    ]
  ]

module _ {S C Z : Type 0} (p : Parts S C Z) (d0 : DecryptionSource S C) where
  abbrev Here : DecryptionSource S C → Type 0
  Here d = Reached p.io p.cipher d0 d

  -- An archive that is open stands over the stream that has been started.
  abbrev pub Over : Streams S C Z → Type 0
  Over (running t) = Here t.src.src
  Over _ = Unit

  abbrev pub Leaves : {A : Type 0} → Call A (Session S C Z) → Type 0
  Leaves (gives a r) = Over r.streams
  Leaves _ = Unit

  got-Kept :
      {T : Type 0} (Q : T → Type 0) (t : T) (o : Option (Got T))
      → Q t
      → KeptSome Q o
      → Kept Q (as_got p t o)
  got-Kept Q t none q h = q
  got-Kept Q t (some g) q h = h

  read-Kept :
      (n : ℕ) (d : DecryptionSource S C) (g : Got (DecryptionSource S C))
      → Here d
      → Decrypt.read p.io p.cipher n d ≡ g
      → Kept Here g
  read-Kept n d (got b d') h e = gave n b d d' h e
  read-Kept n d (refused c d') h e = refuses n c d d' h e

  dec_keeps : Keeps (decryption_source p) Here
  dec_keeps n d h = read-Kept n d _ h refl

  z_keeps : (fuel : ℕ) → Keeps (z_source p fuel) (λ t. Here t.src)
  z_keeps fuel n t h =
      got-Kept (λ (x : ZSource (DecryptionSource S C) Z). Here x.src) t _ h
        (Zip.read-KeptSome (decryption_source p) p.zlib Here dec_keeps fuel n t h)

  pub tar_keeps : (fuel : ℕ) → Keeps (tar_source p fuel) (λ t. Here t.src.src)
  tar_keeps fuel size t h =
      TarKept.read-Kept (z_source p fuel) (λ x. Here x.src) (z_keeps fuel) size t h

  -- What the loop leaves, if its fuel does not run out.
  abbrev DrainKept : Option (Option Code × DecryptionSource S C) → Type 0
  DrainKept none = Unit
  DrainKept (some r) = Here r.1

  drain_kept :
      (fuel : ℕ) (d : DecryptionSource S C) → Here d → DrainKept (drain_loop p.io p.cipher fuel d)
  unfolding drain_loop
  drain_kept zero d h = tt
  drain_kept (suc fuel) d h = elim (Got-cases (Decrypt.read p.io p.cipher drain_size d)) [
    | inl (c, d', e) ↦ rw (e, drain_loop) (read-Kept drain_size d _ h e)
    | inr (b, d', e) ↦
        let h' : Here d' = read-Kept drain_size d _ h e in
        elim (Bool-cases (length b == drain_size)) [
          | inl full ↦ rw (e, drain_loop, full) (drain_kept fuel d' h')
          | inr short ↦ rw (e, drain_loop, short) h'
        ]
  ]

  error_kept :
      {A : Type 0} (fuel : ℕ) (report : Code → A) (t : TarSource (ZSource (DecryptionSource S C) Z))
      (r : Session S C Z) (o : Option (Option Code × DecryptionSource S C))
      → drain_loop p.io p.cipher fuel t.src.src ≡ o
      → DrainKept o
      → Leaves (after_error p.io p.cipher fuel report t r)
  unfolding after_error decrypt_all
  error_kept fuel report t r none e h = rw (e, after_error, decrypt_all) tt
  error_kept fuel report t r (some (some c, d)) e h = rw (e, after_error, decrypt_all) h
  error_kept fuel report t r (some (none, d)) e h =
      elim (Result-cases (Decrypt.close p.io p.cipher d).0) [
        | inl (c, shut) ↦ rw (e, after_error, decrypt_all, shut) tt
        | inr (n, shut) ↦ rw (e, after_error, decrypt_all, shut) tt
      ]

  next_result :
      (fuel : ℕ) (r : Session S C Z) (t : TarSource (ZSource (DecryptionSource S C) Z))
      (o : Option (Next (ZSource (DecryptionSource S C) Z)))
      → r.streams ≡ running t
      → next (z_source p fuel) fuel t ≡ o
      → NextSome (z_source p fuel) (λ x. Here x.src) (z_keeps fuel) o
      → Leaves (next_file p fuel r)
  unfolding next_file
  next_result fuel r t none at e h = rw (at, next_file, e) tt
  next_result fuel r t (some (entry name size t')) at e h = rw (at, next_file, e) h
  next_result fuel r t (some (stopped c t')) at e h = elim (Bool-cases (is_negative c)) [
    | inl bad ↦
        rw (at, next_file, e, bad)
          (error_kept fuel no_file t' _ _ refl (drain_kept fuel t'.src.src h))
    | inr end ↦ rw (at, next_file, e, end) h
  ]

  -- nextFile only reads the stream.
  pub next-Over :
      (fuel : ℕ) (r : Session S C Z) (x : Streams S C Z)
      → r.streams ≡ x
      → Over x
      → Leaves (next_file p fuel r)
  unfolding next_file
  next-Over fuel r (closed s) at h = rw (at, next_file, at) h
  next-Over fuel r (keyed d) at h = rw (at, next_file, at) h
  next-Over fuel r (dangling d) at h = rw (at, next_file) tt
  next-Over fuel r (running t) at h =
      next_result fuel r t _ at refl
        (next_kept (z_source p fuel) (λ x. Here x.src) (z_keeps fuel) fuel t h)
