-- ===== src/Payload/Runs.antt =====
-- The calls of a reader (cdoc/CDoc2Reader.cpp) behind finishDecryption.
use libcdoc.Base.{ℕ, ◌≡◌, refl, subst, ap, sym}
use libcdoc.Outcome.{gives, no_file, Result, fail, workflow_error}
use libcdoc.Decrypt.{DecryptionSource}
use libcdoc.Decrypt as Decrypt
use libcdoc.Payload.{
  Parts, Streams, Session, closed, keyed, running, dangling, no_data, next_file, read_data,
  finish_decryption,
}

module _ {S C Z : Type 0} (p : Parts S C Z) where
  -- No archive is open.
  data IsIdle : Streams S C Z → Type 0 where
    is_closed : (s : S) → IsIdle (closed s)
    is_keyed : (d : DecryptionSource S C) → IsIdle (keyed d)

  -- The calls that need an open archive, on a reader without one.
  abbrev pub Refuses : ℕ → ℕ → Session S C Z → Type 0
  Refuses fuel size r =
      (next_file p fuel r ≡ gives (no_file workflow_error) r)
      × (read_data p fuel size r ≡ gives (no_data workflow_error) r)
      × (finish_decryption p r ≡ gives (fail workflow_error) r)

  idle_at :
      (fuel size : ℕ) (r : Session S C Z) (x : Streams S C Z)
      → IsIdle x
      → Refuses fuel size (record r { streams = x })
  unfolding next_file read_data finish_decryption
  idle_at fuel size r _ (is_closed s) = (refl, refl, refl)
  idle_at fuel size r _ (is_keyed d) = (refl, refl, refl)

  idle-Refuses :
      (fuel size : ℕ) (r : Session S C Z) (x : Streams S C Z)
      → r.streams ≡ x
      → IsIdle x
      → Refuses fuel size r
  idle-Refuses fuel size r x at idle =
      subst (λ (y : Session S C Z). Refuses fuel size y)
        (ap (λ y. record r { streams = y }) (sym at)) (idle_at fuel size r x idle)

  finish-IsIdle :
      (r r' : Session S C Z) (rv : Result) (x : Streams S C Z)
      → r.streams ≡ x
      → finish_decryption p r ≡ gives rv r'
      → (y : Streams S C Z) × (r'.streams ≡ y) × IsIdle y
  unfolding finish_decryption
  finish-IsIdle r r' rv (closed s) at e =
      let same : r ≡ r' = cc (rw (at, finish_decryption) at e) in
      (closed s, rw (← same) at, is_closed s)
  finish-IsIdle r r' rv (keyed d) at e =
      let same : r ≡ r' = cc (rw (at, finish_decryption) at e) in
      (keyed d, rw (← same) at, is_keyed d)
  finish-IsIdle r r' rv (dangling d) at e = absurd (cc (rw (at, finish_decryption) at e))
  finish-IsIdle r r' rv (running t) at e =
      let s : S = (Decrypt.close p.io p.cipher t.src.src).1.src in
      let same : record r { streams = closed s } ≡ r' = cc (rw (at, finish_decryption) at e) in
      (closed s, ap (λ (y : Session S C Z). y.streams) (sym same), is_closed s)

  -- When finishDecryption has returned, whatever its result, nextFile, readData and
  -- finishDecryption give WORKFLOW_ERROR and leave the reader as it is.
  pub finish_closes :
      (r r' : Session S C Z) (rv : Result) (fuel size : ℕ)
      → finish_decryption p r ≡ gives rv r'
      → Refuses fuel size r'
  finish_closes r r' rv fuel size done =
      let (y, at, idle) = finish-IsIdle r r' rv r.streams refl done in
      idle-Refuses fuel size r' y at idle
