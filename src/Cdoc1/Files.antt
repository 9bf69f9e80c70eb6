-- ===== src/Cdoc1/Files.antt =====
-- The order in which `CDoc1Reader` (cdoc/CDoc1Reader.cpp) gives files, and its use after the last
-- one.
use libcdoc.Base.{
  ℕ, zero, suc, ◌+◌, Bytes, length, take_all, get_elem?, List, [], ◌∷◌, true, Option, none, some,
  codes, ◌≡◌, refl, ap, ap₂, ◌∙◌, inl, inr, Option-cases, List-cases, arith,
}
use libcdoc.Outcome.{fail, workflow_error, end_of_stream, File, file, no_file, got}
use libcdoc.Io.{VectorSource}
use libcdoc.Io.Stream.{vector_read_full}
use libcdoc.Cdoc1.Xml.{DdocFile}
use libcdoc.Cdoc1.{Library, Cdoc1, Body, is_aes_len, decrypt_data}
use libcdoc.Cdoc1.Session.{advance, next_file, read_data, finish_decryption}

-- The reader after `n` calls of `nextFile`.
abbrev pub after : {S : Type 0} → ℕ → Cdoc1 S → Cdoc1 S
after zero r = r
after (suc n) r = after n (next_file r).1

-- What `nextFile` gives for what stands at an index of the list of files.
abbrev pub file_of : Option DdocFile → File
file_of none = no_file end_of_stream
file_of (some f) = file f.name (some (length f.content))

get_elem?-nil : (n : ℕ) → get_elem? {A = DdocFile} [] n ≡ none
get_elem?-nil zero = refl
get_elem?-nil (suc n) = refl

get_elem?-length : (files : List DdocFile) → get_elem? files (length files) ≡ none
get_elem?-length [] = refl
get_elem?-length (f ∷ files) = get_elem?-length files

module _ {S : Type 0} where
  next_file-moves :
      (r : Cdoc1 S) (f0 : DdocFile) (rest : List DdocFile)
      → r.files ≡ f0 ∷ rest
      → ((next_file r).0 ≡ file_of (get_elem? r.files (advance r.f_pos)))
        × ((next_file r).1.files ≡ r.files)
        × ((next_file r).1.f_pos ≡ some (advance r.f_pos))
  unfolding next_file
  next_file-moves r f0 rest listed = elim (Option-cases (get_elem? r.files (advance r.f_pos))) [
    | inl over ↦
        let left : get_elem? (f0 ∷ rest) (advance r.f_pos) ≡ none = rw listed at over in
        (
          rw (next_file, listed, over, left) refl,
          rw (next_file, listed, over) listed,
          rw (next_file, listed, over) refl,
        )
    | inr (f, there) ↦
        let left : get_elem? (f0 ∷ rest) (advance r.f_pos) ≡ some f = rw listed at there in
        (
          rw (next_file, listed, there, left) refl,
          rw (next_file, listed, there) listed,
          rw (next_file, listed, there) refl,
        )
  ]

  after-state :
      (n : ℕ) (r : Cdoc1 S) (f0 : DdocFile) (rest : List DdocFile)
      → r.files ≡ f0 ∷ rest
      → ((after n r).files ≡ r.files) × (advance (after n r).f_pos ≡ n + advance r.f_pos)
  after-state zero r f0 rest listed = (refl, omega arith)
  after-state (suc n) r f0 rest listed =
      let moves = next_file-moves r f0 rest listed in
      let (kept, pos) = after-state n (next_file r).1 f0 rest (moves.1 ∙ listed) in
      (kept ∙ moves.1, omega (arith, pos, ap advance moves.2))

  opened_file :
      (r : Cdoc1 S) (f f0 : DdocFile) (rest : List DdocFile)
      → r.files ≡ f0 ∷ rest
      → get_elem? r.files (advance r.f_pos) ≡ some f
      → (next_file r).1.src ≡ some (record { bytes = f.content; ptr = 0 })
  unfolding next_file
  opened_file r f f0 rest listed there = rw (next_file, listed, there) refl

  read_opened :
      (r : Cdoc1 S) (b : Bytes)
      → r.src ≡ some (record { bytes = b; ptr = 0 })
      → (r' : Cdoc1 S) × (read_data (length b) r ≡ got b r')
  unfolding read_data
  read_opened r b open_at =
      let v : VectorSource = record { bytes = b; ptr = 0 } in
      let v' : VectorSource = record { bytes = b; ptr = 0 + length b } in
      let all =
        vector_read_full (length b) v (omega arith)
        ∙ ap (λ t. got t v') (take_all (length b) b (omega arith)) in
      (record r { src = some v' }, rw (open_at, read_data, all) refl)

  next_file-at :
      (n : ℕ) (r : Cdoc1 S) (f0 : DdocFile) (rest : List DdocFile)
      → r.files ≡ f0 ∷ rest
      → r.f_pos ≡ none
      → ((next_file (after n r)).0 ≡ file_of (get_elem? r.files n))
        × (get_elem? (after n r).files (advance (after n r).f_pos) ≡ get_elem? r.files n)
  next_file-at n r f0 rest listed start =
      let (kept, pos) = after-state n r f0 rest listed in
      let at : advance (after n r).f_pos ≡ n = omega (arith, pos, ap advance start) in
      let same : get_elem? (after n r).files (advance (after n r).f_pos) ≡ get_elem? r.files n =
        ap₂ (λ l k. get_elem? l k) kept at in
      ((next_file-moves (after n r) f0 rest (kept ∙ listed)).0 ∙ ap file_of same, same)

  -- From a reader that has given no file yet, for every file that it has: the call of nextFile
  -- behind as many others as stand before the file gives its name and its size, and readData of its
  -- size then gives its bytes; and a call behind as many others as there are files gives the end of
  -- the stream.
  pub next_file-ordered :
      (n : ℕ) (r : Cdoc1 S) (f : DdocFile)
      → r.f_pos ≡ none
      → get_elem? r.files n ≡ some f
      → ((next_file (after n r)).0 ≡ file f.name (some (length f.content)))
        × ((r' : Cdoc1 S) × (read_data (length f.content) (next_file (after n r)).1
              ≡ got f.content r'))
        × ((next_file (after (length r.files) r)).0 ≡ no_file end_of_stream)
  next_file-ordered n r f start there = elim (List-cases r.files) [
    | inl empty ↦ absurd (cc (rw empty at there, get_elem?-nil n))
    | inr (f0, rest, listed) ↦
        let (gives, same) = next_file-at n r f0 rest listed start in
        let (kept, pos) = after-state n r f0 rest listed in
        let opened = opened_file (after n r) f f0 rest (kept ∙ listed) (same ∙ there) in
        (
          gives ∙ ap file_of there,
          read_opened (next_file (after n r)).1 f.content opened,
          (next_file-at (length r.files) r f0 rest listed start).0
              ∙ ap file_of (get_elem?-length r.files),
        )
  ]

  -- After nextFile has been called once, and even after finishDecryption, no container is decrypted
  -- again: with every key of a valid size decryptData returns WORKFLOW_ERROR without a call of its
  -- function.
  pub finish-decrypt_data :
      {C Z : Type 0} {X : Type 0 → Type 0} (lib : Library S C Z X) {A : Type 0} (f : Body lib A)
      (fuel k : ℕ) (fmk : Bytes) (a : A) (r : Cdoc1 S)
      → r.f_pos ≡ some k
      → is_aes_len (length fmk) ≡ true
      → (r' : Cdoc1 S) × (decrypt_data lib f fuel fmk (finish_decryption r).1 a
          ≡ some (fail workflow_error, r', a))
  unfolding decrypt_data finish_decryption
  finish-decrypt_data lib f fuel k [] a r used aes = absurd (cc aes)
  finish-decrypt_data lib f fuel k (x ∷ fmk) a r used aes =
      let parsed : Option ℕ → Cdoc1 S = λ p. record (finish_decryption r).1 {
        f_pos = p;
        last_error = codes "Container is already parsed";
      } in
      (parsed (some k), rw (aes, used) (ap (λ p. some (fail workflow_error, parsed p, a)) used))
