-- ===== src/Writer/Runs.antt =====
-- Runs of the calls of a writer (cdoc/CDoc2Writer.cpp), in any order, refine its phases.
use libcdoc.Base.{
  ℕ, Bytes, List, [], ◌∷◌, not, ◌||◌, ltb, list_eq, ◌≡◌, inl, inr, subst, Bool-cases,
}
use libcdoc.Outcome.{Result, Call, gives}
use libcdoc.Text.Utf8.{is_valid_utf8}
use libcdoc.Recipients.{Recipient}
use libcdoc.Writer.{
  Writer, Parts, add_recipient, begin_encryption, add_file, write_data, finish_encryption, max_size,
}
use libcdoc.Writer.Phases.{
  Phase, collecting, writing, done, Action, adding, beginning, naming, putting, finishing,
  is_naming, is_putting, Moves, fails, begins_late, ends_early, keeps, is_over, starts, ends, At,
  at_collecting, at_writing, at_done, Refined, add-Refined, Begun, header-Begun,
}

module _ {D C Z B : Type 0} (p : Parts D C Z B) where
  Begun-Refined :
      (x : Recipient) (r : List Recipient) (w : Writer D C Z B)
      → Begun p x r w
      → Refined p beginning (collecting (x ∷ r)) w
  Begun-Refined x r w (inl at) = (collecting (x ∷ r), fails (x ∷ r), at)
  Begun-Refined x r w (inr at) = (writing, starts x r, at)

  same-Refined :
      (c : Action) (w w' : Writer D C Z B) (a : Phase) (rv rv' : Result)
      → Moves p c a a
      → At p w a
      → ◌≡◌ {A = Call Result (Writer D C Z B)} (gives rv w) (gives rv' w')
      → Refined p c a w'
  same-Refined c w w' a rv rv' stays at e =
      let same : w ≡ w' = cc e in (a, stays, subst (λ y. At p y a) same at)

  begin-Refined :
      (w w' : Writer D C Z B) (rv : Result) (a : Phase)
      → At p w a
      → begin_encryption p w ≡ gives rv w'
      → Refined p beginning a w'
  unfolding begin_encryption
  begin-Refined _ w' rv _ (at_done d o b) e =
      same-Refined beginning _ w' done _ rv (is_over beginning) (at_done d o b) e
  begin-Refined _ w' rv _ (at_writing t x r o b) e =
      same-Refined beginning _ w' writing _ rv begins_late (at_writing t x r o b) e
  begin-Refined _ w' rv _ (at_collecting d [] o b) e =
      same-Refined beginning _ w' (collecting []) _ rv (fails []) (at_collecting d [] o b) e
  begin-Refined _ w' rv _ (at_collecting d (x ∷ r) o b) e =
      Begun-Refined x r w' (header-Begun p d x r o b rv w' e)

  file-Refined :
      (inner : ℕ) (name : Bytes) (size : ℕ) (w : Writer D C Z B) (a : Phase)
      → At p w a
      → Refined p naming a (add_file p inner name size w).1
  unfolding add_file
  file-Refined inner name size _ _ (at_done d o b) =
      (done, keeps naming done is_naming, at_done d o b)
  file-Refined inner name size _ _ (at_collecting d r o b) =
      (collecting r, keeps naming (collecting r) is_naming, at_collecting d r o b)
  file-Refined inner name size _ _ (at_writing t x r o b) =
      elim (Bool-cases (list_eq name [] || not (is_valid_utf8 name))) [
        | inl bad ↦
            (writing, keeps naming writing is_naming, rw (bad, add_file) (at_writing t x r o b))
        | inr good ↦ elim (Bool-cases (ltb max_size size)) [
          | inl large ↦ (
            writing,
            keeps naming writing is_naming,
            rw (good, add_file, large) (at_writing t x r o b),
          )
          | inr fits ↦ (
            writing,
            keeps naming writing is_naming,
            rw (good, add_file, fits) (at_writing _ x r o b),
          )
        ]
      ]

  data-Refined :
      (inner : ℕ) (src : Bytes) (w : Writer D C Z B) (a : Phase)
      → At p w a
      → Refined p putting a (write_data p inner src w).1
  unfolding write_data
  data-Refined inner src _ _ (at_done d o b) = (done, keeps putting done is_putting, at_done d o b)
  data-Refined inner src _ _ (at_collecting d r o b) =
      (collecting r, keeps putting (collecting r) is_putting, at_collecting d r o b)
  data-Refined inner src _ _ (at_writing t x r o b) =
      (writing, keeps putting writing is_putting, at_writing _ x r o b)

  finish-Refined :
      (inner : ℕ) (w : Writer D C Z B) (a : Phase)
      → At p w a
      → Refined p finishing a (finish_encryption p inner w).1
  unfolding finish_encryption
  finish-Refined inner _ _ (at_done d o b) = (done, is_over finishing, at_done d o b)
  finish-Refined inner _ _ (at_collecting d r o b) =
      (collecting r, ends_early r, at_collecting d r o b)
  finish-Refined inner _ _ (at_writing t x r o b) = (done, ends, at_done _ o b)

  -- One call that returns.
  pub data Step (w : Writer D C Z B) : Action → Writer D C Z B → Type 0 where
    recipient : (x : Recipient) → Step w (adding x) (add_recipient p x w).1
    begins :
        (rv : Result) (w' : Writer D C Z B)
        → begin_encryption p w ≡ gives rv w'
        → Step w beginning w'
    files : (inner : ℕ) (name : Bytes) (size : ℕ) → Step w naming (add_file p inner name size w).1
    writes : (inner : ℕ) (src : Bytes) → Step w putting (write_data p inner src w).1
    finishes : (inner : ℕ) → Step w finishing (finish_encryption p inner w).1

  Step-Refined :
      (c : Action) (w w' : Writer D C Z B) (a : Phase) → At p w a → Step w c w' → Refined p c a w'
  Step-Refined _ w _ a at (recipient x) = add-Refined p x w a at
  Step-Refined _ w w' a at (begins rv _ e) = begin-Refined w w' rv a at e
  Step-Refined _ w _ a at (files inner name size) = file-Refined inner name size w a at
  Step-Refined _ w _ a at (writes inner src) = data-Refined inner src w a at
  Step-Refined _ w _ a at (finishes inner) = finish-Refined inner w a at

  -- Runs of calls, the first call first.
  pub data Run : Writer D C Z B → List Action → Writer D C Z B → Type 0 where
    still : (w : Writer D C Z B) → Run w [] w
    step :
        (w m w' : Writer D C Z B) (c : Action) (cs : List Action)
        → Step w c m
        → Run m cs w'
        → Run w (c ∷ cs) w'

  -- Runs of the abstract machine.
  pub data PathOf : Phase → List Action → Phase → Type 0 where
    rests : (a : Phase) → PathOf a [] a
    moves :
        (a b c : Phase) (x : Action) (xs : List Action)
        → Moves p x a b
        → PathOf b xs c
        → PathOf a (x ∷ xs) c

  -- From a writer that is in a phase, every run of calls that return, in any order and whatever
  -- their results, leaves a writer that is in a phase, which the abstract machine reaches by the
  -- same calls, one move for each: while recipients are collected, a call that adds an accepted
  -- recipient puts it behind the others once and adding another changes none; only beginEncryption
  -- starts the writing, and only with a recipient; only finishEncryption ends it, and always; and a
  -- writer that is done stays so, without recipients and without streams over its output.
  pub Run-Refined :
      (cs : List Action) (w w' : Writer D C Z B) (a : Phase)
      → At p w a
      → Run w cs w'
      → (b : Phase) × PathOf a cs b × At p w' b
  Run-Refined _ _ w' a at (still _) = (a, rests a, at)
  Run-Refined _ w w' a at (step _ m _ c cs one run) =
      let (b, moved, then) = Step-Refined c w m a at one in
      let (d, path, there) = Run-Refined cs m w' b then run in
      (d, moves a b d c cs moved path, there)
