-- ===== src/Recipients/Iterations.antt =====
-- The numbers of iterations of a password, as a recipient and as a lock (cdoc/Recipient.cpp and
-- cdoc/CDoc2Reader.cpp).
use libcdoc.Base.{
  ℕ, ◌≤◌, [], true, false, not, ◌&&◌, ◌==◌, list_eq, codes, ◌≡◌, ◌⊎◌, inl, inr, arith, Bool-cases,
}
use libcdoc.Locks.Build.{is_bad_iteration}
use libcdoc.Recipients.{Recipient, symmetric_key, validate, contains, is_out_of_range}

in_range :
    (n : ℕ)
    → not (not (n == 0) && is_out_of_range n) ≡ true
    → (n ≡ 0) ⊎ ((100000 ≤ n) × (n ≤ 10000000) × (is_bad_iteration n ≡ false))
unfolding is_out_of_range
in_range n h = elim (Bool-cases (n == 0)) [
  | inl zero_now ↦ inl (ground arith)
  | inr other ↦ inr (ground arith, ground arith, ground arith)
]

-- A recipient with a symmetric key or a password that is valid has a number of iterations that is
-- 0, for a key, or from 100000 to 10000000; and a reader does not reject such a number.
pub validate-iterations :
    (r : Recipient)
    → r.type ≡ symmetric_key
    → validate r ≡ true
    → (r.kdf_iter ≡ 0)
      ⊎ ((100000 ≤ r.kdf_iter) × (r.kdf_iter ≤ 10000000) × (is_bad_iteration r.kdf_iter ≡ false))
unfolding validate
validate-iterations r kind valid =
    elim (Bool-cases (list_eq r.label [] && not (contains (codes "label") r.lbl_parts))) [
      | inl bare ↦ absurd (cc (rw (validate, kind, bare) at valid))
      | inr named ↦ in_range r.kdf_iter (rw (validate, kind, named) at valid)
    ]
