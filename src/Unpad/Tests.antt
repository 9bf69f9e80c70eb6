-- ===== src/Unpad/Tests.antt =====
-- Blocks with good and bad padding.
use libcdoc.Base.{ℕ, ◌≡◌, ◌≢◌, refl, arith, codes}
use libcdoc.Ct.{eq32, cmov, eq8, ge_size}
use libcdoc.Ct.Masks.{mask_of, cmov_lem, eq8_lem, ge_size_lem, eq32_false_positive}
use libcdoc.Unpad.{unpad, check_padding, find_zero, spread, mux, copy_out}
use libcdoc.Unpad.Reference.{reference, unpad-reference}
use mathlib.Core.Bool.{true, false}

bad_block : unpad (codes "xxxxxxxxxxxxxxxx") (codes "abc") 3 ≡ codes "abc"
unfolding unpad check_padding find_zero spread mux copy_out eq8 eq32 ge_size
bad_block = refl

unpad-reference_example :
    unpad (codes "xxxxxxxxxxxxxxxx") (codes "abc") 3
    ≡ reference (codes "xxxxxxxxxxxxxxxx") (codes "abc") 3
unpad-reference_example =
    unpad-reference (codes "xxxxxxxxxxxxxxxx") (codes "abc") 3 (omega arith) (omega arith) refl
      (omega arith) (omega arith)

eq32_false_positive_example : (eq32 0x8000_0001 0 ≡ 0xff) × (◌≢◌ {A = ℕ} 0x8000_0001 0)
eq32_false_positive_example = eq32_false_positive 0x8000_0001 0 (omega arith) (omega arith)

eq8_lem_example : eq8 7 7 ≡ mask_of true
eq8_lem_example = eq8_lem 7 7 (omega arith) (omega arith)

ge_size_lem_example : ge_size 3 10 ≡ mask_of false
ge_size_lem_example = ge_size_lem 3 10 (omega arith) (omega arith)

cmov_lem_example : cmov (codes "ab") (codes "cd") (mask_of false) ≡ codes "cd"
cmov_lem_example = cmov_lem (codes "ab") (codes "cd") false (omega arith) (omega arith) refl
