-- ===== src/Locks/Tests.antt =====
-- A lock for a password, with a good and with a bad number of iterations.
use libcdoc.Base.{◌≤◌, codes, true, not, ◌&&◌, list_eq, [], ◌≡◌}
use libcdoc.Locks.{kdf_iter, get_int, is_valid}
use libcdoc.Locks.Build.{RecipientRecord, pbkdf2, build_lock, kdf_iter_max_decrypt}
use libcdoc.Locks.Build.Valid.{is_supported, build_lock-valid, build_lock-iterations}

abbrev greedy : RecipientRecord
greedy = record {
  is_xor = true;
  key_label = codes "label";
  encrypted_fmk = codes "key";
  capsule = pbkdf2 (codes "s") (codes "p") true 2000000000;
}

build_lock-valid_example : is_valid (build_lock greedy) ≡ (
    greedy.is_xor
    && (is_supported greedy.capsule
        && (not (list_eq greedy.key_label []) && not (list_eq greedy.encrypted_fmk []))))
build_lock-valid_example = build_lock-valid greedy

build_lock-iterations_example : get_int kdf_iter (build_lock greedy) ≤ kdf_iter_max_decrypt
build_lock-iterations_example = build_lock-iterations greedy
