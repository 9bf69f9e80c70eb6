-- ===== src/Keys/Tests.antt =====
-- Shares of a key, and a lock with a symmetric key, with toys for the back ends.
use libcdoc.Container.{key_len}
use libcdoc.Base.{Bytes, replicate, map, codes, List, [], ◌∷◌, false, none, some, ◌≡◌, refl}
use libcdoc.Outcome.{ok}
use libcdoc.Locks.{
  Lock, new_lock, password, symmetric_key, salt, pw_salt, kdf_iter, find, get_bytes, get_int,
}
use libcdoc.Keys.{key, xor_data, xor_loop, first_share, join_shares}
use libcdoc.Keys.Xor.{none_left, one_more, fetched, join_shares-first_share}
use libcdoc.Keys.Unlock.{
  Backend, get_key_material, extract_hkdf, expand_kek, derive_kek, check_fmk, finish_fmk, unlock,
  lock_at, get_fmk, hmac_info,
}
use libcdoc.Keys.Unlock.Verified.{get_fmk-verified, unlock-locked, password_without_iterations}

abbrev kek : Bytes
kek = replicate 32 5

abbrev others : List Bytes
others = replicate 32 200 ∷ replicate 32 33 ∷ []

join_shares-first_share_example :
    (first : Bytes) × (first_share kek others ≡ key first)
    × (join_shares (map fetched (first ∷ others)) ≡ key kek)
join_shares-first_share_example = join_shares-first_share kek others refl (
    one_more (replicate 32 200) (replicate 32 33 ∷ []) refl
      (one_more (replicate 32 33) [] refl none_left))

abbrev backend : Backend
backend = record {
  get_secret = λ idx. (ok, kek);
  decrypt_rsa = λ text idx. (ok, []);
  derive_ecdh = λ public idx. (ok, []);
  fetch_key = λ url id. (ok, []);
  has_network = false;
  share_answers = λ lock idx. (ok, []);
  fetch_url = none;
  pbkdf2 = λ s pw iter. s;
  extract = λ m s. m;
  expand = λ k info n. k;
  sign_hmac = λ k text. k;
}

abbrev fmk : Bytes
fmk = replicate 32 9

abbrev lock : Lock
lock = record new_lock {
  type = symmetric_key;
  label = codes "label";
  encrypted_fmk = replicate 32 12;
  params = (salt, codes "salt") ∷ (pw_salt, codes "pepper") ∷ [];
}

derives : derive_kek backend lock 0 ≡ some (key kek)
unfolding derive_kek expand_kek extract_hkdf get_key_material get_bytes find
derives = refl

locks_it : xor_data fmk kek ≡ key lock.encrypted_fmk
unfolding xor_data xor_loop
locks_it = refl

unlock-locked_example : unlock backend (codes "header") fmk lock 0 ≡ some (key fmk)
unlock-locked_example =
    unlock-locked backend (codes "header") fmk lock 0 5 (replicate 31 5) fmk derives refl locks_it
      refl

gets : get_fmk backend (codes "header") fmk (lock ∷ []) 0 ≡ some (key fmk)
unfolding get_fmk lock_at unlock finish_fmk check_fmk derive_kek expand_kek extract_hkdf
    get_key_material get_bytes find xor_data xor_loop
gets = refl

get_fmk-verified_example :
    backend.sign_hmac (backend.expand fmk hmac_info key_len) (codes "header") ≡ fmk
get_fmk-verified_example = get_fmk-verified backend (codes "header") fmk (lock ∷ []) 0 fmk gets

salted :
    (get_bytes salt lock ≡ some (codes "salt"))
    × (get_bytes pw_salt lock ≡ some (codes "pepper"))
    × (get_int kdf_iter lock ≡ 0)
unfolding get_bytes get_int find
salted = (refl, refl, refl)

password_without_iterations_example :
    derive_kek backend (record lock { type = password }) 0
    ≡ derive_kek backend (record lock { type = symmetric_key }) 0
password_without_iterations_example =
    password_without_iterations backend (codes "header") fmk lock 0 (codes "salt") (codes "pepper")
      salted.0 salted.1 salted.2
