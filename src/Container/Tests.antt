-- ===== src/Container/Tests.antt =====
-- A small container.
use libcdoc.Base.{
  Bytes, codes, replicate, map, List, [], ◌∷◌, ◌++◌, true, Option, some, ◌≡◌, refl, arith,
}
use libcdoc.Io.{VectorSource, vector_source}
use libcdoc.Locks.Build.{RecipientRecord, symmetric, build_lock}
use libcdoc.Container.{label, big_endian, open_container}
use libcdoc.Container.Layout.{open_container-Layout}

abbrev recipient : RecipientRecord
recipient = record {
  is_xor = true;
  key_label = codes "label";
  encrypted_fmk = codes "key";
  capsule = symmetric (codes "salt");
}

-- A parser that takes every header.
abbrev parse : Bytes → Option (List RecipientRecord)
parse header = some (recipient ∷ [])

abbrev container : VectorSource
container = record {
  bytes =
      label
      ++ ((0 ∷ 0 ∷ 0 ∷ 6 ∷ [])
          ++ (codes "header" ++ (replicate 32 7 ++ codes "nonce and payload")));
  ptr = 0;
}

states_six : big_endian (0 ∷ 0 ∷ 0 ∷ 6 ∷ []) ≡ 6
unfolding big_endian
states_six = refl

open_container-Layout_example : open_container vector_source parse container ≡ record {
  src = record container { ptr = 47 };
  header_data = codes "header";
  header_hmac = replicate 32 7;
  nonce_pos = 47;
  at_nonce = true;
  locks = map build_lock (recipient ∷ []);
  is_open = true;
}
open_container-Layout_example =
    open_container-Layout parse container (0 ∷ 0 ∷ 0 ∷ 6 ∷ []) (codes "header") (replicate 32 7)
      (codes "nonce and payload") (recipient ∷ []) refl refl states_six (omega arith) refl refl
