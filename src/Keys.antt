-- ===== src/Keys.antt =====
-- Keys that are put together by exclusive or: `xor_data` of cdoc/Crypto.cpp, the shares of a key in
-- cdoc/CDoc2Writer.cpp and cdoc/CDoc2Reader.cpp, and the back end's derivations of
-- cdoc/CryptoBackend.cpp.
pub mod Xor
pub mod Unlock
mod Tests
use libcdoc.Base.{
  ℕ, zero, suc, Bytes, length, replicate, List, [], ◌∷◌, Bool, true, false, Option, none, some,
  ◌==◌, if◌then◌else◌, bit_xor,
}
use libcdoc.Outcome.{Code, crypto_error, Result, count, fail, ok, is_ok}

-- What gives a key: the key, or a result that is not OK.
pub data Key : Type 0 where
  key : Bytes → Key
  no_key : Result → Key

-- The loop of `xor_data`.
unfoldable pub xor_loop : Bytes → Bytes → Bytes
xor_loop [] rhs = []
xor_loop (x ∷ lhs) [] = []
xor_loop (x ∷ lhs) (y ∷ rhs) = bit_xor x y ∷ xor_loop lhs rhs

-- `Crypto::xor_data`; the destination is left as it is when the lengths differ.
unfoldable pub xor_data : Bytes → Bytes → Key
xor_data lhs rhs =
    if length lhs == length rhs then key (xor_loop lhs rhs) else no_key (fail crypto_error)

-- The loop that makes the first share out of the key and the other shares.
unfoldable pub first_share : Bytes → List Bytes → Key
first_share kek [] = key kek
first_share kek (r ∷ shares) = elim (xor_data kek r) [
  | no_key e ↦ no_key e
  | key k ↦ first_share k shares
]

-- The loop over the shares that are fetched, in the order of the tickets, each with the result of
-- `fetchShare`.
unfoldable pub join_loop : Bytes → List (Result × Bytes) → Key
join_loop kek [] = key kek
join_loop kek ((rv, share) ∷ shares) =
    if is_ok rv
    then elim (xor_data kek share) [ no_key e ↦ no_key e | key k ↦ join_loop k shares ]
    else no_key rv

-- The key of a lock with shares starts as 32 zeros.
unfoldable pub join_shares : List (Result × Bytes) → Key
join_shares shares = join_loop (replicate 32 0) shares
