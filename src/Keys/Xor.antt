-- ===== src/Keys/Xor.antt =====
-- The laws of `xor_data` (cdoc/Crypto.cpp), and the shares of a key.
use libcdoc.Base.{
  ℕ, zero, suc, Bytes, length, replicate, map, List, [], ◌∷◌, true, ◌==◌, ◌≡◌, refl, sym, ap, ap₂,
  ◌∙◌, arith, bit_xor_twice, bit_xor_swap, zero-bit_xor,
}
use libcdoc.Outcome.{ok, Result}
use libcdoc.Keys.{key, xor_loop, xor_data, first_share, join_loop, join_shares}

length-xor_loop : (a b : Bytes) → length a ≡ length b → length (xor_loop a b) ≡ length a
unfolding xor_loop
length-xor_loop [] b e = refl
length-xor_loop (x ∷ a) [] e = absurd (omega arith)
length-xor_loop (x ∷ a) (y ∷ b) e = omega (arith, length-xor_loop a b (omega arith))

xor_loop_twice : (a b : Bytes) → length a ≡ length b → xor_loop (xor_loop a b) b ≡ a
unfolding xor_loop
xor_loop_twice [] b e = refl
xor_loop_twice (x ∷ a) [] e = absurd (omega arith)
xor_loop_twice (x ∷ a) (y ∷ b) e =
    ap₂ (λ u v. u ∷ v) (bit_xor_twice x y) (xor_loop_twice a b (omega arith))

xor_loop_swap :
    (a b c : Bytes)
    → length a ≡ length b
    → length a ≡ length c
    → xor_loop (xor_loop a b) c ≡ xor_loop (xor_loop a c) b
unfolding xor_loop
xor_loop_swap [] b c e f = refl
xor_loop_swap (x ∷ a) [] c e f = absurd (omega arith)
xor_loop_swap (x ∷ a) (y ∷ b) [] e f = absurd (omega arith)
xor_loop_swap (x ∷ a) (y ∷ b) (z ∷ c) e f =
    ap₂ (λ u v. u ∷ v) (bit_xor_swap x y z) (xor_loop_swap a b c (omega arith) (omega arith))

zero-xor_loop : (n : ℕ) (b : Bytes) → length b ≡ n → xor_loop (replicate n 0) b ≡ b
unfolding xor_loop
zero-xor_loop zero [] e = refl
zero-xor_loop zero (y ∷ b) e = absurd (omega arith)
zero-xor_loop (suc n) [] e = absurd (omega arith)
zero-xor_loop (suc n) (y ∷ b) e =
    ap₂ (λ u v. u ∷ v) (zero-bit_xor y) (zero-xor_loop n b (omega arith))

xor_data_lem : (a b : Bytes) → length a ≡ length b → xor_data a b ≡ key (xor_loop a b)
unfolding xor_data
xor_data_lem a b e = let same : (length a == length b) ≡ true = ground arith in rw same refl

-- Shares of one length.
pub data OfLength (n : ℕ) : List Bytes → Type 0 where
  none_left : OfLength n []
  one_more : (r : Bytes) (rs : List Bytes) → length r ≡ n → OfLength n rs → OfLength n (r ∷ rs)

-- All the shares put in one after the other.
abbrev all_in : Bytes → List Bytes → Bytes
all_in k [] = k
all_in k (r ∷ rs) = all_in (xor_loop k r) rs

length-all_in :
    (n : ℕ) (k : Bytes) (rs : List Bytes) → length k ≡ n → OfLength n rs → length (all_in k rs) ≡ n
length-all_in n k _ e none_left = e
length-all_in n k _ e (one_more r rs h more) =
    length-all_in n (xor_loop k r) rs (length-xor_loop k r (e ∙ sym h) ∙ e) more

all_in_xor :
    (n : ℕ) (k r : Bytes) (rs : List Bytes)
    → length k ≡ n
    → length r ≡ n
    → OfLength n rs
    → all_in (xor_loop k r) rs ≡ xor_loop (all_in k rs) r
all_in_xor n k r _ e h none_left = refl
all_in_xor n k r _ e h (one_more s rs g more) =
    let ks : length (xor_loop k s) ≡ n = length-xor_loop k s (e ∙ sym g) ∙ e in
    ap (λ x. all_in x rs) (xor_loop_swap k r s (e ∙ sym h) (e ∙ sym g))
    ∙ all_in_xor n (xor_loop k s) r rs ks h more

all_in_twice :
    (n : ℕ) (k : Bytes) (rs : List Bytes)
    → length k ≡ n
    → OfLength n rs
    → all_in (all_in k rs) rs ≡ k
all_in_twice n k _ e none_left = refl
all_in_twice n k _ e (one_more r rs h more) =
    let kr : length (xor_loop k r) ≡ n = length-xor_loop k r (e ∙ sym h) ∙ e in
    all_in_xor n (all_in (xor_loop k r) rs) r rs (length-all_in n (xor_loop k r) rs kr more) h more
    ∙ (ap (λ x. xor_loop x r) (all_in_twice n (xor_loop k r) rs kr more)
        ∙ xor_loop_twice k r (e ∙ sym h))

first_share_all :
    (n : ℕ) (k : Bytes) (rs : List Bytes)
    → length k ≡ n
    → OfLength n rs
    → first_share k rs ≡ key (all_in k rs)
unfolding first_share
first_share_all n k _ e none_left = refl
first_share_all n k _ e (one_more r rs h more) =
    rw (xor_data_lem k r (e ∙ sym h), first_share)
      (first_share_all n (xor_loop k r) rs (length-xor_loop k r (e ∙ sym h) ∙ e) more)

-- A share that has been fetched.
abbrev pub fetched : Bytes → Result × Bytes
fetched s = (ok, s)

join_loop_all :
    (n : ℕ) (k : Bytes) (rs : List Bytes)
    → length k ≡ n
    → OfLength n rs
    → join_loop k (map fetched rs) ≡ key (all_in k rs)
unfolding join_loop
join_loop_all n k _ e none_left = refl
join_loop_all n k _ e (one_more r rs h more) =
    rw (xor_data_lem k r (e ∙ sym h), join_loop)
      (join_loop_all n (xor_loop k r) rs (length-xor_loop k r (e ∙ sym h) ∙ e) more)

-- For a key of 32 bytes and any number of other shares of 32 bytes: the writer makes the first
-- share, and when all shares have been fetched the reader puts them together to the key.
pub join_shares-first_share :
    (kek : Bytes) (rs : List Bytes)
    → length kek ≡ 32
    → OfLength 32 rs
    → (first : Bytes) × (first_share kek rs ≡ key first)
      × (join_shares (map fetched (first ∷ rs)) ≡ key kek)
unfolding join_shares join_loop
join_shares-first_share kek rs e all =
    let f : Bytes = all_in kek rs in
    let size : length f ≡ 32 = length-all_in 32 kek rs e all in
    let start : xor_data (replicate 32 0) f ≡ key f =
      xor_data_lem (replicate 32 0) f (sym size) ∙ ap key (zero-xor_loop 32 f size) in
    (
      f,
      first_share_all 32 kek rs e all,
      rw (start, join_loop)
          (join_loop_all 32 f rs size all ∙ ap key (all_in_twice 32 kek rs e all)),
    )

-- What is encrypted by exclusive or with a key of its length is decrypted by the same key.
pub xor_data_twice :
    (fmk kek : Bytes)
    → length fmk ≡ length kek
    → (locked : Bytes) × (xor_data fmk kek ≡ key locked) × (xor_data locked kek ≡ key fmk)
xor_data_twice fmk kek e = (
  xor_loop fmk kek,
  xor_data_lem fmk kek e,
  xor_data_lem (xor_loop fmk kek) kek (length-xor_loop fmk kek e ∙ e)
      ∙ ap key (xor_loop_twice fmk kek e),
)
