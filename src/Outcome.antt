-- ===== src/Outcome.antt =====
-- `result_t` and the result codes of cdoc/CDoc.h.
use libcdoc.Base.{
  ◌≢◌, Option, none, some, ℕ, Bytes, Bool, true, false, zero, suc, ◌≡◌, refl, ◌⊎◌, inl, inr,
}

-- The codes other than OK: END_OF_STREAM, which is 1, and the negative ones, where `other` stands
-- for a code that a stream of the caller returns.
pub data Code : Type 0 where
  end_of_stream not_implemented not_supported wrong_arguments workflow_error io_error : Code
  output_error output_stream_error input_error input_stream_error wrong_key : Code
  data_format_error crypto_error zlib_error pkcs11_error hash_mismatch : Code
  configuration_error not_found internal_error unspecified_error : Code
  other : ℕ → Code

-- A `result_t`: a count of bytes, where 0 is also `OK`, or a negative code.
pub data Result : Type 0 where
  count : ℕ → Result
  fail : Code → Result

abbrev pub ok : Result
ok = count 0

-- To split on a result and keep the equation.
pub Result-cases : (r : Result) → ((c : Code) × (r ≡ fail c)) ⊎ ((n : ℕ) × (r ≡ count n))
Result-cases (fail c) = inl (c, refl)
Result-cases (count n) = inr (n, refl)

-- `rv != OK`.
abbrev pub is_ok : Result → Bool
is_ok (count zero) = true
is_ok (count (suc n)) = false
is_ok (fail c) = false

-- `result < 0`, of a code.
abbrev pub is_negative : Code → Bool
is_negative end_of_stream = false
is_negative _ = true

-- `result == END_OF_STREAM`.
abbrev pub is_end : Code → Bool
is_end end_of_stream = true
is_end _ = false

-- What a read leaves: the bytes written to the caller's block, or a code, and the stream's state.
pub data Got (S : Type 0) : Type 0 where
  got : Bytes → S → Got S
  refused : Code → S → Got S

-- To split on what a read leaves and keep the equation.
pub Got-cases :
    {S : Type 0} (g : Got S)
    → ((c : Code) × (s : S) × (g ≡ refused c s)) ⊎ ((b : Bytes) × (s : S) × (g ≡ got b s))
Got-cases (got b s) = inr (b, s, refl)
Got-cases (refused c s) = inl (c, s, refl)

-- `if (error != OK) return error;`, before the rest of a method.
abbrev pub unless_failed : {A : Type 0} → Option Code → (Code → A) → A → A
unless_failed none f a = a
unless_failed (some c) f a = f c

-- What a method leaves: a value and a state. `undefined` is a call through a null pointer, or
-- through one to an object that is gone; `exhausted` is fuel that ran out.
pub data Call (A S : Type 0) : Type 0 where
  gives : A → S → Call A S
  undefined exhausted : Call A S

-- What a call for the next file gives.
pub data File : Type 0 where
  file : Bytes → Option ℕ → File
  no_file : Code → File

pub not_ok : (rv : Result) → is_ok rv ≡ false → rv ≢ ok
not_ok rv failed same = absurd (cc (failed, same))

pub is_ok-ok : (rv : Result) → is_ok rv ≡ true → rv ≡ ok
is_ok-ok (count zero) fine = refl
is_ok-ok (count (suc n)) fine = absurd (cc fine)
is_ok-ok (fail c) fine = absurd (cc fine)

-- To split on what a call leaves and keep the equation.
pub Call-cases :
    {A B T : Type 0} (c : Call A (B × T))
    → (c ≡ undefined) ⊎ ((c ≡ exhausted) ⊎ ((a : A) × (b : B) × (t : T) × (c ≡ gives a (b, t))))
Call-cases undefined = inl refl
Call-cases exhausted = inr (inl refl)
Call-cases (gives a (b, t)) = inr (inr (a, b, t, refl))
