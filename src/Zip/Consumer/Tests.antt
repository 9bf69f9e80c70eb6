-- ===== src/Zip/Consumer/Tests.antt =====
-- A deflate that stores, two bytes a call, and ends with Z_FINISH; without it a call on no input
-- does nothing.
use libcdoc.Base.{
  ℕ, min, Bytes, length, take, drop, length-drop, ◌<◌, [], true, false, some, ◌==◌, if◌then◌else◌,
  ◌≡◌, refl, codes, arith, inl, inr, Bool-cases,
}
use libcdoc.Io.{vector_consumer}
use libcdoc.Zip.Consumer.{more, ended, Deflate, ZConsumer, write}
use libcdoc.Zip.Consumer.Chain.{IsDeflate, Wrote, write-Wrote}

abbrev storing : Deflate ℕ
storing = record {
  init = some 0;
  scratch = 0;
  deflate = λ z x fin.
      if length x == 0
      then (if fin then ended 0 [] z else more 0 [] z)
      else more (min 2 (length x)) (take 2 x) z;
}

abbrev unread : ℕ → Bytes → ℕ
unread z x = length x

abbrev Always : ℕ → Bytes → Type 0
Always z x = z ≡ z

stored_some :
    (used : ℕ) (x : Bytes)
    → (length x == 0) ≡ false
    → min 2 (length x) ≡ used
    → length (drop used x) < length x
stored_some used x full same = rw (← same) (ground (arith, length-drop (min 2 (length x)) x))

storing-IsDeflate : IsDeflate storing Always unread
storing-IsDeflate = record {
  progress = λ z z' x out fin used ready e onward. elim (Bool-cases (length x == 0)) [
    | inl empty ↦ elim onward [
      | inl finish ↦ absurd (cc (rw (empty, finish) at e))
      | inr less ↦ absurd (ground arith)
    ]
    | inr full ↦ (refl, stored_some used x full (cc (rw full at e)))
  ];
}

abbrev started : ZConsumer Bytes ℕ
started = record { dst = codes "to: "; owned = true; z = 0; broken = false; finishing = false }

write-Wrote_example :
    Wrote storing Always unread storing-IsDeflate
      (codes "Hello")
      started
      (write vector_consumer storing 9 (codes "Hello") started)
write-Wrote_example =
    write-Wrote storing Always unread storing-IsDeflate 9 (codes "Hello") started refl (omega arith)
      refl (omega arith)
