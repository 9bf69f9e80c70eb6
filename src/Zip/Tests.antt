-- ===== src/Zip/Tests.antt =====
-- A toy decompressor that writes every byte twice, as far as there is room.
use libcdoc.Base.{
  ℕ, zero, suc, ◌+◌, ◌≤◌, min, Bytes, codes, length, replicate, length-replicate, [], ◌≡◌, refl,
  arith, false, some, none, if◌then◌else◌, ◌==◌,
}
use libcdoc.Outcome.{Got}
use libcdoc.Io.{VectorSource, vector_source}
use libcdoc.Io.Stream.{vector_source-IsSource, vector_rest}
use libcdoc.Zip.{Inflated, progress, finished, broken, Zlib, ZSource, read, is_over}
use libcdoc.Zip.Limit.{IsZlib, Kept, read-Kept}

-- One zero for every byte, and no input is an end.
abbrev zeros : ℕ → ℕ → Inflated ℕ
zeros zero avail = finished 0 [] 0
zeros (suc n) avail =
    if avail == 0
    then broken 0
    else progress (min (suc n) avail) (replicate (min (suc n) avail) 0) 0

abbrev toy : Zlib ℕ
toy = record { inflate = λ z input avail. zeros (length input) avail }

zeros_room :
    (n avail used : ℕ) (out : Bytes) (z : ℕ)
    → zeros n avail ≡ progress used out z
    → (length out ≤ avail) × (used ≤ n) × (1 ≤ used + length out)
zeros_room zero avail used out z e = absurd (cc e)
zeros_room (suc n) avail used out z e =
    ground (arith, length-replicate {A = ℕ} (min (suc n) avail) 0)

zeros_room_end :
    (n avail used : ℕ) (out : Bytes) (z : ℕ)
    → zeros n avail ≡ finished used out z
    → length out ≤ avail
zeros_room_end zero avail used out z e = ground arith
zeros_room_end (suc n) avail used out z e = ground arith

toy-IsZlib : IsZlib toy
toy-IsZlib = record {
  room = λ z z' input out avail used e. zeros_room (length input) avail used out z' e;
  room_end = λ z z' input out avail used e. zeros_room_end (length input) avail used out z' e;
}

abbrev opened : ZSource VectorSource ℕ
opened = record {
  src = record { bytes = codes "0123456789"; ptr = 0 };
  z = 0;
  error = none;
  buf = [];
  avail_in = 0;
  limit = 4;
  total = 0;
}

opened_under : is_over opened ≡ false
unfolding is_over
opened_under = refl

read-Kept_example :
    (g : Got (ZSource VectorSource ℕ)) × (read vector_source toy 20 5 opened ≡ some g)
    × Kept vector_source vector_rest vector_source-IsSource toy toy-IsZlib opened 5 0 g
read-Kept_example =
    read-Kept vector_source vector_rest vector_source-IsSource toy toy-IsZlib 20 5 opened refl
      opened_under (omega arith)
