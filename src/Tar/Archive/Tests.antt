-- ===== src/Tar/Archive/Tests.antt =====
-- Tests of archives of cdoc/Tar.cpp.
use libcdoc.Base.{Bytes, codes, List, [], ◌∷◌, true, refl, arith}
use libcdoc.Tar.Writer.{TarConsumer, need_pax_name, need_pax_size, any_special, is_special}
use libcdoc.Tar.Archive.{IsPlain}
use libcdoc.Tar.Archive.Reads.{Gives, over_bytes}
use libcdoc.Tar.Archive.Writes.{Stores, fresh, Stores-Gives}

-- A file with bytes, and one without.
abbrev two_files : List (Bytes × Bytes)
two_files = (codes "a.txt", codes "hi") ∷ (codes "b", []) ∷ []

first-IsPlain : IsPlain (codes "a.txt") (codes "hi")
unfolding need_pax_name need_pax_size any_special is_special
first-IsPlain = record { bytes = ground arith; short_name = refl; small = refl }

second-IsPlain : IsPlain (codes "b") []
unfolding need_pax_name need_pax_size any_special is_special
second-IsPlain = record { bytes = ground arith; short_name = refl; small = refl }

Stores-Gives_example :
    (t : TarConsumer Bytes) × Stores (fresh true) two_files t × Gives 1 (over_bytes t.dst) two_files
Stores-Gives_example = Stores-Gives true 0 two_files (first-IsPlain, (second-IsPlain, tt))
