-- ===== src/Tar/Pax/Fixpoint/Tests.antt =====
-- Records written for short and long values.
use libcdoc.Base.{[], codes, some, none, ◌≡◌, refl, arith}
use libcdoc.Tar.Pax.{to_string, decimal_loop, pax_loop, pax_text, to_pax_record}
use libcdoc.Tar.Pax.Fixpoint.{Counts, to_pax_record_total, to_pax_record_goes_on}

short_record : to_pax_record 22 (codes "path") (codes "ab") ≡ some (codes "11 path=ab\n")
unfolding to_pax_record pax_text pax_loop to_string decimal_loop
short_record = refl

to_pax_record_total_example :
    Counts (to_pax_record 22 (codes "path") (codes "ab")) (pax_text (codes "path") (codes "ab"))
to_pax_record_total_example =
    to_pax_record_total 22 (codes "path") (codes "ab") (omega arith) (omega arith) (omega arith)

to_pax_record_goes_on_example : to_pax_record 1000 (codes "path") [] ≡ none
to_pax_record_goes_on_example =
    to_pax_record_goes_on 1000 (codes "path") [] (omega arith) (omega arith)
