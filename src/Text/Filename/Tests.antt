-- ===== src/Text/Filename/Tests.antt =====
-- Names that are refused, changed and kept.
use libcdoc.Base.{Bytes, codes, [], ◌∷◌, ◌++◌, replicate, ◌≡◌, refl, arith}
use libcdoc.Text.Utf8.{is_valid_utf8, utf8_loop, utf8_step, is_ascii, leads_two, is_continuation}
use libcdoc.Text.Filename.{
  has_no_control, last_component, strip_drive, has_byte, trim_end, trim_front, before_dot, to_upper,
  is_one_of, is_reserved, cap, utf8_boundary, boundary_loop, find_last_dot, finish, leaf, sanitise,
}
use libcdoc.Text.Filename.Safe.{IsLeaf, sanitise-IsLeaf}
use libcdoc.Text.Filename.Kept.{IsKept, sanitise_kept}

escaping : sanitise (codes "C:\\dir/../passwd. ") ≡ codes "passwd"
unfolding sanitise leaf finish cap has_no_control last_component strip_drive has_byte trim_end
    trim_front before_dot to_upper is_one_of is_reserved is_valid_utf8 utf8_loop utf8_step is_ascii
escaping = refl

device : sanitise (codes "con.txt") ≡ []
unfolding sanitise leaf finish cap has_no_control last_component strip_drive has_byte trim_end
    trim_front before_dot to_upper is_one_of is_reserved is_valid_utf8 utf8_loop utf8_step is_ascii
device = refl

-- 254 letters, a letter of two bytes behind them and no extension: the first byte of it stays.
abbrev long_name : Bytes
long_name = replicate 254 b'a' ++ 0xc3 ∷ 0xa9 ∷ []

cut_in_two : sanitise long_name ≡ replicate 254 b'a' ++ 0xc3 ∷ []
unfolding sanitise leaf finish cap utf8_boundary boundary_loop find_last_dot has_no_control
    last_component strip_drive has_byte trim_end trim_front before_dot to_upper is_one_of
    is_reserved is_valid_utf8 utf8_loop utf8_step is_ascii leads_two is_continuation
cut_in_two = refl

sanitise-IsLeaf_example : IsLeaf (sanitise (codes "C:\\dir/../passwd. "))
sanitise-IsLeaf_example = sanitise-IsLeaf (codes "C:\\dir/../passwd. ")

abbrev kept_name : Bytes
kept_name = codes "a b.txt"

kept_name-IsKept : IsKept kept_name
unfolding trim_end trim_front is_reserved is_one_of before_dot to_upper is_valid_utf8 utf8_loop
    utf8_step is_ascii
kept_name-IsKept = record {
  full = λ e. cc e;
  utf8 = refl;
  plain = ground arith;
  no_end = refl;
  no_front = refl;
  free = refl;
  short = omega arith;
}

sanitise_kept_example : sanitise kept_name ≡ kept_name
sanitise_kept_example = sanitise_kept kept_name kept_name-IsKept
