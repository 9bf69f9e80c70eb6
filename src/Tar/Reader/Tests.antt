-- ===== src/Tar/Reader/Tests.antt =====
-- An entry in memory, and a header whose size field is too large.
use libcdoc.Base.{codes, replicate, ◌∷◌, true, false, none, some, ◌≡◌, refl, arith}
use libcdoc.Io.{VectorSource, vector_source, vector_is_eof, vector_read}
use libcdoc.Io.Stream.{vector_source-IsSource, vector_rest}
use libcdoc.Tar.Octal.{from_octal, octal_loop}
use libcdoc.Tar.Header.{
  Header, to_bytes, of_bytes, empty, unsigned_sum, checksum, signed_excess, is_null, verify,
  get_size,
}
use libcdoc.Tar.Reader.{TarSource, Next, block, read, read_block, next}
use libcdoc.Tar.Reader.InEntry.{Right, read-Right}
use libcdoc.Tar.Reader.Ends.{next-Ends}

abbrev inside : TarSource VectorSource
inside = record {
  src = record { bytes = codes "HelloPadding"; ptr = 2 };
  eof = false;
  error = none;
  block_end = 512;
  data_size = 5;
  pos = 2;
}

read-Right_example :
    Right vector_source vector_rest vector_source-IsSource inside 9 (read vector_source 9 inside)
read-Right_example =
    read-Right vector_source vector_rest vector_source-IsSource 9 inside (omega arith)

next-Ends_example : (r : Next VectorSource) × (next vector_source 20 inside ≡ some r)
next-Ends_example = next-Ends 20 inside (omega arith)

abbrev unsized : Header
unsized = record empty {
  name = b'a' ∷ replicate 99 0;
  size = replicate 12 b'7';
  chksum = codes "0001765 ";
}

abbrev archive : VectorSource
archive = record { bytes = to_bytes unsized; ptr = 0 }

abbrev behind : VectorSource
behind = record { bytes = to_bytes unsized; ptr = 512 }

archive_more : vector_is_eof archive ≡ false
unfolding vector_is_eof to_bytes
archive_more = refl

archive_block : read_block vector_source archive ≡ block unsized behind
unfolding read_block vector_read to_bytes of_bytes
archive_block = refl

unsized_full : is_null unsized ≡ false
unfolding is_null to_bytes
unsized_full = refl

unsized_right : verify unsized ≡ true
unfolding verify checksum unsigned_sum signed_excess to_bytes from_octal octal_loop
unsized_right = refl

unsized_size : get_size unsized ≡ none
unfolding get_size from_octal octal_loop
unsized_size = refl
