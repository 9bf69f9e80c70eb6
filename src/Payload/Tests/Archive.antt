-- ===== src/Payload/Tests/Archive.antt =====
-- A container with an archive of one file, decrypted to the end.
use libcdoc.Base.{ℕ, Bytes, replicate, [], ◌++◌, some, false, ◌≡◌, refl, codes}
use libcdoc.Outcome.{gives, ok}
use libcdoc.Io.{
  VectorSource, vector_consumer, vector_read, vector_is_eof, vector_write, write_all_loop, skip,
  skip_loop,
}
use libcdoc.Decrypt.{
  start, read_first_tag, update_aad, update_aads, read_large, read_small, refill_tag, decrypt_block,
  close,
}
use libcdoc.Decrypt as Decrypt
use libcdoc.Zip.{inflate_loop, read_loop, is_over}
use libcdoc.Zip as Zip
use libcdoc.Tar.Octal.{padding, to_octal, octal_digits, shift_three, from_octal, octal_loop}
use libcdoc.Tar.Header.{
  to_bytes, of_bytes, is_null, verify, checksum, unsigned_sum, signed_excess, get_name, until_nul,
  get_size,
}
use libcdoc.Tar.Writer.{fill_header}
use libcdoc.Tar.Reader.{next, next_loop, read_block, at_end, failed, enter, take_read}
use libcdoc.Tar.Reader as Tar
use libcdoc.Payload.{
  Session, closed, begin_decryption, build_streams, seek_nonce, source_of, new_zsource, next_file,
  finish_decryption,
}
use libcdoc.Payload.Whole.{
  MultiSink, decrypt, files_loop, copy_file, with_consumer, Authentic, decrypt-Authentic,
}
use libcdoc.Payload.Tests.{willing, fresh_reader}

abbrev archive : Bytes
archive =
    to_bytes (fill_header (codes "a") (some 2) b'0')
    ++ codes "hi"
    ++ replicate 510 0
    ++ replicate 1024 0

abbrev whole_reader : Session VectorSource ℕ ℕ
whole_reader = record fresh_reader {
  streams =
      closed
        (record { bytes = codes "nonce-nonce-" ++ archive ++ codes "0123456789abcdef"; ptr = 0 });
}

-- Names and contents one after the other.
abbrev listing : MultiSink Bytes
listing = record { sink = vector_consumer; open_file = λ name size d. (ok, d ++ name ++ codes ":") }

abbrev emptied : Session VectorSource ℕ ℕ
emptied = record whole_reader {
  streams =
      closed (record {
        bytes = codes "nonce-nonce-" ++ archive ++ codes "0123456789abcdef";
        ptr = 2076;
      });
  at_nonce = false;
}

decrypted :
    decrypt willing listing 5 20 (replicate 32 7) whole_reader [] ≡ gives ok (emptied, codes "a:hi")
unfolding decrypt files_loop copy_file with_consumer begin_decryption build_streams seek_nonce
    source_of new_zsource next_file finish_decryption start read_first_tag update_aad update_aads
    Decrypt.read read_large read_small refill_tag decrypt_block close inflate_loop read_loop is_over
    Zip.read Zip.is_eof padding to_octal octal_digits shift_three from_octal octal_loop to_bytes
    of_bytes is_null verify checksum unsigned_sum signed_excess get_name until_nul get_size
    fill_header next next_loop read_block at_end failed enter take_read Tar.read vector_read
    vector_is_eof vector_write write_all_loop skip skip_loop
decrypted = refl

decrypt-Authentic_example : Authentic willing listing (replicate 32 7) whole_reader emptied
decrypt-Authentic_example =
    decrypt-Authentic willing listing 5 20 (replicate 32 7) whole_reader emptied [] (codes "a:hi")
      decrypted
