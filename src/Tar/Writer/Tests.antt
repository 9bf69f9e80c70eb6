-- ===== src/Tar/Writer/Tests.antt =====
-- Headers of an entry.
use libcdoc.Base.{codes, ◌≡◌, true, some, none, arith}
use libcdoc.Tar.Header.{verify, get_size}
use libcdoc.Tar.Writer.{fill_header}
use libcdoc.Tar.Writer.HeaderLaws.{verify-fill_header, get_size-fill_header}

verify-fill_header_example : verify (fill_header (codes "a.txt") none b'0') ≡ true
verify-fill_header_example =
    verify-fill_header (codes "a.txt") none b'0' (ground arith) (omega arith)

get_size-fill_header_example :
    get_size (fill_header (codes "a.txt") (some 3000000) b'0') ≡ some 3000000
get_size-fill_header_example = get_size-fill_header (codes "a.txt") 3000000 b'0' (omega arith)
