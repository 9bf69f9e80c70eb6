-- ===== src/Tar/Archive.antt =====
-- Archives that `TarConsumer` writes into memory and `TarSource` reads back (cdoc/Tar.cpp).
pub mod Block
pub mod Reads
pub mod Writes
mod Tests
use libcdoc.Base.{Bytes, IsBytes, length, replicate, List, [], ◌∷◌, ◌++◌, false, some, ◌≡◌}
use libcdoc.Tar.Octal.{padding}
use libcdoc.Tar.Header.{to_bytes, empty}
use libcdoc.Tar.Writer.{fill_header, need_pax_name, need_pax_size}

-- The blocks of a file: its header, its bytes, and zeros up to the end of a block.
abbrev pub image : Bytes → Bytes → Bytes
image name contents =
    to_bytes (fill_header name (some (length contents)) b'0')
    ++ (contents ++ replicate (padding (length contents)) 0)

-- Two null headers end an archive.
abbrev pub archive : List (Bytes × Bytes) → Bytes
archive [] = to_bytes empty ++ to_bytes empty
archive ((name, contents) ∷ files) = image name contents ++ archive files

-- A file that `open` writes without a PAX header.
pub record IsPlain (name contents : Bytes) : Type 0 where
  pub bytes : IsBytes name
  pub short_name : need_pax_name name ≡ false
  pub small : need_pax_size (some (length contents)) ≡ false

abbrev pub ArePlain : List (Bytes × Bytes) → Type 0
ArePlain [] = Unit {0}
ArePlain ((name, contents) ∷ files) = IsPlain name contents × ArePlain files
