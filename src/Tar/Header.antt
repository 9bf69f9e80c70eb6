-- ===== src/Tar/Header.antt =====
-- `libcdoc::Header` of cdoc/Tar.cpp: the 512 bytes of a tar header.
use libcdoc.Base.{
  ℕ, ◌+◌, Bytes, take, drop, replicate, [], ◌∷◌, ◌++◌, Bool, ◌||◌, Option, none, some, ltb, ◌==◌,
  list_eq, if◌then◌else◌,
}
use libcdoc.Tar.Octal.{max_file_size, from_octal}

pub record Header : Type 0 where
  pub name : Bytes
  pub mode : Bytes
  pub uid : Bytes
  pub gid : Bytes
  pub size : Bytes
  pub mtime : Bytes
  pub chksum : Bytes
  pub typeflag : ℕ
  pub linkname : Bytes
  pub magic : Bytes
  pub version : Bytes
  pub uname : Bytes
  pub gname : Bytes
  pub devmajor : Bytes
  pub devminor : Bytes
  pub prefix : Bytes
  pub padding : Bytes

-- The fields as they lie in memory.
unfoldable pub to_bytes : Header → Bytes
to_bytes h =
    h.name
    ++ (h.mode
        ++ (h.uid
            ++ (h.gid
                ++ (h.size
                    ++ (h.mtime
                        ++ (h.chksum
                            ++ (h.typeflag
                                ∷ (h.linkname
                                    ++ (h.magic
                                        ++ (h.version
                                            ++ (h.uname
                                                ++ (h.gname
                                                    ++ (h.devmajor
                                                        ++ (h.devminor
                                                            ++ (h.prefix ++ h.padding)))))))))))))))

abbrev head_or : Bytes → ℕ
head_or [] = 0
head_or (x ∷ s) = x

-- The same memory read as a header.
unfoldable pub of_bytes : Bytes → Header
of_bytes b = record {
  name = take 100 b;
  mode = take 8 (drop 100 b);
  uid = take 8 (drop 108 b);
  gid = take 8 (drop 116 b);
  size = take 12 (drop 124 b);
  mtime = take 12 (drop 136 b);
  chksum = take 8 (drop 148 b);
  typeflag = head_or (drop 156 b);
  linkname = take 100 (drop 157 b);
  magic = take 6 (drop 257 b);
  version = take 2 (drop 263 b);
  uname = take 32 (drop 265 b);
  gname = take 32 (drop 297 b);
  devmajor = take 8 (drop 329 b);
  devminor = take 8 (drop 337 b);
  prefix = take 155 (drop 345 b);
  padding = take 12 (drop 500 b);
}

-- `Header {}`.
abbrev pub empty : Header
empty = record {
  name = replicate 100 0;
  mode = replicate 8 0;
  uid = replicate 8 0;
  gid = replicate 8 0;
  size = replicate 12 0;
  mtime = replicate 12 0;
  chksum = replicate 8 0;
  typeflag = 0;
  linkname = replicate 100 0;
  magic = replicate 6 0;
  version = replicate 2 0;
  uname = replicate 32 0;
  gname = replicate 32 0;
  devmajor = replicate 8 0;
  devminor = replicate 8 0;
  prefix = replicate 155 0;
  padding = replicate 12 0;
}

unfoldable pub unsigned_sum : Bytes → ℕ
unsigned_sum [] = 0
unsigned_sum (b ∷ s) = b + unsigned_sum s

-- A byte from 128 on counts as b - 256 in the signed sum; this is what it counts below its value.
unfoldable pub signed_excess : Bytes → ℕ
signed_excess [] = 0
signed_excess (b ∷ s) = (if ltb b 128 then 0 else 256) + signed_excess s

-- `checksum`: the unsigned sum, and how far the signed sum lies below it.
unfoldable pub checksum : Header → ℕ × ℕ
checksum h = (unsigned_sum (to_bytes h), signed_excess (to_bytes h))

-- `isNull`.
unfoldable pub is_null : Header → Bool
is_null h = list_eq (to_bytes h) (to_bytes empty)

-- `verify`: the sums are taken with spaces in the place of the checksum.
unfoldable pub verify : Header → Bool
verify h =
    let (unsigned, excess) = checksum (record h { chksum = replicate 8 b' ' }) in
    let reference = from_octal h.chksum in
    (reference == unsigned) || (reference + excess == unsigned)

-- `getName`: up to the first NUL of the field, or all of it.
unfoldable pub until_nul : Bytes → Bytes
until_nul [] = []
until_nul (c ∷ s) = if c == 0 then [] else c ∷ until_nul s

unfoldable pub get_name : Header → Bytes
get_name h = until_nul h.name

-- `getSize`; `none` is -1.
unfoldable pub get_size : Header → Option ℕ
get_size h = let s = from_octal h.size in if ltb max_file_size s then none else some s
