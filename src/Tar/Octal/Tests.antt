-- ===== src/Tar/Octal/Tests.antt =====
-- A size in a field, and its padding.
use libcdoc.Base.{◌+◌, ◌%◌, ◌<◌, ◌≡◌}
use libcdoc.Tar.Octal.{block_size, padding}
use libcdoc.Tar.Octal.Laws.{padding_lem}

padding_lem_example : ((700 + padding 700) % block_size ≡ 0) × (padding 700 < block_size)
padding_lem_example = padding_lem 700
