-- ===== src/Io/Tests.antt =====
-- A source in memory that is skipped.
use libcdoc.Base.{codes, ◌≡◌}
use libcdoc.Outcome.{count}
use libcdoc.Io.{VectorSource, vector_source, skip}
use libcdoc.Io.Stream.{skip-vector_source}

abbrev text : VectorSource
text = record { bytes = codes "0123456789"; ptr = 4 }

skip-vector_source_example : skip vector_source 70000 text ≡ (count 6, record text { ptr = 10 })
skip-vector_source_example = skip-vector_source 70000 text
