-- ===== src/Cdoc1/Session.antt =====
-- The work flow of `CDoc1Reader` (cdoc/CDoc1Reader.cpp): decrypt, and beginDecryption with
-- nextFile, readData and finishDecryption.
use libcdoc.Base.{
  ℕ, suc, Bytes, codes, length, get_elem?, [], ◌∷◌, ◌++◌, Bool, false, Option, none, some,
  if◌then◌else◌,
}
use libcdoc.Outcome.{
  Result, ok, is_ok, workflow_error, end_of_stream, Got, got, refused, File, file, no_file,
}
use libcdoc.Io.{Source, vector_read, vector_consumer, write_all_loop}
use libcdoc.Payload.Whole.{MultiSink}
use libcdoc.Cdoc1.Xml.{XmlReader, octet_stream, file_list, parse, is_error}
use libcdoc.Cdoc1.{Library, Cdoc1, Body, property, is_ddoc, decrypt_data}

abbrev pub parse_msg : Bytes
parse_msg = codes "Cannot parse container"

abbrev pub ddoc_msg : Bytes
ddoc_msg = codes "Failed to parse DDOC file"

module _ {S C Z : Type 0} {X : Type 0 → Type 0} (lib : Library S C Z X) (fuel : ℕ) where
  open lib use {xml, open_xml, source}

  module _ {D : Type 0} (out : MultiSink D) (is_broken : D → Bool) where
    -- The function that `decrypt` gives to decryptData, for content that is not DDoc.
    unfoldable pub copy_body :
        {T : Type 0} → Source T → T → Cdoc1 S → D → Option (Result × T × Cdoc1 S × D)
    copy_body {T = T} src t r d =
        let (name, r') = property (codes "Filename") r in
        let (opened, d') = out.open_file name none d in
        let copied : Option (Result × T × Cdoc1 S × D) =
          elim (write_all_loop src out.sink fuel 0 t d') [
            | none ↦ none
            | some (rv, t', d'') ↦
                (let (closed, d3) = out.sink.close d'' in
                  if is_error rv then some (rv, t', r', d'') else some (closed, t', r', d3))
          ] in
        if is_ok opened then copied else some (opened, t, r', d')

    unfoldable pub ddoc_body :
        {T : Type 0} → Source T → T → Cdoc1 S → D → Option (Result × T × Cdoc1 S × D)
    ddoc_body {T = T} src t r d =
        let opened : XmlReader (X T) = record { d = open_xml src t; error = false } in
        elim (parse xml out is_broken fuel opened d) [
          | none ↦ none
          | some (rv, x, d') ↦
              some
                (rv, source x.d, (if is_ok rv then r else record r { last_error = ddoc_msg }), d')
        ]

    abbrev pub consume : Body lib D
    consume = record {
      run = λ src t mime r d. if is_ddoc mime then ddoc_body src t r d else copy_body src t r d;
    }

    -- `CDoc1Reader::decrypt`.
    unfoldable pub decrypt : Bytes → Cdoc1 S → D → Option (Result × Cdoc1 S × D)
    decrypt fmk r d = decrypt_data lib consume fuel fmk r d

  -- The function that `beginDecryption` gives to decryptData.
  unfoldable pub list_ddoc :
      {T : Type 0} → Source T → T → Cdoc1 S → Option (Result × T × Cdoc1 S × Unit {0})
  list_ddoc {T = T} src t r =
      let opened : XmlReader (X T) = record { d = open_xml src t; error = false } in
      elim (parse xml file_list (λ files. false) fuel opened r.files) [
        | none ↦ none
        | some (rv, x, files) ↦ some (
          rv,
          source x.d,
          (if is_ok rv
              then record r { files = files }
              else record r { files = []; last_error = ddoc_msg }),
          tt,
        )
      ]

  unfoldable pub list_file :
      {T : Type 0} → Source T → T → Cdoc1 S → Option (Result × T × Cdoc1 S × Unit {0})
  list_file src t r =
      let (name, r') = property (codes "Filename") r in
      elim (write_all_loop src vector_consumer fuel 0 t []) [
        | none ↦ none
        | some (rv, t', bytes) ↦ some (
            if is_error rv then (rv, t', record r { last_error = parse_msg }, tt) else (
              ok,
              t',
              record r' {
                files =
                    r'.files ++ record { name = name; mime = octet_stream; content = bytes } ∷ [];
              },
              tt,
            ))
      ]

  abbrev pub collect : Body lib (Unit {0})
  collect = record {
    run = λ src t mime r u. if is_ddoc mime then list_ddoc src t r else list_file src t r;
  }

  -- `CDoc1Reader::beginDecryption`.
  unfoldable pub begin_decryption : Bytes → Cdoc1 S → Option (Result × Cdoc1 S)
  begin_decryption fmk r = elim (decrypt_data lib collect fuel fmk r tt) [
    | none ↦ none
    | some (rv, r', u) ↦ some (rv, r')
  ]

-- `f_pos + 1`.
abbrev pub advance : Option ℕ → ℕ
advance none = 0
advance (some n) = suc n

module _ {S : Type 0} where
  -- `CDoc1Reader::finishDecryption`.
  unfoldable pub finish_decryption : Cdoc1 S → Result × Cdoc1 S
  finish_decryption r = (ok, record r { src = none; files = [] })

  -- `CDoc1Reader::nextFile`.
  unfoldable pub next_file : Cdoc1 S → File × Cdoc1 S
  next_file r =
      let pos = advance r.f_pos in
      let moved : Cdoc1 S = record r { f_pos = some pos } in
      elim r.files [
        | [] ↦ (no_file workflow_error, record r { last_error = parse_msg })
        | f0 ∷ files ↦ elim (get_elem? r.files pos) [
          | none ↦ (no_file end_of_stream, moved)
          | some f ↦ (
            file f.name (some (length f.content)),
            record moved { src = some (record { bytes = f.content; ptr = 0 }) },
          )
        ]
      ]

  -- `CDoc1Reader::readData`.
  unfoldable pub read_data : ℕ → Cdoc1 S → Got (Cdoc1 S)
  read_data size r = elim r.src [
    | none ↦ refused workflow_error (record r { last_error = parse_msg })
    | some v ↦ elim (vector_read size v) [
      | refused c v' ↦ refused c (record r { src = some v' })
      | got b v' ↦ got b (record r { src = some v' })
    ]
  ]
