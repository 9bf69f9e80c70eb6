-- ===== src/Cdoc1/Xml.antt =====
-- `XMLReader` of cdoc/XmlReader.h and cdoc/XmlReader.cpp over libxml2, and `DDOCReader` of
-- cdoc/DDocReader.h and cdoc/DDocReader.cpp.
use libcdoc.Base.{
  ℕ, zero, suc, Bytes, codes, length, List, [], ◌∷◌, ◌++◌, Bool, true, false, not, Option, none,
  some, list_eq, if◌then◌else◌,
}
use libcdoc.Outcome.{Result, count, fail, ok, is_ok, io_error, is_negative}
use libcdoc.Payload.Whole.{MultiSink}

-- What xmlTextReaderRead returns: 1, 0 or a negative number.
pub data Advance : Type 0 where
  node no_node bad_document : Advance

pub data NodeType : Type 0 where
  end_element document_type entity_reference other_node : NodeType

-- What `XMLReader` uses of an xmlTextReader. `is_null` is a reader that could not be made; the
-- texts are `none` for a null pointer. `decode_base64` is Crypto::decodeBase64, which stands on
-- OpenSSL.
pub record TextReader (X : Type 0) : Type 0 where
  pub is_null : X → Bool
  pub advance : X → Advance × X
  pub node_type : X → NodeType
  pub local_name : X → Option Bytes
  pub get_attribute : Bytes → X → Option Bytes
  pub value : X → Option Bytes
  pub decode_base64 : Option Bytes → Bytes

pub record XmlReader (X : Type 0) : Type 0 where
  pub d : X
  pub error : Bool

-- `tostring`.
unfoldable pub to_string : Option Bytes → Bytes
to_string none = []
to_string (some s) = s

abbrev pub is_reference : NodeType → Bool
is_reference entity_reference = true
is_reference _ = false

-- `result < 0`.
abbrev pub is_error : Result → Bool
is_error (count n) = false
is_error (fail c) = is_negative c

-- The end of `XMLReader::read`, from what xmlTextReaderRead returned and the node it came to.
unfoldable pub arrived : {X : Type 0} → Advance → NodeType → X → XmlReader X → Bool × XmlReader X
arrived no_node t d r = (false, record { d = d; error = false })
arrived bad_document t d r = (false, record { d = d; error = true })
arrived node document_type d r = (false, record { d = d; error = true })
arrived node entity_reference d r = (false, record { d = d; error = true })
arrived node end_element d r = (true, record r { d = d })
arrived node other_node d r = (true, record r { d = d })

module _ {X : Type 0} (lib : TextReader X) where
  open lib use {is_null, advance, node_type, local_name, get_attribute, value, decode_base64}

  unfoldable pub attribute : Bytes → XmlReader X → Bytes
  attribute attr r = if is_null r.d then [] else to_string (get_attribute attr r.d)

  unfoldable pub is_end_element : XmlReader X → Bool
  is_end_element r =
      if is_null r.d then false else elim (node_type r.d) [ end_element ↦ true | _ ↦ false ]

  unfoldable pub is_element : Bytes → XmlReader X → Bool
  is_element name r =
      if is_null r.d
      then false
      else elim (local_name r.d) [ none ↦ false | some s ↦ list_eq s name ]

  -- `XMLReader::read`.
  unfoldable pub read : XmlReader X → Bool × XmlReader X
  read r =
      let (result, d) = advance r.d in
      if is_null r.d then (false, r) else arrived result (node_type d) d r

  unfoldable pub read_base64 : XmlReader X → Bytes × XmlReader X
  read_base64 r =
      let d = (advance r.d).1 in
      if is_null r.d then ([], r) else (
        (if is_reference (node_type d) then [] else decode_base64 (value d)),
        record r { d = d },
      )

  unfoldable pub read_text : XmlReader X → Bytes × XmlReader X
  read_text r =
      let d = (advance r.d).1 in
      if is_null r.d
      then ([], r)
      else ((if is_reference (node_type d) then [] else to_string (value d)), record r { d = d })

  module _ {D : Type 0} (out : MultiSink D) (is_broken : D → Bool) where
    -- One file of `DDOCReader::parse`: `some` is a result that ends it.
    unfoldable pub put_file : Bytes → Bytes → D → Option Result × D
    put_file name content d =
        let (opened, d1) = out.open_file name (some (length content)) d in
        let (written, d2) = out.sink.write content d1 in
        let (closed, d3) = out.sink.close d2 in
        if not (is_ok opened)
        then (some opened, d1)
        else if is_error written
        then (some written, d2)
        else if not (is_ok closed)
        then (some closed, d3)
        else (none, d3)

    -- `DDOCReader::parse`, with fuel for its loop; `is_broken` is `isError` of the consumer.
    unfoldable pub parse : ℕ → XmlReader X → D → Option (Result × XmlReader X × D)
    parse zero r d = none
    parse (suc fuel) r d =
        let (more, r') = read r in
        let (content, r'') = read_base64 r' in
        let (stop, d') = put_file (attribute (codes "Filename") r') content d in
        let passed = parse fuel r' d in
        let rest = parse fuel r'' d' in
        if not more
        then some (if is_broken d then fail io_error else ok, r', d)
        else if is_end_element r'
        then passed
        else if is_element (codes "DataFile") r'
        then elim stop [ some c ↦ some (c, r'', d') | none ↦ rest ]
        else passed

-- `DDOCReader::File`.
pub record DdocFile : Type 0 where
  pub name : Bytes
  pub mime : Bytes
  pub content : Bytes

abbrev pub octet_stream : Bytes
octet_stream = codes "application/octet-stream"

-- `files.back().data.insert`.
unfoldable pub append_last : Bytes → List DdocFile → List DdocFile
append_last src [] = []
append_last src (f ∷ []) = record f { content = f.content ++ src } ∷ []
append_last src (f ∷ g ∷ files) = f ∷ append_last src (g ∷ files)

-- `DDocFileListConsumer`; its `isError` is false.
abbrev pub file_list : MultiSink (List DdocFile)
file_list = record {
  sink = record {
    write = λ src files. (count (length src), append_last src files);
    close = λ files. (ok, files);
  };
  open_file = λ name size files.
      (ok, files ++ record { name = name; mime = octet_stream; content = [] } ∷ []);
}
