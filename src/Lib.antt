-- ===== src/Lib.antt =====
-- libcdoc: the streams that carry a CDoc container's payload, and the texts around it.
--
-- A payload is encrypted with an AEAD cipher, compressed with zlib and packed as a tar archive. The
-- reader stacks one stream on another: `DecryptionSource` over the input, `ZSource` over it and
-- `TarSource` on top. The writer stacks `TarConsumer` on `ZConsumer` on `EncryptionConsumer` on the
-- output. Every stream is a `DataSource`, and every output a `DataConsumer`; here each is a record of
-- functions on a state (`Io.Source`, `Io.Sink`), and a stream over another one takes the record of the
-- one below as a parameter. A failing read keeps the state that it leaves.
--
--   Base             shared: Boolean tests, lists of bytes, bit operations on machine words
--   Outcome          the result codes of cdoc/CDoc.h
--   Io               DataSource, DataConsumer, VectorSource, VectorConsumer, skip and writeAll
--                    (cdoc/Io.h, cdoc/Io.cpp); Io/Stream is the contract of a source
--   Ct               the constant-time primitives of cdoc/utils/ct.h
--   Unpad            PKCS#1 v1.5 unpadding with implicit rejection (cdoc/Crypto.cpp:
--                    unpadPKCS1v15CT, Crypto::rsaImplicitRejectFromEM), built on Ct
--   Decrypt          DecryptionSource (cdoc/Crypto.h, cdoc/Crypto.cpp): start is the constructor, read,
--                    update_aad and close its methods
--   Encrypt          EncryptionConsumer (cdoc/Crypto.h, cdoc/Crypto.cpp)
--   Payload          the work flow of decryption of CDoc2Reader (cdoc/CDoc2Reader.cpp): beginDecryption,
--                    nextFile, readData, finishDecryption; Payload/Whole is decrypt
--   Writer           the work flow of encryption of CDoc2Writer (cdoc/CDoc2Writer.h,
--                    cdoc/CDoc2Writer.cpp): addRecipient, beginEncryption, addFile, writeData,
--                    finishEncryption; Writer/Whole is encrypt
--   Capsules         buildHeader of CDoc2Writer (cdoc/CDoc2Writer.cpp)
--   Keys             xor_data and the shares of a key (cdoc/Crypto.cpp, cdoc/CDoc2Writer.cpp,
--                    cdoc/CDoc2Reader.cpp); Keys/Unlock is getFMK (cdoc/CDoc2Reader.cpp) with the
--                    derivations of cdoc/CryptoBackend.cpp
--   Recipients       Recipient (cdoc/Recipient.h, cdoc/Recipient.cpp)
--   Zip              ZSource (cdoc/ZStream.h); Zip/Consumer is ZConsumer
--   Tar              cdoc/Tar.h and cdoc/Tar.cpp: Tar/Octal the octal fields, Tar/Header the header
--                    block, Tar/Pax the PAX records, Tar/Writer TarConsumer, Tar/Reader TarSource,
--                    Tar/Archive what the one writes and the other reads
--   Locks            Lock (cdoc/Lock.h, cdoc/Lock.cpp); Locks/Build is buildLock of cdoc/CDoc2Reader.cpp on
--                    the records of cdoc/schema/recipients.fbs, Locks/Label is parseLabel
--   Container        the constructor of CDoc2Reader and isCDoc2File (cdoc/CDoc2Reader.cpp)
--   Cdoc1            CDoc1Reader (cdoc/CDoc1Reader.cpp): getFMK, getLockForCert and decryptData;
--                    Cdoc1/Session decrypt, beginDecryption, nextFile, readData and finishDecryption,
--                    Cdoc1/Parse the constructor, Cdoc1/Xml XMLReader (cdoc/XmlReader.cpp) and
--                    DDOCReader (cdoc/DDocReader.cpp)
--   Text             cdoc/Utils.h and cdoc/Utils.cpp: Text/Hex (toHex, fromHex), Text/Parts (split, join),
--                    Text/Url (urlEncode, urlDecode), Text/Utf8 (isValidUtf8), Text/Filename
--                    (sanitiseExtractedFilename), Text/Etsi (parseEtsiRecipientId)
--
-- A byte is a natural number below 256, where a law needs that. A `result_t` is a count or a code; a
-- size of -1 is `none`. Where the code wraps, the model has the remainder by 2 ^ w.
--
-- Loops that do not follow a list have fuel. The loop of skip has a round for each block of
-- 65536 bytes and two more, that of isValidUtf8 a round for each byte, and toPaxRecord 22 rounds
-- in TarConsumer::open; to_string has a round for each unit. ZSource::read, TarSource::next and
-- writeAll take their fuel as an argument and return `none` when it runs out; for the first two
-- the results below say how much is enough. In Payload and in Writer/Whole a call whose fuel
-- runs out is `exhausted`, and one through a pointer that is null or stale is `undefined`. The
-- loop of ZConsumer over deflate takes its fuel as an argument; where the consumers of the
-- writer stand on it, an end of the fuel is the code UNSPECIFIED_ERROR. The loops of CDoc1Reader
-- over a document have fuel too; more than there are nodes is enough.
--
-- OpenSSL's cipher context, libxml2 (`Cdoc1.Xml.TextReader`), zlib's inflate and the parser that
-- flatbuffers generates are parameters: `Decrypt.Cipher`, `Encrypt.Cipher`, `Zip.Zlib`,
-- `Zip.Consumer.Deflate` and the argument `parse` of `Container.open_container`. What is asked
-- of them stands in `Decrypt.Whole.IsStreamCipher`, `Encrypt.RoundTrip.IsPair`,
-- `Zip.Limit.IsZlib` and `Zip.Consumer.Chain.IsDeflate`. The back ends, HKDF and HMAC are
-- parameters too (`Writer.Parts`, `Capsules.Services`, `Keys.Unlock.Backend`), and so are the
-- header that a writer builds and the decoder of Base64 in `Locks.Label.parse_label`.
--
-- Not modelled: what OpenSSL computes (key derivation, key wrapping, RSA, ECDH, certificates),
-- the bytes of the header, which flatbuffers builds, tickets for key shares, libxml2, the
-- writing of CDoc 1, key servers, tokens, files, configuration, logging, and the command-line
-- tool. They are calls of other libraries, of servers and of the system. Of the recipients the
-- functions that make them are left out.
pub mod Base
pub mod Capsules
pub mod Cdoc1
pub mod Container
pub mod Ct
pub mod Decrypt
pub mod Encrypt
pub mod Io
pub mod Keys
pub mod Locks
pub mod Outcome
pub mod Payload
pub mod Recipients
pub mod Tar
pub mod Text
pub mod Unpad
pub mod Writer
pub mod Zip
