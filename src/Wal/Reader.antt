-- ===== src/Wal/Reader.antt =====
-- RecordDecoder of wal/format.go, which reads entries from a stream: the bytes still to come.
pub mod Entries
pub mod Loop
use warpdb.Base.{
  ℕ, ◌+◌, Bool, Option, none, some, List, [], ◌∷◌, ◌++◌, Bytes, length, take, drop, ltb,
  if◌then◌else◌,
}
use warpdb.Wal.Record.{Record}
use warpdb.Wal.Format.{Error, Decoded, entry, bad, big_endian, entry_header_size, decode_record}

-- What a call of Decode ends with. `panicked` is a slice out of range.
pub data Step : Type 0 where
  got : Record → Bytes → Step
  eof : Step
  unexpected_eof : Step
  refused : Error → Step
  panicked : Step

-- io.ReadFull of `n` bytes: io.EOF if nothing is left and something is wanted, the error
-- ErrUnexpectedEOF if too little is left.
abbrev read_full : ℕ → Bytes → (Bytes → Bytes → Step) → Step
read_full n stream next =
    if ltb (length stream) n
    then elim stream [ [] ↦ eof | _ ∷ _ ↦ unexpected_eof ]
    else next (take n stream) (drop n stream)

abbrev finish : Bytes → Decoded → Step
finish rest (entry r) = got r rest
finish rest (bad e) = refused e

-- The last part of Decode: `bodyLen` bytes more, and DecodeRecord.
unfoldable pub decode_body : Bytes → ℕ → Bytes → Step
decode_body header body_len stream =
    read_full body_len stream (λ body rest. finish rest (decode_record (header ++ body)))

-- `header[7+keyLen : 11+keyLen]` is a slice of the header, which has 19 bytes.
unfoldable pub decode_sized : Bytes → ℕ → Bytes → Step
decode_sized header key_len stream =
    if ltb entry_header_size (11 + key_len)
    then panicked
    else decode_body header (key_len + big_endian 4 (drop (7 + key_len) header)) stream

-- Decode behind the header.
unfoldable pub decode_rest : Bytes → Bytes → Step
decode_rest header stream = decode_sized header (big_endian 2 (drop 5 header)) stream

-- Decode
unfoldable pub decode : Bytes → Step
decode stream = read_full entry_header_size stream decode_rest
