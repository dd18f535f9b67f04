-- ===== src/Wal/Format.antt =====
-- The bytes of a log entry: EncodeRecord and DecodeRecord of wal/format.go, and what they use of
-- Go's encoding/binary and hash/crc32. Integers are big-endian.
pub mod RoundTrip
use Prim.Native.Nat.{bit_xor}
use warpdb.Base.{
  to_int64, ℕ, zero, suc, ◌+◌, ◌-◌, ◌*◌, ◌/◌, ◌%◌, ◌^◌, Bool, Option, none, some, List, [], ◌∷◌,
  ◌++◌, foldl, Bytes, ℤ, pos, negsuc, length, take, drop, ltb, ◌==◌, if◌then◌else◌,
}
use warpdb.Wal.Record.{Record}

-- PutUint16, PutUint32 and PutUint64
abbrev pub put_uint16 : ℕ → Bytes
put_uint16 n = (n / 2 ^ 8 % 256) ∷ (n % 256) ∷ []

abbrev pub put_uint32 : ℕ → Bytes
put_uint32 n = (n / 2 ^ 24 % 256) ∷ (n / 2 ^ 16 % 256) ∷ put_uint16 n

abbrev pub put_uint64 : ℕ → Bytes
put_uint64 n =
    (n / 2 ^ 56 % 256) ∷ (n / 2 ^ 48 % 256) ∷ (n / 2 ^ 40 % 256) ∷ (n / 2 ^ 32 % 256) ∷ put_uint32 n

-- Uint16, Uint32 and Uint64 of the first `w` bytes, which the callers have checked for.
abbrev pub big_endian : ℕ → Bytes → ℕ
big_endian w bs = foldl (λ acc b. acc * 256 + b) 0 (take w bs)

-- uint64(x)
abbrev pub to_uint64 : ℤ → ℕ
to_uint64 (pos n) = n % 2 ^ 64
to_uint64 (negsuc n) = 2 ^ 64 - 1 - n % 2 ^ 64

-- crc32.Checksum with the IEEE table, bit by bit.
unfoldable pub crc_bits : ℕ → ℕ → ℕ
crc_bits zero c = c
crc_bits (suc n) c = crc_bits n (if c % 2 == 1 then bit_xor (c / 2) 0xEDB8_8320 else c / 2)

unfoldable pub crc32 : Bytes → ℕ
unfolding crc_bits
crc32 bs = bit_xor (foldl (λ c b. crc_bits 8 (bit_xor c b)) 0xFFFF_FFFF bs) 0xFFFF_FFFF % 2 ^ 32

-- CRC(4) + Op(1) + KeyLen(2) + ValLen(4) + ExpireAt(8)
abbrev pub entry_header_size : ℕ
entry_header_size = 4 + 1 + 2 + 4 + 8

-- What follows the checksum.
unfoldable pub encode_body : Record → Bytes
encode_body r =
    r.op
    ∷ (put_uint16 (length r.key % 2 ^ 16)
        ++ (r.key
            ++ (put_uint32 (length r.value % 2 ^ 32)
                ++ (r.value ++ put_uint64 (to_uint64 r.expire_at)))))

-- EncodeRecord
unfoldable pub encode_record : Record → Bytes
encode_record r = let body = encode_body r in put_uint32 (crc32 body) ++ body

pub data Error : Type 0 where
  short_entry : Error
  checksum_mismatch : Error

-- Go's (Record, error).
pub data Decoded : Type 0 where
  entry : Record → Decoded
  bad : Error → Decoded

-- DecodeRecord from the expiry on; `rest` is `data[offset:]`, here and below.
unfoldable pub decode_expiry : ℕ → Bytes → Bytes → Bytes → Decoded
decode_expiry op key value rest =
    if ltb (length rest) 8
    then bad short_entry
    else entry
        (record { op = op; key = key; value = value; expire_at = to_int64 (big_endian 8 rest) })

-- DecodeRecord from the value on, whose length is `val_len`.
unfoldable pub decode_value : ℕ → Bytes → ℕ → Bytes → Decoded
decode_value op key val_len rest =
    if ltb (length rest) val_len
    then bad short_entry
    else decode_expiry op key (take val_len rest) (drop val_len rest)

-- DecodeRecord from the length of the value on.
unfoldable pub decode_value_length : ℕ → Bytes → Bytes → Decoded
decode_value_length op key rest =
    if ltb (length rest) 4
    then bad short_entry
    else decode_value op key (big_endian 4 rest) (drop 4 rest)

-- DecodeRecord from the key on, whose length is `key_len`.
unfoldable pub decode_key : ℕ → ℕ → Bytes → Decoded
decode_key op key_len rest =
    if ltb (length rest) key_len
    then bad short_entry
    else decode_value_length op (take key_len rest) (drop key_len rest)

-- DecodeRecord
unfoldable pub decode_record : Bytes → Decoded
decode_record bytes =
    if ltb (length bytes) entry_header_size
    then bad short_entry
    else if big_endian 4 bytes == crc32 (drop 4 bytes)
    then decode_key (big_endian 1 (drop 4 bytes)) (big_endian 2 (drop 5 bytes)) (drop 7 bytes)
    else bad checksum_mismatch
