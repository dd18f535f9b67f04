-- ===== src/Wal/Format/RoundTrip.antt =====
-- DecodeRecord reads back what EncodeRecord writes.
use warpdb.Base.{
  to_int64, ℕ, ◌+◌, ◌%◌, ◌^◌, ◌<◌, ◌≤◌, ◌≡◌, ◌∙◌, ◌++◌, Bytes, ℤ, pos, negsuc, IsInt64, length,
  drop, length-append, take-length-append, drop-length-append, arith,
}
use warpdb.Wal.Record.{Record}
use warpdb.Wal.Format.{
  put_uint16, put_uint32, put_uint64, big_endian, to_uint64, crc32, entry_header_size, encode_body,
  encode_record, entry, decode_expiry, decode_value, decode_value_length, decode_key, decode_record,
}

-- The fields of a record fit their places in the entry.
pub record Fits (r : Record) : Type 0 where
  pub key_fits : length r.key < 2 ^ 16
  pub value_fits : length r.value < 2 ^ 32
  pub expiry_fits : IsInt64 r.expire_at

pub read_uint16 : (n : ℕ) (rest : Bytes) → n < 2 ^ 16 → big_endian 2 (put_uint16 n ++ rest) ≡ n
read_uint16 n rest h = omega arith

pub read_uint32 : (n : ℕ) (rest : Bytes) → n < 2 ^ 32 → big_endian 4 (put_uint32 n ++ rest) ≡ n
read_uint32 n rest h = omega arith

pub read_uint64 : (n : ℕ) → n < 2 ^ 64 → big_endian 8 (put_uint64 n) ≡ n
read_uint64 n h = omega arith

pub to_int64-to_uint64 : (z : ℤ) → IsInt64 z → to_int64 (to_uint64 z) ≡ z
to_int64-to_uint64 (pos n) h = ground arith
to_int64-to_uint64 (negsuc n) h = ground arith

to_uint64_lt : (z : ℤ) → to_uint64 z < 2 ^ 64
to_uint64_lt (pos n) = omega arith
to_uint64_lt (negsuc n) = omega arith

crc32_lt : (bs : Bytes) → crc32 bs < 2 ^ 32
unfolding crc32
crc32_lt bs = omega arith

decode_expiry-put :
    (op : ℕ) (key value : Bytes) (z : ℤ)
    → IsInt64 z
    → decode_expiry op key value (put_uint64 (to_uint64 z))
      ≡ entry (record { op = op; key = key; value = value; expire_at = z })
unfolding decode_expiry
decode_expiry-put op key value z h =
    rw (read_uint64 (to_uint64 z) (to_uint64_lt z), to_int64-to_uint64 z h)

decode_value-append :
    (op : ℕ) (key value : Bytes) (rest : Bytes)
    → decode_value op key (length value) (value ++ rest) ≡ decode_expiry op key value rest
unfolding decode_value
decode_value-append op key value rest = ground (
  arith,
  length-append value rest,
  take-length-append (length value) value rest,
  drop-length-append (length value) value rest,
)

decode_value_length-put :
    (op : ℕ) (key : Bytes) (n : ℕ) (rest : Bytes)
    → n < 2 ^ 32
    → decode_value_length op key (put_uint32 n ++ rest) ≡ decode_value op key n rest
unfolding decode_value_length
decode_value_length-put op key n rest h = rw (read_uint32 n rest h) (ground arith)

decode_key-append :
    (op : ℕ) (key rest : Bytes)
    → decode_key op (length key) (key ++ rest) ≡ decode_value_length op key rest
unfolding decode_key
decode_key-append op key rest = ground (
  arith,
  length-append key rest,
  take-length-append (length key) key rest,
  drop-length-append (length key) key rest,
)

-- An entry has 19 bytes besides its key and its value.
pub length-encode_record :
    (r : Record) → length (encode_record r) ≡ entry_header_size + length r.key + length r.value
unfolding encode_record encode_body
length-encode_record r = ground (
  arith,
  length-append r.key
      (put_uint32 (length r.value % 2 ^ 32) ++ (r.value ++ put_uint64 (to_uint64 r.expire_at))),
  length-append r.value (put_uint64 (to_uint64 r.expire_at)),
)

-- Decoding the fields that EncodeRecord writes behind the checksum.
decode_body :
    (r : Record)
    → Fits r
    → decode_key
        (big_endian 1 (encode_body r))
        (big_endian 2 (drop 1 (encode_body r)))
        (drop 3 (encode_body r))
      ≡ entry r
unfolding encode_body
decode_body r fits =
    rw (op_read, key_length_read)
      (decode_key-append r.op r.key _
        ∙ decode_value_length-put r.op r.key (length r.value % 2 ^ 32) _ (omega arith)
        ∙ rw value_length (decode_value-append r.op r.key r.value _)
        ∙ decode_expiry-put r.op r.key r.value r.expire_at fits.expiry_fits)
  where
    op_read : 0 + r.op ≡ r.op
    op_read = omega arith

    key_length_read : big_endian 2 (put_uint16 (length r.key % 2 ^ 16)) ≡ length r.key
    key_length_read = omega arith

    value_length : length r.value % 2 ^ 32 ≡ length r.value
    value_length = omega arith

-- An entry whose checksum is that of its body is decoded from the operation code on.
decode_checked :
    (body : Bytes)
    → 15 ≤ length body
    → decode_record (put_uint32 (crc32 body) ++ body)
      ≡ decode_key (big_endian 1 body) (big_endian 2 (drop 1 body)) (drop 3 body)
unfolding decode_record
decode_checked body h = ground (arith, crc32_lt body)

length-encode_body : (r : Record) → length (encode_body r) ≡ 15 + length r.key + length r.value
length-encode_body r = unfold encode_record in omega (arith, length-encode_record r)

-- DecodeRecord returns the record that EncodeRecord was given, if its key is shorter than 2^16
-- bytes, its value shorter than 2^32, and its expiry an int64.
pub decode_record-encode_record : (r : Record) → Fits r → decode_record (encode_record r) ≡ entry r
unfolding encode_record
decode_record-encode_record r fits =
    decode_checked (encode_body r) (omega (arith, length-encode_body r)) ∙ decode_body r fits
