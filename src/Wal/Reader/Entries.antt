-- ===== src/Wal/Reader/Entries.antt =====
-- RecordDecoder on the entries that EncodeRecord writes. It looks for the length of the value in
-- the first 19 bytes of the entry, where it stands only if the key has 8 bytes at most.
use warpdb.Base.{
  ℕ, ◌+◌, ◌-◌, ◌*◌, ◌<◌, ◌≤◌, ◌≡◌, refl, ◌∙◌, ap, sym, ◌++◌, Bytes, foldl, length, take, drop,
  length-append, take-length-append, drop-length-append, length-drop, take-append-take-drop,
  drop-drop, drop-take, take-take, arith, [], ◌∷◌, if◌then◌else◌, ◌==◌, ltb, Bool-cases, true,
  false, ◌⊎◌, length-take, inl, inr,
}
use mathlib.Core.Path.{ap₂}
use mathlib.Core.List.{append_assoc, append-nil}
use warpdb.Wal.Record.{Record}
use warpdb.Wal.Format.{big_endian, entry_header_size, encode_body, encode_record, decode_record}
use warpdb.Wal.Format.RoundTrip.{Fits, length-encode_record, decode_record-encode_record}
use warpdb.Wal.Reader.{
  got, eof, unexpected_eof, panicked, finish, decode_sized, decode_body, decode_rest, decode,
}

-- Decode with the header read, where the rest of the entry is there too.
decode_sized_short :
    (header : Bytes) (k v : ℕ) (stream : Bytes)
    → k ≤ 8
    → big_endian 4 (drop (7 + k) header) ≡ v
    → k + v ≤ length stream
    → decode_sized header k stream
      ≡ finish (drop (k + v) stream) (decode_record (header ++ take (k + v) stream))
unfolding decode_sized decode_body
decode_sized_short header k v stream hk ev h = ground (arith, ev)

decode_header :
    (stream : Bytes)
    → entry_header_size ≤ length stream
    → decode stream
      ≡ decode_sized
          (take entry_header_size stream)
          (big_endian 2 (drop 5 (take entry_header_size stream)))
          (drop entry_header_size stream)
unfolding decode decode_rest
decode_header stream h = ground arith

-- Decode on a stream that holds a whole entry with a short key.
decode_framed :
    (stream : Bytes) (k v : ℕ)
    → big_endian 2 (drop 5 (take entry_header_size stream)) ≡ k
    → k ≤ 8
    → big_endian 4 (drop (7 + k) (take entry_header_size stream)) ≡ v
    → entry_header_size + (k + v) ≤ length stream
    → decode stream
      ≡ finish
          (drop (entry_header_size + (k + v)) stream)
          (decode_record (take (entry_header_size + (k + v)) stream))
decode_framed stream k v ek hk ev h =
    decode_header stream (omega arith)
    ∙ rw ek (
        decode_sized_short (take entry_header_size stream) k v (drop entry_header_size stream) hk ev
          (omega (arith, length-drop entry_header_size stream)))
    ∙ ap₂ (λ a b. finish a (decode_record b)) (drop-drop entry_header_size (k + v) stream)
        (take-append-take-drop entry_header_size (k + v) stream)

-- The key's length and the value's length as Decode reads them from the first bytes of an entry.
header_key_length :
    (r : Record) (rest : Bytes)
    → Fits r
    → big_endian 2 (drop 5 (take entry_header_size (encode_record r ++ rest))) ≡ length r.key
unfolding encode_record encode_body
header_key_length r rest fits = omega arith

-- The first four bytes of what follows the key, where twelve bytes from the key on are at hand.
after_key :
    (n : ℕ) (key tail : Bytes)
    → length key ≡ n
    → n ≤ 8
    → big_endian 4 (drop n (take 12 (key ++ tail))) ≡ big_endian 4 tail
after_key n key tail e h =
    let twelve : 12 ≡ n + (4 + (8 - n)) = omega arith in
    ap (λ t. big_endian 4 (drop n (take t (key ++ tail)))) twelve
    ∙ ap (big_endian 4) (drop-take n (4 + (8 - n)) (key ++ tail))
    ∙ ap (λ t. big_endian 4 (take (4 + (8 - n)) t)) (drop-length-append n key tail e)
    ∙ ap (foldl (λ acc b. acc * 256 + b) 0) (take-take 4 (8 - n) tail)

header_value_length :
    (r : Record) (rest : Bytes)
    → Fits r
    → length r.key ≤ 8
    → big_endian 4 (drop (7 + length r.key) (take entry_header_size (encode_record r ++ rest)))
      ≡ length r.value
unfolding encode_record encode_body
header_value_length r rest fits short =
    ap (big_endian 4) (sym (drop-drop 7 (length r.key) _))
    ∙ rw append_assoc (after_key (length r.key) r.key _ refl short ∙ (omega arith))

-- RecordDecoder.Decode reads one entry that EncodeRecord wrote and leaves what follows it, if the
-- record fits and its key has 8 bytes at most.
pub decode-encode_record :
    (r : Record) (rest : Bytes)
    → Fits r
    → length r.key ≤ 8
    → decode (encode_record r ++ rest) ≡ got r rest
decode-encode_record r rest fits short =
    decode_framed (encode_record r ++ rest) (length r.key) (length r.value)
      (header_key_length r rest fits) short (header_value_length r rest fits short)
      (omega (arith, length-append (encode_record r) rest, size))
    ∙ rw (
      take-length-append _ (encode_record r) rest size,
      drop-length-append _ (encode_record r) rest size,
      decode_record-encode_record r fits,
    )
  where
    size : length (encode_record r) ≡ entry_header_size + (length r.key + length r.value)
    size = omega (arith, length-encode_record r)

-- Decode panics on every entry whose key is longer.
pub decode_panics :
    (r : Record) (rest : Bytes)
    → Fits r
    → 8 < length r.key
    → decode (encode_record r ++ rest) ≡ panicked
decode_panics r rest fits long =
    decode_header (encode_record r ++ rest)
      (omega (arith, length-append (encode_record r) rest, length-encode_record r))
    ∙ rw (header_key_length r rest fits) (unfold decode_sized in ground arith)

-- Decode with the header of an entry read, where the rest of the entry is cut short.
decode_sized_cut :
    (header : Bytes) (k v : ℕ) (stream : Bytes)
    → k ≤ 8
    → big_endian 4 (drop (7 + k) header) ≡ v
    → length stream < k + v
    → decode_sized header k stream ≡ (if length stream == 0 then eof else unexpected_eof)
unfolding decode_sized decode_body
decode_sized_cut header k v [] hk ev h = ground (arith, ev)
decode_sized_cut header k v (c ∷ stream) hk ev h = ground (arith, ev)

decode_framed_cut :
    (stream : Bytes) (k v : ℕ)
    → big_endian 2 (drop 5 (take entry_header_size stream)) ≡ k
    → k ≤ 8
    → big_endian 4 (drop (7 + k) (take entry_header_size stream)) ≡ v
    → entry_header_size ≤ length stream
    → length stream < entry_header_size + (k + v)
    → decode stream ≡ (if length stream == entry_header_size then eof else unexpected_eof)
decode_framed_cut stream k v ek hk ev h cut =
    decode_header stream h
    ∙ rw ek (
        decode_sized_cut (take entry_header_size stream) k v (drop entry_header_size stream) hk ev
          (omega (arith, length-drop entry_header_size stream))
        ∙ ground (arith, length-drop entry_header_size stream))

-- Decode of a part of a header.
decode_part :
    (stream : Bytes)
    → 0 < length stream
    → length stream < entry_header_size
    → decode stream ≡ unexpected_eof
unfolding decode
decode_part [] h k = absurd (omega arith)
decode_part (c ∷ s) h k = ground arith

-- Decode of a part of an entry: only where the header is there and nothing else does it look like
-- the end of the stream.
pub decode_cut :
    (r : Record) (n : ℕ)
    → Fits r
    → length r.key ≤ 8
    → 0 < n
    → n < length (encode_record r)
    → decode (take n (encode_record r)) ≡ (if n == entry_header_size then eof else unexpected_eof)
decode_cut r n fits short some_bytes cut = at (Bool-cases (ltb n entry_header_size))
  where
    stream : Bytes
    stream = take n (encode_record r)

    size : length stream ≡ n
    size = omega (arith, length-take n (encode_record r))

    header :
        entry_header_size ≤ n
        → take entry_header_size stream ≡ take entry_header_size (encode_record r ++ [])
    header h =
        ap (λ m. take entry_header_size (take m (encode_record r))) (omega arith)
        ∙ take-take entry_header_size (n - entry_header_size) (encode_record r)
        ∙ ap (take entry_header_size) (sym (append-nil (encode_record r)))

    at :
        (ltb n entry_header_size ≡ true) ⊎ (ltb n entry_header_size ≡ false)
        → decode stream ≡ (if n == entry_header_size then eof else unexpected_eof)
    at (inl part) = decode_part stream (omega (arith, size)) (ground (arith, size)) ∙ ground arith
    at (inr whole) =
        let h : entry_header_size ≤ n = ground arith in
        decode_framed_cut stream (length r.key) (length r.value)
          (ap (λ t. big_endian 2 (drop 5 t)) (header h) ∙ header_key_length r [] fits) short
          (ap (λ t. big_endian 4 (drop (7 + length r.key) t)) (header h)
            ∙ header_value_length r [] fits short)
          (omega (arith, size)) (omega (arith, size, length-encode_record r))
        ∙ ap (λ m. if m == entry_header_size then eof else unexpected_eof) size
