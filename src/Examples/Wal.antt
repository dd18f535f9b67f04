-- ===== src/Examples/Wal.antt =====
-- The theorems on wal/ at concrete records and segments.
use warpdb.Base.{true, false, take, ◌≡◌, refl, none, some, [], ◌∷◌, ◌++◌, codes, pos, arith}
use warpdb.Store.{new_store}
use warpdb.Wal.Op
use warpdb.Wal.Record.{Record, make_record, hash_field_and_value, cut_nul}
use warpdb.Wal.Record.Fields.{hash_field_and_value-make_record}
use warpdb.Wal.Format.{crc32, encode_record, decode_record, entry}
use warpdb.Wal.Format.RoundTrip.{Fits, length-encode_record, decode_record-encode_record}
use warpdb.Wal.Reader.{decode, panicked}
use warpdb.Wal.Reader.Entries.{decode_panics}
use warpdb.Wal.Replay.{replay_segment, replay_records}
use warpdb.Wal.Reader.Loop.{ended, crashed, decode_error}
use warpdb.Wal.Log.{new_wal, flush_batch, fails_at}
use warpdb.Wal.Log.Failures.{flush_batch-fails}
use warpdb.Wal.Replay.Torn.{replay_segment_torn}
use warpdb.Wal.Replay.Segments.{
  encode_all, IsReadable, replay_segment-encode_all, replay_segment_crashes,
}

crc32_check : crc32 (codes "123456789") ≡ 3421780262
unfolding crc32
crc32_check = refl

abbrev short_record : Record
short_record = record { op = 1; key = codes "counter"; value = codes "41"; expire_at = pos 0 }

abbrev long_record : Record
long_record = record { op = 1; key = codes "session:1"; value = codes "x"; expire_at = pos 0 }

short-Fits : Fits short_record
short-Fits = record { key_fits = omega arith; value_fits = omega arith; expiry_fits = omega arith }

long-Fits : Fits long_record
long-Fits = record { key_fits = omega arith; value_fits = omega arith; expiry_fits = omega arith }

short-IsReadable : IsReadable short_record
short-IsReadable = record { fits = short-Fits; short_key = omega arith }

decode_record-encode_record_example :
    decode_record (encode_record short_record) ≡ entry short_record
decode_record-encode_record_example = decode_record-encode_record short_record short-Fits

decode_panics_example : decode (encode_record long_record ++ []) ≡ panicked
decode_panics_example = decode_panics long_record [] long-Fits (omega arith)

replay_segment-encode_all_example :
    replay_segment 0 (encode_all (short_record ∷ [])) new_store
    ≡ ended (replay_records 0 (short_record ∷ []) new_store)
replay_segment-encode_all_example =
    replay_segment-encode_all 0 (short_record ∷ []) new_store (short-IsReadable, tt)

replay_segment_crashes_example :
    replay_segment 0 (encode_all (short_record ∷ []) ++ (encode_record long_record ++ [])) new_store
    ≡ crashed
replay_segment_crashes_example =
    replay_segment_crashes 0 (short_record ∷ []) long_record [] new_store (short-IsReadable, tt)
      long-Fits (omega arith)

hash_field_and_value-make_record_example :
    hash_field_and_value (make_record Op.hset (codes "h" ∷ (102 ∷ 0 ∷ 103 ∷ []) ∷ codes "v" ∷ []))
    ≡ (elim (cut_nul (102 ∷ 0 ∷ 103 ∷ [])) [
      | none ↦ (102 ∷ 0 ∷ 103 ∷ [], codes "v")
      | some (a, b) ↦ (a, b ++ (0 ∷ codes "v"))
    ])
hash_field_and_value-make_record_example =
    hash_field_and_value-make_record (codes "h") (102 ∷ 0 ∷ 103 ∷ []) (codes "v")

-- The entry cut after 20 of its 28 bytes.
replay_segment_torn_example :
    replay_segment 0
      (encode_all (short_record ∷ []) ++ take 20 (encode_record short_record))
      new_store
    ≡ decode_error
replay_segment_torn_example =
    replay_segment_torn 0 20 (short_record ∷ []) short_record new_store (short-IsReadable, tt)
      short-IsReadable (omega arith) (omega (arith, length-encode_record short_record))

flush_batch-fails_example :
    ((flush_batch (fails_at 1 3) true (short_record ∷ long_record ∷ []) (new_wal 64)).1 ≡ false)
    × ((flush_batch (fails_at 1 3) true (short_record ∷ long_record ∷ []) (new_wal 64)).0.files
          (new_wal 64).seq
        ≡ (new_wal 64).files (new_wal 64).seq
          ++ (encode_all (take 1 (short_record ∷ long_record ∷ []))
              ++ take 3 (encode_record long_record)))
flush_batch-fails_example =
    flush_batch-fails 1 3 true (short_record ∷ long_record ∷ []) long_record (new_wal 64) refl
