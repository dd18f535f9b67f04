-- ===== src/Wal/Reader/Loop.antt =====
-- The loop that goes through a segment with a RecordDecoder, as replaySegment and Compact of
-- wal/wal.go have it: `apply` is what it does with a record.
use warpdb.Base.{ℕ, zero, suc, List, [], ◌∷◌, Bytes, length}
use warpdb.Wal.Record.{Record}
use warpdb.Wal.Reader.{Step, got, eof, unexpected_eof, refused, panicked, decode}

-- How it ends: at the end of the input, with a decoding error, or by a panic. `out_of_fuel` belongs
-- to the model alone.
pub data Ended (A : Type 0) : Type 0 where
  ended : A → Ended A
  decode_error : Ended A
  crashed : Ended A
  out_of_fuel : Ended A

module _ {A : Type 0} (apply : A → Record → A) where
  -- What the loop does with the result of one call of Decode; `next` is the rest of the loop.
  unfoldable pub read_step : (Bytes → A → Ended A) → A → Step → Ended A
  read_step next a (got r rest) = next rest (apply a r)
  read_step next a eof = ended a
  read_step next a unexpected_eof = decode_error
  read_step next a (refused e) = decode_error
  read_step next a panicked = crashed

  unfoldable pub read_loop : ℕ → Bytes → A → Ended A
  read_loop zero stream a = out_of_fuel
  read_loop (suc fuel) stream a = read_step (read_loop fuel) a (decode stream)

  -- One segment. An entry has 19 bytes at least, so the length of the segment is enough fuel.
  unfoldable pub read_segment : Bytes → A → Ended A
  read_segment segment = read_loop (suc (length segment)) segment

  -- The segments of a manifest in order, up to an error.
  unfoldable pub read_segments : List Bytes → A → Ended A
  read_segments [] a = ended a
  read_segments (segment ∷ segments) a = elim (read_segment segment a) [
    | ended a' ↦ read_segments segments a'
    | decode_error ↦ decode_error
    | crashed ↦ crashed
    | out_of_fuel ↦ out_of_fuel
  ]
