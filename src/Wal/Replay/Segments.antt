-- ===== src/Wal/Replay/Segments.antt =====
-- Replay of segments that hold whole entries.
use warpdb.Base.{
  ℕ, suc, ◌+◌, ◌-◌, ◌<◌, ◌≤◌, ◌≡◌, refl, ◌∙◌, ap, List, [], ◌∷◌, ◌++◌, Bytes, All, length,
  length-append, arith, foldl,
}
use mathlib.Core.Path.{ap₂, sym}
use mathlib.Core.List.{append_assoc, append-nil}
use warpdb.Store.{Store}
use warpdb.Wal.Record.{Record}
use warpdb.Wal.Format.{encode_record}
use warpdb.Wal.Format.RoundTrip.{Fits, length-encode_record}
use warpdb.Wal.Reader.{decode, got}
use warpdb.Wal.Reader.Entries.{decode-encode_record, decode_panics}
use warpdb.Wal.Reader.Loop.{ended, crashed, read_loop, read_step, read_segment}
use warpdb.Wal.Replay.{replay_record, replay_records, replay_segment}

-- The bytes that the encoder writes for some records.
unfoldable pub encode_all : List Record → Bytes
encode_all [] = []
encode_all (r ∷ rs) = encode_record r ++ encode_all rs

-- A record that RecordDecoder can read: it fits its entry, and its key has 8 bytes at most.
pub record IsReadable (r : Record) : Type 0 where
  pub fits : Fits r
  pub short_key : length r.key ≤ 8

longer : (r : Record) (rest : Bytes) → length rest < length (encode_record r ++ rest)
longer r rest = omega (arith, length-append (encode_record r) rest, length-encode_record r)

module _ {A : Type 0} (apply : A → Record → A) where
  read_loop-got :
      (fuel : ℕ) (stream rest : Bytes) (r : Record) (a : A)
      → decode stream ≡ got r rest
      → read_loop apply (suc fuel) stream a ≡ read_loop apply fuel rest (apply a r)
  unfolding read_loop read_step
  read_loop-got fuel stream rest r a h = rw h

  -- The loop applies the records at the front of the stream and goes on with the rest of it.
  pub read_loop-append :
      (fuel : ℕ) (rs : List Record) (tail : Bytes) (a : A)
      → All IsReadable rs
      → read_loop apply (length rs + fuel) (encode_all rs ++ tail) a
        ≡ read_loop apply fuel tail (foldl apply a rs)
  unfolding encode_all
  read_loop-append fuel [] tail a h = ap (λ n. read_loop apply n tail a) (omega arith)
  read_loop-append fuel (r ∷ rs) tail a (h, hs) =
      rw (append_assoc, suc_add)
        (read_loop-got (length rs + fuel) _ (encode_all rs ++ tail) r a
            (decode-encode_record r _ h.fits h.short_key)
          ∙ read_loop-append fuel rs tail (apply a r) hs)
    where
      suc_add : suc (length rs) + fuel ≡ suc (length rs + fuel)
      suc_add = omega arith

pub length-encode_all : (rs : List Record) → length rs ≤ length (encode_all rs)
unfolding encode_all
length-encode_all [] = omega arith
length-encode_all (r ∷ rs) = omega (arith, length-encode_all rs, longer r (encode_all rs))

-- The loop over a segment of such records applies them all.
pub read_segment-encode_all :
    {A : Type 0} (apply : A → Record → A) (rs : List Record) (a : A)
    → All IsReadable rs
    → read_segment apply (encode_all rs) a ≡ ended (foldl apply a rs)
unfolding read_segment
read_segment-encode_all apply rs a h =
    ap₂ (λ n b. read_loop apply n b a) enough (sym (append-nil (encode_all rs)))
    ∙ read_loop-append apply (suc (length (encode_all rs) - length rs)) rs [] a h
    ∙ (unfold read_loop read_step decode in refl)
  where
    enough : suc (length (encode_all rs)) ≡ length rs + suc (length (encode_all rs) - length rs)
    enough = omega (arith, length-encode_all rs)

-- Replaying a segment of records that fit their entries and have keys of 8 bytes at most applies
-- them in order, from whatever store, and ends without an error.
pub replay_segment-encode_all :
    (pick : ℕ) (rs : List Record) (s : Store)
    → All IsReadable rs
    → replay_segment pick (encode_all rs) s ≡ ended (replay_records pick rs s)
unfolding replay_segment replay_records
replay_segment-encode_all pick rs s h = read_segment-encode_all (replay_record pick) rs s h

-- Replay of a segment panics at the first record whose key has more than 8 bytes, whatever follows
-- it, if that record fits its entry and the records before it fit theirs and have keys of 8 bytes
-- at most.
pub replay_segment_crashes :
    (pick : ℕ) (rs : List Record) (r : Record) (rest : Bytes) (s : Store)
    → All IsReadable rs
    → Fits r
    → 8 < length r.key
    → replay_segment pick (encode_all rs ++ (encode_record r ++ rest)) s ≡ crashed
unfolding replay_segment read_segment
replay_segment_crashes pick rs r rest s h fits long =
    ap (λ n. read_loop (replay_record pick) n (encode_all rs ++ tail) s) enough
    ∙ read_loop-append (replay_record pick) (suc (length (encode_all rs ++ tail) - length rs)) rs
        tail s h
    ∙ (unfold read_loop read_step in rw (decode_panics r rest fits long))
  where
    tail : Bytes
    tail = encode_record r ++ rest

    enough :
        suc (length (encode_all rs ++ tail))
        ≡ length rs + suc (length (encode_all rs ++ tail) - length rs)
    enough = omega (arith, length-encode_all rs, length-append (encode_all rs) tail)
