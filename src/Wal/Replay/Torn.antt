-- ===== src/Wal/Replay/Torn.antt =====
-- Replay of a segment whose last entry was cut short, as a crash in the middle of a write leaves it.
use warpdb.Base.{
  ℕ, suc, ◌+◌, ◌-◌, ◌<◌, ◌≡◌, refl, ◌∙◌, ap, Bool, true, false, List, ◌++◌, Bytes, All, length,
  length-append, take, ◌==◌, if◌then◌else◌, arith,
}
use warpdb.Store.{Store}
use warpdb.Wal.Record.{Record}
use warpdb.Wal.Format.{entry_header_size, encode_record}
use warpdb.Wal.Reader.{eof, unexpected_eof}
use warpdb.Wal.Reader.Entries.{decode_cut}
use warpdb.Wal.Reader.Loop.{Ended, ended, decode_error, read_loop, read_step, read_segment}
use warpdb.Wal.Replay.{replay_record, replay_records, replay_segment}
use warpdb.Wal.Replay.Segments.{encode_all, IsReadable, read_loop-append, length-encode_all}

-- The loop at the part of an entry.
read_step-cut :
    (pick : ℕ) (next : Bytes → Store → Ended Store) (s : Store) (b : Bool)
    → read_step (replay_record pick) next s (if b then eof else unexpected_eof)
      ≡ (if b then ended s else decode_error)
unfolding read_step
read_step-cut pick next s true = refl
read_step-cut pick next s false = refl

-- Replay of whole entries that the decoder can read, with a part of such an entry behind them, ends
-- with an error, but for a part of 19 bytes, which it takes for the end of the segment.
pub replay_segment_torn :
    (pick n : ℕ) (rs : List Record) (r : Record) (s : Store)
    → All IsReadable rs
    → IsReadable r
    → 0 < n
    → n < length (encode_record r)
    → replay_segment pick (encode_all rs ++ take n (encode_record r)) s
      ≡ (if n == entry_header_size then ended (replay_records pick rs s) else decode_error)
unfolding replay_segment read_segment replay_records read_loop read_step
replay_segment_torn pick n rs r s h readable some_bytes cut =
    ap (λ n. read_loop (replay_record pick) n (encode_all rs ++ part) s) enough
    ∙ read_loop-append (replay_record pick) (suc (length (encode_all rs ++ part) - length rs)) rs
        part s h
    ∙ ap (read_step (replay_record pick) next after)
        (decode_cut r n readable.fits readable.short_key some_bytes cut)
    ∙ read_step-cut pick next after (n == entry_header_size)
  where
    part : Bytes
    part = take n (encode_record r)

    after : Store
    after = replay_records pick rs s

    next : Bytes → Store → Ended Store
    next = read_loop (replay_record pick) (length (encode_all rs ++ part) - length rs)

    enough :
        suc (length (encode_all rs ++ part))
        ≡ length rs + suc (length (encode_all rs ++ part) - length rs)
    enough = omega (arith, length-encode_all rs, length-append (encode_all rs) part)
