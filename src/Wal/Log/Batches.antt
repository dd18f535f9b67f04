-- ===== src/Wal/Log/Batches.antt =====
-- The segments that the flusher leaves, and what their replay gives.
use warpdb.Base.{ℕ, ◌≡◌, refl, sym, ap, ◌∙◌, true, List, [], ◌∷◌, ◌++◌, Bytes, All, foldl}
use mathlib.Core.Path.{subst}
use mathlib.Core.List.{append_assoc, append-nil, foldl-append}
use warpdb.Store.{Store}
use warpdb.Wal.Record.{Record}
use warpdb.Wal.Replay.{replay_record, replay_records, replay}
use warpdb.Wal.Reader.Loop.{ended, read_segment, read_segments}
use warpdb.Wal.Replay.Segments.{encode_all, IsReadable, read_segment-encode_all}
use warpdb.Wal.Log.{Log, all_written, flush_batch, segments}
use warpdb.Wal.Log.Holding.{Holds, records, flush-Holds}

module _ {A : Type 0} (apply : A → Record → A) where
  read_segments-cons :
      (segment : Bytes) (more : List Bytes) (a a' : A)
      → read_segment apply segment a ≡ ended a'
      → read_segments apply (segment ∷ more) a ≡ read_segments apply more a'
  unfolding read_segments
  read_segments-cons segment more a a' h = rw (read_segments, h) refl

  -- Reading some segments of whole records.
  read_segments-records :
      (held : ℕ → List Record) (files : ℕ → Bytes) (ns : List ℕ) (a : A)
      → ((n : ℕ) → files n ≡ encode_all (held n))
      → ((n : ℕ) → All IsReadable (held n))
      → read_segments apply (segments ns files) a ≡ ended (foldl apply a (records held ns))
  unfolding segments records
  read_segments-records held files [] a e r = unfold read_segments in refl
  read_segments-records held files (n ∷ ns) a e r =
      read_segments-cons (files n) (segments ns files) a (foldl apply a (held n))
        (ap (λ b. read_segment apply b a) (e n) ∙ read_segment-encode_all apply (held n) a (r n))
      ∙ read_segments-records held files ns (foldl apply a (held n)) e r
      ∙ ap ended (sym (rw foldl-append refl))

  pub Holds-read_segments :
      (w : Log) (written : List Record) (a : A)
      → Holds w written
      → read_segments apply (segments w.manifest w.files) a ≡ ended (foldl apply a written)
  Holds-read_segments w written a h =
      read_segments-records h.held w.files w.manifest a h.files_are h.readable
      ∙ ap (λ rs. ended (foldl apply a rs)) h.content

pub Holds-replay :
    (pick : ℕ) (w : Log) (written : List Record) (s : Store)
    → Holds w written
    → replay pick (segments w.manifest w.files) s ≡ ended (replay_records pick written s)
unfolding replay replay_records
Holds-replay pick w written s h = Holds-read_segments (replay_record pick) w written s h

-- The records of several batches, and the log after them, where no write and no sync fails.
abbrev pub all_records : List (List Record) → List Record
all_records [] = []
all_records (batch ∷ batches) = batch ++ all_records batches

abbrev pub flush_batches : List (List Record) → Log → Log
flush_batches [] w = w
flush_batches (batch ∷ batches) w = flush_batches batches (flush_batch all_written true batch w).0

pub flush_batches-Holds :
    (batches : List (List Record)) (w : Log) (written : List Record)
    → All (All IsReadable) batches
    → Holds w written
    → Holds (flush_batches batches w) (written ++ all_records batches)
flush_batches-Holds [] w written r h = rw (append-nil written) h
flush_batches-Holds (batch ∷ batches) w written r h =
    subst (Holds (flush_batches (batch ∷ batches) w))
      (append_assoc written batch (all_records batches))
      (flush_batches-Holds batches _ (written ++ batch) r.1 (flush-Holds w written batch r.0 h))
