-- ===== src/Wal/Compact/Directory.antt =====
-- The directory that Compact leaves.
use warpdb.Base.{
  ℕ, ◌+◌, ◌≤◌, ◌<◌, ◌≡◌, refl, ◌∙◌, ap, Bool, true, false, List, [], ◌∷◌, ◌++◌, Bytes, length, leb,
  ◌==◌, All, arith, if◌then◌else◌, ==_iff,
}
use mathlib.Core.Path.{subst}
use mathlib.Core.List.{append-nil}
use warpdb.Wal.Record.{Record}
use warpdb.Wal.Replay.Segments.{encode_all, IsReadable}
use warpdb.Store.{Store}
use warpdb.Wal.Reader.Loop.{ended}
use warpdb.Wal.Replay.{replay, replay_records}
use warpdb.Wal.Log.{Log, segments, all_written, lists, open_wal}
use warpdb.Wal.Log.Holding.{
  Holds, records, lists_below, encode_batch-all, encode_batch-fine, All-append, All-mono,
}
use warpdb.Wal.Log.Batches.{Holds-read_segments, Holds-replay}
use warpdb.Wal.Compact.{
  compact_record, write_file, remove_files, Compacted, succeeded, write_compacted, compact,
}
use warpdb.Wal.Compact.Latest.{compacted, compacted-IsReadable}

-- The directory after a Compact that comes to its end.
abbrev rewritten : List Record → Log → Log
rewritten rs w = record w {
  files = remove_files w.manifest (write_file (w.seq + 1) (encode_all rs) w.files);
  manifest = (w.seq + 1) ∷ [];
}

compact-rewritten :
    (w : Log) (written : List Record)
    → Holds w written
    → 2 ≤ length w.manifest
    → compact all_written w ≡ (rewritten (compacted written) w, succeeded)
unfolding compact write_compacted
compact-rewritten w written h two =
    rw
      (
        compact,
        many,
        Holds-read_segments compact_record w written [] h,
        encode_batch-fine (compacted written),
        encode_batch-all (compacted written),
      )
      refl
  where
    many : leb (length w.manifest) 1 ≡ false
    many = ground arith

-- The current segment is the last of the manifest, so the next number is none of it.
next_is_new :
    (w : Log) (written : List Record) → Holds w written → lists (w.seq + 1) w.manifest ≡ false
next_is_new w written h =
    ap (lists (w.seq + 1)) h.manifest_is
    ∙ lists_below (w.seq + 1) (h.front ++ w.seq ∷ []) (
        All-append (λ i. i < w.seq + 1) h.front (w.seq ∷ []) (All-mono w.seq h.front h.below)
          (omega arith, tt))

-- What the segments hold after it.
held_after : List Record → Log → (ℕ → List Record) → ℕ → List Record
held_after rs w held i = if lists i w.manifest then [] else if i == w.seq + 1 then rs else held i

-- One segment after it.
bytes_after :
    (removed new : Bool) (rs old : List Record) (bytes : Bytes)
    → bytes ≡ encode_all old
    → (if removed then [] else if new then encode_all rs else bytes)
      ≡ encode_all (if removed then [] else if new then rs else old)
unfolding encode_all
bytes_after true new rs old bytes e = refl
bytes_after false true rs old bytes e = refl
bytes_after false false rs old bytes e = e

IsReadable-after :
    (removed new : Bool) (rs old : List Record)
    → All IsReadable rs
    → All IsReadable old
    → All IsReadable (if removed then [] else if new then rs else old)
IsReadable-after true new rs old h k = tt
IsReadable-after false true rs old h k = h
IsReadable-after false false rs old h k = k

empty_after :
    (removed : Bool) (i n : ℕ) (rs old : List Record)
    → n < i
    → old ≡ []
    → (if removed then [] else if i == n then rs else old) ≡ []
empty_after true i n rs old h e = refl
empty_after false i n rs old h e = ground arith

rewritten-Holds :
    (max_size : ℕ) (w : Log) (written rs : List Record)
    → Holds w written
    → All IsReadable rs
    → Holds (open_wal max_size (rewritten rs w).files (rewritten rs w).manifest) rs
unfolding open_wal held_after
rewritten-Holds max_size w written rs h r = record {
  held = held_after rs w h.held;
  front = [];
  manifest_is = refl;
  below = tt;
  files_are = λ n.
      unfold remove_files write_file in
      bytes_after (lists n w.manifest) (n == w.seq + 1) rs (h.held n) (w.files n) (h.files_are n);
  readable =
      λ n. IsReadable-after (lists n w.manifest) (n == w.seq + 1) rs (h.held n) r (h.readable n);
  later = λ n k.
      empty_after (lists n w.manifest) n (w.seq + 1) rs (h.held n) k (h.later n (omega arith));
  content =
      unfold records in
      rw (next_is_new w written h, (==_iff (w.seq + 1) (w.seq + 1)).1 refl) (append-nil rs);
}

records-IsReadable :
    (held : ℕ → List Record) (ns : List ℕ)
    → ((n : ℕ) → All IsReadable (held n))
    → All IsReadable (records held ns)
unfolding records
records-IsReadable held [] r = tt
records-IsReadable held (n ∷ ns) r =
    All-append IsReadable (held n) (records held ns) (r n) (records-IsReadable held ns r)

-- Compact on a log of two segments or more, and the start of the program after it: `rs` is what
-- the log then holds.
pub record Compacts (pick max_size : ℕ) (w : Log) (rs : List Record) : Type 0 where
  pub result : (compact all_written w).1 ≡ succeeded
  pub reopened :
      (s : Store)
      → let d = (compact all_written w).0 in
        let w' = open_wal max_size d.files d.manifest in
        replay pick (segments w'.manifest w'.files) s ≡ ended (replay_records pick rs s)
  pub not_listed : lists w.seq (compact all_written w).0.manifest ≡ false

-- Compact on a log that holds some records in two segments or more, where no write fails, succeeds;
-- a start of the program after it replays, into whatever store, the records that Compact kept, the
-- last of each key; and its manifest does not list the segment to which the running program goes on
-- writing.
pub compact-Compacts :
    (pick max_size : ℕ) (w : Log) (written : List Record)
    → Holds w written
    → 2 ≤ length w.manifest
    → Compacts pick max_size w (compacted written)
compact-Compacts pick max_size w written h two =
    let e = compact-rewritten w written h two in
    let r = subst (All IsReadable) h.content (records-IsReadable h.held w.manifest h.readable) in
    record {
      result = ap (λ (x : Log × Compacted). x.1) e;
      reopened = λ s.
          ap
            (λ (x : Log × Compacted).
              replay pick
                (segments (open_wal max_size x.0.files x.0.manifest).manifest
                  (open_wal max_size x.0.files x.0.manifest).files)
                s)
            e
          ∙ Holds-replay pick _ (compacted written) s (
              rewritten-Holds max_size w written (compacted written) h
                (compacted-IsReadable written r));
      not_listed =
          ap (λ (x : Log × Compacted). lists w.seq x.0.manifest) e ∙ unfold lists in ground arith;
    }
