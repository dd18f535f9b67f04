-- ===== src/Wal/Log.antt =====
-- The log writer of wal/wal.go: NewWAL, Close, rotate, the manifest and the batches of
-- runFlusher. Segment `n` is the file that is named by `n` in eight digits; the directory holds all
-- segments, of which an absent one is empty.
pub mod Holding
pub mod Opening
pub mod Batches
pub mod Failures
pub mod Sessions
pub mod Queue
use warpdb.Base.{
  ℕ, zero, suc, ◌+◌, Option, none, some, Bool, true, false, ◌||◌, ◌&&◌, List, [], ◌∷◌, ◌++◌, Bytes,
  length, ltb, leb, ◌==◌, take, if◌then◌else◌,
}
use warpdb.Wal.Record.{Record}
use warpdb.Wal.Format.{encode_record}

-- WAL, with the files of its directory.
pub record Log : Type 0 where
  pub files : ℕ → Bytes
  pub manifest : List ℕ
  pub seq : ℕ
  pub current_sz : ℕ
  pub max_size : ℕ

-- Appending to a file.
unfoldable pub append_file : ℕ → Bytes → (ℕ → Bytes) → ℕ → Bytes
append_file n bytes files i = if i == n then files i ++ bytes else files i

unfoldable pub lists : ℕ → List ℕ → Bool
lists n [] = false
lists n (m ∷ ms) = m == n || lists n ms

-- writeManifest
unfoldable pub write_manifest : Log → Log
write_manifest w =
    if lists w.seq w.manifest then w else record w { manifest = w.manifest ++ w.seq ∷ [] }

-- rotate
unfoldable pub rotate : Log → Log
rotate w = write_manifest (record w { seq = w.seq + 1; current_sz = 0 })

-- manifest.Segments[len(manifest.Segments)-1]
unfoldable pub last_segment : List ℕ → Option ℕ
last_segment [] = none
last_segment (n ∷ []) = some n
last_segment (n ∷ m ∷ ns) = last_segment (m ∷ ns)

-- NewWAL on a directory with these files and this manifest: it goes on with the last segment, or
-- makes the first. `max_size` is in bytes.
unfoldable pub open_wal : ℕ → (ℕ → Bytes) → List ℕ → Log
unfolding last_segment
open_wal max_size files manifest = elim (last_segment manifest) [
  | none ↦
      rotate (record {
        files = files;
        manifest = manifest;
        seq = 0;
        current_sz = 0;
        max_size = max_size;
      })
  | some n ↦ record {
    files = files;
    manifest = manifest;
    seq = n;
    current_sz = length (files n);
    max_size = max_size;
  }
]

-- NewWAL on an empty directory.
unfoldable pub new_wal : ℕ → Log
new_wal max_size = open_wal max_size (λ n. []) []

-- Close
unfoldable pub close_wal : Log → Log
close_wal = write_manifest

-- What the encoder's writes of a batch do: all are made, or one fails after it has written some
-- bytes of its record.
pub data Writes : Type 0 where
  all_written : Writes
  fails_at : ℕ → ℕ → Writes

-- The bytes that the loop over the batch writes, and totalWritten.
unfoldable pub encode_batch : Writes → List Record → Bytes × (ℕ × Bool)
encode_batch all_written [] = ([], (0, true))
encode_batch (fails_at i n) [] = ([], (0, true))
encode_batch all_written (r ∷ rs) =
    let (bytes, (total, fine)) = encode_batch all_written rs in
    (encode_record r ++ bytes, (length (encode_record r) + total, fine))
encode_batch (fails_at zero n) (r ∷ rs) = (take n (encode_record r), (0, false))
encode_batch (fails_at (suc i) n) (r ∷ rs) =
    let (bytes, (total, fine)) = encode_batch (fails_at i n) rs in
    (encode_record r ++ bytes, (length (encode_record r) + total, fine))

-- `w.maxSize > 0 && w.currentSz >= w.maxSize`
abbrev pub is_full : Log → Bool
is_full w = ltb 0 w.max_size && leb w.max_size w.current_sz

-- One round of runFlusher on a batch, where the making of a new segment does not fail: the log, and
-- whether the writers of the batch are told of success. `synced` says whether Sync succeeds.
unfoldable pub flush_batch : Writes → Bool → List Record → Log → Log × Bool
flush_batch writes synced batch w =
    let (bytes, (total, fine)) = encode_batch writes batch in
    let w' : Log = record w {
      files = append_file w.seq bytes w.files;
      current_sz = w.current_sz + total;
    } in
    (if is_full w' then rotate w' else w', fine && synced)

-- The segments that Replay opens, in its order.
unfoldable pub segments : List ℕ → (ℕ → Bytes) → List Bytes
segments [] files = []
segments (n ∷ ns) files = files n ∷ segments ns files
