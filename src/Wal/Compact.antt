-- ===== src/Wal/Compact.antt =====
-- Compact of wal/wal.go, which puts the last record of each key into one new segment. Nothing under
-- the repository's cmd calls it.
pub mod Latest
pub mod Directory
pub mod Following
pub mod Values
pub mod Pushes
use warpdb.Base.{
  ℕ, ◌+◌, Bool, true, false, ◌||◌, Option, none, some, List, [], ◌∷◌, Bytes, length, leb, ltb, ◌==◌,
  if◌then◌else◌,
}
use warpdb.GoMap.{Map, lookup, insert, delete, keys}
use warpdb.Wal.Op
use warpdb.Wal.Record.{Record, blank}
use warpdb.Wal.Reader.Loop.{Ended, ended, decode_error, crashed, out_of_fuel, read_segments}
use warpdb.Wal.Log.{Log, Writes, encode_batch, lists, segments}

-- What the loop over a segment does with a record.
unfoldable pub compact_record : Map Record → Record → Map Record
compact_record latest r =
    if r.op == Op.del || r.op == Op.flush then delete r.key latest else insert r.key r latest

-- Go's `<` on strings: byte by byte.
unfoldable pub less : Bytes → Bytes → Bool
less [] [] = false
less [] (b ∷ t) = true
less (a ∷ s) [] = false
less (a ∷ s) (b ∷ t) = let rest = less s t in if a == b then rest else ltb a b

unfoldable pub insert_sorted : Bytes → List Bytes → List Bytes
insert_sorted k [] = k ∷ []
insert_sorted k (j ∷ ks) =
    let rest = insert_sorted k ks in if less j k then j ∷ rest else k ∷ j ∷ ks

-- sort.Strings
unfoldable pub sort_strings : List Bytes → List Bytes
sort_strings [] = []
sort_strings (k ∷ ks) = insert_sorted k (sort_strings ks)

-- latest[k], which is the zero Record for an absent key.
unfoldable pub record_at : Map Record → Bytes → Record
record_at latest k = elim (lookup k latest) [ none ↦ blank 0 | some r ↦ r ]

-- The records that are encoded, in their order.
unfoldable pub records_at : Map Record → List Bytes → List Record
records_at latest [] = []
records_at latest (k ∷ ks) = record_at latest k ∷ records_at latest ks

unfoldable pub latest_records : Map Record → List Record
unfolding sort_strings records_at
latest_records latest = records_at latest (sort_strings (keys latest))

-- What Compact returns, and a panic. `no_fuel` belongs to the model alone.
pub data Compacted : Type 0 where
  succeeded : Compacted
  failed : Compacted
  panicked : Compacted
  no_fuel : Compacted

-- os.OpenFile with O_TRUNC, and what is written to the file.
unfoldable pub write_file : ℕ → Bytes → (ℕ → Bytes) → ℕ → Bytes
write_file n bytes files i = if i == n then bytes else files i

-- os.Remove of the segments.
unfoldable pub remove_files : List ℕ → (ℕ → Bytes) → ℕ → Bytes
remove_files ns files i = if lists i ns then [] else files i

-- Compact, after its loops over the segments. `w.seq` and the open file stay as they are.
unfoldable pub write_compacted : Writes → Log → Ended (Map Record) → Log × Compacted
write_compacted writes w (ended latest) =
    let (bytes, (total, fine)) = encode_batch writes (latest_records latest) in
    let files = write_file (w.seq + 1) bytes w.files in
    if fine
    then (
      record w { files = remove_files w.manifest files; manifest = (w.seq + 1) ∷ [] },
      succeeded,
    )
    else (record w { files = files }, failed)
write_compacted writes w decode_error = (w, failed)
write_compacted writes w crashed = (w, panicked)
write_compacted writes w out_of_fuel = (w, no_fuel)

-- Compact, where only an Encode can fail: `writes` says whether one does.
unfoldable pub compact : Writes → Log → Log × Compacted
compact writes w =
    let latest = read_segments compact_record (segments w.manifest w.files) [] in
    if leb (length w.manifest) 1 then (w, succeeded) else write_compacted writes w latest
