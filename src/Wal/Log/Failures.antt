-- ===== src/Wal/Log/Failures.antt =====
-- A batch one of whose writes fails.
use warpdb.Base.{
  ℕ, zero, suc, ◌+◌, ◌≡◌, refl, sym, ap, ◌∙◌, Bool, true, false, ◌&&◌, some, List, [], ◌∷◌, ◌++◌,
  Bytes, get_elem?, take, if◌then◌else◌, arith,
}
use mathlib.Core.List.{append_assoc}
use warpdb.Wal.Record.{Record}
use warpdb.Wal.Format.{encode_record}
use warpdb.Wal.Replay.Segments.{encode_all}
use warpdb.Wal.Log.{
  Log, append_file, write_manifest, rotate, Writes, fails_at, encode_batch, flush_batch, is_full,
}

encode_batch-fails :
    (i n : ℕ) (batch : List Record) (r : Record)
    → get_elem? batch i ≡ some r
    → ((encode_batch (fails_at i n) batch).0
        ≡ encode_all (take i batch) ++ take n (encode_record r))
      × ((encode_batch (fails_at i n) batch).1.1 ≡ false)
unfolding encode_batch encode_all
encode_batch-fails zero n [] r h = ground arith
encode_batch-fails (suc i) n [] r h = ground arith
encode_batch-fails zero n (x ∷ batch) r h = (ap (λ y. take n (encode_record y)) cc, refl)
encode_batch-fails (suc i) n (x ∷ batch) r h =
    let rest = encode_batch-fails i n batch r h in
    (ap (λ t. encode_record x ++ t) rest.0 ∙ sym (append_assoc (encode_record x) _ _), rest.1)

files-rotate : (b : Bool) (w : Log) → (if b then rotate w else w).files ≡ w.files
unfolding rotate write_manifest
files-rotate true w = ground arith
files-rotate false w = refl

append_file-same :
    (n : ℕ) (bytes : Bytes) (files : ℕ → Bytes) → append_file n bytes files n ≡ files n ++ bytes
unfolding append_file
append_file-same n bytes files = ground arith

-- The log before a new segment is made.
abbrev after_writes : Writes → List Record → Log → Log
after_writes writes batch w = record w {
  files = append_file w.seq (encode_batch writes batch).0 w.files;
  current_sz = w.current_sz + (encode_batch writes batch).1.0;
}

flush_batch-files :
    (writes : Writes) (synced : Bool) (batch : List Record) (w : Log)
    → (flush_batch writes synced batch w).0.files
      ≡ append_file w.seq (encode_batch writes batch).0 w.files
unfolding flush_batch
flush_batch-files writes synced batch w =
    files-rotate (is_full (after_writes writes batch w)) (after_writes writes batch w)

flush_batch-told :
    (writes : Writes) (synced : Bool) (batch : List Record) (w : Log)
    → (flush_batch writes synced batch w).1 ≡ ((encode_batch writes batch).1.1 && synced)
unfolding flush_batch
flush_batch-told writes synced batch w = refl

-- If the write of a record of a batch fails after some of its bytes, all writers of the batch are
-- told of a failure, and the segment has grown by the entries of the records before it and by those
-- bytes.
pub flush_batch-fails :
    (i n : ℕ) (synced : Bool) (batch : List Record) (r : Record) (w : Log)
    → get_elem? batch i ≡ some r
    → ((flush_batch (fails_at i n) synced batch w).1 ≡ false)
      × ((flush_batch (fails_at i n) synced batch w).0.files w.seq
          ≡ w.files w.seq ++ (encode_all (take i batch) ++ take n (encode_record r)))
flush_batch-fails i n synced batch r w h =
    let part = encode_batch-fails i n batch r h in
    (
      flush_batch-told (fails_at i n) synced batch w ∙ rw part.1 refl,
      ap (λ (f : ℕ → Bytes). f w.seq) (flush_batch-files (fails_at i n) synced batch w)
          ∙ append_file-same w.seq (encode_batch (fails_at i n) batch).0 w.files
          ∙ ap (λ t. w.files w.seq ++ t) part.0,
    )
