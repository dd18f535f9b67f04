-- ===== src/Wal/Compact/Latest.antt =====
-- The records that Compact keeps.
use warpdb.Base.{
  ◌≡◌, refl, ◌∙◌, ap, ◌||◌, List, [], ◌∷◌, Bytes, beq, All, ◌==◌, foldl, arith, Bool-cases, inl,
  inr,
}
use warpdb.GoMap.{Map, lookup, insert, delete, contains}
use warpdb.Wal.Op
use warpdb.Wal.Record.{Record, blank}
use warpdb.Wal.Replay.Segments.{IsReadable}
use warpdb.Wal.Compact.{
  compact_record, insert_sorted, sort_strings, record_at, records_at, latest_records,
}

contains-insert_sorted :
    (j k : Bytes) (ks : List Bytes) → contains j (insert_sorted k ks) ≡ (beq k j || contains j ks)
unfolding insert_sorted
contains-insert_sorted j k [] = refl
contains-insert_sorted j k (i ∷ ks) = ground (arith, contains-insert_sorted j k ks)

pub contains-sort_strings :
    (j : Bytes) (ks : List Bytes) → contains j (sort_strings ks) ≡ contains j ks
unfolding sort_strings
contains-sort_strings j [] = refl
contains-sort_strings j (k ∷ ks) =
    contains-insert_sorted j k (sort_strings ks)
    ∙ ap (λ b. beq k j || b) (contains-sort_strings j ks)

-- All records of a map can be read.
AllReadable : Map Record → Type 0
AllReadable m = All (λ (e : Bytes × Record). IsReadable e.1) m

insert-AllReadable :
    (k : Bytes) (r : Record) (m : Map Record)
    → IsReadable r
    → AllReadable m
    → AllReadable (insert k r m)
unfolding AllReadable insert
insert-AllReadable k r [] h hs = (h, tt)
insert-AllReadable k r ((j, v) ∷ m) h hs = elim (Bool-cases (beq j k)) [
  | inl e ↦ rw (insert, e) (h, hs.1)
  | inr e ↦ rw (insert, e) (hs.0, insert-AllReadable k r m h hs.1)
]

delete-AllReadable : (k : Bytes) (m : Map Record) → AllReadable m → AllReadable (delete k m)
unfolding AllReadable delete
delete-AllReadable k [] h = tt
delete-AllReadable k ((j, v) ∷ m) h = elim (Bool-cases (beq j k)) [
  | inl e ↦ rw (delete, e) (delete-AllReadable k m h.1)
  | inr e ↦ rw (delete, e) (h.0, delete-AllReadable k m h.1)
]

compact_record-AllReadable :
    (m : Map Record) (r : Record) → IsReadable r → AllReadable m → AllReadable (compact_record m r)
unfolding compact_record
compact_record-AllReadable m r h hs = elim (Bool-cases (r.op == Op.del || r.op == Op.flush)) [
  | inl e ↦ rw e (delete-AllReadable r.key m hs)
  | inr e ↦ rw e (insert-AllReadable r.key r m h hs)
]

foldl-AllReadable :
    (rs : List Record) (m : Map Record)
    → All IsReadable rs
    → AllReadable m
    → AllReadable (foldl compact_record m rs)
foldl-AllReadable [] m h hs = hs
foldl-AllReadable (r ∷ rs) m h hs =
    foldl-AllReadable rs (compact_record m r) h.1 (compact_record-AllReadable m r h.0 hs)

blank-IsReadable : IsReadable (blank 0)
blank-IsReadable = record {
  fits = record { key_fits = omega arith; value_fits = omega arith; expiry_fits = omega arith };
  short_key = omega arith;
}

record_at-IsReadable : (m : Map Record) (k : Bytes) → AllReadable m → IsReadable (record_at m k)
unfolding AllReadable record_at lookup
record_at-IsReadable [] k h = blank-IsReadable
record_at-IsReadable ((j, r) ∷ m) k h = elim (Bool-cases (beq j k)) [
  | inl e ↦ rw (record_at, e) h.0
  | inr e ↦ rw (record_at, e) (record_at-IsReadable m k h.1)
]

records_at-IsReadable :
    (m : Map Record) (ks : List Bytes) → AllReadable m → All IsReadable (records_at m ks)
unfolding records_at
records_at-IsReadable m [] h = tt
records_at-IsReadable m (k ∷ ks) h = (record_at-IsReadable m k h, records_at-IsReadable m ks h)

-- The records that Compact writes for a log of these records.
abbrev pub compacted : List Record → List Record
compacted rs = latest_records (foldl compact_record [] rs)

pub compacted-IsReadable : (rs : List Record) → All IsReadable rs → All IsReadable (compacted rs)
unfolding latest_records
compacted-IsReadable rs h =
    records_at-IsReadable _ _ (foldl-AllReadable rs [] h (unfold AllReadable in tt))
