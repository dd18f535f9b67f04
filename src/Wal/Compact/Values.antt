-- ===== src/Wal/Compact/Values.antt =====
-- What a compacted log of SET and DEL records gives, against the log itself.
use warpdb.Base.{
  ℕ, ◌≡◌, refl, ◌∙◌, sym, ap, Bool, true, false, ◌||◌, Option, none, some, List, [], ◌∷◌, Bytes,
  inl, inr, beq, beq_iff, beq_refl, All, foldl, arith, Option-cases, is_some, false≢true,
  if◌then◌else◌,
}
use warpdb.GoMap.{Map, lookup, keys, contains, contains-keys, has}
use warpdb.Store.{Store, new_store}
use warpdb.Store.Slots.{slot}
use warpdb.Store.Slots.Spec.{empty_slot}
use warpdb.Wal.Op
use warpdb.Wal.Record.{Record}
use warpdb.Wal.Replay.{replay_record, replay_records}
use warpdb.Wal.Compact.{compact_record, sort_strings, record_at, records_at, latest_records}
use warpdb.Wal.Compact.Latest.{compacted, contains-sort_strings}
use warpdb.Engine.Logged.Agreement.{Agree}
use warpdb.Wal.Compact.Following.{
  IsSetOrDel, slot_with, holding, set-slot, IsLatest, replay-IsLatest,
}

-- What the records of a map do to a store, whatever the order of the keys is.
IsSetAt : Map Record → Bytes → Type 0
IsSetAt m k = ((record_at m k).op ≡ Op.set) × ((record_at m k).key ≡ k)

replay-records_at :
    (pick : ℕ) (m : Map Record) (ks : List Bytes) (s : Store) (j : Bytes)
    → All (IsSetAt m) ks
    → slot j (foldl (replay_record pick) s (records_at m ks))
      ≡ (if contains j ks then holding (record_at m j).value (slot j s) else slot j s)
unfolding records_at IsSetAt
replay-records_at pick m [] s j h = refl
replay-records_at pick m (k ∷ ks) s j ((op_is, key_is), hs) =
    replay-records_at pick m ks (replay_record pick s (record_at m k)) j hs
    ∙ at (beq k j) (contains j ks) refl (
        set-slot pick (record_at m k) j s op_is
        ∙ ap (λ i. if beq i j then holding (record_at m k).value (slot i s) else slot j s) key_is)
  where
    s1 : Store
    s1 = replay_record pick s (record_at m k)

    at :
        (b c : Bool)
        → beq k j ≡ b
        → slot j s1 ≡ (if b then holding (record_at m k).value (slot k s) else slot j s)
        → (if c then holding (record_at m j).value (slot j s1) else slot j s1)
          ≡ (if b || c then holding (record_at m j).value (slot j s) else slot j s)
    at true true same e =
        ap (holding (record_at m j).value)
          (e ∙ ap (λ i. holding (record_at m i).value (slot i s)) ((beq_iff k j).0 same))
    at true false same e =
        e ∙ ap (λ i. holding (record_at m i).value (slot i s)) ((beq_iff k j).0 same)
    at false true same e = ap (holding (record_at m j).value) e
    at false false same e = e

All-contains :
    (P : Bytes → Type 0) (ks : List Bytes) → ((k : Bytes) → contains k ks ≡ true → P k) → All P ks
All-contains P [] h = tt
All-contains P (k ∷ ks) h =
    (h k (rw beq_refl refl), All-contains P ks (λ j e. h j (rw e (ground arith))))

new_store-slot : (j : Bytes) → slot j new_store ≡ empty_slot
new_store-slot j = unfold slot lookup new_store in refl

start-IsLatest : IsLatest [] new_store
unfolding lookup
start-IsLatest = record { slots = λ j. new_store-slot j; entries = λ j r h. cc }

has-sorted : (m : Map Record) (j : Bytes) → contains j (sort_strings (keys m)) ≡ has j m
has-sorted m j = contains-sort_strings j (keys m) ∙ contains-keys j m

IsLatest-IsSetAt :
    (m : Map Record) (s : Store) (k : Bytes) → IsLatest m s → has k m ≡ true → IsSetAt m k
unfolding IsSetAt record_at
IsLatest-IsSetAt m s k l h = elim (Option-cases (lookup k m)) [
  | inl e ↦ absurd (false≢true (sym (ap is_some e) ∙ h))
  | inr (r, e) ↦ rw (record_at, e) (l.entries k r e)
]

-- For a log of Set and Del records, replaying what Compact keeps of it into the new store gives, at
-- every key, what replaying the log gives.
pub compacted-Agree :
    (pick : ℕ) (rs : List Record)
    → All IsSetOrDel rs
    → Agree (replay_records pick (compacted rs) new_store) (replay_records pick rs new_store)
unfolding replay_records latest_records
compacted-Agree pick rs h j =
    replay-records_at pick m (sort_strings (keys m)) new_store j (
      All-contains (IsSetAt m) (sort_strings (keys m))
        (λ k e. IsLatest-IsSetAt m _ k l (sym (has-sorted m k) ∙ e)))
    ∙ ap (λ sl. if contains j (sort_strings (keys m)) then holding (record_at m j).value sl else sl)
        (new_store-slot j)
    ∙ at (lookup j m) _ (record_at m j).value (has-sorted m j)
        (λ r e. unfold record_at in rw (record_at, e) refl)
    ∙ sym (l.slots j)
  where
    m : Map Record
    m = foldl compact_record [] rs

    l : IsLatest m (foldl (replay_record pick) new_store rs)
    l = replay-IsLatest pick rs [] new_store h start-IsLatest

    at :
        (o : Option Record) (c : Bool) (v : Bytes)
        → c ≡ is_some o
        → ((r : Record) → o ≡ some r → v ≡ r.value)
        → (if c then holding v empty_slot else empty_slot) ≡ slot_with o
    at none c v e f = rw e refl
    at (some r) c v e f = rw (e, f r refl) refl
