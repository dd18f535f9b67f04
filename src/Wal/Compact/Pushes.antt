-- ===== src/Wal/Compact/Pushes.antt =====
-- What Compact makes of the records of a list.
use warpdb.Base.{
  ℕ, Bool, true, false, List, if◌then◌else◌, ◌≡◌, refl, ◌∙◌, ap, some, [], ◌∷◌, ◌++◌, Bytes, beq,
  beq_refl, foldl,
}
use warpdb.GoMap.{lookup, insert, keys}
use warpdb.Store.{Store, new_store}
use warpdb.Store.Slots.{Slot, slot}
use warpdb.Store.Slots.Spec.{run, spec, contents, lpush_op, rpush_op}
use warpdb.Store.Slots.Spec.Refinement.{run-Implements}
use warpdb.Wal.Op
use warpdb.Wal.Record.{Record, make_record}
use warpdb.Wal.Replay.{replay_record, replay_records}
use warpdb.Wal.Compact.{
  compact_record, insert_sorted, sort_strings, record_at, records_at, latest_records,
}
use warpdb.Wal.Compact.Latest.{compacted}

-- The record of an LPUSH or an RPUSH of one value.
abbrev pub push_record : Bool → Bytes → Bytes → Record
push_record front k v = make_record (if front then Op.lpush else Op.rpush) (k ∷ v ∷ [])

-- A list after such a push.
abbrev pub pushed : Bool → Bytes → List Bytes → List Bytes
pushed front v l = if front then v ∷ l else l ++ v ∷ []

-- Of two pushes to one list, the last stays.
compacted-pushes :
    (a b : Bool) (k v w : Bytes)
    → compacted (push_record a k v ∷ push_record b k w ∷ []) ≡ push_record b k w ∷ []
unfolding compact_record make_record insert keys sort_strings insert_sorted latest_records
    records_at record_at lookup beq
compacted-pushes true true k v w = rw (beq_refl, beq_refl) refl
compacted-pushes true false k v w = rw (beq_refl, beq_refl) refl
compacted-pushes false true k v w = rw (beq_refl, beq_refl) refl
compacted-pushes false false k v w = rw (beq_refl, beq_refl) refl

list-push_record :
    (pick : ℕ) (front : Bool) (k v : Bytes) (s : Store)
    → (slot k (replay_record pick s (push_record front k v))).list
      ≡ some (pushed front v (contents (slot k s).list))
unfolding replay_record make_record run
list-push_record pick true k v s =
    ap (λ (sl : Slot). sl.list) ((run-Implements (lpush_op (v ∷ [])) k s).slots k)
    ∙ rw beq_refl (unfold spec in refl)
list-push_record pick false k v s =
    ap (λ (sl : Slot). sl.list) ((run-Implements (rpush_op (v ∷ [])) k s).slots k)
    ∙ rw beq_refl (unfold spec in refl)

-- The records of two pushes of one value to one key, each an LPUSH or an RPUSH, replayed into the
-- new store, give the list of both values, the second in front if it was an LPUSH and behind if it
-- was an RPUSH; what Compact keeps of them gives the list of the second alone.
pub push_lost :
    (pick : ℕ) (a b : Bool) (k v w : Bytes)
    → ((slot k (replay_records pick (push_record a k v ∷ push_record b k w ∷ []) new_store)).list
        ≡ some (if b then w ∷ v ∷ [] else v ∷ w ∷ []))
      × ((slot k (
            replay_records pick
              (compacted (push_record a k v ∷ push_record b k w ∷ []))
              new_store)).list
          ≡ some (w ∷ []))
unfolding replay_records
push_lost pick a b k v w = (
  list-push_record pick b k w _
      ∙ ap (λ o. some (pushed b w (contents o))) (list-push_record pick a k v new_store)
      ∙ ap (λ xs. some (pushed b w (pushed a v xs))) (empty k)
      ∙ both a b,
  ap (λ rs. (slot k (foldl (replay_record pick) new_store rs)).list) (compacted-pushes a b k v w)
      ∙ list-push_record pick b k w new_store
      ∙ ap (λ xs. some (pushed b w xs)) (empty k)
      ∙ one b,
)
  where
    empty : (j : Bytes) → contents (slot j new_store).list ≡ []
    empty j = unfold slot lookup new_store in refl

    both :
        (a b : Bool)
        → some (pushed b w (pushed a v [])) ≡ some (if b then w ∷ v ∷ [] else v ∷ w ∷ [])
    both true true = refl
    both true false = refl
    both false true = refl
    both false false = refl

    one : (b : Bool) → some (pushed b w []) ≡ some (w ∷ [])
    one true = refl
    one false = refl
