-- ===== src/Wal/Compact/Following.antt =====
-- The map that Compact fills and the store of a replay, after the same records.
use warpdb.Base.{
  ℕ, ◌≡◌, refl, ◌∙◌, sym, ap, Bool, true, false, ◌||◌, Option, none, some, List, [], ◌∷◌, Bytes,
  ◌⊎◌, inl, inr, ◌==◌, beq, beq_iff, All, foldl, if◌then◌else◌,
}
use warpdb.GoMap.{Map, lookup, insert, delete, lookup-insert, lookup-delete}
use warpdb.Store.{Store}
use warpdb.Store.Slots.{Slot, slot}
use warpdb.Store.Slots.Spec.{run, spec, set_op, del_op, empty_slot}
use warpdb.Store.Slots.Spec.Refinement.{run-Implements}
use warpdb.Wal.Op
use warpdb.Wal.Record.{Record}
use warpdb.Wal.Replay.{replay_record}
use warpdb.Wal.Compact.{compact_record}

-- A record of a Set or of a Del.
abbrev pub IsSetOrDel : Record → Type 0
IsSetOrDel r = (r.op ≡ Op.set) ⊎ (r.op ≡ Op.del)

-- The slot that a log of such records leaves, if `o` is the last record of its key.
abbrev pub slot_with : Option Record → Slot
slot_with none = empty_slot
slot_with (some r) = record empty_slot { string = some r.value }

-- What a Set of `v` leaves of a slot.
abbrev pub holding : Bytes → Slot → Slot
holding v sl = record sl { string = some v; expiry = none }

pub set-slot :
    (pick : ℕ) (r : Record) (j : Bytes) (s : Store)
    → r.op ≡ Op.set
    → slot j (replay_record pick s r)
      ≡ (if beq r.key j then holding r.value (slot r.key s) else slot j s)
unfolding replay_record run spec
set-slot pick r j s e = rw e ((run-Implements (set_op r.value) r.key s).slots j)

del-slot :
    (pick : ℕ) (r : Record) (j : Bytes) (s : Store)
    → r.op ≡ Op.del
    → slot j (replay_record pick s r)
      ≡ (if beq r.key j then (spec del_op (slot r.key s)).0 else slot j s)
unfolding replay_record run
del-slot pick r j s e = rw e ((run-Implements del_op r.key s).slots j)

-- The map of Compact and the store of a replay, after the same records.
pub record IsLatest (m : Map Record) (s : Store) : Type 0 where
  pub slots : (j : Bytes) → slot j s ≡ slot_with (lookup j m)
  pub entries : (j : Bytes) (r : Record) → lookup j m ≡ some r → (r.op ≡ Op.set) × (r.key ≡ j)

compact_record-set :
    (m : Map Record) (r : Record) → r.op ≡ Op.set → compact_record m r ≡ insert r.key r m
unfolding compact_record
compact_record-set m r e =
    ap (λ n. if n == Op.del || n == Op.flush then delete r.key m else insert r.key r m) e

compact_record-del :
    (m : Map Record) (r : Record) → r.op ≡ Op.del → compact_record m r ≡ delete r.key m
unfolding compact_record
compact_record-del m r e =
    ap (λ n. if n == Op.del || n == Op.flush then delete r.key m else insert r.key r m) e

set-IsLatest :
    (pick : ℕ) (m : Map Record) (s : Store) (r : Record)
    → r.op ≡ Op.set
    → IsLatest m s
    → IsLatest (compact_record m r) (replay_record pick s r)
set-IsLatest pick m s r e l = record {
  slots = λ j.
      set-slot pick r j s e
      ∙ at j (beq r.key j) (lookup r.key m) (l.slots r.key)
      ∙ ap slot_with (sym (found j));
  entries = λ j q h. entry j q (beq r.key j) refl (sym (found j) ∙ h);
}
  where
    found :
        (j : Bytes) → lookup j (compact_record m r) ≡ (if beq r.key j then some r else lookup j m)
    found j = ap (lookup j) (compact_record-set m r e) ∙ lookup-insert r.key j r m

    at :
        (j : Bytes) (b : Bool) (o : Option Record)
        → slot r.key s ≡ slot_with o
        → (if b then holding r.value (slot r.key s) else slot j s)
          ≡ slot_with (if b then some r else lookup j m)
    at j true none h = ap (holding r.value) h
    at j true (some q) h = ap (holding r.value) h
    at j false o h = l.slots j

    entry :
        (j : Bytes) (q : Record) (b : Bool)
        → beq r.key j ≡ b
        → (if b then some r else lookup j m) ≡ some q
        → (q.op ≡ Op.set) × (q.key ≡ j)
    entry j q true same h =
        let same_record : r ≡ q = cc in
        (
          ap (λ (x : Record). x.op) (sym same_record) ∙ e,
          ap (λ (x : Record). x.key) (sym same_record) ∙ (beq_iff r.key j).0 same,
        )
    entry j q false same h = l.entries j q h

del-IsLatest :
    (pick : ℕ) (m : Map Record) (s : Store) (r : Record)
    → r.op ≡ Op.del
    → IsLatest m s
    → IsLatest (compact_record m r) (replay_record pick s r)
del-IsLatest pick m s r e l = record {
  slots = λ j.
      del-slot pick r j s e
      ∙ at j (beq r.key j) (lookup r.key m) (l.slots r.key)
      ∙ ap slot_with (sym (found j));
  entries = λ j q h. entry j q (beq r.key j) (sym (found j) ∙ h);
}
  where
    found : (j : Bytes) → lookup j (compact_record m r) ≡ (if beq r.key j then none else lookup j m)
    found j = ap (lookup j) (compact_record-del m r e) ∙ lookup-delete r.key j m

    at :
        (j : Bytes) (b : Bool) (o : Option Record)
        → slot r.key s ≡ slot_with o
        → (if b then (spec del_op (slot r.key s)).0 else slot j s)
          ≡ slot_with (if b then none else lookup j m)
    at j true none h = ap (λ sl. (spec del_op sl).0) h ∙ unfold spec in refl
    at j true (some q) h = ap (λ sl. (spec del_op sl).0) h ∙ unfold spec in refl
    at j false o h = l.slots j

    entry :
        (j : Bytes) (q : Record) (b : Bool)
        → (if b then none else lookup j m) ≡ some q
        → (q.op ≡ Op.set) × (q.key ≡ j)
    entry j q true h = cc
    entry j q false h = l.entries j q h

pub replay-IsLatest :
    (pick : ℕ) (rs : List Record) (m : Map Record) (s : Store)
    → All IsSetOrDel rs
    → IsLatest m s
    → IsLatest (foldl compact_record m rs) (foldl (replay_record pick) s rs)
replay-IsLatest pick [] m s h l = l
replay-IsLatest pick (r ∷ rs) m s (inl e, hs) l =
    replay-IsLatest pick rs _ _ hs (set-IsLatest pick m s r e l)
replay-IsLatest pick (r ∷ rs) m s (inr e, hs) l =
    replay-IsLatest pick rs _ _ hs (del-IsLatest pick m s r e l)
