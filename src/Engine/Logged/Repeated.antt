-- ===== src/Engine/Logged/Repeated.antt =====
-- Calls with several values, which are logged value by value: RPush, SAdd, SRem, HDel and HMSet.
use warpdb.Base.{
  ℕ, Bool, true, false, ◌≡◌, refl, sym, ap, ◌∙◌, none, List, [], ◌∷◌, Bytes, codes, beq, beq_refl,
  if◌then◌else◌, map, All,
}
use mathlib.Core.Path.{subst}
use warpdb.GoMap.{Map}
use warpdb.Store.{Store, locked, update}
use warpdb.Store.Hashes.{hset, hset_shard, hmset, insert_all}
use warpdb.Store.Slots.{Slot, slot}
use warpdb.Store.Slots.Spec.{Op, run, spec, rpush_op, sadd_op, srem_op, hdel_op, hmset_op}
use warpdb.Store.Slots.Spec.Refinement.{run-Implements}
use warpdb.Wal.Op.{op_to_code}
use warpdb.Wal.Record.{make_record, cut_nul}
use warpdb.Wal.Record.Fields.{hash_field_and_value-make_record}
use warpdb.Wal.Replay.{replay_record, replay_records}
use warpdb.Engine.Logged.{one_each, field_each}
use warpdb.Engine.Logged.Splitting.{spec-rpush, spec-sadd, spec-srem, spec-hdel, spec-hmset}
use warpdb.Engine.Logged.Agreement.{Agree, Reproduces, records_of}

module _ {X : Type 0} (pick : ℕ) (k name : Bytes) (arg : X → List Bytes) (op : List X → Op)
    (P : X → Type 0)
    (replays : (x : X) (s : Store)
      → P x
      → replay_record pick s (make_record (op_to_code name) (arg x)) ≡ (run (op (x ∷ [])) k s).0)
    (splits : (x y : X) (ys : List X) (sl : Slot)
      → (spec (op (y ∷ ys)) (spec (op (x ∷ [])) sl).0).0 ≡ (spec (op (x ∷ y ∷ ys)) sl).0) where
  -- The operation on one value and then on the others.
  one_by_one :
      (x y : X) (ys : List X) (s : Store)
      → Agree (run (op (y ∷ ys)) k (run (op (x ∷ [])) k s).0).0 (run (op (x ∷ y ∷ ys)) k s).0
  one_by_one x y ys s j =
      (run-Implements (op (y ∷ ys)) k s1).slots j
      ∙ at_slot (beq k j) ((run-Implements (op (x ∷ [])) k s).slots j)
      ∙ sym ((run-Implements (op (x ∷ y ∷ ys)) k s).slots j)
    where
      s1 : Store
      s1 = (run (op (x ∷ [])) k s).0

      here : slot k s1 ≡ (spec (op (x ∷ [])) (slot k s)).0
      here = (run-Implements (op (x ∷ [])) k s).slots k ∙ rw beq_refl

      at_slot :
          (b : Bool)
          → slot j s1 ≡ (if b then (spec (op (x ∷ [])) (slot k s)).0 else slot j s)
          → (if b then (spec (op (y ∷ ys)) (slot k s1)).0 else slot j s1)
            ≡ (if b then (spec (op (x ∷ y ∷ ys)) (slot k s)).0 else slot j s)
      at_slot true e = ap (λ sl. (spec (op (y ∷ ys)) sl).0) here ∙ splits x y ys (slot k s)
      at_slot false e = e

  -- The records of the values, replayed, do what the operation on all of them does.
  pub each-Reproduces :
      (x : X) (xs : List X)
      → All P (x ∷ xs)
      → Reproduces pick (records_of name (map arg (x ∷ xs))) (op (x ∷ xs)) k
  unfolding replay_records
  each-Reproduces x [] h s j = ap (slot j) (replays x s h.0)
  each-Reproduces x (y ∷ ys) h s j =
      ap (λ t. slot j (replay_records pick (records_of name (map arg (y ∷ ys))) t))
        (replays x s h.0)
      ∙ each-Reproduces y ys h.1 (run (op (x ∷ [])) k s).0 j
      ∙ one_by_one x y ys s j

-- The arguments of the writes, value by value.
pub one_each-map : (k : Bytes) (vs : List Bytes) → one_each k vs ≡ map (λ v. k ∷ v ∷ []) vs
unfolding one_each
one_each-map k [] = refl
one_each-map k (v ∷ vs) = ap (λ args. (k ∷ v ∷ []) ∷ args) (one_each-map k vs)

pub field_each-map :
    (k : Bytes) (m : Map Bytes) → field_each k m ≡ map (λ (e : Bytes × Bytes). k ∷ e.0 ∷ e.1 ∷ []) m
unfolding field_each
field_each-map k [] = refl
field_each-map k ((f, v) ∷ m) = ap (λ args. (k ∷ f ∷ v ∷ []) ∷ args) (field_each-map k m)

-- A field without a NUL byte.
abbrev pub IsClean : Bytes × Bytes → Type 0
IsClean (f, v) = cut_nul f ≡ none

replay-hset :
    (pick : ℕ) (k : Bytes) (e : Bytes × Bytes) (s : Store)
    → IsClean e
    → replay_record pick s (make_record (op_to_code (codes "HSET")) (k ∷ e.0 ∷ e.1 ∷ []))
      ≡ (run (hmset_op (e ∷ [])) k s).0
unfolding replay_record make_record op_to_code beq run hset hset_shard hmset insert_all update
    locked
replay-hset pick k (f, v) s clean =
    ap (λ (p : Bytes × Bytes). (hset k p.0 p.1 s).0)
      (hash_field_and_value-make_record k f v ∙ rw clean)

module _ (pick : ℕ) (k : Bytes) where
  Unit-All : (vs : List Bytes) → All (λ v. Unit {0}) vs
  Unit-All [] = tt
  Unit-All (v ∷ vs) = (tt, Unit-All vs)

  -- Each call with several values, from the replay of one of its records.
  values-Reproduce :
      (name : Bytes) (op : List Bytes → Op)
      → ((v : Bytes) (s : Store)
          → replay_record pick s (make_record (op_to_code name) (k ∷ v ∷ []))
            ≡ (run (op (v ∷ [])) k s).0)
      → ((x y : Bytes) (ys : List Bytes) (sl : Slot)
          → (spec (op (y ∷ ys)) (spec (op (x ∷ [])) sl).0).0 ≡ (spec (op (x ∷ y ∷ ys)) sl).0)
      → (v : Bytes) (vs : List Bytes)
      → Reproduces pick (records_of name (one_each k (v ∷ vs))) (op (v ∷ vs)) k
  values-Reproduce name op replays splits v vs s =
      subst
        (λ argss. Agree (replay_records pick (records_of name argss) s) (run (op (v ∷ vs)) k s).0)
        (sym (one_each-map k (v ∷ vs)))
        (each-Reproduces pick k name (λ w. k ∷ w ∷ []) op (λ w. Unit {0}) (λ w t h. replays w t)
          splits v vs (Unit-All (v ∷ vs)) s)

  pub rpush-Reproduces :
      (v : Bytes) (vs : List Bytes)
      → Reproduces pick (records_of (codes "RPUSH") (one_each k (v ∷ vs))) (rpush_op (v ∷ vs)) k
  unfolding replay_record make_record op_to_code beq run
  rpush-Reproduces = values-Reproduce (codes "RPUSH") rpush_op (λ v s. refl) spec-rpush

  pub sadd-Reproduces :
      (v : Bytes) (vs : List Bytes)
      → Reproduces pick (records_of (codes "SADD") (one_each k (v ∷ vs))) (sadd_op (v ∷ vs)) k
  unfolding replay_record make_record op_to_code beq run
  sadd-Reproduces = values-Reproduce (codes "SADD") sadd_op (λ v s. refl) spec-sadd

  pub srem-Reproduces :
      (v : Bytes) (vs : List Bytes)
      → Reproduces pick (records_of (codes "SREM") (one_each k (v ∷ vs))) (srem_op (v ∷ vs)) k
  unfolding replay_record make_record op_to_code beq run
  srem-Reproduces = values-Reproduce (codes "SREM") srem_op (λ v s. refl) spec-srem

  pub hdel-Reproduces :
      (v : Bytes) (vs : List Bytes)
      → Reproduces pick (records_of (codes "HDEL") (one_each k (v ∷ vs))) (hdel_op (v ∷ vs)) k
  unfolding replay_record make_record op_to_code beq run
  hdel-Reproduces = values-Reproduce (codes "HDEL") hdel_op (λ v s. refl) spec-hdel

  pub hmset-Reproduces :
      (e : Bytes × Bytes) (m : Map Bytes)
      → All IsClean (e ∷ m)
      → Reproduces pick (records_of (codes "HSET") (field_each k (e ∷ m))) (hmset_op (e ∷ m)) k
  hmset-Reproduces e m h s =
      subst
        (λ argss.
          Agree (replay_records pick (records_of (codes "HSET") argss) s)
            (run (hmset_op (e ∷ m)) k s).0)
        (sym (field_each-map k (e ∷ m)))
        (each-Reproduces pick k (codes "HSET") (λ (p : Bytes × Bytes). k ∷ p.0 ∷ p.1 ∷ []) hmset_op
          IsClean (replay-hset pick k) spec-hmset e m h s)
