-- ===== src/Engine/Logged/Divergence.antt =====
-- An LPush of two values and an Expire, in the memory and in the log.
use warpdb.Base.{ℕ, ◌≡◌, refl, ap, ◌∙◌, some, List, [], ◌∷◌, ◌++◌, Bytes, codes, beq, beq_refl}
use warpdb.Store.{Store, new_store}
use warpdb.Base.{ℤ, ◌+ℤ◌, true}
use warpdb.Store.{Result, ok}
use warpdb.Store.Expiry.{expire}
use warpdb.Store.Slots.Spec.{expire_op, is_present, status, Reply}
use warpdb.Engine.Logged.{WalEngine, wal_engine}
use warpdb.Store.Slots.{Slot, slot}
use warpdb.Store.Slots.Spec.{run, spec, contents, lpush_op}
use warpdb.Store.Slots.Spec.Refinement.{run-Implements}
use warpdb.Wal.Op.{op_to_code}
use warpdb.Wal.Record.{Record, make_record}
use warpdb.Wal.Replay.{replay_record, replay_records}
use warpdb.Engine.Logged.{one_each, lpush}
use warpdb.Engine.Logged.Agreement.{Agree, replay-append, records_of}
use warpdb.Engine.Logged.Calls.{fine, write_all-fine}

replay_lpush :
    (pick : ℕ) (k v : Bytes) (s : Store)
    → replay_record pick s (make_record (op_to_code (codes "LPUSH")) (k ∷ v ∷ []))
      ≡ (run (lpush_op (v ∷ [])) k s).0
unfolding replay_record make_record op_to_code beq run
replay_lpush pick k v s = refl

-- The list at `k` after an LPush.
list-lpush :
    (k : Bytes) (vs : List Bytes) (s : Store)
    → (slot k (run (lpush_op vs) k s).0).list ≡ some (vs ++ contents (slot k s).list)
list-lpush k vs s =
    ap (λ (sl : Slot). sl.list) ((run-Implements (lpush_op vs) k s).slots k)
    ∙ rw beq_refl (unfold spec in refl)

two_replayed :
    (pick : ℕ) (k v w : Bytes) (s : Store)
    → (slot k (replay_records pick (records_of (codes "LPUSH") (one_each k (v ∷ w ∷ []))) s)).list
      ≡ some (w ∷ v ∷ contents (slot k s).list)
unfolding replay_records one_each
two_replayed pick k v w s =
    rw (replay_lpush pick k v, replay_lpush pick k w)
      (list-lpush k (w ∷ []) (run (lpush_op (v ∷ [])) k s).0 ∙ rw (list-lpush k (v ∷ []) s))

-- If the log of an engine rebuilds its memory and its writes succeed, then after an LPush of two
-- values the memory holds the first in front, and the replay of the log holds the second in front,
-- above the list that both hold behind.
pub lpush_two_diverges :
    (pick : ℕ) (k v w : Bytes) (log : List Record) (mem : Store)
    → Agree (replay_records pick log new_store) mem
    → ((slot k (lpush k (v ∷ w ∷ []) (fine log mem)).0.mem).list
        ≡ some (v ∷ w ∷ contents (slot k mem).list))
      × ((slot k (replay_records pick (lpush k (v ∷ w ∷ []) (fine log mem)).0.log new_store)).list
          ≡ some (w ∷ v ∷ contents (slot k mem).list))
unfolding lpush run
lpush_two_diverges pick k v w log mem h =
    rw (write_all-fine (codes "LPUSH") (one_each k (v ∷ w ∷ [])) log mem) (
      list-lpush k (v ∷ w ∷ []) mem,
      rw (replay-append pick log _ new_store) (
          two_replayed pick k v w (replay_records pick log new_store)
          ∙ ap (λ (sl : Slot). some (w ∷ v ∷ contents sl.list)) (h k)),
    )

abbrev read_status : Reply → Result (Unit {0}) → Result (Unit {0})
read_status (status r) other = r
read_status _ other = other

spec-expire :
    (now ttl : ℤ) (sl : Slot)
    → is_present sl ≡ true
    → spec (expire_op now ttl) sl ≡ (record sl { expiry = some (now +ℤ ttl) }, status (ok tt))
unfolding spec
spec-expire now ttl sl present = rw present refl

-- If the log of an engine rebuilds its memory, then an Expire of a key that is present succeeds and
-- sets the expiry in the memory, and the replay of the log has the expiry that the key had before.
pub expire_diverges :
    (pick : ℕ) (now ttl : ℤ) (k : Bytes) (e : WalEngine)
    → Agree (replay_records pick e.log new_store) e.mem
    → is_present (slot k e.mem) ≡ true
    → let (e', result) = wal_engine.expire now k ttl e in
      ((slot k e'.mem).expiry ≡ some (now +ℤ ttl))
      × (((slot k (replay_records pick e'.log new_store)).expiry ≡ (slot k e.mem).expiry)
          × (result ≡ ok tt))
unfolding run
expire_diverges pick now ttl k e h present =
    let done = run-Implements (expire_op now ttl) k e.mem in
    (
      ap (λ (sl : Slot). sl.expiry) (done.slots k)
          ∙ rw beq_refl
              (ap (λ (x : Slot × Reply). x.0.expiry) (spec-expire now ttl (slot k e.mem) present)),
      (
        ap (λ (sl : Slot). sl.expiry) (h k),
        ap (λ x. read_status x (expire now k ttl e.mem).1)
            (done.reply
              ∙ ap (λ (x : Slot × Reply). x.1) (spec-expire now ttl (slot k e.mem) present)),
      ),
    )
