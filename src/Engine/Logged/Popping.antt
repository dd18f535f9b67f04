-- ===== src/Engine/Logged/Popping.antt =====
-- An SPop in the memory and in the log, which does not say what was popped.
use warpdb.Base.{
  ℕ, ◌≡◌, refl, ap, ◌∙◌, false, some, List, [], ◌∷◌, ◌++◌, Bytes, codes, beq, beq_refl, beq_sym,
}
use warpdb.GoMap.{keys, delete}
use warpdb.Store.{Store, Members, Result, ok, new_store}
use warpdb.Store.Sets
use warpdb.Store.Sets.{nth_key}
use warpdb.Store.Slots.{Slot, slot}
use warpdb.Store.Slots.Spec.{run, spec, spop_op, Reply, text}
use warpdb.Store.Slots.Spec.Refinement.{run-Implements}
use warpdb.Wal.Op.{op_to_code}
use warpdb.Wal.Record.{Record, make_record}
use warpdb.Wal.Replay.{replay_record, replay_records}
use warpdb.Engine.Logged.{spop, logged_after, write, write_anyway, write_record}
use warpdb.Engine.Logged.Agreement.{Agree, replay-append}
use warpdb.Engine.Logged.Calls.{fine}

-- A set of two members, in the order in which its iteration goes through them.
abbrev pub pair : Bytes → Bytes → Members
pair a b = (a, tt) ∷ (b, tt) ∷ []

-- An SPop from it, where the iteration begins with the first or with the second.
spec-spop_first :
    (a b : Bytes) (sl : Slot)
    → sl.members ≡ some (pair a b)
    → beq a b ≡ false
    → spec (spop_op 0) sl ≡ (record sl { members = some ((b, tt) ∷ []) }, text (ok a))
unfolding spec keys delete
spec-spop_first a b sl e apart = rw (e, beq_refl, beq_sym b a, apart) refl

spec-spop_second :
    (a b : Bytes) (sl : Slot)
    → sl.members ≡ some (pair a b)
    → beq a b ≡ false
    → spec (spop_op 1) sl ≡ (record sl { members = some ((a, tt) ∷ []) }, text (ok b))
unfolding spec keys delete
spec-spop_second a b sl e apart = rw (e, beq_refl, apart) refl

members_after :
    (pick : ℕ) (k : Bytes) (s : Store)
    → (slot k (Sets.spop pick k s).0).members ≡ (spec (spop_op pick) (slot k s)).0.members
unfolding run
members_after pick k s =
    ap (λ (sl : Slot). sl.members) ((run-Implements (spop_op pick) k s).slots k) ∙ rw beq_refl refl

reply_of :
    (pick : ℕ) (k : Bytes) (s : Store)
    → text (Sets.spop pick k s).1 ≡ (spec (spop_op pick) (slot k s)).1
unfolding run
reply_of pick k s = (run-Implements (spop_op pick) k s).reply

logged_after-ok :
    (name k v : Bytes) (out : Store × Result Bytes) (log : List Record) (mem : Store)
    → out.1 ≡ ok v
    → logged_after name k out (fine log mem)
      ≡ (fine (log ++ make_record (op_to_code name) (k ∷ []) ∷ []) out.0, ok v)
unfolding logged_after write_anyway write write_record
logged_after-ok name k v (s, r) log mem e = rw e refl

replay_spop :
    (pick : ℕ) (k : Bytes) (s : Store)
    → replay_record pick s (make_record (op_to_code (codes "SPOP")) (k ∷ []))
      ≡ (Sets.spop pick k s).0
unfolding replay_record make_record op_to_code beq
replay_spop pick k s = refl

replayed_one :
    (pick : ℕ) (k : Bytes) (s : Store)
    → replay_records pick (make_record (op_to_code (codes "SPOP")) (k ∷ []) ∷ []) s
      ≡ (Sets.spop pick k s).0
unfolding replay_records
replayed_one pick k s = replay_spop pick k s

abbrev read_text : Reply → Result Bytes → Result Bytes
read_text (text r) other = r
read_text _ other = other

-- If the log of an engine rebuilds its memory and its writes succeed, and a key holds a set of two
-- members, of which the iteration of SPop meets the first, then the memory keeps the second member,
-- and a replay of the log in which the iteration meets the second keeps the first.
pub spop_diverges :
    (k a b : Bytes) (log : List Record) (mem : Store)
    → Agree (replay_records 1 log new_store) mem
    → (slot k mem).members ≡ some (pair a b)
    → beq a b ≡ false
    → let (e, result) = spop 0 k (fine log mem) in
      (result ≡ ok a)
      × (((slot k e.mem).members ≡ some ((b, tt) ∷ []))
          × ((slot k (replay_records 1 e.log new_store)).members ≡ some ((a, tt) ∷ [])))
unfolding spop
spop_diverges k a b log mem h e apart =
    rw (logged_after-ok (codes "SPOP") k a (Sets.spop 0 k mem) log mem popped) (
      refl,
      (
        members_after 0 k mem ∙ ap (λ (x : Slot × Reply). x.0.members) first,
        ap (λ s. (slot k s).members) replayed
            ∙ members_after 1 k before
            ∙ ap (λ (x : Slot × Reply). x.0.members)
                (spec-spop_second a b (slot k before) e' apart),
      ),
    )
  where
    before : Store
    before = replay_records 1 log new_store

    e' : (slot k before).members ≡ some (pair a b)
    e' = ap (λ (sl : Slot). sl.members) (h k) ∙ e

    first :
        spec (spop_op 0) (slot k mem)
        ≡ (record (slot k mem) { members = some ((b, tt) ∷ []) }, text (ok a))
    first = spec-spop_first a b (slot k mem) e apart

    popped : (Sets.spop 0 k mem).1 ≡ ok a
    popped = ap (λ r. read_text r (ok a)) (reply_of 0 k mem ∙ ap (λ (x : Slot × Reply). x.1) first)

    replayed :
        replay_records 1 (log ++ make_record (op_to_code (codes "SPOP")) (k ∷ []) ∷ []) new_store
        ≡ (Sets.spop 1 k before).0
    replayed =
        replay-append 1 log (make_record (op_to_code (codes "SPOP")) (k ∷ []) ∷ []) new_store
        ∙ replayed_one 1 k before
