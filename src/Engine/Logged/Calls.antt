-- ===== src/Engine/Logged/Calls.antt =====
-- The calls of a WALEngine, and that each keeps the log in step with the memory.
use warpdb.Base.{
  ℕ, All, Bool, true, false, ◌≡◌, refl, sym, ap, ◌∙◌, none, List, [], ◌∷◌, ◌++◌, Bytes, codes, beq,
  beq_iff, if◌then◌else◌,
}
use mathlib.Core.List.{append_assoc, append-nil}
use warpdb.GoMap.{Map}
use warpdb.Store.{Store, Result, Error, ok, fail, new_store}
use warpdb.Store.Lists
use warpdb.Store.Hashes
use warpdb.Store.Expiry.Sweep.{flush_all-slot}
use warpdb.Store.Slots.{Slot, slot}
use warpdb.Store.Slots.Spec.{
  Op, run, spec, set_op, del_op, incr_op, decr_op, lpush_op, rpush_op, lpop_op, rpop_op, sadd_op,
  srem_op, hset_op, hdel_op, hmset_op, reply_with, text, Reply,
}
use warpdb.Store.Slots.Spec.Refinement.{run-Implements}
use warpdb.Wal.Op
use warpdb.Wal.Op.{op_to_code}
use warpdb.Wal.Record.{Record, make_record, cut_nul}
use warpdb.Wal.Record.Fields.{hash_field_and_value-make_record}
use warpdb.Wal.Replay.{replay_record, replay_records}
use warpdb.Engine.Logged.{
  WalEngine, write, write_record, write_anyway, write_all, one_each, logged_first, logged_after,
  set, del, incr, decr, flush_all, lpush, rpush, lpop, rpop, sadd, srem, hset, hdel, hmset,
  field_each,
}
use warpdb.Engine.Logged.Agreement.{
  Agree, Reproduces, replay-append, extend, one_record, spec-lpop_fail, spec-rpop_fail, records_of,
}
use warpdb.Engine.Logged.Repeated.{
  IsClean, rpush-Reproduces, sadd-Reproduces, srem-Reproduces, hdel-Reproduces, hmset-Reproduces,
}

-- The log rebuilds the memory, and no write is going to fail.
pub record IsDurable (pick : ℕ) (e : WalEngine) : Type 0 where
  pub rebuilds : Agree (replay_records pick e.log new_store) e.mem
  pub no_failure : e.outcomes ≡ []

-- The calls of a WALEngine whose log entries reproduce them. LPush stands here with one value, the
-- others that take several with one or more; the fields of HSet and HMSet hold no NUL byte.
pub data Call : Type 0 where
  set_call : Bytes → Bytes → Call
  del_call : Bytes → Call
  incr_call : Bytes → Call
  decr_call : Bytes → Call
  flush_call : Call
  lpush_call : Bytes → Bytes → Call
  rpush_call : Bytes → Bytes → List Bytes → Call
  lpop_call : Bytes → Call
  rpop_call : Bytes → Call
  sadd_call : Bytes → Bytes → List Bytes → Call
  srem_call : Bytes → Bytes → List Bytes → Call
  hset_call : Bytes → (f : Bytes) → Bytes → cut_nul f ≡ none → Call
  hdel_call : Bytes → Bytes → List Bytes → Call
  hmset_call : Bytes → (f : Bytes × Bytes) (fs : Map Bytes) → All IsClean (f ∷ fs) → Call

unfoldable pub perform : Call → WalEngine → WalEngine
perform (set_call k v) e = (set k v e).0
perform (del_call k) e = (del k e).0
perform (incr_call k) e = (incr k e).0
perform (decr_call k) e = (decr k e).0
perform flush_call e = flush_all e
perform (lpush_call k v) e = (lpush k (v ∷ []) e).0
perform (rpush_call k v vs) e = (rpush k (v ∷ vs) e).0
perform (lpop_call k) e = (lpop k e).0
perform (rpop_call k) e = (rpop k e).0
perform (sadd_call k m ms) e = (sadd k (m ∷ ms) e).0
perform (srem_call k m ms) e = (srem k (m ∷ ms) e).0
perform (hset_call k f v _) e = (hset k f v e).0
perform (hdel_call k f fs) e = (hdel k (f ∷ fs) e).0
perform (hmset_call k f fs _) e = hmset k (f ∷ fs) e

-- An engine none of whose writes is going to fail.
abbrev pub fine : List Record → Store → WalEngine
fine log mem = record { mem = mem; log = log; outcomes = [] }

pub write_all-fine :
    (name : Bytes) (argss : List (List Bytes)) (log : List Record) (mem : Store)
    → write_all name argss (fine log mem) ≡ fine (log ++ records_of name argss) mem
unfolding write_all write_anyway write write_record
write_all-fine name [] log mem = ap (λ l. fine l mem) (sym (append-nil log))
write_all-fine name (args ∷ more) log mem =
    write_all-fine name more (log ++ make_record (op_to_code name) args ∷ []) mem
    ∙ ap (λ l. fine l mem) (append_assoc log _ _)

module _ (pick : ℕ) (log : List Record) (mem : Store)
    (h : Agree (replay_records pick log new_store) mem) where
  -- One more record, and one operation on memory.
  one_more :
      (r : Record) (op : Op) (k : Bytes)
      → ((s : Store) → replay_record pick s r ≡ (run op k s).0)
      → IsDurable pick (fine (log ++ r ∷ []) (run op k mem).0)
  one_more r op k e = record {
    rebuilds = extend pick (r ∷ []) op k log mem (one_record pick r op k e) h;
    no_failure = refl;
  }

  pub set-IsDurable : (k v : Bytes) → IsDurable pick (perform (set_call k v) (fine log mem))
  unfolding perform set logged_first write write_record run make_record replay_record op_to_code beq
  set-IsDurable k v = one_more (make_record Op.set (k ∷ v ∷ [])) (set_op v) k (λ s. refl)

  pub del-IsDurable : (k : Bytes) → IsDurable pick (perform (del_call k) (fine log mem))
  unfolding perform del logged_first write write_record run make_record replay_record op_to_code beq
  del-IsDurable k = one_more (make_record Op.del (k ∷ [])) del_op k (λ s. refl)

  pub incr-IsDurable : (k : Bytes) → IsDurable pick (perform (incr_call k) (fine log mem))
  unfolding perform incr logged_first write write_record run make_record replay_record op_to_code
      beq
  incr-IsDurable k = one_more (make_record Op.incr (k ∷ [])) incr_op k (λ s. refl)

  pub decr-IsDurable : (k : Bytes) → IsDurable pick (perform (decr_call k) (fine log mem))
  unfolding perform decr logged_first write write_record run make_record replay_record op_to_code
      beq
  decr-IsDurable k = one_more (make_record Op.decr (k ∷ [])) decr_op k (λ s. refl)

  pub lpush-IsDurable : (k v : Bytes) → IsDurable pick (perform (lpush_call k v) (fine log mem))
  unfolding perform lpush write_all one_each write_anyway write write_record run make_record
      replay_record op_to_code beq
  lpush-IsDurable k v =
      one_more (make_record Op.lpush (k ∷ v ∷ [])) (lpush_op (v ∷ [])) k (λ s. refl)

  pub hset-IsDurable :
      (k f v : Bytes) (clean : cut_nul f ≡ none)
      → IsDurable pick (perform (hset_call k f v clean) (fine log mem))
  unfolding perform hset write_anyway write write_record run make_record replay_record op_to_code
      beq
  hset-IsDurable k f v clean = one_more (make_record Op.hset (k ∷ f ∷ v ∷ [])) (hset_op f v) k (λ s.
      ap (λ (p : Bytes × Bytes). (Hashes.hset k p.0 p.1 s).0)
        (hash_field_and_value-make_record k f v ∙ rw clean))

  pub flush-IsDurable : IsDurable pick (perform flush_call (fine log mem))
  unfolding perform flush_all write_anyway write write_record replay_record make_record op_to_code
      beq replay_records
  flush-IsDurable = record {
    rebuilds = λ j.
        ap (slot j) (replay-append pick log (make_record Op.flush [] ∷ []) new_store)
        ∙ flush_all-slot (replay_records pick log new_store) j
        ∙ sym (flush_all-slot mem j);
    no_failure = refl;
  }

  -- A pop is logged if it took something; if it failed, it changed nothing.
  popped :
      (name k : Bytes) (op : Op) (out : Store × Result Bytes)
      → reply_with text out ≡ run op k mem
      → ((s : Store)
          → replay_record pick s (make_record (op_to_code name) (k ∷ [])) ≡ (run op k s).0)
      → ((x : Error) (sl : Slot) → (spec op sl).1 ≡ text (fail x) → (spec op sl).0 ≡ sl)
      → IsDurable pick (logged_after name k out (fine log mem)).0
  unfolding logged_after write_anyway write write_record
  popped name k op (s', ok val) e replays same =
      rw (ap (λ (o : Store × Reply). o.0) e) (one_more _ op k replays)
  popped name k op (s', fail x) e replays same = record {
    rebuilds = λ j. h j ∙ sym (unchanged j);
    no_failure = refl;
  }
    where
      kept : (spec op (slot k mem)).0 ≡ slot k mem
      kept =
          same x (slot k mem)
            (sym ((run-Implements op k mem).reply) ∙ sym (ap (λ (o : Store × Reply). o.1) e))

      unchanged : (j : Bytes) → slot j s' ≡ slot j mem
      unchanged j =
          ap (λ (o : Store × Reply). slot j o.0) e
          ∙ (run-Implements op k mem).slots j
          ∙ rw kept (if_same (beq k j) ((beq_iff k j).0))
        where
          if_same :
              (b : Bool) → (b ≡ true → k ≡ j) → (if b then slot k mem else slot j mem) ≡ slot j mem
          if_same true eq = rw (eq refl)
          if_same false eq = refl

  pub lpop-IsDurable : (k : Bytes) → IsDurable pick (perform (lpop_call k) (fine log mem))
  unfolding perform lpop
  lpop-IsDurable k =
      popped (codes "LPOP") k lpop_op (Lists.lpop k mem) (unfold run in refl)
        (λ s. unfold replay_record make_record op_to_code beq run in refl) spec-lpop_fail

  pub rpop-IsDurable : (k : Bytes) → IsDurable pick (perform (rpop_call k) (fine log mem))
  unfolding perform rpop
  rpop-IsDurable k =
      popped (codes "RPOP") k rpop_op (Lists.rpop k mem) (unfold run in refl)
        (λ s. unfold replay_record make_record op_to_code beq run in refl) spec-rpop_fail

  -- A call whose writes all come before it.
  logged_all :
      (name : Bytes) (argss : List (List Bytes)) (op : Op) (k : Bytes)
      → Reproduces pick (records_of name argss) op k
      → IsDurable pick (record (write_all name argss (fine log mem)) {
        mem = (run op k (write_all name argss (fine log mem)).mem).0;
      })
  logged_all name argss op k r =
      rw (write_all-fine name argss log mem)
        (record { rebuilds = extend pick _ op k log mem r h; no_failure = refl })

  pub rpush-IsDurable :
      (k v : Bytes) (vs : List Bytes) → IsDurable pick (perform (rpush_call k v vs) (fine log mem))
  unfolding perform rpush run
  rpush-IsDurable k v vs =
      logged_all (codes "RPUSH") (one_each k (v ∷ vs)) (rpush_op (v ∷ vs)) k
        (rpush-Reproduces pick k v vs)

  pub sadd-IsDurable :
      (k m : Bytes) (ms : List Bytes) → IsDurable pick (perform (sadd_call k m ms) (fine log mem))
  unfolding perform sadd run
  sadd-IsDurable k m ms =
      logged_all (codes "SADD") (one_each k (m ∷ ms)) (sadd_op (m ∷ ms)) k
        (sadd-Reproduces pick k m ms)

  pub srem-IsDurable :
      (k m : Bytes) (ms : List Bytes) → IsDurable pick (perform (srem_call k m ms) (fine log mem))
  unfolding perform srem run
  srem-IsDurable k m ms =
      logged_all (codes "SREM") (one_each k (m ∷ ms)) (srem_op (m ∷ ms)) k
        (srem-Reproduces pick k m ms)

  pub hdel-IsDurable :
      (k f : Bytes) (fs : List Bytes) → IsDurable pick (perform (hdel_call k f fs) (fine log mem))
  unfolding perform hdel run
  hdel-IsDurable k f fs =
      logged_all (codes "HDEL") (one_each k (f ∷ fs)) (hdel_op (f ∷ fs)) k
        (hdel-Reproduces pick k f fs)

  pub hmset-IsDurable :
      (k : Bytes) (f : Bytes × Bytes) (fs : Map Bytes) (clean : All IsClean (f ∷ fs))
      → IsDurable pick (perform (hmset_call k f fs clean) (fine log mem))
  unfolding perform hmset run
  hmset-IsDurable k f fs clean =
      logged_all (codes "HSET") (field_each k (f ∷ fs)) (hmset_op (f ∷ fs)) k
        (hmset-Reproduces pick k f fs clean)
