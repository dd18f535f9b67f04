-- ===== src/Engine/Logged/Recovery.antt =====
-- The log of a WALEngine and its memory: what NewWALEngine replays after a restart.
use warpdb.Base.{ℕ, refl, sym, List, [], ◌∷◌, foldl}
use mathlib.Core.Path.{subst}
use warpdb.Store.{Store, new_store}
use warpdb.Wal.Record.{Record}
use warpdb.Wal.Replay.{replay_records}
use warpdb.Engine.Logged.{WalEngine, Outcome}
use warpdb.Engine.Logged.Agreement.{Agree}
use warpdb.Engine.Logged.Calls.{
  IsDurable, Call, perform, fine, set_call, del_call, incr_call, decr_call, flush_call, lpush_call,
  rpush_call, lpop_call, rpop_call, sadd_call, srem_call, hset_call, hdel_call, set-IsDurable,
  del-IsDurable, incr-IsDurable, decr-IsDurable, lpush-IsDurable, sadd-IsDurable, srem-IsDurable,
  hdel-IsDurable, hset-IsDurable, flush-IsDurable, lpop-IsDurable, rpop-IsDurable, rpush-IsDurable,
  hmset_call, hmset-IsDurable,
}

-- Every call keeps the log in step with the memory.
perform-fine :
    (pick : ℕ) (c : Call) (log : List Record) (mem : Store)
    → Agree (replay_records pick log new_store) mem
    → IsDurable pick (perform c (fine log mem))
perform-fine pick (set_call k v) log mem h = set-IsDurable pick log mem h k v
perform-fine pick (del_call k) log mem h = del-IsDurable pick log mem h k
perform-fine pick (incr_call k) log mem h = incr-IsDurable pick log mem h k
perform-fine pick (decr_call k) log mem h = decr-IsDurable pick log mem h k
perform-fine pick flush_call log mem h = flush-IsDurable pick log mem h
perform-fine pick (lpush_call k v) log mem h = lpush-IsDurable pick log mem h k v
perform-fine pick (rpush_call k v vs) log mem h = rpush-IsDurable pick log mem h k v vs
perform-fine pick (lpop_call k) log mem h = lpop-IsDurable pick log mem h k
perform-fine pick (rpop_call k) log mem h = rpop-IsDurable pick log mem h k
perform-fine pick (sadd_call k m ms) log mem h = sadd-IsDurable pick log mem h k m ms
perform-fine pick (srem_call k m ms) log mem h = srem-IsDurable pick log mem h k m ms
perform-fine pick (hset_call k f v x) log mem h = hset-IsDurable pick log mem h k f v x
perform-fine pick (hdel_call k f fs) log mem h = hdel-IsDurable pick log mem h k f fs
perform-fine pick (hmset_call k f fs x) log mem h = hmset-IsDurable pick log mem h k f fs x

-- A call of the engine whose writes all succeed leaves a log that rebuilds the memory, if the log
-- did so before.
pub perform-IsDurable :
    (pick : ℕ) (c : Call) (e : WalEngine) → IsDurable pick e → IsDurable pick (perform c e)
perform-IsDurable pick c e d =
    subst (λ (os : List Outcome). IsDurable pick (perform c (record e { outcomes = os })))
      (sym d.no_failure) (perform-fine pick c e.log e.mem d.rebuilds)

abbrev pub fresh : WalEngine
fresh = fine [] new_store

pub fresh-IsDurable : (pick : ℕ) → IsDurable pick fresh
fresh-IsDurable pick = record { rebuilds = λ j. unfold replay_records in refl; no_failure = refl }

-- After any sequence of Set, Del, Incr, Decr, FlushAll, LPush of one value, RPush, SAdd, SRem and
-- HDel of one or more values, LPop, RPop, HSet of a field without a NUL byte and HMSet of one or
-- more such fields on a fresh WAL engine whose log writes all succeed, applying the records that it
-- wrote, in their order and as replay applies a record, to an empty store gives, at every key, what
-- the memory of the engine holds there.
pub recovery :
    (pick : ℕ) (calls : List Call)
    → Agree
        (replay_records pick (foldl (λ e c. perform c e) fresh calls).log new_store)
        (foldl (λ e c. perform c e) fresh calls).mem
recovery pick calls = (all calls fresh (fresh-IsDurable pick)).rebuilds
  where
    all :
        (cs : List Call) (e : WalEngine)
        → IsDurable pick e
        → IsDurable pick (foldl (λ e c. perform c e) e cs)
    all [] e d = d
    all (c ∷ cs) e d = all cs (perform c e) (perform-IsDurable pick c e d)
