-- ===== src/Engine/Logged/Transparent.antt =====
-- The WAL engine answers as the memory engine does, where its writes succeed.
use warpdb.Base.{ℕ, ◌≡◌, refl, sym, ap, List, [], Bytes, ℤ, codes}
use mathlib.Core.Path.{subst}
use warpdb.GoMap.{Map}
use warpdb.Store.{Store, Result, ok, fail}
use warpdb.Engine.Memory.{memory_engine}
use warpdb.Engine.Simulation.{Related, Simulates}
use warpdb.Store.Lists
use warpdb.Store.Sets
use warpdb.Wal.Record.{Record}
use warpdb.Engine.Logged.{
  WalEngine, Outcome, wal_engine, write, write_record, write_anyway, one_each, field_each,
  logged_first, logged_after, set, del, incr, decr, flush_all, lpush, rpush, lpop, rpop, sadd, srem,
  spop, hset, hdel, hmset,
}
use warpdb.Engine.Logged.Calls.{fine, write_all-fine}

-- The memory of the engine is this store, and none of its writes is going to fail.
abbrev pub IsOver : WalEngine → Store → Type 0
IsOver e s = (e.mem ≡ s) × (e.outcomes ≡ [])

logged_after-Related :
    (name k : Bytes) (out : Store × Result Bytes) (e : WalEngine)
    → e.outcomes ≡ []
    → Related IsOver (logged_after name k out e) out
unfolding logged_after write_anyway write write_record
logged_after-Related name k (s, ok v) e h = rw h ((refl, refl), refl)
logged_after-Related name k (s, fail x) e h = ((refl, h), refl)

module _ (log : List Record) (mem : Store) where
  get-fine :
      (now : ℤ) (k : Bytes)
      → Related IsOver (wal_engine.get now k (fine log mem)) (memory_engine.get now k mem)
  get-fine now k = ((refl, refl), refl)

  set-fine :
      (k v : Bytes) → Related IsOver (wal_engine.set k v (fine log mem)) (memory_engine.set k v mem)
  unfolding set logged_first write write_record
  set-fine k v = ((refl, refl), refl)

  del-fine :
      (k : Bytes) → Related IsOver (wal_engine.del k (fine log mem)) (memory_engine.del k mem)
  unfolding del logged_first write write_record
  del-fine k = ((refl, refl), refl)

  exists-fine :
      (now : ℤ) (k : Bytes)
      → Related IsOver (wal_engine.exists now k (fine log mem)) (memory_engine.exists now k mem)
  exists-fine now k = ((refl, refl), refl)

  incr-fine :
      (k : Bytes) → Related IsOver (wal_engine.incr k (fine log mem)) (memory_engine.incr k mem)
  unfolding incr logged_first write write_record
  incr-fine k = ((refl, refl), refl)

  decr-fine :
      (k : Bytes) → Related IsOver (wal_engine.decr k (fine log mem)) (memory_engine.decr k mem)
  unfolding decr logged_first write write_record
  decr-fine k = ((refl, refl), refl)

  expire-fine :
      (now : ℤ) (k : Bytes) (ttl : ℤ)
      → Related IsOver
          (wal_engine.expire now k ttl (fine log mem))
          (memory_engine.expire now k ttl mem)
  expire-fine now k ttl = ((refl, refl), refl)

  persist-fine :
      (k : Bytes)
      → Related IsOver (wal_engine.persist k (fine log mem)) (memory_engine.persist k mem)
  persist-fine k = ((refl, refl), refl)

  flush_all-fine : IsOver (wal_engine.flush_all (fine log mem)) (memory_engine.flush_all mem)
  unfolding flush_all write_anyway write write_record
  flush_all-fine = (refl, refl)

  lpush-fine :
      (k : Bytes) (vs : List Bytes)
      → Related IsOver (wal_engine.lpush k vs (fine log mem)) (memory_engine.lpush k vs mem)
  unfolding lpush
  lpush-fine k vs = rw (write_all-fine (codes "LPUSH") (one_each k vs) log mem) ((refl, refl), refl)

  rpush-fine :
      (k : Bytes) (vs : List Bytes)
      → Related IsOver (wal_engine.rpush k vs (fine log mem)) (memory_engine.rpush k vs mem)
  unfolding rpush
  rpush-fine k vs = rw (write_all-fine (codes "RPUSH") (one_each k vs) log mem) ((refl, refl), refl)

  lpop-fine :
      (k : Bytes) → Related IsOver (wal_engine.lpop k (fine log mem)) (memory_engine.lpop k mem)
  unfolding lpop
  lpop-fine k = logged_after-Related (codes "LPOP") k (Lists.lpop k mem) (fine log mem) refl

  rpop-fine :
      (k : Bytes) → Related IsOver (wal_engine.rpop k (fine log mem)) (memory_engine.rpop k mem)
  unfolding rpop
  rpop-fine k = logged_after-Related (codes "RPOP") k (Lists.rpop k mem) (fine log mem) refl

  sadd-fine :
      (k : Bytes) (ms : List Bytes)
      → Related IsOver (wal_engine.sadd k ms (fine log mem)) (memory_engine.sadd k ms mem)
  unfolding sadd
  sadd-fine k ms = rw (write_all-fine (codes "SADD") (one_each k ms) log mem) ((refl, refl), refl)

  srem-fine :
      (k : Bytes) (ms : List Bytes)
      → Related IsOver (wal_engine.srem k ms (fine log mem)) (memory_engine.srem k ms mem)
  unfolding srem
  srem-fine k ms = rw (write_all-fine (codes "SREM") (one_each k ms) log mem) ((refl, refl), refl)

  spop-fine :
      (pick : ℕ) (k : Bytes)
      → Related IsOver (wal_engine.spop pick k (fine log mem)) (memory_engine.spop pick k mem)
  unfolding spop
  spop-fine pick k =
      logged_after-Related (codes "SPOP") k (Sets.spop pick k mem) (fine log mem) refl

  hset-fine :
      (k f v : Bytes)
      → Related IsOver (wal_engine.hset k f v (fine log mem)) (memory_engine.hset k f v mem)
  unfolding hset write_anyway write write_record
  hset-fine k f v = ((refl, refl), refl)

  hdel-fine :
      (k : Bytes) (fs : List Bytes)
      → Related IsOver (wal_engine.hdel k fs (fine log mem)) (memory_engine.hdel k fs mem)
  unfolding hdel
  hdel-fine k fs = rw (write_all-fine (codes "HDEL") (one_each k fs) log mem) ((refl, refl), refl)

  hmset-fine :
      (k : Bytes) (fs : Map Bytes)
      → IsOver (wal_engine.hmset k fs (fine log mem)) (memory_engine.hmset k fs mem)
  unfolding hmset
  hmset-fine k fs = rw (write_all-fine (codes "HSET") (field_each k fs) log mem) (refl, refl)

-- Where the engine's state is written out.
over :
    (P : WalEngine → Store → Type 0) (e : WalEngine) (s : Store)
    → ((log : List Record) (mem : Store) → P (fine log mem) mem)
    → IsOver e s
    → P e s
over P e s h (same, none_fails) = subst (P e) same (
    subst (λ (os : List Outcome). P (record e { outcomes = os }) e.mem) (sym none_fails)
      (h e.log e.mem))

-- From states that hold the same memory, where no log write is going to fail, every call of the WAL
-- engine leaves the memory and returns the result that the same call of the memory engine does, and
-- still no log write is going to fail.
pub wal_engine-Simulates : Simulates IsOver wal_engine memory_engine
wal_engine-Simulates = record {
  get = λ e s now k r.
      over (λ e s. Related IsOver (wal_engine.get now k e) (memory_engine.get now k s)) e s
        (λ log mem. get-fine log mem now k) r;
  set = λ e s k v r.
      over (λ e s. Related IsOver (wal_engine.set k v e) (memory_engine.set k v s)) e s
        (λ log mem. set-fine log mem k v) r;
  del = λ e s k r.
      over (λ e s. Related IsOver (wal_engine.del k e) (memory_engine.del k s)) e s
        (λ log mem. del-fine log mem k) r;
  exists = λ e s now k r.
      over (λ e s. Related IsOver (wal_engine.exists now k e) (memory_engine.exists now k s)) e s
        (λ log mem. exists-fine log mem now k) r;
  incr = λ e s k r.
      over (λ e s. Related IsOver (wal_engine.incr k e) (memory_engine.incr k s)) e s
        (λ log mem. incr-fine log mem k) r;
  decr = λ e s k r.
      over (λ e s. Related IsOver (wal_engine.decr k e) (memory_engine.decr k s)) e s
        (λ log mem. decr-fine log mem k) r;
  expire = λ e s now k ttl r.
      over
        (λ e s. Related IsOver (wal_engine.expire now k ttl e) (memory_engine.expire now k ttl s)) e
        s (λ log mem. expire-fine log mem now k ttl) r;
  ttl = λ e s now k r. ap (memory_engine.ttl now k) r.0;
  persist = λ e s k r.
      over (λ e s. Related IsOver (wal_engine.persist k e) (memory_engine.persist k s)) e s
        (λ log mem. persist-fine log mem k) r;
  keys = λ e s now p r. ap (memory_engine.keys now p) r.0;
  flush_all = λ e s r.
      over (λ e s. IsOver (wal_engine.flush_all e) (memory_engine.flush_all s)) e s
        (λ log mem. flush_all-fine log mem) r;
  size = λ e s r. ap (memory_engine.size) r.0;
  lpush = λ e s k vs r.
      over (λ e s. Related IsOver (wal_engine.lpush k vs e) (memory_engine.lpush k vs s)) e s
        (λ log mem. lpush-fine log mem k vs) r;
  rpush = λ e s k vs r.
      over (λ e s. Related IsOver (wal_engine.rpush k vs e) (memory_engine.rpush k vs s)) e s
        (λ log mem. rpush-fine log mem k vs) r;
  lpop = λ e s k r.
      over (λ e s. Related IsOver (wal_engine.lpop k e) (memory_engine.lpop k s)) e s
        (λ log mem. lpop-fine log mem k) r;
  rpop = λ e s k r.
      over (λ e s. Related IsOver (wal_engine.rpop k e) (memory_engine.rpop k s)) e s
        (λ log mem. rpop-fine log mem k) r;
  llen = λ e s k r. ap (memory_engine.llen k) r.0;
  lrange = λ e s k i j r. ap (memory_engine.lrange k i j) r.0;
  lindex = λ e s k i r. ap (memory_engine.lindex k i) r.0;
  sadd = λ e s k ms r.
      over (λ e s. Related IsOver (wal_engine.sadd k ms e) (memory_engine.sadd k ms s)) e s
        (λ log mem. sadd-fine log mem k ms) r;
  srem = λ e s k ms r.
      over (λ e s. Related IsOver (wal_engine.srem k ms e) (memory_engine.srem k ms s)) e s
        (λ log mem. srem-fine log mem k ms) r;
  smembers = λ e s k r. ap (memory_engine.smembers k) r.0;
  sis_member = λ e s k m r. ap (memory_engine.sis_member k m) r.0;
  scard = λ e s k r. ap (memory_engine.scard k) r.0;
  spop = λ e s pick k r.
      over (λ e s. Related IsOver (wal_engine.spop pick k e) (memory_engine.spop pick k s)) e s
        (λ log mem. spop-fine log mem pick k) r;
  srand_member = λ e s pick k r. ap (memory_engine.srand_member pick k) r.0;
  hset = λ e s k f v r.
      over (λ e s. Related IsOver (wal_engine.hset k f v e) (memory_engine.hset k f v s)) e s
        (λ log mem. hset-fine log mem k f v) r;
  hget = λ e s k f r. ap (memory_engine.hget k f) r.0;
  hdel = λ e s k fs r.
      over (λ e s. Related IsOver (wal_engine.hdel k fs e) (memory_engine.hdel k fs s)) e s
        (λ log mem. hdel-fine log mem k fs) r;
  hget_all = λ e s k r. ap (memory_engine.hget_all k) r.0;
  hkeys = λ e s k r. ap (memory_engine.hkeys k) r.0;
  hvals = λ e s k r. ap (memory_engine.hvals k) r.0;
  hexists = λ e s k f r. ap (memory_engine.hexists k f) r.0;
  hlen = λ e s k r. ap (memory_engine.hlen k) r.0;
  hmset = λ e s k fs r.
      over (λ e s. IsOver (wal_engine.hmset k fs e) (memory_engine.hmset k fs s)) e s
        (λ log mem. hmset-fine log mem k fs) r;
  hmget = λ e s k fs r. ap (memory_engine.hmget k fs) r.0;
}
