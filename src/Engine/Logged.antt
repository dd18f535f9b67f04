-- ===== src/Engine/Logged.antt =====
-- engine/wal_engine.go: WALEngine, which writes changes to the log and applies them to memory.
-- `log` is what the log holds, oldest first; `outcomes` says how the calls of wal.Write to come end.
pub mod Agreement
pub mod Repeated
pub mod Splitting
pub mod Calls
pub mod Recovery
pub mod Restart
pub mod Divergence
pub mod Popping
pub mod Transparent
use warpdb.Base.{Bool, true, false, List, [], ◌∷◌, ◌++◌, Bytes, codes, ℤ, ℕ, Option, if◌then◌else◌}
use warpdb.GoMap.{Map}
use warpdb.Store.{Store, Result, ok, fail}
use warpdb.Store.Values
use warpdb.Store.Expiry
use warpdb.Store.Lists
use warpdb.Store.Sets
use warpdb.Store.Hashes
use warpdb.Store.Scan
use warpdb.Wal.Record.{Record, make_record}
use warpdb.Wal.Op.{op_to_code}
use warpdb.Engine.{Answer, answered, log_failed, StorageEngine}

-- A write succeeds, or it fails with the record in the file (only the sync failed) or without.
pub data Outcome : Type 0 where
  durable : Outcome
  unsynced : Outcome
  lost : Outcome

-- The log is the list of the records that were written, not the bytes of their entries; those are in
-- Wal.Log, and Engine.Logged.Restart puts the two together.
pub record WalEngine : Type 0 where
  pub mem : Store
  pub log : List Record
  pub outcomes : List Outcome

-- The end of one write of `r`; the flag is `err == nil`. Where `outcomes` ends, writes succeed.
unfoldable pub write_record : Record → List Outcome → WalEngine → WalEngine × Bool
write_record r [] e = (record e { log = e.log ++ r ∷ [] }, true)
write_record r (durable ∷ os) e = (record e { log = e.log ++ r ∷ []; outcomes = os }, true)
write_record r (unsynced ∷ os) e = (record e { log = e.log ++ r ∷ []; outcomes = os }, false)
write_record r (lost ∷ os) e = (record e { outcomes = os }, false)

-- wal.Write
unfoldable pub write : Bytes → List Bytes → WalEngine → WalEngine × Bool
write op args e = write_record (make_record (op_to_code op) args) e.outcomes e

-- A write whose error is only reported to the server's own log.
unfoldable pub write_anyway : Bytes → List Bytes → WalEngine → WalEngine
write_anyway op args e = (write op args e).0

-- One write for each argument list, in order, going on after an error.
unfoldable pub write_all : Bytes → List (List Bytes) → WalEngine → WalEngine
write_all op [] e = e
write_all op (args ∷ more) e = write_all op more (write_anyway op args e)

-- A call of the memory engine.
abbrev on_mem {ℓ} : {A : Type ℓ} → (Store → Store × A) → WalEngine → WalEngine × A
on_mem f e = let (s, a) = f e.mem in (record e { mem = s }, a)

-- Set, Del, Incr and Decr: nothing happens to memory if the write fails.
unfoldable pub logged_first {ℓ} :
    {A : Type ℓ}
    → Bytes
    → List Bytes
    → (Store → Store × Result A)
    → WalEngine
    → WalEngine × Answer A
logged_first op args f e =
    let (e', fine) = write op args e in
    let (s, r) = f e'.mem in if fine then (record e' { mem = s }, answered r) else (e', log_failed)

-- LPop, RPop and SPop: the log is written if something was popped.
unfoldable pub logged_after :
    Bytes → Bytes → Store × Result Bytes → WalEngine → WalEngine × Result Bytes
logged_after op key (s, fail x) e = (record e { mem = s }, fail x)
logged_after op key (s, ok val) e = (write_anyway op (key ∷ []) (record e { mem = s }), ok val)

-- The arguments of the writes of LPush, RPush, SAdd, SRem and HDel, one for each value.
unfoldable pub one_each : Bytes → List Bytes → List (List Bytes)
one_each key [] = []
one_each key (v ∷ vs) = (key ∷ v ∷ []) ∷ one_each key vs

-- Those of HMSet.
unfoldable pub field_each : Bytes → Map Bytes → List (List Bytes)
field_each key [] = []
field_each key ((f, v) ∷ fields) = (key ∷ f ∷ v ∷ []) ∷ field_each key fields

unfoldable pub set : Bytes → Bytes → WalEngine → WalEngine × Answer (Unit {0})
set key value = logged_first (codes "SET") (key ∷ value ∷ []) (λ s. (Values.set key value s, ok tt))

unfoldable pub del : Bytes → WalEngine → WalEngine × Answer (Unit {0})
del key = logged_first (codes "DEL") (key ∷ []) (Values.del key)

unfoldable pub incr : Bytes → WalEngine → WalEngine × Answer ℤ
incr key = logged_first (codes "INCR") (key ∷ []) (Values.incr key)

unfoldable pub decr : Bytes → WalEngine → WalEngine × Answer ℤ
decr key = logged_first (codes "DECR") (key ∷ []) (Values.decr key)

unfoldable pub flush_all : WalEngine → WalEngine
flush_all e =
    let e' = write_anyway (codes "FLUSHALL") [] e in record e' { mem = Scan.flush_all e'.mem }

unfoldable pub lpush : Bytes → List Bytes → WalEngine → WalEngine × ℕ
lpush key values e =
    on_mem (Lists.lpush key values) (write_all (codes "LPUSH") (one_each key values) e)

unfoldable pub rpush : Bytes → List Bytes → WalEngine → WalEngine × ℕ
rpush key values e =
    on_mem (Lists.rpush key values) (write_all (codes "RPUSH") (one_each key values) e)

unfoldable pub lpop : Bytes → WalEngine → WalEngine × Result Bytes
lpop key e = logged_after (codes "LPOP") key (Lists.lpop key e.mem) e

unfoldable pub rpop : Bytes → WalEngine → WalEngine × Result Bytes
rpop key e = logged_after (codes "RPOP") key (Lists.rpop key e.mem) e

unfoldable pub sadd : Bytes → List Bytes → WalEngine → WalEngine × ℕ
sadd key members e =
    on_mem (Sets.sadd key members) (write_all (codes "SADD") (one_each key members) e)

unfoldable pub srem : Bytes → List Bytes → WalEngine → WalEngine × ℕ
srem key members e =
    on_mem (Sets.srem key members) (write_all (codes "SREM") (one_each key members) e)

unfoldable pub spop : ℕ → Bytes → WalEngine → WalEngine × Result Bytes
spop pick key e = logged_after (codes "SPOP") key (Sets.spop pick key e.mem) e

unfoldable pub hset : Bytes → Bytes → Bytes → WalEngine → WalEngine × ℕ
hset key field value e =
    on_mem (Hashes.hset key field value) (write_anyway (codes "HSET") (key ∷ field ∷ value ∷ []) e)

unfoldable pub hdel : Bytes → List Bytes → WalEngine → WalEngine × ℕ
hdel key fields e =
    on_mem (Hashes.hdel key fields) (write_all (codes "HDEL") (one_each key fields) e)

unfoldable pub hmset : Bytes → Map Bytes → WalEngine → WalEngine
hmset key fields e =
    let e' = write_all (codes "HSET") (field_each key fields) e in
    record e' { mem = Hashes.hmset key fields e'.mem }

-- WALEngine; what only reads, and Expire and Persist, goes to memory with nothing logged.
abbrev pub wal_engine : StorageEngine WalEngine
wal_engine = record {
  get = λ now k. on_mem (Values.get now k);
  set = set;
  del = del;
  exists = λ now k. on_mem (Values.exists now k);
  incr = incr;
  decr = decr;
  expire = λ now k ttl. on_mem (Expiry.expire now k ttl);
  ttl = λ now k e. Expiry.ttl now k e.mem;
  persist = λ k. on_mem (Expiry.persist k);
  keys = λ now p e. Scan.store_keys now p e.mem;
  flush_all = flush_all;
  size = λ e. Scan.size e.mem;
  lpush = lpush;
  rpush = rpush;
  lpop = lpop;
  rpop = rpop;
  llen = λ k e. Lists.llen k e.mem;
  lrange = λ k a b e. Lists.lrange k a b e.mem;
  lindex = λ k i e. Lists.lindex k i e.mem;
  sadd = sadd;
  srem = srem;
  smembers = λ k e. Sets.smembers k e.mem;
  sis_member = λ k m e. Sets.sis_member k m e.mem;
  scard = λ k e. Sets.scard k e.mem;
  spop = spop;
  srand_member = λ pick k e. Sets.srand_member pick k e.mem;
  hset = hset;
  hget = λ k f e. Hashes.hget k f e.mem;
  hdel = hdel;
  hget_all = λ k e. Hashes.hget_all k e.mem;
  hkeys = λ k e. Hashes.hkeys k e.mem;
  hvals = λ k e. Hashes.hvals k e.mem;
  hexists = λ k f e. Hashes.hexists k f e.mem;
  hlen = λ k e. Hashes.hlen k e.mem;
  hmset = hmset;
  hmget = λ k fs e. Hashes.hmget k fs e.mem;
}
