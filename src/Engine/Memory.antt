-- ===== src/Engine/Memory.antt =====
-- engine/memory.go: MemoryEngine, whose state is a store and whose methods call the store's.
use warpdb.Store.{Store, Result, ok}
use warpdb.Store.Values
use warpdb.Store.Expiry
use warpdb.Store.Lists
use warpdb.Store.Sets
use warpdb.Store.Hashes
use warpdb.Store.Scan
use warpdb.Engine.{Answer, answered, StorageEngine}

abbrev answer {ℓ κ} : {S : Type ℓ} {A : Type κ} → S × Result A → S × Answer A
answer (s, r) = (s, answered r)

abbrev pub memory_engine : StorageEngine Store
memory_engine = record {
  get = Values.get;
  set = λ k v s. (Values.set k v s, answered (ok tt));
  del = λ k s. answer (Values.del k s);
  exists = Values.exists;
  incr = λ k s. answer (Values.incr k s);
  decr = λ k s. answer (Values.decr k s);
  expire = Expiry.expire;
  ttl = Expiry.ttl;
  persist = Expiry.persist;
  keys = Scan.store_keys;
  flush_all = Scan.flush_all;
  size = Scan.size;
  lpush = Lists.lpush;
  rpush = Lists.rpush;
  lpop = Lists.lpop;
  rpop = Lists.rpop;
  llen = Lists.llen;
  lrange = Lists.lrange;
  lindex = Lists.lindex;
  sadd = Sets.sadd;
  srem = Sets.srem;
  smembers = Sets.smembers;
  sis_member = Sets.sis_member;
  scard = Sets.scard;
  spop = Sets.spop;
  srand_member = Sets.srand_member;
  hset = Hashes.hset;
  hget = Hashes.hget;
  hdel = Hashes.hdel;
  hget_all = Hashes.hget_all;
  hkeys = Hashes.hkeys;
  hvals = Hashes.hvals;
  hexists = Hashes.hexists;
  hlen = Hashes.hlen;
  hmset = Hashes.hmset;
  hmget = Hashes.hmget;
}
