-- ===== src/Engine/Simulation.antt =====
-- One engine answers as another does: `R` says which of their states correspond.
use warpdb.Base.{ℕ, ◌≡◌, List, Bytes, ℤ}
use warpdb.GoMap.{Map}
use warpdb.Engine.{StorageEngine}

-- The states after a call correspond, and the results are the same.
abbrev pub Related : {S T : Type 0} (R : S → T → Type 0) {A : Type 0} → S × A → T × A → Type 0
Related R (s, a) (t, b) = R s t × (a ≡ b)

pub record Simulates {S T : Type 0} (R : S → T → Type 0) (a : StorageEngine S) (b : StorageEngine T)
    : Type 0 where
  pub get :
      (s : S) (t : T) (now : ℤ) (k : Bytes) → R s t → Related R (a.get now k s) (b.get now k t)
  pub set : (s : S) (t : T) (k v : Bytes) → R s t → Related R (a.set k v s) (b.set k v t)
  pub del : (s : S) (t : T) (k : Bytes) → R s t → Related R (a.del k s) (b.del k t)
  pub exists :
      (s : S) (t : T) (now : ℤ) (k : Bytes)
      → R s t
      → Related R (a.exists now k s) (b.exists now k t)
  pub incr : (s : S) (t : T) (k : Bytes) → R s t → Related R (a.incr k s) (b.incr k t)
  pub decr : (s : S) (t : T) (k : Bytes) → R s t → Related R (a.decr k s) (b.decr k t)
  pub expire :
      (s : S) (t : T) (now : ℤ) (k : Bytes) (ttl : ℤ)
      → R s t
      → Related R (a.expire now k ttl s) (b.expire now k ttl t)
  pub ttl : (s : S) (t : T) (now : ℤ) (k : Bytes) → R s t → a.ttl now k s ≡ b.ttl now k t
  pub persist : (s : S) (t : T) (k : Bytes) → R s t → Related R (a.persist k s) (b.persist k t)
  pub keys : (s : S) (t : T) (now : ℤ) (p : Bytes) → R s t → a.keys now p s ≡ b.keys now p t
  pub flush_all : (s : S) (t : T) → R s t → R (a.flush_all s) (b.flush_all t)
  pub size : (s : S) (t : T) → R s t → a.size s ≡ b.size t
  pub lpush :
      (s : S) (t : T) (k : Bytes) (vs : List Bytes)
      → R s t
      → Related R (a.lpush k vs s) (b.lpush k vs t)
  pub rpush :
      (s : S) (t : T) (k : Bytes) (vs : List Bytes)
      → R s t
      → Related R (a.rpush k vs s) (b.rpush k vs t)
  pub lpop : (s : S) (t : T) (k : Bytes) → R s t → Related R (a.lpop k s) (b.lpop k t)
  pub rpop : (s : S) (t : T) (k : Bytes) → R s t → Related R (a.rpop k s) (b.rpop k t)
  pub llen : (s : S) (t : T) (k : Bytes) → R s t → a.llen k s ≡ b.llen k t
  pub lrange : (s : S) (t : T) (k : Bytes) (i j : ℤ) → R s t → a.lrange k i j s ≡ b.lrange k i j t
  pub lindex : (s : S) (t : T) (k : Bytes) (i : ℤ) → R s t → a.lindex k i s ≡ b.lindex k i t
  pub sadd :
      (s : S) (t : T) (k : Bytes) (ms : List Bytes)
      → R s t
      → Related R (a.sadd k ms s) (b.sadd k ms t)
  pub srem :
      (s : S) (t : T) (k : Bytes) (ms : List Bytes)
      → R s t
      → Related R (a.srem k ms s) (b.srem k ms t)
  pub smembers : (s : S) (t : T) (k : Bytes) → R s t → a.smembers k s ≡ b.smembers k t
  pub sis_member : (s : S) (t : T) (k m : Bytes) → R s t → a.sis_member k m s ≡ b.sis_member k m t
  pub scard : (s : S) (t : T) (k : Bytes) → R s t → a.scard k s ≡ b.scard k t
  pub spop :
      (s : S) (t : T) (pick : ℕ) (k : Bytes) → R s t → Related R (a.spop pick k s) (b.spop pick k t)
  pub srand_member :
      (s : S) (t : T) (pick : ℕ) (k : Bytes)
      → R s t
      → a.srand_member pick k s ≡ b.srand_member pick k t
  pub hset : (s : S) (t : T) (k f v : Bytes) → R s t → Related R (a.hset k f v s) (b.hset k f v t)
  pub hget : (s : S) (t : T) (k f : Bytes) → R s t → a.hget k f s ≡ b.hget k f t
  pub hdel :
      (s : S) (t : T) (k : Bytes) (fs : List Bytes)
      → R s t
      → Related R (a.hdel k fs s) (b.hdel k fs t)
  pub hget_all : (s : S) (t : T) (k : Bytes) → R s t → a.hget_all k s ≡ b.hget_all k t
  pub hkeys : (s : S) (t : T) (k : Bytes) → R s t → a.hkeys k s ≡ b.hkeys k t
  pub hvals : (s : S) (t : T) (k : Bytes) → R s t → a.hvals k s ≡ b.hvals k t
  pub hexists : (s : S) (t : T) (k f : Bytes) → R s t → a.hexists k f s ≡ b.hexists k f t
  pub hlen : (s : S) (t : T) (k : Bytes) → R s t → a.hlen k s ≡ b.hlen k t
  pub hmset :
      (s : S) (t : T) (k : Bytes) (fs : Map Bytes) → R s t → R (a.hmset k fs s) (b.hmset k fs t)
  pub hmget :
      (s : S) (t : T) (k : Bytes) (fs : List Bytes) → R s t → a.hmget k fs s ≡ b.hmget k fs t
