-- ===== src/Engine.antt =====
-- engine/engine.go: the interface of a storage engine, as a record of its operations on a state
-- `S`. `now` is the instant of the call, and `pick` the choice that Go's map iteration makes.
pub mod Memory
pub mod Simulation
pub mod Logged
use warpdb.Base.{ℕ, Bool, List, Bytes, ℤ, Option}
use warpdb.GoMap.{Map}
use warpdb.Store.{Result}

-- Go's (value, error) of an engine, where the error may come from the log too.
pub data Answer {ℓ} (A : Type ℓ) : Type ℓ where
  answered : Result A → Answer A
  log_failed : Answer A

-- StorageEngine
pub record StorageEngine (S : Type 0) : Type 0 where
  pub get : ℤ → Bytes → S → S × Result Bytes
  pub set : Bytes → Bytes → S → S × Answer (Unit {0})
  pub del : Bytes → S → S × Answer (Unit {0})
  pub exists : ℤ → Bytes → S → S × Bool
  pub incr : Bytes → S → S × Answer ℤ
  pub decr : Bytes → S → S × Answer ℤ
  pub expire : ℤ → Bytes → ℤ → S → S × Result (Unit {0})
  pub ttl : ℤ → Bytes → S → ℤ
  pub persist : Bytes → S → S × Result (Unit {0})
  pub keys : ℤ → Bytes → S → List Bytes
  pub flush_all : S → S
  pub size : S → ℕ
  pub lpush : Bytes → List Bytes → S → S × ℕ
  pub rpush : Bytes → List Bytes → S → S × ℕ
  pub lpop : Bytes → S → S × Result Bytes
  pub rpop : Bytes → S → S × Result Bytes
  pub llen : Bytes → S → ℕ
  pub lrange : Bytes → ℤ → ℤ → S → Option (List Bytes)
  pub lindex : Bytes → ℤ → S → Result Bytes
  pub sadd : Bytes → List Bytes → S → S × ℕ
  pub srem : Bytes → List Bytes → S → S × ℕ
  pub smembers : Bytes → S → List Bytes
  pub sis_member : Bytes → Bytes → S → Bool
  pub scard : Bytes → S → ℕ
  pub spop : ℕ → Bytes → S → S × Result Bytes
  pub srand_member : ℕ → Bytes → S → Result Bytes
  pub hset : Bytes → Bytes → Bytes → S → S × ℕ
  pub hget : Bytes → Bytes → S → Result Bytes
  pub hdel : Bytes → List Bytes → S → S × ℕ
  pub hget_all : Bytes → S → List Bytes
  pub hkeys : Bytes → S → List Bytes
  pub hvals : Bytes → S → List Bytes
  pub hexists : Bytes → Bytes → S → Bool
  pub hlen : Bytes → S → ℕ
  pub hmset : Bytes → Map Bytes → S → S
  pub hmget : Bytes → List Bytes → S → List Bytes
