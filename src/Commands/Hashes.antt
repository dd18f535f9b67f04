-- ===== src/Commands/Hashes.antt =====
-- The hash commands of core/commands/commands.go.
use warpdb.Base.{ℕ, ◌+◌, Option, none, some, List, [], ◌∷◌, Bytes}
use warpdb.GoMap.{Map, insert}
use warpdb.Engine.{StorageEngine}
use warpdb.Protocol.{write_array}
use warpdb.Commands.{
  Handler, Reply, ok_reply, wrong_arity, integer, one_or_zero, bulk_or_null, with_store,
}

-- The loop of HMSET that fills a map; `none` if the arguments do not come in pairs.
unfoldable pub pairs_map : List Bytes → Map Bytes → Option (Map Bytes)
pairs_map [] m = some m
pairs_map (field ∷ []) m = none
pairs_map (field ∷ value ∷ more) m = pairs_map more (insert field value m)

module _ {S : Type 0} (engine : StorageEngine S) where
  open engine use {hset, hget, hdel, hget_all, hkeys, hvals, hexists, hlen, hmset, hmget}

  -- The loop of HSET: the engine and `count`; `none` if the arguments do not come in pairs.
  unfoldable pub hset_pairs : Bytes → List Bytes → ℕ → S → Option (S × ℕ)
  hset_pairs key [] count s = some (s, count)
  hset_pairs key (field ∷ []) count s = none
  hset_pairs key (field ∷ value ∷ more) count s =
      let (s', added) = hset key field value s in hset_pairs key more (count + added) s'

  abbrev pub hset_reply : Handler S → Option (S × ℕ) → Reply S
  hset_reply h none = (h, wrong_arity "HSET")
  hset_reply h (some out) = with_store h integer out

  unfoldable pub hset_command : List Bytes → Handler S → Reply S
  unfolding hset_pairs
  hset_command (key ∷ field ∷ more) h = hset_reply h (hset_pairs key (field ∷ more) 0 h.store)
  hset_command _ h = (h, wrong_arity "HSET")

  unfoldable pub hget_command : List Bytes → Handler S → Reply S
  hget_command (key ∷ field ∷ []) h = (h, bulk_or_null (hget key field h.store))
  hget_command _ h = (h, wrong_arity "HGET")

  unfoldable pub hdel_command : List Bytes → Handler S → Reply S
  hdel_command (key ∷ f ∷ fs) h = with_store h integer (hdel key (f ∷ fs) h.store)
  hdel_command _ h = (h, wrong_arity "HDEL")

  unfoldable pub hgetall_command : List Bytes → Handler S → Reply S
  hgetall_command (key ∷ []) h = (h, write_array (hget_all key h.store))
  hgetall_command _ h = (h, wrong_arity "HGETALL")

  unfoldable pub hkeys_command : List Bytes → Handler S → Reply S
  hkeys_command (key ∷ []) h = (h, write_array (hkeys key h.store))
  hkeys_command _ h = (h, wrong_arity "HKEYS")

  unfoldable pub hvals_command : List Bytes → Handler S → Reply S
  hvals_command (key ∷ []) h = (h, write_array (hvals key h.store))
  hvals_command _ h = (h, wrong_arity "HVALS")

  unfoldable pub hexists_command : List Bytes → Handler S → Reply S
  hexists_command (key ∷ field ∷ []) h = (h, one_or_zero (hexists key field h.store))
  hexists_command _ h = (h, wrong_arity "HEXISTS")

  unfoldable pub hlen_command : List Bytes → Handler S → Reply S
  hlen_command (key ∷ []) h = (h, integer (hlen key h.store))
  hlen_command _ h = (h, wrong_arity "HLEN")

  abbrev pub hmset_reply : Bytes → Handler S → Option (Map Bytes) → Reply S
  hmset_reply key h none = (h, wrong_arity "HMSET")
  hmset_reply key h (some fields) = (record h { store = hmset key fields h.store }, ok_reply)

  unfoldable pub hmset_command : List Bytes → Handler S → Reply S
  unfolding pairs_map
  hmset_command (key ∷ field ∷ more) h = hmset_reply key h (pairs_map (field ∷ more) [])
  hmset_command _ h = (h, wrong_arity "HMSET")

  unfoldable pub hmget_command : List Bytes → Handler S → Reply S
  hmget_command (key ∷ f ∷ fs) h = (h, write_array (hmget key (f ∷ fs) h.store))
  hmget_command _ h = (h, wrong_arity "HMGET")
