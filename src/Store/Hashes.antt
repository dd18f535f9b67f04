-- ===== src/Store/Hashes.antt =====
-- The hash operations of core/store/store.go.
use warpdb.Base.{
  ℕ, Bool, false, Option, none, some, List, [], ◌∷◌, map, Bytes, length, if◌then◌else◌,
}
use warpdb.GoMap.{Map, lookup, insert, delete, keys, has}
use warpdb.Store.{Shard, Store, Result, ok, fail, field_not_found, get_shard, locked, update}
use warpdb.Store.Sets.{remove_all}

-- sh.hashes[key]; an absent hash is Go's nil map, which is empty.
abbrev pub hash_at : Bytes → Shard → Map Bytes
hash_at key sh = elim (lookup key sh.hashes) [ none ↦ [] | some h ↦ h ]

-- HSet
unfoldable pub hset_shard : Bytes → Bytes → Bytes → Shard → Shard × ℕ
hset_shard key field value sh =
    let h = hash_at key sh in
    (
      record sh { hashes = insert key (insert field value h) sh.hashes },
      if has field h then 0 else 1,
    )

unfoldable pub hset : Bytes → Bytes → Bytes → Store → Store × ℕ
hset key field value = locked key (hset_shard key field value)

-- HGet
unfoldable pub hget : Bytes → Bytes → Store → Result Bytes
hget key field s = elim (lookup key (get_shard key s).hashes) [
  | none ↦ fail field_not_found
  | some h ↦ elim (lookup field h) [ none ↦ fail field_not_found | some val ↦ ok val ]
]

-- The hash, changed in place, is deleted if it is empty.
unfoldable pub put_hash : Bytes → Map Bytes → Shard → Shard
put_hash key [] sh = record sh { hashes = delete key (insert key [] sh.hashes) }
put_hash key (e ∷ h) sh = record sh { hashes = insert key (e ∷ h) sh.hashes }

-- HDel
unfoldable pub hdel_hash : Bytes → List Bytes → Shard → Option (Map Bytes) → Shard × ℕ
hdel_hash key fields sh none = (sh, 0)
hdel_hash key fields sh (some h) =
    let (h', removed) = remove_all fields h 0 in (put_hash key h' sh, removed)

unfoldable pub hdel_shard : Bytes → List Bytes → Shard → Shard × ℕ
unfolding hdel_hash put_hash
hdel_shard key fields sh = hdel_hash key fields sh (lookup key sh.hashes)

unfoldable pub hdel : Bytes → List Bytes → Store → Store × ℕ
hdel key fields = locked key (hdel_shard key fields)

-- The loop of HGetAll.
unfoldable pub pairs_of : Map Bytes → List Bytes
pairs_of [] = []
pairs_of ((k, v) ∷ h) = k ∷ v ∷ pairs_of h

-- HGetAll
unfoldable pub hget_all : Bytes → Store → List Bytes
hget_all key s = pairs_of (hash_at key (get_shard key s))

-- HKeys
unfoldable pub hkeys : Bytes → Store → List Bytes
hkeys key s = keys (hash_at key (get_shard key s))

-- HVals
unfoldable pub hvals : Bytes → Store → List Bytes
hvals key s = map (λ (e : Bytes × Bytes). e.1) (hash_at key (get_shard key s))

-- HExists
unfoldable pub hexists : Bytes → Bytes → Store → Bool
hexists key field s = elim (lookup key (get_shard key s).hashes) [
  | none ↦ false
  | some h ↦ has field h
]

-- HLen
unfoldable pub hlen : Bytes → Store → ℕ
hlen key s = length (hash_at key (get_shard key s))

-- The loop of HMSet over the fields that are given.
unfoldable pub insert_all : Map Bytes → Map Bytes → Map Bytes
insert_all [] h = h
insert_all ((k, v) ∷ fields) h = insert_all fields (insert k v h)

-- HMSet
unfoldable pub hmset : Bytes → Map Bytes → Store → Store
hmset key fields =
    update key
      (λ sh. record sh { hashes = insert key (insert_all fields (hash_at key sh)) sh.hashes })

-- `if v, ok := h[f]; ok { result[i] = v }`; what is not set is the empty string.
abbrev pub value_or_empty : Option Bytes → Bytes
value_or_empty none = []
value_or_empty (some v) = v

-- HMGet
unfoldable pub hmget : Bytes → List Bytes → Store → List Bytes
hmget key fields s = map (λ f. value_or_empty (lookup f (hash_at key (get_shard key s)))) fields
