-- ===== src/Store/Scan.antt =====
-- The operations of core/store/store.go that go through all shards: Keys, FlushAll and Size.
pub mod Routing
pub mod Listing
use warpdb.Base.{
  ℕ, zero, suc, ◌+◌, Bool, false, not, ◌&&◌, none, some, List, [], ◌∷◌, ◌++◌, Bytes, ℤ, length,
  if◌then◌else◌,
}
use warpdb.GoMap.{keys, has}
use warpdb.Store.{Shard, Store, num_shards, empty_shard, set_shard, is_expired}
use warpdb.Store.Glob.{match_pattern}

-- `if matchPattern(pattern, key)`, which always answers.
unfoldable pub matches : Bytes → Bytes → Bool
matches pattern key = elim (match_pattern pattern key) [ none ↦ false | some b ↦ b ]

-- The keys of one map of a shard that a loop of Keys appends; `skip` is its first test.
unfoldable pub select : ℤ → Bytes → Shard → (Bytes → Bool) → List Bytes → List Bytes
select now pattern sh skip [] = []
select now pattern sh skip (key ∷ ks) =
    let rest = select now pattern sh skip ks in
    if not (skip key) && not (is_expired now key sh) && matches pattern key
    then key ∷ rest
    else rest

-- The four loops over the maps of a shard.
unfoldable pub shard_keys : ℤ → Bytes → Shard → List Bytes
shard_keys now pattern sh =
    let skip = λ (key : Bytes). has key sh.strings in
    select now pattern sh (λ key. false) (keys sh.strings)
    ++ (select now pattern sh skip (keys sh.lists)
        ++ (select now pattern sh skip (keys sh.sets)
            ++ select now pattern sh skip (keys sh.hashes)))

unfoldable pub keys_below : ℕ → ℤ → Bytes → Store → List Bytes
keys_below zero now pattern s = []
keys_below (suc n) now pattern s = keys_below n now pattern s ++ shard_keys now pattern (s n)

-- Keys. It takes the locks of the shards one after the other, so `s n` is what the shard `n` holds
-- when Keys comes to it; where nothing runs in between, `s` is the store.
unfoldable pub store_keys : ℤ → Bytes → Store → List Bytes
store_keys = keys_below num_shards

-- The part of FlushAll on one shard, from taking its lock to letting it go.
unfoldable pub flush_at : ℕ → Store → Store
flush_at n s = set_shard n empty_shard s

unfoldable pub flush_below : ℕ → Store → Store
flush_below zero s = s
flush_below (suc n) s = flush_at n (flush_below n s)

-- FlushAll, with nothing between its shards. `flush_at` alone is the step that others interleave
-- with.
unfoldable pub flush_all : Store → Store
flush_all = flush_below num_shards

unfoldable pub shard_size : Shard → ℕ
shard_size sh = length sh.strings + length sh.lists + length sh.sets + length sh.hashes

unfoldable pub size_below : ℕ → Store → ℕ
size_below zero s = 0
size_below (suc n) s = size_below n s + shard_size (s n)

-- Size, where `s n` is what the shard `n` holds when Size comes to it.
unfoldable pub size : Store → ℕ
size = size_below num_shards
