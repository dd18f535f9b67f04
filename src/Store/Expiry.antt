-- ===== src/Store/Expiry.antt =====
-- Times to live in core/store/store.go: Expire, TTL, Persist and the sweep of activeExpiry.
pub mod Sweep
pub mod Stale
use warpdb.Base.{
  ℕ, zero, suc, Bool, not, Option, none, some, List, [], ◌∷◌, Bytes, ℤ, pos, negsuc, ◌+ℤ◌, ◌-ℤ◌,
  ltb_ℤ, if◌then◌else◌, foldl,
}
use warpdb.GoMap.{lookup, insert, delete, keys}
use warpdb.Store.{
  Shard, Store, Result, ok, fail, key_not_found, num_shards, get_shard, set_shard, locked, holds,
  drop_key, is_expired,
}

-- Expire. `ttl` is a time.Duration, in nanoseconds.
unfoldable pub expire_shard : ℤ → ℤ → Bytes → Shard → Shard × Result (Unit {0})
expire_shard now ttl key sh =
    if not (holds key sh)
    then (sh, fail key_not_found)
    else (record sh { expires = insert key (now +ℤ ttl) sh.expires }, ok tt)

unfoldable pub expire : ℤ → Bytes → ℤ → Store → Store × Result (Unit {0})
expire now key ttl = locked key (expire_shard now ttl key)

-- Persist
unfoldable pub persist_shard : Bytes → Shard → Shard × Result (Unit {0})
persist_shard key sh =
    if not (holds key sh)
    then (sh, fail key_not_found)
    else (record sh { expires = delete key sh.expires }, ok tt)

unfoldable pub persist : Bytes → Store → Store × Result (Unit {0})
persist key = locked key (persist_shard key)

-- TTL: -2 is "no such key", -1 "no expiry"; its error is always nil.
unfoldable pub remaining : ℤ → Option ℤ → ℤ
remaining now none = negsuc 0
remaining now (some exp) = let left = exp -ℤ now in if ltb_ℤ (pos 0) left then left else negsuc 1

unfoldable pub ttl : ℤ → Bytes → Store → ℤ
ttl now key s =
    let sh = get_shard key s in
    if not (holds key sh) then negsuc 1 else remaining now (lookup key sh.expires)

-- One key of the inner loop of activeExpiry, which reads the clock anew: `clock key` is what it reads.
unfoldable pub sweep_key : (Bytes → ℤ) → Shard → Bytes → Shard
sweep_key clock sh key = if is_expired (clock key) key sh then drop_key key sh else sh

-- `for key := range sh.expires`, under the lock of the shard.
unfoldable pub sweep_shard : (Bytes → ℤ) → Shard → Shard
sweep_shard clock sh = foldl (sweep_key clock) sh (keys sh.expires)

-- The part of a tick on one shard, from taking its lock to letting it go.
unfoldable pub sweep_at : ℕ → (Bytes → ℤ) → Store → Store
sweep_at n clock s = set_shard n (sweep_shard clock (s n)) s

-- One tick of activeExpiry: the shards from 0 on, with nothing in between. `sweep_at` alone is the
-- step that others interleave with.
unfoldable pub sweep_below : ℕ → (Bytes → ℤ) → Store → Store
sweep_below zero clock s = s
sweep_below (suc n) clock s = sweep_at n clock (sweep_below n clock s)

unfoldable pub active_expiry : (Bytes → ℤ) → Store → Store
active_expiry = sweep_below num_shards
