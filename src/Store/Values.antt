-- ===== src/Store/Values.antt =====
-- The operations of core/store/store.go on string values and on keys of any kind.
pub mod Races
use warpdb.Base.{
  ℕ, Bool, true, false, not, ◌&&◌, ◌||◌, Option, none, some, Bytes, ℤ, pos, negsuc, ◌+ℤ◌, ◌-ℤ◌,
  wrap64, codes, if◌then◌else◌, is_some,
}
use warpdb.GoMap.{Map, lookup, insert, delete}
use warpdb.Strconv.{atoi, itoa}
use warpdb.Store.{
  Shard, Store, Result, ok, fail, key_not_found, not_an_integer, get_shard, locked, update, holds,
  drop_key, past,
}

-- Set
unfoldable pub set : Bytes → Bytes → Store → Store
set key value =
    update key
      (λ sh. record sh { strings = insert key value sh.strings; expires = delete key sh.expires })

-- What Get reads in its first phase, under the read lock: the value and the expiry.
unfoldable pub get_read : Bytes → Store → Option Bytes × Option ℤ
get_read key s = let sh = get_shard key s in (lookup key sh.strings, lookup key sh.expires)

-- The second phase of Get, under the write lock: it does not look at the expiry again.
unfoldable pub get_evict : Bytes → Store → Store
get_evict key =
    update key
      (λ sh. record sh { strings = delete key sh.strings; expires = delete key sh.expires })

-- Get, given what the first phase read; `s` is the store that the second phase finds.
unfoldable pub get_finish : ℤ → Bytes → Option Bytes × Option ℤ → Store → Store × Result Bytes
get_finish now key (none, exp) s = (s, fail key_not_found)
get_finish now key (some value, exp) s =
    if past now exp then (get_evict key s, fail key_not_found) else (s, ok value)

-- Get, with nothing between its phases.
unfoldable pub get : ℤ → Bytes → Store → Store × Result Bytes
get now key s = get_finish now key (get_read key s) s

-- The first phase of Exists, under the read lock.
unfoldable pub exists_read : Bytes → Store → Bool × Option ℤ
exists_read key s = let sh = get_shard key s in (holds key sh, lookup key sh.expires)

-- The second phase of Exists: it looks at the expiry once more before it deletes.
unfoldable pub exists_evict : ℤ → Bytes → Store → Store
exists_evict now key =
    update key (λ sh. if past now (lookup key sh.expires) then drop_key key sh else sh)

-- `now` is the first reading of the clock, `later` the one under the lock.
unfoldable pub exists_finish : ℤ → ℤ → Bytes → Bool × Option ℤ → Store → Store × Bool
exists_finish now later key (any, exp) s =
    if not any
    then (s, false)
    else if past now exp
    then (exists_evict later key s, false)
    else (s, true)

-- Exists, with nothing between its phases, and within one tick of the clock.
unfoldable pub exists : ℤ → Bytes → Store → Store × Bool
exists now key s = exists_finish now now key (exists_read key s) s

-- Del
unfoldable pub del_shard : Bytes → Shard → Shard × Result (Unit {0})
del_shard key sh = if not (holds key sh) then (sh, fail key_not_found) else (drop_key key sh, ok tt)

unfoldable pub del : Bytes → Store → Store × Result (Unit {0})
del key = locked key (del_shard key)

-- `value, exists := sh.data[key]; if !exists { value = "0" }`
unfoldable pub counter_text : Option Bytes → Bytes
counter_text none = codes "0"
counter_text (some value) = value

-- Incr and Decr differ in the step alone: `num++`, `num--` on an int64.
unfoldable pub step_parsed : (ℤ → ℤ) → Bytes → Shard → Option ℤ → Shard × Result ℤ
step_parsed step key sh none = (sh, fail not_an_integer)
step_parsed step key sh (some num) =
    let num' = wrap64 (step num) in
    (record sh { strings = insert key (itoa num') sh.strings }, ok num')

unfoldable pub step_shard : (ℤ → ℤ) → Bytes → Shard → Shard × Result ℤ
unfolding step_parsed
step_shard step key sh = step_parsed step key sh (atoi (counter_text (lookup key sh.strings)))

unfoldable pub incr : Bytes → Store → Store × Result ℤ
incr key = locked key (step_shard (λ num. num +ℤ pos 1) key)

unfoldable pub decr : Bytes → Store → Store × Result ℤ
decr key = locked key (step_shard (λ num. num -ℤ pos 1) key)
