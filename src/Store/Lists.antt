-- ===== src/Store/Lists.antt =====
-- The list operations of core/store/store.go. An absent list is Go's nil slice, of length 0.
pub mod Range
use warpdb.Base.{
  ℕ, zero, suc, ◌+◌, ◌-◌, Bool, ltb, leb, ◌&&◌, Option, none, some, List, [], ◌∷◌, ◌++◌, Bytes, ℤ,
  pos, negsuc, ◌+ℤ◌, ◌-ℤ◌, ltb_ℤ, length, get_elem?, take, drop, if◌then◌else◌,
}
use warpdb.GoMap.{Map, lookup, insert, delete}
use warpdb.Store.{Shard, Store, Result, ok, fail, empty_list, index_out_of_range, get_shard, locked}

-- sh.lists[key]
abbrev pub list_at : Bytes → Shard → List Bytes
list_at key sh = elim (lookup key sh.lists) [ none ↦ [] | some list ↦ list ]

-- LPush
unfoldable pub lpush_shard : Bytes → List Bytes → Shard → Shard × ℕ
lpush_shard key values sh =
    let n = values ++ list_at key sh in (record sh { lists = insert key n sh.lists }, length n)

unfoldable pub lpush : Bytes → List Bytes → Store → Store × ℕ
lpush key values = locked key (lpush_shard key values)

-- RPush
unfoldable pub rpush_shard : Bytes → List Bytes → Shard → Shard × ℕ
rpush_shard key values sh =
    let n = list_at key sh ++ values in (record sh { lists = insert key n sh.lists }, length n)

unfoldable pub rpush : Bytes → List Bytes → Store → Store × ℕ
rpush key values = locked key (rpush_shard key values)

-- The list is written back, and deleted if nothing is left.
unfoldable pub put_back : Bytes → List Bytes → Shard → Shard
put_back key [] sh = record sh { lists = delete key (insert key [] sh.lists) }
put_back key (v ∷ list) sh = record sh { lists = insert key (v ∷ list) sh.lists }

-- LPop
unfoldable pub lpop_list : Bytes → Shard → List Bytes → Shard × Result Bytes
lpop_list key sh [] = (sh, fail empty_list)
lpop_list key sh (val ∷ rest) = (put_back key rest sh, ok val)

unfoldable pub lpop_shard : Bytes → Shard → Shard × Result Bytes
unfolding lpop_list put_back
lpop_shard key sh = lpop_list key sh (list_at key sh)

unfoldable pub lpop : Bytes → Store → Store × Result Bytes
lpop key = locked key (lpop_shard key)

-- list[last], of a list with the first element `v`.
unfoldable pub last_of : Bytes → List Bytes → Bytes
last_of v [] = v
last_of v (w ∷ list) = last_of w list

-- list[:last]
unfoldable pub front_of : Bytes → List Bytes → List Bytes
front_of v [] = []
front_of v (w ∷ list) = v ∷ front_of w list

-- RPop
unfoldable pub rpop_list : Bytes → Shard → List Bytes → Shard × Result Bytes
rpop_list key sh [] = (sh, fail empty_list)
rpop_list key sh (v ∷ rest) = (put_back key (front_of v rest) sh, ok (last_of v rest))

unfoldable pub rpop_shard : Bytes → Shard → Shard × Result Bytes
unfolding rpop_list put_back
rpop_shard key sh = rpop_list key sh (list_at key sh)

unfoldable pub rpop : Bytes → Store → Store × Result Bytes
rpop key = locked key (rpop_shard key)

-- LLen
unfoldable pub llen : Bytes → Store → ℕ
llen key s = length (list_at key (get_shard key s))

-- A negative index counts from the end.
unfoldable pub from_end : ℕ → ℤ → ℤ
from_end llen i = if ltb_ℤ i (pos 0) then pos llen +ℤ i else i

-- `list[start:stop+1]`, copied; a bound out of range panics in Go.
abbrev slice_from : List Bytes → ℤ → ℤ → Option (List Bytes)
slice_from list (pos start) (pos stop) =
    if ltb stop (length list) && leb start (stop + 1)
    then some (take (stop + 1 - start) (drop start list))
    else none
slice_from list _ _ = none

-- The body of LRange; `none` is a panic.
unfoldable pub range_of : List Bytes → ℤ → ℤ → Option (List Bytes)
range_of [] start stop = some []
range_of (v ∷ rest) start stop =
    let list = v ∷ rest in
    let llen = length list in
    let start1 = from_end llen start in
    let stop1 = from_end llen stop in
    let start2 = if ltb_ℤ start1 (pos 0) then pos 0 else start1 in
    let stop2 = if ltb_ℤ stop1 (pos llen) then stop1 else pos llen -ℤ pos 1 in
    if ltb_ℤ stop2 start2 then some [] else slice_from list start2 stop2

-- LRange
unfoldable pub lrange : Bytes → ℤ → ℤ → Store → Option (List Bytes)
lrange key start stop s = range_of (list_at key (get_shard key s)) start stop

-- `list[index]`, which the caller has checked.
abbrev elem_at : List Bytes → ℤ → Result Bytes
elem_at list (negsuc i) = fail index_out_of_range
elem_at list (pos i) = elim (get_elem? list i) [ none ↦ fail index_out_of_range | some v ↦ ok v ]

-- The body of LIndex.
unfoldable pub index_of : List Bytes → ℤ → Result Bytes
index_of [] index = fail empty_list
index_of (v ∷ rest) index = elem_at (v ∷ rest) (from_end (length (v ∷ rest)) index)

-- LIndex
unfoldable pub lindex : Bytes → ℤ → Store → Result Bytes
lindex key index s = index_of (list_at key (get_shard key s)) index
