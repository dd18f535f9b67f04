-- ===== src/Store/Slots/Spec.antt =====
-- What each operation on one key does to that key, with no shards and no other keys in sight: a
-- specification of core/store/store.go as operations on slots. `Op` lists the operations.
pub mod Folds
pub mod Acting
pub mod Refinement
pub mod Kept
pub mod Normal
use warpdb.Base.{
  ℕ, zero, suc, ◌+◌, ◌-◌, Bool, true, false, not, ◌&&◌, ◌||◌, Option, none, some, List, [], ◌∷◌,
  ◌++◌, Bytes, ℤ, pos, negsuc, ◌+ℤ◌, ◌-ℤ◌, wrap64, is_some, length, take, get_elem?, codes, foldl,
  ◌%◌, if◌then◌else◌,
}
use warpdb.GoMap.{Map, insert, delete, keys, has}
use warpdb.Strconv.{atoi, itoa}
use warpdb.Store.{
  Shard, Store, Members, Result, ok, fail, key_not_found, not_an_integer, empty_list, empty_set,
  past,
}
use warpdb.Store.Values.{set, get, exists, del, incr, decr}
use warpdb.Store.Expiry.{expire, persist}
use warpdb.Store.Lists.{lpush, rpush, lpop, rpop}
use warpdb.Store.Sets.{sadd, srem, spop}
use warpdb.Store.Hashes.{hset, hdel, hmset}
use warpdb.Store.Slots.{Slot}

-- The operations of the store that change it at one key. `now` is the instant of the call.
pub data Op : Type 0 where
  set_op : Bytes → Op
  get_op : ℤ → Op
  exists_op : ℤ → Op
  del_op : Op
  incr_op : Op
  decr_op : Op
  expire_op : ℤ → ℤ → Op
  persist_op : Op
  lpush_op : List Bytes → Op
  rpush_op : List Bytes → Op
  lpop_op : Op
  rpop_op : Op
  sadd_op : List Bytes → Op
  srem_op : List Bytes → Op
  spop_op : ℕ → Op
  hset_op : Bytes → Bytes → Op
  hdel_op : List Bytes → Op
  hmset_op : Map Bytes → Op

-- What an operation returns.
pub data Reply : Type 0 where
  nothing : Reply
  text : Result Bytes → Reply
  status : Result (Unit {0}) → Reply
  number : Result ℤ → Reply
  count : ℕ → Reply
  flag : Bool → Reply

abbrev pub reply_with {ℓ κ} : {A : Type ℓ} {S : Type κ} → (A → Reply) → S × A → S × Reply
reply_with f (s, a) = (s, f a)

-- The operation of the store.
unfoldable pub run : Op → Bytes → Store → Store × Reply
run (set_op v) k s = (set k v s, nothing)
run (get_op now) k s = reply_with text (get now k s)
run (exists_op now) k s = reply_with flag (exists now k s)
run del_op k s = reply_with status (del k s)
run incr_op k s = reply_with number (incr k s)
run decr_op k s = reply_with number (decr k s)
run (expire_op now ttl) k s = reply_with status (expire now k ttl s)
run persist_op k s = reply_with status (persist k s)
run (lpush_op vs) k s = reply_with count (lpush k vs s)
run (rpush_op vs) k s = reply_with count (rpush k vs s)
run lpop_op k s = reply_with text (lpop k s)
run rpop_op k s = reply_with text (rpop k s)
run (sadd_op ms) k s = reply_with count (sadd k ms s)
run (srem_op ms) k s = reply_with count (srem k ms s)
run (spop_op pick) k s = reply_with text (spop pick k s)
run (hset_op f v) k s = reply_with count (hset k f v s)
run (hdel_op fs) k s = reply_with count (hdel k fs s)
run (hmset_op m) k s = (hmset k m s, nothing)

abbrev pub empty_slot : Slot
empty_slot = record { string = none; expiry = none; list = none; members = none; hash = none }

abbrev pub is_present : Slot → Bool
is_present sl = is_some sl.string || is_some sl.list || is_some sl.members || is_some sl.hash

-- An absent value is an empty one, and no empty value stays.
abbrev pub contents {ℓ} : {A : Type ℓ} → Option (List A) → List A
contents none = []
contents (some xs) = xs

abbrev pub nonempty {ℓ} : {A : Type ℓ} → List A → Option (List A)
nonempty [] = none
nonempty (x ∷ xs) = some (x ∷ xs)

-- A counter that is absent is 0.
abbrev pub number_text : Option Bytes → Bytes
number_text none = codes "0"
number_text (some v) = v

-- A set with some members added, a map with some keys taken out or some entries put in.
abbrev pub with_added : List Bytes → Members → Members
with_added ms set = foldl (λ s m. insert m tt s) set ms

abbrev pub with_removed {ℓ} : {V : Type ℓ} → List Bytes → Map V → Map V
with_removed ks m = foldl (λ h k. delete k h) m ks

abbrev pub with_entries : Map Bytes → Map Bytes → Map Bytes
with_entries fs m = foldl (λ h (e : Bytes × Bytes). insert e.0 e.1 h) m fs

-- How many keys of the map are among `ks`, each counted once.
unfoldable pub count_in {ℓ} : {V : Type ℓ} → List Bytes → Map V → ℕ
count_in [] m = 0
count_in (k ∷ ks) m = (if has k m then 1 else 0) + count_in ks (delete k m)

abbrev pub spec_count : (ℤ → ℤ) → Slot → Option ℤ → Slot × Reply
spec_count step sl none = (sl, number (fail not_an_integer))
spec_count step sl (some num) =
    let num' = wrap64 (step num) in (record sl { string = some (itoa num') }, number (ok num'))

abbrev pub spec_get : ℤ → Slot → Option Bytes → Slot × Reply
spec_get now sl none = (sl, text (fail key_not_found))
spec_get now sl (some v) =
    if past now sl.expiry
    then (record sl { string = none; expiry = none }, text (fail key_not_found))
    else (sl, text (ok v))

abbrev pub spec_lpop : Slot → List Bytes → Slot × Reply
spec_lpop sl [] = (sl, text (fail empty_list))
spec_lpop sl (v ∷ vs) = (record sl { list = nonempty vs }, text (ok v))

abbrev pub spec_rpop : Slot → List Bytes → Slot × Reply
spec_rpop sl [] = (sl, text (fail empty_list))
spec_rpop sl (v ∷ vs) =
    (record sl { list = nonempty (take (length vs) (v ∷ vs)) }, text (ok (foldl (λ u w. w) v vs)))

abbrev pub spec_srem : List Bytes → Slot → Option Members → Slot × Reply
spec_srem ms sl none = (sl, count 0)
spec_srem ms sl (some set) =
    (record sl { members = nonempty (with_removed ms set) }, count (count_in ms set))

abbrev pub spec_hdel : List Bytes → Slot → Option (Map Bytes) → Slot × Reply
spec_hdel fs sl none = (sl, count 0)
spec_hdel fs sl (some h) =
    (record sl { hash = nonempty (with_removed fs h) }, count (count_in fs h))

abbrev pub spec_spop : Slot → Option Bytes → Slot × Reply
spec_spop sl none = (sl, text (fail empty_set))
spec_spop sl (some m) =
    (record sl { members = nonempty (delete m (contents sl.members)) }, text (ok m))

-- The operation on the slot of its key.
unfoldable pub spec : Op → Slot → Slot × Reply
spec (set_op v) sl = (record sl { string = some v; expiry = none }, nothing)
spec (get_op now) sl = spec_get now sl sl.string
spec (exists_op now) sl =
    if not (is_present sl)
    then (sl, flag false)
    else if past now sl.expiry
    then (empty_slot, flag false)
    else (sl, flag true)
spec del_op sl =
    if is_present sl then (empty_slot, status (ok tt)) else (sl, status (fail key_not_found))
spec incr_op sl = spec_count (λ n. n +ℤ pos 1) sl (atoi (number_text sl.string))
spec decr_op sl = spec_count (λ n. n -ℤ pos 1) sl (atoi (number_text sl.string))
spec (expire_op now ttl) sl =
    if is_present sl
    then (record sl { expiry = some (now +ℤ ttl) }, status (ok tt))
    else (sl, status (fail key_not_found))
spec persist_op sl =
    if is_present sl
    then (record sl { expiry = none }, status (ok tt))
    else (sl, status (fail key_not_found))
spec (lpush_op vs) sl =
    let l = vs ++ contents sl.list in (record sl { list = some l }, count (length l))
spec (rpush_op vs) sl =
    let l = contents sl.list ++ vs in (record sl { list = some l }, count (length l))
spec lpop_op sl = spec_lpop sl (contents sl.list)
spec rpop_op sl = spec_rpop sl (contents sl.list)
spec (sadd_op ms) sl =
    let set = with_added ms (contents sl.members) in
    (record sl { members = some set }, count (length set - length (contents sl.members)))
spec (srem_op ms) sl = spec_srem ms sl sl.members
spec (spop_op pick) sl =
    let members = keys (contents sl.members) in
    spec_spop sl (get_elem? members (pick % length members))
spec (hset_op f v) sl = (
  record sl { hash = some (insert f v (contents sl.hash)) },
  count (if has f (contents sl.hash) then 0 else 1),
)
spec (hdel_op fs) sl = spec_hdel fs sl sl.hash
spec (hmset_op m) sl = (record sl { hash = some (with_entries m (contents sl.hash)) }, nothing)
