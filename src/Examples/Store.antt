-- ===== src/Examples/Store.antt =====
-- The theorems on core/store/store.go at concrete stores.
use warpdb.Base.{
  ℕ, ◌+◌, ◌≡◌, refl, Bool, true, false, Option, none, some, List, [], ◌∷◌, Bytes, codes, beq, ltb,
  Bool-cases, inl, inr, length, ◌==◌, ℤ, pos, negsuc, if◌then◌else◌,
}
use warpdb.GoMap.Size.{IsDistinct}
use warpdb.Store.{
  Members, Store, new_store, fnv32a, fail, key_not_found, ok, past, get_shard, shard_index,
}
use warpdb.Store.Values.{set, get_read, get_finish, exists_finish}
use warpdb.Store.Expiry.{expire, active_expiry}
use warpdb.Store.Lists.{range_of, index_of}
use warpdb.Store.Lists.Range.{range_of-window, window, element, first_place, end_place}
use warpdb.Store.Slots.{slot, slot_of}
use warpdb.Store.Slots.Spec.{
  Op, run, spec, incr_op, set_op, expire_op, rpush_op, sadd_op, srem_op, lpop_op, empty_slot,
}
use warpdb.Store.Slots.Spec.Normal.{IsNormal, run_all, run_all-AreNormal}
use warpdb.Store.Expiry.Stale.{listed, refilled, refilled_expires}
use warpdb.GoMap.{contains}
use warpdb.Store.Scan.{store_keys}
use warpdb.Store.Scan.Routing.{IsReached, fresh, operated, IsReached-IsRouted}
use warpdb.Store.Scan.Listing.{is_listed, contains-store_keys}
use warpdb.Store.Slots.Spec.Refinement.{Implements, run-Implements}
use warpdb.Store.Expiry.Sweep.{active_expiry-slot}
use warpdb.Store.Values.Races.{exists_finish-slot, get_finish-loses_set}
use warpdb.Store.Glob.{match_pattern}
use warpdb.Store.Glob.Pattern.{Matches}
use warpdb.Store.Glob.Matching.{Decides, match_pattern-Decides}

abbrev k : Bytes
k = codes "k"

abbrev other : Bytes
other = codes "n"

abbrev one_key : Store
one_key = set k (codes "7") new_store

-- The same key, with an expiry at the instant 5.
abbrev expiring : Store
expiring = (expire (pos 3) k (pos 2) one_key).0

fnv32a_a : fnv32a (codes "a") ≡ 3826002220
unfolding fnv32a
fnv32a_a = refl

run-Implements_example :
    Implements k one_key (run incr_op k one_key) (spec incr_op (slot k one_key))
run-Implements_example = run-Implements incr_op k one_key

match_pattern-Decides_example :
    Decides
      (Matches (codes "u[a-c]*") (codes "ubx"))
      (match_pattern (codes "u[a-c]*") (codes "ubx"))
match_pattern-Decides_example = match_pattern-Decides (codes "u[a-c]*") (codes "ubx")

match_class : match_pattern (codes "u[a-c]*") (codes "ubx") ≡ some true
unfolding match_pattern beq warpdb.Store.Glob.glob_match warpdb.Store.Glob.byte_case
    warpdb.Store.Glob.class_case warpdb.Store.Glob.split_class warpdb.Store.Glob.in_class
match_class = refl

abbrev letters : List Bytes
letters = codes "a" ∷ codes "b" ∷ codes "c" ∷ codes "d" ∷ []

range_of-window_example :
    range_of letters (negsuc 2) (pos 9)
    ≡ some (
        window
          (first_place (length letters) (negsuc 2))
          (end_place (length letters) (pos 9))
          letters)
range_of-window_example = range_of-window letters (negsuc 2) (pos 9)

last_element : element letters (negsuc 0) ≡ ok (codes "d")
last_element = refl

active_expiry-slot_example :
    slot k (active_expiry (λ key. pos 9) expiring)
    ≡ (if past (pos 9) (slot k expiring).expiry then empty_slot else slot k expiring)
active_expiry-slot_example = active_expiry-slot (λ key. pos 9) expiring k

no_expiry : past (pos 9) (slot k one_key).expiry ≡ false
unfolding slot set warpdb.GoMap.lookup warpdb.Store.update warpdb.Store.set_shard
    warpdb.Store.shard_index warpdb.GoMap.delete new_store
no_expiry = refl

exists_finish-slot_example :
    slot k (exists_finish (pos 8) (pos 9) k (true, some (pos 5)) one_key).0 ≡ slot k one_key
exists_finish-slot_example =
    exists_finish-slot (pos 8) (pos 9) k k (true, some (pos 5)) one_key no_expiry

expiring_read : get_read k expiring ≡ (some (codes "7"), some (pos 5))
unfolding get_read expire set warpdb.GoMap.lookup get_shard warpdb.Store.locked
    warpdb.Store.set_shard warpdb.Store.shard_index warpdb.Store.Expiry.expire_shard
    warpdb.Store.holds warpdb.Store.update warpdb.GoMap.insert new_store beq warpdb.GoMap.delete
    warpdb.Base.◌+ℤ◌
expiring_read = refl

get_finish-loses_set_example :
    ((slot k (set k (codes "8") expiring)).string ≡ some (codes "8"))
    × ((slot k (get_finish (pos 9) k (get_read k expiring) (set k (codes "8") expiring)).0).string
        ≡ none)
    × ((get_finish (pos 9) k (get_read k expiring) (set k (codes "8") expiring)).1
        ≡ fail key_not_found)
get_finish-loses_set_example =
    get_finish-loses_set (pos 9) k (codes "8") expiring expiring_read refl

abbrev pair : Members
pair = (codes "a", tt) ∷ (codes "b", tt) ∷ []

pair-IsDistinct : IsDistinct pair
unfolding warpdb.GoMap.lookup beq
pair-IsDistinct = (refl, (refl, tt))

-- A store that one Set leads to, and a shard that is not the one of its key.
abbrev after_set : Store
after_set = (run (set_op (codes "7")) k new_store).0

other_shard : (shard_index k == 3) ≡ false
unfolding shard_index
other_shard = refl

IsReached-IsRouted_example : slot_of k (after_set 3) ≡ empty_slot
IsReached-IsRouted_example =
    IsReached-IsRouted after_set (operated (set_op (codes "7")) k fresh) 3 k other_shard

-- A Set that comes in when Keys has gone through the first four shards.
abbrev between : ℕ → Store
between n = if ltb n 4 then new_store else after_set

between-IsReached : (n : ℕ) → IsReached (between n)
between-IsReached n = elim (Bool-cases (ltb n 4)) [
  | inl e ↦ rw e fresh
  | inr e ↦ rw e (operated (set_op (codes "7")) k fresh)
]

contains-store_keys_example :
    contains k (store_keys (pos 9) (codes "k*") (λ n. between n n))
    ≡ is_listed (pos 9) (codes "k*") k (slot k (between (shard_index k)))
contains-store_keys_example = contains-store_keys (pos 9) (codes "k*") between k between-IsReached

-- A list of one element with an expiry.
abbrev expiring_list : Store
expiring_list =
    (run (expire_op (pos 3) (pos 2)) k (run (rpush_op (codes "a" ∷ [])) k new_store).0).0

expiring_list-listed : slot k expiring_list ≡ listed (codes "a" ∷ []) (pos 5)
unfolding slot run expire warpdb.GoMap.lookup get_shard warpdb.Store.locked warpdb.Store.set_shard
    shard_index warpdb.Store.Expiry.expire_shard warpdb.Store.holds warpdb.Store.update
    warpdb.GoMap.insert new_store beq warpdb.GoMap.delete warpdb.Base.◌+ℤ◌ warpdb.Store.Lists.rpush
    warpdb.Store.Lists.rpush_shard
expiring_list-listed = refl

refilled_expires_example :
    (slot k (refilled k (codes "b") expiring_list) ≡ listed (codes "b" ∷ []) (pos 5))
    × (slot k (active_expiry (λ key. pos 9) (refilled k (codes "b") expiring_list)) ≡ empty_slot)
refilled_expires_example =
    refilled_expires k (codes "a") (codes "b") (pos 5) (λ key. pos 9) expiring_list
      expiring_list-listed refl

abbrev three_ops : List (Op × Bytes)
three_ops = (sadd_op (codes "a" ∷ []), k) ∷ (srem_op (codes "a" ∷ []), k) ∷ (lpop_op, other) ∷ []

run_all-AreNormal_example : IsNormal (slot k (run_all three_ops new_store))
run_all-AreNormal_example = run_all-AreNormal three_ops (tt, (tt, (tt, tt))) k
