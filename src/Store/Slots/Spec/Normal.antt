-- ===== src/Store/Slots/Spec/Normal.antt =====
-- That no key holds an empty list, set or hash.
use warpdb.Base.{
  take, length, sym, Bool, true, false, not, Option, none, some, List, [], ◌∷◌, Bytes, ℤ, beq,
  if◌then◌else◌, foldl, All,
}
use mathlib.Core.Path.{subst}
use warpdb.GoMap.{Map, lookup}
use warpdb.Store.{Store, Members, new_store, past}
use warpdb.Store.Slots.{Slot, slot}
use warpdb.Store.Slots.Spec.{
  Op, Reply, run, spec, set_op, get_op, exists_op, del_op, incr_op, decr_op, expire_op, persist_op,
  lpush_op, rpush_op, lpop_op, rpop_op, sadd_op, srem_op, spop_op, hset_op, hdel_op, hmset_op,
  contents, nonempty, spec_count, spec_get, spec_lpop, spec_rpop, spec_srem, spec_hdel, spec_spop,
  is_present, empty_slot,
}
use warpdb.Store.Slots.Spec.Refinement.{run-Implements}
use warpdb.Store.Slots.Spec.Kept.{
  IsKept, nonempty-IsKept, insert-IsKept, append-IsKept, with_entries-IsKept, with_added-IsKept,
}

pub record IsNormal (sl : Slot) : Type 0 where
  pub list_kept : IsKept sl.list
  pub members_kept : IsKept sl.members
  pub hash_kept : IsKept sl.hash

-- An operation that is given a value at least, if it takes some.
abbrev pub GivesValue : Op → Type 0
GivesValue (lpush_op []) = ⊥
GivesValue (rpush_op []) = ⊥
GivesValue (sadd_op []) = ⊥
GivesValue (hmset_op []) = ⊥
GivesValue _ = Unit {0}

abbrev with_list : Slot → Option (List Bytes) → Slot
with_list sl l = record sl { list = l }

abbrev with_members : Slot → Option Members → Slot
with_members sl m = record sl { members = m }

abbrev with_hash : Slot → Option (Map Bytes) → Slot
with_hash sl h = record sl { hash = h }

abbrev with_text : Slot → Option Bytes → Option ℤ → Slot
with_text sl v t = record sl { string = v; expiry = t }

-- Where one part of a slot changes.
with_list-IsNormal :
    (sl : Slot) (l : Option (List Bytes)) → IsKept l → IsNormal sl → IsNormal (with_list sl l)
with_list-IsNormal sl l k n = record {
  list_kept = k;
  members_kept = n.members_kept;
  hash_kept = n.hash_kept;
}

with_members-IsNormal :
    (sl : Slot) (m : Option Members) → IsKept m → IsNormal sl → IsNormal (with_members sl m)
with_members-IsNormal sl m k n = record {
  list_kept = n.list_kept;
  members_kept = k;
  hash_kept = n.hash_kept;
}

with_hash-IsNormal :
    (sl : Slot) (h : Option (Map Bytes)) → IsKept h → IsNormal sl → IsNormal (with_hash sl h)
with_hash-IsNormal sl h k n = record {
  list_kept = n.list_kept;
  members_kept = n.members_kept;
  hash_kept = k;
}

with_text-IsNormal :
    (sl : Slot) (v : Option Bytes) (t : Option ℤ) → IsNormal sl → IsNormal (with_text sl v t)
with_text-IsNormal sl v t n = record {
  list_kept = n.list_kept;
  members_kept = n.members_kept;
  hash_kept = n.hash_kept;
}

empty_slot-IsNormal : IsNormal empty_slot
empty_slot-IsNormal = record { list_kept = tt; members_kept = tt; hash_kept = tt }

IsNormal-if :
    (b : Bool) (x y : Slot × Reply) → IsNormal x.0 → IsNormal y.0 → IsNormal (if b then x else y).0
IsNormal-if true x y h k = h
IsNormal-if false x y h k = k

spec_get-IsNormal :
    (now : ℤ) (sl : Slot) (o : Option Bytes) → IsNormal sl → IsNormal (spec_get now sl o).0
spec_get-IsNormal now sl none n = n
spec_get-IsNormal now sl (some v) n =
    IsNormal-if (past now sl.expiry) _ _ (with_text-IsNormal sl none none n) n

spec_count-IsNormal :
    (step : ℤ → ℤ) (sl : Slot) (o : Option ℤ) → IsNormal sl → IsNormal (spec_count step sl o).0
spec_count-IsNormal step sl none n = n
spec_count-IsNormal step sl (some num) n = with_text-IsNormal sl _ sl.expiry n

spec_lpop-IsNormal : (sl : Slot) (l : List Bytes) → IsNormal sl → IsNormal (spec_lpop sl l).0
spec_lpop-IsNormal sl [] n = n
spec_lpop-IsNormal sl (v ∷ vs) n = with_list-IsNormal sl (nonempty vs) (nonempty-IsKept vs) n

spec_rpop-IsNormal : (sl : Slot) (l : List Bytes) → IsNormal sl → IsNormal (spec_rpop sl l).0
spec_rpop-IsNormal sl [] n = n
spec_rpop-IsNormal sl (v ∷ vs) n =
    with_list-IsNormal sl _ (nonempty-IsKept (take (length vs) (v ∷ vs))) n

spec_srem-IsNormal :
    (ms : List Bytes) (sl : Slot) (o : Option Members)
    → IsNormal sl
    → IsNormal (spec_srem ms sl o).0
spec_srem-IsNormal ms sl none n = n
spec_srem-IsNormal ms sl (some set) n = with_members-IsNormal sl _ (nonempty-IsKept _) n

spec_spop-IsNormal : (sl : Slot) (o : Option Bytes) → IsNormal sl → IsNormal (spec_spop sl o).0
spec_spop-IsNormal sl none n = n
spec_spop-IsNormal sl (some m) n = with_members-IsNormal sl _ (nonempty-IsKept _) n

spec_hdel-IsNormal :
    (fs : List Bytes) (sl : Slot) (o : Option (Map Bytes))
    → IsNormal sl
    → IsNormal (spec_hdel fs sl o).0
spec_hdel-IsNormal fs sl none n = n
spec_hdel-IsNormal fs sl (some h) n = with_hash-IsNormal sl _ (nonempty-IsKept _) n

spec-IsNormal : (op : Op) (sl : Slot) → GivesValue op → IsNormal sl → IsNormal (spec op sl).0
unfolding spec
spec-IsNormal (set_op v) sl g n = with_text-IsNormal sl (some v) none n
spec-IsNormal (get_op now) sl g n = spec_get-IsNormal now sl sl.string n
spec-IsNormal (exists_op now) sl g n =
    IsNormal-if (not (is_present sl)) _ _ n
      (IsNormal-if (past now sl.expiry) _ _ empty_slot-IsNormal n)
spec-IsNormal del_op sl g n = IsNormal-if (is_present sl) _ _ empty_slot-IsNormal n
spec-IsNormal incr_op sl g n = spec_count-IsNormal _ sl _ n
spec-IsNormal decr_op sl g n = spec_count-IsNormal _ sl _ n
spec-IsNormal (expire_op now ttl) sl g n =
    IsNormal-if (is_present sl) _ _ (with_text-IsNormal sl sl.string _ n) n
spec-IsNormal persist_op sl g n =
    IsNormal-if (is_present sl) _ _ (with_text-IsNormal sl sl.string none n) n
spec-IsNormal (lpush_op []) sl g n = absurd g
spec-IsNormal (lpush_op (v ∷ vs)) sl g n = with_list-IsNormal sl _ tt n
spec-IsNormal (rpush_op []) sl g n = absurd g
spec-IsNormal (rpush_op (v ∷ vs)) sl g n =
    with_list-IsNormal sl _ (append-IsKept (contents sl.list) vs v) n
spec-IsNormal lpop_op sl g n = spec_lpop-IsNormal sl (contents sl.list) n
spec-IsNormal rpop_op sl g n = spec_rpop-IsNormal sl (contents sl.list) n
spec-IsNormal (sadd_op []) sl g n = absurd g
spec-IsNormal (sadd_op (m ∷ ms)) sl g n =
    with_members-IsNormal sl _ (with_added-IsKept ms _ (insert-IsKept m tt (contents sl.members))) n
spec-IsNormal (srem_op ms) sl g n = spec_srem-IsNormal ms sl sl.members n
spec-IsNormal (spop_op pick) sl g n = spec_spop-IsNormal sl _ n
spec-IsNormal (hset_op f v) sl g n =
    with_hash-IsNormal sl _ (insert-IsKept f v (contents sl.hash)) n
spec-IsNormal (hdel_op fs) sl g n = spec_hdel-IsNormal fs sl sl.hash n
spec-IsNormal (hmset_op []) sl g n = absurd g
spec-IsNormal (hmset_op ((f, v) ∷ fs)) sl g n =
    with_hash-IsNormal sl _ (with_entries-IsKept fs _ (insert-IsKept f v (contents sl.hash))) n

-- A store with no empty list, set or hash at any key.
abbrev pub AreNormal : Store → Type 0
AreNormal s = (j : Bytes) → IsNormal (slot j s)

run-AreNormal :
    (op : Op) (k : Bytes) (s : Store) → GivesValue op → AreNormal s → AreNormal (run op k s).0
run-AreNormal op k s g h j = subst IsNormal (sym ((run-Implements op k s).slots j)) (at (beq k j))
  where
    at : (b : Bool) → IsNormal (if b then (spec op (slot k s)).0 else slot j s)
    at true = spec-IsNormal op (slot k s) g (h k)
    at false = h j

-- Operations one after the other, each at its key.
abbrev pub run_all : List (Op × Bytes) → Store → Store
run_all ops s = foldl (λ s (o : Op × Bytes). (run o.0 o.1 s).0) s ops

-- After any sequence of operations on keys of the new store, in which those that push, add or set
-- several values are given one at least, no key holds an empty list, set or hash.
pub run_all-AreNormal :
    (ops : List (Op × Bytes))
    → All (λ (o : Op × Bytes). GivesValue o.0) ops
    → AreNormal (run_all ops new_store)
run_all-AreNormal ops g =
    from ops new_store g (λ j. unfold slot new_store lookup in empty_slot-IsNormal)
  where
    from :
        (os : List (Op × Bytes)) (s : Store)
        → All (λ (o : Op × Bytes). GivesValue o.0) os
        → AreNormal s
        → AreNormal (run_all os s)
    from [] s h n = n
    from ((op, k) ∷ os) s h n = from os (run op k s).0 h.1 (run-AreNormal op k s h.0 n)
