-- ===== src/Store/Slots/Spec/Refinement.antt =====
-- The sharded store of core/store/store.go implements the specification on slots.
use warpdb.Base.{
  ℕ, ◌&&◌, ◌==◌, Bool, true, false, ◌≡◌, refl, ◌∙◌, Option, none, some, Bytes, ℤ, beq,
  if◌then◌else◌, Bool-cases, inl, inr, beq_iff,
}
use warpdb.GoMap.{lookup, map_laws}
use warpdb.Store.{Shard, Store, get_shard, shard_index, locked, update, holds, past, drop_key}
use warpdb.Store.Values.{
  set, get, get_read, get_finish, get_evict, exists, exists_read, exists_finish, exists_evict, del,
  incr, decr,
}
use warpdb.Store.Expiry.{expire, persist}
use warpdb.Store.Lists.{lpush, rpush, lpop, rpop, lpop_shard, rpop_shard}
use warpdb.Store.Sets.{sadd, srem, spop, srem_shard}
use warpdb.Store.Hashes.{hset, hdel, hmset, hdel_shard}
use warpdb.Store.Slots.{Slot, slot_of, slot, slot-set_shard, set_shard-confined}
use warpdb.Store.Slots.Spec.{
  Op, Reply, run, spec, empty_slot, set_op, get_op, exists_op, expire_op, persist_op, del_op,
  incr_op, decr_op, lpush_op, rpush_op, lpop_op, rpop_op, sadd_op, srem_op, spop_op, hset_op,
  hdel_op, hmset_op, text, reply_with, flag, spec_get, is_present,
}
use warpdb.Store.Slots.Spec.Folds.{insert_all-with_entries}
use warpdb.Store.Slots.Spec.Acting.{
  Refines, drop_key_self, drop_key_other, del-Refines, expire-Refines, persist-Refines,
  step-Refines, lpush-Refines, rpush-Refines, lpop_list-Refines, rpop_list-Refines, sadd-Refines,
  srem_set-Refines, spop-Refines, hset-Refines, hdel_hash-Refines,
}

-- A store has become another by an operation on `k`, as the specification says: the slot of `k`
-- and the reply are the specified ones, and every other slot is what it was. Nothing else changes in any shard.
pub record Implements (k : Bytes) (s : Store) (out : Store × Reply) (want : Slot × Reply)
    : Type 0 where
  pub slots : (j : Bytes) → slot j out.0 ≡ (if beq k j then want.0 else slot j s)
  pub reply : out.1 ≡ want.1
  pub confined :
      (i : ℕ) (j : Bytes)
      → (shard_index k == i && beq k j) ≡ false
      → slot_of j (out.0 i) ≡ slot_of j (s i)

-- What holds of an operation on the shard of `k` holds of the operation under its lock.
locked-Implements {ℓ} :
    {A : Type ℓ} (k : Bytes) (s : Store) (f : Shard → Shard × A) (g : A → Reply)
    (want : Slot × Reply)
    → Refines k (get_shard k s) g (f (get_shard k s)) want
    → Implements k s (reply_with g (locked k f s)) want
unfolding locked
locked-Implements k s f g want r = record {
  slots = λ j. slot-set_shard k j s _ _ r.self (r.other j);
  reply = r.reply;
  confined = λ i j. set_shard-confined k s _ i j (r.other j);
}

update-Implements :
    (k : Bytes) (s : Store) (f : Shard → Shard) (want : Slot × Reply) (r : Reply)
    → slot_of k (f (get_shard k s)) ≡ want.0
    → ((j : Bytes) → beq k j ≡ false → slot_of j (f (get_shard k s)) ≡ slot_of j (get_shard k s))
    → r ≡ want.1
    → Implements k s (update k f s, r) want
unfolding update
update-Implements k s f want r self other e = record {
  slots = λ j. slot-set_shard k j s _ _ self (other j);
  reply = e;
  confined = λ i j. set_shard-confined k s _ i j (other j);
}

-- An operation that leaves the store as it is.
Implements-same : (k : Bytes) (s : Store) (r : Reply) → Implements k s (s, r) (slot k s, r)
Implements-same k s r = record {
  slots = λ j. same j (beq k j) ((beq_iff k j).0);
  reply = refl;
  confined = λ i j d. refl;
}
  where
    same :
        (j : Bytes) (b : Bool) → (b ≡ true → k ≡ j) → slot j s ≡ (if b then slot k s else slot j s)
    same j true e = rw (e refl)
    same j false e = refl

-- The second phases of Get and Exists, on any store.
pub get_evict-slot :
    (k j : Bytes) (s : Store)
    → slot j (get_evict k s)
      ≡ (if beq k j then record (slot k s) { string = none; expiry = none } else slot j s)
unfolding get_evict slot update
get_evict-slot k j s = slot-set_shard k j s _ _ (simp map_laws) (λ d. simp map_laws (rw d))

pub get_evict-confined :
    (k : Bytes) (i : ℕ) (j : Bytes) (s : Store)
    → (shard_index k == i && beq k j) ≡ false
    → slot_of j (get_evict k s i) ≡ slot_of j (s i)
unfolding get_evict update
get_evict-confined k i j s = set_shard-confined k s _ i j (λ d. simp map_laws (rw d))

-- The shard of Exists after its second phase, at another key.
exists_evict_other :
    (now : ℤ) (k j : Bytes) (sh : Shard)
    → beq k j ≡ false
    → slot_of j (if past now (lookup k sh.expires) then drop_key k sh else sh) ≡ slot_of j sh
exists_evict_other now k j sh d = elim (Bool-cases (past now (lookup k sh.expires))) [
  | inl e ↦ rw e (drop_key_other k _ j d)
  | inr e ↦ rw e
]

pub exists_evict-confined :
    (now : ℤ) (k : Bytes) (i : ℕ) (j : Bytes) (s : Store)
    → (shard_index k == i && beq k j) ≡ false
    → slot_of j (exists_evict now k s i) ≡ slot_of j (s i)
unfolding exists_evict update
exists_evict-confined now k i j s =
    set_shard-confined k s _ i j (exists_evict_other now k j (get_shard k s))

pub exists_evict-slot :
    (now : ℤ) (k j : Bytes) (s : Store)
    → slot j (exists_evict now k s) ≡ (
        if beq k j then (if past now (slot k s).expiry then empty_slot else slot k s) else slot j s)
unfolding exists_evict slot update
exists_evict-slot now k j s =
    slot-set_shard k j s _ _
      (elim (Bool-cases (past now (lookup k (get_shard k s).expires))) [
        | inl e ↦ rw e (drop_key_self k _)
        | inr e ↦ rw e
      ])
      (exists_evict_other now k j (get_shard k s))

get_finish-Implements :
    (now : ℤ) (k : Bytes) (s : Store) (o : Option Bytes)
    → Implements k s
        (reply_with text (get_finish now k (o, (slot k s).expiry) s))
        (spec_get now (slot k s) o)
unfolding get_finish
get_finish-Implements now k s none = Implements-same k s _
get_finish-Implements now k s (some v) = elim (Bool-cases (past now (slot k s).expiry)) [
  | inl expired ↦ rw expired (record {
    slots = λ j. get_evict-slot k j s;
    reply = refl;
    confined = λ i j. get_evict-confined k i j s;
  })
  | inr live ↦ rw live (Implements-same k s _)
]

get-Implements :
    (now : ℤ) (k : Bytes) (s : Store)
    → Implements k s (run (get_op now) k s) (spec (get_op now) (slot k s))
unfolding run get get_read spec slot
get-Implements now k s = get_finish-Implements now k s (lookup k (get_shard k s).strings)

exists_finish-Implements :
    (now : ℤ) (k : Bytes) (s : Store)
    → Implements k s
        (reply_with flag (exists_finish now now k (is_present (slot k s), (slot k s).expiry) s))
        (spec (exists_op now) (slot k s))
unfolding exists_finish spec
exists_finish-Implements now k s = elim (Bool-cases (is_present (slot k s))) [
  | inr absent ↦ rw absent (Implements-same k s _)
  | inl present ↦ rw present (elim (Bool-cases (past now (slot k s).expiry)) [
    | inl expired ↦ rw expired (record {
      slots = λ j. exists_evict-slot now k j s ∙ rw expired;
      reply = refl;
      confined = λ i j. exists_evict-confined now k i j s;
    })
    | inr live ↦ rw live (Implements-same k s _)
  ])
]

exists-Implements :
    (now : ℤ) (k : Bytes) (s : Store)
    → Implements k s (run (exists_op now) k s) (spec (exists_op now) (slot k s))
unfolding run exists exists_read slot holds
exists-Implements now k s = exists_finish-Implements now k s

-- Set, Get, Exists, Del, Incr, Decr, Expire, Persist, LPush, RPush, LPop, RPop, SAdd, SRem, SPop,
-- HSet, HDel and HMSet of the sharded store change the slot of their key and reply as the
-- specification on slots says, and leave the slot of every other key as it was, and changes nothing
-- else in any shard.
pub run-Implements :
    (op : Op) (k : Bytes) (s : Store) → Implements k s (run op k s) (spec op (slot k s))
unfolding run slot
run-Implements (set_op v) k s =
    unfold set spec in
    update-Implements k s _ _ _ (simp map_laws) (λ j d. simp map_laws (rw d)) refl
run-Implements (get_op now) k s = get-Implements now k s
run-Implements (exists_op now) k s = exists-Implements now k s
run-Implements del_op k s = unfold del in locked-Implements k s _ _ _ (del-Refines k _)
run-Implements incr_op k s = unfold incr spec in locked-Implements k s _ _ _ (step-Refines k _ _)
run-Implements decr_op k s = unfold decr spec in locked-Implements k s _ _ _ (step-Refines k _ _)
run-Implements (expire_op now ttl) k s =
    unfold expire in locked-Implements k s _ _ _ (expire-Refines k _ now ttl)
run-Implements persist_op k s = unfold persist in locked-Implements k s _ _ _ (persist-Refines k _)
run-Implements (lpush_op vs) k s =
    unfold lpush in locked-Implements k s _ _ _ (lpush-Refines k _ vs)
run-Implements (rpush_op vs) k s =
    unfold rpush in locked-Implements k s _ _ _ (rpush-Refines k _ vs)
run-Implements lpop_op k s =
    unfold lpop lpop_shard spec in locked-Implements k s _ _ _ (lpop_list-Refines k _ _)
run-Implements rpop_op k s =
    unfold rpop rpop_shard spec in locked-Implements k s _ _ _ (rpop_list-Refines k _ _)
run-Implements (sadd_op ms) k s = unfold sadd in locked-Implements k s _ _ _ (sadd-Refines k _ ms)
run-Implements (srem_op ms) k s =
    unfold srem srem_shard spec in locked-Implements k s _ _ _ (srem_set-Refines k _ ms _)
run-Implements (spop_op pick) k s =
    unfold spop in locked-Implements k s _ _ _ (spop-Refines k _ pick)
run-Implements (hset_op f v) k s = unfold hset in locked-Implements k s _ _ _ (hset-Refines k _ f v)
run-Implements (hdel_op fs) k s =
    unfold hdel hdel_shard spec in locked-Implements k s _ _ _ (hdel_hash-Refines k _ fs _)
run-Implements (hmset_op m) k s =
    unfold hmset spec in
    update-Implements k s _ _ _ (simp (map_laws, insert_all-with_entries))
      (λ j d. simp map_laws (rw d)) refl
