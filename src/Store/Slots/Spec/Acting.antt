-- ===== src/Store/Slots/Spec/Acting.antt =====
-- Each operation on the shard of its key gives that key the slot and the reply that the
-- specification gives, and leaves the other keys of the shard alone.
use warpdb.Base.{
  ℕ, false, ◌≡◌, refl, ap, ◌∙◌, Option, none, some, List, [], ◌∷◌, Bytes, ℤ, ◌+ℤ◌, beq, arith,
  beq_refl,
}
use mathlib.Core.Path.{subst}
use warpdb.Strconv.{atoi}
use warpdb.GoMap.{Map, keys, map_laws, lookup-insert, lookup-delete}
use warpdb.Store.{Shard, Members, ok, holds, drop_key}
use warpdb.Store.Values.{del_shard, step_parsed, step_shard}
use warpdb.Store.Expiry.{expire_shard, persist_shard}
use warpdb.Store.Lists.{lpush_shard, rpush_shard, lpop_list, rpop_list, put_back}
use warpdb.Store.Sets.{sadd_shard, srem_set, spop_member, spop_shard, nth_key, put_members}
use warpdb.Store.Hashes.{hset_shard, hdel_hash, put_hash}
use warpdb.Store.Slots.{Slot, slot_of}
use warpdb.Store.Slots.Spec.Folds.{
  front_of-take, last_of-foldl, add_members-with_added, add_members-count, remove_all-with_removed,
  remove_all-count, nth_key-get_elem?, counter_text-number_text,
}
use warpdb.Store.Slots.Spec.{
  Reply, spec, nonempty, contents, number_text, spop_op, empty_slot, expire_op, persist_op, del_op,
  lpush_op, rpush_op, sadd_op, hset_op, number, text, count, status, spec_count, spec_lpop,
  spec_rpop, spec_srem, spec_hdel, spec_spop,
}

-- The shard `sh` has become `out.0`, and the caller got `out.1`.
pub record Refines {ℓ} {A : Type ℓ} (k : Bytes) (sh : Shard) (f : A → Reply) (out : Shard × A)
    (want : Slot × Reply) : Type ℓ where
  pub self : slot_of k out.0 ≡ want.0
  pub other : (j : Bytes) → beq k j ≡ false → slot_of j out.0 ≡ slot_of j sh
  pub reply : f out.1 ≡ want.1

-- An operation that changes nothing.
Refines-same {ℓ} :
    {A : Type ℓ} (k : Bytes) (sh : Shard) (f : A → Reply) (a : A)
    → Refines k sh f (sh, a) (slot_of k sh, f a)
Refines-same k sh f a = record { self = refl; other = λ j d. refl; reply = refl }

module _ (k : Bytes) (sh : Shard) where
  pub drop_key_self : slot_of k (drop_key k sh) ≡ empty_slot
  unfolding drop_key
  drop_key_self = simp map_laws

  pub drop_key_other : (j : Bytes) → beq k j ≡ false → slot_of j (drop_key k sh) ≡ slot_of j sh
  unfolding drop_key
  drop_key_other j d = simp map_laws (rw d)

  pub del-Refines : Refines k sh status (del_shard k sh) (spec del_op (slot_of k sh))
  unfolding del_shard spec holds
  del-Refines = record {
    self = ground (arith, drop_key_self);
    other = λ j d. ground (arith, drop_key_other j d);
    reply = ground arith;
  }

  pub expire-Refines :
      (now ttl : ℤ)
      → Refines k sh status (expire_shard now ttl k sh) (spec (expire_op now ttl) (slot_of k sh))
  unfolding expire_shard spec holds
  expire-Refines now ttl = record {
    self = ground (arith, lookup-insert k k (now +ℤ ttl) sh.expires, beq_refl k);
    other = λ j d. ground (arith, lookup-insert k j (now +ℤ ttl) sh.expires);
    reply = ground arith;
  }

  pub persist-Refines : Refines k sh status (persist_shard k sh) (spec persist_op (slot_of k sh))
  unfolding persist_shard spec holds
  persist-Refines = record {
    self = ground (arith, lookup-delete k k sh.expires, beq_refl k);
    other = λ j d. ground (arith, lookup-delete k j sh.expires);
    reply = ground arith;
  }

  step_parsed-Refines :
      (step : ℤ → ℤ) (o : Option ℤ)
      → Refines k sh number (step_parsed step k sh o) (spec_count step (slot_of k sh) o)
  unfolding step_parsed
  step_parsed-Refines step none = Refines-same k sh _ _
  step_parsed-Refines step (some n) = record {
    self = simp map_laws;
    other = λ j d. simp map_laws (rw d);
    reply = refl;
  }

  pub step-Refines :
      (step : ℤ → ℤ)
      → Refines k sh number
          (step_shard step k sh)
          (spec_count step (slot_of k sh) (atoi (number_text (slot_of k sh).string)))
  unfolding step_shard
  step-Refines step =
      subst
        (λ t. Refines k sh number (step_shard step k sh) (spec_count step (slot_of k sh) (atoi t)))
        (counter_text-number_text (slot_of k sh).string) (step_parsed-Refines step _)

  pub lpush-Refines :
      (vs : List Bytes)
      → Refines k sh count (lpush_shard k vs sh) (spec (lpush_op vs) (slot_of k sh))
  unfolding lpush_shard spec
  lpush-Refines vs = record {
    self = simp map_laws;
    other = λ j d. simp map_laws (rw d);
    reply = refl;
  }

  pub rpush-Refines :
      (vs : List Bytes)
      → Refines k sh count (rpush_shard k vs sh) (spec (rpush_op vs) (slot_of k sh))
  unfolding rpush_shard spec
  rpush-Refines vs = record {
    self = simp map_laws;
    other = λ j d. simp map_laws (rw d);
    reply = refl;
  }

  put_back_self :
      (l : List Bytes) → slot_of k (put_back k l sh) ≡ record (slot_of k sh) { list = nonempty l }
  unfolding put_back
  put_back_self [] = simp map_laws
  put_back_self (v ∷ l) = simp map_laws

  put_back_other :
      (l : List Bytes) (j : Bytes) → beq k j ≡ false → slot_of j (put_back k l sh) ≡ slot_of j sh
  unfolding put_back
  put_back_other [] j d = simp map_laws (rw d)
  put_back_other (v ∷ l) j d = simp map_laws (rw d)

  pub lpop_list-Refines :
      (l : List Bytes) → Refines k sh text (lpop_list k sh l) (spec_lpop (slot_of k sh) l)
  unfolding lpop_list
  lpop_list-Refines [] = Refines-same k sh _ _
  lpop_list-Refines (v ∷ l) = record {
    self = put_back_self _;
    other = put_back_other _;
    reply = refl;
  }

  pub rpop_list-Refines :
      (l : List Bytes) → Refines k sh text (rpop_list k sh l) (spec_rpop (slot_of k sh) l)
  unfolding rpop_list
  rpop_list-Refines [] = Refines-same k sh _ _
  rpop_list-Refines (v ∷ l) = record {
    self =
        put_back_self _
        ∙ ap (λ vs. record (slot_of k sh) { list = nonempty vs }) (front_of-take v l);
    other = put_back_other _;
    reply = ap (λ w. text (ok w)) (last_of-foldl v l);
  }

  pub sadd-Refines :
      (ms : List Bytes) → Refines k sh count (sadd_shard k ms sh) (spec (sadd_op ms) (slot_of k sh))
  unfolding sadd_shard spec
  sadd-Refines ms = record {
    self = simp (map_laws, add_members-with_added);
    other = λ j d. simp map_laws (rw d);
    reply = ap count (add_members-count ms _);
  }

  put_members_self :
      (m : Members)
      → slot_of k (put_members k m sh) ≡ record (slot_of k sh) { members = nonempty m }
  unfolding put_members
  put_members_self [] = simp map_laws
  put_members_self (v ∷ l) = simp map_laws

  put_members_other :
      (m : Members) (j : Bytes) → beq k j ≡ false → slot_of j (put_members k m sh) ≡ slot_of j sh
  unfolding put_members
  put_members_other [] j d = simp map_laws (rw d)
  put_members_other (v ∷ l) j d = simp map_laws (rw d)

  pub srem_set-Refines :
      (ms : List Bytes) (o : Option Members)
      → Refines k sh count (srem_set k ms sh o) (spec_srem ms (slot_of k sh) o)
  unfolding srem_set
  srem_set-Refines ms none = Refines-same k sh _ _
  srem_set-Refines ms (some set) = record {
    self =
        put_members_self _
        ∙ ap (λ m. record (slot_of k sh) { members = nonempty m })
            (remove_all-with_removed ms set 0);
    other = put_members_other _;
    reply = ap count (remove_all-count ms set);
  }

  spop_member-Refines :
      (o : Option Bytes) → Refines k sh text (spop_member k sh o) (spec_spop (slot_of k sh) o)
  unfolding spop_member
  spop_member-Refines none = Refines-same k sh _ _
  spop_member-Refines (some m) = record {
    self = put_members_self _;
    other = put_members_other _;
    reply = refl;
  }

  pub spop-Refines :
      (pick : ℕ) → Refines k sh text (spop_shard pick k sh) (spec (spop_op pick) (slot_of k sh))
  unfolding spop_shard spec
  spop-Refines pick =
      let found = nth_key pick (keys (contents (slot_of k sh).members)) in
      subst (λ o. Refines k sh text (spop_member k sh found) (spec_spop (slot_of k sh) o))
        (nth_key-get_elem? pick _) (spop_member-Refines found)

  pub hset-Refines :
      (f v : Bytes) → Refines k sh count (hset_shard k f v sh) (spec (hset_op f v) (slot_of k sh))
  unfolding hset_shard spec
  hset-Refines f v = record {
    self = simp map_laws;
    other = λ j d. simp map_laws (rw d);
    reply = refl;
  }

  put_hash_self :
      (m : Map Bytes) → slot_of k (put_hash k m sh) ≡ record (slot_of k sh) { hash = nonempty m }
  unfolding put_hash
  put_hash_self [] = simp map_laws
  put_hash_self (v ∷ l) = simp map_laws

  put_hash_other :
      (m : Map Bytes) (j : Bytes) → beq k j ≡ false → slot_of j (put_hash k m sh) ≡ slot_of j sh
  unfolding put_hash
  put_hash_other [] j d = simp map_laws (rw d)
  put_hash_other (v ∷ l) j d = simp map_laws (rw d)

  pub hdel_hash-Refines :
      (fs : List Bytes) (o : Option (Map Bytes))
      → Refines k sh count (hdel_hash k fs sh o) (spec_hdel fs (slot_of k sh) o)
  unfolding hdel_hash
  hdel_hash-Refines fs none = Refines-same k sh _ _
  hdel_hash-Refines fs (some h) = record {
    self =
        put_hash_self _
        ∙ ap (λ m. record (slot_of k sh) { hash = nonempty m }) (remove_all-with_removed fs h 0);
    other = put_hash_other _;
    reply = ap count (remove_all-count fs h);
  }
