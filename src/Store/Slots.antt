-- ===== src/Store/Slots.antt =====
-- The store as a flat map: a `Slot` is all that the store holds at one key, in whatever shard.
-- A change of one shard at one key is a change of one slot.
pub mod Spec
use warpdb.Base.{
  ℕ, ◌&&◌, Bool, true, false, ◌≡◌, ◌∙◌, refl, ap, Option, List, Bytes, ℤ, beq, beq_iff, ◌==◌,
  Bool-cases, inl, inr, if◌then◌else◌, arith, ◌==◌, ==_iff,
}
use warpdb.GoMap.{Map, lookup}
use warpdb.Store.{Shard, Store, Members, get_shard, set_shard, shard_index, locked, update}

pub record Slot : Type 0 where
  pub string : Option Bytes
  pub expiry : Option ℤ
  pub list : Option (List Bytes)
  pub members : Option Members
  pub hash : Option (Map Bytes)

abbrev pub slot_of : Bytes → Shard → Slot
slot_of k sh = record {
  string = lookup k sh.strings;
  expiry = lookup k sh.expires;
  list = lookup k sh.lists;
  members = lookup k sh.sets;
  hash = lookup k sh.hashes;
}

unfoldable pub slot : Bytes → Store → Slot
unfolding get_shard
slot k s = slot_of k (get_shard k s)

get_shard-set_shard :
    (i : ℕ) (j : Bytes) (sh : Shard) (s : Store)
    → get_shard j (set_shard i sh s) ≡ (if i == shard_index j then sh else get_shard j s)
unfolding set_shard get_shard
get_shard-set_shard i j sh s = refl

same_shard :
    (k j : Bytes) (s : Store)
    → shard_index k == shard_index j ≡ true
    → get_shard k s ≡ get_shard j s
unfolding get_shard
same_shard k j s h = ap s ((==_iff _ _).0 h)

-- Where the shard of `k` is replaced, and the new one differs from it at `k` alone, the slot of `k`
-- is the new shard's, and all others are as before: those in the same shard and those elsewhere.
pub slot-set_shard :
    (k j : Bytes) (s : Store) (sh : Shard) (sl : Slot)
    → slot_of k sh ≡ sl
    → (beq k j ≡ false → slot_of j sh ≡ slot_of j (get_shard k s))
    → slot j (set_shard (shard_index k) sh s) ≡ (if beq k j then sl else slot j s)
unfolding slot
slot-set_shard k j s sh sl self other = elim (Bool-cases (beq k j)) [
  | inl same ↦ rw (same, ← (beq_iff k j).0 same) (ap (slot_of k) here ∙ self)
  | inr differs ↦ rw differs (ap (slot_of j) (get_shard-set_shard _ j sh s) ∙ apart differs)
]
  where
    here : get_shard k (set_shard (shard_index k) sh s) ≡ sh
    here = get_shard-set_shard _ k sh s ∙ rw ((==_iff (shard_index k) (shard_index k)).1 refl)

    apart :
        beq k j ≡ false
        → slot_of j (if shard_index k == shard_index j then sh else get_shard j s)
          ≡ slot_of j (get_shard j s)
    apart d = elim (Bool-cases (shard_index k == shard_index j)) [
      | inl e ↦ rw e (other d ∙ ap (slot_of j) (same_shard k j s e))
      | inr e ↦ rw e
    ]

-- Where the shard of `k` is replaced, and the new one differs from it at `k` alone, each shard holds
-- at each key what it held, but for the shard of `k` at `k`.
pub set_shard-confined :
    (k : Bytes) (s : Store) (sh : Shard) (i : ℕ) (j : Bytes)
    → (beq k j ≡ false → slot_of j sh ≡ slot_of j (get_shard k s))
    → (shard_index k == i && beq k j) ≡ false
    → slot_of j (set_shard (shard_index k) sh s i) ≡ slot_of j (s i)
unfolding set_shard get_shard
set_shard-confined k s sh i j other d = elim (Bool-cases (shard_index k == i)) [
  | inl here ↦
      rw here (other (rw here at d) ∙ ap (λ n. slot_of j (s n)) ((==_iff (shard_index k) i).0 here))
  | inr elsewhere ↦ rw elsewhere refl
]
