-- ===== src/Store/Expiry/Sweep.antt =====
-- What one tick of activeExpiry does to every key, and what FlushAll and NewStore leave.
use warpdb.Base.{
  ℕ, zero, suc, Bool, true, ◌&&◌, ◌||◌, ◌≡◌, refl, ap, ◌∙◌, List, [], ◌∷◌, Bytes, ℤ, beq, beq_iff,
  beq_refl, Bool-cases, inl, inr, foldl, arith, ltb, if◌then◌else◌,
}
use warpdb.GoMap.{lookup, keys, contains, contains-keys}
use warpdb.Store.{
  Shard, Store, num_shards, get_shard, set_shard, shard_index, empty_shard, is_expired, past,
}
use warpdb.Store.Expiry.{sweep_key, sweep_shard, sweep_at, sweep_below, active_expiry}
use warpdb.Store.Scan.{flush_at, flush_below, flush_all}
use warpdb.Store.Slots.{Slot, slot, slot_of}
use warpdb.Store.Slots.Spec.{empty_slot}
use warpdb.Store.Slots.Spec.Acting.{drop_key_self, drop_key_other}

-- The slot of a key after the sweep, if the loop comes to that key.
abbrev pub swept : ℤ → Bool → Slot → Slot
swept now met sl = if met && past now sl.expiry then empty_slot else sl

sweep_key-slot :
    (clock : Bytes → ℤ) (sh : Shard) (k j : Bytes)
    → slot_of j (sweep_key clock sh k) ≡ swept (clock j) (beq k j) (slot_of j sh)
unfolding sweep_key is_expired
sweep_key-slot clock sh k j = elim (Bool-cases (beq k j)) [
  | inl same ↦ rw ((beq_iff k j).0 same, beq_refl) (ground (arith, drop_key_self j sh))
  | inr other ↦ rw other (ground (arith, drop_key_other k sh j))
]

swept-swept :
    (now : ℤ) (a b : Bool) (sl : Slot) → swept now a (swept now b sl) ≡ swept now (b || a) sl
swept-swept now a b sl = ground arith

sweep_all-slot :
    (clock : Bytes → ℤ) (ks : List Bytes) (sh : Shard) (j : Bytes)
    → slot_of j (foldl (sweep_key clock) sh ks) ≡ swept (clock j) (contains j ks) (slot_of j sh)
sweep_all-slot clock [] sh j = refl
sweep_all-slot clock (k ∷ ks) sh j =
    sweep_all-slot clock ks (sweep_key clock sh k) j
    ∙ ap (swept (clock j) (contains j ks)) (sweep_key-slot clock sh k j)
    ∙ swept-swept (clock j) (contains j ks) (beq k j) (slot_of j sh)

pub sweep_shard-slot :
    (clock : Bytes → ℤ) (sh : Shard) (j : Bytes)
    → slot_of j (sweep_shard clock sh) ≡ swept (clock j) true (slot_of j sh)
unfolding sweep_shard
sweep_shard-slot clock sh j =
    sweep_all-slot clock (keys sh.expires) sh j ∙ rw (contains-keys j sh.expires) (ground arith)

pub sweep_below-at :
    (n : ℕ) (clock : Bytes → ℤ) (s : Store) (i : ℕ)
    → sweep_below n clock s i ≡ (if ltb i n then sweep_shard clock (s i) else s i)
unfolding sweep_below sweep_at set_shard
sweep_below-at zero clock s i = ground arith
sweep_below-at (suc n) clock s i =
    ground (arith, sweep_below-at n clock s i, sweep_below-at n clock s n)

pub in_range : (k : Bytes) → ltb (shard_index k) num_shards ≡ true
unfolding shard_index
in_range k = ground arith

-- A tick of activeExpiry, with nothing else between its shards, empties the slot of every key whose
-- expiry is past when the loop comes to the key, and changes no other.
pub active_expiry-slot :
    (clock : Bytes → ℤ) (s : Store) (j : Bytes)
    → slot j (active_expiry clock s)
      ≡ (if past (clock j) (slot j s).expiry then empty_slot else slot j s)
unfolding active_expiry slot get_shard
active_expiry-slot clock s j =
    ap (slot_of j) (sweep_below-at num_shards clock s (shard_index j))
    ∙ rw (in_range j) (sweep_shard-slot clock (s (shard_index j)) j)

pub flush_below-at :
    (n : ℕ) (s : Store) (i : ℕ) → flush_below n s i ≡ (if ltb i n then empty_shard else s i)
unfolding flush_below flush_at set_shard
flush_below-at zero s i = ground arith
flush_below-at (suc n) s i = ground (arith, flush_below-at n s i)

-- FlushAll leaves nothing at any key.
pub flush_all-slot : (s : Store) (j : Bytes) → slot j (flush_all s) ≡ empty_slot
unfolding flush_all slot get_shard lookup
flush_all-slot s j = ap (slot_of j) (flush_below-at num_shards s (shard_index j)) ∙ rw (in_range j)
