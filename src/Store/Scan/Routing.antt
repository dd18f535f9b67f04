-- ===== src/Store/Scan/Routing.antt =====
-- The stores that a program reaches, in which each key stands in the shard of its hash alone.
use warpdb.Base.{
  ℕ, ◌≡◌, refl, sym, ap, ◌∙◌, Bool, true, false, ◌&&◌, Bytes, ℤ, beq, beq_iff, ◌==◌, ==_iff, ltb,
  Bool-cases, inl, inr, arith, if◌then◌else◌,
}
use mathlib.Core.Path.{subst}
use warpdb.GoMap.{lookup}
use warpdb.Store.{Shard, Store, new_store, shard_index, num_shards, set_shard}
use warpdb.Store.Values.{get_evict, exists_evict}
use warpdb.Store.Expiry.{active_expiry, sweep_at, sweep_shard}
use warpdb.Store.Expiry.Sweep.{swept, sweep_shard-slot, sweep_below-at, flush_below-at}
use warpdb.Store.Scan.{flush_all, flush_at}
use warpdb.Store.Slots.{slot_of}
use warpdb.Store.Slots.Spec.{Op, run, empty_slot}
use warpdb.Store.Slots.Spec.Refinement.{run-Implements, get_evict-confined, exists_evict-confined}

-- A store that operations, the second phases of Get and Exists, ticks of activeExpiry and FlushAll
-- lead to, in whatever order. activeExpiry and FlushAll let go of the lock after each shard, so their
-- parts on one shard are steps too, with any others in between.
pub data IsReached : Store → Type 0 where
  fresh : IsReached new_store
  operated : (op : Op) (k : Bytes) {s : Store} → IsReached s → IsReached (run op k s).0
  get_evicted : (k : Bytes) {s : Store} → IsReached s → IsReached (get_evict k s)
  exists_evicted :
      (now : ℤ) (k : Bytes) {s : Store} → IsReached s → IsReached (exists_evict now k s)
  ticked : (clock : Bytes → ℤ) {s : Store} → IsReached s → IsReached (active_expiry clock s)
  swept_shard :
      (n : ℕ) (clock : Bytes → ℤ) {s : Store} → IsReached s → IsReached (sweep_at n clock s)
  flushed_shard : (n : ℕ) {s : Store} → IsReached s → IsReached (flush_at n s)
  flushed : {s : Store} → IsReached s → IsReached (flush_all s)

-- No shard but that of its hash holds anything at a key.
abbrev pub IsRouted : Store → Type 0
IsRouted s = (i : ℕ) (j : Bytes) → (shard_index j == i) ≡ false → slot_of j (s i) ≡ empty_slot

-- A change at `k` alone, in the shard of `k`.
Confined : Bytes → Store → Store → Type 0
Confined k s s' =
    (i : ℕ) (j : Bytes)
    → (shard_index k == i && beq k j) ≡ false
    → slot_of j (s' i) ≡ slot_of j (s i)

elsewhere :
    (k j : Bytes) (i : ℕ) → (shard_index j == i) ≡ false → (shard_index k == i && beq k j) ≡ false
elsewhere k j i d = elim (Bool-cases (beq k j)) [
  | inl same ↦ rw ((beq_iff k j).0 same, d) refl
  | inr other ↦ rw other (ground arith)
]

Confined-IsRouted : (k : Bytes) (s s' : Store) → Confined k s s' → IsRouted s → IsRouted s'
unfolding Confined
Confined-IsRouted k s s' c h i j d = c i j (elsewhere k j i d) ∙ h i j d

sweep_shard-IsRouted :
    (clock : Bytes → ℤ) (s : Store) (i : ℕ) (j : Bytes)
    → slot_of j (s i) ≡ empty_slot
    → slot_of j (sweep_shard clock (s i)) ≡ empty_slot
sweep_shard-IsRouted clock s i j e = sweep_shard-slot clock (s i) j ∙ ap (swept (clock j) true) e

active_expiry-IsRouted :
    (clock : Bytes → ℤ) (s : Store) → IsRouted s → IsRouted (active_expiry clock s)
unfolding active_expiry
active_expiry-IsRouted clock s h i j d =
    ap (slot_of j) (sweep_below-at num_shards clock s i) ∙ (elim (Bool-cases (ltb i num_shards)) [
      | inl e ↦ rw e (sweep_shard-IsRouted clock s i j (h i j d))
      | inr e ↦ rw e (h i j d)
    ])

-- A shard that is replaced by one that holds nothing at the keys of others.
set_shard-IsRouted :
    (n : ℕ) (sh : Shard) (s : Store)
    → ((j : Bytes) → slot_of j (s n) ≡ empty_slot → slot_of j sh ≡ empty_slot)
    → IsRouted s
    → IsRouted (set_shard n sh s)
unfolding set_shard
set_shard-IsRouted n sh s kept h i j d = at (n == i) refl
  where
    at : (b : Bool) → (n == i) ≡ b → slot_of j (if b then sh else s i) ≡ empty_slot
    at true here =
        kept j (h n j (subst (λ m. (shard_index j == m) ≡ false) (sym ((==_iff n i).0 here)) d))
    at false other = h i j d

sweep_at-IsRouted :
    (n : ℕ) (clock : Bytes → ℤ) (s : Store) → IsRouted s → IsRouted (sweep_at n clock s)
unfolding sweep_at
sweep_at-IsRouted n clock s h =
    set_shard-IsRouted n _ s (λ j e. sweep_shard-IsRouted clock s n j e) h

flush_at-IsRouted : (n : ℕ) (s : Store) → IsRouted s → IsRouted (flush_at n s)
unfolding flush_at lookup
flush_at-IsRouted n s h = set_shard-IsRouted n _ s (λ j e. refl) h

flush_all-IsRouted : (s : Store) → IsRouted s → IsRouted (flush_all s)
unfolding flush_all lookup
flush_all-IsRouted s h i j d =
    ap (slot_of j) (flush_below-at num_shards s i)
    ∙ (elim (Bool-cases (ltb i num_shards)) [ inl e ↦ rw e refl | inr e ↦ rw e (h i j d) ])

-- In every store that operations on keys, the second phases of Get and Exists, ticks of
-- activeExpiry and FlushAll, each as a whole or shard by shard with other steps in between, lead to
-- from the new store, no shard but that of its hash holds anything at a key.
pub IsReached-IsRouted : (s : Store) → IsReached s → IsRouted s
unfolding Confined
IsReached-IsRouted s fresh = λ i j d. (unfold new_store lookup in refl)
IsReached-IsRouted s (operated op k {s = s0} r) =
    Confined-IsRouted k s0 _ (run-Implements op k s0).confined (IsReached-IsRouted s0 r)
IsReached-IsRouted s (get_evicted k {s = s0} r) =
    Confined-IsRouted k s0 _ (λ i j. get_evict-confined k i j s0) (IsReached-IsRouted s0 r)
IsReached-IsRouted s (exists_evicted now k {s = s0} r) =
    Confined-IsRouted k s0 _ (λ i j. exists_evict-confined now k i j s0) (IsReached-IsRouted s0 r)
IsReached-IsRouted s (ticked clock {s = s0} r) =
    active_expiry-IsRouted clock s0 (IsReached-IsRouted s0 r)
IsReached-IsRouted s (swept_shard n clock {s = s0} r) =
    sweep_at-IsRouted n clock s0 (IsReached-IsRouted s0 r)
IsReached-IsRouted s (flushed_shard n {s = s0} r) = flush_at-IsRouted n s0 (IsReached-IsRouted s0 r)
IsReached-IsRouted s (flushed {s = s0} r) = flush_all-IsRouted s0 (IsReached-IsRouted s0 r)
