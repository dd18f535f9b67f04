-- ===== src/Store/Scan/Listing.antt =====
-- Which keys Keys lists.
use warpdb.Base.{
  ℕ, zero, suc, ◌≡◌, refl, sym, ap, ◌∙◌, Bool, false, not, ◌&&◌, ◌||◌, List, [], ◌∷◌, ◌++◌, Bytes,
  ℤ, beq, beq_iff, ◌==◌, ==_iff, ltb, Bool-cases, inl, inr, arith,
}
use mathlib.Core.Path.{ap₂}
use warpdb.GoMap.{keys, has, contains, contains-keys, contains-append}
use warpdb.Store.{Shard, Store, get_shard, shard_index, num_shards, past, holds, is_expired}
use warpdb.Store.Expiry.Sweep.{in_range}
use warpdb.Store.Scan.{matches, select, shard_keys, keys_below, store_keys}
use warpdb.Store.Scan.Routing.{IsReached, IsRouted, IsReached-IsRouted}
use warpdb.Store.Slots.{Slot, slot, slot_of}
use warpdb.Store.Slots.Spec.{is_present}

-- What Keys asks of a key with the slot `sl`.
abbrev pub is_listed : ℤ → Bytes → Bytes → Slot → Bool
is_listed now pattern j sl = is_present sl && (not (past now sl.expiry) && matches pattern j)

abbrev keeps : ℤ → Bytes → Shard → (Bytes → Bool) → Bytes → Bool
keeps now pattern sh skip key = not (skip key) && not (is_expired now key sh) && matches pattern key

contains-select :
    (now : ℤ) (pattern : Bytes) (sh : Shard) (skip : Bytes → Bool) (j : Bytes) (ks : List Bytes)
    → contains j (select now pattern sh skip ks) ≡ (contains j ks && keeps now pattern sh skip j)
unfolding select
contains-select now pattern sh skip j [] = refl
contains-select now pattern sh skip j (k ∷ ks) = elim (Bool-cases (beq k j)) [
  | inl same ↦
      rw ((beq_iff k j).0 same)
        (ground (arith, contains-select now pattern sh skip j ks, (beq_iff j j)))
  | inr other ↦ rw other (ground (arith, contains-select now pattern sh skip j ks))
]

contains-shard_keys :
    (now : ℤ) (pattern : Bytes) (sh : Shard) (j : Bytes)
    → contains j (shard_keys now pattern sh) ≡ is_listed now pattern j (slot_of j sh)
unfolding shard_keys is_expired
contains-shard_keys now pattern sh j =
    let skip = λ (key : Bytes). has key sh.strings in
    let strings = select now pattern sh (λ key. false) (keys sh.strings) in
    let lists = select now pattern sh skip (keys sh.lists) in
    let sets = select now pattern sh skip (keys sh.sets) in
    let hashes = select now pattern sh skip (keys sh.hashes) in
    ground (
      arith,
      contains-append j strings (lists ++ (sets ++ hashes)),
      contains-append j lists (sets ++ hashes),
      contains-append j sets hashes,
      contains-select now pattern sh (λ key. false) j (keys sh.strings),
      contains-select now pattern sh skip j (keys sh.lists),
      contains-select now pattern sh skip j (keys sh.sets),
      contains-select now pattern sh skip j (keys sh.hashes),
      contains-keys j sh.strings,
      contains-keys j sh.lists,
      contains-keys j sh.sets,
      contains-keys j sh.hashes,
    )

-- A shard lists a key if it is the key's shard.
listed_here :
    (now : ℤ) (pattern : Bytes) (s : Store) (j : Bytes) (i : ℕ)
    → IsRouted s
    → is_listed now pattern j (slot_of j (s i))
      ≡ (shard_index j == i && is_listed now pattern j (slot j s))
unfolding slot warpdb.Store.get_shard
listed_here now pattern s j i h = elim (Bool-cases (shard_index j == i)) [
  | inl here ↦ rw here (
      ap (λ n. is_listed now pattern j (slot_of j (s n))) (sym ((==_iff (shard_index j) i).0 here)))
  | inr other ↦ rw other (ap (is_listed now pattern j) (h i j other))
]

contains-keys_below :
    (n : ℕ) (now : ℤ) (pattern : Bytes) (s : Store) (j : Bytes)
    → IsRouted s
    → contains j (keys_below n now pattern s)
      ≡ (ltb (shard_index j) n && is_listed now pattern j (slot j s))
unfolding keys_below
contains-keys_below zero now pattern s j h = ground arith
contains-keys_below (suc n) now pattern s j h =
    contains-append j (keys_below n now pattern s) (shard_keys now pattern (s n))
    ∙ ap₂ ◌||◌ (contains-keys_below n now pattern s j h)
        (contains-shard_keys now pattern (s n) j ∙ listed_here now pattern s j n h)
    ∙ split (is_listed now pattern j (slot j s))
  where
    split :
        (b : Bool)
        → ((ltb (shard_index j) n && b) || (shard_index j == n && b))
          ≡ (ltb (shard_index j) (suc n) && b)
    split b = ground arith

-- If, whenever Keys comes to a shard, the store is one that is reached, then Keys lists a key
-- exactly if, when it comes to the shard of the key, the key is present and its expiry is not
-- before the start of Keys, and the key matches the pattern.
pub contains-store_keys :
    (now : ℤ) (pattern : Bytes) (stores : ℕ → Store) (j : Bytes)
    → ((n : ℕ) → IsReached (stores n))
    → contains j (store_keys now pattern (λ n. stores n n))
      ≡ is_listed now pattern j (slot j (stores (shard_index j)))
unfolding store_keys slot get_shard
contains-store_keys now pattern stores j r =
    contains-keys_below num_shards now pattern (λ n. stores n n) j
      (λ i. IsReached-IsRouted (stores i) (r i) i)
    ∙ rw (in_range j) refl
