-- ===== src/Store.antt =====
-- core/store/store.go: the shards, the choice of a shard by the FNV-1a hash of the key, and the way
-- an operation on one key works: it takes the key's shard, locks it, and reads or changes its maps.
-- The children hold the operations by kind of value, and the proofs.
pub mod Values
pub mod Expiry
pub mod Lists
pub mod Sets
pub mod Hashes
pub mod Glob
pub mod Scan
pub mod Slots
use Prim.Native.Nat.{bit_xor}
use warpdb.Base.{
  ℕ, ◌*◌, ◌%◌, ◌^◌, Bool, Option, none, some, [], ◌∷◌, List, foldl, Bytes, ℤ, ltb_ℤ, ◌==◌,
  if◌then◌else◌, ◌||◌, false,
}
use warpdb.GoMap.{Map, lookup, delete, has}

-- The errors of the store; Go keeps their texts.
pub data Error : Type 0 where
  key_not_found : Error
  not_an_integer : Error
  empty_list : Error
  index_out_of_range : Error
  empty_set : Error
  field_not_found : Error

-- Go's (value, error) pair.
pub data Result {ℓ} (A : Type ℓ) : Type ℓ where
  ok : A → Result A
  fail : Error → Result A

-- map[string]struct{}
abbrev pub Members : Type 0
Members = Map (Unit {0})

-- An instant is a number of nanoseconds. The field `strings` is `data` in Go.
pub record Shard : Type 0 where
  pub strings : Map Bytes
  pub expires : Map ℤ
  pub lists : Map (List Bytes)
  pub sets : Map Members
  pub hashes : Map (Map Bytes)

abbrev pub num_shards : ℕ
num_shards = 256

-- The array of shards, as a function of the index.
abbrev pub Store : Type 0
Store = ℕ → Shard

abbrev pub empty_shard : Shard
empty_shard = record { strings = []; expires = []; lists = []; sets = []; hashes = [] }

-- NewStore, less the goroutine that it starts.
unfoldable pub new_store : Store
new_store i = empty_shard

-- fnv.New32a: the hash is xored with a byte, then multiplied by the prime, on 32 bits.
unfoldable pub fnv32a : Bytes → ℕ
fnv32a = foldl (λ h c. bit_xor h c * 16777619 % 2 ^ 32) 2166136261

-- h.Sum32() & (numShards-1)
unfoldable pub shard_index : Bytes → ℕ
unfolding fnv32a
shard_index key = fnv32a key % num_shards

-- getShard
unfoldable pub get_shard : Bytes → Store → Shard
get_shard key s = s (shard_index key)

unfoldable pub set_shard : ℕ → Shard → Store → Store
set_shard i sh s = λ j. if i == j then sh else s j

-- An operation under the lock of the key's shard.
unfoldable pub locked {ℓ} : {A : Type ℓ} → Bytes → (Shard → Shard × A) → Store → Store × A
locked key f s = let (sh, a) = f (get_shard key s) in (set_shard (shard_index key) sh s, a)

-- sh.mu.Lock(), a change with no result, sh.mu.Unlock().
unfoldable pub update : Bytes → (Shard → Shard) → Store → Store
update key f s = set_shard (shard_index key) (f (get_shard key s)) s

-- The test `hasStr || hasList || hasSet || hasHash` of several operations.
unfoldable pub holds : Bytes → Shard → Bool
holds key sh = has key sh.strings || has key sh.lists || has key sh.sets || has key sh.hashes

-- Deletes the key from all five maps.
unfoldable pub drop_key : Bytes → Shard → Shard
drop_key key sh = record {
  strings = delete key sh.strings;
  expires = delete key sh.expires;
  lists = delete key sh.lists;
  sets = delete key sh.sets;
  hashes = delete key sh.hashes;
}

-- `exp, ok := ...; ok && now.After(exp)`
abbrev pub past : ℤ → Option ℤ → Bool
past now none = false
past now (some exp) = ltb_ℤ exp now

-- isExpired, where `now` is what time.Now() returns.
unfoldable pub is_expired : ℤ → Bytes → Shard → Bool
is_expired now key sh = past now (lookup key sh.expires)
