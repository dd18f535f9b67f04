-- ===== src/Store/Sets.antt =====
-- The set operations of core/store/store.go. Where Go takes some member of a map, in an order that
-- it leaves open, `pick` says which one, by its place in that order.
pub mod Counting
use warpdb.Base.{
  ℕ, zero, suc, ◌+◌, ◌%◌, Bool, Option, none, some, List, [], ◌∷◌, Bytes, length, get_elem?,
  if◌then◌else◌,
}
use warpdb.GoMap.{Map, lookup, insert, delete, keys, has}
use warpdb.Store.{Shard, Store, Members, Result, ok, fail, empty_set, get_shard, locked}

-- sh.sets[key]; an absent set is Go's nil map, which is empty.
abbrev pub members_at : Bytes → Shard → Members
members_at key sh = elim (lookup key sh.sets) [ none ↦ [] | some set ↦ set ]

-- The loop of SAdd: the set, and `added`.
unfoldable pub add_members : List Bytes → Members → ℕ → Members × ℕ
add_members [] set added = (set, added)
add_members (m ∷ ms) set added =
    add_members ms (if has m set then set else insert m tt set)
      (if has m set then added else added + 1)

-- SAdd
unfoldable pub sadd_shard : Bytes → List Bytes → Shard → Shard × ℕ
sadd_shard key members sh =
    let (set, added) = add_members members (members_at key sh) 0 in
    (record sh { sets = insert key set sh.sets }, added)

unfoldable pub sadd : Bytes → List Bytes → Store → Store × ℕ
sadd key members = locked key (sadd_shard key members)

-- The loop of SRem and HDel: the map, and `removed`.
unfoldable pub remove_all {ℓ} : {V : Type ℓ} → List Bytes → Map V → ℕ → Map V × ℕ
remove_all [] m removed = (m, removed)
remove_all (k ∷ ks) m removed =
    remove_all ks (if has k m then delete k m else m) (if has k m then removed + 1 else removed)

-- The set, changed in place, is deleted if it is empty.
unfoldable pub put_members : Bytes → Members → Shard → Shard
put_members key [] sh = record sh { sets = delete key (insert key [] sh.sets) }
put_members key (m ∷ set) sh = record sh { sets = insert key (m ∷ set) sh.sets }

-- SRem
unfoldable pub srem_set : Bytes → List Bytes → Shard → Option Members → Shard × ℕ
srem_set key members sh none = (sh, 0)
srem_set key members sh (some set) =
    let (set', removed) = remove_all members set 0 in (put_members key set' sh, removed)

unfoldable pub srem_shard : Bytes → List Bytes → Shard → Shard × ℕ
unfolding srem_set put_members
srem_shard key members sh = srem_set key members sh (lookup key sh.sets)

unfoldable pub srem : Bytes → List Bytes → Store → Store × ℕ
srem key members = locked key (srem_shard key members)

-- SMembers
unfoldable pub smembers : Bytes → Store → List Bytes
smembers key s = keys (members_at key (get_shard key s))

-- SIsMember
unfoldable pub sis_member : Bytes → Bytes → Store → Bool
sis_member key member s = has member (members_at key (get_shard key s))

-- SCard
unfoldable pub scard : Bytes → Store → ℕ
scard key s = length (members_at key (get_shard key s))

-- The member that the iteration comes to.
unfoldable pub nth_key : ℕ → List Bytes → Option Bytes
nth_key pick [] = none
nth_key pick (k ∷ ks) = get_elem? (k ∷ ks) (pick % length (k ∷ ks))

-- SPop
unfoldable pub spop_member : Bytes → Shard → Option Bytes → Shard × Result Bytes
spop_member key sh none = (sh, fail empty_set)
spop_member key sh (some m) = (put_members key (delete m (members_at key sh)) sh, ok m)

unfoldable pub spop_shard : ℕ → Bytes → Shard → Shard × Result Bytes
unfolding spop_member put_members
spop_shard pick key sh = spop_member key sh (nth_key pick (keys (members_at key sh)))

unfoldable pub spop : ℕ → Bytes → Store → Store × Result Bytes
spop pick key = locked key (spop_shard pick key)

-- SRandMember
unfoldable pub srand_member : ℕ → Bytes → Store → Result Bytes
srand_member pick key s = elim (nth_key pick (keys (members_at key (get_shard key s)))) [
  | none ↦ fail empty_set
  | some m ↦ ok m
]
