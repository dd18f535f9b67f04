-- ===== src/Store/Sets/Counting.antt =====
-- The counts that SADD, SREM and HDEL return, against the sizes of the sets and hashes.
use warpdb.Base.{
  ℕ, ◌+◌, ◌≡◌, refl, Bool, true, false, List, [], ◌∷◌, Bytes, length, arith, if◌then◌else◌,
}
use warpdb.GoMap.{Map, insert, delete, has}
use warpdb.GoMap.Size.{
  IsDistinct, insert-IsDistinct, delete-IsDistinct, length-insert, length-delete,
}
use warpdb.Store.{Members}
use warpdb.Store.Sets.{add_members, remove_all}

-- The loop of SAdd counts the members by which the set grows.
pub length-add_members :
    (ms : List Bytes) (set : Members) (n : ℕ)
    → length (add_members ms set n).0 + n ≡ length set + (add_members ms set n).1
unfolding add_members
length-add_members [] set n = refl
length-add_members (m ∷ ms) set n = ground (
  arith,
  length-add_members ms set n,
  length-add_members ms (insert m tt set) (n + 1),
  length-insert m tt set,
)

pub add_members-IsDistinct :
    (ms : List Bytes) (set : Members) (n : ℕ) → IsDistinct set → IsDistinct (add_members ms set n).0
unfolding add_members
add_members-IsDistinct [] set n h = h
add_members-IsDistinct (m ∷ ms) set n h =
    by_test (has m set) (add_members-IsDistinct ms set n h)
      (add_members-IsDistinct ms (insert m tt set) (n + 1) (insert-IsDistinct m tt set h))
  where
    by_test :
        (b : Bool)
        → IsDistinct (add_members ms set n).0
        → IsDistinct (add_members ms (insert m tt set) (n + 1)).0
        → IsDistinct
            (add_members ms (if b then set else insert m tt set) (if b then n else n + 1)).0
    by_test true old new = old
    by_test false old new = new

-- The loop of SRem and HDel counts the keys by which the map shrinks.
module _ {ℓ} {V : Type ℓ} where
  -- The loop of SRem and HDel counts the keys by which a map without repetitions shrinks.
  pub length-remove_all :
      (ks : List Bytes) (m : Map V) (n : ℕ)
      → IsDistinct m
      → length (remove_all ks m n).0 + (remove_all ks m n).1 ≡ length m + n
  unfolding remove_all
  length-remove_all [] m n h = refl
  length-remove_all (k ∷ ks) m n h = ground (
    arith,
    length-remove_all ks m n h,
    length-remove_all ks (delete k m) (n + 1) (delete-IsDistinct k m h),
    length-delete k m h,
  )

  pub remove_all-IsDistinct :
      (ks : List Bytes) (m : Map V) (n : ℕ) → IsDistinct m → IsDistinct (remove_all ks m n).0
  unfolding remove_all
  remove_all-IsDistinct [] m n h = h
  remove_all-IsDistinct (k ∷ ks) m n h =
      by_test (has k m) (remove_all-IsDistinct ks (delete k m) (n + 1) (delete-IsDistinct k m h))
        (remove_all-IsDistinct ks m n h)
    where
      by_test :
          (b : Bool)
          → IsDistinct (remove_all ks (delete k m) (n + 1)).0
          → IsDistinct (remove_all ks m n).0
          → IsDistinct (remove_all ks (if b then delete k m else m) (if b then n + 1 else n)).0
      by_test true old new = old
      by_test false old new = new
