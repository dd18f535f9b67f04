-- ===== src/GoMap/Size.antt =====
-- `len` of a map, and the invariant that a map holds each key once.
use warpdb.Base.{◌+◌, ◌≡◌, refl, none, [], ◌∷◌, arith, if◌then◌else◌, Bytes, beq_iff, length}
use warpdb.GoMap.{Map, lookup, insert, delete, has, lookup-insert, lookup-delete}

module _ {ℓ} {V : Type ℓ} where
  -- No key stands twice.
  abbrev pub IsDistinct : Map V → Type ℓ
  IsDistinct [] = Unit {ℓ}
  IsDistinct ((k, v) ∷ m) = (lookup k m ≡ none) × IsDistinct m

  pub insert-IsDistinct : (k : Bytes) (v : V) (m : Map V) → IsDistinct m → IsDistinct (insert k v m)
  unfolding insert lookup
  insert-IsDistinct k v [] h = (refl, tt)
  insert-IsDistinct k v ((j, w) ∷ m) h =
      ground (arith, insert-IsDistinct k v m h.1, lookup-insert k j v m, beq_iff k j, beq_iff j k)

  pub delete-IsDistinct : (k : Bytes) (m : Map V) → IsDistinct m → IsDistinct (delete k m)
  unfolding delete
  delete-IsDistinct k [] h = tt
  delete-IsDistinct k ((j, w) ∷ m) h =
      ground (arith, delete-IsDistinct k m h.1, lookup-delete k j m, beq_iff k j, beq_iff j k)

  pub length-insert :
      (k : Bytes) (v : V) (m : Map V)
      → length (insert k v m) ≡ length m + (if has k m then 0 else 1)
  unfolding insert lookup
  length-insert k v [] = omega arith
  length-insert k v ((j, w) ∷ m) = ground (arith, length-insert k v m)

  delete_missing : (k : Bytes) (m : Map V) → lookup k m ≡ none → length (delete k m) ≡ length m
  unfolding delete lookup
  delete_missing k [] h = refl
  delete_missing k ((j, w) ∷ m) h = ground (arith, delete_missing k m)

  pub length-delete :
      (k : Bytes) (m : Map V)
      → IsDistinct m
      → length (delete k m) + (if has k m then 1 else 0) ≡ length m
  unfolding delete lookup
  length-delete k [] h = omega arith
  length-delete k ((j, w) ∷ m) h =
      ground (arith, length-delete k m h.1, delete_missing k m, beq_iff j k)
