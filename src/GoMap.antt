-- ===== src/GoMap.antt =====
-- Go's maps with string keys. The representation is an association list with one entry for a key;
-- its order stands for an iteration order, which Go leaves open. `Map` gives the laws of `lookup`,
-- `GoMap.Size` those of `len`.
pub mod Size
use warpdb.Base.{
  false, ◌||◌, ◌++◌, ℕ, ◌≡◌, refl, Bool, Option, none, some, List, [], ◌∷◌, arith, is_some,
  if◌then◌else◌, Bytes, beq, beq_iff, beq_refl,
}

abbrev pub Map {ℓ} : Type ℓ → Type ℓ
Map V = List (Bytes × V)

module _ {ℓ} {V : Type ℓ} where
  -- v, ok := m[k]
  unfoldable pub lookup : Bytes → Map V → Option V
  lookup k [] = none
  lookup k ((j, v) ∷ m) = if beq j k then some v else lookup k m

  -- m[k] = v
  unfoldable pub insert : Bytes → V → Map V → Map V
  insert k v [] = (k, v) ∷ []
  insert k v ((j, w) ∷ m) = if beq j k then (j, v) ∷ m else (j, w) ∷ insert k v m

  -- delete(m, k)
  unfoldable pub delete : Bytes → Map V → Map V
  delete k [] = []
  delete k ((j, v) ∷ m) = let rest = delete k m in if beq j k then rest else (j, v) ∷ rest

  -- for k := range m
  unfoldable pub keys : Map V → List Bytes
  keys [] = []
  keys ((j, v) ∷ m) = j ∷ keys m

  abbrev pub has : Bytes → Map V → Bool
  has k m = is_some (lookup k m)

  pub lookup-insert :
      (k j : Bytes) (v : V) (m : Map V)
      → lookup j (insert k v m) ≡ (if beq k j then some v else lookup j m)
  unfolding lookup insert
  lookup-insert k j v [] = refl
  lookup-insert k j v ((i, w) ∷ m) =
      ground (arith, beq_iff k j, beq_iff i k, beq_iff i j, lookup-insert k j v m)

  pub lookup-delete :
      (k j : Bytes) (m : Map V) → lookup j (delete k m) ≡ (if beq k j then none else lookup j m)
  unfolding lookup delete
  lookup-delete k j [] = ground arith
  lookup-delete k j ((i, v) ∷ m) =
      ground (arith, lookup-delete k j m, beq_iff i k, beq_iff i j, beq_iff k j)

-- A key is in a list.
abbrev pub contains : Bytes → List Bytes → Bool
contains j [] = false
contains j (k ∷ ks) = beq k j || contains j ks

pub contains-keys {ℓ} : {V : Type ℓ} (j : Bytes) (m : Map V) → contains j (keys m) ≡ has j m
unfolding keys lookup
contains-keys j [] = refl
contains-keys j ((k, v) ∷ m) = ground (arith, contains-keys j m)

pub contains-append :
    (j : Bytes) (ks ls : List Bytes) → contains j (ks ++ ls) ≡ (contains j ks || contains j ls)
contains-append j [] ls = refl
contains-append j (k ∷ ks) ls = ground (arith, contains-append j ks ls)

pub ruleset map_laws = (lookup-insert, lookup-delete, beq_refl)
