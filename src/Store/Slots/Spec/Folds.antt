-- ===== src/Store/Slots/Spec/Folds.antt =====
-- The loops and helpers of core/store/store.go in the terms of the specification.
use warpdb.Base.{
  ℕ, ◌+◌, ◌-◌, ◌%◌, ◌≡◌, refl, sym, ap, ◌∙◌, true, false, Option, none, some, List, [], ◌∷◌, Bytes,
  beq, length, take, get_elem?, foldl, arith, Bool-cases, inl, inr, if◌then◌else◌,
}
use warpdb.GoMap.{Map, lookup, insert, delete, has}
use warpdb.Store.{Members}
use warpdb.Store.Values.{counter_text}
use warpdb.Store.Lists.{last_of, front_of}
use warpdb.Store.Sets.{add_members, remove_all, nth_key}
use warpdb.Store.Sets.Counting.{length-add_members}
use warpdb.Store.Hashes.{insert_all}
use warpdb.Store.Slots.Spec.{number_text, with_added, with_removed, with_entries, count_in}

pub counter_text-number_text : (o : Option Bytes) → counter_text o ≡ number_text o
unfolding counter_text
counter_text-number_text none = refl
counter_text-number_text (some v) = refl

pub front_of-take : (v : Bytes) (vs : List Bytes) → front_of v vs ≡ take (length vs) (v ∷ vs)
unfolding front_of
front_of-take v [] = refl
front_of-take v (w ∷ vs) = ap (λ l. v ∷ l) (front_of-take w vs)

pub last_of-foldl : (v : Bytes) (vs : List Bytes) → last_of v vs ≡ foldl (λ u w. w) v vs
unfolding last_of
last_of-foldl v [] = refl
last_of-foldl v (w ∷ vs) = last_of-foldl w vs

pub nth_key-get_elem? :
    (pick : ℕ) (ks : List Bytes) → nth_key pick ks ≡ get_elem? ks (pick % length ks)
unfolding nth_key
nth_key-get_elem? pick [] = refl
nth_key-get_elem? pick (k ∷ ks) = refl

pub insert_all-with_entries : (fs m : Map Bytes) → insert_all fs m ≡ with_entries fs m
unfolding insert_all
insert_all-with_entries [] m = refl
insert_all-with_entries ((f, v) ∷ fs) m = insert_all-with_entries fs (insert f v m)

-- A member that is there already stays where it is.
insert_again : (m : Bytes) (set : Members) → has m set ≡ true → insert m tt set ≡ set
unfolding insert lookup
insert_again m [] h = cc
insert_again m ((j, u) ∷ set) h = elim (Bool-cases (beq j m)) [
  | inl e ↦ rw e refl
  | inr e ↦ rw e (ap (λ s. (j, u) ∷ s) (insert_again m set (ground (arith, h, e))))
]

-- A key that is not there leaves nothing to delete.
delete_absent : {V : Type 0} (k : Bytes) (m : Map V) → has k m ≡ false → delete k m ≡ m
unfolding delete lookup
delete_absent k [] h = refl
delete_absent k ((j, v) ∷ m) h = elim (Bool-cases (beq j k)) [
  | inl e ↦ ground (arith, h, e)
  | inr e ↦ rw e (ap (λ s. (j, v) ∷ s) (delete_absent k m (ground (arith, h, e))))
]

pub add_members-with_added :
    (ms : List Bytes) (set : Members) (n : ℕ) → (add_members ms set n).0 ≡ with_added ms set
unfolding add_members
add_members-with_added [] set n = refl
add_members-with_added (m ∷ ms) set n =
    add_members-with_added ms _ _
    ∙ ap (λ s. with_added ms s)
        (elim (Bool-cases (has m set)) [
          | inl e ↦ rw e (sym (insert_again m set e))
          | inr e ↦ rw e refl
        ])

pub add_members-count :
    (ms : List Bytes) (set : Members)
    → (add_members ms set 0).1 ≡ length (with_added ms set) - length set
add_members-count ms set =
    omega (arith, length-add_members ms set 0, ap length (add_members-with_added ms set 0))

module _ {V : Type 0} where
  removed_once : (k : Bytes) (m : Map V) → (if has k m then delete k m else m) ≡ delete k m
  removed_once k m = elim (Bool-cases (has k m)) [
    | inl e ↦ rw e refl
    | inr e ↦ rw e (sym (delete_absent k m e))
  ]

  pub remove_all-with_removed :
      (ks : List Bytes) (m : Map V) (n : ℕ) → (remove_all ks m n).0 ≡ with_removed ks m
  unfolding remove_all
  remove_all-with_removed [] m n = refl
  remove_all-with_removed (k ∷ ks) m n =
      remove_all-with_removed ks _ _ ∙ ap (λ h. with_removed ks h) (removed_once k m)

  remove_all-count_in :
      (ks : List Bytes) (m : Map V) (n : ℕ) → (remove_all ks m n).1 ≡ n + count_in ks m
  unfolding remove_all count_in
  remove_all-count_in [] m n = omega arith
  remove_all-count_in (k ∷ ks) m n =
      remove_all-count_in ks _ _
      ∙ ap (λ h. (if has k m then n + 1 else n) + count_in ks h) (removed_once k m)
      ∙ ground arith

  pub remove_all-count : (ks : List Bytes) (m : Map V) → (remove_all ks m 0).1 ≡ count_in ks m
  remove_all-count ks m = remove_all-count_in ks m 0 ∙ omega arith
