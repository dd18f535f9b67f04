-- ===== src/Store/Slots/Spec/Kept.antt =====
-- Lists, sets and hashes that are not empty, and how they come about.
use warpdb.Base.{Option, none, some, List, [], ◌∷◌, ◌++◌, Bytes, arith}
use warpdb.GoMap.{Map, insert}
use warpdb.Store.{Members}
use warpdb.Store.Slots.Spec.{nonempty, with_added, with_entries}

-- A list that is there has an element.
abbrev pub IsKept : {A : Type 0} → Option (List A) → Type 0
IsKept none = Unit {0}
IsKept (some []) = ⊥
IsKept (some (x ∷ xs)) = Unit {0}

pub nonempty-IsKept : {A : Type 0} (xs : List A) → IsKept (nonempty xs)
nonempty-IsKept [] = tt
nonempty-IsKept (x ∷ xs) = tt

pub insert-IsKept : {V : Type 0} (k : Bytes) (v : V) (m : Map V) → IsKept (some (insert k v m))
unfolding insert
insert-IsKept k v [] = tt
insert-IsKept k v ((j, w) ∷ m) = ground arith

pub append-IsKept : {A : Type 0} (xs ys : List A) (y : A) → IsKept (some (xs ++ y ∷ ys))
append-IsKept [] ys y = tt
append-IsKept (x ∷ xs) ys y = tt

pub with_entries-IsKept : (fs h : Map Bytes) → IsKept (some h) → IsKept (some (with_entries fs h))
with_entries-IsKept [] h k = k
with_entries-IsKept ((f, v) ∷ fs) h k = with_entries-IsKept fs (insert f v h) (insert-IsKept f v h)

pub with_added-IsKept :
    (ms : List Bytes) (set : Members) → IsKept (some set) → IsKept (some (with_added ms set))
with_added-IsKept [] set k = k
with_added-IsKept (m ∷ ms) set k = with_added-IsKept ms (insert m tt set) (insert-IsKept m tt set)
