-- ===== src/Store/Lists/Range.antt =====
-- What LRange and LIndex return: LRange a window of the list, whatever the bounds, and LIndex one
-- element or an error. A negative index counts from the end.
use Prim.Native.Nat.{min}
use warpdb.Base.{
  ℕ, zero, suc, ◌-◌, ◌<◌, ◌≤◌, ◌≡◌, refl, Option, none, some, List, [], ◌∷◌, Bytes, ℤ, pos, negsuc,
  ◌+ℤ◌, ◌-ℤ◌, length, get_elem?, take, drop, arith, if◌then◌else◌, ltb,
}
use warpdb.Store.{Result, ok, fail, empty_list, index_out_of_range}
use warpdb.Store.Lists.{range_of, from_end, index_of}

-- The elements from place `lo` up to, and without, place `hi`.
abbrev pub window : ℕ → ℕ → List Bytes → List Bytes
window lo hi l = take (hi - lo) (drop lo l)

-- The first place of a range of a list of `n`, and the place behind its last.
abbrev pub first_place : ℕ → ℤ → ℕ
first_place n (pos i) = i
first_place n (negsuc i) = n - suc i

abbrev pub end_place : ℕ → ℤ → ℕ
end_place n (pos i) = min (suc i) n
end_place n (negsuc i) = n - i

take-zero_of : (n : ℕ) (l : List Bytes) → n ≡ 0 → take n l ≡ []
take-zero_of zero l h = refl
take-zero_of (suc n) l h = absurd (omega arith)

window-nil : (lo hi : ℕ) → window lo hi [] ≡ []
window-nil lo hi = rw (drop-nil lo) (take-nil (hi - lo))
  where
    drop-nil : (n : ℕ) → drop {A = Bytes} n [] ≡ []
    drop-nil zero = refl
    drop-nil (suc n) = refl

    take-nil : (n : ℕ) → take {A = Bytes} n [] ≡ []
    take-nil zero = refl
    take-nil (suc n) = refl

-- A window that ends before it begins is empty.
empty_window : (lo hi : ℕ) (l : List Bytes) → hi ≤ lo → window lo hi l ≡ []
empty_window lo hi l h = take-zero_of (hi - lo) (drop lo l) (omega arith)

-- For all bounds, LRange slices within the list, and returns the window of the list between the two
-- bounds, where a negative bound counts from the end.
pub range_of-window :
    (l : List Bytes) (start stop : ℤ)
    → range_of l start stop
      ≡ some (window (first_place (length l) start) (end_place (length l) stop) l)
unfolding range_of from_end ◌+ℤ◌ ◌-ℤ◌
range_of-window [] start stop = rw (window-nil (first_place 0 start) (end_place 0 stop))
range_of-window (v ∷ l) (pos a) (pos b) =
    ground (arith, empty_window a (end_place (length (v ∷ l)) (pos b)) (v ∷ l))
range_of-window (v ∷ l) (pos a) (negsuc b) =
    ground (arith, empty_window a (end_place (length (v ∷ l)) (negsuc b)) (v ∷ l))
range_of-window (v ∷ l) (negsuc a) (pos b) = ground (
  arith,
  empty_window (first_place (length (v ∷ l)) (negsuc a)) (end_place (length (v ∷ l)) (pos b))
      (v ∷ l),
)
range_of-window (v ∷ l) (negsuc a) (negsuc b) = ground (
  arith,
  empty_window (first_place (length (v ∷ l)) (negsuc a)) (end_place (length (v ∷ l)) (negsuc b))
      (v ∷ l),
)

-- The place that an index names in a list of `n`, if there is one.
abbrev pub place_of : ℕ → ℤ → Option ℕ
place_of n (pos i) = if ltb i n then some i else none
place_of n (negsuc i) = if ltb i n then some (n - suc i) else none

-- What LIndex should return.
abbrev pub element : List Bytes → ℤ → Result Bytes
element [] index = fail empty_list
element (v ∷ l) index = elim (place_of (length (v ∷ l)) index) [
  | none ↦ fail index_out_of_range
  | some i ↦ elim (get_elem? (v ∷ l) i) [ none ↦ fail index_out_of_range | some w ↦ ok w ]
]

get_elem?-lt : (l : List Bytes) (i : ℕ) → i < length l → (v : Bytes) × (get_elem? l i ≡ some v)
get_elem?-lt [] i h = absurd (omega arith)
get_elem?-lt (x ∷ l) zero h = (x, refl)
get_elem?-lt (x ∷ l) (suc i) h = get_elem?-lt l i (omega arith)

get_elem?-ge : (l : List Bytes) (i : ℕ) → length l ≤ i → get_elem? l i ≡ none
get_elem?-ge [] i h = refl
get_elem?-ge (x ∷ l) zero h = absurd (omega arith)
get_elem?-ge (x ∷ l) (suc i) h = get_elem?-ge l i (omega arith)

-- LIndex returns the element at the place that the index names, from the front or from the end, and
-- an error exactly if there is no such place.
index_of-element : (l : List Bytes) (index : ℤ) → index_of l index ≡ element l index
unfolding index_of from_end ◌+ℤ◌
index_of-element [] index = refl
index_of-element (v ∷ l) (pos i) = ground (arith, get_elem?-lt (v ∷ l) i, get_elem?-ge (v ∷ l) i)
index_of-element (v ∷ l) (negsuc i) = ground (arith, get_elem?-lt (v ∷ l) (length (v ∷ l) - suc i))
