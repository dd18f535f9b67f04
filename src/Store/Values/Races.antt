-- ===== src/Store/Values/Races.antt =====
-- Get and Exists take the read lock, let it go, and take the write lock to delete an expired key.
-- Another goroutine may run between the two phases: `s` is the store of the first, `s'` of the
-- second.
use warpdb.Base.{
  Bool, true, false, ◌≡◌, refl, ap, ◌∙◌, Option, none, some, Bytes, ℤ, beq_refl, beq_iff, arith,
}
use warpdb.Store.{Store, fail, key_not_found, past}
use warpdb.Store.Values.{set, get_read, get_finish, exists_finish}
use warpdb.Store.Slots.{Slot, slot}
use warpdb.Store.Slots.Spec.{run, spec, set_op}
use warpdb.Store.Slots.Spec.Refinement.{run-Implements, exists_evict-slot, get_evict-slot}

-- Whatever ran between the phases of Exists, its second phase leaves every key that has not expired
-- at the second reading of the clock as it finds it.
pub exists_finish-slot :
    (now later : ℤ) (k j : Bytes) (read : Bool × Option ℤ) (s' : Store)
    → past later (slot j s').expiry ≡ false
    → slot j (exists_finish now later k read s').0 ≡ slot j s'
unfolding exists_finish
exists_finish-slot now later k j (any, exp) s' live =
    ground (arith, exists_evict-slot later k j s', beq_iff k j)

-- What Set leaves at its key.
slot-set :
    (k v : Bytes) (s : Store)
    → slot k (set k v s) ≡ record (slot k s) { string = some v; expiry = none }
slot-set k v s = unfold run spec in ((run-Implements (set_op v) k s).slots k ∙ rw beq_refl)

-- If the first phase of Get finds a value whose expiry is past, and Set of the key runs before the
-- second phase, then the second phase deletes the value that was set and reports that the key is
-- not found.
pub get_finish-loses_set :
    (now : ℤ) (k v : Bytes) (s : Store) {old : Bytes} {exp : ℤ}
    → get_read k s ≡ (some old, some exp)
    → past now (some exp) ≡ true
    → ((slot k (set k v s)).string ≡ some v)
      × ((slot k (get_finish now k (get_read k s) (set k v s)).0).string ≡ none)
      × ((get_finish now k (get_read k s) (set k v s)).1 ≡ fail key_not_found)
unfolding get_finish
get_finish-loses_set now k v s r h =
    rw (r, h)
      (
        ap (λ (sl : Slot). sl.string) (slot-set k v s),
        ap (λ (sl : Slot). sl.string) (get_evict-slot k k (set k v s)) ∙ rw beq_refl,
        refl,
      )
