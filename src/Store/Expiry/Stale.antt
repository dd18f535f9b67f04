-- ===== src/Store/Expiry/Stale.antt =====
-- An expiry that outlives its list.
use warpdb.Base.{◌≡◌, refl, ap, ◌∙◌, true, some, List, [], ◌∷◌, Bytes, ℤ, beq_refl, if◌then◌else◌}
use warpdb.Store.{Store, past}
use warpdb.Store.Expiry.{active_expiry}
use warpdb.Store.Expiry.Sweep.{active_expiry-slot}
use warpdb.Store.Slots.{Slot, slot}
use warpdb.Store.Slots.Spec.{Op, run, spec, lpop_op, rpush_op, empty_slot}
use warpdb.Store.Slots.Spec.Refinement.{run-Implements}

-- A key that holds a list alone, with an expiry.
abbrev pub listed : List Bytes → ℤ → Slot
listed vs t = record empty_slot { list = some vs; expiry = some t }

here : (op : Op) (k : Bytes) (s : Store) → slot k (run op k s).0 ≡ (spec op (slot k s)).0
here op k s = (run-Implements op k s).slots k ∙ rw beq_refl

-- A pop of the last element, and a push of another.
abbrev pub refilled : Bytes → Bytes → Store → Store
refilled k w s = (run (rpush_op (w ∷ [])) k (run lpop_op k s).0).0

refilled-slot :
    (k v w : Bytes) (t : ℤ) (s : Store)
    → slot k s ≡ listed (v ∷ []) t
    → slot k (refilled k w s) ≡ listed (w ∷ []) t
refilled-slot k v w t s h =
    here (rpush_op (w ∷ [])) k _
    ∙ ap (λ sl. (spec (rpush_op (w ∷ [])) sl).0)
        (here lpop_op k s ∙ ap (λ sl. (spec lpop_op sl).0) h)
    ∙ unfold spec in refl

-- If a key holds a list of one element alone, with an expiry, then after an LPop and an RPush of
-- another element it holds that element with the old expiry, and a tick of activeExpiry that comes
-- to the key after that expiry leaves nothing there.
pub refilled_expires :
    (k v w : Bytes) (t : ℤ) (clock : Bytes → ℤ) (s : Store)
    → slot k s ≡ listed (v ∷ []) t
    → past (clock k) (some t) ≡ true
    → (slot k (refilled k w s) ≡ listed (w ∷ []) t)
      × (slot k (active_expiry clock (refilled k w s)) ≡ empty_slot)
refilled_expires k v w t clock s h late =
    let e = refilled-slot k v w t s h in
    (
      e,
      active_expiry-slot clock (refilled k w s) k
          ∙ ap (λ (sl : Slot). if past (clock k) sl.expiry then empty_slot else sl) e
          ∙ rw late refl,
    )
