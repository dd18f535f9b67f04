-- ===== src/Commands/Strings/Renaming.antt =====
-- RENAME over the memory engine: it sets the new key to the value of the old one, and then deletes
-- the old one.
use warpdb.Base.{
  ◌≡◌, refl, ap, ◌∙◌, false, none, some, [], ◌∷◌, Bytes, beq, ℤ, if◌then◌else◌, Bool-cases, inl,
  inr,
}
use warpdb.Store.{Store, ok, past}
use warpdb.Store.Values.{set, get, get_read, get_finish, del}
use warpdb.Store.Slots.{Slot, slot}
use warpdb.Store.Slots.Spec.{run, spec, set_op, del_op, empty_slot}
use warpdb.Store.Slots.Spec.Refinement.{run-Implements}
use warpdb.Engine.Memory.{memory_engine}
use warpdb.Commands.{Handler, Env, ok_reply}
use warpdb.Commands.Strings.{rename_command}

-- Get of a value that has not expired.
get-live :
    (now : ℤ) (key val : Bytes) (s : Store)
    → (slot key s).string ≡ some val
    → past now (slot key s).expiry ≡ false
    → get now key s ≡ (s, ok val)
unfolding get get_read get_finish slot
get-live now key val s e live = rw e (rw live refl)

-- What Del leaves at a key that holds a string, and elsewhere.
del-slot :
    (key j val : Bytes) (s : Store)
    → (slot key s).string ≡ some val
    → slot j (del key s).0 ≡ (if beq key j then empty_slot else slot j s)
unfolding run spec
del-slot key j val s e = (run-Implements del_op key s).slots j ∙ rw e refl

set-slot :
    (key j val : Bytes) (s : Store)
    → slot j (set key val s)
      ≡ (if beq key j then record (slot key s) { string = some val; expiry = none } else slot j s)
unfolding run spec
set-slot key j val s = (run-Implements (set_op val) key s).slots j

-- A key holds a string after Set of any key, if it held one before.
string-set :
    (key new_key val : Bytes) (s : Store)
    → (slot key s).string ≡ some val
    → (slot key (set new_key val s)).string ≡ some val
string-set key new_key val s e =
    ap (λ (sl : Slot). sl.string) (set-slot new_key key val s)
    ∙ (elim (Bool-cases (beq new_key key)) [ inl same ↦ rw same refl | inr other ↦ rw other e ])

-- Over the memory engine, RENAME of a key whose string has not expired leaves nothing at the old
-- key, also where the new key is the same, the string without an expiry at the new key beside what
-- else that held, and every other key as it was.
pub rename_command-slot :
    (env : Env) (key new_key val : Bytes) (h : Handler Store) (j : Bytes)
    → (slot key h.store).string ≡ some val
    → past env.now (slot key h.store).expiry ≡ false
    → let (h', reply) = rename_command memory_engine env (key ∷ new_key ∷ []) h in
      (slot j h'.store ≡ (
        if beq key j
        then empty_slot
        else if beq new_key j
        then record (slot new_key h.store) { string = some val; expiry = none }
        else slot j h.store))
      × (reply ≡ ok_reply)
unfolding rename_command
rename_command-slot env key new_key val h j e live = rw (get-live env.now key val h.store e live) (
  del-slot key j val (set new_key val h.store) (string-set key new_key val h.store e)
      ∙ ap (λ sl. if beq key j then empty_slot else sl) (set-slot new_key j val h.store),
  refl,
)
