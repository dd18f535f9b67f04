-- ===== src/Engine/Logged/Splitting.antt =====
-- RPush, SAdd, SRem, HDel and HMSet on several values, at one key, as the operation on the first value
-- and then on the others.
use warpdb.Base.{Option, ◌≡◌, refl, sym, ap, none, some, List, [], ◌∷◌, Bytes}
use mathlib.Core.List.{append_assoc}
use warpdb.GoMap.{Map, delete}
use warpdb.Store.{Members}
use warpdb.Store.Slots.{Slot}
use warpdb.Store.Slots.Spec.{
  spec, spec_srem, spec_hdel, contents, nonempty, rpush_op, sadd_op, srem_op, hdel_op, hmset_op,
  with_removed,
}

with_removed-none : {V : Type 0} (ks : List Bytes) → with_removed {V = V} ks [] ≡ []
unfolding delete
with_removed-none [] = refl
with_removed-none {V} (k ∷ ks) = with_removed-none {V = V} ks

pub spec-rpush :
    (x y : Bytes) (ys : List Bytes) (sl : Slot)
    → (spec (rpush_op (y ∷ ys)) (spec (rpush_op (x ∷ [])) sl).0).0
      ≡ (spec (rpush_op (x ∷ y ∷ ys)) sl).0
unfolding spec
spec-rpush x y ys sl =
    ap (λ l. record sl { list = some l }) (append_assoc (contents sl.list) (x ∷ []) (y ∷ ys))

pub spec-sadd :
    (x y : Bytes) (ys : List Bytes) (sl : Slot)
    → (spec (sadd_op (y ∷ ys)) (spec (sadd_op (x ∷ [])) sl).0).0
      ≡ (spec (sadd_op (x ∷ y ∷ ys)) sl).0
unfolding spec
spec-sadd x y ys sl = refl

srem-rest :
    (ks : List Bytes) (sl : Slot) (m : Members)
    → (spec_srem ks (record sl { members = nonempty m }) (nonempty m)).0
      ≡ record sl { members = nonempty (with_removed ks m) }
srem-rest ks sl [] = ap (λ m. record sl { members = nonempty m }) (sym (with_removed-none ks))
srem-rest ks sl (e ∷ m) = refl

pub spec-srem :
    (x y : Bytes) (ys : List Bytes) (sl : Slot)
    → (spec (srem_op (y ∷ ys)) (spec (srem_op (x ∷ [])) sl).0).0
      ≡ (spec (srem_op (x ∷ y ∷ ys)) sl).0
unfolding spec
spec-srem x y ys sl = at sl.members refl
  where
    at :
        (o : Option (Members))
        → sl.members ≡ o
        → (spec_srem (y ∷ ys) (spec_srem (x ∷ []) sl o).0 (spec_srem (x ∷ []) sl o).0.members).0
          ≡ (spec_srem (x ∷ y ∷ ys) sl o).0
    at none e = rw e refl
    at (some m) e = srem-rest (y ∷ ys) sl _

hdel-rest :
    (ks : List Bytes) (sl : Slot) (m : Map Bytes)
    → (spec_hdel ks (record sl { hash = nonempty m }) (nonempty m)).0
      ≡ record sl { hash = nonempty (with_removed ks m) }
hdel-rest ks sl [] = ap (λ m. record sl { hash = nonempty m }) (sym (with_removed-none ks))
hdel-rest ks sl (e ∷ m) = refl

pub spec-hdel :
    (x y : Bytes) (ys : List Bytes) (sl : Slot)
    → (spec (hdel_op (y ∷ ys)) (spec (hdel_op (x ∷ [])) sl).0).0
      ≡ (spec (hdel_op (x ∷ y ∷ ys)) sl).0
unfolding spec
spec-hdel x y ys sl = at sl.hash refl
  where
    at :
        (o : Option (Map Bytes))
        → sl.hash ≡ o
        → (spec_hdel (y ∷ ys) (spec_hdel (x ∷ []) sl o).0 (spec_hdel (x ∷ []) sl o).0.hash).0
          ≡ (spec_hdel (x ∷ y ∷ ys) sl o).0
    at none e = rw e refl
    at (some m) e = hdel-rest (y ∷ ys) sl _

pub spec-hmset :
    (x y : Bytes × Bytes) (ys : Map Bytes) (sl : Slot)
    → (spec (hmset_op (y ∷ ys)) (spec (hmset_op (x ∷ [])) sl).0).0
      ≡ (spec (hmset_op (x ∷ y ∷ ys)) sl).0
unfolding spec
spec-hmset x y ys sl = refl
