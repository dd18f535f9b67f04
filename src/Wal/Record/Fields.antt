-- ===== src/Wal/Record/Fields.antt =====
-- What HashFieldAndValue recovers from the record of an HSET.
use warpdb.Base.{◌≡◌, refl, none, some, [], ◌∷◌, ◌++◌, Bytes, arith, Option-cases, inl, inr}
use warpdb.Wal.Op
use warpdb.Wal.Record.{cut_nul, split_three, make_record, hash_field_and_value}

cut_nul-append_none : (f v : Bytes) → cut_nul f ≡ none → cut_nul (f ++ (0 ∷ v)) ≡ some (f, v)
unfolding cut_nul
cut_nul-append_none [] v h = refl
cut_nul-append_none (c ∷ f) v h = ground (arith, cut_nul-append_none f v)

cut_nul-append_some :
    (f v a b : Bytes) → cut_nul f ≡ some (a, b) → cut_nul (f ++ (0 ∷ v)) ≡ some (a, b ++ (0 ∷ v))
unfolding cut_nul
cut_nul-append_some [] v a b h = cc
cut_nul-append_some (c ∷ f) v a b h = elim (Option-cases (cut_nul f)) [
  | inl e ↦ ground arith
  | inr ((a', b'), e) ↦ ground (arith, cut_nul-append_some f v a' b' e)
]

hset_parts :
    (k f v : Bytes)
    → hash_field_and_value (make_record Op.hset (k ∷ f ∷ v ∷ []))
      ≡ (elim (cut_nul (f ++ (0 ∷ v))) [ none ↦ ([], []) | some parts ↦ parts ])
unfolding hash_field_and_value make_record split_three
hset_parts k f v = refl

-- From the record of an HSET, HashFieldAndValue returns the field and the value if the field holds
-- no NUL byte; if it holds one, the field ends there, and the rest of it goes to the value.
pub hash_field_and_value-make_record :
    (k f v : Bytes)
    → hash_field_and_value (make_record Op.hset (k ∷ f ∷ v ∷ []))
      ≡ (elim (cut_nul f) [ none ↦ (f, v) | some (a, b) ↦ (a, b ++ (0 ∷ v)) ])
hash_field_and_value-make_record k f v = elim (Option-cases (cut_nul f)) [
  | inl e ↦ rw (hset_parts k f v, cut_nul-append_none f v e, e)
  | inr ((a, b), e) ↦ rw (hset_parts k f v, cut_nul-append_some f v a b e, e)
]
