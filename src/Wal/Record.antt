-- ===== src/Wal/Record.antt =====
-- The records of wal/format.go.
pub mod Fields
use warpdb.Base.{
  ℕ, Bool, ◌||◌, Option, none, some, List, [], ◌∷◌, ◌++◌, Bytes, ℤ, pos, ◌==◌, if◌then◌else◌,
}
use warpdb.Wal.Op

pub record Record : Type 0 where
  pub op : ℕ
  pub key : Bytes
  pub value : Bytes
  pub expire_at : ℤ

abbrev pub blank : ℕ → Record
blank op = record { op = op; key = []; value = []; expire_at = pos 0 }

-- The branches of MakeRecord: with too few arguments the fields stay empty.
abbrev with_key : ℕ → List Bytes → Record
with_key op [] = blank op
with_key op (k ∷ _) = record (blank op) { key = k }

abbrev with_key_value : ℕ → List Bytes → Record
with_key_value op (k ∷ v ∷ _) = record (blank op) { key = k; value = v }
with_key_value op _ = blank op

abbrev with_field : ℕ → List Bytes → Record
with_field op (k ∷ f ∷ v ∷ _) = record (blank op) { key = k; value = (0 ∷ f) ++ (0 ∷ v) }
with_field op _ = blank op

-- The cases `OpDel, OpIncr, OpDecr, OpLPop, OpRPop, OpSPop` of MakeRecord.
abbrev pub takes_key : ℕ → Bool
takes_key op =
    op == Op.del
    || op == Op.incr
    || op == Op.decr
    || op == Op.lpop
    || op == Op.rpop
    || op == Op.spop

-- The cases with a key and a value.
abbrev pub takes_key_value : ℕ → Bool
takes_key_value op =
    op == Op.set
    || op == Op.lpush
    || op == Op.rpush
    || op == Op.sadd
    || op == Op.srem
    || op == Op.hdel

-- MakeRecord
unfoldable pub make_record : ℕ → List Bytes → Record
make_record op args =
    if takes_key_value op
    then with_key_value op args
    else if takes_key op
    then with_key op args
    else if op == Op.hset
    then with_field op args
    else blank op

-- A text cut at its first NUL byte.
unfoldable pub cut_nul : Bytes → Option (Bytes × Bytes)
cut_nul [] = none
cut_nul (c ∷ s) =
    let rest = cut_nul s in
    if c == 0
    then some ([], s)
    else elim rest [ none ↦ none | some (before, after) ↦ some (c ∷ before, after) ]

-- strings.SplitN(value, "\x00", 3), if it has three parts: the second and the third.
unfoldable pub split_three : Bytes → Option (Bytes × Bytes)
unfolding cut_nul
split_three value = elim (cut_nul value) [ none ↦ none | some (first, rest) ↦ cut_nul rest ]

-- HashFieldAndValue
unfoldable pub hash_field_and_value : Record → Bytes × Bytes
hash_field_and_value r =
    if r.op == Op.hset
    then elim (split_three r.value) [ none ↦ ([], []) | some parts ↦ parts ]
    else ([], [])

-- Args
unfoldable pub args : Record → List Bytes
args r =
    if r.op == Op.del || r.op == Op.incr || r.op == Op.decr
    then r.key ∷ []
    else if r.op == Op.flush
    then []
    else if r.op == Op.hset
    then (let (field, val) = hash_field_and_value r in r.key ∷ field ∷ val ∷ [])
    else r.key ∷ r.value ∷ []
