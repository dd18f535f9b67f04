-- ===== src/Engine/Logged/Agreement.antt =====
-- When the records of a log do to every store what an operation does.
use warpdb.Base.{ℕ, ◌≡◌, sym, ap, ◌∙◌, List, [], ◌∷◌, ◌++◌, Bytes, arith}
use mathlib.Core.List.{foldl-append}
use warpdb.Store.{Store, Error, fail, new_store}
use warpdb.Store.Slots.{Slot, slot}
use warpdb.Store.Slots.Spec.{Op, run, spec, lpop_op, rpop_op, text}
use warpdb.Store.Slots.Spec.Refinement.{run-Implements}
use warpdb.Wal.Op.{op_to_code}
use warpdb.Wal.Record.{Record, make_record}
use warpdb.Wal.Replay.{replay_record, replay_records}

-- Two stores hold the same at every key.
abbrev pub Agree : Store → Store → Type 0
Agree s t = (j : Bytes) → slot j s ≡ slot j t

pub run-Agree :
    (op : Op) (k : Bytes) (s t : Store) → Agree s t → Agree (run op k s).0 (run op k t).0
run-Agree op k s t h j =
    (run-Implements op k s).slots j ∙ rw (h j, h k) (sym ((run-Implements op k t).slots j))

-- Replaying some records does what an operation does, to every store.
abbrev pub Reproduces : ℕ → List Record → Op → Bytes → Type 0
Reproduces pick rs op k = (s : Store) → Agree (replay_records pick rs s) (run op k s).0

pub replay-append :
    (pick : ℕ) (rs rs' : List Record) (s : Store)
    → replay_records pick (rs ++ rs') s ≡ replay_records pick rs' (replay_records pick rs s)
unfolding replay_records
replay-append pick rs rs' s = rw foldl-append

-- An operation that appends records which reproduce it keeps the log in step with the memory.
pub extend :
    (pick : ℕ) (rs : List Record) (op : Op) (k : Bytes) (log : List Record) (mem : Store)
    → Reproduces pick rs op k
    → Agree (replay_records pick log new_store) mem
    → Agree (replay_records pick (log ++ rs) new_store) (run op k mem).0
extend pick rs op k log mem r h j =
    ap (slot j) (replay-append pick log rs new_store)
    ∙ r (replay_records pick log new_store) j
    ∙ run-Agree op k _ mem h j

pub one_record :
    (pick : ℕ) (r : Record) (op : Op) (k : Bytes)
    → ((s : Store) → replay_record pick s r ≡ (run op k s).0)
    → Reproduces pick (r ∷ []) op k
unfolding replay_records
one_record pick r op k h s j = ap (slot j) (h s)

-- A pop that fails leaves its slot as it is.
pub spec-lpop_fail :
    (x : Error) (sl : Slot) → (spec lpop_op sl).1 ≡ text (fail x) → (spec lpop_op sl).0 ≡ sl
unfolding spec
spec-lpop_fail x sl e = ground arith

pub spec-rpop_fail :
    (x : Error) (sl : Slot) → (spec rpop_op sl).1 ≡ text (fail x) → (spec rpop_op sl).0 ≡ sl
unfolding spec
spec-rpop_fail x sl e = ground arith

-- The records of several writes.
abbrev pub records_of : Bytes → List (List Bytes) → List Record
records_of name [] = []
records_of name (args ∷ more) = make_record (op_to_code name) args ∷ records_of name more
