-- ===== src/Wal/Replay.antt =====
-- Replay and replaySegment of wal/wal.go, into a MemoryEngine, whose methods are the store's. A
-- segment is its bytes. `pick` is the choice that Go's map iteration makes in SPop.
pub mod Segments
pub mod Torn
use warpdb.Base.{ℕ, zero, suc, Bool, List, [], ◌∷◌, ◌++◌, foldl, Bytes, length, ◌==◌, if◌then◌else◌}
use warpdb.Store.{Store}
use warpdb.Store.Values.{set, del, incr, decr}
use warpdb.Store.Lists.{lpush, rpush, lpop, rpop}
use warpdb.Store.Sets.{sadd, srem, spop}
use warpdb.Store.Hashes.{hset, hdel}
use warpdb.Store.Scan.{flush_all}
use warpdb.Wal.Op
use warpdb.Wal.Record.{Record, hash_field_and_value}
use warpdb.Wal.Reader.Loop.{Ended, read_segment, read_segments}

-- engine.HSet(record.Key, field, val)
abbrev replay_hset : Record → Store → Store
replay_hset r s = let (field, val) = hash_field_and_value r in (hset r.key field val s).0

-- The `switch record.Op`; an unknown code is passed over.
unfoldable pub replay_record : ℕ → Store → Record → Store
replay_record pick s r =
    if r.op == Op.set
    then set r.key r.value s
    else if r.op == Op.del
    then (del r.key s).0
    else if r.op == Op.incr
    then (incr r.key s).0
    else if r.op == Op.decr
    then (decr r.key s).0
    else if r.op == Op.flush
    then flush_all s
    else if r.op == Op.lpush
    then (lpush r.key (r.value ∷ []) s).0
    else if r.op == Op.rpush
    then (rpush r.key (r.value ∷ []) s).0
    else if r.op == Op.lpop
    then (lpop r.key s).0
    else if r.op == Op.rpop
    then (rpop r.key s).0
    else if r.op == Op.sadd
    then (sadd r.key (r.value ∷ []) s).0
    else if r.op == Op.srem
    then (srem r.key (r.value ∷ []) s).0
    else if r.op == Op.spop
    then (spop pick r.key s).0
    else if r.op == Op.hset
    then replay_hset r s
    else if r.op == Op.hdel
    then (hdel r.key (r.value ∷ []) s).0
    else s

-- The records of a log, applied in order.
unfoldable pub replay_records : ℕ → List Record → Store → Store
replay_records pick rs s = foldl (replay_record pick) s rs

-- replaySegment
unfoldable pub replay_segment : ℕ → Bytes → Store → Ended Store
replay_segment pick = read_segment (replay_record pick)

-- Replay: the segments of the manifest in order, up to an error.
unfoldable pub replay : ℕ → List Bytes → Store → Ended Store
replay pick = read_segments (replay_record pick)
