-- ===== src/Examples/Log.antt =====
-- The theorems on the log writer, its queue and Compact, and on a WALEngine that starts again, at
-- concrete logs.
use warpdb.Base.{
  ℕ, ◌+◌, ◌≡◌, refl, ap, Bool, true, false, some, none, inl, inr, List, [], ◌∷◌, ◌++◌, Bytes, codes,
  pos, arith, foldl, length,
}
use warpdb.Store.{new_store}
use warpdb.Store.Slots.{slot}
use warpdb.Wal.Op
use warpdb.Wal.Record.{Record, make_record}
use warpdb.Wal.Replay.{replay, replay_records}
use warpdb.Wal.Reader.Loop.{ended}
use warpdb.Wal.Replay.Segments.{IsReadable}
use warpdb.Wal.Log.{Log, new_wal, open_wal, segments, all_written, flush_batch}
use warpdb.Wal.Log.Holding.{Holds, new_wal-Holds}
use warpdb.Wal.Log.Batches.{flush_batches, flush_batches-Holds}
use warpdb.Wal.Log.Sessions.{Session, run_sessions, session_records, replay-run_sessions}
use warpdb.Wal.Log.Queue.{
  Queue, idle, send, receive, answer, receives, answers_batch, Run, done, sends, flushes,
}
use warpdb.Wal.Log.Queue.Order.{Answers, Run-Answers}
use warpdb.Wal.Log.Queue.Progress.{Progress, Run-Progress}
use warpdb.Wal.Compact.Latest.{compacted}
use warpdb.Wal.Compact.Directory.{Compacts, compact-Compacts}
use warpdb.Wal.Compact.Values.{compacted-Agree}
use warpdb.Wal.Compact.Pushes.{push_record, push_lost}
use warpdb.Engine.Logged.Calls.{set_call, sadd_call}
use warpdb.Engine.Logged.Recovery.{fresh}
use warpdb.Engine.Logged.Restart.{Event, called, restarted, happen, Restores, restart-Restores}

abbrev k : Bytes
k = codes "k"

abbrev set_k : Bytes → Record
set_k v = make_record Op.set (k ∷ v ∷ [])

set_k-IsReadable : IsReadable (set_k (codes "1"))
unfolding make_record
set_k-IsReadable = record {
  fits = record { key_fits = omega arith; value_fits = omega arith; expiry_fits = omega arith };
  short_key = omega arith;
}

-- Two runs of the program; the first ends with Close.
abbrev two_runs : List Session
two_runs =
    record { max_size = 8; batches = (set_k (codes "1") ∷ []) ∷ []; closes = true }
    ∷ record { max_size = 64; batches = (set_k (codes "1") ∷ []) ∷ []; closes = false }
    ∷ []

replay-run_sessions_example :
    let d = run_sessions two_runs (new_wal 8) in
    let w = open_wal 16 d.files d.manifest in
    replay 0 (segments w.manifest w.files) new_store
    ≡ ended (replay_records 0 (session_records two_runs) new_store)
replay-run_sessions_example =
    replay-run_sessions 0 8 16 two_runs new_store
      ((((set_k-IsReadable, tt), tt)), ((((set_k-IsReadable, tt), tt)), tt))

-- Two writers; the flusher takes the first entry and answers it before the second comes.
abbrev q0 : Queue
q0 = idle (new_wal 8)

abbrev q1 : Queue
q1 = send (set_k (codes "1")) q0

abbrev q2 : Queue
q2 = receive (set_k (codes "1")) [] q1

abbrev q3 : Queue
q3 = answer all_written true q2

abbrev q4 : Queue
q4 = send (set_k (codes "1")) q3

one_answered : Run 2 q0 (set_k (codes "1") ∷ set_k (codes "1") ∷ []) 2 q4
unfolding send receive answer
one_answered =
    sends q0 q4 (set_k (codes "1")) (set_k (codes "1") ∷ []) 2 (omega arith) (omega arith) (
      flushes q1 q2 q4 (set_k (codes "1") ∷ []) 1 (receives q1 (set_k (codes "1")) [] refl) (
        flushes q2 q3 q4 (set_k (codes "1") ∷ []) 0
          (answers_batch q2 (set_k (codes "1")) [] all_written true refl refl)
          (sends q3 q4 (set_k (codes "1")) [] 0 (omega arith) (omega arith) (done q4))))

told : q4.answers ≡ (set_k (codes "1"), true) ∷ []
unfolding send receive answer flush_batch warpdb.Wal.Log.encode_batch
told = refl

Run-Answers_example : Answers [] (set_k (codes "1") ∷ set_k (codes "1") ∷ []) q4
unfolding send receive answer flush_batch warpdb.Wal.Log.encode_batch
Run-Answers_example =
    Run-Answers 2 (new_wal 8) [] (set_k (codes "1") ∷ set_k (codes "1") ∷ []) 2 q4 (new_wal-Holds 8)
      (set_k-IsReadable, (set_k-IsReadable, tt)) one_answered (refl, tt)

Run-Progress_example : Progress 2 2 q0 q4
Run-Progress_example =
    Run-Progress 2 q0 q4 (set_k (codes "1") ∷ set_k (codes "1") ∷ []) 2 (omega arith) one_answered

-- A log of two segments.
abbrev two_batches : List (List Record)
two_batches = (set_k (codes "1") ∷ []) ∷ (set_k (codes "1") ∷ []) ∷ []

two_batches-Holds :
    Holds (flush_batches two_batches (new_wal 8)) (set_k (codes "1") ∷ set_k (codes "1") ∷ [])
two_batches-Holds =
    flush_batches-Holds two_batches (new_wal 8) []
      ((set_k-IsReadable, tt), ((set_k-IsReadable, tt), tt)) (new_wal-Holds 8)

three_segments : length (flush_batches two_batches (new_wal 8)).manifest ≡ 3
unfolding new_wal open_wal warpdb.Wal.Log.last_segment warpdb.Wal.Log.rotate
    warpdb.Wal.Log.write_manifest warpdb.Wal.Log.lists flush_batch warpdb.Wal.Log.encode_batch
    make_record warpdb.Wal.Format.encode_record warpdb.Wal.Format.encode_body
three_segments = refl

compact-Compacts_example :
    Compacts 0 8
      (flush_batches two_batches (new_wal 8))
      (compacted (set_k (codes "1") ∷ set_k (codes "1") ∷ []))
compact-Compacts_example =
    compact-Compacts 0 8 (flush_batches two_batches (new_wal 8))
      (set_k (codes "1") ∷ set_k (codes "1") ∷ []) two_batches-Holds (omega (arith, three_segments))

abbrev overwritten : List Record
overwritten = set_k (codes "1") ∷ set_k (codes "2") ∷ make_record Op.del (codes "j" ∷ []) ∷ []

compacted-Agree_example :
    slot k (replay_records 0 (compacted overwritten) new_store)
    ≡ slot k (replay_records 0 overwritten new_store)
unfolding make_record
compacted-Agree_example = compacted-Agree 0 overwritten (inl refl, (inl refl, (inr refl, tt))) k

push_lost_example :
    ((slot k (
        replay_records 0
          (push_record false k (codes "a") ∷ push_record true k (codes "b") ∷ [])
          new_store)).list
      ≡ some (codes "b" ∷ codes "a" ∷ []))
    × ((slot k (
          replay_records 0
            (compacted (push_record false k (codes "a") ∷ push_record true k (codes "b") ∷ []))
            new_store)).list
        ≡ some (codes "b" ∷ []))
push_lost_example = push_lost 0 false true k (codes "a") (codes "b")

-- Two calls with a restart between them, and the runs that write their records.
abbrev events : List Event
events = called (set_call k (codes "1")) ∷ restarted ∷ called (set_call k (codes "1")) ∷ []

same_log : session_records two_runs ≡ (foldl (happen 0) fresh events).log
unfolding happen warpdb.Engine.Logged.Calls.perform warpdb.Engine.Logged.set
    warpdb.Engine.Logged.logged_first warpdb.Engine.Logged.write warpdb.Engine.Logged.write_record
    warpdb.Wal.Op.op_to_code warpdb.Base.beq make_record
same_log = refl

restart-Restores_example :
    Restores 0 16 (run_sessions two_runs (new_wal 8)) (foldl (happen 0) fresh events)
restart-Restores_example =
    restart-Restores 0 8 16 events two_runs
      ((((set_k-IsReadable, tt), tt)), ((((set_k-IsReadable, tt), tt)), tt)) same_log
