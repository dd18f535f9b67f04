-- ===== src/Wal/Log/Sessions.antt =====
-- A log that is opened, written and left more than once, in one directory.
use warpdb.Base.{ℕ, ◌≡◌, Bool, true, false, List, [], ◌∷◌, ◌++◌, All, if◌then◌else◌}
use mathlib.Core.Path.{subst}
use mathlib.Core.List.{append_assoc, append-nil}
use warpdb.Store.{Store}
use warpdb.Wal.Record.{Record}
use warpdb.Wal.Replay.{replay_records, replay}
use warpdb.Wal.Reader.Loop.{ended}
use warpdb.Wal.Replay.Segments.{IsReadable}
use warpdb.Wal.Log.{Log, new_wal, open_wal, close_wal, segments}
use warpdb.Wal.Log.Holding.{Holds, new_wal-Holds}
use warpdb.Wal.Log.Opening.{open_wal-Holds, close_wal-Holds}
use warpdb.Wal.Log.Batches.{all_records, flush_batches, flush_batches-Holds, Holds-replay}

-- One run of the program: the maximal size that it is configured with, the batches that its flusher
-- writes, and whether the log is closed at the end or the program is stopped between two batches.
pub record Session : Type 0 where
  pub max_size : ℕ
  pub batches : List (List Record)
  pub closes : Bool

unfoldable pub run_session : Session → Log → Log
run_session x w =
    let w' = flush_batches x.batches (open_wal x.max_size w.files w.manifest) in
    if x.closes then close_wal w' else w'

unfoldable pub run_sessions : List Session → Log → Log
run_sessions [] w = w
run_sessions (x ∷ xs) w = run_sessions xs (run_session x w)

-- The records of all batches.
abbrev pub session_records : List Session → List Record
session_records [] = []
session_records (x ∷ xs) = all_records x.batches ++ session_records xs

abbrev pub AreReadable : List Session → Type 0
AreReadable = All (λ x. All (All IsReadable) x.batches)

run_session-Holds :
    (x : Session) (w : Log) (written : List Record)
    → All (All IsReadable) x.batches
    → Holds w written
    → Holds (run_session x w) (written ++ all_records x.batches)
unfolding run_session
run_session-Holds x w written r h =
    left x.closes
      (flush_batches-Holds x.batches _ written r (open_wal-Holds x.max_size w written h))
  where
    left :
        (b : Bool)
        → Holds
            (flush_batches x.batches (open_wal x.max_size w.files w.manifest))
            (written ++ all_records x.batches)
        → Holds
            (if b
              then close_wal (flush_batches x.batches (open_wal x.max_size w.files w.manifest))
              else flush_batches x.batches (open_wal x.max_size w.files w.manifest))
            (written ++ all_records x.batches)
    left true k = close_wal-Holds _ _ k
    left false k = k

pub run_sessions-Holds :
    (xs : List Session) (w : Log) (written : List Record)
    → AreReadable xs
    → Holds w written
    → Holds (run_sessions xs w) (written ++ session_records xs)
unfolding run_sessions
run_sessions-Holds [] w written r h = rw (append-nil written) h
run_sessions-Holds (x ∷ xs) w written r h =
    subst (Holds (run_sessions xs (run_session x w)))
      (append_assoc written (all_records x.batches) (session_records xs))
      (run_sessions-Holds xs (run_session x w) (written ++ all_records x.batches) r.1
        (run_session-Holds x w written r.0 h))

-- If several runs of the program, one after the other, open the log in the same directory and write
-- batches of records that fit their entries and have keys of 8 bytes at most, closing the log at
-- the end or not, and no write, sync or new segment fails, then a replay after them, from whatever
-- store, applies all the records in order, whatever the maximal sizes of the segments are.
pub replay-run_sessions :
    (pick max_size next_size : ℕ) (xs : List Session) (s : Store)
    → AreReadable xs
    → let d = run_sessions xs (new_wal max_size) in
      let w = open_wal next_size d.files d.manifest in
      replay pick (segments w.manifest w.files) s
      ≡ ended (replay_records pick (session_records xs) s)
replay-run_sessions pick max_size next_size xs s r = Holds-replay pick _ (session_records xs) s (
    open_wal-Holds next_size _ (session_records xs)
      (run_sessions-Holds xs (new_wal max_size) [] r (new_wal-Holds max_size)))
