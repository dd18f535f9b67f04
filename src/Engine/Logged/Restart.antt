-- ===== src/Engine/Logged/Restart.antt =====
-- NewWALEngine of engine/wal_engine.go, and a WALEngine that is stopped and started again.
use warpdb.Base.{ℕ, ◌≡◌, refl, ap, ◌∙◌, List, [], ◌∷◌, Bytes, foldl}
use warpdb.Store.{Store, new_store}
use warpdb.Wal.Reader.Loop.{Ended, ended, decode_error, crashed, out_of_fuel}
use warpdb.Wal.Replay.{replay_records, replay}
use warpdb.Wal.Log.{Log, new_wal, open_wal, close_wal, segments}
use warpdb.Wal.Log.Sessions.{
  Session, run_sessions, session_records, AreReadable, replay-run_sessions,
}
use warpdb.Engine.Logged.{WalEngine}
use warpdb.Engine.Logged.Agreement.{Agree}
use warpdb.Engine.Logged.Calls.{Call, perform, IsDurable}
use warpdb.Engine.Logged.Recovery.{fresh, perform-IsDurable, fresh-IsDurable}

-- How a start ends: with the memory and the log of the engine, with an error after Close, or with
-- a panic of the replay. `no_fuel` belongs to the model alone.
pub data Started : Type 0 where
  running : Store → Log → Started
  refused : Log → Started
  panicked : Started
  no_fuel : Started

unfoldable pub started : Log → Ended Store → Started
started w (ended s) = running s w
started w decode_error = refused (close_wal w)
started w crashed = panicked
started w out_of_fuel = no_fuel

-- NewWALEngine, where NewWAL does not fail.
unfoldable pub new_wal_engine : ℕ → ℕ → (ℕ → Bytes) → List ℕ → Started
unfolding started
new_wal_engine pick max_size files manifest =
    let w = open_wal max_size files manifest in
    started w (replay pick (segments w.manifest w.files) new_store)

-- What happens to an engine: a call, or a stop and a start, after which its memory is what the
-- replay gives.
pub data Event : Type 0 where
  called : Call → Event
  restarted : Event

unfoldable pub happen : ℕ → WalEngine → Event → WalEngine
happen pick e (called c) = perform c e
happen pick e restarted = record e { mem = replay_records pick e.log new_store }

happen-IsDurable :
    (pick : ℕ) (v : Event) (e : WalEngine) → IsDurable pick e → IsDurable pick (happen pick e v)
unfolding happen
happen-IsDurable pick (called c) e d = perform-IsDurable pick c e d
happen-IsDurable pick restarted e d = record { rebuilds = λ j. refl; no_failure = d.no_failure }

events-IsDurable :
    (pick : ℕ) (vs : List Event) (e : WalEngine)
    → IsDurable pick e
    → IsDurable pick (foldl (happen pick) e vs)
events-IsDurable pick [] e d = d
events-IsDurable pick (v ∷ vs) e d =
    events-IsDurable pick vs (happen pick e v) (happen-IsDurable pick v e d)

-- The start after all this gives the memory back.
pub record Restores (pick next_size : ℕ) (d : Log) (e : WalEngine) : Type 0 where
  pub start :
      new_wal_engine pick next_size d.files d.manifest
      ≡ running (replay_records pick e.log new_store) (open_wal next_size d.files d.manifest)
  pub agree : Agree (replay_records pick e.log new_store) e.mem

-- If the calls of the recovery theorem are made on a fresh WAL engine whose log writes all succeed,
-- with restarts among them, and runs of the program write the records of those calls as entries
-- that the decoder can read, then NewWALEngine on the directory that they leave starts, and its
-- memory holds at every key what the memory of the engine held.
pub restart-Restores :
    (pick max_size next_size : ℕ) (events : List Event) (sessions : List Session)
    → AreReadable sessions
    → session_records sessions ≡ (foldl (happen pick) fresh events).log
    → Restores pick next_size
        (run_sessions sessions (new_wal max_size))
        (foldl (happen pick) fresh events)
restart-Restores pick max_size next_size events sessions readable same = record {
  start =
      unfold new_wal_engine started in
      ap (started (open_wal next_size d.files d.manifest))
        (replay-run_sessions pick max_size next_size sessions new_store readable)
      ∙ ap
          (λ rs. running (replay_records pick rs new_store) (open_wal next_size d.files d.manifest))
          same;
  agree = (events-IsDurable pick events fresh (fresh-IsDurable pick)).rebuilds;
}
  where
    d : Log
    d = run_sessions sessions (new_wal max_size)
