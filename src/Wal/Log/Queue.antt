-- ===== src/Wal/Log/Queue.antt =====
-- Write and runFlusher of wal/wal.go with the channel between them: what the goroutines that write
-- and the flusher do, step by step. Close, which ends the flusher, is not among the steps: the
-- program calls it only where its start fails.
pub mod Order
pub mod Progress
use warpdb.Base.{ℕ, zero, suc, ◌+◌, ◌<◌, ◌≡◌, ◌≢◌, Bool, List, [], ◌∷◌, ◌++◌, map, length}
use warpdb.Wal.Record.{Record}
use warpdb.Wal.Log.{Log, Writes, flush_batch}

-- The log, the channel w.pending, the batch of runFlusher, and the answers that it has sent to
-- the `done` channels, in their order: an entry stands as its record, `true` is `err == nil`.
pub record Queue : Type 0 where
  pub log : Log
  pub pending : List Record
  pub batch : List Record
  pub answers : List (Record × Bool)

-- cap(w.pending)
abbrev pub capacity : ℕ
capacity = 1024

-- The entries whose writers wait.
abbrev pub waiting : Queue → List Record
waiting q = q.batch ++ q.pending

-- `w.pending <- e` in Write.
unfoldable pub send : Record → Queue → Queue
send r q = record q { pending = q.pending ++ r ∷ [] }

-- The receive at the top of runFlusher, and that of the drain loop.
unfoldable pub receive : Record → List Record → Queue → Queue
receive r rest q = record q { pending = rest; batch = q.batch ++ r ∷ [] }

-- The rest of a round: the batch is written, and all its writers get the same answer.
unfoldable pub answer : Writes → Bool → Queue → Queue
answer writes synced q =
    let (w, told) = flush_batch writes synced q.batch q.log in
    record q { log = w; batch = []; answers = q.answers ++ map (λ r. (r, told)) q.batch }

-- A step of the flusher. It drains the channel while there is something in it.
pub data FlusherStep : Queue → Queue → Type 0 where
  receives :
      (q : Queue) (r : Record) (rest : List Record)
      → q.pending ≡ r ∷ rest
      → FlusherStep q (receive r rest q)
  answers_batch :
      (q : Queue) (r : Record) (rest : List Record) (writes : Writes) (synced : Bool)
      → q.batch ≡ r ∷ rest
      → q.pending ≡ []
      → FlusherStep q (answer writes synced q)

-- A run of `writers` goroutines, each of which waits for its answer before it writes again: what
-- they send, and the number of steps that the flusher makes.
pub data Run (writers : ℕ) : Queue → List Record → ℕ → Queue → Type 0 where
  done : (q : Queue) → Run writers q [] 0 q
  sends :
      (q q' : Queue) (r : Record) (sent : List Record) (n : ℕ)
      → length q.pending < capacity
      → length (waiting q) < writers
      → Run writers (send r q) sent n q'
      → Run writers q (r ∷ sent) n q'
  flushes :
      (q q' q'' : Queue) (sent : List Record) (n : ℕ)
      → FlusherStep q q'
      → Run writers q' sent n q''
      → Run writers q sent (suc n) q''

-- A log with nothing on its way.
abbrev pub idle : Log → Queue
idle w = record { log = w; pending = []; batch = []; answers = [] }
