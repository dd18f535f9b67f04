-- ===== src/Server/Accept.antt =====
-- cmd/server/server.go: the accept loop of Serve with its semaphore, the goroutine that shuts it
-- down, and what handleClient does around the session of its client. A step is what one goroutine
-- does between two points at which another may run; a panic, which ends all of them, is no step.
pub mod Semaphore
pub mod Shutdown
use warpdb.Base.{ℕ, zero, suc, ◌+◌, ◌-◌, ◌≤◌, ◌<◌, ◌≡◌, Bool, true, false, List, [], ◌∷◌, ◌++◌}
use warpdb.Stats.{ServerStats, new_stats, increment, decrement}

-- Where the loop of Serve is: in Accept, in the select after it, or returned.
pub data Loop : Type 0 where
  accepting : Loop
  deciding : Loop
  stopped : Loop

-- Where a goroutine of handleClient is: before it counts its connection, between the two counters,
-- in the session, or after the deferred Add(-1), before it frees its place in the semaphore.
pub data Client : Type 0 where
  spawned : Client
  received : Client
  serving : Client
  leaving : Client

-- What Serve and its goroutines share: `sem` is the number of tokens in srv.sem.
pub record Listening : Type 0 where
  pub loop : Loop
  pub cancelled : Bool
  pub ln_closed : Bool
  pub sem : ℕ
  pub clients : List Client
  pub stats : ServerStats

-- Serve as it enters its loop.
abbrev pub listening : Listening
listening = record {
  loop = accepting;
  cancelled = false;
  ln_closed = false;
  sem = 0;
  clients = [];
  stats = new_stats;
}

-- `go srv.handleClient(ctx, conn)` after the send to srv.sem.
unfoldable pub admit : Listening → Listening
admit s = record s { loop = accepting; sem = s.sem + 1; clients = spawned ∷ s.clients }

-- TotalConnections.Add(1)
unfoldable pub receive : ServerStats → ServerStats
receive t = record t { total_connections = increment t.total_connections }

-- ActiveConnections.Add(1)
unfoldable pub count : ServerStats → ServerStats
count t = record t { active_connections = increment t.active_connections }

-- The deferred ActiveConnections.Add(-1)
unfoldable pub uncount : ServerStats → ServerStats
uncount t = record t { active_connections = decrement t.active_connections }

-- A step of the loop, where srv.sem has room for `max_clients`: Accept returns a connection, fails,
-- or fails after the shutdown; the select takes a token, sees the shutdown, or refuses. Where both
-- of the first two can go on, Go picks either.
pub data LoopStep (max_clients : ℕ) : Listening → Listening → Type 0 where
  accepts :
      (s : Listening)
      → s.loop ≡ accepting
      → s.ln_closed ≡ false
      → LoopStep max_clients s (record s { loop = deciding })
  retries : (s : Listening) → s.loop ≡ accepting → s.cancelled ≡ false → LoopStep max_clients s s
  stops :
      (s : Listening)
      → s.loop ≡ accepting
      → s.cancelled ≡ true
      → LoopStep max_clients s (record s { loop = stopped })
  admits :
      (s : Listening) → s.loop ≡ deciding → s.sem < max_clients → LoopStep max_clients s (admit s)
  drops :
      (s : Listening)
      → s.loop ≡ deciding
      → s.cancelled ≡ true
      → LoopStep max_clients s (record s { loop = stopped })
  refuses :
      (s : Listening)
      → s.loop ≡ deciding
      → s.cancelled ≡ false
      → max_clients ≤ s.sem
      → LoopStep max_clients s (record s { loop = accepting })

-- A step of another goroutine: the one that waits for a signal, or a client's.
pub data OtherStep : Listening → Listening → Type 0 where
  cancels : (s : Listening) → s.cancelled ≡ false → OtherStep s (record s { cancelled = true })
  closes_listener :
      (s : Listening) → s.cancelled ≡ true → OtherStep s (record s { ln_closed = true })
  receives :
      (s : Listening) (before after : List Client)
      → s.clients ≡ before ++ spawned ∷ after
      → OtherStep s (record s { clients = before ++ received ∷ after; stats = receive s.stats })
  counts :
      (s : Listening) (before after : List Client)
      → s.clients ≡ before ++ received ∷ after
      → OtherStep s (record s { clients = before ++ serving ∷ after; stats = count s.stats })
  leaves :
      (s : Listening) (before after : List Client)
      → s.clients ≡ before ++ serving ∷ after
      → OtherStep s (record s { clients = before ++ leaving ∷ after; stats = uncount s.stats })
  releases :
      (s : Listening) (before after : List Client)
      → s.clients ≡ before ++ leaving ∷ after
      → OtherStep s (record s { clients = before ++ after; sem = s.sem - 1 })

-- A run, with the number of steps that the loop makes in it.
pub data Run (max_clients : ℕ) : Listening → ℕ → Listening → Type 0 where
  done : (s : Listening) → Run max_clients s 0 s
  loops :
      (s s' s'' : Listening) (n : ℕ)
      → LoopStep max_clients s s'
      → Run max_clients s' n s''
      → Run max_clients s (suc n) s''
  others :
      (s s' s'' : Listening) (n : ℕ)
      → OtherStep s s'
      → Run max_clients s' n s''
      → Run max_clients s n s''
