-- ===== src/Server/Start.antt =====
-- cmd/server/server.go: Serve up to its accept loop.
use warpdb.Base.{
  ℕ, suc, ◌*◌, ◌-◌, ◌%◌, ◌^◌, Bool, List, Bytes, ℤ, pos, negsuc, pos_part, to_int64, if◌then◌else◌,
}
use warpdb.Store.{Store}
use warpdb.Config.{Config}
use warpdb.Wal.Log.{Log}
use warpdb.Engine.Logged.Restart.{Started, new_wal_engine, running, refused, panicked, no_fuel}

-- int64(maxSizeMB) * 1024 * 1024, which wraps round. A segment is closed only at a positive size, so
-- a negative one stands here as 0.
unfoldable pub max_segment_size : ℤ → ℕ
max_segment_size (pos n) = pos_part (to_int64 (n * 1048576 % 2 ^ 64))
max_segment_size (negsuc n) = pos_part (to_int64 ((2 ^ 64 - suc n * 1048576 % 2 ^ 64) % 2 ^ 64))

-- How Serve begins: os.Exit(1), a panic, or the accept loop with the capacity of its semaphore.
-- `not_started` belongs to the model alone.
pub data Beginning : Type 0 where
  exits : Beginning
  crashes : Beginning
  accepts : ℕ → Store → Log → Beginning
  not_started : Beginning

-- make(chan struct{}, cfg.MaxClients), which panics if there are fewer than none.
unfoldable pub with_semaphore : ℤ → Store → Log → Beginning
with_semaphore (pos n) s w = accepts n s w
with_semaphore (negsuc n) s w = crashes

unfoldable pub after_engine : (ℤ → Bool) → Config → Started → Beginning
after_engine listens cfg (running s w) =
    if listens cfg.port then with_semaphore cfg.max_clients s w else exits
after_engine listens cfg (refused w) = exits
after_engine listens cfg panicked = crashes
after_engine listens cfg no_fuel = not_started

-- Serve on a directory with these segments: `listens` says on which ports net.Listen succeeds.
unfoldable pub serve : (ℤ → Bool) → ℕ → (ℕ → Bytes) → List ℕ → Config → Beginning
unfolding after_engine max_segment_size with_semaphore
serve listens pick files manifest cfg =
    after_engine listens cfg
      (new_wal_engine pick (max_segment_size cfg.wal_max_size_mb) files manifest)
