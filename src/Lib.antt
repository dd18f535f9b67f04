-- ===== src/Lib.antt =====
-- WarpDB: a key-value server with strings, lists, sets and hashes, RESP on the wire and a
-- write-ahead log.
--
-- The program (cmd/main.go) reads its configuration (internal/config/config.go) and serves
-- (cmd/server/server.go): it starts the engine, listens, and runs one session for each client, up to
-- a limit. A client's session reads requests from the connection
-- (core/protocol/protocol.go) and hands them to the command handler (core/commands/commands.go),
-- which calls a storage engine (engine/engine.go). The memory engine (engine/memory.go) is the
-- sharded store (core/store/store.go); the WAL engine (engine/wal_engine.go) writes each change to
-- the log (wal/wal.go, wal/format.go) besides making it in its store. The writers hand their records
-- to one flusher, which writes them in batches. At start-up the log is replayed into an empty store.
--
-- Which file models what:
--   Base       shared names, Boolean tests, lists over the native numbers, byte strings, Go's int.
--   GoMap      Go's maps, as association lists; `insert` replaces in place or appends.
--   Strconv    strconv.Atoi and strconv.Itoa of Go's library.
--   Store      core/store/store.go. A Store is a function from the number of a shard to the shard;
--              a Shard holds the five maps. fnv32a is the hash behind getShard. Values, Expiry,
--              Lists, Sets, Hashes, Glob and Scan hold the operations, under the names of the
--              methods in snake_case; the child modules of those prove things of them.
--   Store.Slots   what all five maps hold at one key. Store.Slots.Spec says what each operation does
--              to the slot of its key, in terms of its own, and Refinement relates the sharded
--              store to it.
--   Wal        wal/format.go (Op, Record, Format, Reader), and of wal/wal.go the loop over a segment
--              (Reader.Loop), the replay (Replay), the segments, the manifest and the rounds of
--              runFlusher (Log), its channel (Log.Queue), and Compact (Compact). Log.Sessions puts
--              several runs of the program one after the other.
--   Engine     engine/engine.go as a record of operations, and its two instances: Memory for
--              engine/memory.go, Logged for engine/wal_engine.go, whose start is Logged.Restart.
--              Engine.Simulation says what it is that one engine answers as another;
--              Commands.Alike and Server.Alike carry that to the commands and to a session.
--   Protocol   core/protocol/protocol.go.
--   Config     internal/config/config.go, and the body of main in cmd/main.go.
--   Stats      internal/stats/stats.go: the counters, formatBytes and InfoSection.
--   Commands   core/commands/commands.go: one function for each case of Handle, and Handle itself,
--              on any engine.
--   Server     cmd/server/server.go: one client's session; sessions that interleave, request by request
--              (Shared); its start (Start); and the accept loop with the semaphore and the shutdown
--              (Accept).
--   Examples   the theorems at concrete inputs, and runs.
--
-- Conventions. A method that takes the lock of a shard is one step, a function from the store to
-- the store and its result. Get and Exists take the lock twice, so each is the composition of two
-- phases, and the theorems on interleavings put other steps between them. FlushAll, Keys, Size and
-- activeExpiry take the locks of the shards one after the other: each is a function of the store
-- where nothing runs in between; Store.Scan.Routing has the parts of FlushAll and of activeExpiry
-- on one shard as steps, and Store.Scan.Listing lets the store change while Keys goes through it.
-- An instant is a number of nanoseconds, and the clock an argument, `now`. What depends on the
-- order in which Go goes through a map (SPOP, SRANDMEMBER) takes the choice as an argument, `pick`;
-- where only the order of a reply depends on it, the reply has the order of the association list.
-- Go's (value, error) is Result, or Answer where the error may come from the log. A file or a
-- stream is a list of bytes. The log of the WAL engine's state is the list of its records, and
-- their bytes are in Wal.Log. A write to the log succeeds or fails as the list `outcomes` of the
-- engine's state says.
--
-- Goroutines. The accept loop with the goroutines of its clients, and the writers of the log with
-- the flusher, are step relations (Server.Accept, Wal.Log.Queue): a step is what one goroutine does
-- between two points at which another may run, and a run is a sequence of steps in whatever order. A
-- run counts the steps of the goroutine whose progress is in question.
--
-- Fuel. glob_match has fuel for each byte of the pattern, and match_pattern gives it the length.
-- replay_segment has fuel for each byte of the segment, since an entry has 19 bytes, and
-- handle_client fuel for each byte of the input, since a request has a line. digits has fuel for
-- the number, since each round divides it by ten. unit_of has six rounds, as a number of 64 bits
-- has seven digits to the base 1024, and float64 has eleven, as such a number has that many bits
-- more than a float64 keeps. quotient_from and the sum of float_seconds have the rounds that the
-- 2^82nds of an int64 of nanoseconds need.
--
-- Not modelled: the errors of the file system in wal/wal.go other than those of a write or a sync of
-- a batch; the sockets and deadlines of cmd/server/server.go; commands of several clients that
-- interleave within a command, between its calls of the store; the decoder of JSON, which is an
-- argument of Load; the parser of the flag package; the logger. The WAL engine of Engine.Logged
-- writes its records one by one, and the text of INFO is an argument of the command handler. Texts
-- are compared without case, and cut at blanks, as ASCII.
pub mod Base
pub mod GoMap
pub mod Strconv
pub mod Store
pub mod Wal
pub mod Engine
pub mod Protocol
pub mod Config
pub mod Commands
pub mod Stats
pub mod Server
pub mod Examples
