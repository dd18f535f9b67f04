-- ===== src/Examples/Serve.antt =====
-- The theorems on internal/stats, internal/config and the accept loop of cmd/server at concrete
-- inputs.
use warpdb.Base.{
  ◌≡◌, refl, Bool, true, false, some, List, [], ◌∷◌, ◌++◌, Bytes, codes, pos, arith, negsuc,
}
use warpdb.Stats.{format_bytes}
use warpdb.Stats.Units.{IsFormatted, format_bytes-IsFormatted}
use warpdb.Config.{
  Config, default_config, Opened, absent, load, Flag, port_flag, wal_flag, main_config,
}
use warpdb.Config.Flags.{overridden, main_config-overridden}
use warpdb.Server.Accept.{
  Listening, listening, deciding, stopped, received, serving, receive, count, admit, Run, done,
  loops, others, accepts, admits, stops, receives, counts,
}
use warpdb.Server.Accept.Semaphore.{IsGuarded, listening-IsGuarded}
use warpdb.Server.Accept.Shutdown.{Ends, Run-Ends}
use warpdb.Server.Start.{serve, exits, crashes}

format_kilobytes : format_bytes 1536 ≡ some (codes "1.5KB")
unfolding format_bytes warpdb.Stats.unit_of warpdb.Stats.unit_loop warpdb.Stats.tenths
    warpdb.Stats.float64 warpdb.Stats.float_from warpdb.Stats.round_even warpdb.Stats.prefix_of
    warpdb.Strconv.itoa_nat warpdb.Strconv.digits
format_kilobytes = refl

-- The largest number of bytes below a megabyte.
format_last : format_bytes 1048575 ≡ some (codes "1024.0KB")
unfolding format_bytes warpdb.Stats.unit_of warpdb.Stats.unit_loop warpdb.Stats.tenths
    warpdb.Stats.float64 warpdb.Stats.float_from warpdb.Stats.round_even warpdb.Stats.prefix_of
    warpdb.Strconv.itoa_nat warpdb.Strconv.digits
format_last = refl

format_bytes-IsFormatted_example : IsFormatted 1536
format_bytes-IsFormatted_example = format_bytes-IsFormatted 1536 (omega arith) (omega arith)

-- No file is there.
abbrev no_files : Bytes → Opened
no_files path = absent

abbrev keeps : Bytes → Config → Config × Bool
keeps text cfg = (cfg, true)

abbrev flags : List Flag
flags = port_flag (pos 7000) ∷ wal_flag (codes "log") ∷ port_flag (pos 7001) ∷ []

main_config-overridden_example :
    main_config keeps no_files flags ≡ some (overridden flags default_config)
main_config-overridden_example =
    main_config-overridden keeps no_files flags default_config (unfold load in refl)

-- One client is accepted and comes into its session.
abbrev accepted : Listening
accepted = admit (record listening { loop = deciding })

abbrev received_client : Listening
received_client = record accepted { clients = [] ++ received ∷ []; stats = receive accepted.stats }

abbrev served_client : Listening
served_client = record received_client {
  clients = [] ++ serving ∷ [];
  stats = count received_client.stats;
}

one_client : Run 1 listening 2 served_client
unfolding admit
one_client =
    loops listening (record listening { loop = deciding }) served_client 1
      (accepts listening refl refl)
      (loops (record listening { loop = deciding }) accepted served_client 0
        (admits (record listening { loop = deciding }) refl (omega arith))
        (others accepted received_client served_client 0 (receives accepted [] [] refl) (
          others received_client served_client served_client 0 (counts received_client [] [] refl)
            (done served_client))))

listening-IsGuarded_example : IsGuarded 1 served_client
listening-IsGuarded_example = listening-IsGuarded 1 (omega arith) served_client 2 one_client

-- The shutdown has begun while that client is served.
abbrev closing : Listening
closing = record served_client { cancelled = true; ln_closed = true }

abbrev returned : Listening
returned = record closing { loop = stopped }

Run-Ends_example : Ends 1 1 returned
Run-Ends_example =
    Run-Ends 1 closing returned 1 (record { signalled = refl; closed = refl })
      (loops closing returned returned 0 (stops closing (unfold admit in refl) refl)
        (done returned))

-- Serve on an empty directory, without a port and with a negative limit.
no_port : serve (λ p. false) 0 (λ n. []) [] default_config ≡ exits
unfolding serve warpdb.Server.Start.after_engine warpdb.Engine.Logged.Restart.new_wal_engine
    warpdb.Engine.Logged.Restart.started warpdb.Wal.Replay.replay
    warpdb.Wal.Reader.Loop.read_segments warpdb.Wal.Reader.Loop.read_segment
    warpdb.Wal.Reader.Loop.read_loop warpdb.Wal.Reader.Loop.read_step warpdb.Wal.Reader.decode
    warpdb.Wal.Log.open_wal warpdb.Wal.Log.last_segment warpdb.Wal.Log.rotate
    warpdb.Wal.Log.write_manifest warpdb.Wal.Log.lists warpdb.Wal.Log.segments
no_port = refl

negative_limit :
    serve (λ p. true) 0 (λ n. []) [] (record default_config { max_clients = negsuc 0 }) ≡ crashes
unfolding serve warpdb.Server.Start.after_engine warpdb.Server.Start.with_semaphore
    warpdb.Engine.Logged.Restart.new_wal_engine warpdb.Engine.Logged.Restart.started
    warpdb.Wal.Replay.replay warpdb.Wal.Reader.Loop.read_segments
    warpdb.Wal.Reader.Loop.read_segment warpdb.Wal.Reader.Loop.read_loop
    warpdb.Wal.Reader.Loop.read_step warpdb.Wal.Reader.decode warpdb.Wal.Log.open_wal
    warpdb.Wal.Log.last_segment warpdb.Wal.Log.rotate warpdb.Wal.Log.write_manifest
    warpdb.Wal.Log.lists warpdb.Wal.Log.segments
negative_limit = refl
