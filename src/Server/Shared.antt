-- ===== src/Server/Shared.antt =====
-- cmd/server/server.go: the sessions of several clients at once, which share the engine, the
-- configuration and the counters of the handler. A round of one client's loop is one event, so that
-- no other command runs within a command.
pub mod Access
use warpdb.Base.{ℕ, Bool, List, [], ◌∷◌, Bytes, beq, ◌==◌, if◌then◌else◌, foldl}
use warpdb.Engine.{StorageEngine}
use warpdb.Commands.{Handler, Env}
use warpdb.Server.{Session, serve_request}

-- What the clients share, and the variable `authenticated` of each client, by the client's number.
pub record Shared (S : Type 0) : Type 0 where
  pub handler : Handler S
  pub authenticated : ℕ → Bool

-- A client connects, or a request of it is served.
pub data Event : Type 0 where
  connects : ℕ → Event
  requests : ℕ → Env → List Bytes → Event

unfoldable pub set_flag : ℕ → Bool → (ℕ → Bool) → ℕ → Bool
set_flag i b flags j = if j == i then b else flags j

module _ {S : Type 0} (engine : StorageEngine S) where
  -- The session of one client.
  abbrev session_of : ℕ → Shared S → Session S
  session_of i s = record { handler = s.handler; authenticated = s.authenticated i }

  -- The state after a round of the client's loop, and what is written to that client.
  unfoldable pub serve_client : ℕ → Env → List Bytes → Shared S → Shared S × Bytes
  serve_client i env args s =
      let (t, out) = serve_request engine env args (session_of i s) in
      (
        record { handler = t.handler; authenticated = set_flag i t.authenticated s.authenticated },
        out,
      )

  -- An event, without what is written.
  unfoldable pub happen : Shared S → Event → Shared S
  happen s (connects i) = record s {
    authenticated = set_flag i (beq s.handler.cfg.require_pass []) s.authenticated;
  }
  happen s (requests i env args) = (serve_client i env args s).0

  abbrev pub happen_all : List Event → Shared S → Shared S
  happen_all events s = foldl happen s events
