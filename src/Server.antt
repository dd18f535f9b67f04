-- ===== src/Server.antt =====
-- cmd/server/server.go: one client's session, which handleClient runs: the password gate in front of
-- the command handler, and the loop over the client's requests. No other client runs in between.
-- `Accept` is the accept loop of Serve, and `Start` what comes before it.
pub mod Gate
pub mod Requests
pub mod Accept
pub mod Start
pub mod Shared
pub mod Alike
use warpdb.Base.{
  ℕ, zero, suc, ◌+◌, Bool, true, false, ◌||◌, ◌&&◌, List, [], ◌∷◌, ◌++◌, Bytes, codes, beq, length,
  ◌==◌, if◌then◌else◌,
}
use warpdb.Engine.{StorageEngine}
use warpdb.Protocol.{write_error, Parsed, request, malformed, panicked, parse}
use warpdb.Commands.{Handler, Env, to_upper, ok_reply}
use warpdb.Commands.Handle.{handle}

-- What handleClient keeps for its client, and the handler, whose configuration is the server's.
pub record Session (S : Type 0) : Type 0 where
  pub handler : Handler S
  pub authenticated : Bool

-- `srv.cfg.RequirePass == ""`
abbrev pub open_session : {S : Type 0} → Handler S → Session S
open_session h = record { handler = h; authenticated = beq h.cfg.require_pass [] }

-- isUnauthenticatedCommand
unfoldable pub is_unauthenticated_command : List Bytes → Bool
is_unauthenticated_command [] = false
is_unauthenticated_command (name ∷ _) =
    let cmd = to_upper name in
    beq cmd (codes "PING") || (beq cmd (codes "QUIT") || beq cmd (codes "COMMAND"))

unfoldable pub is_auth : List Bytes → Bool
is_auth [] = false
is_auth (name ∷ _) = beq (to_upper name) (codes "AUTH")

-- `len(args) == 2 && args[1] == srv.cfg.RequirePass`
unfoldable pub has_password : Bytes → List Bytes → Bool
has_password password (_ ∷ given ∷ []) = beq given password
has_password password _ = false

-- What a session leaves behind when its input ends: the connection is closed after a request that
-- cannot be read, and a panic of Parse ends the server. `out_of_fuel` belongs to the model alone.
pub data Served (S : Type 0) : Type 0 where
  closed : Session S → Bytes → Served S
  crashed : Bytes → Served S
  out_of_fuel : Served S

module _ {S : Type 0} (engine : StorageEngine S) where
  -- handler.Handle
  abbrev pub handled : Env → List Bytes → Session S → Session S × Bytes
  handled env args s =
      let (h, out) = handle engine env args s.handler in (record s { handler = h }, out)

  -- One round of the loop of handleClient, with the request read.
  unfoldable pub serve_request : Env → List Bytes → Session S → Session S × Bytes
  serve_request env args s =
      if s.authenticated
      then handled env args s
      else if is_auth args
      then if has_password s.handler.cfg.require_pass args
        then (record s { authenticated = true }, ok_reply)
        else (s, write_error (codes "ERR invalid password"))
      else if is_unauthenticated_command args
      then handled env args s
      else (s, write_error (codes "NOAUTH Authentication required."))

  -- The rest of a round, after Parse: `next` is the rest of the loop.
  unfoldable pub serve_parsed :
      (Bytes → Bytes → Session S → Served S) → Env → Bytes → Parsed → Session S → Served S
  serve_parsed next env out malformed s = closed s out
  serve_parsed next env out panicked s = crashed out
  serve_parsed next env out (request args rest) s =
      let (s', reply) = serve_request env args s in next (out ++ reply) rest s'

  -- The loop of handleClient on all that the client sends. `envs n` is the environment of the
  -- request number `n`, `out` what has been written so far.
  unfoldable pub serve_loop : (ℕ → Env) → ℕ → ℕ → ℕ → Bytes → Bytes → Session S → Served S
  serve_loop envs limit n zero out input s = out_of_fuel
  serve_loop envs limit n (suc fuel) out input s =
      serve_parsed (serve_loop envs limit (n + 1) fuel) (envs n) out (parse limit input) s

  -- handleClient. A request has a byte at least, so the length of the input is enough fuel.
  unfoldable pub handle_client : (ℕ → Env) → ℕ → Bytes → Handler S → Served S
  handle_client envs limit input h =
      serve_loop envs limit 0 (suc (length input)) [] input (open_session h)

  -- The requests of a list, one after the other.
  unfoldable pub serve_all :
      (ℕ → Env) → ℕ → Bytes → List (List Bytes) → Session S → Session S × Bytes
  serve_all envs n out [] s = (s, out)
  serve_all envs n out (args ∷ requests) s =
      let (s', reply) = serve_request (envs n) args s in
      serve_all envs (n + 1) (out ++ reply) requests s'
