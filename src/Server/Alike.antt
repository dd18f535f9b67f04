-- ===== src/Server/Alike.antt =====
-- cmd/server/server.go: one client's session over two engines of which one answers as the other, and
-- so over the WAL engine, whose writes succeed, and the memory engine.
use warpdb.Base.{
  ℕ, zero, suc, ◌+◌, ◌≡◌, refl, ap, sym, false≢true, Bool, true, false, List, [], ◌++◌, Bytes, beq,
  length, if◌then◌else◌,
}
use mathlib.Core.Path.{subst}
use warpdb.Store.{Store}
use warpdb.Engine.{StorageEngine}
use warpdb.Engine.Simulation.{Simulates}
use warpdb.Engine.Memory.{memory_engine}
use warpdb.Engine.Logged.{WalEngine, wal_engine}
use warpdb.Engine.Logged.Transparent.{IsOver, wal_engine-Simulates}
use warpdb.Protocol.{Parsed, request, malformed, panicked, parse}
use warpdb.Commands.{Handler, Env}
use warpdb.Commands.Alike.{AreAlike, AnswerAlike}
use warpdb.Commands.Alike.Handling.{handle-AnswerAlike}
use warpdb.Server.{
  Session, Served, closed, crashed, out_of_fuel, is_auth, has_password, is_unauthenticated_command,
  serve_request, serve_parsed, serve_loop, handle_client, handled,
}

-- Two sessions over handlers that correspond, both let in or both not.
abbrev pub AreAlikeSessions : {S T : Type 0} (R : S → T → Type 0) → Session S → Session T → Type 0
AreAlikeSessions R s t = AreAlike R s.handler t.handler × (s.authenticated ≡ t.authenticated)

-- The sessions ended in the same way, and the same bytes were written.
abbrev pub EndAlike : {S T : Type 0} (R : S → T → Type 0) → Served S → Served T → Type 0
EndAlike R (closed s x) (closed t y) = AreAlikeSessions R s t × (x ≡ y)
EndAlike R (crashed x) (crashed y) = x ≡ y
EndAlike R out_of_fuel out_of_fuel = Unit {0}
EndAlike R _ _ = ⊥

-- A round leaves sessions that correspond and writes the same bytes.
unfoldable RoundAlike :
    {S T : Type 0} (R : S → T → Type 0) → Session S × Bytes → Session T × Bytes → Type 0
RoundAlike R (s, x) (t, y) = AreAlikeSessions R s t × (x ≡ y)

module _ {S T : Type 0} (R : S → T → Type 0) where
  if-RoundAlike :
      (c d : Bool) (x y : Session S × Bytes) (x' y' : Session T × Bytes)
      → c ≡ d
      → RoundAlike R x x'
      → RoundAlike R y y'
      → RoundAlike R (if c then x else y) (if d then x' else y')
  if-RoundAlike true true x y x' y' same first second = first
  if-RoundAlike false false x y x' y' same first second = second
  if-RoundAlike true false x y x' y' same first second = absurd (false≢true (sym same))
  if-RoundAlike false true x y x' y' same first second = absurd (false≢true same)

  kept-RoundAlike :
      (s : Session S) (t : Session T) (out : Bytes)
      → AreAlikeSessions R s t
      → RoundAlike R (s, out) (t, out)
  unfolding RoundAlike
  kept-RoundAlike s t out r = (r, refl)

  let_in-RoundAlike :
      (s : Session S) (t : Session T) (out : Bytes)
      → AreAlikeSessions R s t
      → RoundAlike R
          (record s { authenticated = true }, out)
          (record t { authenticated = true }, out)
  unfolding RoundAlike
  let_in-RoundAlike s t out (r, _) = ((r, refl), refl)

  module _ (a : StorageEngine S) (b : StorageEngine T) (sim : Simulates R a b) where
    handled-RoundAlike :
        (env : Env) (args : List Bytes) (s : Session S) (t : Session T)
        → AreAlikeSessions R s t
        → RoundAlike R (handled a env args s) (handled b env args t)
    unfolding AnswerAlike RoundAlike
    handled-RoundAlike env args s t (r, same) =
        let (r', out) = handle-AnswerAlike R a b sim env args s.handler t.handler r in
        ((r', same), out)

    serve_request-RoundAlike :
        (env : Env) (args : List Bytes) (s : Session S) (t : Session T)
        → AreAlikeSessions R s t
        → RoundAlike R (serve_request a env args s) (serve_request b env args t)
    unfolding serve_request
    serve_request-RoundAlike env args s t r =
        if-RoundAlike _ _ _ _ _ _ r.1 (handled-RoundAlike env args s t r) (
          if-RoundAlike (is_auth args) _ _ _ _ _ refl
            (if-RoundAlike _ _ _ _ _ _ (ap (λ c. has_password c.require_pass args) r.0.1.0)
              (let_in-RoundAlike s t _ r) (kept-RoundAlike s t _ r))
            (if-RoundAlike (is_unauthenticated_command args) _ _ _ _ _ refl
              (handled-RoundAlike env args s t r) (kept-RoundAlike s t _ r)))

    serve_parsed-EndAlike :
        (next : Bytes → Bytes → Session S → Served S) (next' : Bytes → Bytes → Session T → Served T)
        → ((out rest : Bytes) (s : Session S) (t : Session T)
            → AreAlikeSessions R s t
            → EndAlike R (next out rest s) (next' out rest t))
        → (env : Env) (out : Bytes) (p : Parsed) (s : Session S) (t : Session T)
        → AreAlikeSessions R s t
        → EndAlike R (serve_parsed a next env out p s) (serve_parsed b next' env out p t)
    unfolding serve_parsed RoundAlike
    serve_parsed-EndAlike next next' alike env out malformed s t r = (r, refl)
    serve_parsed-EndAlike next next' alike env out panicked s t r = refl
    serve_parsed-EndAlike next next' alike env out (request args rest) s t r =
        let (r', same) = serve_request-RoundAlike env args s t r in
        subst
          (λ reply.
            EndAlike R (serve_parsed a next env out (request args rest) s)
              (next' (out ++ reply) rest (serve_request b env args t).0))
          same (alike (out ++ (serve_request a env args s).1) rest _ _ r')

    serve_loop-EndAlike :
        (envs : ℕ → Env) (limit n fuel : ℕ) (out input : Bytes) (s : Session S) (t : Session T)
        → AreAlikeSessions R s t
        → EndAlike R
            (serve_loop a envs limit n fuel out input s)
            (serve_loop b envs limit n fuel out input t)
    unfolding serve_loop
    serve_loop-EndAlike envs limit n zero out input s t r = tt
    serve_loop-EndAlike envs limit n (suc fuel) out input s t r =
        serve_parsed-EndAlike _ _ (λ out rest. serve_loop-EndAlike envs limit (n + 1) fuel out rest)
          (envs n) out (parse limit input) s t r

    handle_client-EndAlike :
        (envs : ℕ → Env) (limit : ℕ) (input : Bytes) (h : Handler S) (k : Handler T)
        → AreAlike R h k
        → EndAlike R (handle_client a envs limit input h) (handle_client b envs limit input k)
    unfolding handle_client
    handle_client-EndAlike envs limit input h k r =
        serve_loop-EndAlike envs limit 0 (suc (length input)) [] input _ _
          (r, ap (λ c. beq c.require_pass []) r.1.0)

-- On the WAL engine, none of whose log writes is going to fail, and on the memory engine, with the
-- same memory, configuration and count of commands, whatever a client sends, its session ends in
-- the same way, with the same bytes written, and leaves the same memory and configuration.
pub wal_client-EndAlike :
    (envs : ℕ → Env) (limit : ℕ) (input : Bytes) (h : Handler WalEngine) (k : Handler Store)
    → AreAlike IsOver h k
    → EndAlike IsOver
        (handle_client wal_engine envs limit input h)
        (handle_client memory_engine envs limit input k)
wal_client-EndAlike = handle_client-EndAlike IsOver wal_engine memory_engine wal_engine-Simulates
