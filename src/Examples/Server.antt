-- ===== src/Examples/Server.antt =====
-- The theorems on cmd/server, core/protocol and core/commands at concrete requests.
use warpdb.Base.{
  false≢true, ap, suc, inl, inr, ◌≡◌, refl, false, some, none, List, [], ◌∷◌, ◌++◌, Bytes, codes,
  pos, ◌+ℤ◌, beq, arith, if◌then◌else◌,
}
use warpdb.Store.{Store, new_store, past}
use warpdb.Store.Values.{set}
use warpdb.Store.Slots.{slot}
use warpdb.Store.Slots.Spec.{empty_slot}
use warpdb.Strconv.{atoi, itoa}
use warpdb.Config.{default_config}
use warpdb.Engine.Memory.{memory_engine}
use warpdb.Protocol.{parse, request, write_array, write_integer}
use warpdb.Protocol.RoundTrip.{parse-write_array}
use warpdb.Commands.{Handler, Env, ok_reply}
use warpdb.Commands.Expiry.{whole_seconds}
use warpdb.Commands.Strings.{incrby_command, rename_command}
use warpdb.Commands.Strings.Counters.{incrby_command-adds}
use warpdb.Commands.Strings.Renaming.{rename_command-slot}
use warpdb.Server.{closed, handle_client, serve_all, open_session}
use warpdb.Server.Gate.{GivesPassword, Untouched, serve_all-Untouched}
use warpdb.Server.Shared.{Shared, Event, connects, requests, happen_all, serve_client}
use warpdb.Server.Shared.Access.{Earned, IsHarmless, stranger-IsHarmless}
use warpdb.Engine.Logged.{WalEngine, wal_engine}
use warpdb.Engine.Logged.Recovery.{fresh}
use warpdb.Engine.Logged.Transparent.{IsOver}
use warpdb.Server.Alike.{EndAlike, wal_client-EndAlike}
use warpdb.Server.Requests.{IsServed, written, handle_client-IsServed, handle_client-written}

abbrev k : Bytes
k = codes "k"

abbrev env : Env
env = record { now = pos 5; pick = 0; info = λ n. codes "# Server" }

abbrev holding_7 : Handler Store
holding_7 = record { store = set k (codes "7") new_store; cfg = default_config; total_commands = 0 }

abbrev guarded : Handler Store
guarded = record {
  store = set k (codes "7") new_store;
  cfg = record default_config { require_pass = codes "pw" };
  total_commands = 0;
}

abbrev get_k : List Bytes
get_k = codes "GET" ∷ k ∷ []

abbrev wrong_auth : List Bytes
wrong_auth = codes "auth" ∷ codes "no" ∷ []

abbrev ping : List Bytes
ping = codes "ping" ∷ []

parse-write_array_example :
    parse 100 (write_array get_k ++ codes "rest") ≡ request get_k (codes "rest")
parse-write_array_example =
    parse-write_array 100 get_k (codes "rest") (omega arith) (omega arith)
      ((omega arith, omega arith), ((omega arith, omega arith), tt))

held : (slot k holding_7.store).string ≡ some (itoa (pos 7))
unfolding slot warpdb.GoMap.lookup set warpdb.Store.update warpdb.Store.set_shard
    warpdb.Store.shard_index warpdb.GoMap.insert warpdb.GoMap.delete new_store beq itoa
held = refl

amount : atoi (codes "3") ≡ some (pos (suc 2))
unfolding atoi warpdb.Strconv.read_within warpdb.Strconv.read_digits
amount = refl

incrby_command-adds_example :
    let (h', reply) = incrby_command memory_engine env (k ∷ codes "3" ∷ []) holding_7 in
    (slot k h'.store
      ≡ record (slot k holding_7.store) { string = some (itoa (pos 7 +ℤ pos (suc 2))) })
    × (((j : Bytes) → beq k j ≡ false → slot j h'.store ≡ slot j holding_7.store)
        × (reply ≡ write_integer (pos 7 +ℤ pos (suc 2))))
incrby_command-adds_example =
    incrby_command-adds env k (codes "3") (pos 7) 2 holding_7 amount held (omega arith)
      (unfold ◌+ℤ◌ in omega arith)

live : past env.now (slot k holding_7.store).expiry ≡ false
unfolding slot warpdb.GoMap.lookup set warpdb.Store.update warpdb.Store.set_shard
    warpdb.Store.shard_index warpdb.GoMap.delete new_store
live = refl

rename_command-slot_example :
    let (h', reply) = rename_command memory_engine env (k ∷ codes "k2" ∷ []) holding_7 in
    (slot k h'.store ≡ (
      if beq k k
      then empty_slot
      else if beq (codes "k2") k
      then record (slot (codes "k2") holding_7.store) { string = some (codes "7"); expiry = none }
      else slot k holding_7.store))
    × (reply ≡ ok_reply)
unfolding itoa
rename_command-slot_example =
    rename_command-slot env k (codes "k2") (codes "7") holding_7 k held live

get_refused : GivesPassword (codes "pw") get_k → ⊥
unfolding beq
get_refused (name, given) = false≢true (ap (λ x. beq x (codes "AUTH")) name)

auth_refused : GivesPassword (codes "pw") wrong_auth → ⊥
unfolding beq
auth_refused (name, given) = false≢true (ap (λ x. beq x (codes "pw")) given)

serve_all-Untouched_example :
    Untouched memory_engine
      (open_session guarded)
      (serve_all memory_engine (λ n. env) 0 [] (get_k ∷ wrong_auth ∷ []) (open_session guarded)).0
serve_all-Untouched_example =
    serve_all-Untouched memory_engine (λ n. env) 0 [] (get_k ∷ wrong_auth ∷ [])
      (open_session guarded) locked (get_refused, (auth_refused, tt))
  where
    locked : beq (codes "pw") [] ≡ false
    locked = unfold beq in refl

handle_client-IsServed_example :
    IsServed memory_engine
      (λ n. env)
      100
      0
      []
      (codes "*1 garbage")
      (open_session holding_7)
      (handle_client memory_engine (λ n. env) 100 (codes "*1 garbage") holding_7)
handle_client-IsServed_example =
    handle_client-IsServed memory_engine (λ n. env) 100 (codes "*1 garbage") holding_7

abbrev on_wal : Handler WalEngine
on_wal = record { store = fresh; cfg = default_config; total_commands = 0 }

abbrev on_memory : Handler Store
on_memory = record { store = new_store; cfg = default_config; total_commands = 0 }

abbrev set_k_7 : List Bytes
set_k_7 = codes "SET" ∷ k ∷ codes "7" ∷ []

wal_client-EndAlike_example :
    EndAlike IsOver
      (handle_client wal_engine (λ n. env) 100 (written (set_k_7 ∷ get_k ∷ [])) on_wal)
      (handle_client memory_engine (λ n. env) 100 (written (set_k_7 ∷ get_k ∷ [])) on_memory)
wal_client-EndAlike_example =
    wal_client-EndAlike (λ n. env) 100 (written (set_k_7 ∷ get_k ∷ [])) on_wal on_memory
      ((refl, refl), (refl, refl))

handle_client-written_example :
    handle_client memory_engine (λ n. env) 100 (written (get_k ∷ [])) holding_7 ≡ (
      let (s, out) =
        serve_all memory_engine (λ n. env) 0 [] (get_k ∷ []) (open_session holding_7) in
      closed s out)
handle_client-written_example =
    handle_client-written memory_engine (λ n. env) 100 (get_k ∷ []) holding_7
      (
        (
          omega arith,
          (omega arith, ((omega arith, omega arith), ((omega arith, omega arith), tt))),
        ),
        tt,
      )

-- Two clients connect to a server with a password, and the second gives it.
abbrev nobody : Shared Store
nobody = record { handler = guarded; authenticated = λ i. false }

abbrev events : List Event
events = connects 1 ∷ connects 2 ∷ requests 2 env (codes "AUTH" ∷ codes "pw" ∷ []) ∷ []

first_is_a_stranger : Earned memory_engine 1 nobody events → ⊥
first_is_a_stranger (inl (same, no_password)) = cc
first_is_a_stranger (inr (inl (same, no_password))) = absurd (omega arith)
first_is_a_stranger (inr (inr (inl (same, gives)))) = absurd (omega arith)
first_is_a_stranger (inr (inr (inr never))) = never

stranger-IsHarmless_example :
    IsHarmless memory_engine
      (happen_all memory_engine events nobody)
      (serve_client memory_engine 1 env
        (codes "DEL" ∷ k ∷ codes "j" ∷ [])
        (happen_all memory_engine events nobody)).0
stranger-IsHarmless_example =
    stranger-IsHarmless memory_engine nobody events 1 env (codes "DEL" ∷ k ∷ codes "j" ∷ [])
      (λ j. refl) first_is_a_stranger (λ gives. gives)

-- TTL answers in whole seconds, and 2^24 seconds on, a nanosecond short of one is rounded up.
ttl_1500_ms : whole_seconds (pos 1_500_000_000) ≡ pos 1
unfolding whole_seconds warpdb.Stats.round_even
ttl_1500_ms = refl

ttl_short_of_10 : whole_seconds (pos 9_999_999_999) ≡ pos 9
unfolding whole_seconds warpdb.Stats.round_even
ttl_short_of_10 = refl

ttl_rounded_up : whole_seconds (pos 16_777_216_999_999_999) ≡ pos 16_777_217
unfolding whole_seconds warpdb.Stats.round_even
ttl_rounded_up = refl
