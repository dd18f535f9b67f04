-- ===== src/Commands.antt =====
-- core/commands/commands.go: the state of a Handler, what every command shares, and the children with
-- the commands by kind and the dispatch. Texts are taken as ASCII where their case matters.
pub mod Admin
pub mod Strings
pub mod Expiry
pub mod Lists
pub mod Sets
pub mod Hashes
pub mod Handle
pub mod Alike
use Prim.Native.String.{String}
use warpdb.Base.{
  ℕ, ◌+◌, ◌-◌, Bool, ◌&&◌, Option, none, some, List, [], ◌∷◌, ◌++◌, map, Bytes, codes, beq, ℤ, pos,
  leb, if◌then◌else◌,
}
use warpdb.Store.{Result, ok, fail}
use warpdb.Engine.{Answer, answered, log_failed}
use warpdb.Config.{Config}
use warpdb.Protocol.{write_simple_string, write_error, write_integer, write_bulk_string, write_null}

-- Handler over an engine with the state `S`: what the engine holds, the configuration that the
-- handlers share, and the count of commands.
pub record Handler (S : Type 0) : Type 0 where
  pub store : S
  pub cfg : Config
  pub total_commands : ℕ

-- What a call finds outside the handler: the clock, the choice that Go's map iteration makes, and
-- the text that INFO shows for a number of keys.
pub record Env : Type 0 where
  pub now : ℤ
  pub pick : ℕ
  pub info : ℕ → Bytes

-- A command: the new state, and the bytes written to the client.
abbrev pub Reply : Type 0 → Type 0
Reply S = Handler S × Bytes

-- strings.ToUpper and strings.ToLower
abbrev pub upper_byte : ℕ → ℕ
upper_byte c = if leb b'a' c && leb c b'z' then c - 32 else c

abbrev pub lower_byte : ℕ → ℕ
lower_byte c = if leb b'A' c && leb c b'Z' then c + 32 else c

abbrev pub to_upper : Bytes → Bytes
to_upper = map upper_byte

abbrev pub to_lower : Bytes → Bytes
to_lower = map lower_byte

abbrev pub ok_reply : Bytes
ok_reply = write_simple_string (codes "OK")

abbrev pub wrong_arity : String → Bytes
wrong_arity name = write_error (codes "ERR wrong number of arguments for " ++ codes name)

abbrev pub not_integer : Bytes
not_integer = write_error (codes "ERR value is not an integer or out of range")

abbrev pub integer : ℕ → Bytes
integer n = write_integer (pos n)

abbrev pub one_or_zero : Bool → Bytes
one_or_zero b = if b then integer 1 else integer 0

-- `if err != nil { WriteNull } else { WriteBulkString }`
abbrev pub bulk_or_null : Result Bytes → Bytes
bulk_or_null (ok v) = write_bulk_string v
bulk_or_null (fail e) = write_null

-- The new state of the engine, and a reply made of its result.
abbrev pub with_store {ℓ} : {S : Type 0} {A : Type ℓ} → Handler S → (A → Bytes) → S × A → Reply S
with_store h show (s, a) = (record h { store = s }, show a)
