-- ===== src/Commands/Sets.antt =====
-- The set commands of core/commands/commands.go.
use warpdb.Base.{List, [], ◌∷◌, Bytes}
use warpdb.Engine.{StorageEngine}
use warpdb.Protocol.{write_array}
use warpdb.Commands.{
  Handler, Env, Reply, wrong_arity, integer, one_or_zero, bulk_or_null, with_store,
}

module _ {S : Type 0} (engine : StorageEngine S) (env : Env) where
  open engine use {sadd, srem, smembers, sis_member, scard, spop, srand_member}

  unfoldable pub sadd_command : List Bytes → Handler S → Reply S
  sadd_command (key ∷ m ∷ ms) h = with_store h integer (sadd key (m ∷ ms) h.store)
  sadd_command _ h = (h, wrong_arity "SADD")

  unfoldable pub srem_command : List Bytes → Handler S → Reply S
  srem_command (key ∷ m ∷ ms) h = with_store h integer (srem key (m ∷ ms) h.store)
  srem_command _ h = (h, wrong_arity "SREM")

  unfoldable pub smembers_command : List Bytes → Handler S → Reply S
  smembers_command (key ∷ []) h = (h, write_array (smembers key h.store))
  smembers_command _ h = (h, wrong_arity "SMEMBERS")

  unfoldable pub sismember_command : List Bytes → Handler S → Reply S
  sismember_command (key ∷ m ∷ []) h = (h, one_or_zero (sis_member key m h.store))
  sismember_command _ h = (h, wrong_arity "SISMEMBER")

  unfoldable pub scard_command : List Bytes → Handler S → Reply S
  scard_command (key ∷ []) h = (h, integer (scard key h.store))
  scard_command _ h = (h, wrong_arity "SCARD")

  unfoldable pub spop_command : List Bytes → Handler S → Reply S
  spop_command (key ∷ []) h = with_store h bulk_or_null (spop env.pick key h.store)
  spop_command _ h = (h, wrong_arity "SPOP")

  unfoldable pub srandmember_command : List Bytes → Handler S → Reply S
  srandmember_command (key ∷ []) h = (h, bulk_or_null (srand_member env.pick key h.store))
  srandmember_command _ h = (h, wrong_arity "SRANDMEMBER")
