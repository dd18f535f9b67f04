-- ===== src/Commands/Alike/Handling.antt =====
-- Handle in core/commands/commands.go over two engines that answer alike.
use warpdb.Base.{◌+◌, refl, ap, List, [], ◌∷◌, Bytes}
use warpdb.Engine.{StorageEngine}
use warpdb.Engine.Simulation.{Simulates}
use warpdb.Commands.{Handler, Env, to_upper}
use warpdb.Commands.Alike.{AreAlike, AnswerAlike, reply-AnswerAlike, if-AnswerAlike}
use warpdb.Commands.Handle.{dispatch, handle}
use warpdb.Commands.Alike.Admin.{
  config_command-AnswerAlike, ping_command-AnswerAlike, info_command-AnswerAlike,
  flushall_command-AnswerAlike, dbsize_command-AnswerAlike, command_command-AnswerAlike,
  expire_command-AnswerAlike, ttl_command-AnswerAlike, persist_command-AnswerAlike,
}
use warpdb.Commands.Alike.Strings.{
  set_command-AnswerAlike, get_command-AnswerAlike, del_command-AnswerAlike,
  exists_command-AnswerAlike, incr_command-AnswerAlike, decr_command-AnswerAlike,
  incrby_command-AnswerAlike, decrby_command-AnswerAlike, rename_command-AnswerAlike,
  append_command-AnswerAlike, type_command-AnswerAlike, strlen_command-AnswerAlike,
  mset_command-AnswerAlike, mget_command-AnswerAlike, keys_command-AnswerAlike,
  randomkey_command-AnswerAlike,
}
use warpdb.Commands.Alike.Lists.{
  lpush_command-AnswerAlike, rpush_command-AnswerAlike, lpop_command-AnswerAlike,
  rpop_command-AnswerAlike, llen_command-AnswerAlike, lrange_command-AnswerAlike,
  lindex_command-AnswerAlike,
}
use warpdb.Commands.Alike.Sets.{
  sadd_command-AnswerAlike, srem_command-AnswerAlike, smembers_command-AnswerAlike,
  sismember_command-AnswerAlike, scard_command-AnswerAlike, spop_command-AnswerAlike,
  srandmember_command-AnswerAlike,
}
use warpdb.Commands.Alike.Hashes.{
  hset_command-AnswerAlike, hget_command-AnswerAlike, hdel_command-AnswerAlike,
  hgetall_command-AnswerAlike, hkeys_command-AnswerAlike, hvals_command-AnswerAlike,
  hexists_command-AnswerAlike, hlen_command-AnswerAlike, hmset_command-AnswerAlike,
  hmget_command-AnswerAlike,
}

-- The lemma of each command.
ruleset commands_alike = (
  set_command-AnswerAlike, get_command-AnswerAlike, del_command-AnswerAlike,
  exists_command-AnswerAlike, incr_command-AnswerAlike, decr_command-AnswerAlike,
  incrby_command-AnswerAlike, decrby_command-AnswerAlike, rename_command-AnswerAlike,
  append_command-AnswerAlike, type_command-AnswerAlike, strlen_command-AnswerAlike,
  mset_command-AnswerAlike, mget_command-AnswerAlike, keys_command-AnswerAlike,
  randomkey_command-AnswerAlike, lpush_command-AnswerAlike, rpush_command-AnswerAlike,
  lpop_command-AnswerAlike, rpop_command-AnswerAlike, llen_command-AnswerAlike,
  lrange_command-AnswerAlike, lindex_command-AnswerAlike, sadd_command-AnswerAlike,
  srem_command-AnswerAlike, smembers_command-AnswerAlike, sismember_command-AnswerAlike,
  scard_command-AnswerAlike, spop_command-AnswerAlike, srandmember_command-AnswerAlike,
  hset_command-AnswerAlike, hget_command-AnswerAlike, hdel_command-AnswerAlike,
  hgetall_command-AnswerAlike, hkeys_command-AnswerAlike, hvals_command-AnswerAlike,
  hexists_command-AnswerAlike, hlen_command-AnswerAlike, hmset_command-AnswerAlike,
  hmget_command-AnswerAlike, config_command-AnswerAlike, ping_command-AnswerAlike,
  info_command-AnswerAlike, flushall_command-AnswerAlike, dbsize_command-AnswerAlike,
  command_command-AnswerAlike, expire_command-AnswerAlike, ttl_command-AnswerAlike,
  persist_command-AnswerAlike,
)

module _ {S T : Type 0} (R : S → T → Type 0) (a : StorageEngine S) (b : StorageEngine T)
    (sim : Simulates R a b) (env : Env) where
  dispatch-AnswerAlike :
      (cmd name : Bytes) (rest : List Bytes) (h : Handler S) (k : Handler T)
      → AreAlike R h k
      → AnswerAlike R (dispatch a env cmd name rest h) (dispatch b env cmd name rest k)
  unfolding dispatch
  dispatch-AnswerAlike cmd name rest h k r =
      search (if-AnswerAlike R, commands_alike, reply-AnswerAlike R h k r refl) depth 120 fits 5000

  -- Over engines that answer alike, Handle leaves handlers that correspond and writes the same bytes.
  pub handle-AnswerAlike :
      (args : List Bytes) (h : Handler S) (k : Handler T)
      → AreAlike R h k
      → AnswerAlike R (handle a env args h) (handle b env args k)
  unfolding handle
  handle-AnswerAlike [] h k r = reply-AnswerAlike R h k r refl
  handle-AnswerAlike (name ∷ rest) h k (r, (cfg, total)) =
      dispatch-AnswerAlike (to_upper name) name rest _ _ (r, (cfg, ap (λ n. n + 1) total))
