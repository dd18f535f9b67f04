-- ===== src/Commands/Handle.antt =====
-- Handle in core/commands/commands.go: the choice of the command, and the count of commands.
use warpdb.Base.{◌+◌, List, [], ◌∷◌, ◌++◌, Bytes, codes, beq, if◌then◌else◌}
use warpdb.Engine.{StorageEngine}
use warpdb.Protocol.{write_error}
use warpdb.Commands.{Handler, Env, Reply, to_upper}
use warpdb.Commands.Admin.{
  ping_command, info_command, config_command, flushall_command, dbsize_command, command_command,
}
use warpdb.Commands.Strings.{
  set_command, get_command, del_command, exists_command, incr_command, decr_command, incrby_command,
  decrby_command, keys_command, rename_command, type_command, append_command, strlen_command,
  mset_command, mget_command, randomkey_command,
}
use warpdb.Commands.Expiry.{expire_command, ttl_command, persist_command}
use warpdb.Commands.Lists.{
  lpush_command, rpush_command, lpop_command, rpop_command, llen_command, lrange_command,
  lindex_command,
}
use warpdb.Commands.Sets.{
  sadd_command, srem_command, smembers_command, sismember_command, scard_command, spop_command,
  srandmember_command,
}
use warpdb.Commands.Hashes.{
  hset_command, hget_command, hdel_command, hgetall_command, hkeys_command, hvals_command,
  hexists_command, hlen_command, hmset_command, hmget_command,
}

-- Every message of an unknown command shows it as the client wrote it.
abbrev unknown_command : Bytes → Bytes
unknown_command name = write_error (codes "ERR unknown command '" ++ (name ++ codes "'"))

module _ {S : Type 0} (engine : StorageEngine S) (env : Env) where
  -- The switch of Handle: `cmd` is the name in upper case, `name` as it was written, `rest` what
  -- follows it.
  unfoldable pub dispatch : Bytes → Bytes → List Bytes → Handler S → Reply S
  dispatch cmd name rest h =
      if beq cmd (codes "PING")
      then ping_command rest h
      else if beq cmd (codes "INFO")
      then info_command engine env h
      else if beq cmd (codes "CONFIG")
      then config_command rest h
      else if beq cmd (codes "SET")
      then set_command engine env rest h
      else if beq cmd (codes "GET")
      then get_command engine env rest h
      else if beq cmd (codes "DEL")
      then del_command engine env rest h
      else if beq cmd (codes "EXISTS")
      then exists_command engine env rest h
      else if beq cmd (codes "INCR")
      then incr_command engine env rest h
      else if beq cmd (codes "DECR")
      then decr_command engine env rest h
      else if beq cmd (codes "INCRBY")
      then incrby_command engine env rest h
      else if beq cmd (codes "DECRBY")
      then decrby_command engine env rest h
      else if beq cmd (codes "EXPIRE")
      then expire_command engine env rest h
      else if beq cmd (codes "TTL")
      then ttl_command engine env rest h
      else if beq cmd (codes "PERSIST")
      then persist_command engine env rest h
      else if beq cmd (codes "KEYS")
      then keys_command engine env rest h
      else if beq cmd (codes "FLUSHALL")
      then flushall_command engine h
      else if beq cmd (codes "DBSIZE")
      then dbsize_command engine h
      else if beq cmd (codes "COMMAND")
      then command_command engine h
      else if beq cmd (codes "RENAME")
      then rename_command engine env rest h
      else if beq cmd (codes "TYPE")
      then type_command engine env rest h
      else if beq cmd (codes "APPEND")
      then append_command engine env rest h
      else if beq cmd (codes "STRLEN")
      then strlen_command engine env rest h
      else if beq cmd (codes "MSET")
      then mset_command engine env rest h
      else if beq cmd (codes "MGET")
      then mget_command engine env rest h
      else if beq cmd (codes "RANDOMKEY")
      then randomkey_command engine env h
      else if beq cmd (codes "LPUSH")
      then lpush_command engine rest h
      else if beq cmd (codes "RPUSH")
      then rpush_command engine rest h
      else if beq cmd (codes "LPOP")
      then lpop_command engine rest h
      else if beq cmd (codes "RPOP")
      then rpop_command engine rest h
      else if beq cmd (codes "LLEN")
      then llen_command engine rest h
      else if beq cmd (codes "LRANGE")
      then lrange_command engine rest h
      else if beq cmd (codes "LINDEX")
      then lindex_command engine rest h
      else if beq cmd (codes "SADD")
      then sadd_command engine env rest h
      else if beq cmd (codes "SREM")
      then srem_command engine env rest h
      else if beq cmd (codes "SMEMBERS")
      then smembers_command engine env rest h
      else if beq cmd (codes "SISMEMBER")
      then sismember_command engine env rest h
      else if beq cmd (codes "SCARD")
      then scard_command engine env rest h
      else if beq cmd (codes "SPOP")
      then spop_command engine env rest h
      else if beq cmd (codes "SRANDMEMBER")
      then srandmember_command engine env rest h
      else if beq cmd (codes "HSET")
      then hset_command engine rest h
      else if beq cmd (codes "HGET")
      then hget_command engine rest h
      else if beq cmd (codes "HDEL")
      then hdel_command engine rest h
      else if beq cmd (codes "HGETALL")
      then hgetall_command engine rest h
      else if beq cmd (codes "HKEYS")
      then hkeys_command engine rest h
      else if beq cmd (codes "HVALS")
      then hvals_command engine rest h
      else if beq cmd (codes "HEXISTS")
      then hexists_command engine rest h
      else if beq cmd (codes "HLEN")
      then hlen_command engine rest h
      else if beq cmd (codes "HMSET")
      then hmset_command engine rest h
      else if beq cmd (codes "HMGET")
      then hmget_command engine rest h
      else (h, unknown_command name)

  -- Handle
  unfoldable pub handle : List Bytes → Handler S → Reply S
  unfolding dispatch
  handle [] h = (h, write_error (codes "ERR empty command"))
  handle (name ∷ rest) h =
      dispatch (to_upper name) name rest (record h { total_commands = h.total_commands + 1 })
