-- ===== src/Commands/Lists.antt =====
-- The list commands of core/commands/commands.go.
use warpdb.Base.{Option, none, some, List, [], ◌∷◌, Bytes, codes, ℤ}
use warpdb.Strconv.{atoi}
use warpdb.Engine.{StorageEngine}
use warpdb.Protocol.{write_error, write_array}
use warpdb.Commands.{Handler, Reply, wrong_arity, integer, bulk_or_null, with_store}

abbrev bad_index : Bytes
bad_index = write_error (codes "ERR value is not an integer")

-- The answer of LRange; `none`, a panic of the store, does not occur.
abbrev pub range_reply : Option (List Bytes) → Bytes
range_reply none = []
range_reply (some items) = write_array items

module _ {S : Type 0} (engine : StorageEngine S) where
  open engine use {lpush, rpush, lpop, rpop, llen, lrange, lindex}

  unfoldable pub lpush_command : List Bytes → Handler S → Reply S
  lpush_command (key ∷ v ∷ vs) h = with_store h integer (lpush key (v ∷ vs) h.store)
  lpush_command _ h = (h, wrong_arity "LPUSH")

  unfoldable pub rpush_command : List Bytes → Handler S → Reply S
  rpush_command (key ∷ v ∷ vs) h = with_store h integer (rpush key (v ∷ vs) h.store)
  rpush_command _ h = (h, wrong_arity "RPUSH")

  -- LPOP and RPOP do not look at what follows the key.
  unfoldable pub lpop_command : List Bytes → Handler S → Reply S
  lpop_command (key ∷ _) h = with_store h bulk_or_null (lpop key h.store)
  lpop_command _ h = (h, wrong_arity "LPOP")

  unfoldable pub rpop_command : List Bytes → Handler S → Reply S
  rpop_command (key ∷ _) h = with_store h bulk_or_null (rpop key h.store)
  rpop_command _ h = (h, wrong_arity "RPOP")

  unfoldable pub llen_command : List Bytes → Handler S → Reply S
  llen_command (key ∷ []) h = (h, integer (llen key h.store))
  llen_command _ h = (h, wrong_arity "LLEN")

  abbrev pub lrange_between : Bytes → Option ℤ → Option ℤ → Handler S → Reply S
  lrange_between key (some start) (some stop) h = (h, range_reply (lrange key start stop h.store))
  lrange_between key _ _ h = (h, bad_index)

  unfoldable pub lrange_command : List Bytes → Handler S → Reply S
  lrange_command (key ∷ start ∷ stop ∷ []) h = lrange_between key (atoi start) (atoi stop) h
  lrange_command _ h = (h, wrong_arity "LRANGE")

  abbrev pub lindex_at : Bytes → Option ℤ → Handler S → Reply S
  lindex_at key none h = (h, bad_index)
  lindex_at key (some index) h = (h, bulk_or_null (lindex key index h.store))

  unfoldable pub lindex_command : List Bytes → Handler S → Reply S
  lindex_command (key ∷ index ∷ []) h = lindex_at key (atoi index) h
  lindex_command _ h = (h, wrong_arity "LINDEX")
