-- ===== src/Commands/Admin.antt =====
-- PING, INFO, CONFIG and the other commands of core/commands/commands.go that do not read keys.
-- CONFIG GET lists the settings in the order of the source, where Go's map has no order.
use warpdb.Base.{
  Bool, ◌||◌, Option, none, some, List, [], ◌∷◌, ◌++◌, Bytes, codes, beq, ℤ, pos, suc,
  if◌then◌else◌,
}
use warpdb.Strconv.{atoi, itoa}
use warpdb.Config.{Config}
use warpdb.Engine.{StorageEngine}
use warpdb.Protocol.{write_simple_string, write_error, write_bulk_string, write_array}
use warpdb.Commands.{Handler, Env, Reply, to_upper, to_lower, ok_reply, wrong_arity, integer}

-- `%t`
abbrev show_bool : Bool → Bytes
show_bool b = if b then codes "true" else codes "false"

-- cfgMap in configGet
unfoldable pub cfg_map : Config → List (Bytes × Bytes)
cfg_map c =
    (codes "port", itoa c.port)
    ∷ (codes "wal_path", c.wal_path)
    ∷ (codes "log_level", c.log_level)
    ∷ (codes "requirepass", c.require_pass)
    ∷ (codes "maxclients", itoa c.max_clients)
    ∷ (codes "timeout", itoa c.timeout_seconds)
    ∷ (codes "maxmemory", itoa c.max_memory_mb)
    ∷ (codes "databases", itoa c.databases)
    ∷ (codes "wal_max_size_mb", itoa c.wal_max_size_mb)
    ∷ (codes "wal_auto_compact", show_bool c.wal_auto_compact)
    ∷ []

-- matchSimple; strings.EqualFold of ASCII texts
unfoldable pub match_simple : Bytes → Bytes → Bool
match_simple pattern' key = beq pattern' (codes "*") || beq (to_lower pattern') (to_lower key)

-- The inner loop of configGet.
unfoldable pub settings_like : Bytes → List (Bytes × Bytes) → List Bytes
settings_like pattern' [] = []
settings_like pattern' ((k, v) ∷ more) =
    let rest = settings_like pattern' more in if match_simple pattern' k then k ∷ v ∷ rest else rest

unfoldable pub config_get : Config → List Bytes → List Bytes
config_get c [] = []
config_get c (pattern' ∷ patterns) = settings_like pattern' (cfg_map c) ++ config_get c patterns

-- `err != nil || v <= 0` and `err != nil || v < 0` are `none`.
unfoldable pub read_positive : Bytes → Option ℤ
read_positive value = elim (atoi value) [ some (pos (suc n)) ↦ some (pos (suc n)) | _ ↦ none ]

unfoldable pub read_natural : Bytes → Option ℤ
read_natural value = elim (atoi value) [ some (pos n) ↦ some (pos n) | _ ↦ none ]

abbrev is_log_level : Bytes → Bool
is_log_level v =
    beq v (codes "debug")
    || (beq v (codes "info") || (beq v (codes "warn") || beq v (codes "error")))

abbrev changed : Config → Config × Bytes
changed c = (c, ok_reply)

abbrev changed_to : Config → (ℤ → Config) → Option ℤ → Config × Bytes
changed_to c f none = (c, write_error (codes "ERR invalid value"))
changed_to c f (some v) = changed (f v)

-- configSet
unfoldable pub config_set : Bytes → Bytes → Config → Config × Bytes
config_set key value c =
    let k = to_lower key in
    if beq k (codes "requirepass")
    then changed (record c { require_pass = value })
    else if beq k (codes "maxclients")
    then changed_to c (λ v. record c { max_clients = v }) (read_positive value)
    else if beq k (codes "timeout")
    then changed_to c (λ v. record c { timeout_seconds = v }) (read_natural value)
    else if beq k (codes "log_level")
    then if is_log_level value
      then changed (record c { log_level = value })
      else (c, write_error (codes "ERR invalid log level"))
    else (c, write_error (codes "ERR Unsupported CONFIG parameter"))

module _ {S : Type 0} where
  unfoldable pub ping_command : List Bytes → Handler S → Reply S
  ping_command [] h = (h, write_simple_string (codes "PONG"))
  ping_command (msg ∷ _) h = (h, write_bulk_string msg)

  abbrev pub with_config : Handler S → Config × Bytes → Reply S
  with_config h (c, out) = (record h { cfg = c }, out)

  -- CONFIG SET, from the name on.
  abbrev pub config_set_args : List Bytes → Handler S → Reply S
  config_set_args (name ∷ value ∷ _) h = with_config h (config_set name value h.cfg)
  config_set_args _ h = (h, wrong_arity "CONFIG SET")

  unfoldable pub config_command : List Bytes → Handler S → Reply S
  config_command (sub ∷ name ∷ more) h =
      if beq (to_upper sub) (codes "GET")
      then (h, write_array (config_get h.cfg (name ∷ more)))
      else if beq (to_upper sub) (codes "SET")
      then config_set_args (name ∷ more) h
      else (h, write_error (codes "ERR CONFIG subcommand must be GET or SET"))
  config_command _ h = (h, wrong_arity "CONFIG")

module _ {S : Type 0} (engine : StorageEngine S) where
  open engine use {flush_all, size}

  unfoldable pub info_command : Env → Handler S → Reply S
  info_command env h = (h, write_bulk_string (env.info (size h.store)))

  unfoldable pub flushall_command : Handler S → Reply S
  flushall_command h = (record h { store = flush_all h.store }, ok_reply)

  unfoldable pub dbsize_command : Handler S → Reply S
  dbsize_command h = (h, integer (size h.store))

  unfoldable pub command_command : Handler S → Reply S
  command_command h = (h, ok_reply)
