-- ===== src/Config.antt =====
-- internal/config/config.go: the configuration and its defaults, Timeout, Load, ParseFlags, Merge and
-- LogLevelFromString, and cmd/main.go up to its call of server.Serve.
pub mod Flags
use warpdb.Base.{
  Bool, true, false, ◌||◌, seconds, Option, none, some, List, [], ◌∷◌, Bytes, codes, beq, ℤ, pos,
  negsuc, if◌then◌else◌, foldl,
}

pub record Config : Type 0 where
  pub port : ℤ
  pub wal_path : Bytes
  pub log_level : Bytes
  pub require_pass : Bytes
  pub max_clients : ℤ
  pub wal_max_size_mb : ℤ
  pub wal_auto_compact : Bool
  pub timeout_seconds : ℤ
  pub max_memory_mb : ℤ
  pub databases : ℤ

-- Default
abbrev pub default_config : Config
default_config = record {
  port = pos 6379;
  wal_path = codes "wal";
  log_level = codes "info";
  require_pass = [];
  max_clients = pos 10000;
  wal_max_size_mb = pos 64;
  wal_auto_compact = true;
  timeout_seconds = pos 300;
  max_memory_mb = pos 0;
  databases = pos 16;
}

-- Timeout, in nanoseconds
unfoldable pub timeout : Config → ℤ
timeout c = elim c.timeout_seconds [ pos n ↦ seconds n | negsuc n ↦ pos 0 ]

-- One flag in the function that Merge hands to flag.Visit.
unfoldable pub merge_flag : Config → Config → Bytes → Config
merge_flag cli cfg name =
    if beq name (codes "port")
    then record cfg { port = cli.port }
    else if beq name (codes "wal")
    then record cfg { wal_path = cli.wal_path }
    else if beq name (codes "requirepass")
    then record cfg { require_pass = cli.require_pass }
    else if beq name (codes "maxclients")
    then record cfg { max_clients = cli.max_clients }
    else cfg

-- Merge. `visited` are the names of the flags that flag.Visit goes through.
unfoldable pub merge : List Bytes → Config → Config → Config
merge visited cli file = foldl (merge_flag cli) file visited

-- What os.Open finds at a path: no file, a file that it cannot open, or these bytes.
pub data Opened : Type 0 where
  absent : Opened
  unreadable : Opened
  contents : Bytes → Opened

-- Load; the flag is `err == nil`. `decode` is json.NewDecoder(f).Decode on a Config.
unfoldable pub load : (Bytes → Config → Config × Bool) → Opened → Config × Bool
load decode absent = (default_config, true)
load decode unreadable = (default_config, false)
load decode (contents text) = decode text default_config

-- A flag on the command line, with its value.
pub data Flag : Type 0 where
  port_flag : ℤ → Flag
  wal_flag : Bytes → Flag
  requirepass_flag : Bytes → Flag
  maxclients_flag : ℤ → Flag
  config_flag : Bytes → Flag

unfoldable pub flag_name : Flag → Bytes
flag_name (port_flag n) = codes "port"
flag_name (wal_flag p) = codes "wal"
flag_name (requirepass_flag p) = codes "requirepass"
flag_name (maxclients_flag n) = codes "maxclients"
flag_name (config_flag p) = codes "config"

-- The variables of ParseFlags, and what flag.Parse stores in them for a flag.
unfoldable pub set_flag : Config × Bytes → Flag → Config × Bytes
set_flag (c, path) (port_flag n) = (record c { port = n }, path)
set_flag (c, path) (wal_flag p) = (record c { wal_path = p }, path)
set_flag (c, path) (requirepass_flag p) = (record c { require_pass = p }, path)
set_flag (c, path) (maxclients_flag n) = (record c { max_clients = n }, path)
set_flag (c, path) (config_flag p) = (c, p)

-- ParseFlags on a command line that flag.Parse accepts.
unfoldable pub parse_flags : List Flag → Config × Bytes
parse_flags flags = foldl set_flag (default_config, []) flags

-- The flags that flag.Visit goes through, in its order: those that were set, by name.
unfoldable pub was_set : List Flag → Bytes → Bool
was_set [] name = false
was_set (f ∷ flags) name = beq (flag_name f) name || was_set flags name

unfoldable pub set_among : List Flag → List Bytes → List Bytes
set_among flags [] = []
set_among flags (name ∷ names) =
    let rest = set_among flags names in if was_set flags name then name ∷ rest else rest

abbrev pub flag_names : List Bytes
flag_names =
    codes "config" ∷ codes "maxclients" ∷ codes "port" ∷ codes "requirepass" ∷ codes "wal" ∷ []

unfoldable pub visited : List Flag → List Bytes
unfolding set_among
visited flags = set_among flags flag_names

-- main, where os.Open is `os_open`, up to the call of server.Serve: its configuration, or the end of the program.
unfoldable pub main_config :
    (Bytes → Config → Config × Bool) → (Bytes → Opened) → List Flag → Option Config
main_config decode os_open flags =
    let (cli, path) = parse_flags flags in
    let (file, fine) = load decode (os_open path) in
    if fine then some (merge (visited flags) cli file) else none

-- slog.Level
pub data Level : Type 0 where
  level_debug : Level
  level_info : Level
  level_warn : Level
  level_error : Level

-- LogLevelFromString
unfoldable pub log_level_from_string : Bytes → Level
log_level_from_string s =
    if beq s (codes "debug")
    then level_debug
    else if beq s (codes "warn")
    then level_warn
    else if beq s (codes "error")
    then level_error
    else level_info
