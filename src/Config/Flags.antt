-- ===== src/Config/Flags.antt =====
-- The configuration that the command line and the file make together.
use warpdb.Base.{
  Bool, true, false, some, List, [], ◌∷◌, Bytes, codes, beq, ℤ, ◌≡◌, refl, ap, ◌∙◌, if◌then◌else◌,
  foldl, Bool-cases, inl, inr,
}
use warpdb.Config.{
  Config, default_config, merge_flag, merge, Opened, load, Flag, port_flag, wal_flag,
  requirepass_flag, maxclients_flag, config_flag, flag_name, set_flag, parse_flags, was_set,
  set_among, flag_names, visited, main_config,
}

-- The last value of each flag, and `d` without one.
pub last_port : List Flag → ℤ → ℤ
last_port [] d = d
last_port (port_flag v ∷ fs) d = last_port fs v
last_port (_ ∷ fs) d = last_port fs d

pub last_wal : List Flag → Bytes → Bytes
last_wal [] d = d
last_wal (wal_flag v ∷ fs) d = last_wal fs v
last_wal (_ ∷ fs) d = last_wal fs d

pub last_requirepass : List Flag → Bytes → Bytes
last_requirepass [] d = d
last_requirepass (requirepass_flag v ∷ fs) d = last_requirepass fs v
last_requirepass (_ ∷ fs) d = last_requirepass fs d

pub last_maxclients : List Flag → ℤ → ℤ
last_maxclients [] d = d
last_maxclients (maxclients_flag v ∷ fs) d = last_maxclients fs v
last_maxclients (_ ∷ fs) d = last_maxclients fs d

pub last_config : List Flag → Bytes → Bytes
last_config [] d = d
last_config (config_flag v ∷ fs) d = last_config fs v
last_config (_ ∷ fs) d = last_config fs d

-- A configuration with the values of the flags in place of its fields.
abbrev pub overridden : List Flag → Config → Config
overridden flags file = record file {
  port = last_port flags file.port;
  wal_path = last_wal flags file.wal_path;
  require_pass = last_requirepass flags file.require_pass;
  max_clients = last_maxclients flags file.max_clients;
}

foldl-set_flag :
    (flags : List Flag) (c : Config) (path : Bytes)
    → foldl set_flag (c, path) flags ≡ (overridden flags c, last_config flags path)
unfolding set_flag last_port last_wal last_requirepass last_maxclients last_config
foldl-set_flag [] c path = refl
foldl-set_flag (port_flag v ∷ fs) c path = foldl-set_flag fs _ _
foldl-set_flag (wal_flag v ∷ fs) c path = foldl-set_flag fs _ _
foldl-set_flag (requirepass_flag v ∷ fs) c path = foldl-set_flag fs _ _
foldl-set_flag (maxclients_flag v ∷ fs) c path = foldl-set_flag fs _ _
foldl-set_flag (config_flag v ∷ fs) c path = foldl-set_flag fs _ _

port-was_set :
    (flags : List Flag) (d e : ℤ)
    → (if was_set flags (codes "port") then last_port flags d else e) ≡ last_port flags e
unfolding was_set last_port flag_name beq
port-was_set [] d e = refl
port-was_set (port_flag v ∷ fs) d e = refl
port-was_set (wal_flag v ∷ fs) d e = port-was_set fs d e
port-was_set (requirepass_flag v ∷ fs) d e = port-was_set fs d e
port-was_set (maxclients_flag v ∷ fs) d e = port-was_set fs d e
port-was_set (config_flag v ∷ fs) d e = port-was_set fs d e

wal-was_set :
    (flags : List Flag) (d e : Bytes)
    → (if was_set flags (codes "wal") then last_wal flags d else e) ≡ last_wal flags e
unfolding was_set last_wal flag_name beq
wal-was_set [] d e = refl
wal-was_set (port_flag v ∷ fs) d e = wal-was_set fs d e
wal-was_set (wal_flag v ∷ fs) d e = refl
wal-was_set (requirepass_flag v ∷ fs) d e = wal-was_set fs d e
wal-was_set (maxclients_flag v ∷ fs) d e = wal-was_set fs d e
wal-was_set (config_flag v ∷ fs) d e = wal-was_set fs d e

requirepass-was_set :
    (flags : List Flag) (d e : Bytes)
    → (if was_set flags (codes "requirepass") then last_requirepass flags d else e)
      ≡ last_requirepass flags e
unfolding was_set last_requirepass flag_name beq
requirepass-was_set [] d e = refl
requirepass-was_set (port_flag v ∷ fs) d e = requirepass-was_set fs d e
requirepass-was_set (wal_flag v ∷ fs) d e = requirepass-was_set fs d e
requirepass-was_set (requirepass_flag v ∷ fs) d e = refl
requirepass-was_set (maxclients_flag v ∷ fs) d e = requirepass-was_set fs d e
requirepass-was_set (config_flag v ∷ fs) d e = requirepass-was_set fs d e

maxclients-was_set :
    (flags : List Flag) (d e : ℤ)
    → (if was_set flags (codes "maxclients") then last_maxclients flags d else e)
      ≡ last_maxclients flags e
unfolding was_set last_maxclients flag_name beq
maxclients-was_set [] d e = refl
maxclients-was_set (port_flag v ∷ fs) d e = maxclients-was_set fs d e
maxclients-was_set (wal_flag v ∷ fs) d e = maxclients-was_set fs d e
maxclients-was_set (requirepass_flag v ∷ fs) d e = maxclients-was_set fs d e
maxclients-was_set (maxclients_flag v ∷ fs) d e = refl
maxclients-was_set (config_flag v ∷ fs) d e = maxclients-was_set fs d e

-- The visit of Merge as a test of each name.
abbrev visit : List Flag → Config → Config → Bytes → Config
visit flags cli cfg name = if was_set flags name then merge_flag cli cfg name else cfg

foldl-set_among :
    (flags : List Flag) (cli cfg : Config) (names : List Bytes)
    → foldl (merge_flag cli) cfg (set_among flags names) ≡ foldl (visit flags cli) cfg names
unfolding set_among
foldl-set_among flags cli cfg [] = refl
foldl-set_among flags cli cfg (name ∷ names) = elim (Bool-cases (was_set flags name)) [
  | inl e ↦ rw (set_among, e) (foldl-set_among flags cli (merge_flag cli cfg name) names)
  | inr e ↦ rw (set_among, e) (foldl-set_among flags cli cfg names)
]

if_config : (b : Bool) (cli c : Config) → (if b then merge_flag cli c (codes "config") else c) ≡ c
unfolding merge_flag beq
if_config true cli c = refl
if_config false cli c = refl

if_port :
    (b : Bool) (cli c : Config)
    → (if b then merge_flag cli c (codes "port") else c)
      ≡ record c { port = if b then cli.port else c.port }
unfolding merge_flag beq
if_port true cli c = refl
if_port false cli c = refl

if_wal :
    (b : Bool) (cli c : Config)
    → (if b then merge_flag cli c (codes "wal") else c)
      ≡ record c { wal_path = if b then cli.wal_path else c.wal_path }
unfolding merge_flag beq
if_wal true cli c = refl
if_wal false cli c = refl

if_requirepass :
    (b : Bool) (cli c : Config)
    → (if b then merge_flag cli c (codes "requirepass") else c)
      ≡ record c { require_pass = if b then cli.require_pass else c.require_pass }
unfolding merge_flag beq
if_requirepass true cli c = refl
if_requirepass false cli c = refl

if_maxclients :
    (b : Bool) (cli c : Config)
    → (if b then merge_flag cli c (codes "maxclients") else c)
      ≡ record c { max_clients = if b then cli.max_clients else c.max_clients }
unfolding merge_flag beq
if_maxclients true cli c = refl
if_maxclients false cli c = refl

merge-visited :
    (flags : List Flag) (cli file : Config)
    → merge (visited flags) cli file ≡ record file {
      port = if was_set flags (codes "port") then cli.port else file.port;
      wal_path = if was_set flags (codes "wal") then cli.wal_path else file.wal_path;
      require_pass =
          if was_set flags (codes "requirepass") then cli.require_pass else file.require_pass;
      max_clients =
          if was_set flags (codes "maxclients") then cli.max_clients else file.max_clients;
    }
unfolding merge visited
merge-visited flags cli file =
    foldl-set_among flags cli file flag_names
    ∙ rw
        (
          if_config (was_set flags (codes "config")) cli file,
          if_maxclients (was_set flags (codes "maxclients")) cli file,
          if_port (was_set flags (codes "port")) cli _,
          if_requirepass (was_set flags (codes "requirepass")) cli _,
          if_wal (was_set flags (codes "wal")) cli _,
        )
        refl

-- If the file that -config names, or none, loads, then main hands to Serve the configuration of the
-- file, with the last values of the flags -port, -wal, -requirepass and -maxclients in place of its
-- fields where they are given.
pub main_config-overridden :
    (decode : Bytes → Config → Config × Bool) (os_open : Bytes → Opened) (flags : List Flag)
    (file : Config)
    → load decode (os_open (last_config flags [])) ≡ (file, true)
    → main_config decode os_open flags ≡ some (overridden flags file)
unfolding main_config parse_flags
main_config-overridden decode os_open flags file h =
    rw (foldl-set_flag flags default_config [], h)
      (ap some (
        merge-visited flags (overridden flags default_config) file
        ∙ rw
            (
              port-was_set flags default_config.port file.port,
              wal-was_set flags default_config.wal_path file.wal_path,
              requirepass-was_set flags default_config.require_pass file.require_pass,
              maxclients-was_set flags default_config.max_clients file.max_clients,
            )
            refl))
