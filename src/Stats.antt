-- ===== src/Stats.antt =====
-- internal/stats/stats.go: the counters of the server, the answer to INFO, and formatBytes with
-- the floating-point numbers that it computes.
pub mod Units
use warpdb.Base.{
  ℕ, zero, suc, ◌+◌, ◌*◌, ◌-◌, ◌/◌, ◌%◌, ◌^◌, Bool, ◌&&◌, ◌||◌, Option, none, some, List, [], ◌∷◌,
  ◌++◌, Bytes, codes, ℤ, pos, negsuc, sub_ℕ, to_int64, ltb, ◌==◌, if◌then◌else◌,
}
use warpdb.Strconv.{itoa, itoa_nat}

-- ServerStats, without the instant of its start. A counter is an atomic.Int64, here its 64 bits.
pub record ServerStats : Type 0 where
  pub total_connections : ℕ
  pub total_commands : ℕ
  pub active_connections : ℕ

-- New
abbrev pub new_stats : ServerStats
new_stats = record { total_connections = 0; total_commands = 0; active_connections = 0 }

-- Add(1) and Add(-1) of a counter.
unfoldable pub increment : ℕ → ℕ
increment n = (n + 1) % 2 ^ 64

unfoldable pub decrement : ℕ → ℕ
decrement n = (n + (2 ^ 64 - 1)) % 2 ^ 64

-- div and exp in formatBytes, after the loop from `n` on, with `fuel` rounds at most.
unfoldable pub unit_loop : ℕ → ℕ → ℕ → ℕ → ℕ × ℕ
unit_loop zero n div exp = (div, exp)
unit_loop (suc fuel) n div exp =
    let rest = unit_loop fuel (n / 1024) (div * 1024 % 2 ^ 64) (exp + 1) in
    if ltb n 1024 then (div, exp) else rest

-- The div and exp that formatBytes ends with. A uint64 has seven digits to the base 1024 at most,
-- so six rounds are enough.
unfoldable pub unit_of : ℕ → ℕ × ℕ
unfolding unit_loop
unit_of b = unit_loop 6 (b / 1024) 1024 0

-- n / d, rounded to the next whole number, and to the even one of two that are as near.
unfoldable pub round_even : ℕ → ℕ → ℕ
round_even n d =
    let r = n % d in if ltb (2 * r) d || 2 * r == d && (n / d) % 2 == 0 then n / d else n / d + 1

-- float64(b), from the first `s` at which b / 2^s has 53 bits; a uint64 has 11 bits more at most.
unfoldable pub float_from : ℕ → ℕ → ℕ → ℕ
float_from zero s b = round_even b (2 ^ s) * 2 ^ s
float_from (suc fuel) s b =
    let rest = float_from fuel (s + 1) b in
    if ltb b (2 ^ (53 + s)) then round_even b (2 ^ s) * 2 ^ s else rest

unfoldable pub float64 : ℕ → ℕ
unfolding float_from
float64 b = float_from 11 0 b

-- The tenths that `%.1f` prints of float64(b)/float64(div): the quotient is exact, since div is a
-- power of two.
unfoldable pub tenths : ℕ → ℕ → ℕ
tenths b div = round_even (10 * float64 b) div

-- "KMGTPE"[exp]; an index past the end panics.
unfoldable pub prefix_of : ℕ → Option Bytes
prefix_of exp =
    if exp == 0
    then some (codes "K")
    else if exp == 1
    then some (codes "M")
    else if exp == 2
    then some (codes "G")
    else if exp == 3
    then some (codes "T")
    else if exp == 4
    then some (codes "P")
    else if exp == 5
    then some (codes "E")
    else none

abbrev with_prefix : ℕ → Option Bytes → Option Bytes
with_prefix t none = none
with_prefix t (some prefix) =
    some (itoa_nat (t / 10) ++ codes "." ++ itoa_nat (t % 10) ++ prefix ++ codes "B")

-- formatBytes; `none` is a panic.
unfoldable pub format_bytes : ℕ → Option Bytes
format_bytes b =
    let (div, exp) = unit_of b in
    if ltb b 1024
    then some (itoa_nat b ++ codes "B")
    else with_prefix (tenths b div) (prefix_of exp)

-- `%d` of a counter.
abbrev show_counter : ℕ → Bytes
show_counter n = itoa (to_int64 n)

-- Go's division of an int64 by a positive one, which rounds towards 0.
unfoldable pub quotient : ℤ → ℕ → ℤ
quotient (pos n) d = pos (n / d)
quotient (negsuc n) d = sub_ℕ 0 (suc n / d)

-- What InfoSection asks of Go's runtime and of the clock: `uptime` is int(uptime), `uptime_next`
-- is int64(uptime+1).
pub record Figures : Type 0 where
  pub os : Bytes
  pub arch : Bytes
  pub version : Bytes
  pub uptime : ℕ
  pub uptime_next : ℕ
  pub alloc : ℕ
  pub sys : ℕ

abbrev crlf : Bytes
crlf = 13 ∷ 10 ∷ []

-- A line of InfoSection.
abbrev line : Bytes → Bytes → Bytes
line label value = label ++ value ++ crlf

-- The text of InfoSection, with what formatBytes made of memStats.Alloc.
unfoldable pub info_text : ServerStats → Figures → ℕ → Bytes → Bytes
info_text s f engine_key_count human =
    line (codes "# Server") []
    ++ line (codes "warpdb_version:1.0.0") []
    ++ line (codes "os:") f.os
    ++ line (codes "arch:") f.arch
    ++ line (codes "go_version:") f.version
    ++ line (codes "process_id:") (codes "0")
    ++ crlf
    ++ line (codes "# Clients") []
    ++ line (codes "connected_clients:") (show_counter s.active_connections)
    ++ line (codes "total_connections_received:") (show_counter s.total_connections)
    ++ crlf
    ++ line (codes "# Stats") []
    ++ line (codes "total_commands_processed:") (show_counter s.total_commands)
    ++ line (codes "uptime_in_seconds:") (itoa_nat f.uptime)
    ++ line (codes "instantaneous_ops_per_sec:")
        (itoa (quotient (to_int64 s.total_commands) f.uptime_next))
    ++ crlf
    ++ line (codes "# Keyspace") []
    ++ line (codes "db0:keys=") (itoa_nat engine_key_count ++ codes ",expires=0,avg_ttl=0")
    ++ crlf
    ++ line (codes "# Memory") []
    ++ line (codes "used_memory:") (itoa_nat f.alloc)
    ++ line (codes "used_memory_human:") human
    ++ line (codes "used_memory_rss:") (itoa_nat f.sys)
    ++ crlf
    ++ line (codes "# CPU") []
    ++ line (codes "used_cpu_sys:") (codes "0.00")
    ++ line (codes "used_cpu_user:") (codes "0.00")

-- InfoSection; `none` is a panic.
unfoldable pub info_section : ServerStats → Figures → ℕ → Option Bytes
info_section s f engine_key_count = elim (format_bytes f.alloc) [
  | none ↦ none
  | some human ↦ some (info_text s f engine_key_count human)
]
