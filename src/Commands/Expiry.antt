-- ===== src/Commands/Expiry.antt =====
-- EXPIRE, TTL and PERSIST in core/commands/commands.go.
use warpdb.Base.{
  ℕ, zero, suc, ◌+◌, ◌*◌, ◌/◌, ◌%◌, ◌^◌, ltb, if◌then◌else◌, Option, some, List, [], ◌∷◌, Bytes, ℤ,
  pos, negsuc, seconds,
}
use warpdb.Strconv.{atoi}
use warpdb.Store.{Result, ok, fail}
use warpdb.Stats.{round_even, float_from}
use warpdb.Engine.{StorageEngine}
use warpdb.Protocol.{write_integer}
use warpdb.Commands.{Handler, Env, Reply, wrong_arity, not_integer, integer, with_store}

abbrev pub one_if_ok : Result (Unit {0}) → Bytes
one_if_ok (ok _) = integer 1
one_if_ok (fail e) = integer 0

-- a / d as a float64, from the first `s` at which a / (d * 2^s) has 53 bits.
unfoldable quotient_from : ℕ → ℕ → ℕ → ℕ → ℕ
quotient_from zero s a d = round_even a (d * 2 ^ s) * 2 ^ s
quotient_from (suc fuel) s a d =
    let rest = quotient_from fuel (s + 1) a d in
    if ltb a (d * 2 ^ (53 + s)) then round_even a (d * 2 ^ s) * 2 ^ s else rest

-- Duration.Seconds of Go's library, `float64(sec) + float64(nsec)/1e9`, in units of 2^-82: a fraction
-- of a second that is not 0 is 2^-30 at least, so its 53 bits end there. The fraction is below 2^82
-- units, so 29 rounds are enough for it, and the sum, of an int64 of nanoseconds, below 2^116.
unfoldable pub float_seconds : ℕ → ℕ
unfolding quotient_from float_from
float_seconds n =
    let fraction = quotient_from 29 0 (n % 1_000_000_000 * 2 ^ 82) 1_000_000_000 in
    float_from 63 0 (n / 1_000_000_000 * 2 ^ 82 + fraction)

-- What TTL answers for a duration in nanoseconds: -2 and -1 stand for themselves, and of any other
-- the seconds, as a float64, are cut to a whole number.
unfoldable pub whole_seconds : ℤ → ℤ
unfolding float_seconds
whole_seconds (negsuc n) = negsuc n
whole_seconds (pos n) = pos (float_seconds n / 2 ^ 82)

module _ {S : Type 0} (engine : StorageEngine S) (env : Env) where
  open engine use {expire, ttl, persist}

  -- `err != nil || secs < 0` is an error.
  abbrev pub expire_in : Bytes → Option ℤ → Handler S → Reply S
  expire_in key (some (pos secs)) h =
      with_store h one_if_ok (expire env.now key (seconds secs) h.store)
  expire_in key _ h = (h, not_integer)

  unfoldable pub expire_command : List Bytes → Handler S → Reply S
  expire_command (key ∷ secs ∷ []) h = expire_in key (atoi secs) h
  expire_command _ h = (h, wrong_arity "EXPIRE")

  unfoldable pub ttl_command : List Bytes → Handler S → Reply S
  ttl_command (key ∷ []) h = (h, write_integer (whole_seconds (ttl env.now key h.store)))
  ttl_command _ h = (h, wrong_arity "TTL")

  unfoldable pub persist_command : List Bytes → Handler S → Reply S
  persist_command (key ∷ []) h = with_store h one_if_ok (persist key h.store)
  persist_command _ h = (h, wrong_arity "PERSIST")
