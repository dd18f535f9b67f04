-- ===== src/Commands/Strings.antt =====
-- The commands of core/commands/commands.go on string values and on keys of any kind.
pub mod Counters
pub mod Renaming
use warpdb.Base.{
  ℕ, zero, suc, ◌+◌, Bool, true, false, Option, none, some, List, [], ◌∷◌, ◌++◌, Bytes, codes, ℤ,
  pos, negsuc, length, ltb, if◌then◌else◌,
}
use warpdb.Strconv.{atoi}
use warpdb.Store.{Result, ok, fail}
use warpdb.Engine.{Answer, answered, StorageEngine}
use warpdb.Protocol.{
  write_simple_string, write_error, write_integer, write_bulk_string, write_null, write_array,
}
use warpdb.Commands.{
  Handler, Env, Reply, ok_reply, wrong_arity, not_integer, integer, one_or_zero, bulk_or_null,
  with_store,
}

abbrev pub value_or_empty : Result Bytes → Bytes
value_or_empty (ok v) = v
value_or_empty (fail e) = []

abbrev pub integer_or_error : Answer ℤ → Bytes
integer_or_error (answered (ok n)) = write_integer n
integer_or_error _ = not_integer

abbrev pub is_ok : Answer (Unit {0}) → Bool
is_ok (answered (ok _)) = true
is_ok _ = false

abbrev pub size_reply : Result Bytes → Bytes
size_reply (ok v) = integer (length v)
size_reply (fail e) = integer 0

module _ {S : Type 0} where
  -- A step that failed ends the loop; any other hands its result on.
  unfoldable pub repeat_next : (ℤ → S → S × Answer ℤ) → S × Answer ℤ → S × Answer ℤ
  repeat_next next (s, answered (ok r)) = next r s
  repeat_next next (s, failed) = (s, failed)

  -- The loops of INCRBY and DECRBY: `step` is Incr or Decr of the key, `result` the last result.
  unfoldable pub repeat_step : (S → S × Answer ℤ) → ℕ → ℤ → S → S × Answer ℤ
  unfolding repeat_next
  repeat_step step zero result s = (s, answered (ok result))
  repeat_step step (suc n) result s = repeat_next (repeat_step step n) (step s)

-- The number of rounds of `for i := 0; i < incr; i++`.
abbrev pub rounds : ℤ → ℕ
rounds (pos n) = n
rounds (negsuc n) = 0

module _ {S : Type 0} (engine : StorageEngine S) (env : Env) where
  open engine use {get, set, del, exists, incr, decr, keys, llen, scard, hlen}

  -- SET; what follows the value is not read, and the error of the engine is not looked at.
  unfoldable pub set_command : List Bytes → Handler S → Reply S
  set_command (key ∷ value ∷ _) h = with_store h (λ _. ok_reply) (set key value h.store)
  set_command _ h = (h, wrong_arity "SET")

  unfoldable pub get_command : List Bytes → Handler S → Reply S
  get_command (key ∷ []) h = with_store h bulk_or_null (get env.now key h.store)
  get_command _ h = (h, wrong_arity "GET")

  -- The loop of DEL.
  unfoldable pub del_all : List Bytes → ℕ → S → S × ℕ
  del_all [] deleted s = (s, deleted)
  del_all (key ∷ ks) deleted s =
      let (s', r) = del key s in del_all ks (if is_ok r then deleted + 1 else deleted) s'

  unfoldable pub del_command : List Bytes → Handler S → Reply S
  unfolding del_all
  del_command [] h = (h, wrong_arity "DEL")
  del_command (key ∷ ks) h = with_store h integer (del_all (key ∷ ks) 0 h.store)

  unfoldable pub exists_command : List Bytes → Handler S → Reply S
  exists_command (key ∷ []) h = with_store h one_or_zero (exists env.now key h.store)
  exists_command _ h = (h, wrong_arity "EXISTS")

  unfoldable pub incr_command : List Bytes → Handler S → Reply S
  incr_command (key ∷ []) h = with_store h integer_or_error (incr key h.store)
  incr_command _ h = (h, wrong_arity "INCR")

  unfoldable pub decr_command : List Bytes → Handler S → Reply S
  decr_command (key ∷ []) h = with_store h integer_or_error (decr key h.store)
  decr_command _ h = (h, wrong_arity "DECR")

  abbrev pub repeated : Option ℤ → (S → S × Answer ℤ) → Handler S → Reply S
  repeated none step h = (h, not_integer)
  repeated (some n) step h =
      with_store h integer_or_error (repeat_step step (rounds n) (pos 0) h.store)

  unfoldable pub incrby_command : List Bytes → Handler S → Reply S
  incrby_command (key ∷ n ∷ []) h = repeated (atoi n) (incr key) h
  incrby_command _ h = (h, wrong_arity "INCRBY")

  unfoldable pub decrby_command : List Bytes → Handler S → Reply S
  decrby_command (key ∷ n ∷ []) h = repeated (atoi n) (decr key) h
  decrby_command _ h = (h, wrong_arity "DECRBY")

  -- The rest of RENAME, with the value read.
  abbrev pub rename_to : Bytes → Bytes → Handler S → S × Result Bytes → Reply S
  rename_to key new_key h (s, fail e) =
      (record h { store = s }, write_error (codes "ERR no such key"))
  rename_to key new_key h (s, ok val) =
      (record h { store = (del key (set new_key val s).0).0 }, ok_reply)

  unfoldable pub rename_command : List Bytes → Handler S → Reply S
  rename_command (key ∷ new_key ∷ []) h = rename_to key new_key h (get env.now key h.store)
  rename_command _ h = (h, wrong_arity "RENAME")

  -- One of the tests of TYPE: `n > 0 || Exists(key)`, which calls Exists only if `n` is 0.
  abbrev pub type_test : ℕ → Bytes → S → S × Bool
  type_test n key s = if ltb 0 n then (s, true) else exists env.now key s

  -- TYPE, from the second branch on.
  abbrev pub type_name : Bytes → S → S × Bytes
  type_name key s =
      let (s1, list) = type_test (llen key s) key s in
      let (s2, set') = type_test (scard key s1) key s1 in
      let (s3, hash) = type_test (hlen key s2) key s2 in
      if list
      then (s1, codes "list")
      else if set'
      then (s2, codes "set")
      else if hash
      then (s3, codes "hash")
      else (s3, codes "none")

  abbrev pub type_of : Bytes → S × Result Bytes → S × Bytes
  type_of key (s, ok v) = (s, codes "string")
  type_of key (s, fail e) = type_name key s

  unfoldable pub type_command : List Bytes → Handler S → Reply S
  type_command (key ∷ []) h =
      with_store h write_simple_string (type_of key (get env.now key h.store))
  type_command _ h = (h, wrong_arity "TYPE")

  -- APPEND, with the old value read.
  abbrev pub append_to : Bytes → Bytes → Handler S → S × Result Bytes → Reply S
  append_to key suffix h (s, r) =
      let value = value_or_empty r ++ suffix in
      (record h { store = (set key value s).0 }, integer (length value))

  unfoldable pub append_command : List Bytes → Handler S → Reply S
  append_command (key ∷ suffix ∷ []) h = append_to key suffix h (get env.now key h.store)
  append_command _ h = (h, wrong_arity "APPEND")

  unfoldable pub strlen_command : List Bytes → Handler S → Reply S
  strlen_command (key ∷ []) h = with_store h size_reply (get env.now key h.store)
  strlen_command _ h = (h, wrong_arity "STRLEN")

  -- The loop of MSET, if the arguments come in pairs; `none` if they do not.
  unfoldable pub set_pairs : List Bytes → S → Option S
  set_pairs [] s = some s
  set_pairs (key ∷ []) s = none
  set_pairs (key ∷ value ∷ more) s = set_pairs more (set key value s).0

  abbrev pub mset_reply : Handler S → Option S → Reply S
  mset_reply h none = (h, wrong_arity "MSET")
  mset_reply h (some s) = (record h { store = s }, ok_reply)

  unfoldable pub mset_command : List Bytes → Handler S → Reply S
  unfolding set_pairs
  mset_command [] h = (h, wrong_arity "MSET")
  mset_command (key ∷ more) h = mset_reply h (set_pairs (key ∷ more) h.store)

  -- The loop of MGET; a missing value is the empty string.
  unfoldable pub get_all : List Bytes → S → S × List Bytes
  get_all [] s = (s, [])
  get_all (key ∷ ks) s =
      let (s1, r) = get env.now key s in
      let (s2, rest) = get_all ks s1 in (s2, value_or_empty r ∷ rest)

  unfoldable pub mget_command : List Bytes → Handler S → Reply S
  unfolding get_all
  mget_command [] h = (h, wrong_arity "MGET")
  mget_command (key ∷ ks) h = with_store h write_array (get_all (key ∷ ks) h.store)

  abbrev pub first_key : List Bytes → Bytes
  first_key [] = write_null
  first_key (key ∷ _) = write_bulk_string key

  unfoldable pub randomkey_command : Handler S → Reply S
  randomkey_command h = (h, first_key (keys env.now (codes "*") h.store))

  unfoldable pub keys_command : List Bytes → Handler S → Reply S
  keys_command (pattern' ∷ []) h = (h, write_array (keys env.now pattern' h.store))
  keys_command _ h = (h, wrong_arity "KEYS")
