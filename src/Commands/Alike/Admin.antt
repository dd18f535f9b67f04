-- ===== src/Commands/Alike/Admin.antt =====
-- EXPIRE, TTL, PERSIST, and the commands that do not read keys, of core/commands/commands.go over two
-- engines that answer alike.
use warpdb.Base.{
  ◌≡◌, refl, ap, Option, none, some, List, [], ◌∷◌, Bytes, codes, beq, ℤ, pos, negsuc, seconds,
}
use warpdb.Strconv.{atoi}
use warpdb.Config.{Config}
use warpdb.Engine.{StorageEngine}
use warpdb.Engine.Simulation.{Simulates}
use warpdb.Protocol.{write_integer, write_bulk_string, write_array}
use warpdb.Commands.{Handler, Env, ok_reply, integer, to_upper}
use warpdb.Commands.Alike.{
  AreAlike, AnswerAlike, reply-AnswerAlike, with_store-AnswerAlike, store-AnswerAlike,
  if-AnswerAlike,
}
use warpdb.Commands.Expiry
use warpdb.Commands.Expiry.{one_if_ok, whole_seconds, expire_in}
use warpdb.Commands.Admin
use warpdb.Commands.Admin.{with_config, config_get, config_set, config_set_args}

module _ {S T : Type 0} (R : S → T → Type 0) where
  with_config-AnswerAlike :
      (h : Handler S) (k : Handler T) (p q : Config × Bytes)
      → AreAlike R h k
      → p ≡ q
      → AnswerAlike R (with_config h p) (with_config k q)
  unfolding AnswerAlike
  with_config-AnswerAlike h k p q (r, (_, total)) same =
      ((r, (ap (λ p. p.0) same, total)), ap (λ p. p.1) same)

  config_set_args-AnswerAlike :
      (args : List Bytes) (h : Handler S) (k : Handler T)
      → AreAlike R h k
      → AnswerAlike R (config_set_args args h) (config_set_args args k)
  config_set_args-AnswerAlike [] h k r = reply-AnswerAlike R h k r refl
  config_set_args-AnswerAlike (name ∷ []) h k r = reply-AnswerAlike R h k r refl
  config_set_args-AnswerAlike (name ∷ value ∷ more) h k r =
      with_config-AnswerAlike h k _ _ r (ap (config_set name value) r.1.0)

  pub config_command-AnswerAlike :
      (args : List Bytes) (h : Handler S) (k : Handler T)
      → AreAlike R h k
      → AnswerAlike R (Admin.config_command args h) (Admin.config_command args k)
  unfolding Admin.config_command
  config_command-AnswerAlike [] h k r = reply-AnswerAlike R h k r refl
  config_command-AnswerAlike (sub ∷ []) h k r = reply-AnswerAlike R h k r refl
  config_command-AnswerAlike (sub ∷ name ∷ more) h k r =
      if-AnswerAlike R (beq (to_upper sub) (codes "GET")) _ _ _ _
        (reply-AnswerAlike R h k r (ap (λ c. write_array (config_get c (name ∷ more))) r.1.0))
        (if-AnswerAlike R (beq (to_upper sub) (codes "SET")) _ _ _ _
          (config_set_args-AnswerAlike (name ∷ more) h k r) (reply-AnswerAlike R h k r refl))

  pub ping_command-AnswerAlike :
      (args : List Bytes) (h : Handler S) (k : Handler T)
      → AreAlike R h k
      → AnswerAlike R (Admin.ping_command args h) (Admin.ping_command args k)
  unfolding Admin.ping_command
  ping_command-AnswerAlike [] h k r = reply-AnswerAlike R h k r refl
  ping_command-AnswerAlike (msg ∷ more) h k r = reply-AnswerAlike R h k r refl

module _ {S T : Type 0} (R : S → T → Type 0) (a : StorageEngine S) (b : StorageEngine T)
    (sim : Simulates R a b) where
  pub info_command-AnswerAlike :
      (env : Env) (h : Handler S) (k : Handler T)
      → AreAlike R h k
      → AnswerAlike R (Admin.info_command a env h) (Admin.info_command b env k)
  unfolding Admin.info_command
  info_command-AnswerAlike env h k r =
      reply-AnswerAlike R h k r
        (ap (λ n. write_bulk_string (env.info n)) (sim.size h.store k.store r.0))

  pub flushall_command-AnswerAlike :
      (h : Handler S) (k : Handler T)
      → AreAlike R h k
      → AnswerAlike R (Admin.flushall_command a h) (Admin.flushall_command b k)
  unfolding Admin.flushall_command
  flushall_command-AnswerAlike h k r =
      store-AnswerAlike R h k ok_reply _ _ r (sim.flush_all h.store k.store r.0)

  pub dbsize_command-AnswerAlike :
      (h : Handler S) (k : Handler T)
      → AreAlike R h k
      → AnswerAlike R (Admin.dbsize_command a h) (Admin.dbsize_command b k)
  unfolding Admin.dbsize_command
  dbsize_command-AnswerAlike h k r =
      reply-AnswerAlike R h k r (ap integer (sim.size h.store k.store r.0))

  pub command_command-AnswerAlike :
      (h : Handler S) (k : Handler T)
      → AreAlike R h k
      → AnswerAlike R (Admin.command_command a h) (Admin.command_command b k)
  unfolding Admin.command_command
  command_command-AnswerAlike h k r = reply-AnswerAlike R h k r refl

module _ {S T : Type 0} (R : S → T → Type 0) (a : StorageEngine S) (b : StorageEngine T)
    (sim : Simulates R a b) (env : Env) where
  expire_in-AnswerAlike :
      (key : Bytes) (secs : Option ℤ) (h : Handler S) (k : Handler T)
      → AreAlike R h k
      → AnswerAlike R (expire_in a env key secs h) (expire_in b env key secs k)
  expire_in-AnswerAlike key none h k r = reply-AnswerAlike R h k r refl
  expire_in-AnswerAlike key (some (negsuc n)) h k r = reply-AnswerAlike R h k r refl
  expire_in-AnswerAlike key (some (pos n)) h k r =
      with_store-AnswerAlike R h k one_if_ok _ _ r
        (sim.expire h.store k.store env.now key (seconds n) r.0)

  pub expire_command-AnswerAlike :
      (args : List Bytes) (h : Handler S) (k : Handler T)
      → AreAlike R h k
      → AnswerAlike R (Expiry.expire_command a env args h) (Expiry.expire_command b env args k)
  unfolding Expiry.expire_command
  expire_command-AnswerAlike [] h k r = reply-AnswerAlike R h k r refl
  expire_command-AnswerAlike (key ∷ []) h k r = reply-AnswerAlike R h k r refl
  expire_command-AnswerAlike (key ∷ x ∷ y ∷ xs) h k r = reply-AnswerAlike R h k r refl
  expire_command-AnswerAlike (key ∷ x ∷ []) h k r = expire_in-AnswerAlike key (atoi x) h k r

  pub ttl_command-AnswerAlike :
      (args : List Bytes) (h : Handler S) (k : Handler T)
      → AreAlike R h k
      → AnswerAlike R (Expiry.ttl_command a env args h) (Expiry.ttl_command b env args k)
  unfolding Expiry.ttl_command
  ttl_command-AnswerAlike [] h k r = reply-AnswerAlike R h k r refl
  ttl_command-AnswerAlike (key ∷ x ∷ xs) h k r = reply-AnswerAlike R h k r refl
  ttl_command-AnswerAlike (key ∷ []) h k r =
      reply-AnswerAlike R h k r
        (ap (λ n. write_integer (whole_seconds n)) (sim.ttl h.store k.store env.now key r.0))

  pub persist_command-AnswerAlike :
      (args : List Bytes) (h : Handler S) (k : Handler T)
      → AreAlike R h k
      → AnswerAlike R (Expiry.persist_command a env args h) (Expiry.persist_command b env args k)
  unfolding Expiry.persist_command
  persist_command-AnswerAlike [] h k r = reply-AnswerAlike R h k r refl
  persist_command-AnswerAlike (key ∷ x ∷ xs) h k r = reply-AnswerAlike R h k r refl
  persist_command-AnswerAlike (key ∷ []) h k r =
      with_store-AnswerAlike R h k one_if_ok _ _ r (sim.persist h.store k.store key r.0)
