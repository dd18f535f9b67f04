-- ===== src/Commands/Alike/Sets.antt =====
-- The set commands of core/commands/commands.go over two engines that answer alike.
use warpdb.Base.{refl, ap, List, [], ◌∷◌, Bytes}
use warpdb.Engine.{StorageEngine}
use warpdb.Engine.Simulation.{Simulates}
use warpdb.Protocol.{write_array}
use warpdb.Commands.{Handler, Env, integer, one_or_zero, bulk_or_null}
use warpdb.Commands.Alike.{AreAlike, AnswerAlike, reply-AnswerAlike, with_store-AnswerAlike}
use warpdb.Commands.Sets

module _ {S T : Type 0} (R : S → T → Type 0) (a : StorageEngine S) (b : StorageEngine T)
    (sim : Simulates R a b) (env : Env) where
  pub sadd_command-AnswerAlike :
      (args : List Bytes) (h : Handler S) (k : Handler T)
      → AreAlike R h k
      → AnswerAlike R (Sets.sadd_command a env args h) (Sets.sadd_command b env args k)
  unfolding Sets.sadd_command
  sadd_command-AnswerAlike [] h k r = reply-AnswerAlike R h k r refl
  sadd_command-AnswerAlike (key ∷ []) h k r = reply-AnswerAlike R h k r refl
  sadd_command-AnswerAlike (key ∷ x ∷ xs) h k r =
      with_store-AnswerAlike R h k integer _ _ r (sim.sadd h.store k.store key (x ∷ xs) r.0)

  pub srem_command-AnswerAlike :
      (args : List Bytes) (h : Handler S) (k : Handler T)
      → AreAlike R h k
      → AnswerAlike R (Sets.srem_command a env args h) (Sets.srem_command b env args k)
  unfolding Sets.srem_command
  srem_command-AnswerAlike [] h k r = reply-AnswerAlike R h k r refl
  srem_command-AnswerAlike (key ∷ []) h k r = reply-AnswerAlike R h k r refl
  srem_command-AnswerAlike (key ∷ x ∷ xs) h k r =
      with_store-AnswerAlike R h k integer _ _ r (sim.srem h.store k.store key (x ∷ xs) r.0)

  pub smembers_command-AnswerAlike :
      (args : List Bytes) (h : Handler S) (k : Handler T)
      → AreAlike R h k
      → AnswerAlike R (Sets.smembers_command a env args h) (Sets.smembers_command b env args k)
  unfolding Sets.smembers_command
  smembers_command-AnswerAlike [] h k r = reply-AnswerAlike R h k r refl
  smembers_command-AnswerAlike (key ∷ x ∷ xs) h k r = reply-AnswerAlike R h k r refl
  smembers_command-AnswerAlike (key ∷ []) h k r =
      reply-AnswerAlike R h k r (ap write_array (sim.smembers h.store k.store key r.0))

  pub sismember_command-AnswerAlike :
      (args : List Bytes) (h : Handler S) (k : Handler T)
      → AreAlike R h k
      → AnswerAlike R (Sets.sismember_command a env args h) (Sets.sismember_command b env args k)
  unfolding Sets.sismember_command
  sismember_command-AnswerAlike [] h k r = reply-AnswerAlike R h k r refl
  sismember_command-AnswerAlike (key ∷ []) h k r = reply-AnswerAlike R h k r refl
  sismember_command-AnswerAlike (key ∷ x ∷ y ∷ xs) h k r = reply-AnswerAlike R h k r refl
  sismember_command-AnswerAlike (key ∷ x ∷ []) h k r =
      reply-AnswerAlike R h k r (ap one_or_zero (sim.sis_member h.store k.store key x r.0))

  pub scard_command-AnswerAlike :
      (args : List Bytes) (h : Handler S) (k : Handler T)
      → AreAlike R h k
      → AnswerAlike R (Sets.scard_command a env args h) (Sets.scard_command b env args k)
  unfolding Sets.scard_command
  scard_command-AnswerAlike [] h k r = reply-AnswerAlike R h k r refl
  scard_command-AnswerAlike (key ∷ x ∷ xs) h k r = reply-AnswerAlike R h k r refl
  scard_command-AnswerAlike (key ∷ []) h k r =
      reply-AnswerAlike R h k r (ap integer (sim.scard h.store k.store key r.0))

  pub spop_command-AnswerAlike :
      (args : List Bytes) (h : Handler S) (k : Handler T)
      → AreAlike R h k
      → AnswerAlike R (Sets.spop_command a env args h) (Sets.spop_command b env args k)
  unfolding Sets.spop_command
  spop_command-AnswerAlike [] h k r = reply-AnswerAlike R h k r refl
  spop_command-AnswerAlike (key ∷ x ∷ xs) h k r = reply-AnswerAlike R h k r refl
  spop_command-AnswerAlike (key ∷ []) h k r =
      with_store-AnswerAlike R h k bulk_or_null _ _ r (sim.spop h.store k.store env.pick key r.0)

  pub srandmember_command-AnswerAlike :
      (args : List Bytes) (h : Handler S) (k : Handler T)
      → AreAlike R h k
      → AnswerAlike R
          (Sets.srandmember_command a env args h)
          (Sets.srandmember_command b env args k)
  unfolding Sets.srandmember_command
  srandmember_command-AnswerAlike [] h k r = reply-AnswerAlike R h k r refl
  srandmember_command-AnswerAlike (key ∷ x ∷ xs) h k r = reply-AnswerAlike R h k r refl
  srandmember_command-AnswerAlike (key ∷ []) h k r =
      reply-AnswerAlike R h k r
        (ap bulk_or_null (sim.srand_member h.store k.store env.pick key r.0))
