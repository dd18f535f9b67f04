-- ===== src/Commands/Alike/Lists.antt =====
-- The list commands of core/commands/commands.go over two engines that answer alike.
use warpdb.Base.{refl, ap, Option, none, some, List, [], ◌∷◌, Bytes, ℤ}
use warpdb.Strconv.{atoi}
use warpdb.Engine.{StorageEngine}
use warpdb.Engine.Simulation.{Simulates}
use warpdb.Commands.{Handler, integer, bulk_or_null}
use warpdb.Commands.Alike.{AreAlike, AnswerAlike, reply-AnswerAlike, with_store-AnswerAlike}
use warpdb.Commands.Lists
use warpdb.Commands.Lists.{range_reply, lrange_between, lindex_at}

module _ {S T : Type 0} (R : S → T → Type 0) (a : StorageEngine S) (b : StorageEngine T)
    (sim : Simulates R a b) where
  pub lpush_command-AnswerAlike :
      (args : List Bytes) (h : Handler S) (k : Handler T)
      → AreAlike R h k
      → AnswerAlike R (Lists.lpush_command a args h) (Lists.lpush_command b args k)
  unfolding Lists.lpush_command
  lpush_command-AnswerAlike [] h k r = reply-AnswerAlike R h k r refl
  lpush_command-AnswerAlike (key ∷ []) h k r = reply-AnswerAlike R h k r refl
  lpush_command-AnswerAlike (key ∷ x ∷ xs) h k r =
      with_store-AnswerAlike R h k integer _ _ r (sim.lpush h.store k.store key (x ∷ xs) r.0)

  pub rpush_command-AnswerAlike :
      (args : List Bytes) (h : Handler S) (k : Handler T)
      → AreAlike R h k
      → AnswerAlike R (Lists.rpush_command a args h) (Lists.rpush_command b args k)
  unfolding Lists.rpush_command
  rpush_command-AnswerAlike [] h k r = reply-AnswerAlike R h k r refl
  rpush_command-AnswerAlike (key ∷ []) h k r = reply-AnswerAlike R h k r refl
  rpush_command-AnswerAlike (key ∷ x ∷ xs) h k r =
      with_store-AnswerAlike R h k integer _ _ r (sim.rpush h.store k.store key (x ∷ xs) r.0)

  pub lpop_command-AnswerAlike :
      (args : List Bytes) (h : Handler S) (k : Handler T)
      → AreAlike R h k
      → AnswerAlike R (Lists.lpop_command a args h) (Lists.lpop_command b args k)
  unfolding Lists.lpop_command
  lpop_command-AnswerAlike [] h k r = reply-AnswerAlike R h k r refl
  lpop_command-AnswerAlike (key ∷ xs) h k r =
      with_store-AnswerAlike R h k bulk_or_null _ _ r (sim.lpop h.store k.store key r.0)

  pub rpop_command-AnswerAlike :
      (args : List Bytes) (h : Handler S) (k : Handler T)
      → AreAlike R h k
      → AnswerAlike R (Lists.rpop_command a args h) (Lists.rpop_command b args k)
  unfolding Lists.rpop_command
  rpop_command-AnswerAlike [] h k r = reply-AnswerAlike R h k r refl
  rpop_command-AnswerAlike (key ∷ xs) h k r =
      with_store-AnswerAlike R h k bulk_or_null _ _ r (sim.rpop h.store k.store key r.0)

  pub llen_command-AnswerAlike :
      (args : List Bytes) (h : Handler S) (k : Handler T)
      → AreAlike R h k
      → AnswerAlike R (Lists.llen_command a args h) (Lists.llen_command b args k)
  unfolding Lists.llen_command
  llen_command-AnswerAlike [] h k r = reply-AnswerAlike R h k r refl
  llen_command-AnswerAlike (key ∷ x ∷ xs) h k r = reply-AnswerAlike R h k r refl
  llen_command-AnswerAlike (key ∷ []) h k r =
      reply-AnswerAlike R h k r (ap integer (sim.llen h.store k.store key r.0))

  lrange_between-AnswerAlike :
      (key : Bytes) (start stop : Option ℤ) (h : Handler S) (k : Handler T)
      → AreAlike R h k
      → AnswerAlike R (lrange_between a key start stop h) (lrange_between b key start stop k)
  lrange_between-AnswerAlike key (some i) (some j) h k r =
      reply-AnswerAlike R h k r (ap range_reply (sim.lrange h.store k.store key i j r.0))
  lrange_between-AnswerAlike key none stop h k r = reply-AnswerAlike R h k r refl
  lrange_between-AnswerAlike key (some i) none h k r = reply-AnswerAlike R h k r refl

  pub lrange_command-AnswerAlike :
      (args : List Bytes) (h : Handler S) (k : Handler T)
      → AreAlike R h k
      → AnswerAlike R (Lists.lrange_command a args h) (Lists.lrange_command b args k)
  unfolding Lists.lrange_command
  lrange_command-AnswerAlike [] h k r = reply-AnswerAlike R h k r refl
  lrange_command-AnswerAlike (key ∷ []) h k r = reply-AnswerAlike R h k r refl
  lrange_command-AnswerAlike (key ∷ x ∷ []) h k r = reply-AnswerAlike R h k r refl
  lrange_command-AnswerAlike (key ∷ x ∷ y ∷ z ∷ xs) h k r = reply-AnswerAlike R h k r refl
  lrange_command-AnswerAlike (key ∷ x ∷ y ∷ []) h k r =
      lrange_between-AnswerAlike key (atoi x) (atoi y) h k r

  lindex_at-AnswerAlike :
      (key : Bytes) (index : Option ℤ) (h : Handler S) (k : Handler T)
      → AreAlike R h k
      → AnswerAlike R (lindex_at a key index h) (lindex_at b key index k)
  lindex_at-AnswerAlike key none h k r = reply-AnswerAlike R h k r refl
  lindex_at-AnswerAlike key (some i) h k r =
      reply-AnswerAlike R h k r (ap bulk_or_null (sim.lindex h.store k.store key i r.0))

  pub lindex_command-AnswerAlike :
      (args : List Bytes) (h : Handler S) (k : Handler T)
      → AreAlike R h k
      → AnswerAlike R (Lists.lindex_command a args h) (Lists.lindex_command b args k)
  unfolding Lists.lindex_command
  lindex_command-AnswerAlike [] h k r = reply-AnswerAlike R h k r refl
  lindex_command-AnswerAlike (key ∷ []) h k r = reply-AnswerAlike R h k r refl
  lindex_command-AnswerAlike (key ∷ x ∷ y ∷ xs) h k r = reply-AnswerAlike R h k r refl
  lindex_command-AnswerAlike (key ∷ x ∷ []) h k r = lindex_at-AnswerAlike key (atoi x) h k r
