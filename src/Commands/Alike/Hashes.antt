-- ===== src/Commands/Alike/Hashes.antt =====
-- The hash commands of core/commands/commands.go over two engines that answer alike.
use warpdb.Base.{ℕ, ◌≡◌, refl, ap, Option, none, some, List, [], ◌∷◌, Bytes}
use warpdb.GoMap.{Map}
use warpdb.Engine.{StorageEngine}
use warpdb.Engine.Simulation.{Simulates}
use warpdb.Protocol.{write_array}
use warpdb.Commands.{Handler, ok_reply, integer, one_or_zero, bulk_or_null}
use warpdb.Commands.Alike.{
  AreAlike, AnswerAlike, AreSome, reply-AnswerAlike, with_store-AnswerAlike, store-AnswerAlike,
}
use warpdb.Engine.Simulation.{Related}
use warpdb.Commands.Hashes
use warpdb.Commands.Hashes.{pairs_map, hset_pairs, hset_reply, hmset_reply}

module _ {S T : Type 0} (R : S → T → Type 0) (a : StorageEngine S) (b : StorageEngine T)
    (sim : Simulates R a b) where
  hset_pairs-AreSome :
      (key : Bytes) (more : List Bytes) (count count' : ℕ) (s : S) (t : T)
      → R s t
      → count ≡ count'
      → AreSome (Related R) (hset_pairs a key more count s) (hset_pairs b key more count' t)
  unfolding hset_pairs
  hset_pairs-AreSome key [] n m s t r same = (r, same)
  hset_pairs-AreSome key (field ∷ []) n m s t r same = tt
  hset_pairs-AreSome key (field ∷ value ∷ more) n m s t r same =
      let (r', added) = sim.hset s t key field value r in hset_pairs-AreSome key more _ _ _ _ r' cc

  hset_reply-AnswerAlike :
      (h : Handler S) (k : Handler T) (out : Option (S × ℕ)) (out' : Option (T × ℕ))
      → AreAlike R h k
      → AreSome (Related R) out out'
      → AnswerAlike R (hset_reply a h out) (hset_reply b k out')
  hset_reply-AnswerAlike h k none (some q) r same = elim same [ ]
  hset_reply-AnswerAlike h k (some p) none r same = elim same [ ]
  hset_reply-AnswerAlike h k none none r _ = reply-AnswerAlike R h k r refl
  hset_reply-AnswerAlike h k (some p) (some q) r same =
      with_store-AnswerAlike R h k integer p q r same

  pub hset_command-AnswerAlike :
      (args : List Bytes) (h : Handler S) (k : Handler T)
      → AreAlike R h k
      → AnswerAlike R (Hashes.hset_command a args h) (Hashes.hset_command b args k)
  unfolding Hashes.hset_command
  hset_command-AnswerAlike [] h k r = reply-AnswerAlike R h k r refl
  hset_command-AnswerAlike (key ∷ []) h k r = reply-AnswerAlike R h k r refl
  hset_command-AnswerAlike (key ∷ x ∷ xs) h k r =
      hset_reply-AnswerAlike h k _ _ r
        (hset_pairs-AreSome key (x ∷ xs) 0 0 h.store k.store r.0 refl)

  pub hget_command-AnswerAlike :
      (args : List Bytes) (h : Handler S) (k : Handler T)
      → AreAlike R h k
      → AnswerAlike R (Hashes.hget_command a args h) (Hashes.hget_command b args k)
  unfolding Hashes.hget_command
  hget_command-AnswerAlike [] h k r = reply-AnswerAlike R h k r refl
  hget_command-AnswerAlike (key ∷ []) h k r = reply-AnswerAlike R h k r refl
  hget_command-AnswerAlike (key ∷ x ∷ y ∷ xs) h k r = reply-AnswerAlike R h k r refl
  hget_command-AnswerAlike (key ∷ x ∷ []) h k r =
      reply-AnswerAlike R h k r (ap bulk_or_null (sim.hget h.store k.store key x r.0))

  pub hdel_command-AnswerAlike :
      (args : List Bytes) (h : Handler S) (k : Handler T)
      → AreAlike R h k
      → AnswerAlike R (Hashes.hdel_command a args h) (Hashes.hdel_command b args k)
  unfolding Hashes.hdel_command
  hdel_command-AnswerAlike [] h k r = reply-AnswerAlike R h k r refl
  hdel_command-AnswerAlike (key ∷ []) h k r = reply-AnswerAlike R h k r refl
  hdel_command-AnswerAlike (key ∷ x ∷ xs) h k r =
      with_store-AnswerAlike R h k integer _ _ r (sim.hdel h.store k.store key (x ∷ xs) r.0)

  pub hgetall_command-AnswerAlike :
      (args : List Bytes) (h : Handler S) (k : Handler T)
      → AreAlike R h k
      → AnswerAlike R (Hashes.hgetall_command a args h) (Hashes.hgetall_command b args k)
  unfolding Hashes.hgetall_command
  hgetall_command-AnswerAlike [] h k r = reply-AnswerAlike R h k r refl
  hgetall_command-AnswerAlike (key ∷ x ∷ xs) h k r = reply-AnswerAlike R h k r refl
  hgetall_command-AnswerAlike (key ∷ []) h k r =
      reply-AnswerAlike R h k r (ap write_array (sim.hget_all h.store k.store key r.0))

  pub hkeys_command-AnswerAlike :
      (args : List Bytes) (h : Handler S) (k : Handler T)
      → AreAlike R h k
      → AnswerAlike R (Hashes.hkeys_command a args h) (Hashes.hkeys_command b args k)
  unfolding Hashes.hkeys_command
  hkeys_command-AnswerAlike [] h k r = reply-AnswerAlike R h k r refl
  hkeys_command-AnswerAlike (key ∷ x ∷ xs) h k r = reply-AnswerAlike R h k r refl
  hkeys_command-AnswerAlike (key ∷ []) h k r =
      reply-AnswerAlike R h k r (ap write_array (sim.hkeys h.store k.store key r.0))

  pub hvals_command-AnswerAlike :
      (args : List Bytes) (h : Handler S) (k : Handler T)
      → AreAlike R h k
      → AnswerAlike R (Hashes.hvals_command a args h) (Hashes.hvals_command b args k)
  unfolding Hashes.hvals_command
  hvals_command-AnswerAlike [] h k r = reply-AnswerAlike R h k r refl
  hvals_command-AnswerAlike (key ∷ x ∷ xs) h k r = reply-AnswerAlike R h k r refl
  hvals_command-AnswerAlike (key ∷ []) h k r =
      reply-AnswerAlike R h k r (ap write_array (sim.hvals h.store k.store key r.0))

  pub hexists_command-AnswerAlike :
      (args : List Bytes) (h : Handler S) (k : Handler T)
      → AreAlike R h k
      → AnswerAlike R (Hashes.hexists_command a args h) (Hashes.hexists_command b args k)
  unfolding Hashes.hexists_command
  hexists_command-AnswerAlike [] h k r = reply-AnswerAlike R h k r refl
  hexists_command-AnswerAlike (key ∷ []) h k r = reply-AnswerAlike R h k r refl
  hexists_command-AnswerAlike (key ∷ x ∷ y ∷ xs) h k r = reply-AnswerAlike R h k r refl
  hexists_command-AnswerAlike (key ∷ x ∷ []) h k r =
      reply-AnswerAlike R h k r (ap one_or_zero (sim.hexists h.store k.store key x r.0))

  pub hlen_command-AnswerAlike :
      (args : List Bytes) (h : Handler S) (k : Handler T)
      → AreAlike R h k
      → AnswerAlike R (Hashes.hlen_command a args h) (Hashes.hlen_command b args k)
  unfolding Hashes.hlen_command
  hlen_command-AnswerAlike [] h k r = reply-AnswerAlike R h k r refl
  hlen_command-AnswerAlike (key ∷ x ∷ xs) h k r = reply-AnswerAlike R h k r refl
  hlen_command-AnswerAlike (key ∷ []) h k r =
      reply-AnswerAlike R h k r (ap integer (sim.hlen h.store k.store key r.0))

  hmset_reply-AnswerAlike :
      (key : Bytes) (h : Handler S) (k : Handler T) (fields : Option (Map Bytes))
      → AreAlike R h k
      → AnswerAlike R (hmset_reply a key h fields) (hmset_reply b key k fields)
  hmset_reply-AnswerAlike key h k none r = reply-AnswerAlike R h k r refl
  hmset_reply-AnswerAlike key h k (some fields) r =
      store-AnswerAlike R h k ok_reply _ _ r (sim.hmset h.store k.store key fields r.0)

  pub hmset_command-AnswerAlike :
      (args : List Bytes) (h : Handler S) (k : Handler T)
      → AreAlike R h k
      → AnswerAlike R (Hashes.hmset_command a args h) (Hashes.hmset_command b args k)
  unfolding Hashes.hmset_command
  hmset_command-AnswerAlike [] h k r = reply-AnswerAlike R h k r refl
  hmset_command-AnswerAlike (key ∷ []) h k r = reply-AnswerAlike R h k r refl
  hmset_command-AnswerAlike (key ∷ x ∷ xs) h k r =
      hmset_reply-AnswerAlike key h k (pairs_map (x ∷ xs) []) r

  pub hmget_command-AnswerAlike :
      (args : List Bytes) (h : Handler S) (k : Handler T)
      → AreAlike R h k
      → AnswerAlike R (Hashes.hmget_command a args h) (Hashes.hmget_command b args k)
  unfolding Hashes.hmget_command
  hmget_command-AnswerAlike [] h k r = reply-AnswerAlike R h k r refl
  hmget_command-AnswerAlike (key ∷ []) h k r = reply-AnswerAlike R h k r refl
  hmget_command-AnswerAlike (key ∷ x ∷ xs) h k r =
      reply-AnswerAlike R h k r (ap write_array (sim.hmget h.store k.store key (x ∷ xs) r.0))
