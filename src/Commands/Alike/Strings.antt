-- ===== src/Commands/Alike/Strings.antt =====
-- The commands on strings and keys of core/commands/commands.go over two engines that answer alike.
use warpdb.Base.{refl, ap, Option, none, some, List, [], ◌∷◌, Bytes, codes, ℤ, pos}
use warpdb.Strconv.{atoi}
use warpdb.Engine.{Answer, StorageEngine}
use warpdb.Engine.Simulation.{Related, Simulates}
use warpdb.Protocol.{write_array, write_simple_string}
use warpdb.Commands.{Handler, Env, ok_reply, integer, one_or_zero, bulk_or_null}
use warpdb.Commands.Alike.{
  AreAlike, AnswerAlike, AreSome, reply-AnswerAlike, store-AnswerAlike, with_store-AnswerAlike,
}
use warpdb.Commands.Alike.Steps.{
  repeat_step-Related, del_all-Related, set_pairs-AreSome, rename_to-AnswerAlike,
  append_to-AnswerAlike, get_all-Related, type_of-Related,
}
use warpdb.Commands.Strings
use warpdb.Commands.Strings.{integer_or_error, size_reply, rounds, repeated, mset_reply, first_key}

module _ {S T : Type 0} (R : S → T → Type 0) (a : StorageEngine S) (b : StorageEngine T)
    (sim : Simulates R a b) (env : Env) where
  pub set_command-AnswerAlike :
      (args : List Bytes) (h : Handler S) (k : Handler T)
      → AreAlike R h k
      → AnswerAlike R (Strings.set_command a env args h) (Strings.set_command b env args k)
  unfolding Strings.set_command
  set_command-AnswerAlike [] h k r = reply-AnswerAlike R h k r refl
  set_command-AnswerAlike (key ∷ []) h k r = reply-AnswerAlike R h k r refl
  set_command-AnswerAlike (key ∷ x ∷ xs) h k r =
      with_store-AnswerAlike R h k (λ _. ok_reply) _ _ r (sim.set h.store k.store key x r.0)

  pub get_command-AnswerAlike :
      (args : List Bytes) (h : Handler S) (k : Handler T)
      → AreAlike R h k
      → AnswerAlike R (Strings.get_command a env args h) (Strings.get_command b env args k)
  unfolding Strings.get_command
  get_command-AnswerAlike [] h k r = reply-AnswerAlike R h k r refl
  get_command-AnswerAlike (key ∷ x ∷ xs) h k r = reply-AnswerAlike R h k r refl
  get_command-AnswerAlike (key ∷ []) h k r =
      with_store-AnswerAlike R h k bulk_or_null _ _ r (sim.get h.store k.store env.now key r.0)

  pub del_command-AnswerAlike :
      (args : List Bytes) (h : Handler S) (k : Handler T)
      → AreAlike R h k
      → AnswerAlike R (Strings.del_command a env args h) (Strings.del_command b env args k)
  unfolding Strings.del_command
  del_command-AnswerAlike [] h k r = reply-AnswerAlike R h k r refl
  del_command-AnswerAlike (key ∷ xs) h k r =
      with_store-AnswerAlike R h k integer _ _ r
        (del_all-Related R a b sim env (key ∷ xs) 0 0 _ _ r.0 refl)

  pub exists_command-AnswerAlike :
      (args : List Bytes) (h : Handler S) (k : Handler T)
      → AreAlike R h k
      → AnswerAlike R (Strings.exists_command a env args h) (Strings.exists_command b env args k)
  unfolding Strings.exists_command
  exists_command-AnswerAlike [] h k r = reply-AnswerAlike R h k r refl
  exists_command-AnswerAlike (key ∷ x ∷ xs) h k r = reply-AnswerAlike R h k r refl
  exists_command-AnswerAlike (key ∷ []) h k r =
      with_store-AnswerAlike R h k one_or_zero _ _ r (sim.exists h.store k.store env.now key r.0)

  pub incr_command-AnswerAlike :
      (args : List Bytes) (h : Handler S) (k : Handler T)
      → AreAlike R h k
      → AnswerAlike R (Strings.incr_command a env args h) (Strings.incr_command b env args k)
  unfolding Strings.incr_command
  incr_command-AnswerAlike [] h k r = reply-AnswerAlike R h k r refl
  incr_command-AnswerAlike (key ∷ x ∷ xs) h k r = reply-AnswerAlike R h k r refl
  incr_command-AnswerAlike (key ∷ []) h k r =
      with_store-AnswerAlike R h k integer_or_error _ _ r (sim.incr h.store k.store key r.0)

  pub decr_command-AnswerAlike :
      (args : List Bytes) (h : Handler S) (k : Handler T)
      → AreAlike R h k
      → AnswerAlike R (Strings.decr_command a env args h) (Strings.decr_command b env args k)
  unfolding Strings.decr_command
  decr_command-AnswerAlike [] h k r = reply-AnswerAlike R h k r refl
  decr_command-AnswerAlike (key ∷ x ∷ xs) h k r = reply-AnswerAlike R h k r refl
  decr_command-AnswerAlike (key ∷ []) h k r =
      with_store-AnswerAlike R h k integer_or_error _ _ r (sim.decr h.store k.store key r.0)

  repeated-AnswerAlike :
      (n : Option ℤ) (step : S → S × Answer ℤ) (step' : T → T × Answer ℤ) (h : Handler S)
      (k : Handler T)
      → AreAlike R h k
      → ((s : S) (t : T) → R s t → Related R (step s) (step' t))
      → AnswerAlike R (repeated a env n step h) (repeated b env n step' k)
  repeated-AnswerAlike none step step' h k r alike = reply-AnswerAlike R h k r refl
  repeated-AnswerAlike (some n) step step' h k r alike =
      with_store-AnswerAlike R h k integer_or_error _ _ r
        (repeat_step-Related R step step' alike (rounds n) (pos 0) _ _ r.0)

  pub incrby_command-AnswerAlike :
      (args : List Bytes) (h : Handler S) (k : Handler T)
      → AreAlike R h k
      → AnswerAlike R (Strings.incrby_command a env args h) (Strings.incrby_command b env args k)
  unfolding Strings.incrby_command
  incrby_command-AnswerAlike [] h k r = reply-AnswerAlike R h k r refl
  incrby_command-AnswerAlike (key ∷ []) h k r = reply-AnswerAlike R h k r refl
  incrby_command-AnswerAlike (key ∷ x ∷ y ∷ xs) h k r = reply-AnswerAlike R h k r refl
  incrby_command-AnswerAlike (key ∷ x ∷ []) h k r =
      repeated-AnswerAlike (atoi x) (a.incr key) (b.incr key) h k r (λ s t. sim.incr s t key)

  pub decrby_command-AnswerAlike :
      (args : List Bytes) (h : Handler S) (k : Handler T)
      → AreAlike R h k
      → AnswerAlike R (Strings.decrby_command a env args h) (Strings.decrby_command b env args k)
  unfolding Strings.decrby_command
  decrby_command-AnswerAlike [] h k r = reply-AnswerAlike R h k r refl
  decrby_command-AnswerAlike (key ∷ []) h k r = reply-AnswerAlike R h k r refl
  decrby_command-AnswerAlike (key ∷ x ∷ y ∷ xs) h k r = reply-AnswerAlike R h k r refl
  decrby_command-AnswerAlike (key ∷ x ∷ []) h k r =
      repeated-AnswerAlike (atoi x) (a.decr key) (b.decr key) h k r (λ s t. sim.decr s t key)

  pub rename_command-AnswerAlike :
      (args : List Bytes) (h : Handler S) (k : Handler T)
      → AreAlike R h k
      → AnswerAlike R (Strings.rename_command a env args h) (Strings.rename_command b env args k)
  unfolding Strings.rename_command
  rename_command-AnswerAlike [] h k r = reply-AnswerAlike R h k r refl
  rename_command-AnswerAlike (key ∷ []) h k r = reply-AnswerAlike R h k r refl
  rename_command-AnswerAlike (key ∷ x ∷ y ∷ xs) h k r = reply-AnswerAlike R h k r refl
  rename_command-AnswerAlike (key ∷ x ∷ []) h k r =
      rename_to-AnswerAlike R a b sim env key x h k _ _ r (sim.get h.store k.store env.now key r.0)

  pub append_command-AnswerAlike :
      (args : List Bytes) (h : Handler S) (k : Handler T)
      → AreAlike R h k
      → AnswerAlike R (Strings.append_command a env args h) (Strings.append_command b env args k)
  unfolding Strings.append_command
  append_command-AnswerAlike [] h k r = reply-AnswerAlike R h k r refl
  append_command-AnswerAlike (key ∷ []) h k r = reply-AnswerAlike R h k r refl
  append_command-AnswerAlike (key ∷ x ∷ y ∷ xs) h k r = reply-AnswerAlike R h k r refl
  append_command-AnswerAlike (key ∷ x ∷ []) h k r =
      append_to-AnswerAlike R a b sim env key x h k _ _ r (sim.get h.store k.store env.now key r.0)

  pub type_command-AnswerAlike :
      (args : List Bytes) (h : Handler S) (k : Handler T)
      → AreAlike R h k
      → AnswerAlike R (Strings.type_command a env args h) (Strings.type_command b env args k)
  unfolding Strings.type_command
  type_command-AnswerAlike [] h k r = reply-AnswerAlike R h k r refl
  type_command-AnswerAlike (key ∷ x ∷ xs) h k r = reply-AnswerAlike R h k r refl
  type_command-AnswerAlike (key ∷ []) h k r =
      with_store-AnswerAlike R h k write_simple_string _ _ r
        (type_of-Related R a b sim env key _ _ (sim.get h.store k.store env.now key r.0))

  pub strlen_command-AnswerAlike :
      (args : List Bytes) (h : Handler S) (k : Handler T)
      → AreAlike R h k
      → AnswerAlike R (Strings.strlen_command a env args h) (Strings.strlen_command b env args k)
  unfolding Strings.strlen_command
  strlen_command-AnswerAlike [] h k r = reply-AnswerAlike R h k r refl
  strlen_command-AnswerAlike (key ∷ x ∷ xs) h k r = reply-AnswerAlike R h k r refl
  strlen_command-AnswerAlike (key ∷ []) h k r =
      with_store-AnswerAlike R h k size_reply _ _ r (sim.get h.store k.store env.now key r.0)

  mset_reply-AnswerAlike :
      (h : Handler S) (k : Handler T) (s : Option S) (t : Option T)
      → AreAlike R h k
      → AreSome R s t
      → AnswerAlike R (mset_reply a env h s) (mset_reply b env k t)
  mset_reply-AnswerAlike h k none none r _ = reply-AnswerAlike R h k r refl
  mset_reply-AnswerAlike h k none (some t) r same = elim same [ ]
  mset_reply-AnswerAlike h k (some s) none r same = elim same [ ]
  mset_reply-AnswerAlike h k (some s) (some t) r same = store-AnswerAlike R h k ok_reply s t r same

  pub mset_command-AnswerAlike :
      (args : List Bytes) (h : Handler S) (k : Handler T)
      → AreAlike R h k
      → AnswerAlike R (Strings.mset_command a env args h) (Strings.mset_command b env args k)
  unfolding Strings.mset_command
  mset_command-AnswerAlike [] h k r = reply-AnswerAlike R h k r refl
  mset_command-AnswerAlike (key ∷ xs) h k r =
      mset_reply-AnswerAlike h k _ _ r (set_pairs-AreSome R a b sim env (key ∷ xs) _ _ r.0)

  pub mget_command-AnswerAlike :
      (args : List Bytes) (h : Handler S) (k : Handler T)
      → AreAlike R h k
      → AnswerAlike R (Strings.mget_command a env args h) (Strings.mget_command b env args k)
  unfolding Strings.mget_command
  mget_command-AnswerAlike [] h k r = reply-AnswerAlike R h k r refl
  mget_command-AnswerAlike (key ∷ xs) h k r =
      with_store-AnswerAlike R h k write_array _ _ r
        (get_all-Related R a b sim env (key ∷ xs) _ _ r.0)

  pub keys_command-AnswerAlike :
      (args : List Bytes) (h : Handler S) (k : Handler T)
      → AreAlike R h k
      → AnswerAlike R (Strings.keys_command a env args h) (Strings.keys_command b env args k)
  unfolding Strings.keys_command
  keys_command-AnswerAlike [] h k r = reply-AnswerAlike R h k r refl
  keys_command-AnswerAlike (key ∷ x ∷ xs) h k r = reply-AnswerAlike R h k r refl
  keys_command-AnswerAlike (key ∷ []) h k r =
      reply-AnswerAlike R h k r (ap write_array (sim.keys h.store k.store env.now key r.0))

  pub randomkey_command-AnswerAlike :
      (h : Handler S) (k : Handler T)
      → AreAlike R h k
      → AnswerAlike R (Strings.randomkey_command a env h) (Strings.randomkey_command b env k)
  unfolding Strings.randomkey_command
  randomkey_command-AnswerAlike h k r =
      reply-AnswerAlike R h k r
        (ap (first_key a env) (sim.keys h.store k.store env.now (codes "*") r.0))
