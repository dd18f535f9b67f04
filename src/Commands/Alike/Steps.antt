-- ===== src/Commands/Alike/Steps.antt =====
-- The steps and loops inside the commands on strings and keys of core/commands/commands.go, over two
-- engines that answer alike.
use warpdb.Base.{
  ℕ, zero, suc, ◌++◌, ◌≡◌, refl, Bool, true, false, List, [], ◌∷◌, Bytes, ℤ, ltb, if◌then◌else◌,
}
use mathlib.Core.Path.{subst}
use warpdb.Store.{Result, ok, fail}
use warpdb.Engine.{Answer, answered, log_failed, StorageEngine}
use warpdb.Engine.Simulation.{Related, Simulates}
use warpdb.Commands.{Handler, Env}
use warpdb.Commands.Alike.{AreAlike, AnswerAlike, AreSome, store-AnswerAlike}
use warpdb.Commands.Strings.{
  value_or_empty, repeat_next, repeat_step, del_all, rename_to, type_test, type_name, type_of,
  append_to, set_pairs, get_all,
}

module _ {S T : Type 0} (R : S → T → Type 0) where
  repeat_next-Related :
      (next : ℤ → S → S × Answer ℤ) (next' : ℤ → T → T × Answer ℤ)
      → ((n : ℤ) (s : S) (t : T) → R s t → Related R (next n s) (next' n t))
      → (s : S) (t : T) (x : Answer ℤ) → R s t
      → Related R (repeat_next next (s, x)) (repeat_next next' (t, x))
  unfolding repeat_next
  repeat_next-Related next next' alike s t (answered (ok n)) r = alike n s t r
  repeat_next-Related next next' alike s t (answered (fail e)) r = (r, refl)
  repeat_next-Related next next' alike s t log_failed r = (r, refl)

  pub repeat_step-Related :
      (step : S → S × Answer ℤ) (step' : T → T × Answer ℤ)
      → ((s : S) (t : T) → R s t → Related R (step s) (step' t))
      → (n : ℕ) (result : ℤ) (s : S) (t : T) → R s t
      → Related R (repeat_step step n result s) (repeat_step step' n result t)
  unfolding repeat_step
  repeat_step-Related step step' alike zero result s t r = (r, refl)
  repeat_step-Related step step' alike (suc n) result s t r =
      let (r', same) = alike s t r in
      subst
        (λ y.
          Related R (repeat_next (repeat_step step n) (step s))
            (repeat_next (repeat_step step' n) ((step' t).0, y)))
        same
        (repeat_next-Related (repeat_step step n) (repeat_step step' n)
          (repeat_step-Related step step' alike n) _ _ _ r')

  -- Both take the same branch.
  branch-Related :
      (c : Bool) {A : Type 0} (x y : S × A) (x' y' : T × A)
      → Related R x x'
      → Related R y y'
      → Related R (if c then x else y) (if c then x' else y')
  branch-Related true x y x' y' first second = first
  branch-Related false x y x' y' first second = second

  if-Related :
      (c d : Bool) (x y : S × Bytes) (x' y' : T × Bytes)
      → c ≡ d
      → Related R x x'
      → Related R y y'
      → Related R (if c then x else y) (if d then x' else y')
  if-Related c d x y x' y' same first second =
      subst (λ d. Related R (if c then x else y) (if d then x' else y')) same
        (branch-Related c x y x' y' first second)

module _ {S T : Type 0} (R : S → T → Type 0) (a : StorageEngine S) (b : StorageEngine T)
    (sim : Simulates R a b) (env : Env) where
  pub del_all-Related :
      (keys : List Bytes) (n m : ℕ) (s : S) (t : T)
      → R s t
      → n ≡ m
      → Related R (del_all a env keys n s) (del_all b env keys m t)
  unfolding del_all
  del_all-Related [] n m s t r same = (r, same)
  del_all-Related (key ∷ keys) n m s t r same =
      let (r', one) = sim.del s t key r in del_all-Related keys _ _ _ _ r' cc

  pub set_pairs-AreSome :
      (more : List Bytes) (s : S) (t : T)
      → R s t
      → AreSome R (set_pairs a env more s) (set_pairs b env more t)
  unfolding set_pairs
  set_pairs-AreSome [] s t r = r
  set_pairs-AreSome (key ∷ []) s t r = tt
  set_pairs-AreSome (key ∷ value ∷ more) s t r =
      set_pairs-AreSome more _ _ (sim.set s t key value r).0

  renamed-AnswerAlike :
      (key new_key : Bytes) (h : Handler S) (k : Handler T) (s : S) (t : T) (x : Result Bytes)
      → AreAlike R h k
      → R s t
      → AnswerAlike R (rename_to a env key new_key h (s, x)) (rename_to b env key new_key k (t, x))
  renamed-AnswerAlike key new_key h k s t (fail e) alike r = store-AnswerAlike R h k _ s t alike r
  renamed-AnswerAlike key new_key h k s t (ok v) alike r =
      store-AnswerAlike R h k _ _ _ alike (sim.del _ _ key (sim.set s t new_key v r).0).0

  pub rename_to-AnswerAlike :
      (key new_key : Bytes) (h : Handler S) (k : Handler T) (p : S × Result Bytes)
      (q : T × Result Bytes)
      → AreAlike R h k
      → Related R p q
      → AnswerAlike R (rename_to a env key new_key h p) (rename_to b env key new_key k q)
  rename_to-AnswerAlike key new_key h k (s, x) (t, y) alike (r, same) =
      subst
        (λ y.
          AnswerAlike R (rename_to a env key new_key h (s, x))
            (rename_to b env key new_key k (t, y)))
        same (renamed-AnswerAlike key new_key h k s t x alike r)

  pub append_to-AnswerAlike :
      (key suffix : Bytes) (h : Handler S) (k : Handler T) (p : S × Result Bytes)
      (q : T × Result Bytes)
      → AreAlike R h k
      → Related R p q
      → AnswerAlike R (append_to a env key suffix h p) (append_to b env key suffix k q)
  append_to-AnswerAlike key suffix h k (s, x) (t, y) alike (r, same) =
      subst
        (λ y.
          AnswerAlike R (append_to a env key suffix h (s, x)) (append_to b env key suffix k (t, y)))
        same
        (store-AnswerAlike R h k _ _ _ alike (sim.set s t key (value_or_empty x ++ suffix) r).0)

  pub get_all-Related :
      (keys : List Bytes) (s : S) (t : T)
      → R s t
      → Related R (get_all a env keys s) (get_all b env keys t)
  unfolding get_all
  get_all-Related [] s t r = (r, refl)
  get_all-Related (key ∷ keys) s t r =
      let (r1, one) = sim.get s t env.now key r in
      let (r2, more) = get_all-Related keys _ _ r1 in (r2, cc)

  type_test-Related :
      (n m : ℕ) (key : Bytes) (s : S) (t : T)
      → R s t
      → n ≡ m
      → Related R (type_test a env n key s) (type_test b env m key t)
  type_test-Related n m key s t r same =
      subst (λ m. Related R (type_test a env n key s) (type_test b env m key t)) same
        (branch-Related R (ltb 0 n) _ _ _ _ (r, refl) (sim.exists s t env.now key r))

  type_name-Related :
      (key : Bytes) (s : S) (t : T)
      → R s t
      → Related R (type_name a env key s) (type_name b env key t)
  type_name-Related key s t r =
      let (r1, list) = type_test-Related _ _ key s t r (sim.llen s t key r) in
      let (r2, set') = type_test-Related _ _ key _ _ r1 (sim.scard _ _ key r1) in
      let (r3, hash) = type_test-Related _ _ key _ _ r2 (sim.hlen _ _ key r2) in
      if-Related R _ _ _ _ _ _ list (r1, refl)
        (if-Related R _ _ _ _ _ _ set' (r2, refl)
          (if-Related R _ _ _ _ _ _ hash (r3, refl) (r3, refl)))

  typed-Related :
      (key : Bytes) (s : S) (t : T) (x : Result Bytes)
      → R s t
      → Related R (type_of a env key (s, x)) (type_of b env key (t, x))
  typed-Related key s t (ok v) r = (r, refl)
  typed-Related key s t (fail e) r = type_name-Related key s t r

  pub type_of-Related :
      (key : Bytes) (p : S × Result Bytes) (q : T × Result Bytes)
      → Related R p q
      → Related R (type_of a env key p) (type_of b env key q)
  type_of-Related key (s, x) (t, y) (r, same) =
      subst (λ y. Related R (type_of a env key (s, x)) (type_of b env key (t, y))) same
        (typed-Related key s t x r)
