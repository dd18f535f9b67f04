-- ===== src/Commands/Alike.antt =====
-- The commands of core/commands/commands.go over two engines of which one answers as the other: what
-- it means that they leave handlers that correspond and write the same bytes. The children have the
-- commands by kind.
pub mod Sets
pub mod Lists
pub mod Hashes
pub mod Admin
pub mod Steps
pub mod Strings
pub mod Handling
use warpdb.Base.{◌≡◌, ap, refl, Option, none, some, Bool, true, false, Bytes, if◌then◌else◌}
use warpdb.Engine.Simulation.{Related}
use warpdb.Commands.{Handler, Reply, with_store}

-- Two handlers over states that correspond, with one configuration and one count of commands.
abbrev pub AreAlike : {S T : Type 0} (R : S → T → Type 0) → Handler S → Handler T → Type 0
AreAlike R h k = R h.store k.store × ((h.cfg ≡ k.cfg) × (h.total_commands ≡ k.total_commands))

-- The handlers correspond, and the bytes are the same.
unfoldable pub AnswerAlike : {S T : Type 0} (R : S → T → Type 0) → Reply S → Reply T → Type 0
AnswerAlike R (h, x) (k, y) = AreAlike R h k × (x ≡ y)

-- Both are missing, or both are there and correspond.
abbrev pub AreSome : {A B : Type 0} (Q : A → B → Type 0) → Option A → Option B → Type 0
AreSome Q none none = Unit {0}
AreSome Q (some x) (some y) = Q x y
AreSome Q _ _ = ⊥

module _ {S T : Type 0} (R : S → T → Type 0) where
  -- A reply that leaves the handler as it was.
  pub reply-AnswerAlike :
      (h : Handler S) (k : Handler T) {x y : Bytes}
      → AreAlike R h k
      → x ≡ y
      → AnswerAlike R (h, x) (k, y)
  unfolding AnswerAlike
  reply-AnswerAlike h k alike same = (alike, same)

  pub with_store-AnswerAlike :
      {A : Type 0} (h : Handler S) (k : Handler T) (show : A → Bytes) (p : S × A) (q : T × A)
      → AreAlike R h k
      → Related R p q
      → AnswerAlike R (with_store h show p) (with_store k show q)
  unfolding AnswerAlike
  with_store-AnswerAlike h k show (s, a) (t, b) (_, alike) (r, same) = ((r, alike), ap show same)

  pub store-AnswerAlike :
      (h : Handler S) (k : Handler T) (x : Bytes) (s : S) (t : T)
      → AreAlike R h k
      → R s t
      → AnswerAlike R (record h { store = s }, x) (record k { store = t }, x)
  unfolding AnswerAlike
  store-AnswerAlike h k x s t (_, alike) r = ((r, alike), refl)

  pub if-AnswerAlike :
      (c : Bool) (x y : Reply S) (x' y' : Reply T)
      → AnswerAlike R x x'
      → AnswerAlike R y y'
      → AnswerAlike R (if c then x else y) (if c then x' else y')
  if-AnswerAlike true x y x' y' then_alike else_alike = then_alike
  if-AnswerAlike false x y x' y' then_alike else_alike = else_alike
