-- ===== src/Store/Glob/Classes.antt =====
-- Which bytes a class of a glob pattern holds, and where it ends, with no loop in it.
use warpdb.Base.{
  ℕ, ◌≤◌, Bool, true, false, ◌&&◌, ◌||◌, leb, ◌≡◌, ◌≢◌, refl, ap, ◌∙◌, Option, none, some, [], ◌∷◌,
  ◌++◌, Bytes, All, arith, ◌==◌, ==_iff, Bool-cases, inl, inr, if◌then◌else◌,
}
use mathlib.Core.Path.{subst}
use warpdb.Store.Glob.{split_class, in_class}

-- The class begins with two bytes that have a `-` between them.
abbrev pub StartsRange : Bytes → Type 0
StartsRange (a ∷ d ∷ b ∷ class) = d ≡ b'-'
StartsRange _ = ⊥

-- A byte is in a class if it is in one of its ranges or is one of its other bytes.
pub data InClass : Bytes → ℕ → Type 0 where
  within :
      {a d b ch : ℕ} {class : Bytes} → d ≡ b'-' → a ≤ ch → ch ≤ b → InClass (a ∷ d ∷ b ∷ class) ch
  past_range :
      {a d b ch : ℕ} {class : Bytes} → d ≡ b'-' → InClass class ch → InClass (a ∷ d ∷ b ∷ class) ch
  alone : {a ch : ℕ} {class : Bytes} → ¬ StartsRange (a ∷ class) → a ≡ ch → InClass (a ∷ class) ch
  past_byte :
      {a ch : ℕ} {class : Bytes}
      → ¬ StartsRange (a ∷ class)
      → InClass class ch
      → InClass (a ∷ class) ch

-- The tests of globMatch on a class that does not begin with a range.
in_class-byte :
    (a ch : ℕ) (class : Bytes)
    → ¬ StartsRange (a ∷ class)
    → in_class (a ∷ class) ch ≡ (if a == ch then true else in_class class ch)
unfolding in_class
in_class-byte a ch [] n = ground arith
in_class-byte a ch (d ∷ []) n = ground arith
in_class-byte a ch (d ∷ b ∷ class) n = elim (Bool-cases (d == b'-')) [
  | inl e ↦ absurd (n ((==_iff d b'-').0 e))
  | inr e ↦ rw e (ground arith)
]

pub InClass-in_class : {class : Bytes} {ch : ℕ} → InClass class ch → in_class class ch ≡ true
unfolding in_class
InClass-in_class (within e l u) = ground (arith, e, l, u)
InClass-in_class (past_range e h) = ground (arith, e, InClass-in_class h)
InClass-in_class {ch} (alone {a} {class} n e) = in_class-byte a ch class n ∙ ground (arith, e)
InClass-in_class {ch} (past_byte {a} {class} n h) =
    in_class-byte a ch class n ∙ ground (arith, InClass-in_class h)

-- One round on a class of three bytes at least.
from_tests :
    (a d b : ℕ) (class : Bytes) (ch : ℕ) (ranged inside first : Bool)
    → (d == b'-') ≡ ranged
    → (leb a ch && leb ch b) ≡ inside
    → (a == ch) ≡ first
    → (if ranged then inside || in_class class ch else first || in_class (d ∷ b ∷ class) ch) ≡ true
    → (in_class class ch ≡ true → InClass class ch)
    → (in_class (d ∷ b ∷ class) ch ≡ true → InClass (d ∷ b ∷ class) ch)
    → InClass (a ∷ d ∷ b ∷ class) ch
from_tests a d b class ch true true first r i f h ranged single =
    within (ground arith) (ground arith) (ground arith)
from_tests a d b class ch true false first r i f h ranged single =
    past_range (ground arith) (ranged h)
from_tests a d b class ch false inside true r i f h ranged single =
    alone (λ e. ground arith) (ground arith)
from_tests a d b class ch false inside false r i f h ranged single =
    past_byte (λ e. ground arith) (single h)

pub in_class-InClass : (class : Bytes) (ch : ℕ) → in_class class ch ≡ true → InClass class ch
unfolding in_class
in_class-InClass [] ch h = cc
in_class-InClass (a ∷ []) ch h = elim (Bool-cases (a == ch)) [
  | inl e ↦ alone (λ x. x) ((==_iff a ch).0 e)
  | inr e ↦ ground arith
]
in_class-InClass (a ∷ d ∷ []) ch h = elim (Bool-cases (a == ch)) [
  | inl e ↦ alone (λ x. x) ((==_iff a ch).0 e)
  | inr e ↦ past_byte (λ x. x) (in_class-InClass (d ∷ []) ch (ground arith))
]
in_class-InClass (a ∷ d ∷ b ∷ class) ch h =
    from_tests a d b class ch (d == b'-') (leb a ch && leb ch b) (a == ch) refl refl refl h
      (in_class-InClass class ch) (in_class-InClass (d ∷ b ∷ class) ch)

some_inj : {A : Type 0} {x y : A} → some x ≡ some y → x ≡ y
some_inj e = cc

-- No bracket closes a class among these bytes.
abbrev pub IsOpen : Bytes → Type 0
IsOpen class = All (λ c. c ≢ b']') class

pub split_class-closed :
    (class after : Bytes)
    → IsOpen class
    → split_class (class ++ (b']' ∷ after)) ≡ some (class, after)
unfolding split_class
split_class-closed [] after h = refl
split_class-closed (c ∷ class) after h =
    rw (split_class-closed class after h.1) (ground (arith, h.0))

pub split_class-open : (p : Bytes) → IsOpen p → split_class p ≡ none
unfolding split_class
split_class-open [] h = refl
split_class-open (c ∷ p) h = rw (split_class-open p h.1) (ground (arith, h.0))

-- What the search for the bracket found.
pub split_class-splits :
    (p : Bytes) (q : Bytes × Bytes)
    → split_class p ≡ some q
    → (p ≡ q.0 ++ (b']' ∷ q.1)) × IsOpen q.0
unfolding split_class
split_class-splits [] q h = cc
split_class-splits (c ∷ p) q h =
    at (c == b']') (split_class p) refl (λ r x. split_class-splits p r x) h
  where
    at :
        (b : Bool) (o : Option (Bytes × Bytes))
        → (c == b']') ≡ b
        → ((r : Bytes × Bytes) → o ≡ some r → (p ≡ r.0 ++ (b']' ∷ r.1)) × IsOpen r.0)
        → (if b
            then some ([], p)
            else elim o [ none ↦ none | some (class, after) ↦ some (c ∷ class, after) ])
          ≡ some q
        → (c ∷ p ≡ q.0 ++ (b']' ∷ q.1)) × IsOpen q.0
    at true o e rest x =
        subst (λ (q : Bytes × Bytes). (c ∷ p ≡ q.0 ++ (b']' ∷ q.1)) × IsOpen q.0) (some_inj x)
          (ap (λ n. n ∷ p) ((==_iff c b']').0 e), tt)
    at false none e rest x = cc
    at false (some r) e rest x =
        subst (λ (q : Bytes × Bytes). (c ∷ p ≡ q.0 ++ (b']' ∷ q.1)) × IsOpen q.0) (some_inj x)
          (ap (λ l. c ∷ l) (rest r refl).0, ((λ y. ground arith), (rest r refl).1))

pub split_class-fails : (p : Bytes) → split_class p ≡ none → IsOpen p
unfolding split_class
split_class-fails [] h = tt
split_class-fails (c ∷ p) h = elim (Bool-cases (c == b']')) [
  | inl e ↦ ground arith
  | inr e ↦ (λ y. ground arith, split_class-fails p (ground arith))
]
