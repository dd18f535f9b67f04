-- ===== src/Store/Glob/Pattern.antt =====
-- What it means for a text to match a glob pattern, with no search order in it.
use warpdb.Base.{
  ℕ, true, ◌≡◌, ◌≢◌, refl, none, some, [], ◌∷◌, ◌++◌, Bytes, arith, ◌==◌, ==_iff, ◌⊎◌, inl, inr,
}
use warpdb.Store.Glob.{split_class, in_class}
use warpdb.Store.Glob.Classes.{
  InClass, IsOpen, InClass-in_class, split_class-closed, split_class-open,
}

abbrev pub IsPlain : ℕ → Type 0
IsPlain c = (c ≢ b'*') × (c ≢ b'?') × (c ≢ b'[')

-- A star matches any run of bytes, `?` one byte, a class one byte that is in it, and any other byte
-- itself. A bracket that is never closed makes the rest of the pattern stand for itself.
pub data Matches : Bytes → Bytes → Type 0 where
  done : Matches [] []
  skip_star : {c : ℕ} {p s : Bytes} → c ≡ b'*' → Matches p s → Matches (c ∷ p) s
  take_byte : {c d : ℕ} {p s : Bytes} → c ≡ b'*' → Matches (c ∷ p) s → Matches (c ∷ p) (d ∷ s)
  any_byte : {c d : ℕ} {p s : Bytes} → c ≡ b'?' → Matches p s → Matches (c ∷ p) (d ∷ s)
  in_brackets :
      {c d : ℕ} {p class after s : Bytes}
      → c ≡ b'['
      → p ≡ class ++ (b']' ∷ after)
      → IsOpen class
      → InClass class d
      → Matches after s
      → Matches (c ∷ p) (d ∷ s)
  unclosed : {c : ℕ} {p s : Bytes} → c ≡ b'[' → IsOpen p → s ≡ c ∷ p → Matches (c ∷ p) s
  same_byte : {c d : ℕ} {p s : Bytes} → IsPlain c → c ≡ d → Matches p s → Matches (c ∷ p) (d ∷ s)

-- The search for the bracket finds it.
split_at :
    {p class after : Bytes}
    → p ≡ class ++ (b']' ∷ after)
    → IsOpen class
    → split_class p ≡ some (class, after)
split_at {class} {after} x o = rw x (split_class-closed class after o)

-- What a pattern that begins with `c` asks of the text.
pub star_inv_nil : {c : ℕ} {p : Bytes} → c ≡ b'*' → Matches (c ∷ p) [] → Matches p []
star_inv_nil e (skip_star _ m) = m
star_inv_nil e (unclosed h _ _) = absurd (omega arith)

pub star_inv :
    {c d : ℕ} {p s : Bytes}
    → c ≡ b'*'
    → Matches (c ∷ p) (d ∷ s)
    → Matches p (d ∷ s) ⊎ Matches (c ∷ p) s
star_inv e (skip_star _ m) = inl m
star_inv e (take_byte _ m) = inr m
star_inv e (any_byte h _) = absurd (omega arith)
star_inv e (in_brackets h _ _ _ _) = absurd (omega arith)
star_inv e (unclosed h _ _) = absurd (omega arith)
star_inv e (same_byte h _ _) = absurd (h.0 e)

pub any_inv : {c d : ℕ} {p s : Bytes} → c ≡ b'?' → Matches (c ∷ p) (d ∷ s) → Matches p s
any_inv e (skip_star h _) = absurd (omega arith)
any_inv e (take_byte h _) = absurd (omega arith)
any_inv e (any_byte _ m) = m
any_inv e (in_brackets h _ _ _ _) = absurd (omega arith)
any_inv e (unclosed h _ _) = absurd (omega arith)
any_inv e (same_byte h _ _) = absurd (h.1 e)

pub any_inv_nil : {c : ℕ} {p : Bytes} → c ≡ b'?' → ¬ Matches (c ∷ p) []
any_inv_nil e (skip_star h _) = omega arith
any_inv_nil e (unclosed h _ _) = omega arith

pub plain_inv :
    {c d : ℕ} {p s : Bytes} → IsPlain c → Matches (c ∷ p) (d ∷ s) → (c ≡ d) × Matches p s
plain_inv e (skip_star h _) = absurd (e.0 h)
plain_inv e (take_byte h _) = absurd (e.0 h)
plain_inv e (any_byte h _) = absurd (e.1 h)
plain_inv e (in_brackets h _ _ _ _) = absurd (e.2 h)
plain_inv e (unclosed h _ _) = absurd (e.2 h)
plain_inv e (same_byte _ h m) = (h, m)

pub plain_inv_nil : {c : ℕ} {p : Bytes} → IsPlain c → ¬ Matches (c ∷ p) []
plain_inv_nil e (skip_star h _) = e.0 h
plain_inv_nil e (unclosed h _ _) = e.2 h

pub unclosed_inv :
    {c : ℕ} {p s : Bytes} → c ≡ b'[' → split_class p ≡ none → Matches (c ∷ p) s → s ≡ c ∷ p
unclosed_inv e n (skip_star h _) = absurd (omega arith)
unclosed_inv e n (take_byte h _) = absurd (omega arith)
unclosed_inv e n (any_byte h _) = absurd (omega arith)
unclosed_inv e n (in_brackets {class} {after} _ x o _ _) = let found = split_at x o in cc (found, n)
unclosed_inv e n (unclosed _ _ x) = x
unclosed_inv e n (same_byte h _ _) = absurd (h.2 e)

pub class_inv :
    {c d : ℕ} {p s : Bytes} {class after : Bytes}
    → c ≡ b'['
    → split_class p ≡ some (class, after)
    → Matches (c ∷ p) (d ∷ s)
    → (in_class class d ≡ true) × Matches after s
class_inv e n (skip_star h _) = absurd (omega arith)
class_inv e n (take_byte h _) = absurd (omega arith)
class_inv e n (any_byte h _) = absurd (omega arith)
class_inv {d} {s} {class} {after} e n (in_brackets {class = cl} {after = af} _ x o i m) =
    let found = split_at x o in
    let first : cl ≡ class = cc (found, n) in
    let second : af ≡ after = cc (found, n) in (rw (← first) (InClass-in_class i), rw (← second) m)
class_inv {p} e n (unclosed _ x _) = let none_found = split_class-open p x in cc (none_found, n)
class_inv e n (same_byte h _ _) = absurd (h.2 e)

pub class_inv_nil :
    {c : ℕ} {p class after : Bytes}
    → c ≡ b'['
    → split_class p ≡ some (class, after)
    → ¬ Matches (c ∷ p) []
class_inv_nil e n (skip_star h _) = omega arith
class_inv_nil {p} e n (unclosed _ x _) = let none_found = split_class-open p x in cc (none_found, n)

pub nil_inv : {s : Bytes} → Matches [] s → s ≡ []
nil_inv done = refl

-- A star at the end of the pattern matches all that is left.
pub last_star : {c : ℕ} (s : Bytes) → c ≡ b'*' → Matches (c ∷ []) s
last_star [] e = skip_star e done
last_star (d ∷ s) e = take_byte e (last_star s e)

pub ==→eq : {a b : ℕ} → (a == b) ≡ true → a ≡ b
==→eq e = (==_iff _ _).0 e
