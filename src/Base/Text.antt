-- ===== src/Base/Text.antt =====
-- A Go string is its bytes, a list of numbers. Keys are compared by `beq`.
use Prim.Native.Nat.{ℕ, ◌<◌}
use Prim.Native.Char.{code}
use Prim.Native.String.{String}
use mathlib.Core.Path.{◌≡◌, refl}
use mathlib.Core.Logic.{◌↔◌}
use mathlib.Core.Bool.{Bool, true, false, ◌&&◌}
use mathlib.Core.List.{List, [], ◌∷◌}
use native.Mathlib.Omega.{arith}
use warpdb.Base.Tests.{◌==◌}

abbrev pub Bytes : Type 0
Bytes = List ℕ

abbrev pub IsByte : ℕ → Type 0
IsByte b = b < 256

-- The bytes of an ASCII literal.
abbrev pub codes : String → Bytes
codes String.[] = []
codes (String.◌∷◌ c s) = code c ∷ codes s

unfoldable pub beq : Bytes → Bytes → Bool
beq [] [] = true
beq (a ∷ s) (b ∷ t) = a == b && beq s t
beq _ _ = false

beq→eq : (s t : Bytes) → beq s t ≡ true → s ≡ t
unfolding beq
beq→eq [] [] h = refl
beq→eq [] (b ∷ t) h = cc
beq→eq (a ∷ s) [] h = cc
beq→eq (a ∷ s) (b ∷ t) h = ground (arith, beq→eq s t)

pub beq_refl : (s : Bytes) → beq s s ≡ true
unfolding beq
beq_refl [] = refl
beq_refl (a ∷ s) = ground (arith, beq_refl s)

pub beq_iff : (s t : Bytes) → (beq s t ≡ true) ↔ (s ≡ t)
beq_iff s t = (beq→eq s t, λ e. rw e (beq_refl t))

pub beq_sym : (s t : Bytes) → beq s t ≡ beq t s
beq_sym s t = ground (arith, beq_iff s t, beq_iff t s)
