-- ===== src/Strconv.antt =====
-- Go's `strconv.Atoi` and `strconv.Itoa`, which the store, the commands and the protocol call.
pub mod RoundTrip
use warpdb.Base.{
  ℕ, zero, suc, ◌+◌, ◌-◌, ◌*◌, ◌/◌, ◌%◌, Bool, ◌&&◌, Option, none, some, [], ◌∷◌, ◌++◌, Bytes, ℤ,
  pos, negsuc, max_int, sub_ℕ, ltb, leb, ◌==◌, if◌then◌else◌,
}

abbrev pub is_digit : ℕ → Bool
is_digit c = leb 48 c && leb c 57

-- The value of a run of digits; `none` at any other byte.
unfoldable pub read_digits : ℕ → Bytes → Option ℕ
read_digits acc [] = some acc
read_digits acc (c ∷ s) = if is_digit c then read_digits (acc * 10 + (c - 48)) s else none

-- What follows a sign: one digit at least, and a value no larger than `limit`.
unfoldable pub read_within : ℕ → Bytes → Option ℕ
read_within limit [] = none
read_within limit (c ∷ s) = elim (read_digits 0 (c ∷ s)) [
  | none ↦ none
  | some n ↦ if leb n limit then some n else none
]

abbrev signed : Option ℕ → (ℕ → ℤ) → Option ℤ
signed none f = none
signed (some n) f = some (f n)

-- strconv.Atoi: `none` is its error, of syntax or of range.
unfoldable pub atoi : Bytes → Option ℤ
atoi [] = none
atoi (c ∷ s) =
    if c == b'-'
    then signed (read_within (max_int + 1) s) (λ n. sub_ℕ 0 n)
    else if c == b'+'
    then signed (read_within max_int s) pos
    else signed (read_within max_int (c ∷ s)) pos

-- The decimal digits of `n`, with as many rounds as the first argument allows.
unfoldable pub digits : ℕ → ℕ → Bytes
digits zero n = (48 + n % 10) ∷ []
digits (suc f) n =
    let rest = digits f (n / 10) in
    if ltb n 10 then (48 + n % 10) ∷ [] else rest ++ (48 + n % 10) ∷ []

-- Each round divides by ten, so `n` rounds are enough.
unfoldable pub itoa_nat : ℕ → Bytes
unfolding digits
itoa_nat n = digits n n

-- strconv.Itoa
unfoldable pub itoa : ℤ → Bytes
unfolding itoa_nat
itoa (pos n) = itoa_nat n
itoa (negsuc n) = b'-' ∷ itoa_nat (suc n)
