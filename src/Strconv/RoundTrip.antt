-- ===== src/Strconv/RoundTrip.antt =====
-- `Atoi` reads back what `Itoa` writes.
use warpdb.Base.{
  ℕ, zero, suc, ◌+◌, ◌-◌, ◌*◌, ◌/◌, ◌%◌, ◌≤◌, ◌≡◌, some, [], ◌∷◌, ◌++◌, Bytes, ℤ, pos, negsuc,
  IsInt64, max_int, arith,
}
use warpdb.Strconv.{read_digits, read_within, atoi, digits, itoa_nat, itoa}

abbrev pub IsDigit : ℕ → Type 0
IsDigit c = (48 ≤ c) × (c ≤ 57)

read_digits-snoc :
    (acc n c : ℕ) (s : Bytes)
    → read_digits acc s ≡ some n
    → IsDigit c
    → read_digits acc (s ++ c ∷ []) ≡ some (n * 10 + (c - 48))
unfolding read_digits
read_digits-snoc acc n c [] h d = ground arith
read_digits-snoc acc n c (x ∷ s) h d = ground (arith, read_digits-snoc (acc * 10 + (x - 48)) n c s)

read_digits_one : (n : ℕ) → read_digits 0 ((48 + n % 10) ∷ []) ≡ some (n % 10)
unfolding read_digits
read_digits_one n = ground arith

read_digits-digits : (f n : ℕ) → n ≤ f → read_digits 0 (digits f n) ≡ some n
unfolding digits
read_digits-digits zero n h = ground (arith, read_digits_one n)
read_digits-digits (suc f) n h = ground (
  arith,
  read_digits-digits f (n / 10),
  read_digits-snoc 0 (n / 10) (48 + n % 10) (digits f (n / 10)),
  read_digits_one n,
)

-- The digits of a number are not empty, and the first is a digit, so no sign.
abbrev pub StartsWithDigit : Bytes → Type 0
StartsWithDigit [] = ⊥
StartsWithDigit (c ∷ s) = IsDigit c

StartsWithDigit-append : (s t : Bytes) → StartsWithDigit s → StartsWithDigit (s ++ t)
StartsWithDigit-append (c ∷ s) t h = h
StartsWithDigit-append [] t h = absurd h

digits-StartsWithDigit : (f n : ℕ) → StartsWithDigit (digits f n)
unfolding digits
digits-StartsWithDigit zero n = omega arith
digits-StartsWithDigit (suc f) n = ground (
  arith,
  digits-StartsWithDigit f (n / 10),
  StartsWithDigit-append (digits f (n / 10)) ((48 + n % 10) ∷ []),
)

read_within-digits :
    (limit n : ℕ) (s : Bytes)
    → n ≤ limit
    → StartsWithDigit s
    → read_digits 0 s ≡ some n
    → read_within limit s ≡ some n
unfolding read_within
read_within-digits limit n [] h d e = absurd d
read_within-digits limit n (c ∷ s) h d e = ground arith

atoi_nonneg :
    (n : ℕ) (s : Bytes)
    → n ≤ max_int
    → StartsWithDigit s
    → read_digits 0 s ≡ some n
    → atoi s ≡ some (pos n)
atoi_nonneg n [] h d e = absurd d
atoi_nonneg n (c ∷ s) h d e =
    let r : read_within max_int (c ∷ s) ≡ some n = read_within-digits max_int n (c ∷ s) h d e in
    unfold atoi in ground arith

atoi_negative :
    (n : ℕ) (s : Bytes)
    → n ≤ max_int
    → StartsWithDigit s
    → read_digits 0 s ≡ some (suc n)
    → atoi (b'-' ∷ s) ≡ some (negsuc n)
atoi_negative n s h d e =
    let r : read_within (max_int + 1) s ≡ some (suc n) =
      read_within-digits (max_int + 1) (suc n) s (omega arith) d e in
    unfold atoi in ground arith

-- `Atoi` of the text that `Itoa` writes for an int64 is that int64.
pub atoi-itoa : (z : ℤ) → IsInt64 z → atoi (itoa z) ≡ some z
unfolding itoa itoa_nat
atoi-itoa (pos n) h =
    atoi_nonneg n _ h (digits-StartsWithDigit n n) (read_digits-digits n n (omega arith))
atoi-itoa (negsuc n) h =
    atoi_negative n _ h (digits-StartsWithDigit (suc n) (suc n))
      (read_digits-digits (suc n) (suc n) (omega arith))

-- The text that `Itoa` writes for a natural number is read back as that number, and starts with a
-- digit.
pub read_digits-itoa_nat : (n : ℕ) → read_digits 0 (itoa_nat n) ≡ some n
unfolding itoa_nat
read_digits-itoa_nat n = read_digits-digits n n (omega arith)

pub itoa_nat-StartsWithDigit : (n : ℕ) → StartsWithDigit (itoa_nat n)
unfolding itoa_nat
itoa_nat-StartsWithDigit n = digits-StartsWithDigit n n
