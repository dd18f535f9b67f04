-- ===== src/Stats/Units.antt =====
-- The unit that formatBytes picks, and the number that it prints.
use warpdb.Base.{
  ℕ, zero, suc, ◌+◌, ◌*◌, ◌/◌, ◌%◌, ◌^◌, ◌≤◌, ◌<◌, ◌≡◌, refl, arith, Bool-cases, inl, inr, ltb,
  ◌==◌, ◌&&◌, ◌||◌, some, codes, ◌++◌, take, drop, ap, if◌then◌else◌, sym,
}
use mathlib.Core.Path.{subst}
use native.Mathlib.Nat.{one-le-pow, pow-le-pow_right}
use warpdb.Strconv.{itoa_nat}
use warpdb.Stats.{
  with_prefix, unit_loop, unit_of, float64, float_from, round_even, tenths, prefix_of, format_bytes,
}

-- What div and exp have to be for a number of bytes.
pub record IsUnitOf (b : ℕ) (u : ℕ × ℕ) : Type 0 where
  pub index : u.1 ≤ 5
  pub power : u.0 ≡ 1024 ^ (u.1 + 1)
  pub lower : u.0 ≤ b
  pub upper : b < 1024 * u.0

IsUnitOf-if :
    (b n : ℕ) (u v : ℕ × ℕ)
    → (n < 1024 → IsUnitOf b u)
    → (1024 ≤ n → IsUnitOf b v)
    → IsUnitOf b (if ltb n 1024 then u else v)
IsUnitOf-if b n u v f g =
    elim (Bool-cases (ltb n 1024)) as (λ _. IsUnitOf b (if ltb n 1024 then u else v)) [
      | inl e ↦ rw e (f (ground arith))
      | inr e ↦ rw e (g (ground arith))
    ]

fits :
    (b div exp : ℕ)
    → exp ≤ 5
    → div ≡ 1024 ^ (exp + 1)
    → div ≤ b
    → b < 1024 * div
    → IsUnitOf b (div, exp)
fits b div exp i p l u = record { index = i; power = p; lower = l; upper = u }

pub unit_of-IsUnitOf : (b : ℕ) → 1024 ≤ b → b < 2 ^ 64 → IsUnitOf b (unit_of b)
unfolding unit_of unit_loop
unit_of-IsUnitOf b h k =
    IsUnitOf-if b (b / 1024) _ _ (λ l. fits b 1024 0 (omega arith) refl h (omega arith))
      (λ h1.
        IsUnitOf-if b (b / 1024 / 1024) _ _
          (λ l. fits b (1024 ^ 2) 1 (omega arith) refl (omega arith) (omega arith))
          (λ h2.
            IsUnitOf-if b (b / 1024 / 1024 / 1024) _ _
              (λ l. fits b (1024 ^ 3) 2 (omega arith) refl (omega arith) (omega arith))
              (λ h3.
                IsUnitOf-if b (b / 1024 / 1024 / 1024 / 1024) _ _
                  (λ l. fits b (1024 ^ 4) 3 (omega arith) refl (omega arith) (omega arith))
                  (λ h4.
                    IsUnitOf-if b (b / 1024 / 1024 / 1024 / 1024 / 1024) _ _
                      (λ l. fits b (1024 ^ 5) 4 (omega arith) refl (omega arith) (omega arith))
                      (λ h5.
                        IsUnitOf-if b (b / 1024 / 1024 / 1024 / 1024 / 1024 / 1024) _ _
                          (λ l. fits b (1024 ^ 6) 5 (omega arith) refl (omega arith) (omega arith))
                          (λ h6. absurd (omega arith)))))))

-- round_even d is at most half of `d` away.
round_even-near :
    (n d : ℕ)
    → 1 ≤ d
    → (2 * (round_even n d * d) ≤ 2 * n + d) × (2 * n ≤ 2 * (round_even n d * d) + d)
unfolding round_even
round_even-near n d h =
    elim (Bool-cases (ltb (2 * (n % d)) d || 2 * (n % d) == d && (n / d) % 2 == 0)) [
      | inl e ↦ rw (round_even, e) (grind arith, grind arith)
      | inr e ↦ rw (round_even, e) (grind arith, grind arith)
    ]

-- 2 ^ s for the shifts of float64.
pow-bound : (s : ℕ) → s ≤ 11 → (1 ≤ 2 ^ s) × (2 ^ s ≤ 2048)
pow-bound s h =
    (one-le-pow s 2 (omega arith), pow-le-pow_right {n = 2} (omega arith) {i = s} {j = 11} h)

float_from-near :
    (fuel s b : ℕ)
    → s + fuel ≤ 11
    → (2 * float_from fuel s b ≤ 2 * b + 2048) × (2 * b ≤ 2 * float_from fuel s b + 2048)
unfolding float_from
float_from-near zero s b h =
    let p = pow-bound s (omega arith) in
    let r = round_even-near b (2 ^ s) p.0 in (omega arith, omega arith)
float_from-near (suc fuel) s b h =
    let p = pow-bound s (omega arith) in
    let r = round_even-near b (2 ^ s) p.0 in
    elim (Bool-cases (ltb b (2 ^ (53 + s)))) [
      | inl e ↦ rw (float_from, e) (omega arith, omega arith)
      | inr e ↦ rw (float_from, e) (float_from-near fuel (s + 1) b (omega arith))
    ]

float64-near : (b : ℕ) → (2 * float64 b ≤ 2 * b + 2048) × (2 * b ≤ 2 * float64 b + 2048)
unfolding float64
float64-near b = float_from-near 11 0 b (omega arith)

float64-exact : (b : ℕ) → b < 2 ^ 53 → float64 b ≡ b
unfolding float64 float_from
float64-exact b h = elim (Bool-cases (ltb b (2 ^ 53))) [
  | inl e ↦ let r = round_even-near b 1 (omega arith) in rw e (omega arith)
  | inr e ↦ absurd (ground arith)
]

-- The number that is printed, in tenths of the unit.
pub record IsPrinted (b t exp : ℕ) : Type 0 where
  pub at_least : 10 ≤ t
  pub at_most : t ≤ 10240
  pub not_above : 2 * (t * 1024 ^ (exp + 1)) ≤ 20 * b + 1024 ^ (exp + 1) + 20480
  pub not_below : 20 * b ≤ 2 * (t * 1024 ^ (exp + 1)) + 1024 ^ (exp + 1) + 20480

abbrev Spans : ℕ → ℕ → Type 0
Spans b div = (div ≤ b) × (b < 1024 * div)

tenths-near :
    (b div : ℕ)
    → 1 ≤ div
    → (2 * (tenths b div * div) ≤ 20 * b + div + 20480)
      × (20 * b ≤ 2 * (tenths b div * div) + div + 20480)
unfolding tenths
tenths-near b div h =
    let r = round_even-near (10 * float64 b) div h in
    let n = float64-near b in (omega arith, omega arith)

tenths-exact :
    (b div : ℕ)
    → 1 ≤ div
    → b < 2 ^ 53
    → (2 * (tenths b div * div) ≤ 20 * b + div) × (20 * b ≤ 2 * (tenths b div * div) + div)
unfolding tenths
tenths-exact b div h k =
    let r = round_even-near (10 * float64 b) div h in
    let e = float64-exact b k in (omega arith, omega arith)

tenths-IsPrinted :
    (b exp : ℕ)
    → exp ≤ 5
    → Spans b (1024 ^ (exp + 1))
    → IsPrinted b (tenths b (1024 ^ (exp + 1))) exp
tenths-IsPrinted b zero h s =
    let n = tenths-near b 1024 (omega arith) in
    let e = tenths-exact b 1024 (omega arith) (omega arith) in
    record { at_least = omega arith; at_most = omega arith; not_above = n.0; not_below = n.1 }
tenths-IsPrinted b (suc zero) h s =
    let n = tenths-near b (1024 ^ 2) (omega arith) in
    record { at_least = omega arith; at_most = omega arith; not_above = n.0; not_below = n.1 }
tenths-IsPrinted b (suc (suc zero)) h s =
    let n = tenths-near b (1024 ^ 3) (omega arith) in
    record { at_least = omega arith; at_most = omega arith; not_above = n.0; not_below = n.1 }
tenths-IsPrinted b (suc (suc (suc zero))) h s =
    let n = tenths-near b (1024 ^ 4) (omega arith) in
    record { at_least = omega arith; at_most = omega arith; not_above = n.0; not_below = n.1 }
tenths-IsPrinted b (suc (suc (suc (suc zero)))) h s =
    let n = tenths-near b (1024 ^ 5) (omega arith) in
    record { at_least = omega arith; at_most = omega arith; not_above = n.0; not_below = n.1 }
tenths-IsPrinted b (suc (suc (suc (suc (suc zero))))) h s =
    let n = tenths-near b (1024 ^ 6) (omega arith) in
    record { at_least = omega arith; at_most = omega arith; not_above = n.0; not_below = n.1 }
tenths-IsPrinted b (suc (suc (suc (suc (suc (suc n)))))) h s = absurd (omega arith)

prefix_of-letter : (exp : ℕ) → exp ≤ 5 → prefix_of exp ≡ some (take 1 (drop exp (codes "KMGTPE")))
unfolding prefix_of
prefix_of-letter zero h = refl
prefix_of-letter (suc zero) h = refl
prefix_of-letter (suc (suc zero)) h = refl
prefix_of-letter (suc (suc (suc zero))) h = refl
prefix_of-letter (suc (suc (suc (suc zero)))) h = refl
prefix_of-letter (suc (suc (suc (suc (suc zero))))) h = refl
prefix_of-letter (suc (suc (suc (suc (suc (suc n)))))) h = absurd (omega arith)

-- What formatBytes prints for `b` bytes: `t` tenths of the unit 1024^(exp+1).
pub record IsFormatted (b : ℕ) : Type 0 where
  pub exp : ℕ
  pub t : ℕ
  pub text :
      format_bytes b
      ≡ some (
          itoa_nat (t / 10)
          ++ codes "."
          ++ itoa_nat (t % 10)
          ++ take 1 (drop exp (codes "KMGTPE"))
          ++ codes "B")
  pub index : exp ≤ 5
  pub spans : (1024 ^ (exp + 1) ≤ b) × (b < 1024 * 1024 ^ (exp + 1))
  pub number : IsPrinted b t exp

-- For a number of bytes from 1024 to 2^64 - 1, formatBytes does not index past its letters; it
-- prints a number of tenths from 10 to 10240 and the letter of the largest unit that is not above
-- the bytes, and the tenths are off by no more than half of one and the rounding to float64, which
-- is 1024 bytes.
pub format_bytes-IsFormatted : (b : ℕ) → 1024 ≤ b → b < 2 ^ 64 → IsFormatted b
unfolding format_bytes
format_bytes-IsFormatted b h k =
    let u = unit_of-IsUnitOf b h k in
    let d = (unit_of b).0 in
    let e = (unit_of b).1 in
    let s : Spans b (1024 ^ (e + 1)) = subst (Spans b) u.power (u.lower, u.upper) in
    record {
      exp = e;
      t = tenths b d;
      text = elim (Bool-cases (ltb b 1024)) [
        | inl x ↦ absurd (ground arith)
        | inr x ↦ rw (format_bytes, x) (ap (with_prefix (tenths b d)) (prefix_of-letter e u.index))
      ];
      index = u.index;
      spans = s;
      number =
          subst (λ n. IsPrinted b (tenths b n) e) (sym u.power) (tenths-IsPrinted b e u.index s);
    }
