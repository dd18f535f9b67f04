-- ===== src/Store/Glob/Matching.antt =====
-- That globMatch decides matching within the fuel that matchPattern gives.
use warpdb.Base.{
  ℕ, zero, suc, ◌≤◌, ◌<◌, Bool, true, false, ◌≡◌, refl, Option, none, some, [], ◌∷◌, Bytes, codes,
  beq, beq_iff, length, arith, ◌==◌, if◌then◌else◌, inl, inr, Bool-cases, Option-cases, ◌↔◌,
}
use warpdb.Store.Glob.{
  split_class, in_class, any_suffix, class_case, byte_case, glob_match, match_pattern,
}
use warpdb.Store.Glob.Classes.{in_class-InClass, split_class-splits, split_class-fails}
use warpdb.Store.Glob.Pattern.{
  Matches, IsPlain, done, skip_star, take_byte, any_byte, in_brackets, unclosed, same_byte, ==→eq,
  star_inv_nil, star_inv, any_inv, any_inv_nil, plain_inv, plain_inv_nil, unclosed_inv, class_inv,
  class_inv_nil, nil_inv, last_star,
}

-- An answer came, and it is right about `G`.
abbrev pub Decides : Type 0 → Option Bool → Type 0
Decides G none = ⊥
Decides G (some true) = G
Decides G (some false) = ¬ G

Decides_iff : {G H : Type 0} (o : Option Bool) → (G → H) → (H → G) → Decides G o → Decides H o
Decides_iff none f g d = d
Decides_iff (some true) f g d = f d
Decides_iff (some false) f g d = λ h. d (g h)

any_suffix-Decides :
    {c : ℕ} (p : Bytes) (match : Bytes → Option Bool)
    → c ≡ b'*'
    → ((s : Bytes) → Decides (Matches p s) (match s))
    → (s : Bytes) → Decides (Matches (c ∷ p) s) (any_suffix match s)
unfolding any_suffix
any_suffix-Decides p match e h [] = Decides_iff (match []) (skip_star e) (star_inv_nil e) (h [])
any_suffix-Decides {c} p match e h (d ∷ s) =
    first (match (d ∷ s)) (h (d ∷ s)) (any_suffix-Decides p match e h s)
  where
    first :
        (o : Option Bool)
        → Decides (Matches p (d ∷ s)) o
        → Decides (Matches (c ∷ p) s) (any_suffix match s)
        → Decides
            (Matches (c ∷ p) (d ∷ s))
            (elim o [ none ↦ none | some true ↦ some true | some false ↦ any_suffix match s ])
    first none now later = now
    first (some true) now later = skip_star e now
    first (some false) now later =
        Decides_iff (any_suffix match s) (take_byte e)
          (λ m. elim (star_inv e m) [ inl x ↦ absurd (now x) | inr x ↦ x ]) later

-- A byte of the pattern that takes one byte `d` exactly if `takes d`.
byte_case-Decides :
    {c : ℕ} {p : Bytes} (next : Bytes → Option Bool) (takes : ℕ → Bool)
    → ((s : Bytes) → Decides (Matches p s) (next s))
    → ¬ Matches (c ∷ p) []
    → ((d : ℕ) (s : Bytes) → takes d ≡ true → Matches p s ↔ Matches (c ∷ p) (d ∷ s))
    → ((d : ℕ) (s : Bytes) → takes d ≡ false → ¬ Matches (c ∷ p) (d ∷ s))
    → (s : Bytes) → Decides (Matches (c ∷ p) s) (byte_case next takes s)
unfolding byte_case
byte_case-Decides next takes h none_left hit miss [] = none_left
byte_case-Decides next takes h none_left hit miss (d ∷ s) = elim (Bool-cases (takes d)) [
  | inl e ↦ rw e (Decides_iff (next s) (hit d s e).0 (hit d s e).1 (h s))
  | inr e ↦ rw e (miss d s e)
]

beq-Decides : (s t : Bytes) {G : Type 0} → (s ≡ t → G) → (G → s ≡ t) → Decides G (some (beq s t))
beq-Decides s t f g = elim (Bool-cases (beq s t)) [
  | inl e ↦ rw e (f ((beq_iff s t).0 e))
  | inr e ↦ rw e (λ x. ground (arith, beq_iff s t, g x))
]

split_class-shorter :
    (p : Bytes) {class after : Bytes}
    → split_class p ≡ some (class, after)
    → length after < length p
unfolding split_class
split_class-shorter [] h = cc
split_class-shorter (c ∷ p) {class} {after} h = elim (Option-cases (split_class p)) [
  | inl e ↦ ground arith
  | inr ((class', after'), e) ↦ ground (arith, split_class-shorter p e)
]

class_case-Decides :
    {c : ℕ} (p : Bytes) (next : Bytes → Bytes → Option Bool)
    → c ≡ b'['
    → ((q s : Bytes) → length q ≤ length p → Decides (Matches q s) (next q s))
    → (s : Bytes) → Decides (Matches (c ∷ p) s) (class_case next p s)
unfolding class_case
class_case-Decides {c} p next e h s = by_split (split_class p) refl s
  where
    in_class_case :
        (class after : Bytes)
        → split_class p ≡ some (class, after)
        → (s : Bytes)
        → Decides (Matches (c ∷ p) s) (elim s [
          | [] ↦ some false
          | ch ∷ s' ↦
              let matched = next after s' in if in_class class ch then matched else some false
        ])
    in_class_case class after x [] = class_inv_nil e x
    in_class_case class after x (d ∷ s) = elim (Bool-cases (in_class class d)) [
      | inl i ↦ rw i (
          Decides_iff (next after s)
            (in_brackets e (split_class-splits p (class, after) x).0
              (split_class-splits p (class, after) x).1 (in_class-InClass class d i))
            (λ m. (class_inv e x m).1) (h after s (omega (arith, split_class-shorter p x))))
      | inr i ↦ rw i (λ m. cc (i, (class_inv e x m).0))
    ]

    by_split :
        (o : Option (Bytes × Bytes))
        → split_class p ≡ o
        → (s : Bytes)
        → Decides (Matches (c ∷ p) s) (elim o [
          | none ↦ some (beq (b'[' ∷ p) s)
          | some (class, after) ↦ elim s [
            | [] ↦ some false
            | ch ∷ s' ↦
                let matched = next after s' in if in_class class ch then matched else some false
          ]
        ])
    by_split none x s =
        beq-Decides (b'[' ∷ p) s (λ y. unclosed e (split_class-fails p x) (rw (← y, e)))
          (λ m. rw (unclosed_inv e x m, e))
    by_split (some (class, after)) x s = in_class_case class after x s

-- One round of globMatch, given that the rounds for shorter patterns are right.
module _ (fuel c : ℕ) (p : Bytes)
    (shorter : (q t : Bytes)
      → length q ≤ length p
      → Decides (Matches q t) (glob_match fuel q t)) where
  rest : (t : Bytes) → Decides (Matches p t) (glob_match fuel p t)
  rest t = shorter p t (omega arith)

  star_case :
      (s : Bytes)
      → c ≡ b'*'
      → Decides
          (Matches (c ∷ p) s)
          (if beq p [] then some true else any_suffix (glob_match fuel p) s)
  star_case s e = elim (Bool-cases (beq p [])) [
    | inl x ↦ rw x (rw ((beq_iff p []).0 x) (last_star s e))
    | inr x ↦ rw x (any_suffix-Decides p (glob_match fuel p) e rest s)
  ]

  any_case :
      (s : Bytes)
      → c ≡ b'?'
      → Decides (Matches (c ∷ p) s) (byte_case (glob_match fuel p) (λ ch. true) s)
  any_case s e =
      byte_case-Decides (glob_match fuel p) (λ ch. true) rest (any_inv_nil e)
        (λ d t _. (any_byte e, any_inv e)) (λ d t x. cc) s

  plain_case :
      (s : Bytes)
      → IsPlain c
      → Decides (Matches (c ∷ p) s) (byte_case (glob_match fuel p) (λ ch. c == ch) s)
  plain_case s plain =
      byte_case-Decides (glob_match fuel p) (λ ch. c == ch) rest (plain_inv_nil plain)
        (λ d t x. (same_byte plain (==→eq x), λ m. (plain_inv plain m).1))
        (λ d t x m. ground (arith, (plain_inv plain m).0)) s

  glob_round : (s : Bytes) → Decides (Matches (c ∷ p) s) (glob_match (suc fuel) (c ∷ p) s)
  unfolding glob_match
  glob_round s = elim (Bool-cases (c == b'*')) [
    | inl star ↦ rw star (star_case s (==→eq star))
    | inr not_star ↦ rw not_star (elim (Bool-cases (c == b'?')) [
      | inl any ↦ rw any (any_case s (==→eq any))
      | inr not_any ↦ rw not_any (elim (Bool-cases (c == b'[')) [
        | inl bracket ↦
            rw bracket (class_case-Decides p (glob_match fuel) (==→eq bracket) shorter s)
        | inr not_bracket ↦ rw not_bracket (plain_case s (ground arith, ground arith, ground arith))
      ])
    ])
  ]

-- globMatch answers, with fuel for each byte of the pattern, and its answer is right.
pub glob_match-Decides :
    (fuel : ℕ) (p s : Bytes) → length p ≤ fuel → Decides (Matches p s) (glob_match fuel p s)
glob_match-Decides fuel [] s h = unfold glob_match in beq-Decides s [] (λ e. rw e done) nil_inv
glob_match-Decides zero (c ∷ p) s h = absurd (omega arith)
glob_match-Decides (suc fuel) (c ∷ p) s h =
    glob_round fuel c p (λ q t shorter. glob_match-Decides fuel q t (omega arith)) s

-- matchPattern always answers, and answers true exactly on the texts that match the pattern in the
-- sense of an inductive relation.
pub match_pattern-Decides : (p s : Bytes) → Decides (Matches p s) (match_pattern p s)
unfolding match_pattern
match_pattern-Decides p s = elim (Bool-cases (beq p (codes "*"))) [
  | inl x ↦ rw x (rw ((beq_iff p _).0 x) (last_star s refl))
  | inr x ↦ rw x (glob_match-Decides (length p) p s (omega arith))
]
