-- ===== src/Store/Glob.antt =====
-- matchPattern and globMatch of core/store/store.go. The pattern loop runs on fuel, and
-- `Store.Glob.Matching` proves that the length of the pattern is enough.
pub mod Classes
pub mod Pattern
pub mod Matching
use warpdb.Base.{
  ℕ, zero, suc, Bool, true, false, not, ◌&&◌, ◌||◌, Option, none, some, [], ◌∷◌, Bytes, codes, beq,
  length, leb, ◌==◌, if◌then◌else◌,
}

-- The search for `]`: what stands before it and behind it.
unfoldable pub split_class : Bytes → Option (Bytes × Bytes)
split_class [] = none
split_class (c ∷ p) =
    let rest = split_class p in
    if c == b']'
    then some ([], p)
    else elim rest [ none ↦ none | some (class, after) ↦ some (c ∷ class, after) ]

-- The loop over a class: `class[j+1] == '-'` with a byte behind it is a range.
unfoldable pub in_class : Bytes → ℕ → Bool
in_class [] ch = false
in_class (a ∷ d ∷ b ∷ class) ch =
    let ranged = in_class class ch in
    let single = in_class (d ∷ b ∷ class) ch in
    if d == b'-' then (leb a ch && leb ch b) || ranged else a == ch || single
in_class (a ∷ class) ch = a == ch || in_class class ch

-- The loop of `*`: `match` is tried on each suffix, the whole text first.
unfoldable pub any_suffix : (Bytes → Option Bool) → Bytes → Option Bool
any_suffix match [] = match []
any_suffix match (c ∷ s) =
    let later = any_suffix match s in
    elim (match (c ∷ s)) [ none ↦ none | some true ↦ some true | some false ↦ later ]

-- The case `[`: `p` is the pattern behind the bracket, `next` matches what follows the class.
unfoldable pub class_case : (Bytes → Bytes → Option Bool) → Bytes → Bytes → Option Bool
class_case next p s = elim (split_class p) [
  | none ↦ some (beq (b'[' ∷ p) s)
  | some (class, after) ↦ elim s [
    | [] ↦ some false
    | ch ∷ s' ↦ let matched = next after s' in if in_class class ch then matched else some false
  ]
]

-- A byte of the pattern that takes one byte of the text if `takes` says so.
unfoldable pub byte_case : (Bytes → Option Bool) → (ℕ → Bool) → Bytes → Option Bool
byte_case next takes [] = some false
byte_case next takes (ch ∷ s) = let matched = next s in if takes ch then matched else some false

-- globMatch; `none` means that the fuel ran out.
unfoldable pub glob_match : ℕ → Bytes → Bytes → Option Bool
glob_match fuel [] s = some (beq s [])
glob_match zero (c ∷ p) s = none
glob_match (suc fuel) (c ∷ p) s =
    let star = if beq p [] then some true else any_suffix (glob_match fuel p) s in
    let any = byte_case (glob_match fuel p) (λ ch. true) s in
    let class = class_case (glob_match fuel) p s in
    let byte = byte_case (glob_match fuel p) (λ ch. c == ch) s in
    if c == b'*' then star else if c == b'?' then any else if c == b'[' then class else byte

-- matchPattern
unfoldable pub match_pattern : Bytes → Bytes → Option Bool
match_pattern pattern key =
    if beq pattern (codes "*") then some true else glob_match (length pattern) pattern key
