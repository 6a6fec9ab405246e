-- ===== src/File/Pattern.antt =====
-- The characters of a name pattern (agent/plugin/file/file_name_matcher.c:
-- first_unescaped_special_char, unescape_pattern).
use mathlib.Core.Option
use yella.Prelude.{
  ℕ, suc, ◌+◌, ◌%◌, ◌≡◌, refl, ap, ◌∙◌, arith, Bool, true, false, ◌||◌, List, [], ◌∷◌, ◌++◌, All,
  Option, none, some, ◌==◌, if◌then◌else◌, Bool-cases, inl, inr, Text,
}
pub mod Matcher
mod Tests

abbrev pub backslash : ℕ
backslash = 92

-- In u"*?"
abbrev pub is_special : ℕ → Bool
is_special c = c == 42 || c == 63

-- How many backslashes come right before a place, whose text before it is given from its end.
unfoldable pub slashes : Text → ℕ
slashes [] = 0
slashes (c ∷ before) = let rest = slashes before in if c == backslash then suc rest else 0

-- The loop of `first_unescaped_special_char`: the rest of the pattern from the first special
-- character on that an even number of backslashes come before, if there is one.
unfoldable pub first_special : Text → Text → Option Text
first_special before [] = none
first_special before (c ∷ cs) =
    let rest = first_special (c ∷ before) cs in
    if is_special c then (if slashes before % 2 == 0 then some (c ∷ cs) else rest) else rest

unfoldable pub first_unescaped_special_char : Text → Option Text
first_unescaped_special_char pattern = first_special [] pattern

-- The loop of `unescape_pattern`. Behind a backslash at the end it runs past the terminator, which
-- is `none`. Without a backslash the loop copies the pattern, as the code does then.
unfoldable pub unescape_pattern : Text → Option Text
unescape_pattern [] = some []
unescape_pattern (c ∷ []) = if c == backslash then none else some (c ∷ [])
unescape_pattern (c ∷ d ∷ ds) =
    let escaped = Option.map (λ t. d ∷ t) (unescape_pattern ds) in
    let plain = Option.map (λ t. c ∷ t) (unescape_pattern (d ∷ ds)) in
    if c == backslash then escaped else plain

-- A name as a pattern that stands for itself: a backslash before every special character and every
-- backslash.
unfoldable pub escape : Text → Text
escape [] = []
escape (c ∷ cs) =
    if is_special c || c == backslash then backslash ∷ c ∷ escape cs else c ∷ escape cs

unescape_plain :
    (c : ℕ) (cs : Text)
    → (c == backslash) ≡ false
    → unescape_pattern (c ∷ cs) ≡ Option.map (λ t. c ∷ t) (unescape_pattern cs)
unfolding unescape_pattern
unescape_plain c [] plain = rw plain refl
unescape_plain c (d ∷ ds) plain = rw plain refl

unescape-escape : (t : Text) → unescape_pattern (escape t) ≡ some t
unfolding unescape_pattern escape
unescape-escape [] = refl
unescape-escape (c ∷ cs) = elim (Bool-cases (is_special c || c == backslash)) [
  | inl quoted ↦ rw quoted (ap (Option.map (λ t. c ∷ t)) (unescape-escape cs))
  | inr plain ↦
      (let other : (c == backslash) ≡ false = ground arith in
        rw plain
          (unescape_plain c (escape cs) other ∙ ap (Option.map (λ t. c ∷ t)) (unescape-escape cs)))
]

first_special-escape :
    (before t : Text) → slashes before % 2 ≡ 0 → first_special before (escape t) ≡ none
unfolding first_special escape slashes
first_special-escape before [] even = refl
first_special-escape before (c ∷ cs) even = elim (Bool-cases (is_special c)) [
  | inl special ↦
      (let quoted : (is_special c || c == backslash) ≡ true = ground (arith, special) in
        let odd : (suc (slashes before) % 2 == 0) ≡ false = ground arith in
        let reset : slashes (c ∷ backslash ∷ before) % 2 ≡ 0 = ground (arith, special) in
        rw (quoted, special) (rw odd (first_special-escape (c ∷ backslash ∷ before) cs reset)))
  | inr ordinary ↦ elim (Bool-cases (c == backslash)) [
    | inl slash ↦
        (let quoted : (is_special c || c == backslash) ≡ true = ground (arith, ordinary, slash) in
          let reset : slashes (c ∷ backslash ∷ before) % 2 ≡ 0 = ground (arith, slash, even) in
          rw quoted (rw ordinary (first_special-escape (c ∷ backslash ∷ before) cs reset)))
    | inr other ↦
        (let plain : (is_special c || c == backslash) ≡ false = ground (arith, ordinary, other) in
          let reset : slashes (c ∷ before) % 2 ≡ 0 = ground (arith, other) in
          rw plain (rw ordinary (first_special-escape (c ∷ before) cs reset)))
  ]
]

-- A name that is escaped, whatever its characters, has no special character that is not escaped,
-- and to unescape it gives the name.
pub escape_lem :
    (t : Text)
    → (first_unescaped_special_char (escape t) ≡ none) × (unescape_pattern (escape t) ≡ some t)
unfolding first_unescaped_special_char slashes
escape_lem t = (first_special-escape [] t refl, unescape-escape t)

-- An ordinary character is one that neither is special nor a backslash.
abbrev pub IsOrdinary : ℕ → Type 0
IsOrdinary c = (is_special c || c == backslash) ≡ false

-- To unescape a pattern that ends in a lone backslash, behind ordinary characters, runs past its
-- terminator.
pub unescape_pattern-overrun :
    (t : Text) → All IsOrdinary t → unescape_pattern (t ++ backslash ∷ []) ≡ none
unfolding unescape_pattern
unescape_pattern-overrun [] ordinary = refl
unescape_pattern-overrun (c ∷ cs) ordinary =
    let plain : (c == backslash) ≡ false = ground (arith, ordinary.0) in
    unescape_plain c (cs ++ backslash ∷ []) plain
    ∙ ap (Option.map (λ t. c ∷ t)) (unescape_pattern-overrun cs ordinary.1)
