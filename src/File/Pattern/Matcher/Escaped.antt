-- ===== src/File/Pattern/Matcher/Escaped.antt =====
-- Patterns that begin with an escaped name (agent/plugin/file/file_name_matcher.c).
use yella.Prelude.{
  ℕ, zero, suc, ◌≤◌, ◌<◌, ◌≡◌, refl, sym, ap, ◌∙◌, arith, Bool, true, false, not, ◌||◌, [], ◌∷◌,
  ◌++◌, Text, ◌==◌, if◌then◌else◌, length, text_eq, append-nil, Bool-cases, inl, inr, fun_ext,
}
use yella.File.Pattern.{backslash, is_special, escape}
use yella.File.Pattern.Matcher.{
  star, is_empty, has_sep, skip_stars, behind_stars, many_stars, at_star, at_escape, match_step,
  file_name_matches_impl, file_name_matches,
}
use yella.File.Pattern.Matcher.Enough.{enough_fuel}

-- What a test says of the rest of a name behind a text; false if the name does not begin with it.
abbrev pub behind : Text → (Text → Bool) → Text → Bool
behind [] test name = test name
behind (c ∷ t) test [] = false
behind (c ∷ t) test (n ∷ ns) = let rest = behind t test ns in if n == c then rest else false

escape_quoted :
    (c : ℕ) (t : Text)
    → (is_special c || c == backslash) ≡ true
    → escape (c ∷ t) ≡ backslash ∷ c ∷ escape t
unfolding escape
escape_quoted c t h = rw h refl

escape_plain :
    (c : ℕ) (t : Text) → (is_special c || c == backslash) ≡ false → escape (c ∷ t) ≡ c ∷ escape t
unfolding escape
escape_plain c t h = rw h refl

module _ (rec : Text → Text → Bool) where
  step_quoted :
      (n c : ℕ) (ns ps : Text)
      → match_step rec (n ∷ ns) (backslash ∷ c ∷ ps) ≡ (if n == c then rec ns ps else false)
  unfolding match_step at_escape
  step_quoted n c ns ps = refl

  step_quoted_end : (c : ℕ) (ps : Text) → match_step rec [] (backslash ∷ c ∷ ps) ≡ false
  unfolding match_step
  step_quoted_end c ps = refl

  step_plain :
      (n c : ℕ) (ns ps : Text)
      → (is_special c || c == backslash) ≡ false
      → match_step rec (n ∷ ns) (c ∷ ps) ≡ (if n == c then rec ns ps else false)
  unfolding match_step
  step_plain n c ns ps h = ground arith

  step_plain_end :
      (c : ℕ) (ps : Text)
      → (is_special c || c == backslash) ≡ false
      → match_step rec [] (c ∷ ps) ≡ false
  unfolding match_step
  step_plain_end c ps h = ground arith

length-escape : (c : ℕ) (t p : Text) → suc (length (escape t ++ p)) ≤ length (escape (c ∷ t) ++ p)
length-escape c t p = elim (Bool-cases (is_special c || c == backslash)) [
  | inl q ↦ omega (arith, ap (λ e. length (e ++ p)) (escape_quoted c t q))
  | inr q ↦ omega (arith, ap (λ e. length (e ++ p)) (escape_plain c t q))
]

impl_enough :
    (p : Text) (fuel : ℕ) (name : Text)
    → length p < fuel
    → file_name_matches_impl fuel name p ≡ file_name_matches name p
unfolding file_name_matches
impl_enough p fuel name h =
    enough_fuel (length p) fuel (suc (length p)) h (omega arith) name p (omega arith)

module _ (p : Text) where
  abbrev test : Text → Bool
  test n = file_name_matches n p

  impl-escape :
      (t : Text) (fuel : ℕ) (name : Text)
      → length (escape t ++ p) < fuel
      → file_name_matches_impl fuel name (escape t ++ p) ≡ behind t test name
  unfolding file_name_matches_impl file_name_matches escape
  impl-escape t zero name h = absurd (omega arith)
  impl-escape [] (suc fuel) name h = impl_enough p (suc fuel) name h
  impl-escape (c ∷ t) (suc fuel) [] h = elim (Bool-cases (is_special c || c == backslash)) [
    | inl q ↦
        ap (λ e. match_step (file_name_matches_impl fuel) [] (e ++ p)) (escape_quoted c t q)
        ∙ step_quoted_end (file_name_matches_impl fuel) c (escape t ++ p)
    | inr q ↦
        ap (λ e. match_step (file_name_matches_impl fuel) [] (e ++ p)) (escape_plain c t q)
        ∙ step_plain_end (file_name_matches_impl fuel) c (escape t ++ p) q
  ]
  impl-escape (c ∷ t) (suc fuel) (n ∷ ns) h =
      let shorter = length-escape c t p in
      let rest = impl-escape t fuel ns (omega arith) in
      elim (Bool-cases (is_special c || c == backslash)) [
        | inl q ↦
            ap (λ e. match_step (file_name_matches_impl fuel) (n ∷ ns) (e ++ p))
              (escape_quoted c t q)
            ∙ step_quoted (file_name_matches_impl fuel) n c ns (escape t ++ p)
            ∙ ap (λ b. if n == c then b else false) rest
        | inr q ↦
            ap (λ e. match_step (file_name_matches_impl fuel) (n ∷ ns) (e ++ p))
              (escape_plain c t q)
            ∙ step_plain (file_name_matches_impl fuel) n c ns (escape t ++ p) q
            ∙ ap (λ b. if n == c then b else false) rest
      ]

matches-escape :
    (p t name : Text)
    → file_name_matches name (escape t ++ p) ≡ behind t (λ n. file_name_matches n p) name
unfolding file_name_matches
matches-escape p t name = impl-escape p t (suc (length (escape t ++ p))) name (omega arith)

behind-empty : (t name : Text) → behind t is_empty name ≡ text_eq name t
behind-empty [] [] = refl
behind-empty [] (n ∷ ns) = refl
behind-empty (c ∷ t) [] = refl
behind-empty (c ∷ t) (n ∷ ns) = elim (Bool-cases (n == c)) [
  | inl e ↦ rw e (behind-empty t ns)
  | inr e ↦ rw e refl
]

match_nothing : (name : Text) → file_name_matches name [] ≡ is_empty name
unfolding file_name_matches file_name_matches_impl match_step
match_nothing name = refl

match_star : (name : Text) → file_name_matches name (star ∷ []) ≡ not (has_sep name)
unfolding file_name_matches file_name_matches_impl match_step at_star behind_stars has_sep
match_star [] = refl
match_star (n ∷ ns) = refl

match_stars : (name : Text) → file_name_matches name (star ∷ star ∷ []) ≡ true
unfolding file_name_matches file_name_matches_impl match_step at_star many_stars skip_stars
    behind_stars
match_stars [] = refl
match_stars (n ∷ ns) = refl

-- Any pattern behind an escaped text, whatever the text's characters, matches the names that begin
-- with the text and go on with what the pattern matches: so the escaped text alone matches itself and
-- nothing else, with a star behind it the names that go on without a separator, and with two stars
-- all that go on. More fuel than the pattern has characters never changes a match.
pub file_name_matches_lem :
    (t p name : Text) (fuel : ℕ)
    → length p < fuel
    → (file_name_matches name (escape t ++ p) ≡ behind t (λ n. file_name_matches n p) name)
      × (file_name_matches name (escape t) ≡ text_eq name t)
      × (file_name_matches name (escape t ++ star ∷ []) ≡ behind t (λ n. not (has_sep n)) name)
      × (file_name_matches name (escape t ++ star ∷ star ∷ []) ≡ behind t (λ n. true) name)
      × (file_name_matches_impl fuel name p ≡ file_name_matches name p)
file_name_matches_lem t p name fuel enough =
    let at = λ (q : Text). matches-escape q t name in
    (
      at p,
      ap (file_name_matches name) (sym (append-nil (escape t)))
          ∙ at []
          ∙ ap (λ f. behind t f name) (fun_ext match_nothing)
          ∙ behind-empty t name,
      at (star ∷ []) ∙ ap (λ f. behind t f name) (fun_ext match_star),
      at (star ∷ star ∷ []) ∙ ap (λ f. behind t f name) (fun_ext match_stars),
      impl_enough p fuel name enough,
    )
