-- ===== src/File/Pattern/Matcher/Enough.antt =====
-- The fuel of the match (agent/plugin/file/file_name_matcher.c: file_name_matches_impl).
use yella.Prelude.{
  ℕ, zero, suc, ◌≤◌, ◌<◌, ◌≡◌, refl, arith, Bool, true, false, ◌&&◌, [], ◌∷◌, Text, ◌==◌, length,
  Bool-cases, inl, inr,
}
use yella.FilePath.{dir_sep}
use yella.File.Pattern.{backslash}
use yella.File.Pattern.Matcher.{
  star, skip_stars, scan, from_sep, behind_stars, many_stars, at_star, at_escape, match_step,
  file_name_matches_impl,
}

-- Two functions agree on patterns of at most so many characters.
abbrev pub Agree : (Text → Text → Bool) → (Text → Text → Bool) → ℕ → Type 0
Agree f g k = (name pattern : Text) → length pattern ≤ k → f name pattern ≡ g name pattern

length-skip_stars : (ps : Text) → length (skip_stars ps) ≤ length ps
unfolding skip_stars
length-skip_stars [] = omega arith
length-skip_stars (p ∷ ps) =
    let rest = length-skip_stars ps in
    elim (Bool-cases (p == star)) [
      | inl e ↦ rw e (omega (arith, rest))
      | inr e ↦ rw e (omega arith)
    ]

module _ (f g : Text → Text → Bool) (k : ℕ) (same : Agree f g k) where
  scan_same :
      (m : Bool) (p : ℕ) (ps name : Text)
      → length (p ∷ ps) ≤ k
      → scan f m p ps name ≡ scan g m p ps name
  unfolding scan
  scan_same m p ps [] h = refl
  scan_same m p ps (n ∷ ns) h = rw (same (n ∷ ns) (p ∷ ps) h, scan_same m p ps ns h) refl

  from_sep_same : (ps name : Text) → length ps ≤ k → from_sep f ps name ≡ from_sep g ps name
  unfolding from_sep
  from_sep_same ps [] h = refl
  from_sep_same ps (n ∷ ns) h = rw (same ns ps h, from_sep_same ps ns h) refl

  behind_stars_same :
      (name : Text) (m : Bool) (ps : Text)
      → length ps ≤ k
      → behind_stars f name m ps ≡ behind_stars g name m ps
  unfolding behind_stars
  behind_stars_same name m [] h = refl
  behind_stars_same name m (p ∷ ps) h =
      rw (from_sep_same ps name (omega arith), scan_same m p ps name h) refl

  many_stars_same : (name ps : Text) → length ps ≤ k → many_stars f name ps ≡ many_stars g name ps
  unfolding many_stars
  many_stars_same name [] h = behind_stars_same name true [] h
  many_stars_same name (p ∷ []) h =
      rw
        (
          same name [] (omega arith),
          behind_stars_same name true (p ∷ []) h,
          behind_stars_same name false (p ∷ []) h,
        )
        refl
  many_stars_same name (p ∷ q ∷ ps) h =
      rw
        (
          same name (q ∷ ps) (omega arith),
          behind_stars_same name true (p ∷ q ∷ ps) h,
          behind_stars_same name (p == backslash && q == dir_sep) (p ∷ q ∷ ps) h,
        )
        refl

  at_star_same : (name ps : Text) → length ps ≤ k → at_star f name ps ≡ at_star g name ps
  unfolding at_star
  at_star_same name [] h = behind_stars_same name false [] h
  at_star_same name (p ∷ ps) h =
      rw
        (
          many_stars_same name (skip_stars ps) (omega (arith, length-skip_stars ps)),
          behind_stars_same name false (p ∷ ps) h,
        )
        refl

  at_escape_same :
      (n : ℕ) (ns ps : Text) → length ps ≤ k → at_escape f n ns ps ≡ at_escape g n ns ps
  unfolding at_escape
  at_escape_same n ns [] h = refl
  at_escape_same n ns (p ∷ ps) h = rw (same ns ps (omega arith)) refl

  match_step_same :
      (name pattern : Text)
      → length pattern ≤ suc k
      → match_step f name pattern ≡ match_step g name pattern
  unfolding match_step
  match_step_same name [] h = refl
  match_step_same [] (p ∷ ps) h = rw (at_star_same [] ps (omega arith)) refl
  match_step_same (n ∷ ns) (p ∷ ps) h =
      rw
        (
          at_escape_same n ns ps (omega arith),
          same ns ps (omega arith),
          at_star_same (n ∷ ns) ps (omega arith),
        )
        refl

-- More fuel than the pattern has characters changes nothing.
pub enough_fuel :
    (k a b : ℕ) → k < a → k < b → Agree (file_name_matches_impl a) (file_name_matches_impl b) k
unfolding file_name_matches_impl match_step
enough_fuel k zero b h i name pattern l = absurd (omega arith)
enough_fuel k (suc a) zero h i name pattern l = absurd (omega arith)
enough_fuel zero (suc a) (suc b) h i name [] l = refl
enough_fuel zero (suc a) (suc b) h i name (p ∷ ps) l = absurd (omega arith)
enough_fuel (suc k) (suc a) (suc b) h i name pattern l =
    match_step_same (file_name_matches_impl a) (file_name_matches_impl b) k
      (enough_fuel k a b (omega arith) (omega arith)) name pattern l
