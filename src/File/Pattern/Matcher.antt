-- ===== src/File/Pattern/Matcher.antt =====
-- The match of a file's name with a pattern (agent/plugin/file/file_name_matcher.c:
-- file_name_matches_impl and file_name_matches).
use yella.Prelude.{
  ℕ, zero, suc, Bool, true, false, not, ◌&&◌, List, [], ◌∷◌, Text, ◌==◌, if◌then◌else◌, length,
  ◌||◌,
}
use yella.FilePath.{dir_sep}
use yella.File.Pattern.{backslash, is_special}
pub mod Enough
pub mod Escaped

abbrev pub star : ℕ
star = 42

abbrev pub question : ℕ
question = 63

abbrev pub is_empty : Text → Bool
is_empty [] = true
is_empty (c ∷ cs) = false

-- `u_strchr(name, YELLA_DIR_SEP[0]) != NULL`
unfoldable pub has_sep : Text → Bool
has_sep [] = false
has_sep (c ∷ cs) = let rest = has_sep cs in if c == dir_sep then true else rest

unfoldable pub skip_stars : Text → Text
skip_stars [] = []
skip_stars (c ∷ cs) = let rest = skip_stars cs in if c == star then rest else c ∷ cs

-- The parts of one call, where `rec` is the function itself, on the rest of the name and the pattern.
module _ (rec : Text → Text → Bool) where
  -- The loop behind a star, which tries the pattern from `p` on at places of the name.
  unfoldable pub scan : Bool → ℕ → Text → Text → Bool
  scan match_slash p ps [] = false
  scan match_slash p ps (n ∷ ns) =
      let rest = scan match_slash p ps ns in
      let stop = not match_slash && n == dir_sep in
      if not (is_special p || p == backslash) && not (n == p)
      then (if stop then false else rest)
      else if rec (n ∷ ns) (p ∷ ps)
      then true
      else if stop
      then false
      else rest

  -- The rest of a pattern that begins with a separator, at the first separator of the name.
  unfoldable pub from_sep : Text → Text → Bool
  from_sep ps [] = false
  from_sep ps (n ∷ ns) = let rest = from_sep ps ns in if n == dir_sep then rec ns ps else rest

  unfoldable pub behind_stars : Text → Bool → Text → Bool
  behind_stars name match_slash [] = if match_slash then true else not (has_sep name)
  behind_stars name match_slash (p ∷ ps) =
      if not match_slash && p == dir_sep then from_sep ps name else scan match_slash p ps name

  -- Behind two stars or more; that they begin the pattern or follow a separator is not looked at.
  unfoldable pub many_stars : Text → Text → Bool
  many_stars name [] = behind_stars name true []
  many_stars name (p ∷ []) =
      if p == dir_sep
      then (if rec name [] then true else behind_stars name true (p ∷ []))
      else behind_stars name false (p ∷ [])
  many_stars name (p ∷ q ∷ ps) =
      if p == dir_sep
      then (if rec name (q ∷ ps) then true else behind_stars name true (p ∷ q ∷ ps))
      else behind_stars name (p == backslash && q == dir_sep) (p ∷ q ∷ ps)

  unfoldable pub at_star : Text → Text → Bool
  at_star name [] = behind_stars name false []
  at_star name (p ∷ ps) =
      if p == star then many_stars name (skip_stars ps) else behind_stars name false (p ∷ ps)

  unfoldable pub at_escape : ℕ → Text → Text → Bool
  at_escape n ns [] = false
  at_escape n ns (p ∷ ps) = if n == p then rec ns ps else false

  unfoldable pub match_step : Text → Text → Bool
  match_step name [] = is_empty name
  match_step [] (p ∷ ps) = if p == star then at_star [] ps else false
  match_step (n ∷ ns) (p ∷ ps) =
      if p == backslash
      then at_escape n ns ps
      else if p == question
      then (if n == dir_sep then false else rec ns ps)
      else if p == star
      then at_star (n ∷ ns) ps
      else if n == p
      then rec ns ps
      else false

-- `file_name_matches_impl` on fuel: every call of itself and every round of its loop has a shorter
-- pattern, so that one more than the pattern's length is enough.
unfoldable pub file_name_matches_impl : ℕ → Text → Text → Bool
file_name_matches_impl zero name pattern = false
file_name_matches_impl (suc fuel) name pattern =
    match_step (file_name_matches_impl fuel) name pattern

unfoldable pub file_name_matches : Text → Text → Bool
file_name_matches name pattern = file_name_matches_impl (suc (length pattern)) name pattern
