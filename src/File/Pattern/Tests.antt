-- ===== src/File/Pattern/Tests.antt =====
-- The theorems on patterns at concrete ones.
use yella.Prelude.{[], ◌∷◌, ◌++◌, ◌≡◌, true, false, arith, codes}
use yella.File.Pattern.Matcher.{file_name_matches, file_name_matches_impl, has_sep, star}
use yella.File.Pattern.Matcher.Escaped.{behind, file_name_matches_lem}
use yella.File.Pattern.{escape}

file_name_matches_lem_example :
    (file_name_matches (codes "/a?/b") (escape (codes "/a?/") ++ codes "b")
      ≡ behind (codes "/a?/") (λ n. file_name_matches n (codes "b")) (codes "/a?/b"))
    × (file_name_matches (codes "/a?/b") (escape (codes "/a?/")) ≡ false)
    × (file_name_matches (codes "/a?/b") (escape (codes "/a?/") ++ star ∷ []) ≡ true)
    × (file_name_matches (codes "/a?/b") (escape (codes "/a?/") ++ star ∷ star ∷ []) ≡ true)
    × (file_name_matches_impl 9 (codes "/a?/b") (codes "b")
        ≡ file_name_matches (codes "/a?/b") (codes "b"))
unfolding has_sep
file_name_matches_lem_example =
    file_name_matches_lem (codes "/a?/") (codes "b") (codes "/a?/b") 9 (omega arith)
