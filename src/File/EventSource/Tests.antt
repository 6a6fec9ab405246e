-- ===== src/File/EventSource/Tests.antt =====
-- The match of names at a concrete input, with a list for the tree.
use yella.Prelude.{List, [], ◌∷◌, Text, codes}
use yella.File.EventSource.{Spec}
use yella.File.EventSource.Lookup.{Op, add_or_replace, remove}

abbrev spec : Text → Text → Spec
spec included excluded = record { includes = included ∷ []; excludes = excluded ∷ [] }

abbrev ops : List Op
ops =
    add_or_replace
      ((codes "etc", spec (codes "/*") (codes "/b")) ∷ (codes "var", spec (codes "/b") []) ∷ [])
    ∷ remove (codes "var")
    ∷ add_or_replace ((codes "etc", spec (codes "/**") (codes "/b")) ∷ [])
    ∷ []
