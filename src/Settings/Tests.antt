-- ===== src/Settings/Tests.antt =====
-- The theorems on settings at concrete inputs, with association lists for the trees.
use yella.Prelude.{◌≡◌, List, [], none, some, Text, codes}
use yella.Sglib.Tree.{TreeOps}
use yella.Sglib.Samples.{tree_ops, tree_laws}
use yella.Settings.{Setting, text, text_type, set_text_impl}
use yella.Settings.Lookup.{lookup, IsSettings, HoldsNumber, DiffersAt, set_text_impl_lem}

abbrev Section : Type 0
Section = List (Text × Setting)

abbrev settings : TreeOps Section Setting
settings = tree_ops

abbrev sections : TreeOps (List (Text × Section)) Section
sections = tree_ops

no_settings-IsSettings : IsSettings sections settings tree_laws tree_laws []
unfolding tree_ops
no_settings-IsSettings = record { tree = tree_laws.empty-IsTree; each = λ sct t h. cc }

set_text_impl_lem_example :
    (HoldsNumber sections settings tree_laws tree_laws
        (lookup sections settings tree_laws tree_laws [] (codes "agent") (codes "host"))
      → set_text_impl sections settings [] (codes "agent") (codes "host") (codes "h") text_type
        ≡ none)
    × (¬ HoldsNumber sections settings tree_laws tree_laws
          (lookup sections settings tree_laws tree_laws [] (codes "agent") (codes "host"))
        → (s' : List (Text × Section)) × (set_text_impl sections settings []
              (codes "agent")
              (codes "host")
              (codes "h")
              text_type
            ≡ some s')
          × IsSettings sections settings tree_laws tree_laws s'
          × DiffersAt sections settings tree_laws tree_laws s' []
              (codes "agent")
              (codes "host")
              (text (codes "h"))
              text_type)
set_text_impl_lem_example =
    set_text_impl_lem sections settings tree_laws tree_laws [] (codes "agent") (codes "host")
      (codes "h") text_type no_settings-IsSettings
