-- ===== src/File/Element/Tests.antt =====
-- The elements' theorem at a concrete input.
use yella.Prelude.{ℕ, arith, ◌≡◌, true, false, List, [], ◌∷◌, none, some, codes, text_eq}
use yella.Sglib.SortedList.{lookup}
use yella.Sglib.Samples.{sorted_ops, sorted_laws}
use yella.File.Attribute.{Attribute, sha256, size, access_time}
use yella.File.Attribute.Compare.{type_index}
use yella.File.Element.{Element, diff_elements}
use yella.File.Element.Parts.{unless, difference, of_type}
use yella.File.Element.Diff.{diff_elements_lem}

abbrev now : Element (List Attribute)
now = record { name = codes "/etc/a"; attrs = sha256 (1 ∷ []) ∷ size 5 ∷ [] }

abbrev before : Element (List Attribute)
before = record { name = codes "/etc/a"; attrs = sha256 (1 ∷ []) ∷ size 4 ∷ access_time 9 ∷ [] }

diff_elements_lem_example :
    let ops = sorted_ops type_index in
    let laws = sorted_laws type_index in
    (text_eq now.name before.name ≡ true
      → (diff : Element (List Attribute)) × (shared : List Attribute) × (diff_elements ops now
            before
          ≡ some (diff, shared))
        × (diff.name ≡ now.name)
        × ((k : ℕ)
            → (of_type ops laws diff k
                ≡ difference (of_type ops laws now k) (of_type ops laws before k))
              × (lookup type_index k shared
                  ≡ unless (of_type ops laws now k) (of_type ops laws before k))))
    × (text_eq now.name before.name ≡ false → diff_elements ops now before ≡ none)
unfolding sorted_ops
diff_elements_lem_example =
    diff_elements_lem (sorted_ops type_index) (sorted_laws type_index) now before
      ((omega arith, tt), (tt, tt))
      ((omega arith, (omega arith, tt)), ((omega arith, tt), (tt, tt)))
