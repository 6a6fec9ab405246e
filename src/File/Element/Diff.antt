-- ===== src/File/Element/Diff.antt =====
-- The difference of two elements (agent/plugin/file/element.c: diff_elements).
use yella.Prelude.{ℕ, ◌≡◌, refl, ◌∙◌, true, false, List, none, some, text_eq}
use yella.Sglib.SortedList.{SortedOps, SortedLaws, lookup, IsSorted}
use yella.File.Attribute.{Attribute}
use yella.File.Attribute.Compare.{type_index}
use yella.File.Element.{Element, same_in, missing_in, diff_attributes, diff_elements}
use yella.File.Element.Parts.{
  unless, difference, assembled, of_type, delete_all_lem, add_all_lem, same_in_lem, missing_in_lem,
  missing_in-IsSorted,
}

module _ {L : Type 0} (ops : SortedOps L Attribute) (laws : SortedLaws ops type_index) where
  diff_attributes_lem :
      (elem1 elem2 : Element L) (k : ℕ)
      → IsSorted type_index (ops.items elem1.attrs)
      → IsSorted type_index (ops.items elem2.attrs)
      → let (diff, shared) = diff_attributes ops elem1 elem2 in
        (of_type ops laws diff k ≡ difference (of_type ops laws elem1 k) (of_type ops laws elem2 k))
        × (diff.name ≡ elem1.name)
        × (lookup type_index k shared
            ≡ unless (of_type ops laws elem1 k) (of_type ops laws elem2 k))
  unfolding diff_attributes
  diff_attributes_lem elem1 elem2 k s t =
      let xs = ops.items elem1.attrs in
      let ys = ops.items elem2.attrs in
      let missing = missing_in_lem ops laws elem1.attrs ys k in
      (
        add_all_lem ops laws (missing_in ops elem1.attrs ys) _ k
              (missing_in-IsSorted ops laws elem1.attrs ys t)
            ∙ rw
                (
                  missing,
                  delete_all_lem ops laws (same_in ops elem2.attrs xs) elem1.attrs k s,
                  same_in_lem ops laws elem2.attrs xs k s,
                )
                (assembled (of_type ops laws elem1 k) (of_type ops laws elem2 k)),
        refl,
        missing,
      )

  -- The difference of two elements, each with at most one attribute of a type. If they have one name,
  -- there is a difference: of every type it has the attribute that only one of them has, or the first's
  -- if they compare as different, and nothing if they compare as equal or neither has one; the name is
  -- the first's. The nodes that are then in both lists are of the types that only the second has. If
  -- the names differ, the assertion fails.
  pub diff_elements_lem :
      (elem1 elem2 : Element L)
      → IsSorted type_index (ops.items elem1.attrs)
      → IsSorted type_index (ops.items elem2.attrs)
      → (text_eq elem1.name elem2.name ≡ true
          → (diff : Element L) × (shared : List Attribute) × (diff_elements ops elem1 elem2
              ≡ some (diff, shared))
            × (diff.name ≡ elem1.name)
            × ((k : ℕ)
                → (of_type ops laws diff k
                    ≡ difference (of_type ops laws elem1 k) (of_type ops laws elem2 k))
                  × (lookup type_index k shared
                      ≡ unless (of_type ops laws elem1 k) (of_type ops laws elem2 k))))
        × (text_eq elem1.name elem2.name ≡ false → diff_elements ops elem1 elem2 ≡ none)
  unfolding diff_elements diff_attributes
  diff_elements_lem elem1 elem2 s t = (
    λ same. (
      (diff_attributes ops elem1 elem2).0,
      (diff_attributes ops elem1 elem2).1,
      rw same refl,
      refl,
      λ k. let (d, _, m) = diff_attributes_lem elem1 elem2 k s t in (d, m),
    ),
    λ other. rw other refl,
  )
