-- ===== src/File/Element.antt =====
-- Elements, what is known of a file (agent/plugin/file/element.c).
use yella.Prelude.{
  text_eq, ℕ, Bool, true, false, List, [], ◌∷◌, Option, none, some, compare, Ordering,
  if◌then◌else◌, length, Text,
}
use yella.Sglib.SortedList.{SortedOps}
use yella.External.{Utf8}
use yella.File.Attribute.{Attribute, FbAttr, pack_attribute, create_attribute_from_table}
use yella.File.Attribute.Compare.{compare_attributes}
pub mod Sorted
pub mod Parts
pub mod Diff
mod Tests

-- `struct element`
pub record Element (L : Type 0) : Type 0 where
  pub name : Text
  pub attrs : L

-- Whether a comparison returns zero.
abbrev pub is_zero : Ordering → Bool
is_zero Ordering.eq = true
is_zero _ = false

-- The loop of `compare_element_attributes`, up to the first result that is not zero.
unfoldable pub compare_each : List Attribute → List Attribute → Ordering
compare_each (a ∷ xs) (b ∷ ys) =
    let rest = compare_each xs ys in
    let rc = compare_attributes a b in if is_zero rc then rest else rc
compare_each _ _ = Ordering.eq

module _ {L : Type 0} (ops : SortedOps L Attribute) where
  unfoldable pub create_element : Text → Element L
  create_element name = record { name = name; attrs = ops.empty }

  unfoldable pub add_element_attribute : Element L → Attribute → Element L
  add_element_attribute elem attr = record elem { attrs = ops.add elem.attrs attr }

  unfoldable pub compare_element_attributes : Element L → Element L → Ordering
  compare_element_attributes lhs rhs =
      let rc = compare (length (ops.items lhs.attrs)) (length (ops.items rhs.attrs)) in
      if is_zero rc then compare_each (ops.items lhs.attrs) (ops.items rhs.attrs) else rc

  -- The attributes that `diff_elements` takes from the first element, to_delete1.
  unfoldable pub same_in : L → List Attribute → List Attribute
  same_in attrs2 [] = []
  same_in attrs2 (an ∷ ans) =
      let rest = same_in attrs2 ans in
      elim (ops.find_member attrs2 an) [
        | none ↦ rest
        | some found ↦ if is_zero (compare_attributes an found) then an ∷ rest else rest
      ]

  -- Those that it adds, to_delete2.
  unfoldable pub missing_in : L → List Attribute → List Attribute
  missing_in attrs1 [] = []
  missing_in attrs1 (an ∷ ans) =
      let rest = missing_in attrs1 ans in
      elim (ops.find_member attrs1 an) [ none ↦ an ∷ rest | some found ↦ rest ]

  unfoldable pub delete_all : L → List Attribute → L
  delete_all attrs [] = attrs
  delete_all attrs (an ∷ ans) = delete_all (ops.delete attrs an) ans

  unfoldable pub add_all : L → List Attribute → L
  add_all attrs [] = attrs
  add_all attrs (an ∷ ans) = add_all (ops.add attrs an) ans

  -- The lists that `diff_elements` makes: the first element, and the attributes whose nodes are then
  -- in both.
  unfoldable pub diff_attributes : Element L → Element L → Element L × List Attribute
  diff_attributes elem1 elem2 =
      let to_delete1 = same_in elem2.attrs (ops.items elem1.attrs) in
      let to_delete2 = missing_in elem1.attrs (ops.items elem2.attrs) in
      (record elem1 { attrs = add_all (delete_all elem1.attrs to_delete1) to_delete2 }, to_delete2)

  -- `diff_elements`; `none` is the failed assertion that the names are the same.
  unfoldable pub diff_elements : Element L → Element L → Option (Element L × List Attribute)
  diff_elements elem1 elem2 =
      if text_eq elem1.name elem2.name then some (diff_attributes elem1 elem2) else none

  module _ (utf8 : Utf8) where
    -- `none`, here and below, is the use of a NULL name.
    unfoldable pub pack_each : List Attribute → Option (List FbAttr)
    pack_each [] = some []
    pack_each (a ∷ xs) = elim (pack_attribute utf8 a) [
      | none ↦ none
      | some t ↦ elim (pack_each xs) [ none ↦ none | some ts ↦ some (t ∷ ts) ]
    ]

    -- `pack_element_attributes_to_vector`
    unfoldable pub pack_element_attributes_to_vector : Element L → Option (List FbAttr)
    pack_element_attributes_to_vector elem = pack_each (ops.items elem.attrs)

    -- `pack_element_attributes`: `some none` is the NULL that it returns without attributes.
    unfoldable pub pack_element_attributes : Element L → Option (Option (List FbAttr))
    pack_element_attributes elem = elim (ops.items elem.attrs) [
      | [] ↦ some none
      | _ ↦ elim (pack_element_attributes_to_vector elem) [ none ↦ none | some ts ↦ some (some ts) ]
    ]

    -- The loop of `create_element_with_attrs`; `none` is a table that is not there.
    unfoldable pub add_packed : Element L → List FbAttr → Option (Element L)
    add_packed elem [] = some elem
    add_packed elem (t ∷ ts) = elim (create_attribute_from_table utf8 t) [
      | none ↦ none
      | some a ↦ add_packed (add_element_attribute elem a) ts
    ]

    unfoldable pub create_element_with_attrs : Text → Option (List FbAttr) → Option (Element L)
    create_element_with_attrs name none = some (create_element name)
    create_element_with_attrs name (some packed) = add_packed (create_element name) packed
