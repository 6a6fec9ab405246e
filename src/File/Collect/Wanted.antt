-- ===== src/File/Collect/Wanted.antt =====
-- The attributes that a file's element has (agent/plugin/file/collect_attributes.c).
use yella.Prelude.{
  ◌≡◌, ◌⊎◌, refl, sym, ap, ◌∙◌, Bool, true, false, List, [], ◌∷◌, Option, none, some, ◌==◌,
  if◌then◌else◌, Text, inl, inr,
}
use yella.Sglib.SortedList.{SortedOps, SortedLaws, insert, lookup}
use yella.File.Element.Sorted.{lookup-insert}
use yella.File.Attribute.{Attribute}
use yella.File.Attribute.Types.{
  AttributeType, file_type, sha256, posix_permissions, user, group, size, access_time,
  metadata_change_time, modification_time, posix_acl,
}
use yella.File.Attribute.Compare.{type_index}
use yella.File.Element.{Element, create_element, add_element_attribute}
use yella.File.Collect.{
  Snapshot, Collected, collect_one, collect_each, add_access_time, starting, collect_attributes,
}
use yella.File.Collect.Values.{number_of, value_of, asks, loop_value, if_asked}
use yella.File.Collect.Each.{add_option, collect_one-elem, Has, each-Has, each-gets}

module _ {L : Type 0} (ops : SortedOps L Attribute) (laws : SortedLaws ops type_index)
    (snap : Snapshot) where
  abbrev access : Attribute
  access = Attribute.access_time snap.access_time_of

  access_or_not :
      (t : AttributeType)
      → (t ≡ access_time) ⊎ ((loop_value snap t ≡ value_of snap t) × ((number_of t == 6) ≡ false))
  access_or_not file_type = inr (refl, refl)
  access_or_not sha256 = inr (refl, refl)
  access_or_not posix_permissions = inr (refl, refl)
  access_or_not user = inr (refl, refl)
  access_or_not group = inr (refl, refl)
  access_or_not size = inr (refl, refl)
  access_or_not access_time = inl refl
  access_or_not metadata_change_time = inr (refl, refl)
  access_or_not modification_time = inr (refl, refl)
  access_or_not posix_acl = inr (refl, refl)

  -- The access time, if it is to be got, behind the loop's attributes.
  final :
      (c : Collected L) (t : AttributeType) (asked get : Bool)
      → Has ops laws snap c t asked
      → c.should_get_access_time ≡ get
      → (t ≡ access_time → get ≡ asked)
      → lookup type_index (number_of t) (ops.items (add_access_time ops snap c).attrs)
        ≡ if_asked asked (value_of snap t)
  unfolding add_access_time add_element_attribute
  final c t asked true h g both = elim (access_or_not t) [
    | inl e ↦
        (let yes_asked : true ≡ asked = both e in
          rw (g, e, ← yes_asked)
            (ap (lookup type_index 6) (laws.items-add c.elem.attrs access)
              ∙ lookup-insert type_index 6 access (ops.items c.elem.attrs)))
    | inr (e, apart) ↦ rw g (
        ap (lookup type_index (number_of t)) (laws.items-add c.elem.attrs access)
        ∙ lookup-insert type_index (number_of t) access (ops.items c.elem.attrs)
        ∙ ap
            (λ b.
              if b then some access else lookup type_index (number_of t) (ops.items c.elem.attrs))
            apart
        ∙ h
        ∙ ap (if_asked asked) e)
  ]
  final c t asked false h g both = elim (access_or_not t) [
    | inl e ↦
        (let not_asked : false ≡ asked = both e in
          rw g (
            h
            ∙ ap (λ b. if_asked b (loop_value snap t)) (sym not_asked)
            ∙ ap (λ b. if_asked b (value_of snap t)) not_asked))
    | inr (e, apart) ↦ rw g (h ∙ ap (if_asked asked) e)
  ]

  -- The attributes with one more, if there is one, in the order of the types.
  abbrev pub with_option : Option Attribute → List Attribute → List Attribute
  with_option none xs = xs
  with_option (some a) xs = insert type_index a xs

  -- One attribute for every type that is asked for, where there is one to know.
  abbrev pub wanted : List AttributeType → List Attribute → List Attribute
  wanted [] xs = xs
  wanted (t ∷ ts) xs = wanted ts (with_option (loop_value snap t) xs)

  items_option :
      (e : Element L) (o : Option Attribute)
      → ops.items (add_option ops laws snap e o).attrs ≡ with_option o (ops.items e.attrs)
  unfolding add_element_attribute
  items_option e none = refl
  items_option e (some a) = laws.items-add e.attrs a

  each-items :
      (ts : List AttributeType) (c : Collected L)
      → ops.items (collect_each ops snap c ts).elem.attrs ≡ wanted ts (ops.items c.elem.attrs)
  unfolding collect_each
  each-items [] c = refl
  each-items (t ∷ ts) c =
      each-items ts (collect_one ops snap c t)
      ∙ ap (wanted ts) (
          ap (λ (e : Element L). ops.items e.attrs) (collect_one-elem ops laws snap c t)
          ∙ items_option c.elem (loop_value snap t))

  access_items :
      (c : Collected L) (b : Bool)
      → c.should_get_access_time ≡ b
      → ops.items (add_access_time ops snap c).attrs
        ≡ with_option (if b then some access else none) (ops.items c.elem.attrs)
  unfolding add_access_time add_element_attribute
  access_items c true e = rw e (laws.items-add c.elem.attrs access)
  access_items c false e = rw e refl

  -- A file's element has just the attributes that are asked for and that there are to know: in the
  -- order of their types, one for every time that the type is asked for, and the access time once, if
  -- it is. So whatever the order in which they are asked for, under the number of a type stands what
  -- the file has under this type, if the type is among those that are asked for, and otherwise nothing.
  pub collect_attributes_lem :
      (name : Text) (attr_types : List AttributeType)
      → (elem : Element L) × (reset : Bool) × (collect_attributes ops name attr_types true
            (some snap)
          ≡ some (elem, reset))
        × (ops.items elem.attrs
            ≡ with_option
                (if asks access_time attr_types then some access else none)
                (wanted attr_types []))
        × ((t : AttributeType)
            → lookup type_index (number_of t) (ops.items elem.attrs)
              ≡ if_asked (asks t attr_types) (value_of snap t))
  unfolding collect_attributes create_element
  collect_attributes_lem name attr_types =
      let c = collect_each ops snap (starting ops name) attr_types in
      (
        add_access_time ops snap c,
        c.should_reset_access_time,
        refl,
        access_items c (asks access_time attr_types)
              (each-gets ops laws snap attr_types (starting ops name))
            ∙ ap (with_option (if asks access_time attr_types then some access else none)) (
                each-items attr_types (starting ops name)
                ∙ ap (wanted attr_types) laws.items-empty),
        λ t.
            final c t (asks t attr_types) (asks access_time attr_types)
              (each-Has ops laws snap attr_types (starting ops name) t false
                (ap (lookup type_index (number_of t)) laws.items-empty))
              (each-gets ops laws snap attr_types (starting ops name))
              (λ e. ap (λ u. asks u attr_types) (sym e)),
      )
