-- ===== src/File/Collect/Each.antt =====
-- What the loop over the types that are asked for adds (agent/plugin/file/collect_attributes.c).
use yella.Prelude.{
  ℕ, ◌≡◌, refl, sym, ap, ◌∙◌, Bool, true, false, ◌||◌, List, [], ◌∷◌, Option, none, some, ◌==◌,
  if◌then◌else◌, Bool-cases, inl, inr,
}
use yella.Sglib.SortedList.{SortedOps, SortedLaws, lookup}
use yella.File.Element.Sorted.{lookup-insert}
use yella.File.Attribute.{AclEntry, Attribute}
use yella.File.Attribute.Types.{
  AttributeType, file_type, sha256, posix_permissions, user, group, size, access_time,
  metadata_change_time, modification_time, posix_acl,
}
use yella.File.Attribute.Compare.{type_index}
use yella.File.Element.{Element, add_element_attribute}
use yella.File.Collect.{
  Snapshot, Collected, has_contents, handle_posix_acl, add_digest, handle_sha256, collect_one,
  collect_each,
}
use yella.File.Collect.Values.{
  number_of, digest_of, acl_of, asks, loop_value, if_asked, index_or, same_type, loop_value-index,
}

abbrev or_else : Option Attribute → Option Attribute → Option Attribute
or_else none p = p
or_else (some a) p = some a

or_false : (b : Bool) → b ≡ (b || false)
or_false true = refl
or_false false = refl

or_swap : (a b c : Bool) → ((a || b) || c) ≡ (b || (a || c))
or_swap true true c = refl
or_swap true false c = refl
or_swap false b c = refl

module _ {L : Type 0} (ops : SortedOps L Attribute) (laws : SortedLaws ops type_index)
    (snap : Snapshot) where
  abbrev pub add_option : Element L → Option Attribute → Element L
  add_option e none = e
  add_option e (some a) = add_element_attribute ops e a

  digest_added :
      (c : Collected L) (md : Option (List ℕ))
      → (add_digest ops c md).elem ≡ add_option c.elem (digest_of true md)
  unfolding add_digest
  digest_added c none = refl
  digest_added c (some md) = refl

  acl_added :
      (c : Collected L) (acl : Option (List AclEntry))
      → (handle_posix_acl ops c acl).elem ≡ add_option c.elem (acl_of acl)
  unfolding handle_posix_acl
  acl_added c none = refl
  acl_added c (some acl) = refl

  digest_keeps :
      (c : Collected L) (md : Option (List ℕ))
      → (add_digest ops c md).should_get_access_time ≡ c.should_get_access_time
  unfolding add_digest
  digest_keeps c none = refl
  digest_keeps c (some md) = refl

  acl_keeps :
      (c : Collected L) (acl : Option (List AclEntry))
      → (handle_posix_acl ops c acl).should_get_access_time ≡ c.should_get_access_time
  unfolding handle_posix_acl
  acl_keeps c none = refl
  acl_keeps c (some acl) = refl

  pub collect_one-elem :
      (c : Collected L) (u : AttributeType)
      → (collect_one ops snap c u).elem ≡ add_option c.elem (loop_value snap u)
  unfolding collect_one handle_posix_acl handle_sha256 add_digest
  collect_one-elem c file_type = refl
  collect_one-elem c sha256 = elim (Bool-cases (has_contents snap.ftype)) [
    | inl h ↦ rw h (digest_added c snap.digest)
    | inr h ↦ rw h refl
  ]
  collect_one-elem c posix_permissions = refl
  collect_one-elem c user = refl
  collect_one-elem c group = refl
  collect_one-elem c size = refl
  collect_one-elem c access_time = refl
  collect_one-elem c metadata_change_time = refl
  collect_one-elem c modification_time = refl
  collect_one-elem c posix_acl = acl_added c snap.acl

  lookup-add_option :
      (k : ℕ) (e : Element L) (o : Option Attribute) (n : ℕ)
      → index_or n o ≡ n
      → lookup type_index k (ops.items (add_option e o).attrs) ≡ (
          if k == n
          then or_else o (lookup type_index k (ops.items e.attrs))
          else lookup type_index k (ops.items e.attrs))
  unfolding add_element_attribute
  lookup-add_option k e none n i = elim (Bool-cases (k == n)) [
    | inl h ↦ rw h refl
    | inr h ↦ rw h refl
  ]
  lookup-add_option k e (some a) n i =
      ap (lookup type_index k) (laws.items-add e.attrs a)
      ∙ lookup-insert type_index k a (ops.items e.attrs)
      ∙ ap (λ m. if k == m then some a else lookup type_index k (ops.items e.attrs)) i
      ∙ (elim (Bool-cases (k == n)) [ inl h ↦ rw h refl | inr h ↦ rw h refl ])

  -- The element has what is asked for among some types.
  abbrev pub Has : Collected L → AttributeType → Bool → Type 0
  Has c t asked =
      lookup type_index (number_of t) (ops.items c.elem.attrs) ≡ if_asked asked (loop_value snap t)

  asked_again : (o p : Option Attribute) (b : Bool) → p ≡ if_asked b o → or_else o p ≡ o
  asked_again none p true e = e
  asked_again none p false e = e
  asked_again (some a) p b e = refl

  one-Has :
      (c : Collected L) (t u : AttributeType) (b : Bool)
      → Has c t b
      → Has (collect_one ops snap c u) t (number_of t == number_of u || b)
  one-Has c t u b h =
      let k = number_of t in
      ap (λ (e : Element L). lookup type_index k (ops.items e.attrs)) (collect_one-elem c u)
      ∙ lookup-add_option k c.elem (loop_value snap u) (number_of u) (loop_value-index snap u)
      ∙ (elim (Bool-cases (number_of t == number_of u)) [
        | inl e ↦
            (let same : loop_value snap u ≡ loop_value snap t =
                ap (loop_value snap) (sym (same_type t u e)) in
              rw e (
                ap (λ o. or_else o (lookup type_index k (ops.items c.elem.attrs))) same
                ∙ asked_again (loop_value snap t) _ b h))
        | inr e ↦ rw e h
      ])

  pub each-Has :
      (us : List AttributeType) (c : Collected L) (t : AttributeType) (b : Bool)
      → Has c t b
      → Has (collect_each ops snap c us) t (b || asks t us)
  unfolding collect_each
  each-Has [] c t b h = h ∙ ap (λ d. if_asked d (loop_value snap t)) (or_false b)
  each-Has (u ∷ us) c t b h =
      each-Has us (collect_one ops snap c u) t (number_of t == number_of u || b) (one-Has c t u b h)
      ∙ ap (λ d. if_asked d (loop_value snap t))
          (or_swap (number_of t == number_of u) b (asks t us))

  one-gets :
      (c : Collected L) (u : AttributeType)
      → (collect_one ops snap c u).should_get_access_time
        ≡ (number_of access_time == number_of u || c.should_get_access_time)
  unfolding collect_one handle_posix_acl handle_sha256 add_digest
  one-gets c file_type = refl
  one-gets c sha256 = elim (Bool-cases (has_contents snap.ftype)) [
    | inl h ↦ rw h (digest_keeps c snap.digest)
    | inr h ↦ rw h refl
  ]
  one-gets c posix_permissions = refl
  one-gets c user = refl
  one-gets c group = refl
  one-gets c size = refl
  one-gets c access_time = refl
  one-gets c metadata_change_time = refl
  one-gets c modification_time = refl
  one-gets c posix_acl = acl_keeps c snap.acl

  pub each-gets :
      (us : List AttributeType) (c : Collected L)
      → (collect_each ops snap c us).should_get_access_time
        ≡ (c.should_get_access_time || asks access_time us)
  unfolding collect_each
  each-gets [] c = or_false c.should_get_access_time
  each-gets (u ∷ us) c =
      each-gets us (collect_one ops snap c u)
      ∙ ap (λ b. b || asks access_time us) (one-gets c u)
      ∙ or_swap (number_of access_time == number_of u) c.should_get_access_time
          (asks access_time us)
