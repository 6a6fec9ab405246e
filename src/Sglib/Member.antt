-- ===== src/Sglib/Member.antt =====
-- The removal of a node that may be there (agent/common/sglib.h: delete_if_member).
use yella.Prelude.{
  ◌≡◌, refl, ◌∙◌, none, some, if◌then◌else◌, Text, text_eq, text_eq_iff, text_eq_refl, Bool-cases,
  Option-cases, inl, inr,
}
use yella.Sglib.Tree.{TreeOps, TreeLaws}

unfoldable pub delete_if_member : {T V : Type 0} → TreeOps T V → T → Text → T
delete_if_member ops t name = elim (ops.find t name) [ none ↦ t | some removed ↦ ops.delete t name ]

module _ {T V : Type 0} (ops : TreeOps T V) (laws : TreeLaws ops) where
  pub deleted-IsTree :
      (t : T) (name : Text) → laws.IsTree t → laws.IsTree (delete_if_member ops t name)
  unfolding delete_if_member
  deleted-IsTree t name h = elim (Option-cases (ops.find t name)) [
    | inl e ↦ rw (e, delete_if_member) h
    | inr (s, e) ↦ rw (e, delete_if_member) (laws.delete-IsTree t name h)
  ]

  pub find-deleted :
      (t : T) (name q : Text)
      → laws.IsTree t
      → ops.find (delete_if_member ops t name) q ≡ (if text_eq q name then none else ops.find t q)
  unfolding delete_if_member
  find-deleted t name q h = elim (Option-cases (ops.find t name)) [
    | inl e ↦
        rw (e, delete_if_member)
          (elim (Bool-cases (text_eq q name)) [
            | inl same ↦ rw (same, (text_eq_iff q name).0 same) e
            | inr apart ↦ rw apart refl
          ])
    | inr (s, e) ↦ rw (e, delete_if_member) (laws.find-delete t name q h)
  ]

  pub find_replaced :
      (t : T) (name : Text) (s : V) (q : Text)
      → laws.IsTree t
      → laws.IsTree (ops.add (delete_if_member ops t name) name s)
        × (ops.find (ops.add (delete_if_member ops t name) name s) q
            ≡ (if text_eq q name then some s else ops.find t q))
  find_replaced t name s q h =
      let tree = deleted-IsTree t name h in
      let gone : ops.find (delete_if_member ops t name) name ≡ none =
        find-deleted t name name h ∙ rw (text_eq_refl name) refl in
      (
        laws.add-IsTree (delete_if_member ops t name) name s tree gone,
        laws.find-add (delete_if_member ops t name) name s q tree gone
            ∙ (elim (Bool-cases (text_eq q name)) [
              | inl e ↦ rw e refl
              | inr e ↦ rw e (find-deleted t name q h ∙ rw e refl)
            ]),
      )
