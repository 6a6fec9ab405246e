-- ===== src/File/Element/Parts.antt =====
-- The lists of attributes that diff_elements makes (agent/plugin/file/element.c).
use yella.Prelude.{
  ℕ, ◌<◌, ◌≡◌, refl, sym, ap, subst, ◌∙◌, Bool, true, false, List, [], ◌∷◌, Option, none, some,
  ◌==◌, ==_iff, if◌then◌else◌, All, Bool-cases, Option-cases, inl, inr,
}
use yella.Sglib.SortedList.{SortedOps, SortedLaws, lookup, IsSorted}
use yella.File.Attribute.{Attribute}
use yella.File.Attribute.Compare.{compare_attributes, type_index}
use yella.File.Element.{Element, is_zero, same_in, missing_in, delete_all, add_all}
use yella.File.Element.Sorted.{
  has_key, or_else, lookup-insert, lookup_below, lookup-remove, remove-IsSorted,
}

-- Whether two attributes are there and compare as equal.
abbrev pub agree : Option Attribute → Option Attribute → Bool
agree (some a) (some b) = is_zero (compare_attributes a b)
agree _ _ = false

-- The second attribute, unless the first is there.
abbrev pub unless : Option Attribute → Option Attribute → Option Attribute
unless none o = o
unless (some a) o = none

-- The symmetric difference: what only one element has, and the first's where they differ.
abbrev pub difference : Option Attribute → Option Attribute → Option Attribute
difference none o = o
difference (some a) none = some a
difference (some a) (some b) = if is_zero (compare_attributes a b) then none else some a

pub assembled :
    (o p : Option Attribute) → or_else (unless o p) (if agree o p then none else o) ≡ difference o p
assembled none none = refl
assembled none (some b) = refl
assembled (some a) none = refl
assembled (some a) (some b) = refl

if_twice :
    (b c : Bool) (o : Option Attribute)
    → (if c then none else if b then none else o) ≡ (if (if b then true else c) then none else o)
if_twice true true o = refl
if_twice true false o = refl
if_twice false true o = refl
if_twice false false o = refl

module _ {L : Type 0} (ops : SortedOps L Attribute) (laws : SortedLaws ops type_index) where
  -- The attribute of a type.
  abbrev pub of_type : Element L → ℕ → Option Attribute
  of_type elem k = lookup type_index k (ops.items elem.attrs)

  pub delete_all_lem :
      (xs : List Attribute) (l : L) (k : ℕ)
      → IsSorted type_index (ops.items l)
      → lookup type_index k (ops.items (delete_all ops l xs))
        ≡ (if has_key type_index k xs then none else lookup type_index k (ops.items l))
  unfolding delete_all
  delete_all_lem [] l k s = refl
  delete_all_lem (x ∷ xs) l k s =
      let e = laws.items-delete l x s in
      let sorted : IsSorted type_index (ops.items (ops.delete l x)) =
        rw e (remove-IsSorted type_index (type_index x) (ops.items l) s) in
      delete_all_lem xs (ops.delete l x) k sorted
      ∙ rw (e, lookup-remove type_index k (type_index x) (ops.items l) s)
          (if_twice (k == type_index x) (has_key type_index k xs)
            (lookup type_index k (ops.items l)))

  pub add_all_lem :
      (xs : List Attribute) (l : L) (k : ℕ)
      → IsSorted type_index xs
      → lookup type_index k (ops.items (add_all ops l xs))
        ≡ or_else (lookup type_index k xs) (lookup type_index k (ops.items l))
  unfolding add_all
  add_all_lem [] l k s = refl
  add_all_lem (x ∷ xs) l k s =
      add_all_lem xs (ops.add l x) k s.1
      ∙ rw (laws.items-add l x, lookup-insert type_index k x (ops.items l))
          (elim (Bool-cases (k == type_index x)) [
            | inl e ↦
                (let absent : lookup type_index k xs ≡ none =
                    rw ((==_iff k (type_index x)).0 e)
                      (lookup_below type_index (type_index x) xs s.0) in
                  rw (e, absent) refl)
            | inr e ↦ rw e refl
          ])

  same_in-next :
      (attrs2 : L) (z : Attribute) (zs : List Attribute)
      → same_in ops attrs2 (z ∷ zs) ≡ (
          if agree (some z) (lookup type_index (type_index z) (ops.items attrs2))
          then z ∷ same_in ops attrs2 zs
          else same_in ops attrs2 zs)
  unfolding same_in
  same_in-next attrs2 z zs =
      subst
        (λ o.
          same_in ops attrs2 (z ∷ zs)
          ≡ (if agree (some z) o then z ∷ same_in ops attrs2 zs else same_in ops attrs2 zs))
        (laws.find_member_lem attrs2 z)
        (elim (Option-cases (ops.find_member attrs2 z)) [
          | inl h ↦ rw (h, same_in) refl
          | inr (b, h) ↦ rw (h, same_in) refl
        ])

  has_key_if :
      (b : Bool) (k : ℕ) (z : Attribute) (xs : List Attribute)
      → (k == type_index z) ≡ false
      → has_key type_index k (if b then z ∷ xs else xs) ≡ has_key type_index k xs
  has_key_if true k z xs e = rw e refl
  has_key_if false k z xs e = refl

  has_key_here :
      (b : Bool) (k : ℕ) (z : Attribute) (xs : List Attribute)
      → (k == type_index z) ≡ true
      → has_key type_index k xs ≡ false
      → has_key type_index k (if b then z ∷ xs else xs) ≡ b
  has_key_here true k z xs e h = rw e refl
  has_key_here false k z xs e h = h

  pub same_in_lem :
      (attrs2 : L) (zs : List Attribute) (k : ℕ)
      → IsSorted type_index zs
      → has_key type_index k (same_in ops attrs2 zs)
        ≡ agree (lookup type_index k zs) (lookup type_index k (ops.items attrs2))
  unfolding same_in
  same_in_lem attrs2 [] k s = refl
  same_in_lem attrs2 (z ∷ zs) k s =
      let rest = same_in_lem attrs2 zs k s.1 in
      ap (has_key type_index k) (same_in-next attrs2 z zs)
      ∙ (elim (Bool-cases (k == type_index z)) [
        | inr e ↦ has_key_if _ k z (same_in ops attrs2 zs) e ∙ rw e rest
        | inl e ↦
            (let same : k ≡ type_index z = (==_iff k (type_index z)).0 e in
              let absent : lookup type_index k zs ≡ none =
                rw same (lookup_below type_index (type_index z) zs s.0) in
              let nothing : has_key type_index k (same_in ops attrs2 zs) ≡ false =
                rest ∙ rw absent refl in
              let here : Option Attribute → List Attribute = λ o.
                if agree (some z) o then z ∷ same_in ops attrs2 zs else same_in ops attrs2 zs in
              rw e (
                ap (λ j. has_key type_index k (here (lookup type_index j (ops.items attrs2))))
                  (sym same)
                ∙ has_key_here (agree (some z) (lookup type_index k (ops.items attrs2))) k z
                    (same_in ops attrs2 zs) e nothing))
      ])

  missing_in-next :
      (attrs1 : L) (y : Attribute) (ys : List Attribute)
      → lookup type_index (type_index y) (ops.items attrs1) ≡ none
      → missing_in ops attrs1 (y ∷ ys) ≡ y ∷ missing_in ops attrs1 ys
  unfolding missing_in
  missing_in-next attrs1 y ys h = rw (laws.find_member_lem attrs1 y ∙ h, missing_in) refl

  missing_in-skip :
      (attrs1 : L) (y a : Attribute) (ys : List Attribute)
      → lookup type_index (type_index y) (ops.items attrs1) ≡ some a
      → missing_in ops attrs1 (y ∷ ys) ≡ missing_in ops attrs1 ys
  unfolding missing_in
  missing_in-skip attrs1 y a ys h = rw (laws.find_member_lem attrs1 y ∙ h, missing_in) refl

  unless-none : (o : Option Attribute) → unless o none ≡ none
  unless-none none = refl
  unless-none (some a) = refl

  nothing_missing : (attrs1 : L) (k : ℕ) → lookup type_index k (missing_in ops attrs1 []) ≡ none
  unfolding missing_in
  nothing_missing attrs1 k = refl

  pub missing_in_lem :
      (attrs1 : L) (ys : List Attribute) (k : ℕ)
      → lookup type_index k (missing_in ops attrs1 ys)
        ≡ unless (lookup type_index k (ops.items attrs1)) (lookup type_index k ys)
  missing_in_lem attrs1 [] k =
      nothing_missing attrs1 k ∙ sym (unless-none (lookup type_index k (ops.items attrs1)))
  missing_in_lem attrs1 (y ∷ ys) k =
      let rest = missing_in_lem attrs1 ys k in
      elim (Option-cases (lookup type_index (type_index y) (ops.items attrs1))) [
        | inl h ↦ rw (missing_in-next attrs1 y ys h) (elim (Bool-cases (k == type_index y)) [
          | inl e ↦ rw (e, (==_iff k (type_index y)).0 e, h) refl
          | inr e ↦ rw e rest
        ])
        | inr (a, h) ↦ rw (missing_in-skip attrs1 y a ys h) (elim (Bool-cases (k == type_index y)) [
          | inl e ↦
              (let there : lookup type_index k (ops.items attrs1) ≡ some a =
                  rw ((==_iff k (type_index y)).0 e) h in
                rest ∙ rw there refl)
          | inr e ↦ rw e rest
        ])
      ]

  missing_in-All :
      (P : Attribute → Type 0) (attrs1 : L) (ys : List Attribute)
      → All P ys
      → All P (missing_in ops attrs1 ys)
  unfolding missing_in
  missing_in-All P attrs1 [] h = tt
  missing_in-All P attrs1 (y ∷ ys) h =
      let rest = missing_in-All P attrs1 ys h.1 in
      elim (Option-cases (lookup type_index (type_index y) (ops.items attrs1))) [
        | inl e ↦ subst (All P) (sym (missing_in-next attrs1 y ys e)) (h.0, rest)
        | inr (a, e) ↦ subst (All P) (sym (missing_in-skip attrs1 y a ys e)) rest
      ]

  pub missing_in-IsSorted :
      (attrs1 : L) (ys : List Attribute)
      → IsSorted type_index ys
      → IsSorted type_index (missing_in ops attrs1 ys)
  unfolding missing_in
  missing_in-IsSorted attrs1 [] s = tt
  missing_in-IsSorted attrs1 (y ∷ ys) s =
      let rest = missing_in-IsSorted attrs1 ys s.1 in
      let above = missing_in-All (λ x. type_index y < type_index x) attrs1 ys s.0 in
      elim (Option-cases (lookup type_index (type_index y) (ops.items attrs1))) [
        | inl e ↦ subst (IsSorted type_index) (sym (missing_in-next attrs1 y ys e)) (above, rest)
        | inr (a, e) ↦ subst (IsSorted type_index) (sym (missing_in-skip attrs1 y a ys e)) rest
      ]
