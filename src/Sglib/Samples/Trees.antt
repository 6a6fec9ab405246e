-- ===== src/Sglib/Samples/Trees.antt =====
-- A tree that keeps the laws: an association list.
use yella.Prelude.{
  suc, arith, ◌≡◌, inl, inr, refl, sym, ap, ap₂, subst, true, false, List, [], ◌∷◌, Option, none,
  some, if◌then◌else◌, length, Text, text_eq, text_eq_iff, text_eq_refl, Bool-cases, All, All-mono,
}
use yella.Sglib.Tree.{TreeOps, TreeLaws, AreApart}

apart_of : (q k n : Text) → text_eq q n ≡ true → text_eq k n ≡ false → text_eq q k ≡ false
apart_of q k n h g = elim (Bool-cases (text_eq q k)) [
  | inl same ↦
      (let e : text_eq k n ≡ true = subst (λ t. text_eq t n ≡ true) ((text_eq_iff q k).0 same) h in
        cc)
  | inr apart ↦ apart
]

module _ {V : Type 0} where
  unfoldable find : List (Text × V) → Text → Option V
  find [] q = none
  find (n ∷ t) q = if text_eq q n.0 then some n.1 else find t q

  unfoldable set : List (Text × V) → Text → V → List (Text × V)
  set [] k v = []
  set (n ∷ t) k v = if text_eq k n.0 then (n.0, v) ∷ t else n ∷ set t k v

  unfoldable delete : List (Text × V) → Text → List (Text × V)
  delete [] k = []
  delete (n ∷ t) k = if text_eq k n.0 then t else n ∷ delete t k

  abbrev IsDistinct : List (Text × V) → Type 0
  IsDistinct [] = Unit
  IsDistinct (n ∷ t) = (find t n.0 ≡ none) × IsDistinct t

  set-find :
      (t : List (Text × V)) (k : Text) (v w : V) (q : Text)
      → find t k ≡ some w
      → find (set t k v) q ≡ (if text_eq q k then some v else find t q)
  unfolding find set
  set-find [] k v w q h = cc
  set-find (n ∷ t) k v w q h = elim (Bool-cases (text_eq k n.0)) [
    | inl same ↦
        (let e : k ≡ n.0 = (text_eq_iff k n.0).0 same in
          rw (same, e)
            (elim (Bool-cases (text_eq q n.0)) [ inl a ↦ rw a refl | inr a ↦ rw a refl ]))
    | inr apart ↦
        (let h' : find t k ≡ some w = rw (← h, apart, find) refl in
          elim (Bool-cases (text_eq q n.0)) [
            | inl a ↦ rw (apart, find) (rw (a, apart_of q k n.0 a apart) refl)
            | inr a ↦ rw (apart, find) (rw a (set-find t k v w q h'))
          ])
  ]

  set-absent :
      (t : List (Text × V)) (k : Text) (v : V) (q : Text)
      → find t q ≡ none
      → find (set t k v) q ≡ none
  unfolding find set
  set-absent [] k v q h = refl
  set-absent (n ∷ t) k v q h = elim (Bool-cases (text_eq k n.0)) [
    | inl same ↦ ground (arith, same)
    | inr apart ↦ ground (arith, apart, set-absent t k v q)
  ]

  set-IsDistinct : (t : List (Text × V)) (k : Text) (v : V) → IsDistinct t → IsDistinct (set t k v)
  unfolding set
  set-IsDistinct [] k v d = tt
  set-IsDistinct (n ∷ t) k v d = elim (Bool-cases (text_eq k n.0)) [
    | inl same ↦ rw same (d.0, d.1)
    | inr apart ↦ rw apart (set-absent t k v n.0 d.0, set-IsDistinct t k v d.1)
  ]

  length-set : (t : List (Text × V)) (k : Text) (v : V) → length (set t k v) ≡ length t
  unfolding set
  length-set [] k v = refl
  length-set (n ∷ t) k v = elim (Bool-cases (text_eq k n.0)) [
    | inl same ↦ rw same refl
    | inr apart ↦ rw apart (ap suc (length-set t k v))
  ]

  delete-find :
      (t : List (Text × V)) (k q : Text)
      → IsDistinct t
      → find (delete t k) q ≡ (if text_eq q k then none else find t q)
  unfolding find delete
  delete-find [] k q d = elim (Bool-cases (text_eq q k)) [ inl a ↦ rw a refl | inr a ↦ rw a refl ]
  delete-find (n ∷ t) k q d = elim (Bool-cases (text_eq k n.0)) [
    | inl same ↦
        (let e : k ≡ n.0 = (text_eq_iff k n.0).0 same in
          rw (same, e)
            (elim (Bool-cases (text_eq q n.0)) [
              | inl a ↦ rw a (rw ((text_eq_iff q n.0).0 a) d.0)
              | inr a ↦ rw a refl
            ]))
    | inr apart ↦ elim (Bool-cases (text_eq q n.0)) [
      | inl a ↦ rw (apart, find) (rw (a, apart_of q k n.0 a apart) refl)
      | inr a ↦ rw (apart, find) (rw a (delete-find t k q d.1))
    ]
  ]

  delete-absent : (t : List (Text × V)) (k q : Text) → find t q ≡ none → find (delete t k) q ≡ none
  unfolding find delete
  delete-absent [] k q h = refl
  delete-absent (n ∷ t) k q h = elim (Bool-cases (text_eq k n.0)) [
    | inl same ↦ ground (arith, same)
    | inr apart ↦ ground (arith, apart, delete-absent t k q)
  ]

  delete-IsDistinct : (t : List (Text × V)) (k : Text) → IsDistinct t → IsDistinct (delete t k)
  unfolding delete
  delete-IsDistinct [] k d = tt
  delete-IsDistinct (n ∷ t) k d = elim (Bool-cases (text_eq k n.0)) [
    | inl same ↦ rw same d.1
    | inr apart ↦ rw apart (delete-absent t k n.0 d.0, delete-IsDistinct t k d.1)
  ]

  length-delete :
      (t : List (Text × V)) (k : Text) (v : V)
      → find t k ≡ some v
      → suc (length (delete t k)) ≡ length t
  unfolding find delete
  length-delete [] k v h = cc
  length-delete (n ∷ t) k v h = elim (Bool-cases (text_eq k n.0)) [
    | inl same ↦ rw same refl
    | inr apart ↦
        (let h' : find t k ≡ some v = rw (← h, apart, find) refl in
          rw apart (ap suc (length-delete t k v h')))
  ]

  found_still :
      (n : Text × V) (t : List (Text × V))
      → find t n.0 ≡ none
      → (m : Text × V) → find t m.0 ≡ some m.1
      → find (n ∷ t) m.0 ≡ some m.1
  unfolding find
  found_still n t absent m h = elim (Bool-cases (text_eq m.0 n.0)) [
    | inl same ↦
        (let e : find t n.0 ≡ some m.1 =
            subst (λ k. find t k ≡ some m.1) ((text_eq_iff m.0 n.0).0 same) h in
          cc)
    | inr apart ↦ rw apart h
  ]

  members_found : (t : List (Text × V)) → IsDistinct t → All (λ n. find t n.0 ≡ some n.1) t
  unfolding find
  members_found [] d = tt
  members_found (n ∷ t) d = (
    rw (text_eq_refl n.0) refl,
    All-mono _ (λ m. find (n ∷ t) m.0 ≡ some m.1) t (found_still n t d.0) (members_found t d.1),
  )

  absent_apart :
      (t : List (Text × V)) (k : Text) → find t k ≡ none → All (λ m. text_eq m.0 k ≡ false) t
  unfolding find
  absent_apart [] k h = tt
  absent_apart (m ∷ t) k h = elim (Bool-cases (text_eq k m.0)) [
    | inl same ↦ (let e : some m.1 ≡ none = rw (← h, same) refl in cc)
    | inr apart ↦ (
      elim (Bool-cases (text_eq m.0 k)) [
        | inl same ↦
            (let e : text_eq k m.0 ≡ true =
                (text_eq_iff k m.0).1 (sym ((text_eq_iff m.0 k).0 same)) in
              cc)
        | inr e ↦ e
      ],
      absent_apart t k (rw (← h, apart, find) refl),
    )
  ]

  apart_members : (t : List (Text × V)) → IsDistinct t → AreApart t
  apart_members [] d = tt
  apart_members (n ∷ t) d = (absent_apart t n.0 d.0, apart_members t d.1)

  found_in :
      (t : List (Text × V)) (k : Text) (v : V) (P : Text × V → Type 0)
      → find t k ≡ some v
      → All P t
      → P (k, v)
  unfolding find
  found_in [] k v P h all = cc
  found_in (n ∷ t) k v P h all = elim (Bool-cases (text_eq k n.0)) [
    | inl same ↦
        (let e : k ≡ n.0 = (text_eq_iff k n.0).0 same in
          let e' : n.1 ≡ v = ground (arith, same) in subst P (ap₂ (λ a b. (a, b)) (sym e) e') all.0)
    | inr apart ↦ found_in t k v P (rw (← h, apart, find) refl) all.1
  ]

  unfoldable pub tree_ops : TreeOps (List (Text × V)) V
  unfolding find set delete
  tree_ops = record {
    empty = [];
    find = find;
    add = λ t k v. (k, v) ∷ t;
    set = set;
    delete = delete;
    iterate = λ t. t;
  }

  pub tree_laws : TreeLaws tree_ops
  unfolding tree_ops find set delete
  tree_laws = record {
    IsTree = IsDistinct;
    empty-IsTree = tt;
    add-IsTree = λ t k v d absent. (absent, d);
    set-IsTree = set-IsDistinct;
    delete-IsTree = delete-IsDistinct;
    find-empty = λ k. refl;
    find-add = λ t k v q d absent. refl;
    find-set = λ t k v w q d. set-find t k v w q;
    find-delete = delete-find;
    iterate-empty = refl;
    iterate-AreApart = apart_members;
    iterate-find = members_found;
    find-iterate = λ t k v P d. found_in t k v P;
    length-add = λ t k v d absent. refl;
    length-set = λ t k v d. length-set t k v;
    length-delete = λ t k v d. length-delete t k v;
  }

  pub two-IsTree :
      (k q : Text) (v w : V) → text_eq k q ≡ false → tree_laws.IsTree ((k, v) ∷ (q, w) ∷ [])
  unfolding tree_laws find
  two-IsTree k q v w apart = (rw apart refl, (refl, tt))
