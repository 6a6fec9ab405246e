-- ===== src/Sglib/Tree.antt =====
-- SGLIB_DEFINE_RBTREE_FUNCTIONS (agent/common/sglib.h) as its clients use it: a set of nodes, of
-- which no two have one key.
use yella.Prelude.{
  suc, ◌≡◌, ◌∷◌, false, List, [], Option, none, some, if◌then◌else◌, length, All, Text, text_eq,
}

-- No two of some nodes have one key.
abbrev pub AreApart : {V : Type 0} → List (Text × V) → Type 0
AreApart [] = Unit
AreApart (n ∷ ns) = All (λ m. text_eq m.0 n.0 ≡ false) ns × AreApart ns

-- `T` are the trees and `V` a node's fields but for its key. `add` is called when the key is
-- absent, and `set` stands for a change of a node's fields through the pointer that `find` returned.
pub record TreeOps (T V : Type 0) : Type 0 where
  pub empty : T
  pub find : T → Text → Option V
  pub add : T → Text → V → T
  pub set : T → Text → V → T
  pub delete : T → Text → T
  pub iterate : T → List (Text × V)

-- The documented behaviour, of trees that the operations made from the empty one.
pub record TreeLaws {T V : Type 0} (ops : TreeOps T V) : Type 1 where
  pub IsTree : T → Type 0
  pub empty-IsTree : IsTree ops.empty
  pub add-IsTree :
      (t : T) (k : Text) (v : V) → IsTree t → ops.find t k ≡ none → IsTree (ops.add t k v)
  pub set-IsTree : (t : T) (k : Text) (v : V) → IsTree t → IsTree (ops.set t k v)
  pub delete-IsTree : (t : T) (k : Text) → IsTree t → IsTree (ops.delete t k)
  pub find-empty : (k : Text) → ops.find ops.empty k ≡ none
  pub find-add :
      (t : T) (k : Text) (v : V) (q : Text)
      → IsTree t
      → ops.find t k ≡ none
      → ops.find (ops.add t k v) q ≡ (if text_eq q k then some v else ops.find t q)
  pub find-set :
      (t : T) (k : Text) (v w : V) (q : Text)
      → IsTree t
      → ops.find t k ≡ some w
      → ops.find (ops.set t k v) q ≡ (if text_eq q k then some v else ops.find t q)
  pub find-delete :
      (t : T) (k q : Text)
      → IsTree t
      → ops.find (ops.delete t k) q ≡ (if text_eq q k then none else ops.find t q)
  pub iterate-empty : ops.iterate ops.empty ≡ []
  pub iterate-AreApart : (t : T) → IsTree t → AreApart (ops.iterate t)
  pub iterate-find : (t : T) → IsTree t → All (λ n. ops.find t n.0 ≡ some n.1) (ops.iterate t)
  pub find-iterate :
      (t : T) (k : Text) (v : V) (P : Text × V → Type 0)
      → IsTree t
      → ops.find t k ≡ some v
      → All P (ops.iterate t)
      → P (k, v)
  pub length-add :
      (t : T) (k : Text) (v : V)
      → IsTree t
      → ops.find t k ≡ none
      → length (ops.iterate (ops.add t k v)) ≡ suc (length (ops.iterate t))
  pub length-set :
      (t : T) (k : Text) (v : V)
      → IsTree t
      → length (ops.iterate (ops.set t k v)) ≡ length (ops.iterate t)
  pub length-delete :
      (t : T) (k : Text) (v : V)
      → IsTree t
      → ops.find t k ≡ some v
      → suc (length (ops.iterate (ops.delete t k))) ≡ length (ops.iterate t)
