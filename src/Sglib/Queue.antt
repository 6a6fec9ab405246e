-- ===== src/Sglib/Queue.antt =====
-- SGLIB_DEFINE_DL_LIST_FUNCTIONS (agent/common/sglib.h) as its clients use it: a doubly linked list
-- that grows at its end.
use yella.Prelude.{◌≡◌, List, [], ◌∷◌, ◌++◌, Option, none, some}

abbrev pub head_of : {A : Type 0} → List A → Option A
head_of [] = none
head_of (x ∷ xs) = some x

abbrev pub rest_of : {A : Type 0} → List A → List A
rest_of [] = []
rest_of (x ∷ xs) = xs

-- `concat` of one node, `get_first`, and `delete` of what `get_first` returned; `items` is what an
-- iteration comes by.
pub record QueueOps (Q A : Type 0) : Type 0 where
  pub empty : Q
  pub concat : Q → A → Q
  pub get_first : Q → Option A
  pub delete_first : Q → Q
  pub items : Q → List A

pub record QueueLaws {Q A : Type 0} (ops : QueueOps Q A) : Type 0 where
  pub items-empty : ops.items ops.empty ≡ []
  pub items-concat : (q : Q) (a : A) → ops.items (ops.concat q a) ≡ ops.items q ++ a ∷ []
  pub get_first_lem : (q : Q) → ops.get_first q ≡ head_of (ops.items q)
  pub items-delete_first : (q : Q) → ops.items (ops.delete_first q) ≡ rest_of (ops.items q)
