-- ===== src/Sglib/SortedList.antt =====
-- SGLIB_DEFINE_SORTED_LIST_FUNCTIONS (agent/common/sglib.h) as its clients use it: a list in the
-- order of its items' keys.
use yella.Prelude.{ℕ, ◌<◌, ◌≡◌, List, [], ◌∷◌, Option, none, some, leb, ◌==◌, if◌then◌else◌, All}

module _ {A : Type 0} (key : A → ℕ) where
  abbrev pub insert : A → List A → List A
  insert a [] = a ∷ []
  insert a (x ∷ xs) = let rest = insert a xs in if leb (key a) (key x) then a ∷ x ∷ xs else x ∷ rest

  abbrev pub remove : ℕ → List A → List A
  remove k [] = []
  remove k (x ∷ xs) = let rest = remove k xs in if k == key x then xs else x ∷ rest

  abbrev pub lookup : ℕ → List A → Option A
  lookup k [] = none
  lookup k (x ∷ xs) = let rest = lookup k xs in if k == key x then some x else rest

  -- In order, no two with one key.
  abbrev pub IsSorted : List A → Type 0
  IsSorted [] = Unit
  IsSorted (x ∷ xs) = All (λ y. key x < key y) xs × IsSorted xs

pub record SortedOps (L A : Type 0) : Type 0 where
  pub empty : L
  pub add : L → A → L
  pub find_member : L → A → Option A
  pub delete : L → A → L
  pub items : L → List A

-- The documented behaviour; `items` is what an iteration comes by.
pub record SortedLaws {L A : Type 0} (ops : SortedOps L A) (key : A → ℕ) : Type 0 where
  pub items-empty : ops.items ops.empty ≡ []
  pub items-add : (l : L) (a : A) → ops.items (ops.add l a) ≡ insert key a (ops.items l)
  pub find_member_lem : (l : L) (a : A) → ops.find_member l a ≡ lookup key (key a) (ops.items l)
  pub items-delete :
      (l : L) (a : A)
      → IsSorted key (ops.items l)
      → ops.items (ops.delete l a) ≡ remove key (key a) (ops.items l)
