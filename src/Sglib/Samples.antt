-- ===== src/Sglib/Samples.antt =====
-- Containers that keep the laws: an association list and a list.
use yella.Prelude.{
  ℕ, suc, arith, ◌≡◌, inl, inr, refl, sym, ap, ap₂, subst, true, false, List, [], ◌∷◌, ◌++◌, Option,
  none, some, if◌then◌else◌, length, Text, text_eq, text_eq_iff, text_eq_refl, Bool-cases, All,
  All-mono,
}
use yella.Sglib.Tree.{TreeOps, TreeLaws, AreApart}
use yella.Sglib.SortedList.{SortedOps, SortedLaws, insert, remove, lookup}
use yella.Sglib.Queue.{QueueOps, QueueLaws, head_of, rest_of}
pub mod Trees
unfoldable pub use Trees.{tree_ops}
pub use Trees.{tree_laws, two-IsTree}

unfoldable pub list_ops : {A : Type 0} → QueueOps (List A) A
list_ops = record {
  empty = [];
  concat = λ q a. q ++ a ∷ [];
  get_first = head_of;
  delete_first = rest_of;
  items = λ q. q;
}

pub list_laws : {A : Type 0} → QueueLaws (list_ops {A = A})
unfolding list_ops
list_laws = record {
  items-empty = refl;
  items-concat = λ q a. refl;
  get_first_lem = λ q. refl;
  items-delete_first = λ q. refl;
}

unfoldable pub sorted_ops : {A : Type 0} → (A → ℕ) → SortedOps (List A) A
sorted_ops key = record {
  empty = [];
  add = λ l a. insert key a l;
  find_member = λ l a. lookup key (key a) l;
  delete = λ l a. remove key (key a) l;
  items = λ l. l;
}

pub sorted_laws : {A : Type 0} (key : A → ℕ) → SortedLaws (sorted_ops key) key
unfolding sorted_ops
sorted_laws key = record {
  items-empty = refl;
  items-add = λ l a. refl;
  find_member_lem = λ l a. refl;
  items-delete = λ l a s. refl;
}
