-- ===== src/File/StateDbPool/Tests.antt =====
-- The pool's theorems at concrete inputs, with an association list for the tree.
use yella.Prelude.{
  ℕ, arith, ◌≡◌, refl, List, [], ◌∷◌, none, some, All, Text, codes, text_eq, if◌then◌else◌,
}
use yella.Sglib.Tree.{TreeOps}
use yella.Sglib.Samples.{tree_ops, tree_laws, two-IsTree}
use yella.File.StateDbPool.{Node, Pool, create_state_db_pool, get_state_db_from_pool}
use yella.File.StateDbPool.Lru.{NotBefore, IsPool, get_full_lem}
use yella.File.StateDbPool.Bounds.{Op, get, remove, run, IsBounded, run-IsBounded}

abbrev ops : TreeOps (List (Text × Node ℕ)) (Node ℕ)
ops = tree_ops

abbrev uses : List (Op ℕ)
uses =
    get (codes "a") (some 1) 10
    ∷ get (codes "b") (some 2) 20
    ∷ get (codes "a") none 30
    ∷ get (codes "c") (some 3) 40
    ∷ remove (codes "a")
    ∷ get (codes "d") none 50
    ∷ []

run-IsBounded_example : IsBounded ops tree_laws 2 (run ops 2 (create_state_db_pool ops) uses)
run-IsBounded_example = run-IsBounded ops tree_laws 2 uses (omega arith)

-- Two open databases, of which the second was used the longest ago.
abbrev two : Pool (List (Text × Node ℕ))
two = record {
  nodes =
      (codes "a", record { db = 1; time_last_used = 30 })
      ∷ (codes "b", record { db = 2; time_last_used = 20 })
      ∷ [];
  count = 2;
}

get_full_lem_example :
    let (got, pool') = get_state_db_from_pool ops two (codes "c") 2 (some 3) 40 in
    (got ≡ some 3)
    × IsPool ops tree_laws pool'
    × (pool'.count ≡ 2)
    × ((victim : Text) × (v : Node ℕ) × (ops.find two.nodes victim ≡ some v)
        × All (NotBefore v.time_last_used) (ops.iterate two.nodes)
        × ((q : Text)
            → ops.find pool'.nodes q ≡ (
                if text_eq q (codes "c")
                then some (record { db = 3; time_last_used = 40 })
                else if text_eq q victim
                then none
                else ops.find two.nodes q)))
unfolding tree_ops
get_full_lem_example =
    get_full_lem ops tree_laws two (codes "c") 2 40 3
      (two-IsTree (codes "a") (codes "b") _ _ refl, refl, omega arith) refl (omega arith)
      (omega arith)
