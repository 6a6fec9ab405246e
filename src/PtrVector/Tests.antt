-- ===== src/PtrVector/Tests.antt =====
-- The vector's theorem at a concrete input.
use yella.Prelude.{ℕ, ◌^◌, ◌<◌, arith, ◌≡◌, List, [], ◌∷◌, some, true, get_elem?, map}
use yella.PtrVector.{PtrVector, items, create_ptr_vector, copy_ptr_vector, ptr_vector_at}
use yella.PtrVector.Refines.{Op, back, front, erase, pop_last, run}
use yella.PtrVector.Runs.{run_refines_list}

abbrev ops : List (Op ℕ)
ops = back 7 ∷ front 8 ∷ back 9 ∷ erase 1 ∷ erase 5 ∷ pop_last ∷ []

run_refines_list_example :
    (w : PtrVector ℕ) × (run (create_ptr_vector (λ i. i) true (λ x. x)) ops ≡ some w)
    × (items w ≡ 8 ∷ [])
    × ((k : ℕ) → k < 2 ^ 32 → ptr_vector_at w k ≡ get_elem? (8 ∷ []) k)
    × (w.destroyed ≡ 7 ∷ 9 ∷ [])
    × ((c : PtrVector ℕ) × (copy_ptr_vector (λ i. i) w ≡ some c)
        × (items c ≡ map w.copier (8 ∷ [])))
run_refines_list_example =
    run_refines_list (λ i. i) true (λ x. x) ops (omega arith)
      (tt, (tt, (tt, (omega arith, (omega arith, (tt, tt))))))
