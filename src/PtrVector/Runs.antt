-- ===== src/PtrVector/Runs.antt =====
-- Sequences of operations on a vector (agent/common/ptr_vector.c).
use yella.Prelude.{
  ℕ, zero, suc, ◌+◌, ◌-◌, ◌%◌, ◌^◌, ◌≤◌, ◌<◌, All, length-append, erase_at, ◌≡◌, refl, sym, ap, ◌∙◌,
  Bool, true, false, List, [], ◌∷◌, ◌++◌, arith, some, length, get_elem?, ltb, ltb→lt, append_assoc,
  append-nil, map, Option-cases, Bool-cases, inl, inr,
}
use yella.PtrVector.{
  PtrVector, items, create_ptr_vector, push_back, erase_at_offset, erase_ptr_vector_at, pop_back,
  pop_front, clear_ptr_vector, push_copies, copy_ptr_vector, ptr_vector_at,
}
use yella.PtrVector.Slots.{length-slots}
use yella.PtrVector.Refines.{
  Op, back, front, erase, pop_last, pop_first, clear, step, run, on_list, leaves, run_list,
  run_leaves, dropped, IsRoomy, Becomes, Yields, get-items, get_past, push_back-Yields,
  push_front-Yields, erase-Becomes, dropped_lem, dropped_none,
}

module _ {A : Type 0} where
  erase_narrow :
      (v : PtrVector A) (k : ℕ) → k < 2 ^ 32 → erase_ptr_vector_at v k ≡ erase_at_offset v k
  unfolding erase_ptr_vector_at
  erase_narrow v k h = ap (erase_at_offset v) (omega arith)

  pop_back-erase : (v : PtrVector A) → v.size < 2 ^ 32 → pop_back v ≡ erase_at_offset v (v.size - 1)
  unfolding pop_back erase_at_offset
  pop_back-erase v h = elim (Bool-cases (ltb 0 v.size)) [
    | inl e ↦ rw e (erase_narrow v (v.size - 1) (omega arith))
    | inr e ↦ ground arith
  ]

  pop_front-erase : (v : PtrVector A) → pop_front v ≡ erase_at_offset v 0
  unfolding pop_front erase_at_offset
  pop_front-erase v = elim (Bool-cases (ltb 0 v.size)) [
    | inl e ↦ rw e (erase_narrow v 0 (omega arith) ∙ rw e refl)
    | inr e ↦ rw e refl
  ]

  -- An offset is an `unsigned`.
  abbrev pub IsOffset : Op A → Type 0
  IsOffset (erase k) = k < 2 ^ 32
  IsOffset (back x) = Unit
  IsOffset (front x) = Unit
  IsOffset pop_last = Unit
  IsOffset pop_first = Unit
  IsOffset clear = Unit

  length-erase_at : (xs : List A) (k : ℕ) → length (erase_at xs k) ≤ length xs
  length-erase_at [] k = omega arith
  length-erase_at (x ∷ xs) zero = omega arith
  length-erase_at (x ∷ xs) (suc k) = omega (arith, length-erase_at xs k)

  length-on_list : (xs : List A) (op : Op A) → length (on_list xs op) ≤ length xs + 1
  length-on_list xs (back x) = omega (arith, length-append xs (x ∷ []))
  length-on_list xs (front x) = omega arith
  length-on_list xs (erase k) = omega (arith, length-erase_at xs k)
  length-on_list xs pop_last = omega (arith, length-erase_at xs (length xs - 1))
  length-on_list xs pop_first = omega (arith, length-erase_at xs 0)
  length-on_list xs clear = omega arith

  clear-Becomes : (v : PtrVector A) → IsRoomy v → Becomes v (clear_ptr_vector v) [] (items v)
  unfolding clear_ptr_vector
  clear-Becomes v h = record {
    roomy = (omega arith, h.1);
    same_items = refl;
    same_destructor = refl;
    released = dropped_lem v.has_destructor v.destroyed (items v);
  }

  step-Yields :
      (op : Op A) (v : PtrVector A)
      → IsRoomy v
      → v.size < 2 ^ 32
      → IsOffset op
      → Yields v (step v op) (on_list (items v) op) (leaves (items v) op)
  unfolding step
  step-Yields (back x) v h small fits = push_back-Yields v x h
  step-Yields (front x) v h small fits = push_front-Yields v x h
  step-Yields (erase k) v h small fits = (_, ap some (erase_narrow v k fits), erase-Becomes v k h)
  step-Yields pop_last v h small fits =
      let n : length (items v) ≡ v.size = length-slots v.data_of 0 v.size in
      rw n (_, ap some (pop_back-erase v small), erase-Becomes v (v.size - 1) h)
  step-Yields pop_first v h small fits = (_, ap some (pop_front-erase v), erase-Becomes v 0 h)
  step-Yields clear v h small fits = (_, refl, clear-Becomes v h)

  dropped-append :
      (b : Bool) (ds xs ys : List A)
      → (ds ++ dropped b xs) ++ dropped b ys ≡ ds ++ dropped b (xs ++ ys)
  dropped-append true ds xs ys = append_assoc ds xs ys
  dropped-append false ds xs ys = append_assoc ds [] []

  run-Yields :
      (ops : List (Op A)) (v : PtrVector A)
      → IsRoomy v
      → v.size + length ops < 2 ^ 32
      → All IsOffset ops
      → Yields v (run v ops) (run_list (items v) ops) (run_leaves (items v) ops)
  unfolding run
  run-Yields [] v h small fits = (
    v,
    refl,
    record {
      roomy = h;
      same_items = refl;
      same_destructor = refl;
      released = dropped_none v.has_destructor v.destroyed;
    },
  )
  run-Yields (op ∷ ops) v h small fits =
      let (w, e, b) = step-Yields op v h (omega arith) fits.0 in
      let before : length (items v) ≡ v.size = length-slots v.data_of 0 v.size in
      let after : length (items w) ≡ w.size = length-slots w.data_of 0 w.size in
      let same : length (items w) ≡ length (on_list (items v) op) = ap length b.same_items in
      let grown : w.size ≤ v.size + 1 =
        omega (arith, before, after, same, length-on_list (items v) op) in
      let (z, f, c) = run-Yields ops w b.roomy (omega (arith, grown)) fits.1 in
      (
        z,
        rw (e, run) f,
        record {
          roomy = c.roomy;
          same_items = c.same_items ∙ ap (λ xs. run_list xs ops) b.same_items;
          same_destructor = c.same_destructor ∙ b.same_destructor;
          released =
              c.released
              ∙ rw (b.released, b.same_destructor, b.same_items)
                  (dropped-append v.has_destructor v.destroyed (leaves (items v) op) _);
        },
      )

  at_lem : (v : PtrVector A) (k : ℕ) → k < 2 ^ 32 → ptr_vector_at v k ≡ get_elem? (items v) k
  unfolding ptr_vector_at
  at_lem v k h =
      let same : k % 2 ^ 32 ≡ k = omega arith in
      elim (Bool-cases (ltb k v.size)) [
        | inl e ↦ rw (same, e) (sym (get-items v k (ltb→lt k v.size e)))
        | inr e ↦
            (let big : v.size ≤ k = ground arith in
              rw (same, e)
                (sym (get_past (items v) k (omega (arith, length-slots v.data_of 0 v.size)))))
      ]

  -- Pushes of copies.
  abbrev backs : (A → A) → List A → List (Op A)
  backs copy [] = []
  backs copy (x ∷ xs) = back (copy x) ∷ backs copy xs

  push_copies-run :
      (copy : A → A) (xs : List A) (v : PtrVector A) → push_copies v copy xs ≡ run v (backs copy xs)
  unfolding push_copies run step
  push_copies-run copy [] v = refl
  push_copies-run copy (x ∷ xs) v = elim (Option-cases (push_back v (copy x))) [
    | inl e ↦ rw (e, push_copies, run) refl
    | inr (w, e) ↦ rw (e, push_copies, run) (push_copies-run copy xs w)
  ]

  length-backs : (copy : A → A) (xs : List A) → length (backs copy xs) ≡ length xs
  length-backs copy [] = refl
  length-backs copy (x ∷ xs) = ap suc (length-backs copy xs)

  backs-IsOffset : (copy : A → A) (xs : List A) → All IsOffset (backs copy xs)
  backs-IsOffset copy [] = tt
  backs-IsOffset copy (x ∷ xs) = (tt, backs-IsOffset copy xs)

  -- A run does not make a vector longer than its operations are many.
  length-run_list :
      (ops : List (Op A)) (xs : List A) → length (run_list xs ops) ≤ length xs + length ops
  length-run_list [] xs = omega arith
  length-run_list (op ∷ ops) xs =
      omega (arith, length-run_list ops (on_list xs op), length-on_list xs op)

  run_list-backs : (copy : A → A) (xs ys : List A) → run_list ys (backs copy xs) ≡ ys ++ map copy xs
  run_list-backs copy [] ys = sym (append-nil ys)
  run_list-backs copy (x ∷ xs) ys =
      run_list-backs copy xs (ys ++ copy x ∷ []) ∙ append_assoc ys (copy x ∷ []) (map copy xs)

  pub copy_ptr_vector_lem :
      (block : ℕ → A) (v : PtrVector A)
      → v.size < 2 ^ 32
      → (c : PtrVector A) × (copy_ptr_vector block v ≡ some c) × (items c ≡ map v.copier (items v))
  unfolding copy_ptr_vector create_ptr_vector
  copy_ptr_vector_lem block v small =
      let new = create_ptr_vector block v.has_destructor v.copier in
      let (c, e, b) =
        run-Yields (backs v.copier (items v)) new (omega arith, omega arith)
          (omega (arith, length-backs v.copier (items v), length-slots v.data_of 0 v.size))
          (backs-IsOffset v.copier (items v)) in
      (
        c,
        push_copies-run v.copier (items v) new ∙ e,
        b.same_items ∙ run_list-backs v.copier (items v) [],
      )

  -- The vector is a list. From a new vector on, whatever its block holds, every sequence of pushes at
  -- either end, removals at an offset or at either end, and clearings goes through, never writes
  -- behind the block, and leaves the items that it leaves of a list: an offset out of bounds
  -- removes nothing. Every read at an offset gives the list's item, or NULL. There are fewer than 2^32
  -- operations, and the offsets are those of an `unsigned`. The destructor, if one
  -- is set, was called of each item that left, once and in order, and of nothing else. A copy is made of the
  -- copies of the items.
  pub run_refines_list :
      (block : ℕ → A) (has_destructor : Bool) (copier : A → A) (ops : List (Op A))
      → length ops < 2 ^ 32
      → All IsOffset ops
      → (w : PtrVector A) × (run (create_ptr_vector block has_destructor copier) ops ≡ some w)
        × (items w ≡ run_list [] ops)
        × ((k : ℕ) → k < 2 ^ 32 → ptr_vector_at w k ≡ get_elem? (run_list [] ops) k)
        × (w.destroyed ≡ dropped has_destructor (run_leaves [] ops))
        × ((c : PtrVector A) × (copy_ptr_vector block w ≡ some c)
            × (items c ≡ map w.copier (run_list [] ops)))
  unfolding create_ptr_vector
  run_refines_list block has_destructor copier ops few fits =
      let (w, e, b) =
        run-Yields ops (create_ptr_vector block has_destructor copier) (omega arith, omega arith)
          (omega (arith, few)) fits in
      let small : w.size < 2 ^ 32 =
        omega (
          arith,
          length-slots w.data_of 0 w.size,
          ap length b.same_items,
          length-run_list ops [],
        ) in
      (
        w,
        e,
        b.same_items,
        λ k h. at_lem w k h ∙ ap (λ xs. get_elem? xs k) b.same_items,
        b.released,
        (let (c, f, copied) = copy_ptr_vector_lem block w small in
            (c, f, copied ∙ ap (map w.copier) b.same_items)),
      )
