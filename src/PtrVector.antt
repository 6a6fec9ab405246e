-- ===== src/PtrVector.antt =====
-- The growing array of pointers (agent/common/ptr_vector.c).
use yella.Prelude.{
  ℕ, zero, suc, ◌+◌, ◌-◌, ◌*◌, ◌/◌, ◌^◌, ◌%◌, Bool, true, false, ◌&&◌, List, [], ◌∷◌, ◌++◌, Option,
  none, some, ltb, leb, ◌==◌, if◌then◌else◌,
}
pub mod Slots
pub mod Refines
pub mod Runs
mod Tests

-- `struct yella_ptr_vector` of pointers to an `A`. The block of memory is what its slots hold, in use
-- or not. `has_destructor` says whether a destructor is set, and `destroyed` are its calls. 1.5 times
-- a capacity is written in whole numbers: it is exact below 2^53.
pub record PtrVector (A : Type 0) : Type 0 where
  pub data_of : ℕ → A
  pub size : ℕ
  pub capacity : ℕ
  pub has_destructor : Bool
  pub copier : A → A
  pub destroyed : List A

-- The slots from one on, so many.
abbrev pub slots : {A : Type 0} → (ℕ → A) → ℕ → ℕ → List A
slots d i zero = []
slots d i (suc n) = d i ∷ slots d (suc i) n

module _ {A : Type 0} where
  -- What is in the vector.
  abbrev pub items : PtrVector A → List A
  items v = slots v.data_of 0 v.size

  -- `yella_create_ptr_vector`, in a block that holds anything; the default destructor and copier are
  -- those that the client sets.
  unfoldable pub create_ptr_vector : (ℕ → A) → Bool → (A → A) → PtrVector A
  create_ptr_vector block has_destructor copier = record {
    data_of = block;
    size = 0;
    capacity = 20;
    has_destructor = has_destructor;
    copier = copier;
    destroyed = [];
  }

  -- `v->data[i] = p`, and the two calls of `memmove`.
  abbrev pub store : (ℕ → A) → ℕ → A → ℕ → A
  store d i p j = if j == i then p else d j

  abbrev pub move_down : (ℕ → A) → ℕ → ℕ → ℕ → A
  move_down d off n j = if leb off j && ltb j (off + n) then d (suc j) else d j

  abbrev pub move_up : (ℕ → A) → ℕ → ℕ → A
  move_up d n j = if ltb 0 j && leb j n then d (j - 1) else d j

  unfoldable pub grow : PtrVector A → PtrVector A
  grow v = if v.size == v.capacity then record v { capacity = v.capacity * 3 / 2 } else v

  -- `none` is a write behind the block.
  unfoldable pub push_back : PtrVector A → A → Option (PtrVector A)
  push_back v p =
      let g = grow v in
      if ltb g.size g.capacity
      then some (record g { data_of = store g.data_of g.size p; size = g.size + 1 })
      else none

  unfoldable pub push_front : PtrVector A → A → Option (PtrVector A)
  push_front v p =
      let g = grow v in
      if ltb g.size g.capacity
      then some (record g { data_of = store (move_up g.data_of g.size) 0 p; size = g.size + 1 })
      else none

  abbrev pub destroy_items : PtrVector A → List A → List A
  destroy_items v xs = if v.has_destructor then v.destroyed ++ xs else v.destroyed

  unfoldable pub erase_at_offset : PtrVector A → ℕ → PtrVector A
  erase_at_offset v off =
      if ltb off v.size
      then record v {
        data_of = move_down v.data_of off (v.size - 1 - off);
        size = v.size - 1;
        destroyed = destroy_items v (v.data_of off ∷ []);
      }
      else v

  -- `yella_erase_ptr_vector_at`; an offset is an `unsigned`, to which a `size_t` is cut.
  unfoldable pub erase_ptr_vector_at : PtrVector A → ℕ → PtrVector A
  erase_ptr_vector_at v off = erase_at_offset v (off % 2 ^ 32)

  unfoldable pub pop_back : PtrVector A → PtrVector A
  pop_back v = if ltb 0 v.size then erase_ptr_vector_at v (v.size - 1) else v

  unfoldable pub pop_front : PtrVector A → PtrVector A
  pop_front v = if ltb 0 v.size then erase_ptr_vector_at v 0 else v

  -- The loop's counter is an `unsigned` too: this is what it does of a size below 2^32.
  unfoldable pub clear_ptr_vector : PtrVector A → PtrVector A
  clear_ptr_vector v = record v { size = 0; destroyed = destroy_items v (items v) }

  unfoldable pub ptr_vector_at : PtrVector A → ℕ → Option A
  ptr_vector_at v off = let at = off % 2 ^ 32 in if ltb at v.size then some (v.data_of at) else none

  -- The loop that pushes copies of another vector's items.
  unfoldable pub push_copies : PtrVector A → (A → A) → List A → Option (PtrVector A)
  push_copies v copy [] = some v
  push_copies v copy (x ∷ xs) = elim (push_back v (copy x)) [
    | none ↦ none
    | some v' ↦ push_copies v' copy xs
  ]

  unfoldable pub assign_ptr_vector : PtrVector A → PtrVector A → Option (PtrVector A)
  assign_ptr_vector v other =
      push_copies
        (record (clear_ptr_vector v) {
          has_destructor = other.has_destructor;
          copier = other.copier;
        })
        other.copier (items other)

  unfoldable pub copy_ptr_vector : (ℕ → A) → PtrVector A → Option (PtrVector A)
  copy_ptr_vector block v =
      push_copies (create_ptr_vector block v.has_destructor v.copier) v.copier (items v)
