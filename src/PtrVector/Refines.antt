-- ===== src/PtrVector/Refines.antt =====
-- The vector against a list (agent/common/ptr_vector.c).
use yella.Prelude.{
  ℕ, zero, suc, ◌+◌, ◌-◌, ◌≤◌, ◌<◌, ◌≡◌, refl, sym, ap, ap₂, ◌∙◌, Bool, true, false, List, [], ◌∷◌,
  ◌++◌, arith, Option, none, some, length, erase_at, if◌then◌else◌, ltb, ◌==◌, append-nil,
  Bool-cases, ==_iff, lt→ltb, ltb→lt, get_elem?, inl, inr,
}
use yella.PtrVector.{
  PtrVector, slots, items, store, move_up, move_down, grow, push_back, push_front, destroy_items,
  erase_at_offset, erase_ptr_vector_at, pop_back, pop_front, clear_ptr_vector,
}
use yella.PtrVector.Slots.{length-slots, slots-store, slots-move_up, slots-move_down}

-- What a client asks of a vector.
pub data Op (A : Type 0) : Type 0 where
  back : A → Op A
  front : A → Op A
  erase : ℕ → Op A
  pop_last : Op A
  pop_first : Op A
  clear : Op A

module _ {A : Type 0} where
  unfoldable pub step : PtrVector A → Op A → Option (PtrVector A)
  step v (back x) = push_back v x
  step v (front x) = push_front v x
  step v (erase k) = some (erase_ptr_vector_at v k)
  step v pop_last = some (pop_back v)
  step v pop_first = some (pop_front v)
  step v clear = some (clear_ptr_vector v)

  unfoldable pub run : PtrVector A → List (Op A) → Option (PtrVector A)
  run v [] = some v
  run v (op ∷ ops) = elim (step v op) [ none ↦ none | some v' ↦ run v' ops ]

  -- The same of a list, and what leaves it.
  abbrev pub on_list : List A → Op A → List A
  on_list xs (back x) = xs ++ x ∷ []
  on_list xs (front x) = x ∷ xs
  on_list xs (erase k) = erase_at xs k
  on_list xs pop_last = erase_at xs (length xs - 1)
  on_list xs pop_first = erase_at xs 0
  on_list xs clear = []

  abbrev pub found : Option A → List A
  found none = []
  found (some x) = x ∷ []

  abbrev pub leaves : List A → Op A → List A
  leaves xs (back x) = []
  leaves xs (front x) = []
  leaves xs (erase k) = found (get_elem? xs k)
  leaves xs pop_last = found (get_elem? xs (length xs - 1))
  leaves xs pop_first = found (get_elem? xs 0)
  leaves xs clear = xs

  abbrev pub run_list : List A → List (Op A) → List A
  run_list xs [] = xs
  run_list xs (op ∷ ops) = run_list (on_list xs op) ops

  abbrev pub run_leaves : List A → List (Op A) → List A
  run_leaves xs [] = []
  run_leaves xs (op ∷ ops) = leaves xs op ++ run_leaves (on_list xs op) ops

  abbrev pub dropped : Bool → List A → List A
  dropped b xs = if b then xs else []

  -- The items fit the block, which can grow.
  abbrev pub IsRoomy : PtrVector A → Type 0
  IsRoomy v = (v.size ≤ v.capacity) × (2 ≤ v.capacity)

  -- From `v` the vector became `w`, with these items, and these were destroyed.
  pub record Becomes (v w : PtrVector A) (xs gone : List A) : Type 0 where
    pub roomy : IsRoomy w
    pub same_items : items w ≡ xs
    pub same_destructor : w.has_destructor ≡ v.has_destructor
    pub released : w.destroyed ≡ v.destroyed ++ dropped v.has_destructor gone

  less :
      (v : PtrVector A) → v.size ≤ v.capacity → (v.size == v.capacity) ≡ false → v.size < v.capacity
  less v h e = ground arith

  grow-room :
      (v : PtrVector A)
      → IsRoomy v
      → ((grow v).size < (grow v).capacity)
        × (2 ≤ (grow v).capacity)
        × ((grow v).size ≡ v.size)
        × ((grow v).data_of ≡ v.data_of)
        × ((grow v).has_destructor ≡ v.has_destructor)
        × ((grow v).destroyed ≡ v.destroyed)
  unfolding grow
  grow-room v h = elim (Bool-cases (v.size == v.capacity)) [
    | inl e ↦ rw e (
      omega (arith, (==_iff v.size v.capacity).0 e, h.0, h.1),
      omega (arith, h.1),
      refl,
      refl,
      refl,
      refl,
    )
    | inr e ↦ rw e (less v h.0 e, h.1, refl, refl, refl, refl)
  ]

  pub dropped_lem : (b : Bool) (ds xs : List A) → (if b then ds ++ xs else ds) ≡ ds ++ dropped b xs
  dropped_lem true ds xs = refl
  dropped_lem false ds xs = sym (append-nil ds)

  pub dropped_none : (b : Bool) (ds : List A) → ds ≡ ds ++ dropped b []
  dropped_none true ds = sym (append-nil ds)
  dropped_none false ds = sym (append-nil ds)

  get-slots : (d : ℕ → A) (i n k : ℕ) → k < n → get_elem? (slots d i n) k ≡ some (d (i + k))
  get-slots d i zero k h = absurd (omega arith)
  get-slots d i (suc n) zero h = ap (λ j. some (d j)) (omega arith)
  get-slots d i (suc n) (suc k) h =
      get-slots d (suc i) n k (omega arith) ∙ ap (λ j. some (d j)) (omega arith)

  pub get-items :
      (v : PtrVector A) (k : ℕ) → k < v.size → get_elem? (items v) k ≡ some (v.data_of k)
  get-items v k h =
      get-slots v.data_of 0 v.size k h ∙ ap (λ j. some (v.data_of j)) {y = k} (omega arith)

  pub get_past : (xs : List A) (k : ℕ) → length xs ≤ k → get_elem? xs k ≡ none
  get_past [] k h = refl
  get_past (x ∷ xs) zero h = absurd (omega arith)
  get_past (x ∷ xs) (suc k) h = get_past xs k (omega arith)

  erase_past : (xs : List A) (k : ℕ) → length xs ≤ k → erase_at xs k ≡ xs
  erase_past [] k h = refl
  erase_past (x ∷ xs) zero h = absurd (omega arith)
  erase_past (x ∷ xs) (suc k) h = ap (λ t. x ∷ t) (erase_past xs k (omega arith))

  abbrev pub Yields : PtrVector A → Option (PtrVector A) → List A → List A → Type 0
  Yields v got xs gone = (w : PtrVector A) × (got ≡ some w) × Becomes v w xs gone

  grown_with : PtrVector A → (ℕ → A) → PtrVector A
  grown_with v d = record (grow v) { data_of = d; size = (grow v).size + 1 }

  grown-Becomes :
      (v : PtrVector A) (d : ℕ → A) (xs : List A)
      → IsRoomy v
      → slots d 0 (suc (grow v).size) ≡ xs
      → Becomes v (grown_with v d) xs []
  unfolding grown_with
  grown-Becomes v d xs h e =
      let (less, two, sizes, datas, flags, gone) = grow-room v h in
      record {
        roomy = (omega (arith, less), two);
        same_items = ap (slots d 0) {y = suc (grow v).size} (omega arith) ∙ e;
        same_destructor = flags;
        released = gone ∙ dropped_none v.has_destructor v.destroyed;
      }

  pub push_back-Yields :
      (v : PtrVector A) (x : A) → IsRoomy v → Yields v (push_back v x) (items v ++ x ∷ []) []
  unfolding push_back grown_with
  push_back-Yields v x h =
      let (less, two, sizes, datas, flags, gone) = grow-room v h in
      let n = (grow v).size in
      (
        grown_with v (store (grow v).data_of n x),
        rw (lt→ltb _ _ less) refl,
        grown-Becomes v _ _ h (
            ap (λ k. slots (store (grow v).data_of k x) 0 (suc n)) (omega arith)
            ∙ slots-store (grow v).data_of 0 n x
            ∙ ap₂ (λ d m. slots d 0 m ++ x ∷ []) datas sizes),
      )

  pub push_front-Yields :
      (v : PtrVector A) (x : A) → IsRoomy v → Yields v (push_front v x) (x ∷ items v) []
  unfolding push_front grown_with
  push_front-Yields v x h =
      let (less, two, sizes, datas, flags, gone) = grow-room v h in
      (
        grown_with v (store (move_up (grow v).data_of (grow v).size) 0 x),
        rw (lt→ltb _ _ less) refl,
        grown-Becomes v _ _ h (
            slots-move_up (grow v).data_of (grow v).size x
            ∙ ap₂ (λ d m. x ∷ slots d 0 m) datas sizes),
      )

  erase_in :
      (v : PtrVector A) (k : ℕ)
      → k < v.size
      → erase_at_offset v k ≡ record v {
        data_of = move_down v.data_of k (v.size - 1 - k);
        size = v.size - 1;
        destroyed = destroy_items v (v.data_of k ∷ []);
      }
  unfolding erase_at_offset
  erase_in v k h = rw (lt→ltb _ _ h) refl

  erase_out : (v : PtrVector A) (k : ℕ) → v.size ≤ k → erase_at_offset v k ≡ v
  unfolding erase_at_offset
  erase_out v k h = ground arith

  pub erase-Becomes :
      (v : PtrVector A) (k : ℕ)
      → IsRoomy v
      → Becomes v (erase_at_offset v k) (erase_at (items v) k) (found (get_elem? (items v) k))
  erase-Becomes v k h = elim (Bool-cases (ltb k v.size)) [
    | inl e ↦
        (let small : k < v.size = ltb→lt k v.size e in
          rw (erase_in v k small) (record {
            roomy = (omega (arith, h.0), h.1);
            same_items =
                ap₂ (λ off m. slots (move_down v.data_of off m) 0 (v.size - 1)) (omega arith) refl
                ∙ slots-move_down v.data_of 0 (v.size - 1) k (omega arith)
                ∙ ap (λ m. erase_at (slots v.data_of 0 m) k) {x = suc (v.size - 1)} (omega arith);
            same_destructor = refl;
            released =
                dropped_lem v.has_destructor v.destroyed (v.data_of k ∷ [])
                ∙ ap (λ o. v.destroyed ++ dropped v.has_destructor (found o))
                    (sym (get-items v k small));
          }))
    | inr e ↦
        (let big : v.size ≤ k = ground arith in
          let past = length-slots v.data_of 0 v.size in
          rw
            (
              erase_out v k big,
              get_past (items v) k (omega (arith, past)),
              erase_past (items v) k (omega (arith, past)),
            )
            (record {
              roomy = h;
              same_items = refl;
              same_destructor = refl;
              released = dropped_none v.has_destructor v.destroyed;
            }))
  ]
