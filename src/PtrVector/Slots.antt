-- ===== src/PtrVector/Slots.antt =====
-- Writes and moves in a block of memory (agent/common/ptr_vector.c).
use yella.Prelude.{
  ℕ, zero, suc, ◌+◌, ◌-◌, ◌≤◌, ◌<◌, ◌≡◌, refl, sym, ap, ap₂, ◌∙◌, [], ◌∷◌, ◌++◌, arith, length,
  erase_at,
}
use yella.PtrVector.{slots, store, move_down, move_up}

module _ {A : Type 0} where
  pub length-slots : (d : ℕ → A) (i n : ℕ) → length (slots d i n) ≡ n
  length-slots d i zero = refl
  length-slots d i (suc n) = ap suc (length-slots d (suc i) n)

  -- Slots are what is in them.
  pub slots_ext :
      (d e : ℕ → A) (i n : ℕ)
      → ((j : ℕ) → i ≤ j → j < i + n → d j ≡ e j)
      → slots d i n ≡ slots e i n
  slots_ext d e i zero h = refl
  slots_ext d e i (suc n) h =
      ap₂ ◌∷◌ (h i (omega arith) (omega arith))
        (slots_ext d e (suc i) n (λ j a b. h j (omega arith) (omega arith)))

  slots_shift :
      (d e : ℕ → A) (i n : ℕ)
      → ((j : ℕ) → i ≤ j → j < i + n → d j ≡ e (suc j))
      → slots d i n ≡ slots e (suc i) n
  slots_shift d e i zero h = refl
  slots_shift d e i (suc n) h =
      ap₂ ◌∷◌ (h i (omega arith) (omega arith))
        (slots_shift d e (suc i) n (λ j a b. h j (omega arith) (omega arith)))

  store_other : (d : ℕ → A) (k : ℕ) (p : A) (j : ℕ) → j < k → store d k p j ≡ d j
  store_other d k p j h = ground arith

  store_here : (d : ℕ → A) (k : ℕ) (p : A) → store d k p k ≡ p
  store_here d k p = ground arith

  moved_up :
      (d : ℕ → A) (n : ℕ) (p : A) (j : ℕ)
      → 0 ≤ j
      → j < 0 + n
      → d j ≡ store (move_up d n) 0 p (suc j)
  moved_up d n p j a b = ground arith

  moved_down : (d : ℕ → A) (off n j : ℕ) → off ≤ j → j < off + n → move_down d off n j ≡ d (suc j)
  moved_down d off n j a b = ground arith

  unmoved : (d : ℕ → A) (off n j : ℕ) → j < off → move_down d off n j ≡ d j
  unmoved d off n j a = ground arith

  pub slots_last : (d : ℕ → A) (i n : ℕ) → slots d i (suc n) ≡ slots d i n ++ d (i + n) ∷ []
  slots_last d i zero = ap (λ j. d j ∷ []) (omega arith)
  slots_last d i (suc n) =
      ap (λ t. d i ∷ t)
        (slots_last d (suc i) n ∙ ap (λ j. slots d (suc i) n ++ d j ∷ []) (omega arith))

  pub slots-store :
      (d : ℕ → A) (i n : ℕ) (p : A) → slots (store d (i + n) p) i (suc n) ≡ slots d i n ++ p ∷ []
  slots-store d i n p =
      slots_last (store d (i + n) p) i n
      ∙ ap₂ (λ xs x. xs ++ x ∷ [])
          (slots_ext (store d (i + n) p) d i n (λ j a b. store_other d (i + n) p j b))
          (store_here d (i + n) p)

  pub slots-move_up :
      (d : ℕ → A) (n : ℕ) (p : A) → slots (store (move_up d n) 0 p) 0 (suc n) ≡ p ∷ slots d 0 n
  slots-move_up d n p =
      ap₂ ◌∷◌ (store_here (move_up d n) 0 p)
        (sym (slots_shift d (store (move_up d n) 0 p) 0 n (moved_up d n p)))

  pub slots-move_down :
      (d : ℕ → A) (i n k : ℕ)
      → k ≤ n
      → slots (move_down d (i + k) (n - k)) i n ≡ erase_at (slots d i (suc n)) k
  slots-move_down d i n zero h =
      slots_shift (move_down d (i + 0) (n - 0)) d i n
        (λ j a b. moved_down d (i + 0) (n - 0) j (omega arith) (omega arith))
  slots-move_down d i zero (suc k) h = absurd (omega arith)
  slots-move_down d i (suc n) (suc k) h =
      ap₂ ◌∷◌ (unmoved d (i + suc k) (suc n - suc k) i (omega arith)) (
        ap₂ (λ off m. slots (move_down d off m) (suc i) n) (omega arith) (omega arith)
        ∙ slots-move_down d (suc i) n k (omega arith))
