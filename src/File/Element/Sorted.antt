-- ===== src/File/Element/Sorted.antt =====
-- Sorted lists of attributes (agent/common/sglib.h as agent/plugin/file/element.c uses it).
use yella.Prelude.{
  ℕ, ◌<◌, ◌≡◌, refl, Bool, true, false, List, [], ◌∷◌, Option, none, some, arith, leb, ◌==◌, ==_iff,
  if◌then◌else◌, All, Bool-cases, inl, inr,
}
use yella.Sglib.SortedList.{insert, remove, lookup, IsSorted}

-- Whether a key is among the items'.
abbrev pub has_key : {A : Type 0} → (A → ℕ) → ℕ → List A → Bool
has_key key k [] = false
has_key key k (x ∷ xs) = let rest = has_key key k xs in if k == key x then true else rest

abbrev pub or_else : {A : Type 0} → Option A → Option A → Option A
or_else none o = o
or_else (some a) o = some a

module _ {A : Type 0} (key : A → ℕ) where
  pub lookup-insert :
      (k : ℕ) (a : A) (xs : List A)
      → lookup key k (insert key a xs) ≡ (if k == key a then some a else lookup key k xs)
  lookup-insert k a [] = refl
  lookup-insert k a (x ∷ xs) =
      let rest = lookup-insert k a xs in
      elim (Bool-cases (leb (key a) (key x))) [
        | inl h ↦ rw h refl
        | inr h ↦ elim (Bool-cases (k == key x)) [ inl e ↦ ground arith | inr e ↦ rw (h, e) rest ]
      ]

  -- A key below those of the items is not there.
  pub lookup_below : (k : ℕ) (xs : List A) → All (λ y. k < key y) xs → lookup key k xs ≡ none
  lookup_below k [] h = refl
  lookup_below k (x ∷ xs) h =
      let rest = lookup_below k xs h.1 in let less : k < key x = h.0 in ground arith

  pub lookup-remove :
      (k j : ℕ) (xs : List A)
      → IsSorted key xs
      → lookup key k (remove key j xs) ≡ (if k == j then none else lookup key k xs)
  lookup-remove k j [] s = ground arith
  lookup-remove k j (x ∷ xs) s =
      let rest = lookup-remove k j xs s.1 in
      elim (Bool-cases (j == key x)) [
        | inl e ↦
            (let same : j ≡ key x = (==_iff j (key x)).0 e in
              let below = lookup_below (key x) xs s.0 in
              let gone : k ≡ key x → lookup key k xs ≡ none = λ q. rw q below in
              elim (Bool-cases (k == key x)) [
                | inl q ↦
                    rw (same, (==_iff (key x) (key x)).1 refl, q) (gone ((==_iff k (key x)).0 q))
                | inr q ↦ rw (same, (==_iff (key x) (key x)).1 refl, q) refl
              ])
        | inr e ↦ elim (Bool-cases (k == key x)) [
          | inl q ↦ (let apart : (k == j) ≡ false = ground arith in rw (e, q, apart) refl)
          | inr q ↦ rw (e, q) rest
        ]
      ]

  pub remove-All {κ} : (P : A → Type κ) (j : ℕ) (xs : List A) → All P xs → All P (remove key j xs)
  remove-All P j [] h = tt
  remove-All P j (x ∷ xs) h = elim (Bool-cases (j == key x)) [
    | inl e ↦ rw e h.1
    | inr e ↦ rw e (h.0, remove-All P j xs h.1)
  ]

  pub remove-IsSorted : (j : ℕ) (xs : List A) → IsSorted key xs → IsSorted key (remove key j xs)
  remove-IsSorted j [] s = tt
  remove-IsSorted j (x ∷ xs) s = elim (Bool-cases (j == key x)) [
    | inl e ↦ rw e s.1
    | inr e ↦ rw e (remove-All (λ y. key x < key y) j xs s.0, remove-IsSorted j xs s.1)
  ]
