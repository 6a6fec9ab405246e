-- ===== src/FilePath.antt =====
-- File names (agent/common/file.c).
use yella.Prelude.{
  ℕ, ◌≡◌, refl, subst, sym, ap, Bool, true, false, [], ◌∷◌, ◌==◌, if◌then◌else◌, Bool-cases, inl,
  inr, Text,
}

-- `YELLA_DIR_SEP[0]`, of agent/common/platform/posix/file_posix.c
abbrev pub dir_sep : ℕ
dir_sep = 47

-- The loop of `yella_remove_duplicate_dir_seps`; `seen` says that the character before was one,
-- `last_sep != -1`.
unfoldable pub remove_seps : Bool → Text → Text
remove_seps seen [] = []
remove_seps seen (c ∷ cs) =
    if c == dir_sep
    then (if seen then remove_seps true cs else c ∷ remove_seps true cs)
    else c ∷ remove_seps false cs

unfoldable pub remove_duplicate_dir_seps : Text → Text
remove_duplicate_dir_seps name = remove_seps false name

-- No separator follows one, nor stands first where one was seen.
abbrev pub IsNormal : Bool → Text → Type 0
IsNormal seen [] = Unit
IsNormal true (c ∷ cs) = ((c == dir_sep) ≡ false) × IsNormal false cs
IsNormal false (c ∷ cs) = IsNormal (c == dir_sep) cs

-- The characters that are no separators.
unfoldable pub others : Text → Text
others [] = []
others (c ∷ cs) = if c == dir_sep then others cs else c ∷ others cs

remove_seps-IsNormal : (seen : Bool) (cs : Text) → IsNormal seen (remove_seps seen cs)
unfolding remove_seps
remove_seps-IsNormal seen [] = tt
remove_seps-IsNormal true (c ∷ cs) = elim (Bool-cases (c == dir_sep)) [
  | inl sep ↦ rw sep (remove_seps-IsNormal true cs)
  | inr other ↦ rw other (other, remove_seps-IsNormal false cs)
]
remove_seps-IsNormal false (c ∷ cs) = elim (Bool-cases (c == dir_sep)) [
  | inl sep ↦
      rw sep
        (subst (λ b. IsNormal b (remove_seps true cs)) (sym sep) (remove_seps-IsNormal true cs))
  | inr other ↦
      rw other
        (subst (λ b. IsNormal b (remove_seps false cs)) (sym other) (remove_seps-IsNormal false cs))
]

remove_seps-others : (seen : Bool) (cs : Text) → others (remove_seps seen cs) ≡ others cs
unfolding remove_seps others
remove_seps-others seen [] = refl
remove_seps-others true (c ∷ cs) = elim (Bool-cases (c == dir_sep)) [
  | inl sep ↦ rw sep (remove_seps-others true cs)
  | inr other ↦ rw other (rw other (ap (λ t. c ∷ t) (remove_seps-others false cs)))
]
remove_seps-others false (c ∷ cs) = elim (Bool-cases (c == dir_sep)) [
  | inl sep ↦ rw sep (rw sep (remove_seps-others true cs))
  | inr other ↦ rw other (rw other (ap (λ t. c ∷ t) (remove_seps-others false cs)))
]

remove_seps-normal : (seen : Bool) (cs : Text) → IsNormal seen cs → remove_seps seen cs ≡ cs
unfolding remove_seps
remove_seps-normal seen [] h = refl
remove_seps-normal true (c ∷ cs) h = rw h.0 (ap (λ t. c ∷ t) (remove_seps-normal false cs h.1))
remove_seps-normal false (c ∷ cs) h = elim (Bool-cases (c == dir_sep)) [
  | inl sep ↦
      (let h' = subst (λ b. IsNormal b cs) sep h in
        rw sep (ap (λ t. c ∷ t) (remove_seps-normal true cs h')))
  | inr other ↦
      (let h' = subst (λ b. IsNormal b cs) other h in
        rw other (ap (λ t. c ∷ t) (remove_seps-normal false cs h')))
]

-- `yella_remove_duplicate_dir_seps` returns a name in which no separator follows another and the
-- other characters stand as before, and it changes no name that is such already; so to apply it
-- again changes nothing.
pub remove_duplicate_dir_seps_lem :
    (name : Text)
    → IsNormal false (remove_duplicate_dir_seps name)
      × (others (remove_duplicate_dir_seps name) ≡ others name)
      × (IsNormal false name → remove_duplicate_dir_seps name ≡ name)
      × (remove_duplicate_dir_seps (remove_duplicate_dir_seps name)
          ≡ remove_duplicate_dir_seps name)
unfolding remove_duplicate_dir_seps
remove_duplicate_dir_seps_lem name =
    let normal = remove_seps-IsNormal false name in
    (
      normal,
      remove_seps-others false name,
      remove_seps-normal false name,
      remove_seps-normal false (remove_seps false name) normal,
    )
