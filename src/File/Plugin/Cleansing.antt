-- ===== src/File/Plugin/Cleansing.antt =====
-- What names are taken from a request (agent/plugin/file/file_plugin.c: cleanse_file_name).
use yella.Prelude.{
  ℕ, ◌≡◌, refl, sym, ap, subst, ◌∙◌, arith, Bool, true, false, List, [], ◌∷◌, none, some, ◌==◌,
  Text, Bool-cases, inl, inr, All,
}
use yella.External.{Utf8}
use yella.FilePath.{
  dir_sep, IsNormal, remove_seps, remove_duplicate_dir_seps, remove_duplicate_dir_seps_lem,
}
use yella.File.Plugin.Request.{
  is_file_name_absolute, cut_last_sep, is_empty_text, cleanse_file_name, cleanse_names,
}

-- The name does not end with a separator, unless it is one.
abbrev pub EndsOpen : Text → Type 0
EndsOpen [] = Unit
EndsOpen (c ∷ []) = Unit
EndsOpen (c ∷ d ∷ []) = (d == dir_sep) ≡ false
EndsOpen (c ∷ d ∷ e ∷ cs) = EndsOpen (d ∷ e ∷ cs)

-- A name as it is stored: absolute, with single separators, none of them last.
pub record IsClean (name : Text) : Type 0 where
  pub absolute : is_file_name_absolute name ≡ true
  pub normal : IsNormal false name
  pub ends : EndsOpen name

IsNormal-head : (seen : Bool) (c : ℕ) (cs : Text) → IsNormal seen (c ∷ cs) → IsNormal seen (c ∷ [])
IsNormal-head true c cs h = (h.0, tt)
IsNormal-head false c cs h = at (c == dir_sep)
  where
    at : (b : Bool) → IsNormal b []
    at true = tt
    at false = tt

cut-IsNormal : (seen : Bool) (name : Text) → IsNormal seen name → IsNormal seen (cut_last_sep name)
unfolding cut_last_sep
cut-IsNormal seen [] h = h
cut-IsNormal seen (c ∷ []) h = h
cut-IsNormal seen (c ∷ d ∷ []) h = elim (Bool-cases (d == dir_sep)) [
  | inl sep ↦ rw sep (IsNormal-head seen c (d ∷ []) h)
  | inr other ↦ rw other h
]
cut-IsNormal true (c ∷ d ∷ e ∷ cs) h = (h.0, cut-IsNormal false (d ∷ e ∷ cs) h.1)
cut-IsNormal false (c ∷ d ∷ e ∷ cs) h = cut-IsNormal (c == dir_sep) (d ∷ e ∷ cs) h

-- The first character stays.
cut-head : (d e : ℕ) (cs : Text) → (t : Text) × (cut_last_sep (d ∷ e ∷ cs) ≡ d ∷ t)
unfolding cut_last_sep
cut-head d e [] = elim (Bool-cases (e == dir_sep)) [
  | inl sep ↦ ([], rw sep refl)
  | inr other ↦ (e ∷ [], rw other refl)
]
cut-head d e (f ∷ cs) = (cut_last_sep (e ∷ f ∷ cs), refl)

lone_before_sep :
    (seen : Bool) (c d : ℕ) (cs : Text)
    → IsNormal seen (c ∷ d ∷ cs)
    → (d == dir_sep) ≡ true
    → (c == dir_sep) ≡ false
lone_before_sep true c d cs h sep = h.0
lone_before_sep false c d cs h sep = elim (Bool-cases (c == dir_sep)) [
  | inr other ↦ other
  | inl first ↦
      (let h' : IsNormal true (d ∷ cs) = subst (λ b. IsNormal b (d ∷ cs)) first h in
        let no = h'.0 in ground arith)
]

IsNormal-tail :
    (seen : Bool) (c : ℕ) (cs : Text) → IsNormal seen (c ∷ cs) → (b : Bool) × IsNormal b cs
IsNormal-tail true c cs h = (false, h.1)
IsNormal-tail false c cs h = (c == dir_sep, h)

EndsOpen-cons : (b c d : ℕ) (t u : Text) → u ≡ d ∷ t → EndsOpen (c ∷ u) → EndsOpen (b ∷ c ∷ u)
EndsOpen-cons b c d t u e h =
    subst (λ v. EndsOpen (b ∷ c ∷ v)) (sym e) (subst (λ v. EndsOpen (c ∷ v)) e h)

cut-EndsOpen_cons :
    (seen : Bool) (b c d : ℕ) (cs : Text)
    → IsNormal seen (c ∷ d ∷ cs)
    → EndsOpen (b ∷ cut_last_sep (c ∷ d ∷ cs))
unfolding cut_last_sep
cut-EndsOpen_cons seen b c d [] h = elim (Bool-cases (d == dir_sep)) [
  | inl sep ↦ rw sep (lone_before_sep seen c d [] h sep)
  | inr other ↦ rw other other
]
cut-EndsOpen_cons seen b c d (e ∷ cs) h =
    let (s, h') = IsNormal-tail seen c (d ∷ e ∷ cs) h in
    let (t, eq) = cut-head d e cs in
    EndsOpen-cons b c d t (cut_last_sep (d ∷ e ∷ cs)) eq (cut-EndsOpen_cons s c d e cs h')

cut-EndsOpen : (seen : Bool) (name : Text) → IsNormal seen name → EndsOpen (cut_last_sep name)
unfolding cut_last_sep
cut-EndsOpen seen [] h = tt
cut-EndsOpen seen (c ∷ []) h = tt
cut-EndsOpen seen (c ∷ d ∷ []) h = elim (Bool-cases (d == dir_sep)) [
  | inl sep ↦ rw sep tt
  | inr other ↦ rw other other
]
cut-EndsOpen seen (c ∷ d ∷ e ∷ cs) h =
    let (s, h') = IsNormal-tail seen c (d ∷ e ∷ cs) h in cut-EndsOpen_cons s c d e cs h'

cut-absolute :
    (name : Text) → is_file_name_absolute (cut_last_sep name) ≡ is_file_name_absolute name
unfolding cut_last_sep is_file_name_absolute
cut-absolute [] = refl
cut-absolute (c ∷ []) = refl
cut-absolute (c ∷ d ∷ cs) = let (t, e) = cut-head c d cs in ap is_file_name_absolute e

cut-open : (name : Text) → EndsOpen name → cut_last_sep name ≡ name
unfolding cut_last_sep
cut-open [] h = refl
cut-open (c ∷ []) h = refl
cut-open (c ∷ d ∷ []) h = rw h refl
cut-open (c ∷ d ∷ e ∷ cs) h = ap (λ t. c ∷ t) (cut-open (d ∷ e ∷ cs) h)

-- Only absolute names are taken, and each of these is.
cleanse_absolute :
    (name : Text)
    → is_file_name_absolute name ≡ true
    → cleanse_file_name name ≡ some (cut_last_sep (remove_duplicate_dir_seps name))
      × (is_file_name_absolute (remove_duplicate_dir_seps name) ≡ true)
unfolding cleanse_file_name is_empty_text remove_duplicate_dir_seps remove_seps
    is_file_name_absolute
cleanse_absolute [] h = absurd (ground arith)
cleanse_absolute (c ∷ cs) h = rw h (refl, h)

-- A name of a request is taken if it is absolute, and only then; what is taken is absolute, has no
-- separator behind another, and none at its end unless it is the root alone; and a name that is such
-- already is taken as it is.
pub cleanse_file_name_lem :
    (name : Text)
    → (is_file_name_absolute name ≡ true
        → (fname : Text) × (cleanse_file_name name ≡ some fname) × IsClean fname)
      × (is_file_name_absolute name ≡ false → cleanse_file_name name ≡ none)
      × (IsClean name → cleanse_file_name name ≡ some name)
unfolding cleanse_file_name
cleanse_file_name_lem name =
    let r = remove_duplicate_dir_seps name in
    let facts = remove_duplicate_dir_seps_lem name in
    (
      λ h. (
        cut_last_sep r,
        (cleanse_absolute name h).0,
        record {
          absolute = cut-absolute r ∙ (cleanse_absolute name h).1;
          normal = cut-IsNormal false r facts.0;
          ends = cut-EndsOpen false r facts.0;
        },
      ),
      λ h. rw h refl,
      λ h.
          (cleanse_absolute name h.absolute).0
          ∙ ap (λ t. some (cut_last_sep t)) (facts.2 h.normal)
          ∙ ap some (cut-open name h.ends),
    )

-- All names that are taken are clean.
pub cleanse_names-IsClean : (utf : Utf8) (ns : List Text) → All IsClean (cleanse_names utf ns)
unfolding cleanse_names
cleanse_names-IsClean utf [] = tt
cleanse_names-IsClean utf (n ∷ ns) = elim (Bool-cases (is_file_name_absolute (utf.from_utf8 n))) [
  | inl h ↦
      (let (fname, e, clean) = (cleanse_file_name_lem (utf.from_utf8 n)).0 h in
        rw (e, cleanse_names) (clean, cleanse_names-IsClean utf ns))
  | inr h ↦
      rw ((cleanse_file_name_lem (utf.from_utf8 n)).1 h, cleanse_names)
        (cleanse_names-IsClean utf ns)
]
