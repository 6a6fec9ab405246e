-- ===== src/File/Plugin/Install.antt =====
-- The installation of a configuration (agent/plugin/file/file_plugin.c: install_config_node).
use yella.Prelude.{
  ℕ, suc, ◌<◌, ◌≡◌, refl, sym, ap, ◌∙◌, Bool, true, false, not, List, [], ◌∷◌, ◌++◌, arith, ◌==◌,
  ==_iff, if◌then◌else◌, length, erase_at, Text, text_eq, text_eq_iff, Bool-cases, inl, inr,
}
use yella.File.Plugin.{index_of, install_name}

abbrev pub has_name : Text → List Text → Bool
has_name q [] = false
has_name q (n ∷ ns) = let rest = has_name q ns in if text_eq n q then true else rest

abbrev pub AreDistinct : List Text → Type 0
AreDistinct [] = Unit
AreDistinct (n ∷ ns) = (has_name n ns ≡ false) × AreDistinct ns

text_eq_sym : (s t : Text) → text_eq s t ≡ text_eq t s
text_eq_sym s t = elim (Bool-cases (text_eq s t)) [
  | inl e ↦ rw ((text_eq_iff s t).0 e) refl
  | inr e ↦ elim (Bool-cases (text_eq t s)) [
    | inl f ↦ absurd (let same = (text_eq_iff s t).1 (sym ((text_eq_iff t s).0 f)) in ground arith)
    | inr f ↦ e ∙ sym f
  ]
]

index_absent :
    (name : Text) (ns : List Text) → has_name name ns ≡ false → index_of name ns ≡ length ns
unfolding index_of
index_absent name [] h = refl
index_absent name (n ∷ ns) h = elim (Bool-cases (text_eq n name)) [
  | inl e ↦ absurd (ground arith)
  | inr e ↦ rw e (ap suc (index_absent name ns (ground arith)))
]

index_there :
    (name : Text) (ns : List Text) → has_name name ns ≡ true → index_of name ns < length ns
unfolding index_of
index_there name [] h = absurd (ground arith)
index_there name (n ∷ ns) h = elim (Bool-cases (text_eq n name)) [
  | inl e ↦ rw e (omega arith)
  | inr e ↦ (let rest = index_there name ns (ground arith) in rw e (omega (arith, rest)))
]

has_name-append :
    (q name : Text) (ns : List Text)
    → has_name q (ns ++ name ∷ []) ≡ (if text_eq q name then true else has_name q ns)
has_name-append q name [] = rw (text_eq_sym name q) refl
has_name-append q name (n ∷ ns) = elim (Bool-cases (text_eq n q)) [
  | inl e ↦ rw e (sym (both (text_eq q name)))
  | inr e ↦ rw e (has_name-append q name ns)
]
  where
    both : (b : Bool) → (if b then true else true) ≡ true
    both true = refl
    both false = refl

has_name-erase :
    (q name : Text) (ns : List Text)
    → AreDistinct ns
    → has_name name ns ≡ true
    → has_name q (erase_at ns (index_of name ns))
      ≡ (if text_eq q name then false else has_name q ns)
unfolding index_of
has_name-erase q name [] d h = absurd (ground arith)
has_name-erase q name (n ∷ ns) d h = elim (Bool-cases (text_eq n name)) [
  | inl e ↦
      (let same : n ≡ name = (text_eq_iff n name).0 e in
        rw e (elim (Bool-cases (text_eq q name)) [
          | inl f ↦
              (let gone : has_name q ns ≡ false =
                  ap (λ k. has_name k ns) ((text_eq_iff q name).0 f ∙ sym same) ∙ d.0 in
                rw (f, gone) refl)
          | inr f ↦
              (let apart : text_eq n q ≡ false =
                  ap (λ k. text_eq k q) same ∙ text_eq_sym name q ∙ f in
                rw (f, apart) refl)
        ]))
  | inr e ↦
      (let rest = has_name-erase q name ns d.1 (ground arith) in
        rw e (elim (Bool-cases (text_eq n q)) [
          | inl f ↦
              (let apart : text_eq q name ≡ false =
                  ap (λ k. text_eq k name) (sym ((text_eq_iff n q).0 f)) ∙ e in
                rw (f, apart) refl)
          | inr f ↦ rw f rest
        ]))
]

-- The names after an installation.
abbrev pub listed_after : Text → Text → Bool → List Text → Bool
listed_after q name is_empty names = if text_eq q name then not is_empty else has_name q names

pub install_name_lem :
    (garbage : ℕ) (names : List Text) (name q : Text) (is_empty : Bool)
    → AreDistinct names
    → (is_empty ≡ true → has_name name names ≡ true)
    → has_name q (install_name garbage names name is_empty) ≡ listed_after q name is_empty names
unfolding install_name
install_name_lem garbage names name q true d there =
    let less = index_there name names (there refl) in
    let found : (index_of name names == length names) ≡ false = ground arith in
    rw found (has_name-erase q name names d (there refl))
install_name_lem garbage names name q false d there = elim (Bool-cases (has_name name names)) [
  | inr e ↦
      rw ((==_iff (index_of name names) (length names)).1 (index_absent name names e))
        (has_name-append q name names)
  | inl e ↦
      (let less = index_there name names e in
        let found : (index_of name names == length names) ≡ false = ground arith in
        rw found (elim (Bool-cases (text_eq q name)) [
          | inl f ↦ rw f (ap (λ k. has_name k names) ((text_eq_iff q name).0 f) ∙ e)
          | inr f ↦ rw f refl
        ]))
]

pub install_name-cleared :
    (garbage : ℕ) (name q : Text) (is_empty : Bool)
    → has_name q (install_name garbage [] name is_empty) ≡ listed_after q name is_empty []
unfolding install_name index_of
install_name-cleared garbage name q true = elim (Bool-cases (text_eq q name)) [
  | inl e ↦ rw e refl
  | inr e ↦ rw e refl
]
install_name-cleared garbage name q false = rw (text_eq_sym name q) refl
