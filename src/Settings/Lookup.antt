-- ===== src/Settings/Lookup.antt =====
-- What a setting's change does to every look-up (agent/common/settings.c: get_value, set_text_impl,
-- set_uint_impl).
use yella.Prelude.{
  ℕ, ◌==◌, true, ◌≡◌, ◌⊎◌, refl, sym, ap, ap₂, subst, ◌∙◌, false, ◌&&◌, Option, none, some,
  Option-cases, Bool-cases, inl, inr, if◌then◌else◌, Text, text_eq, text_eq_iff, text_eq_refl,
}
use yella.Sglib.Tree.{TreeOps, TreeLaws}
use yella.Settings.{
  ValueType, Value, text, uint, Setting, with_section, set_text, set_uint, set_text_impl,
  set_uint_impl,
}

Value-cases : (v : Value) → ((t : Text) × (v ≡ text t)) ⊎ ((n : ℕ) × (v ≡ uint n))
Value-cases (text t) = inl (t, refl)
Value-cases (uint n) = inr (n, refl)

Value-apart : (t : Text) (n : ℕ) → text t ≡ uint n → ⊥
Value-apart t n h = cc

module _ {S T : Type 0} (sections : TreeOps S T) (settings : TreeOps T Setting)
    (section_laws : TreeLaws sections) (setting_laws : TreeLaws settings) where
  -- The setting that stands under a section and a key.
  unfoldable pub lookup : S → Text → Text → Option Setting
  lookup s sct key = elim (sections.find s sct) [ none ↦ none | some t ↦ settings.find t key ]

  -- Every section is a tree, and so are they together.
  pub record IsSettings (s : S) : Type 0 where
    pub tree : section_laws.IsTree s
    pub each : (sct : Text) (t : T) → sections.find s sct ≡ some t → setting_laws.IsTree t

  -- What a new value makes of a setting: its type stays.
  abbrev pub changed : Option Setting → Value → ValueType → Setting
  changed none v type = record { value = v; type = type }
  changed (some g) v type = record g { value = v }

  lookup-absent : (s : S) (sct key : Text) → sections.find s sct ≡ none → lookup s sct key ≡ none
  unfolding lookup
  lookup-absent s sct key absent = rw (absent, lookup) refl

  lookup-there :
      (s : S) (sct key : Text) (t : T)
      → sections.find s sct ≡ some t
      → lookup s sct key ≡ settings.find t key
  unfolding lookup
  lookup-there s sct key t there = rw (there, lookup) refl

  lookup-same :
      (s s' : S) (q key : Text)
      → sections.find s' q ≡ sections.find s q
      → lookup s' q key ≡ lookup s q key
  unfolding lookup
  lookup-same s s' q key same = rw (same, lookup) refl

  with_section_lem :
      (s : S) (sct : Text)
      → IsSettings s
      → let (s', found) = with_section sections settings s sct in
        section_laws.IsTree s'
        × setting_laws.IsTree found
        × (sections.find s' sct ≡ some found)
        × ((q : Text) → text_eq q sct ≡ false → sections.find s' q ≡ sections.find s q)
        × ((key : Text) → lookup s sct key ≡ settings.find found key)
  unfolding with_section
  with_section_lem s sct is = elim (Option-cases (sections.find s sct)) [
    | inl absent ↦
        (let tree = section_laws.add-IsTree s sct settings.empty is.tree absent in
          let found = section_laws.find-add s sct settings.empty in
          let result : with_section sections settings s sct
              ≡ (sections.add s sct settings.empty, settings.empty) =
            rw (absent, with_section) refl in
          rw result (
            tree,
            setting_laws.empty-IsTree,
            found sct is.tree absent ∙ rw (text_eq_refl sct) refl,
            λ q apart. found q is.tree absent ∙ rw apart refl,
            λ key. lookup-absent s sct key absent ∙ sym (setting_laws.find-empty key),
          ))
    | inr (t, there) ↦
        (let result : with_section sections settings s sct ≡ (s, t) =
            rw (there, with_section) refl in
          rw result (
            is.tree,
            is.each sct t there,
            there,
            λ q apart. refl,
            λ key. lookup-there s sct key t there,
          ))
  ]

  -- What it is to put a section back.
  put_section :
      (s : S) (sct : Text) (t' : T)
      → IsSettings s
      → setting_laws.IsTree t'
      → let s' = sections.set (with_section sections settings s sct).0 sct t' in
        IsSettings s'
        × ((q key : Text)
            → lookup s' q key ≡ (if text_eq q sct then settings.find t' key else lookup s q key))
  put_section s sct t' is tree =
      let (s', found) = with_section sections settings s sct in
      let (tree', _, there, others, _) = with_section_lem s sct is in
      let after = section_laws.find-set s' sct t' found in
      (
        record {
          tree = section_laws.set-IsTree s' sct t' tree';
          each = λ q t at. elim (Bool-cases (text_eq q sct)) [
            | inl same ↦
                (let new : sections.find (sections.set s' sct t') q ≡ some t' =
                    after q tree' there ∙ rw same refl in
                  let e : t' ≡ t = cc in subst setting_laws.IsTree e tree)
            | inr apart ↦
                is.each q t (sym (others q apart) ∙ sym (after q tree' there ∙ rw apart refl) ∙ at)
          ];
        },
        λ q key. elim (Bool-cases (text_eq q sct)) [
          | inl same ↦ rw same (lookup-there _ q key t' (after q tree' there ∙ rw same refl))
          | inr apart ↦
              rw apart
                (lookup-same s _ q key (after q tree' there ∙ rw apart refl ∙ others q apart))
        ],
      )

  -- What a number does to a section.
  set_uint_find :
      (t : T) (key : Text) (val : ℕ) (type : ValueType)
      → setting_laws.IsTree t
      → setting_laws.IsTree (set_uint sections settings t key val type)
        × ((q : Text)
            → settings.find (set_uint sections settings t key val type) q ≡ (
                if text_eq q key
                then some (changed (settings.find t key) (uint val) type)
                else settings.find t q))
  unfolding set_uint
  set_uint_find t key val type tree = elim (Option-cases (settings.find t key)) [
    | inl absent ↦
        rw (absent, set_uint)
          (
            setting_laws.add-IsTree t key _ tree absent,
            λ q. setting_laws.find-add t key _ q tree absent,
          )
    | inr (g, there) ↦
        rw (there, set_uint)
          (setting_laws.set-IsTree t key _ tree, λ q. setting_laws.find-set t key _ g q tree there)
  ]

  -- A text where the union held a number but zero is a fault.
  abbrev pub HoldsNumber : Option Setting → Type 0
  HoldsNumber none = ⊥
  HoldsNumber (some g) = (n : ℕ) × (g.value ≡ uint n) × ((n == 0) ≡ false)

  zero_only : (g : Setting) (n : ℕ) → g.value ≡ uint n → (n == 0) ≡ true → HoldsNumber (some g) → ⊥
  zero_only g n e z (m, f, big) = cc

  set_text_find :
      (t : T) (key val : Text) (type : ValueType)
      → setting_laws.IsTree t
      → (HoldsNumber (settings.find t key) → set_text sections settings t key val type ≡ none)
        × (¬ HoldsNumber (settings.find t key)
            → (t' : T) × (set_text sections settings t key val type ≡ some t')
              × setting_laws.IsTree t'
              × ((q : Text)
                  → settings.find t' q ≡ (
                      if text_eq q key
                      then some (changed (settings.find t key) (text val) type)
                      else settings.find t q)))
  unfolding set_text
  set_text_find t key val type tree = elim (Option-cases (settings.find t key)) [
    | inl absent ↦
        rw (absent, set_text)
          (
            λ h. absurd h,
            λ n. (
              settings.add t key (record { value = text val; type = type }),
              refl,
              setting_laws.add-IsTree t key _ tree absent,
              λ q. setting_laws.find-add t key _ q tree absent,
            ),
          )
    | inr (g, there) ↦ elim (Value-cases g.value) [
      | inr (n, number) ↦ elim (Bool-cases (n == 0)) [
        | inr big ↦
            (let fault : set_text sections settings t key val type ≡ none =
                rw (there, set_text) (rw (number, big) refl) in
              rw there (λ h. fault, λ nope. absurd (nope (n, number, big))))
        | inl zero_is ↦
            (let done : set_text sections settings t key val type
                  ≡ some (settings.set t key (record g { value = text val })) =
                rw (there, set_text) (rw (number, zero_is) refl) in
              let no_number : HoldsNumber (some g) → ⊥ = λ h. zero_only g n number zero_is h in
              rw there (
                λ h. absurd (no_number h),
                λ nope. (
                  settings.set t key (record g { value = text val }),
                  done,
                  setting_laws.set-IsTree t key _ tree,
                  λ q. setting_laws.find-set t key _ g q tree there,
                ),
              ))
      ]
      | inl (old, is_text) ↦
          (let done : set_text sections settings t key val type
                ≡ some (settings.set t key (record g { value = text val })) =
              rw (there, set_text) (rw is_text refl) in
            let no_number : HoldsNumber (some g) → ⊥ =
              λ (n, number, big). Value-apart old n (sym is_text ∙ number) in
            rw there (
              λ h. absurd (no_number h),
              λ nope. (
                settings.set t key (record g { value = text val }),
                done,
                setting_laws.set-IsTree t key _ tree,
                λ q. setting_laws.find-set t key _ g q tree there,
              ),
            ))
    ]
  ]

  -- Every setting of `s'` is that of `s`, but the one under a section and a key, which has a value.
  abbrev pub DiffersAt : S → S → Text → Text → Value → ValueType → Type 0
  DiffersAt s' s sct key v type =
      (q k : Text)
      → lookup s' q k ≡ (
          if text_eq q sct && text_eq k key
          then some (changed (lookup s sct key) v type)
          else lookup s q k)

  combine :
      (s s' : S) (sct key : Text) (found t' : T) (v : Value) (type : ValueType)
      → ((k : Text) → lookup s sct k ≡ settings.find found k)
      → ((k : Text)
          → settings.find t' k ≡ (
              if text_eq k key
              then some (changed (settings.find found key) v type)
              else settings.find found k))
      → ((q k : Text)
          → lookup s' q k ≡ (if text_eq q sct then settings.find t' k else lookup s q k))
      → DiffersAt s' s sct key v type
  combine s s' sct key found t' v type here finds looks q k =
      looks q k ∙ elim (Bool-cases (text_eq q sct)) [
        | inr apart ↦ rw apart refl
        | inl same ↦
            (let e : q ≡ sct = (text_eq_iff q sct).0 same in
              rw same (
                finds k
                ∙ ap₂ (λ a b. if text_eq k key then some (changed a v type) else b) (sym (here key))
                    (sym (here k) ∙ ap (λ z. lookup s z k) (sym e))))
      ]

  -- After a number was set, the settings are trees still, the setting under the section and the key
  -- has the number and the type that it had, or the type given if it is new, and every other
  -- setting is as before, whether the section was there or not.
  set_uint_impl_lem :
      (s : S) (sct key : Text) (val : ℕ) (type : ValueType)
      → IsSettings s
      → let s' = set_uint_impl sections settings s sct key val type in
        IsSettings s' × DiffersAt s' s sct key (uint val) type
  unfolding set_uint_impl
  set_uint_impl_lem s sct key val type is =
      let found = (with_section sections settings s sct).1 in
      let (_, tree, _, _, here) = with_section_lem s sct is in
      let (tree', finds) = set_uint_find found key val type tree in
      let (is', looks) =
        put_section s sct (set_uint sections settings found key val type) is tree' in
      (is', combine s _ sct key found _ (uint val) type here finds looks)

  -- Where a number other than zero was set, to set a text is a fault, the release of the number as if
  -- it were a pointer. Elsewhere, also where zero was set, which is NULL, after a
  -- text was set, the settings are trees still, the setting under the section and the key has the text
  -- and the type that it had, or the type given if it is new, and every other setting is as before,
  -- whether the section was there or not.
  pub set_text_impl_lem :
      (s : S) (sct key val : Text) (type : ValueType)
      → IsSettings s
      → (HoldsNumber (lookup s sct key) → set_text_impl sections settings s sct key val type ≡ none)
        × (¬ HoldsNumber (lookup s sct key)
            → (s' : S) × (set_text_impl sections settings s sct key val type ≡ some s')
              × IsSettings s'
              × DiffersAt s' s sct key (text val) type)
  unfolding set_text_impl
  set_text_impl_lem s sct key val type is =
      let found = (with_section sections settings s sct).1 in
      let (_, tree, _, _, here) = with_section_lem s sct is in
      let (fault, done) = set_text_find found key val type tree in
      (
        λ h. rw (fault (subst HoldsNumber (here key) h), set_text_impl) refl,
        λ nope.
            let (t', result, tree', finds) =
              done (λ h. nope (subst HoldsNumber (sym (here key)) h)) in
            let (is', looks) = put_section s sct t' is tree' in
            (
              sections.set (with_section sections settings s sct).0 sct t',
              rw (result, set_text_impl) refl,
              is',
              combine s _ sct key found t' (text val) type here finds looks,
            ),
      )
