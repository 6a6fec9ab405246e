-- ===== src/File/Job/Track.antt =====
-- What the reports of a job say (agent/plugin/file/job.c: process_element).
use yella.Prelude.{
  ◌≡◌, refl, sym, ap, subst, ◌∙◌, Bool, true, false, List, [], ◌∷◌, ◌++◌, Option, none, some,
  if◌then◌else◌, if_both, Text, text_eq, text_eq_iff, append-nil, append_assoc, Bool-cases, inl,
  inr,
}
use yella.Sglib.Tree.{TreeOps, TreeLaws}
use yella.Sglib.SortedList.{SortedOps}
use yella.File.Attribute.{Attribute}
use yella.File.Accumulator.{Condition, added, changed, removed}
use yella.File.Element.{Element}
use yella.File.Job.{Report, World, process_change, process_found, process_element, process_elements}

-- Whether a file is there after a report of it, and whether the report fits what was known.
abbrev pub is_present : Condition → Bool
is_present removed = false
is_present _ = true

abbrev pub Fits : Bool → Condition → Type 0
Fits known added = known ≡ false
Fits known changed = known ≡ true
Fits known removed = known ≡ true

-- What one who is told of some reports knows of a file, from what was known before.
abbrev pub track : Text → Bool → List Report → Bool
track q known [] = known
track q known (r ∷ rs) = track q (if text_eq q r.name then is_present r.cond else known) rs

-- Each report of the file fits what is known of it by then.
abbrev pub AllFit : Text → Bool → List Report → Type 0
AllFit q known [] = Unit
AllFit q known (r ∷ rs) =
    (text_eq q r.name ≡ true → Fits known r.cond)
    × AllFit q (if text_eq q r.name then is_present r.cond else known) rs

abbrev pub is_some : {A : Type 0} → Option A → Bool
is_some none = false
is_some (some a) = true

-- What was last seen of a file, if it was looked at.
abbrev pub last_seen : {L : Type 0} → Text → Bool → List (Text × Option (Element L)) → Bool
last_seen q known [] = known
last_seen q known (o ∷ os) = last_seen q (if text_eq q o.0 then is_some o.1 else known) os

track-append :
    (q : Text) (rs ss : List Report) (known : Bool)
    → track q known (rs ++ ss) ≡ track q (track q known rs) ss
track-append q [] ss known = refl
track-append q (r ∷ rs) ss known =
    track-append q rs ss (if text_eq q r.name then is_present r.cond else known)

AllFit-append :
    (q : Text) (rs ss : List Report) (known : Bool)
    → AllFit q known rs
    → AllFit q (track q known rs) ss
    → AllFit q known (rs ++ ss)
AllFit-append q [] ss known h k = k
AllFit-append q (r ∷ rs) ss known h k =
    (h.0, AllFit-append q rs ss (if text_eq q r.name then is_present r.cond else known) h.1 k)

module _ {D L : Type 0} (rows : TreeOps D L) (laws : TreeLaws rows)
    (ops : SortedOps L Attribute) where
  abbrev pub known_of : World D → Text → Bool
  known_of w q = is_some (rows.find w.db q)

  -- From `w` to `w'` these reports were made, of files of which this is known then.
  pub record Tells (w w' : World D) (q : Text) (known : Bool) : Type 0 where
    pub told : List Report
    pub reports : w'.reports ≡ w.reports ++ told
    pub tracked : track q (known_of w q) told ≡ known
    pub fits : AllFit q (known_of w q) told
    pub stored : known_of w' q ≡ known
    pub tree : laws.IsTree w'.db

  Tells-one :
      (w w' : World D) (q name : Text) (cond : Condition) (attrs : Option (List Attribute))
      (now : Bool)
      → w'.reports ≡ w.reports ++ record { name = name; cond = cond; attrs = attrs } ∷ []
      → is_present cond ≡ now
      → Fits (known_of w name) cond
      → known_of w' q ≡ (if text_eq q name then now else known_of w q)
      → laws.IsTree w'.db
      → Tells w w' q (if text_eq q name then now else known_of w q)
  Tells-one w w' q name cond attrs now e p f s t = record {
    told = record { name = name; cond = cond; attrs = attrs } ∷ [];
    reports = e;
    tracked = rw p refl;
    fits = (λ h. subst (λ k. Fits (known_of w k) cond) (sym ((text_eq_iff q name).0 h)) f, tt);
    stored = s;
    tree = t;
  }

  Tells-none :
      (w : World D) (q name : Text) (now : Bool)
      → laws.IsTree w.db
      → known_of w name ≡ now
      → Tells w w q (if text_eq q name then now else known_of w q)
  Tells-none w q name now t e =
      let same : known_of w q ≡ (if text_eq q name then now else known_of w q) =
        elim (Bool-cases (text_eq q name)) [
          | inl h ↦ rw (h, (text_eq_iff q name).0 h) e
          | inr h ↦ rw h refl
        ] in
      record {
        told = [];
        reports = sym (append-nil w.reports);
        tracked = same;
        fits = tt;
        stored = same;
        tree = t;
      }

  is_some_if :
      (b : Bool) (x y : Option L)
      → is_some (if b then x else y) ≡ (if b then is_some x else is_some y)
  is_some_if true x y = refl
  is_some_if false x y = refl

  change-Tells :
      (w : World D) (q name : Text) (elem : Element L) (old : L)
      → laws.IsTree w.db
      → rows.find w.db name ≡ some old
      → Tells w
          (process_change rows ops w name elem old)
          q
          (if text_eq q name then true else known_of w q)
  unfolding process_change
  change-Tells w q name elem old t h =
      let there : known_of w name ≡ true = ap is_some h in
      if_both (λ w'. Tells w w' q (if text_eq q name then true else known_of w q)) _ _ _
        (Tells-none w q name true t there)
        (Tells-one w _ q name changed _ true refl refl there
          (ap is_some (laws.find-set w.db name elem.attrs old q t h)
            ∙ is_some_if (text_eq q name) _ _)
          (laws.set-IsTree w.db name elem.attrs t))

  found-Tells :
      (elem : Option (Element L)) (row : Option L) (w : World D) (q name : Text)
      → laws.IsTree w.db
      → rows.find w.db name ≡ row
      → Tells w
          (process_found rows ops w name elem row)
          q
          (if text_eq q name then is_some elem else known_of w q)
  unfolding process_found
  found-Tells none none w q name t h = Tells-none w q name false t (ap is_some h)
  found-Tells (some elem) none w q name t h =
      Tells-one w _ q name added _ true refl refl (ap is_some h)
        (ap is_some (laws.find-add w.db name elem.attrs q t h) ∙ is_some_if (text_eq q name) _ _)
        (laws.add-IsTree w.db name elem.attrs t h)
  found-Tells none (some old) w q name t h =
      Tells-one w _ q name removed none false refl refl (ap is_some h)
        (ap is_some (laws.find-delete w.db name q t) ∙ is_some_if (text_eq q name) _ _)
        (laws.delete-IsTree w.db name t)
  found-Tells (some elem) (some old) w q name t h = change-Tells w q name elem old t h

  -- The reports of a job tell which files are there. However the files are looked at in turn, with
  -- what they turn out to be: one who is told of the reports, and knew of each file whether the
  -- database had it, knows of each what was last seen of it, and the database has just these; and no
  -- file is reported as added that is known, or as changed or removed that is not.
  pub process_elements_lem :
      (os : List (Text × Option (Element L))) (w : World D) (q : Text)
      → laws.IsTree w.db
      → Tells w (process_elements rows ops w os) q (last_seen q (known_of w q) os)
  unfolding process_elements process_element
  process_elements_lem [] w q t = record {
    told = [];
    reports = sym (append-nil w.reports);
    tracked = refl;
    fits = tt;
    stored = refl;
    tree = t;
  }
  process_elements_lem (o ∷ os) w q t =
      let a = found-Tells o.1 (rows.find w.db o.0) w q o.0 t refl in
      let b = process_elements_lem os (process_element rows ops w o.0 o.1) q a.tree in
      record {
        told = a.told ++ b.told;
        reports =
            b.reports ∙ ap (λ t. t ++ b.told) a.reports ∙ append_assoc w.reports a.told b.told;
        tracked =
            track-append q a.told b.told (known_of w q)
            ∙ ap (λ k. track q k b.told) (a.tracked ∙ sym a.stored)
            ∙ b.tracked
            ∙ ap (λ k. last_seen q k os) a.stored;
        fits =
            AllFit-append q a.told b.told (known_of w q) a.fits
              (subst (λ k. AllFit q k b.told) (a.stored ∙ sym a.tracked) b.fits);
        stored = b.stored ∙ ap (λ k. last_seen q k os) a.stored;
        tree = b.tree;
      }
