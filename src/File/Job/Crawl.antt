-- ===== src/File/Job/Crawl.antt =====
-- The walk over a directory (agent/plugin/file/job.c: crawl_dir).
use yella.Prelude.{
  ◌≡◌, refl, sym, ap, ◌∙◌, Bool, true, false, not, ◌&&◌, List, [], ◌∷◌, ◌++◌, Option, none, some,
  if◌then◌else◌, Text, All,
}
use yella.Sglib.Tree.{TreeOps}
use yella.Sglib.SortedList.{SortedOps}
use yella.File.Attribute.{Attribute}
use yella.File.Element.{Element}
use yella.File.Pattern.Matcher.{file_name_matches}
use yella.File.Job.{World, matches_excludes, process_element, process_elements}

-- What a directory has, in the order of its iterator: files, and directories with what they have.
pub data Entries : Type 0 where
  no_entries : Entries
  file : Text → Entries → Entries
  folder : Text → Entries → Entries → Entries

-- The variable `existing_elem`: not set, NULL, an element, or an element that was released.
pub data Existing (L : Type 0) : Type 0 where
  unset null released : Existing L
  live : Element L → Existing L

abbrev pub collected : {L : Type 0} → Option (Element L) → Existing L
collected none = null
collected (some elem) = live elem

-- Whether a file is one of the job's: an include of it, and none of the excludes.
unfoldable pub is_included : Text → List Text → Text → Bool
is_included cur_incl excludes cur =
    file_name_matches cur cur_incl && not (matches_excludes cur excludes)

module _ {D L : Type 0} (rows : TreeOps D L) (ops : SortedOps L Attribute) (cur_incl : Text)
    (excludes : List Text) (collect : Text → Option (Element L)) where
  -- The element is processed, and released if there is one. `none` is the use of an indeterminate or
  -- released pointer.
  unfoldable pub process_existing : Existing L → World D → Text → Option (Existing L × World D)
  process_existing unset w cur = none
  process_existing released w cur = none
  process_existing null w cur = some (null, process_element rows ops w cur none)
  process_existing (live elem) w cur = some (released, process_element rows ops w cur (some elem))

  unfoldable pub visit : Existing L → World D → Text → Option (Existing L × World D)
  visit existing w cur =
      process_existing
        (if is_included cur_incl excludes cur then collected (collect cur) else existing) w cur

  unfoldable pub crawl_entries : Entries → Existing L → World D → Option (World D)
  crawl_entries no_entries existing w = some w
  crawl_entries (file cur rest) existing w = elim (visit existing w cur) [
    | none ↦ none
    | some (existing', w') ↦ crawl_entries rest existing' w'
  ]
  crawl_entries (folder cur inside rest) existing w = elim (visit existing w cur) [
    | none ↦ none
    | some (existing', w') ↦ elim (crawl_entries inside unset w') [
      | none ↦ none
      | some w'' ↦ crawl_entries rest existing' w''
    ]
  ]

  unfoldable pub crawl_dir : Entries → World D → Option (World D)
  crawl_dir entries w = crawl_entries entries unset w

-- The names that the walk comes by, a directory's before those in it, and what they turn out to be.
abbrev pub listed : Entries → List Text
listed no_entries = []
listed (file cur rest) = cur ∷ listed rest
listed (folder cur inside rest) = cur ∷ (listed inside ++ listed rest)

abbrev pub looked_at :
    {L : Type 0} → (Text → Option (Element L)) → List Text → List (Text × Option (Element L))
looked_at collect [] = []
looked_at collect (n ∷ ns) = (n, collect n) ∷ looked_at collect ns

module _ {D L : Type 0} (rows : TreeOps D L) (ops : SortedOps L Attribute) (cur_incl : Text)
    (excludes : List Text) (collect : Text → Option (Element L)) where
  abbrev pub AllIncluded : List Text → Type 0
  AllIncluded ns = All (λ n. is_included cur_incl excludes n ≡ true) ns

  pub process_looked-append :
      (ns ms : List Text) (w : World D)
      → process_elements rows ops w (looked_at collect (ns ++ ms))
        ≡ process_elements rows ops
            (process_elements rows ops w (looked_at collect ns))
            (looked_at collect ms)
  unfolding process_elements
  process_looked-append [] ms w = refl
  process_looked-append (n ∷ ns) ms w =
      process_looked-append ns ms (process_element rows ops w n (collect n))

  included-split : (ns ms : List Text) → AllIncluded (ns ++ ms) → AllIncluded ns × AllIncluded ms
  included-split [] ms h = (tt, h)
  included-split (n ∷ ns) ms h = let (a, b) = included-split ns ms h.1 in ((h.0, a), b)

  process_collected :
      (o : Option (Element L)) (w : World D) (cur : Text)
      → (existing' : Existing L) × (process_existing rows ops cur_incl excludes collect
            (collected o)
            w
            cur
          ≡ some (existing', process_element rows ops w cur o))
  unfolding process_existing
  process_collected none w cur = (null, refl)
  process_collected (some elem) w cur = (released, refl)

  visit_included :
      (existing : Existing L) (w : World D) (cur : Text)
      → is_included cur_incl excludes cur ≡ true
      → (existing' : Existing L) × (visit rows ops cur_incl excludes collect existing w cur
          ≡ some (existing', process_element rows ops w cur (collect cur)))
  unfolding visit
  visit_included existing w cur h = rw h (process_collected (collect cur) w cur)

  visit_excluded :
      (w : World D) (cur : Text)
      → is_included cur_incl excludes cur ≡ false
      → visit rows ops cur_incl excludes collect unset w cur ≡ none
  unfolding visit process_existing
  visit_excluded w cur out = rw out refl

  pub crawl_included :
      (es : Entries) (existing : Existing L) (w : World D)
      → AllIncluded (listed es)
      → crawl_entries rows ops cur_incl excludes collect es existing w
        ≡ some (process_elements rows ops w (looked_at collect (listed es)))
  unfolding crawl_entries process_elements
  crawl_included no_entries existing w h = refl
  crawl_included (file cur rest) existing w h =
      let (existing', e) = visit_included existing w cur h.0 in
      rw (e, crawl_entries) (crawl_included rest existing' _ h.1)
  crawl_included (folder cur inside rest) existing w h =
      let (existing', e) = visit_included existing w cur h.0 in
      let (a, b) = included-split (listed inside) (listed rest) h.1 in
      let w1 = process_element rows ops w cur (collect cur) in
      let w2 = process_elements rows ops w1 (looked_at collect (listed inside)) in
      rw (e, crawl_entries)
        (rw (crawl_included inside unset w1 a) (
          crawl_included rest existing' w2 b
          ∙ ap (λ t. some t) (sym (process_looked-append (listed inside) (listed rest) w1))))

  -- A walk over a directory all of whose files, at any depth, are included and not excluded is the
  -- processing of each with what it turns out to be, a directory before what is in it. But a walk over
  -- a directory whose first file is not included, or is excluded, uses a pointer that was not set.
  pub crawl_dir_lem :
      (es rest : Entries) (w : World D) (cur : Text)
      → AllIncluded (listed es)
      → is_included cur_incl excludes cur ≡ false
      → (crawl_dir rows ops cur_incl excludes collect es w
          ≡ some (process_elements rows ops w (looked_at collect (listed es))))
        × (crawl_dir rows ops cur_incl excludes collect (file cur rest) w ≡ none)
  unfolding crawl_dir crawl_entries
  crawl_dir_lem es rest w cur h out =
      (crawl_included es unset w h, rw (visit_excluded w cur out, crawl_dir, crawl_entries) refl)
