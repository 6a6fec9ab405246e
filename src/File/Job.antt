-- ===== src/File/Job.antt =====
-- What a job makes of a file (agent/plugin/file/job.c).
use yella.Prelude.{
  Bool, true, false, ◌||◌, List, [], ◌∷◌, ◌++◌, Option, none, some, if◌then◌else◌, Text,
}
use yella.Sglib.Tree.{TreeOps}
use yella.Sglib.SortedList.{SortedOps}
use yella.File.Attribute.{Attribute}
use yella.File.Pattern.Matcher.{file_name_matches}
use yella.File.Accumulator.{Condition, added, changed, removed}
use yella.File.Element.{Element, is_zero, compare_element_attributes, diff_attributes}
pub mod Track
pub mod Crawl
pub mod Run
pub mod Reports

-- A call of `add_accumulator_message` for the job's recipient and configuration.
pub record Report : Type 0 where
  pub name : Text
  pub cond : Condition
  pub attrs : Option (List Attribute)

-- The state database and the calls that were made. `dangling` says that an element was reported some
-- of whose attributes had been released before, with those of the element from the database: a use of
-- released memory, which ends the run.
pub record World (D : Type 0) : Type 0 where
  pub db : D
  pub reports : List Report
  pub dangling : Bool

-- `matches_excludes`
unfoldable pub matches_excludes : Text → List Text → Bool
matches_excludes name [] = false
matches_excludes name (e ∷ es) =
    let rest = matches_excludes name es in if file_name_matches name e then true else rest

abbrev is_nonempty : List Attribute → Bool
is_nonempty [] = false
is_nonempty (a ∷ xs) = true

-- A database is a set of rows with the attributes of an element, by its name.
module _ {D L : Type 0} (rows : TreeOps D L) (ops : SortedOps L Attribute) where
  abbrev report : World D → D → Text → Condition → Option (List Attribute) → World D
  report w db name cond attrs = record w {
    db = db;
    reports = w.reports ++ record { name = name; cond = cond; attrs = attrs } ∷ [];
  }

  -- The third case of `process_element`: the element is there and was there. Both are of this name, as
  -- `diff_elements` asserts.
  unfoldable pub process_change : World D → Text → Element L → L → World D
  process_change w name elem old =
      let db_elem : Element L = record { name = name; attrs = old } in
      let (diff, shared) = diff_attributes ops elem db_elem in
      if is_zero (compare_element_attributes ops elem db_elem)
      then w
      else record (report w (rows.set w.db name elem.attrs) name changed
          (some (ops.items diff.attrs))) { dangling = w.dangling || is_nonempty shared }

  -- The cases of `process_element`, by the element and what the database has.
  unfoldable pub process_found : World D → Text → Option (Element L) → Option L → World D
  process_found w name none none = w
  process_found w name (some elem) none =
      report w (rows.add w.db name elem.attrs) name added (some (ops.items elem.attrs))
  process_found w name none (some old) = report w (rows.delete w.db name) name removed none
  process_found w name (some elem) (some old) = process_change w name elem old

  unfoldable pub process_element : World D → Text → Option (Element L) → World D
  process_element w name elem = process_found w name elem (rows.find w.db name)

  -- Several files in turn.
  unfoldable pub process_elements : World D → List (Text × Option (Element L)) → World D
  process_elements w [] = w
  process_elements w (o ∷ os) = process_elements (process_element w o.0 o.1) os
