-- ===== src/File/Job/Run.antt =====
-- The run of a job: its includes, against its configuration's state database
-- (agent/plugin/file/job.c: run_one_include, create_job, run_job).
use yella.Prelude.{
  ℕ, ◌-◌, false, List, [], ◌∷◌, Option, none, some, ◌==◌, if◌then◌else◌, length, take, Text,
}
use yella.Sglib.Tree.{TreeOps}
use yella.Sglib.SortedList.{SortedOps}
use yella.FilePath.{dir_sep}
use yella.File.Attribute.{Attribute}
use yella.File.Element.{Element}
use yella.File.Pattern.{first_unescaped_special_char, unescape_pattern}
use yella.File.StateDbPool.{Pool, Node, get_state_db_from_pool}
use yella.File.Plugin.{Job}
use yella.File.Job.{Report, World, process_element}
use yella.File.Job.Crawl.{Entries, crawl_dir}

unfoldable pub create_job : Text → Text → Job
create_job config_name recipient = record {
  config_name = config_name;
  recipient = recipient;
  includes = [];
  excludes = [];
  attr_types = [];
}

-- What stands before the last separator of a text, if it has one.
unfoldable pub before_last_sep : Text → Option Text
before_last_sep [] = none
before_last_sep (c ∷ cs) = elim (before_last_sep cs) [
  | some before ↦ some (c ∷ before)
  | none ↦ (if c == dir_sep then some [] else none)
]

unfoldable pub or_root : Option Text → Option Text
or_root none = none
or_root (some []) = some (dir_sep ∷ [])
or_root (some (c ∷ cs)) = some (c ∷ cs)

-- The directory to walk over, for an include whose text from the first special character on is
-- `special`; a pattern that has no separator before that has none.
unfoldable pub top_dir : Text → Text → Option Text
top_dir incl special = or_root (before_last_sep (take (length incl - length special) incl))

-- What a run of a job leaves: the pool and the calls of add_accumulator_message.
pub record JobRun (T : Type 0) : Type 0 where
  pub db_pool : Pool T
  pub reports : List Report

-- `listing` is what a name is as a directory, if it is one, and `collect` what `collect_attributes`
-- finds of it.
module _ {D L : Type 0} (rows : TreeOps D L) (ops : SortedOps L Attribute)
    (listing : Text → Option Entries) (collect : Text → Option (Element L)) where
  -- An include without special characters: `none` is a backslash at its end.
  unfoldable pub run_plain : World D → Option Text → Option (World D)
  run_plain w none = none
  run_plain w (some unescaped) = some (process_element rows ops w unescaped (collect unescaped))

  unfoldable pub run_pattern : World D → Text → List Text → Option Text → Option (World D)
  run_pattern w incl excludes none = some w
  run_pattern w incl excludes (some dir) = elim (listing dir) [
    | none ↦ some w
    | some entries ↦ crawl_dir rows ops incl excludes collect entries w
  ]

  unfoldable pub run_one_include : World D → Text → List Text → Option (World D)
  run_one_include w incl excludes = elim (first_unescaped_special_char incl) [
    | none ↦ run_plain w (unescape_pattern incl)
    | some special ↦ run_pattern w incl excludes (top_dir incl special)
  ]

  -- The loop of `run_job`.
  unfoldable pub run_includes : World D → List Text → List Text → Option (World D)
  run_includes w [] excludes = some w
  run_includes w (incl ∷ incls) excludes = elim (run_one_include w incl excludes) [
    | none ↦ none
    | some w' ↦ run_includes w' incls excludes
  ]

  module _ {T : Type 0} (nodes : TreeOps T (Node D)) where
    -- The rows of a database are written through the pool's node; `none` is a backslash at the end of
    -- an include, or the use of attributes that had been released.
    unfoldable pub run_on : Pool T → Job → ℕ → Option D → Option (JobRun T)
    run_on pool j now none = some (record { db_pool = pool; reports = [] })
    run_on pool j now (some db) =
        elim (run_includes (record { db = db; reports = []; dangling = false }) j.includes
          j.excludes) [
            | none ↦ none
            | some w ↦
                (if w.dangling
                  then none
                  else some (record {
                    db_pool = record pool {
                      nodes =
                          nodes.set pool.nodes j.config_name
                            (record { db = w.db; time_last_used = now });
                    };
                    reports = w.reports;
                  }))
          ]

    -- `run_job`; the other arguments are those of `get_state_db_from_pool`.
    unfoldable pub run_job : Pool T → Job → ℕ → Option D → ℕ → Option (JobRun T)
    run_job pool j max_dbs created now =
        let (db, pool') = get_state_db_from_pool nodes pool j.config_name max_dbs created now in
        run_on pool' j now db
