-- ===== src/File/EventSource.antt =====
-- The configurations that events are matched with (agent/plugin/file/event_source.c).
use yella.Prelude.{Bool, true, false, List, [], ◌∷◌, Option, none, some, if◌then◌else◌, Text}
use yella.Sglib.Tree.{TreeOps}
use yella.Sglib.Member.{delete_if_member}
use yella.File.Pattern.Matcher.{file_name_matches}
pub mod Lookup
pub mod Match
mod Tests

-- `event_source_spec` but for its name, the key, and the links
pub record Spec : Type 0 where
  pub includes : List Text
  pub excludes : List Text

-- `file_name_matches` of a file's name with any of some patterns.
unfoldable pub matches_some : (Text → Text → Bool) → Text → List Text → Bool
matches_some matches fname [] = false
matches_some matches fname (p ∷ ps) =
    let rest = matches_some matches fname ps in if matches fname p then true else rest

-- The loop of `event_source_file_name_matches_any`: an exclude that matches ends it as an include does.
unfoldable pub matches_any : (Text → Text → Bool) → Text → List (Text × Spec) → Option Text
matches_any matches fname [] = none
matches_any matches fname (n ∷ ns) =
    let rest = matches_any matches fname ns in
    if matches_some matches fname n.1.excludes
    then none
    else if matches_some matches fname n.1.includes
    then some n.0
    else rest

-- A tree is the `specs` of `struct event_source`.
module _ {T : Type 0} (ops : TreeOps T Spec) where
  unfoldable pub add_or_replace_event_source_specs : T → List (Text × Spec) → T
  add_or_replace_event_source_specs specs [] = specs
  add_or_replace_event_source_specs specs (n ∷ ns) =
      add_or_replace_event_source_specs (ops.add (delete_if_member ops specs n.0) n.0 n.1) ns

  unfoldable pub remove_event_source_spec : T → Text → T
  remove_event_source_spec specs name = delete_if_member ops specs name

  unfoldable pub clear_event_source_specs : T → T
  clear_event_source_specs specs = ops.empty

  unfoldable pub event_source_file_name_matches_any : T → Text → Option Text
  event_source_file_name_matches_any specs fname =
      matches_any file_name_matches fname (ops.iterate specs)
