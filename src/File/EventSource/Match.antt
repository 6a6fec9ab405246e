-- ===== src/File/EventSource/Match.antt =====
-- The configuration that a file's name matches (agent/plugin/file/event_source.c:
-- event_source_file_name_matches_any).
use yella.Prelude.{◌≡◌, ◌⊎◌, Bool, true, false, List, Option, none, some, Text, All}
use yella.File.EventSource.{Spec, matches_some}

module _ (matches : Text → Text → Bool) (fname : Text) where
  abbrev pub Includes : Spec → Bool → Type 0
  Includes s b = matches_some matches fname s.includes ≡ b

  abbrev pub Excludes : Spec → Bool → Type 0
  Excludes s b = matches_some matches fname s.excludes ≡ b

  -- What a result says of the configurations, which are found by their names.
  abbrev pub Verdict : (Text → Option Spec) → Option Text → Type 0
  Verdict specs (some name) =
      (s : Spec) × (specs name ≡ some s) × Includes s true × Excludes s false
  Verdict specs none =
      ((name : Text) (s : Spec) → specs name ≡ some s → Includes s false × Excludes s false)
      ⊎ ((name : Text) × (s : Spec) × (specs name ≡ some s) × Excludes s true)

  -- The same, with the configurations in a list.
  abbrev Scanned : (Text → Option Spec) → List (Text × Spec) → Option Text → Type 0
  Scanned specs ns (some name) =
      (s : Spec) × (specs name ≡ some s) × Includes s true × Excludes s false
  Scanned specs ns none =
      All (λ (n : Text × Spec). Includes n.1 false × Excludes n.1 false) ns
      ⊎ ((name : Text) × (s : Spec) × (specs name ≡ some s) × Excludes s true)
