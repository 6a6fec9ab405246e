-- ===== src/File/EventSource/Lookup.antt =====
-- The configurations after some operations (agent/plugin/file/event_source.c).
use yella.Prelude.{
  ◌≡◌, refl, ap, ◌∙◌, List, [], ◌∷◌, Option, none, some, if◌then◌else◌, Text, text_eq,
}
use yella.Sglib.Tree.{TreeOps, TreeLaws}
use yella.Sglib.Member.{deleted-IsTree, find-deleted, find_replaced}
use yella.File.EventSource.{
  Spec, add_or_replace_event_source_specs, remove_event_source_spec, clear_event_source_specs,
}

-- What is asked of an event source.
pub data Op : Type 0 where
  add_or_replace : List (Text × Spec) → Op
  remove : Text → Op
  clear : Op

-- The configuration of a name, after some were added, and after some operations.
abbrev pub added_spec : Text → Option Spec → List (Text × Spec) → Option Spec
added_spec q o [] = o
added_spec q o (n ∷ ns) = added_spec q (if text_eq q n.0 then some n.1 else o) ns

abbrev pub spec_after : Text → Option Spec → List Op → Option Spec
spec_after q o [] = o
spec_after q o (add_or_replace ns ∷ os) = spec_after q (added_spec q o ns) os
spec_after q o (remove name ∷ os) = spec_after q (if text_eq q name then none else o) os
spec_after q o (clear ∷ os) = spec_after q none os

module _ {T : Type 0} (ops : TreeOps T Spec) where
  unfoldable pub step : T → Op → T
  step specs (add_or_replace ns) = add_or_replace_event_source_specs ops specs ns
  step specs (remove name) = remove_event_source_spec ops specs name
  step specs clear = clear_event_source_specs ops specs

  unfoldable pub run : T → List Op → T
  run specs [] = specs
  run specs (o ∷ os) = run (step specs o) os

  module _ (laws : TreeLaws ops) where
    pub find_added :
        (ns : List (Text × Spec)) (t : T) (q : Text)
        → laws.IsTree t
        → laws.IsTree (add_or_replace_event_source_specs ops t ns)
          × (ops.find (add_or_replace_event_source_specs ops t ns) q
              ≡ added_spec q (ops.find t q) ns)
    unfolding add_or_replace_event_source_specs
    find_added [] t q h = (h, refl)
    find_added (n ∷ ns) t q h =
        let (tree, e) = find_replaced ops laws t n.0 n.1 q h in
        let (end, f) = find_added ns _ q tree in (end, f ∙ ap (λ o. added_spec q o ns) e)

    pub find-run :
        (os : List Op) (t : T) (q : Text)
        → laws.IsTree t
        → laws.IsTree (run t os) × (ops.find (run t os) q ≡ spec_after q (ops.find t q) os)
    unfolding run step remove_event_source_spec clear_event_source_specs
    find-run [] t q h = (h, refl)
    find-run (add_or_replace ns ∷ os) t q h =
        let (tree, e) = find_added ns t q h in
        let (end, f) = find-run os _ q tree in (end, f ∙ ap (λ o. spec_after q o os) e)
    find-run (remove name ∷ os) t q h =
        let (end, f) = find-run os _ q (deleted-IsTree ops laws t name h) in
        (end, f ∙ ap (λ o. spec_after q o os) (find-deleted ops laws t name q h))
    find-run (clear ∷ os) t q h =
        let (end, f) = find-run os ops.empty q laws.empty-IsTree in
        (end, f ∙ ap (λ o. spec_after q o os) (laws.find-empty q))
