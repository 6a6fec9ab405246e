-- ===== src/File/Plugin/Restart.antt =====
-- The configurations after a restart (agent/plugin/file/file_plugin.c: save_configs, load_configs).
use mathlib.Core.Option
use yella.Prelude.{
  ◌≡◌, refl, sym, ap, ◌∙◌, List, [], none, some, map, Text, true, Bool-cases, inl, inr, arith,
}
use yella.External.{Utf8, RoundTrips}
use yella.Sglib.Tree.{TreeOps, TreeLaws}
use yella.Sglib.Queue.{QueueOps, QueueLaws}
use yella.File.EventSource.{Spec, add_or_replace_event_source_specs}
use yella.File.EventSource.Lookup.{added_spec, find_added}
use yella.File.StateDbPool.{Node}
use yella.File.Plugin.{
  Config, Job, FbConfig, configs_of, FilePlugin, spec_of, config_to_fb, ConfigsFile, are_told,
  configs_file, save_configs, all_written,
}
use yella.File.Plugin.Books.{InStep}
use yella.File.Plugin.Saved.{load_nodes, load_file, load_configs}
use yella.File.Plugin.Reloading.{
  reloaded, reloaded_node, spec_node, added_spec-last, last_entry-iterate, last_entry-reloaded,
  load_nodes-iterate,
}

module _ {C E T D Q : Type 0} (config_ops : TreeOps C Config) (spec_ops : TreeOps E Spec)
    (node_ops : TreeOps T (Node D)) (job_ops : QueueOps Q Job) (config_laws : TreeLaws config_ops)
    (spec_laws : TreeLaws spec_ops) (job_laws : QueueLaws job_ops) (utf : Utf8)
    (round : RoundTrips utf) where
  loads_configs :
      (utf : Utf8) (fplg : FilePlugin C E T Q) (cfgs : List FbConfig) (loaded : C)
      (especs : List (Text × Spec))
      → load_nodes config_ops utf cfgs fplg.configs ≡ some (loaded, especs)
      → load_file config_ops spec_ops utf fplg (configs_of cfgs)
        ≡ some (record fplg {
          configs = loaded;
          specs = add_or_replace_event_source_specs spec_ops fplg.specs especs;
        })
  unfolding load_file
  loads_configs utf fplg cfgs loaded especs e = rw (e, load_file) refl

  saved_whole :
      (ns : List (Text × Config)) (before after : ConfigsFile)
      → save_configs utf all_written ns before ≡ some after
      → (are_told utf ns ≡ true) × (after ≡ configs_of (map (config_to_fb utf) ns))
  unfolding save_configs configs_file
  saved_whole ns before after h = elim (Bool-cases (are_told utf ns)) [
    | inl c ↦
        (let whole : save_configs utf all_written ns before
              ≡ some (configs_of (map (config_to_fb utf) ns)) =
            rw c refl in
          (c, cc))
    | inr c ↦
        absurd
          (let gone : save_configs utf all_written ns before ≡ none = rw c refl in ground arith)
  ]

  -- A plugin that starts, with no configuration yet, on the file that another saved whole. It loads
  -- just the configurations that the other had, each as it was but for memory that was released, and
  -- the event source has the includes and excludes of these. But the capability's list of names stays
  -- as it is, without their names, and no job is queued. ICU reads back the texts that it converted.
  pub load-save_configs :
      (was fresh : FilePlugin C E T Q)
      → config_laws.IsTree was.configs
      → fresh.configs ≡ config_ops.empty
      → fresh.specs ≡ spec_ops.empty
      → save_configs utf all_written (config_ops.iterate was.configs) was.file ≡ some fresh.file
      → (after : FilePlugin C E T Q) × (load_configs config_ops spec_ops utf fresh ≡ some after)
        × InStep config_ops spec_ops node_ops job_ops config_laws spec_laws job_laws after
        × ((q : Text)
            → config_ops.find after.configs q ≡ Option.map reloaded (config_ops.find was.configs q))
        × (after.names ≡ fresh.names)
        × (after.jq ≡ fresh.jq)
  unfolding load_configs load_file
  load-save_configs was fresh tree no_configs no_specs file =
      let ns = config_ops.iterate was.configs in
      let (told, whole) = saved_whole ns was.file fresh.file file in
      let especs = map spec_node (map reloaded_node ns) in
      let (loaded, e, tree', found) =
        load_nodes-iterate config_ops config_laws utf round was.configs tree told in
      let specs = λ (q : Text).
        find_added spec_ops spec_laws especs fresh.specs q (rw no_specs spec_laws.empty-IsTree) in
      let none_yet = λ (q : Text). ap (λ t. spec_ops.find t q) no_specs ∙ spec_laws.find-empty q in
      (
        record fresh {
          configs = loaded;
          specs = add_or_replace_event_source_specs spec_ops fresh.specs especs;
        },
        ap (load_file config_ops spec_ops utf fresh) whole
            ∙ loads_configs utf fresh (map (config_to_fb utf) ns) loaded especs
                (ap (load_nodes config_ops utf (map (config_to_fb utf) ns)) no_configs ∙ e),
        record {
          config_tree = tree';
          spec_tree = (specs []).0;
          agree = λ q.
              (specs q).1
              ∙ ap (λ o. added_spec q o especs) (none_yet q)
              ∙ added_spec-last q (map reloaded_node ns) none
              ∙ ap (Option.map spec_of) (
                  last_entry-reloaded config_ops config_laws utf round ns q none
                  ∙ ap (Option.map reloaded)
                      (last_entry-iterate config_ops config_laws utf round was.configs q tree)
                  ∙ sym (found q));
        },
        found,
        refl,
        refl,
      )
