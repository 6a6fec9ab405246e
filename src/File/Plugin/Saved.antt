-- ===== src/File/Plugin/Saved.antt =====
-- The loading of the configurations that were saved (agent/plugin/file/file_plugin.c: load_configs).
use yella.Prelude.{List, [], ◌∷◌, Option, none, some, map, Text, false}
use yella.External.{Utf8}
use yella.Sglib.Tree.{TreeOps}
use yella.File.Attribute.Types.{AttributeType}
use yella.File.EventSource.{Spec, add_or_replace_event_source_specs}
use yella.File.Plugin.{
  Config, FbConfig, ConfigsFile, absent, unreadable, unidentified, cut_short, configs_of,
  FilePlugin, spec_of,
}
use yella.File.Plugin.Request.{known_types}

-- The node that is made of a configuration with these types.
abbrev pub node_of : Utf8 → FbConfig → List AttributeType → Text × Config
node_of utf cfg atps = (
  utf.from_utf8 cfg.name,
  record {
    recipient = utf.from_utf8 cfg.recipient;
    includes = map utf.from_utf8 cfg.includes;
    excludes = map utf.from_utf8 cfg.excludes;
    attr_types = atps;
    released = false;
  },
)

module _ {C : Type 0} (config_ops : TreeOps C Config) where
  -- The loop of `load_configs`: the configurations, and the specifications that it makes. `none` is
  -- the failed assertion of a type of attribute that is not known.
  unfoldable pub load_nodes : Utf8 → List FbConfig → C → Option (C × List (Text × Spec))
  load_nodes utf [] configs = some (configs, [])
  load_nodes utf (cfg ∷ cfgs) configs = elim (known_types cfg.attribute_types) [
    | none ↦ none
    | some atps ↦
        (let (name, cur) = node_of utf cfg atps in
          elim (load_nodes utf cfgs (config_ops.add configs name cur)) [
            | none ↦ none
            | some (loaded, especs) ↦ some (loaded, (name, spec_of cur) ∷ especs)
          ])
  ]

module _ {C E T Q : Type 0} (config_ops : TreeOps C Config) (spec_ops : TreeOps E Spec) where
  -- `load_configs`; a file that was not written whole is read as if it was, `none`.
  unfoldable pub load_file : Utf8 → FilePlugin C E T Q → ConfigsFile → Option (FilePlugin C E T Q)
  load_file utf fplg absent = some fplg
  load_file utf fplg unreadable = some fplg
  load_file utf fplg unidentified = some fplg
  load_file utf fplg cut_short = none
  load_file utf fplg (configs_of cfgs) = elim (load_nodes config_ops utf cfgs fplg.configs) [
    | none ↦ none
    | some (loaded, especs) ↦ some (record fplg {
      configs = loaded;
      specs = add_or_replace_event_source_specs spec_ops fplg.specs especs;
    })
  ]

  unfoldable pub load_configs : Utf8 → FilePlugin C E T Q → Option (FilePlugin C E T Q)
  load_configs utf fplg = load_file utf fplg fplg.file
