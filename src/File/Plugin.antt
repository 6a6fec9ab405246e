-- ===== src/File/Plugin.antt =====
-- The configurations of the file plugin (agent/plugin/file/file_plugin.c).
use yella.Prelude.{
  ℕ, suc, ◌+◌, Bool, true, false, List, [], ◌∷◌, ◌++◌, Option, none, some, leb, ◌==◌, if◌then◌else◌,
  ◌&&◌, ◌||◌, length, erase_at, map, Text, text_eq,
}
use mathlib.Core.Option
use yella.External.{Utf8, all_converted}
use yella.File.Attribute.Types.{AttributeType, attribute_type_to_fb}
use yella.Sglib.Tree.{TreeOps}
use yella.Sglib.Member.{delete_if_member}
use yella.Sglib.Queue.{QueueOps}
use yella.File.EventSource.{Spec, add_or_replace_event_source_specs, remove_event_source_spec}
use yella.File.JobQueue.{JobQueue, push_job_queue, set_job_queue_empty_callback}
use yella.File.StateDbPool.{Pool, Node, remove_state_db_from_pool}
pub mod Install
pub mod Books
pub mod Request
pub mod Cleansing
pub mod Handling
pub mod Saved
pub mod Reloading
pub mod Restart
mod Tests

-- `config_node` but for its name, the key, and the links; `released` says that `attr_types` points to
-- memory that was released.
pub record Config : Type 0 where
  pub recipient : Text
  pub includes : List Text
  pub excludes : List Text
  pub attr_types : List AttributeType
  pub released : Bool

-- `struct job`
pub record Job : Type 0 where
  pub config_name : Text
  pub recipient : Text
  pub includes : List Text
  pub excludes : List Text
  pub attr_types : List AttributeType

-- A configuration in the file of configurations (agent/plugin/file/serialization/private/file_config.fbs):
-- every field is added.
pub record FbConfig : Type 0 where
  pub name : Text
  pub recipient : Text
  pub includes : List Text
  pub excludes : List Text
  pub attribute_types : List ℕ

-- The file configs.flatb: that there is none, that it cannot be read, that it has not the identifier,
-- that it was not written whole, or its configurations.
pub data ConfigsFile : Type 0 where
  absent unreadable unidentified cut_short : ConfigsFile
  configs_of : List FbConfig → ConfigsFile

-- What `fopen` and `fwrite` come to: no stream, a short write, or all.
pub data Written : Type 0 where
  not_opened part_written all_written : Written

-- `struct file_plugin` with its file; `names` is the capability's list of configurations.
pub record FilePlugin (C E T Q : Type 0) : Type 0 where
  pub names : List Text
  pub configs : C
  pub specs : E
  pub db_pool : Pool T
  pub jq : JobQueue Q Job
  pub file : ConfigsFile

-- The loop over the capability's names: where it stops.
unfoldable pub index_of : Text → List Text → ℕ
index_of name [] = 0
index_of name (n ∷ ns) = let rest = index_of name ns in if text_eq n name then 0 else suc rest

-- The names after an installation. Where the loop does not find the name that is to be erased, the
-- index is indeterminate, an argument.
unfoldable pub install_name : ℕ → List Text → Text → Bool → List Text
install_name garbage names name true =
    if index_of name names == length names
    then erase_at names garbage
    else erase_at names (index_of name names)
install_name garbage names name false =
    if index_of name names == length names then names ++ name ∷ [] else names

abbrev pub spec_of : Config → Spec
spec_of cfg = record { includes = cfg.includes; excludes = cfg.excludes }

abbrev pub job_of : Text → Config → Job
job_of name cfg = record {
  config_name = name;
  recipient = cfg.recipient;
  includes = cfg.includes;
  excludes = cfg.excludes;
  attr_types = cfg.attr_types;
}

abbrev pub config_to_fb : Utf8 → Text × Config → FbConfig
config_to_fb utf (name, cfg) = record {
  name = utf.to_utf8 name;
  recipient = utf.to_utf8 cfg.recipient;
  includes = map utf.to_utf8 cfg.includes;
  excludes = map utf.to_utf8 cfg.excludes;
  attribute_types = map attribute_type_to_fb cfg.attr_types;
}

-- What the file has after the buffer of the configurations is written over it.
unfoldable pub configs_file : Utf8 → Written → List (Text × Config) → ConfigsFile → ConfigsFile
configs_file utf not_opened cfgs file = file
configs_file utf part_written cfgs file = cut_short
configs_file utf all_written cfgs file = configs_of (map (config_to_fb utf) cfgs)

-- Whether `yella_to_utf8` converts every text of a configuration, and of all.
unfoldable pub is_told : Utf8 → Text × Config → Bool
is_told utf (name, cfg) =
    all_converted utf (name ∷ cfg.recipient ∷ [])
    && (all_converted utf cfg.includes && all_converted utf cfg.excludes)

unfoldable pub are_told : Utf8 → List (Text × Config) → Bool
are_told utf [] = true
are_told utf (n ∷ ns) = is_told utf n && are_told utf ns

-- `save_configs` of the configurations in the order of the tree, over the file that was there; `none`
-- is `create_str` of a text that was not converted.
unfoldable pub save_configs :
    Utf8 → Written → List (Text × Config) → ConfigsFile → Option ConfigsFile
save_configs utf disk cfgs file =
    if are_told utf cfgs then some (configs_file utf disk cfgs file) else none

module _ {C E T D Q : Type 0} (config_ops : TreeOps C Config) (spec_ops : TreeOps E Spec)
    (node_ops : TreeOps T (Node D)) (job_ops : QueueOps Q Job) where
  -- Whether an installation destroys a configuration whose `attr_types` were released before: the one
  -- that it replaces or, where it is to be removed, the one that it was given.
  unfoldable pub frees_again : FilePlugin C E T Q → Text → Config → Bool → Bool
  frees_again fplg name cfg is_empty =
      elim (config_ops.find fplg.configs name) [
        | none ↦ false
        | some removed_cfg ↦ removed_cfg.released
      ]
      || (is_empty && cfg.released)

  -- The plugin before `save_configs`.
  unfoldable pub installed :
      ℕ → FilePlugin C E T Q → Text → Config → Bool → Bool → FilePlugin C E T Q
  installed garbage fplg name cfg is_empty replace_all =
      let names = install_name garbage (if replace_all then [] else fplg.names) name is_empty in
      let configs = delete_if_member config_ops fplg.configs name in
      if is_empty
      then record fplg {
        names = names;
        configs = configs;
        specs = remove_event_source_spec spec_ops fplg.specs name;
        db_pool = remove_state_db_from_pool node_ops fplg.db_pool name;
      }
      else record fplg {
        names = names;
        configs = config_ops.add configs name cfg;
        jq = (push_job_queue job_ops fplg.jq (job_of name cfg)).1;
        specs = add_or_replace_event_source_specs spec_ops fplg.specs ((name, spec_of cfg) ∷ []);
      }

  unfoldable pub with_saved : Utf8 → Written → FilePlugin C E T Q → Option (FilePlugin C E T Q)
  with_saved utf disk fplg =
      Option.map (λ file. record fplg { file = file })
        (save_configs utf disk (config_ops.iterate fplg.configs) fplg.file)

  -- `install_config_node`; `none` is a double free, or a text that is not converted.
  unfoldable pub install_config_node :
      Utf8
      → Written
      → ℕ
      → FilePlugin C E T Q
      → Text
      → Config
      → Bool
      → Bool
      → Option (FilePlugin C E T Q)
  install_config_node utf disk garbage fplg name cfg is_empty replace_all =
      if frees_again fplg name cfg is_empty
      then none
      else with_saved utf disk (installed garbage fplg name cfg is_empty replace_all)

  -- The job of an event: the configuration's, with the file's name as its include.
  abbrev pub event_job : Text → Text → Config → Job
  event_job config_name fname found = record (job_of config_name found) {
    includes = fname ∷ [];
    excludes = [];
  }

  abbrev full_queue : JobQueue Q Job → ℕ → ℕ → JobQueue Q Job
  full_queue jq job_count max_jobs =
      if leb max_jobs job_count then set_job_queue_empty_callback job_ops jq else jq

  -- `event_received`, where `max_jobs` is the setting max-queued-jobs
  unfoldable pub event_received : FilePlugin C E T Q → ℕ → Text → Text → FilePlugin C E T Q
  event_received fplg max_jobs config_name fname = elim (config_ops.find fplg.configs config_name) [
    | none ↦ fplg
    | some found ↦
        (let (job_count, jq) = push_job_queue job_ops fplg.jq (event_job config_name fname found) in
          record fplg { jq = full_queue jq job_count max_jobs })
  ]
