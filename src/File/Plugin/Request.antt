-- ===== src/File/Plugin/Request.antt =====
-- Requests for the monitoring of files (agent/plugin/file/file_plugin.c: monitor_handler and what it
-- calls; agent/plugin/file/serialization/public/file.fbs: monitor_request).
use yella.Prelude.{
  ℕ, Bool, true, false, List, [], ◌∷◌, Option, none, some, ◌==◌, if◌then◌else◌, Text, text_eq,
  codes,
}
use yella.External.{Utf8, Flatcc}
use yella.Sglib.Tree.{TreeOps}
use yella.Sglib.Queue.{QueueOps}
use yella.FilePath.{dir_sep, remove_duplicate_dir_seps}
use yella.Parcel.{Parcel, Compression, uncompressed, lz4}
use yella.File.Attribute.Types.{AttributeType, fb_to_attribute_type}
use yella.File.EventSource.{Spec}
use yella.File.StateDbPool.{Node}
use yella.File.Plugin.{Config, Job, FilePlugin, Written, install_config_node}

-- The tables `plugin.config` and `monitor_request`; what was not added is `none`.
pub record FbPluginConfig : Type 0 where
  pub action : ℕ
  pub name : Option Text

pub record FbRequest : Type 0 where
  pub config : Option FbPluginConfig
  pub includes : Option (List Text)
  pub excludes : Option (List Text)
  pub attr_types : Option (List ℕ)

-- `yella_is_file_name_absolute`
unfoldable pub is_file_name_absolute : Text → Bool
is_file_name_absolute [] = false
is_file_name_absolute (c ∷ cs) = c == dir_sep

-- The last character cut off, if it is a separator, but for a name of one: `udsrange(result, 0, -2)`
-- leaves that one.
unfoldable pub cut_last_sep : Text → Text
cut_last_sep [] = []
cut_last_sep (c ∷ []) = c ∷ []
cut_last_sep (c ∷ d ∷ []) = if d == dir_sep then c ∷ [] else c ∷ d ∷ []
cut_last_sep (c ∷ d ∷ e ∷ cs) = c ∷ cut_last_sep (d ∷ e ∷ cs)

unfoldable pub is_empty_text : Text → Bool
is_empty_text [] = true
is_empty_text (c ∷ cs) = false

-- `cleanse_file_name`, of the name in UTF-16
unfoldable pub cleanse_file_name : Text → Option Text
cleanse_file_name name =
    let result = remove_duplicate_dir_seps name in
    if is_file_name_absolute name
    then (if is_empty_text result then none else some (cut_last_sep result))
    else none

-- The loops of `process_includes_excludes`: names that cannot be cleansed are passed over.
unfoldable pub cleanse_names : Utf8 → List Text → List Text
cleanse_names utf [] = []
cleanse_names utf (n ∷ ns) = elim (cleanse_file_name (utf.from_utf8 n)) [
  | none ↦ cleanse_names utf ns
  | some fname ↦ fname ∷ cleanse_names utf ns
]

unfoldable pub process_names : Utf8 → Option (List Text) → List Text
process_names utf none = []
process_names utf (some names) = cleanse_names utf names

-- What `is_empty` says of the includes that were sent.
unfoldable pub lacks_includes : Option (List Text) → Bool
lacks_includes none = true
lacks_includes (some []) = true
lacks_includes (some (n ∷ ns)) = false

-- The loop of `process_attributes`: `none` where a value is not known.
unfoldable pub known_types : List ℕ → Option (List AttributeType)
known_types [] = some []
known_types (v ∷ vs) = elim (fb_to_attribute_type v) [
  | none ↦ none
  | some atp ↦ elim (known_types vs) [ none ↦ none | some atps ↦ some (atp ∷ atps) ]
]

-- `process_attributes`: the types, and whether `attr_types` was released and not reset.
unfoldable pub process_attributes : Option (List ℕ) → List AttributeType × Bool
process_attributes none = ([], false)
process_attributes (some values) = elim (known_types values) [
  | none ↦ ([], true)
  | some atps ↦ (atps, false)
]

-- What the handler of a request comes to: a code, or a failed assertion or the use of a NULL text.
pub data Handled (A : Type 0) : Type 0 where
  handled invalid_format : A → Handled A
  fault : Handled A

unfoldable pub of_installation : {A : Type 0} → Option A → Handled A
of_installation none = fault
of_installation (some after) = handled after

-- The configuration of a request from this sender.
unfoldable pub config_of_request : Utf8 → Text → FbRequest → Config
config_of_request utf sender req = record {
  recipient = sender;
  includes = process_names utf req.includes;
  excludes = process_names utf req.excludes;
  attr_types = (process_attributes req.attr_types).0;
  released = (process_attributes req.attr_types).1;
}

-- `process_plugin_config`: the name in UTF-8 and whether the action is to replace all.
unfoldable pub process_plugin_config : FbRequest → Option (Text × Bool)
process_plugin_config req = elim req.config [
  | none ↦ none
  | some cfg ↦ elim cfg.name [ none ↦ none | some name ↦ some (name, cfg.action == 2) ]
]

abbrev pub request_type : Text
request_type = codes "file.monitor_request"

unfoldable pub is_uncompressed : Compression → Bool
is_uncompressed uncompressed = true
is_uncompressed lz4 = false

module _ {C E T D Q : Type 0} (config_ops : TreeOps C Config) (spec_ops : TreeOps E Spec)
    (node_ops : TreeOps T (Node D)) (job_ops : QueueOps Q Job) (utf : Utf8) (disk : Written)
    (garbage : ℕ) where
  -- `monitor_handler` behind its assertions, by the parcel's sender
  unfoldable pub handle_request :
      FilePlugin C E T Q
      → Option Text
      → FbRequest
      → Option (Text × Bool)
      → Handled (FilePlugin C E T Q)
  handle_request fplg (some sender) req (some (name, replace_all)) = of_installation (
      install_config_node config_ops spec_ops node_ops job_ops utf disk garbage fplg
        (utf.from_utf8 name) (config_of_request utf sender req) (lacks_includes req.includes)
        replace_all)
  handle_request fplg none req (some (name, replace_all)) = fault
  handle_request fplg sender req none = invalid_format fplg

  -- `monitor_handler`, where the payload is a buffer of the request
  unfoldable pub monitor_handler :
      Flatcc (List ℕ) FbRequest → FilePlugin C E T Q → Parcel → Handled (FilePlugin C E T Q)
  monitor_handler fb fplg pcl =
      let req = fb.as_root pcl.payload in
      if text_eq pcl.type request_type
      then (if is_uncompressed pcl.cmp
          then handle_request fplg pcl.sender req (process_plugin_config req)
          else fault)
      else fault
