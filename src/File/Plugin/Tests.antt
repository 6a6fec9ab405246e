-- ===== src/File/Plugin/Tests.antt =====
-- The plugin's theorem at a concrete input, with lists for the trees and the queue.
use mathlib.Core.Option
use yella.Prelude.{
  ◌≡◌, All, arith, ℕ, ◌∙◌, ap, if◌then◌else◌, refl, true, false, List, [], ◌∷◌, none, some, Text,
  codes, text_eq,
}
use yella.Sglib.Samples.{tree_ops, tree_laws, two-IsTree, list_ops, list_laws}
use yella.File.EventSource.{Spec}
use yella.File.JobQueue.{create_job_queue}
use yella.File.StateDbPool.{Node, create_state_db_pool}
use yella.External.{Utf8, Flatcc, fits, yella_to_utf8, is_converted, all_converted}
use yella.FilePath.{remove_seps, remove_duplicate_dir_seps}
use yella.Parcel.{Parcel, uncompressed}
use yella.File.Attribute.Types.{sha256}
use yella.File.Plugin.{absent, all_written, Config, Job, FilePlugin, spec_of}
use yella.File.Plugin.{are_told, configs_file, frees_again, installed, is_told, save_configs}
use yella.File.Plugin.Request.{
  FbRequest, is_file_name_absolute, cut_last_sep, is_empty_text, cleanse_file_name, lacks_includes,
  handled, invalid_format, fault, config_of_request, process_plugin_config, request_type,
  monitor_handler,
}
use yella.File.Plugin.Cleansing.{IsClean, cleanse_file_name_lem}
use yella.File.Plugin.Handling.{monitor_handler_lem}
use yella.File.Plugin.Saved.{load_configs}
use yella.File.Plugin.Reloading.{reloaded}
use yella.File.Plugin.Restart.{load-save_configs}
use yella.File.Plugin.Books.{map_if, InStep, Installed}

abbrev ascii : Utf8
ascii = record { to_utf8 = λ t. t; from_utf8 = λ t. t }

abbrev config : Text → Config
config pattern = record {
  recipient = codes "me";
  includes = pattern ∷ [];
  excludes = [];
  attr_types = sha256 ∷ [];
  released = false;
}

abbrev plugin :
    FilePlugin (List (Text × Config)) (List (Text × Spec)) (List (Text × Node ℕ)) (List Job)
plugin = record {
  names = codes "etc" ∷ codes "var" ∷ [];
  configs = (codes "etc", config (codes "/e")) ∷ (codes "var", config (codes "/v")) ∷ [];
  specs =
      (codes "etc", spec_of (config (codes "/e")))
      ∷ (codes "var", spec_of (config (codes "/v")))
      ∷ [];
  db_pool = create_state_db_pool (tree_ops {V = Node ℕ});
  jq = create_job_queue list_ops;
  file = absent;
}

plugin-InStep :
    InStep tree_ops tree_ops (tree_ops {V = Node ℕ}) list_ops tree_laws tree_laws list_laws plugin
unfolding tree_ops
plugin-InStep = record {
  config_tree =
      two-IsTree (codes "etc") (codes "var") (config (codes "/e")) (config (codes "/v")) refl;
  spec_tree =
      two-IsTree (codes "etc") (codes "var") (spec_of (config (codes "/e")))
        (spec_of (config (codes "/v"))) refl;
  agree = λ q.
      ap (λ o. if text_eq q (codes "etc") then some (spec_of (config (codes "/e"))) else o)
        (map_if (text_eq q (codes "var")) (some (config (codes "/v"))) none)
      ∙ map_if (text_eq q (codes "etc")) (some (config (codes "/e"))) _;
}

cleanse_file_name_lem_example :
    (is_file_name_absolute (codes "/a//b/") ≡ true
      → (fname : Text) × (cleanse_file_name (codes "/a//b/") ≡ some fname) × IsClean fname)
    × (is_file_name_absolute (codes "/a//b/") ≡ false → cleanse_file_name (codes "/a//b/") ≡ none)
    × (IsClean (codes "/a//b/") → cleanse_file_name (codes "/a//b/") ≡ some (codes "/a//b/"))
cleanse_file_name_lem_example = cleanse_file_name_lem (codes "/a//b/")

cleanse_root : cleanse_file_name (codes "//") ≡ some (codes "/")
unfolding cleanse_file_name cut_last_sep is_empty_text is_file_name_absolute
    remove_duplicate_dir_seps remove_seps
cleanse_root = refl

-- A request for two files, one of them not absolute.
abbrev request : FbRequest
request = record {
  config = some (record { action = 1; name = some (codes "new") });
  includes = some (codes "/x//y/" ∷ codes "z" ∷ []);
  excludes = none;
  attr_types = some (2 ∷ 6 ∷ []);
}

abbrev requests : Flatcc (List ℕ) FbRequest
requests = record { finalize = λ r. []; as_root = λ bytes. request }

abbrev parcel : Parcel
parcel = record {
  time = 0;
  sender = some (codes "me");
  recipient = some (codes "agent");
  type = request_type;
  cmp = uncompressed;
  seq = record { major = 1; minor = 1 };
  grp = none;
  payload = [];
}

abbrev requested : Config
requested = config_of_request ascii (codes "me") request

monitor_handler_lem_example :
    let handle =
      monitor_handler tree_ops tree_ops
        (tree_ops {V = Node ℕ})
        list_ops
        ascii
        all_written
        0
        requests in
    let is_empty = lacks_includes request.includes in
    let next =
      installed tree_ops tree_ops
        (tree_ops {V = Node ℕ})
        list_ops
        0
        plugin
        (codes "new")
        requested
        is_empty
        false in
    let twice =
      frees_again tree_ops tree_ops
        (tree_ops {V = Node ℕ})
        list_ops
        plugin
        (codes "new")
        requested
        is_empty in
    let told = are_told ascii (tree_ops.iterate next.configs) in
    (process_plugin_config request ≡ none → handle plugin parcel ≡ invalid_format plugin)
    × (process_plugin_config request ≡ some (codes "new", false)
        → (twice ≡ true → handle plugin parcel ≡ fault)
          × (told ≡ false → handle plugin parcel ≡ fault)
          × (twice ≡ false
              → told ≡ true
              → (after : FilePlugin
                  (List (Text × Config))
                  (List (Text × Spec))
                  (List (Text × Node ℕ))
                  (List Job))
                × (handle plugin parcel ≡ handled after)
                × Installed tree_ops tree_ops
                    (tree_ops {V = Node ℕ})
                    list_ops
                    tree_laws
                    tree_laws
                    list_laws
                    ascii
                    all_written
                    plugin
                    after
                    (codes "new")
                    requested
                    is_empty
                    false
                × (requested.recipient ≡ codes "me")
                × All IsClean requested.includes
                × All IsClean requested.excludes))
unfolding lacks_includes
monitor_handler_lem_example =
    monitor_handler_lem tree_ops tree_ops (tree_ops {V = Node ℕ}) list_ops tree_laws tree_laws
      list_laws ascii all_written 0 requests plugin parcel (codes "me") (codes "new") false refl
      refl refl plugin-InStep (refl, (refl, tt)) (λ e f. absurd (ground arith))

-- A plugin that starts on the file of `plugin`.
abbrev fresh :
    FilePlugin (List (Text × Config)) (List (Text × Spec)) (List (Text × Node ℕ)) (List Job)
fresh = record plugin {
  names = [];
  configs = [];
  specs = [];
  file = configs_file ascii all_written plugin.configs absent;
}

load-save_configs_example :
    (after : FilePlugin
      (List (Text × Config))
      (List (Text × Spec))
      (List (Text × Node ℕ))
      (List Job))
    × (load_configs tree_ops tree_ops ascii fresh ≡ some after)
    × InStep tree_ops tree_ops (tree_ops {V = Node ℕ}) list_ops tree_laws tree_laws list_laws after
    × ((q : Text)
        → tree_ops.find after.configs q ≡ Option.map reloaded (tree_ops.find plugin.configs q))
    × (after.names ≡ [])
    × (after.jq ≡ plugin.jq)
unfolding tree_ops save_configs are_told is_told all_converted is_converted yella_to_utf8 fits
load-save_configs_example =
    load-save_configs tree_ops tree_ops (tree_ops {V = Node ℕ}) list_ops tree_laws tree_laws
      list_laws ascii (λ t h. refl) plugin fresh plugin-InStep.config_tree refl refl refl
