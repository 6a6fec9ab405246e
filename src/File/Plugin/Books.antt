-- ===== src/File/Plugin/Books.antt =====
-- What the parts of the file plugin know of a configuration (agent/plugin/file/file_plugin.c:
-- install_config_node, with agent/plugin/file/event_source.c and job_queue.c).
use mathlib.Core.Option
use yella.Prelude.{
  ℕ, ◌≡◌, refl, sym, ap, ◌∙◌, Bool, true, false, List, [], ◌∷◌, ◌++◌, Option, none, some,
  if◌then◌else◌, Text, text_eq, append-nil, Bool-cases, inl, inr,
}
use yella.External.{Utf8}
use yella.Sglib.Tree.{TreeOps, TreeLaws}
use yella.Sglib.Member.{deleted-IsTree, find-deleted, find_replaced}
use yella.Sglib.Queue.{QueueOps, QueueLaws}
use yella.File.EventSource.{Spec, add_or_replace_event_source_specs, remove_event_source_spec}
use yella.File.JobQueue.{push_job_queue}
use yella.File.StateDbPool.{Node}
use yella.File.Plugin.{
  configs_file, with_saved, are_told, frees_again, installed, save_configs, Written, Config, Job,
  FilePlugin, spec_of, job_of, install_name, install_config_node,
}
use yella.File.Plugin.Install.{
  has_name, AreDistinct, listed_after, install_name_lem, install_name-cleared,
}

-- The configuration of a name after an installation, and the jobs that it queues.
abbrev pub config_after : Text → Text → Config → Bool → Option Config → Option Config
config_after q name cfg is_empty before =
    if text_eq q name then (if is_empty then none else some cfg) else before

abbrev pub queued : Text → Config → Bool → List Job
queued name cfg true = []
queued name cfg false = job_of name cfg ∷ []

pub map_if :
    (b : Bool) (o p : Option Config)
    → (if b then Option.map spec_of o else Option.map spec_of p)
      ≡ Option.map spec_of (if b then o else p)
map_if true o p = refl
map_if false o p = refl

module _ {C E T D Q : Type 0} (config_ops : TreeOps C Config) (spec_ops : TreeOps E Spec)
    (node_ops : TreeOps T (Node D)) (job_ops : QueueOps Q Job) (config_laws : TreeLaws config_ops)
    (spec_laws : TreeLaws spec_ops) (job_laws : QueueLaws job_ops) where
  -- The event source has the includes and excludes of just the configurations.
  pub record InStep (fplg : FilePlugin C E T Q) : Type 0 where
    pub config_tree : config_laws.IsTree fplg.configs
    pub spec_tree : spec_laws.IsTree fplg.specs
    pub agree :
        (q : Text)
        → spec_ops.find fplg.specs q ≡ Option.map spec_of (config_ops.find fplg.configs q)

  -- From a plugin to one with a configuration installed.
  pub record Installed (utf : Utf8) (disk : Written) (before after : FilePlugin C E T Q)
      (name : Text) (cfg : Config) (is_empty replace_all : Bool) : Type 0 where
    pub in_step : InStep after
    pub configs :
        (q : Text)
        → config_ops.find after.configs q
          ≡ config_after q name cfg is_empty (config_ops.find before.configs q)
    pub names :
        (q : Text)
        → has_name q after.names
          ≡ listed_after q name is_empty (if replace_all then [] else before.names)
    pub jobs : job_ops.items after.jq.q ≡ job_ops.items before.jq.q ++ queued name cfg is_empty
    pub file : after.file ≡ configs_file utf disk (config_ops.iterate after.configs) before.file

  -- A plugin with the file that is then written over the one that was there.
  abbrev pub written : Utf8 → Written → FilePlugin C E T Q → FilePlugin C E T Q → FilePlugin C E T Q
  written utf disk before next = record next {
    file = configs_file utf disk (config_ops.iterate next.configs) before.file;
  }

  names_lem :
      (garbage : ℕ) (names : List Text) (name q : Text) (is_empty replace_all : Bool)
      → AreDistinct names
      → (replace_all ≡ false → is_empty ≡ true → has_name name names ≡ true)
      → has_name q (install_name garbage (if replace_all then [] else names) name is_empty)
        ≡ listed_after q name is_empty (if replace_all then [] else names)
  names_lem garbage names name q is_empty true d there =
      install_name-cleared garbage name q is_empty
  names_lem garbage names name q is_empty false d there =
      install_name_lem garbage names name q is_empty d (there refl)

  -- What is known of the configurations after an installation. With the action to replace all, or
  -- with a name that is listed where it is to be removed: the configuration is there as given, or gone
  -- where it is empty, and every other one is as it was; the event source has the includes and
  -- excludes of just these; one job, of the configuration, is queued behind the others, and none
  -- where it is empty. The capability's list has the configuration just so, and the other names that
  -- it had, but with the action to replace all it has no other, though the others go on. The file of
  -- configurations has those of the plugin, if it could be written.
  pub installed_lem :
      (utf : Utf8) (disk : Written) (garbage : ℕ) (fplg : FilePlugin C E T Q) (name : Text)
      (cfg : Config) (is_empty replace_all : Bool)
      → InStep fplg
      → AreDistinct fplg.names
      → (replace_all ≡ false → is_empty ≡ true → has_name name fplg.names ≡ true)
      → Installed utf disk fplg
          (written utf disk fplg (
            installed config_ops spec_ops node_ops job_ops garbage fplg name cfg is_empty
              replace_all))
          name
          cfg
          is_empty
          replace_all
  unfolding installed remove_event_source_spec add_or_replace_event_source_specs push_job_queue
  installed_lem utf disk garbage fplg name cfg true replace_all s d there =
      let configs =
        λ (q : Text). find-deleted config_ops config_laws fplg.configs name q s.config_tree in
      record {
        in_step = record {
          config_tree = deleted-IsTree config_ops config_laws fplg.configs name s.config_tree;
          spec_tree = deleted-IsTree spec_ops spec_laws fplg.specs name s.spec_tree;
          agree = λ q.
              find-deleted spec_ops spec_laws fplg.specs name q s.spec_tree
              ∙ ap (λ o. if text_eq q name then none else o) (s.agree q)
              ∙ map_if (text_eq q name) none (config_ops.find fplg.configs q)
              ∙ ap (Option.map spec_of) (sym (configs q));
        };
        configs = configs;
        names = λ q. names_lem garbage fplg.names name q true replace_all d there;
        jobs = sym (append-nil (job_ops.items fplg.jq.q));
        file = refl;
      }
  installed_lem utf disk garbage fplg name cfg false replace_all s d there =
      let configs =
        λ (q : Text). find_replaced config_ops config_laws fplg.configs name cfg q s.config_tree in
      let specs = λ (q : Text).
        find_replaced spec_ops spec_laws fplg.specs name (spec_of cfg) q s.spec_tree in
      record {
        in_step = record {
          config_tree = (configs name).0;
          spec_tree = (specs name).0;
          agree = λ q.
              (specs q).1
              ∙ ap (λ o. if text_eq q name then some (spec_of cfg) else o) (s.agree q)
              ∙ map_if (text_eq q name) (some cfg) (config_ops.find fplg.configs q)
              ∙ ap (Option.map spec_of) (sym (configs q).1);
        };
        configs = λ q. (configs q).1;
        names = λ q. names_lem garbage fplg.names name q false replace_all d there;
        jobs = job_laws.items-concat fplg.jq.q (job_of name cfg);
        file = refl;
      }

  installed-file :
      (garbage : ℕ) (fplg : FilePlugin C E T Q) (name : Text) (cfg : Config)
      (is_empty replace_all : Bool)
      → (installed config_ops spec_ops node_ops job_ops garbage fplg name cfg is_empty
          replace_all).file
        ≡ fplg.file
  unfolding installed
  installed-file garbage fplg name cfg true replace_all = refl
  installed-file garbage fplg name cfg false replace_all = refl

  -- The installation faults where it frees again or cannot save, and is as told otherwise.
  pub install_config_node-branches :
      (utf : Utf8) (disk : Written) (garbage : ℕ) (fplg : FilePlugin C E T Q) (name : Text)
      (cfg : Config) (is_empty replace_all : Bool)
      → let next =
          installed config_ops spec_ops node_ops job_ops garbage fplg name cfg is_empty
            replace_all in
        let install =
          install_config_node config_ops spec_ops node_ops job_ops utf disk garbage fplg name cfg
            is_empty replace_all in
        let twice = frees_again config_ops spec_ops node_ops job_ops fplg name cfg is_empty in
        let told = are_told utf (config_ops.iterate next.configs) in
        (twice ≡ true → install ≡ none)
        × (told ≡ false → install ≡ none)
        × (twice ≡ false → told ≡ true → install ≡ some (written utf disk fplg next))
  unfolding install_config_node with_saved save_configs
  install_config_node-branches utf disk garbage fplg name cfg is_empty replace_all =
      let same = installed-file garbage fplg name cfg is_empty replace_all in
      (
        λ t. rw t refl,
        λ c.
            elim (Bool-cases
              (frees_again config_ops spec_ops node_ops job_ops fplg name cfg is_empty)) [
                | inl t ↦ rw t refl
                | inr t ↦ rw (t, c) refl
              ],
        λ t c. rw (t, c, same) refl,
      )
