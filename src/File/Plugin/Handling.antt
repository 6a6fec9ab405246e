-- ===== src/File/Plugin/Handling.antt =====
-- What a request does (agent/plugin/file/file_plugin.c: monitor_handler).
use yella.Prelude.{ℕ, ◌≡◌, refl, ap, ◌∙◌, Bool, true, false, List, Option, none, some, Text, All}
use yella.External.{Utf8, Flatcc}
use yella.Sglib.Tree.{TreeOps, TreeLaws}
use yella.Sglib.Queue.{QueueOps, QueueLaws}
use yella.Parcel.{Parcel, uncompressed}
use yella.File.EventSource.{Spec}
use yella.File.StateDbPool.{Node}
use yella.File.Plugin.{
  Config, Job, FilePlugin, Written, are_told, frees_again, installed, install_config_node,
}
use yella.File.Plugin.Install.{has_name, AreDistinct}
use yella.File.Plugin.Books.{
  InStep, Installed, written, installed_lem, install_config_node-branches,
}
use yella.File.Plugin.Request.{
  FbRequest, process_names, lacks_includes, Handled, handled, invalid_format, fault,
  of_installation, config_of_request, process_plugin_config, request_type, is_uncompressed,
  handle_request, monitor_handler,
}
use yella.File.Plugin.Cleansing.{IsClean, cleanse_names-IsClean}

process_names-IsClean : (utf : Utf8) (ns : Option (List Text)) → All IsClean (process_names utf ns)
unfolding process_names
process_names-IsClean utf none = tt
process_names-IsClean utf (some ns) = cleanse_names-IsClean utf ns

module _ {C E T D Q : Type 0} (config_ops : TreeOps C Config) (spec_ops : TreeOps E Spec)
    (node_ops : TreeOps T (Node D)) (job_ops : QueueOps Q Job) (config_laws : TreeLaws config_ops)
    (spec_laws : TreeLaws spec_ops) (job_laws : QueueLaws job_ops) (utf : Utf8) (disk : Written)
    (garbage : ℕ) (fb : Flatcc (List ℕ) FbRequest) where
  abbrev handle : FilePlugin C E T Q → Parcel → Handled (FilePlugin C E T Q)
  handle = monitor_handler config_ops spec_ops node_ops job_ops utf disk garbage fb

  handle-plain :
      (fplg : FilePlugin C E T Q) (pcl : Parcel)
      → pcl.type ≡ request_type
      → pcl.cmp ≡ uncompressed
      → let req = fb.as_root pcl.payload in
        handle fplg pcl
        ≡ handle_request config_ops spec_ops node_ops job_ops utf disk garbage fplg pcl.sender req
            (process_plugin_config req)
  unfolding monitor_handler is_uncompressed
  handle-plain fplg pcl t c = rw (t, c) refl

  handle-installs :
      (fplg : FilePlugin C E T Q) (pcl : Parcel) (sender name : Text) (replace_all : Bool)
      → pcl.type ≡ request_type
      → pcl.cmp ≡ uncompressed
      → pcl.sender ≡ some sender
      → let req = fb.as_root pcl.payload in
        process_plugin_config req ≡ some (name, replace_all)
        → handle fplg pcl
          ≡ of_installation (
              install_config_node config_ops spec_ops node_ops job_ops utf disk garbage fplg
                (utf.from_utf8 name)
                (config_of_request utf sender req)
                (lacks_includes req.includes)
                replace_all)
  unfolding handle_request
  handle-installs fplg pcl sender name replace_all t c s e =
      handle-plain fplg pcl t c ∙ rw (s, e) refl

  -- A request, in a parcel of its type that is not compressed. Without a configuration or without its
  -- name it is refused with the format's error, and the plugin is as before. With these, it frees
  -- memory twice if the types of the configuration that it replaces, or of its own where it counts as
  -- empty, had been released for a type that is not known; it runs into a NULL text if `yella_to_utf8`
  -- does not convert every text of the configurations that there then are; and otherwise there is no
  -- error, and what is known of the configurations is as after an installation of the one that the
  -- request names, whose recipient is the parcel's sender, and whose includes and excludes are all
  -- absolute names, with single separators, none at the end but the root's; the configuration counts
  -- as empty if the request sent no includes, whatever was taken of those it sent. A configuration
  -- that is to be removed is in the capability's list.
  pub monitor_handler_lem :
      (fplg : FilePlugin C E T Q) (pcl : Parcel) (sender name : Text) (replace_all : Bool)
      → pcl.type ≡ request_type
      → pcl.cmp ≡ uncompressed
      → pcl.sender ≡ some sender
      → InStep config_ops spec_ops node_ops job_ops config_laws spec_laws job_laws fplg
      → AreDistinct fplg.names
      → let req = fb.as_root pcl.payload in
        let cfg = config_of_request utf sender req in
        let key = utf.from_utf8 name in
        let is_empty = lacks_includes req.includes in
        let next =
          installed config_ops spec_ops node_ops job_ops garbage fplg key cfg is_empty
            replace_all in
        let twice = frees_again config_ops spec_ops node_ops job_ops fplg key cfg is_empty in
        let told = are_told utf (config_ops.iterate next.configs) in
        (replace_all ≡ false → is_empty ≡ true → has_name key fplg.names ≡ true)
        → (process_plugin_config req ≡ none → handle fplg pcl ≡ invalid_format fplg)
          × (process_plugin_config req ≡ some (name, replace_all)
              → (twice ≡ true → handle fplg pcl ≡ fault)
                × (told ≡ false → handle fplg pcl ≡ fault)
                × (twice ≡ false
                    → told ≡ true
                    → (after : FilePlugin C E T Q) × (handle fplg pcl ≡ handled after)
                      × Installed config_ops spec_ops node_ops job_ops config_laws spec_laws
                          job_laws utf disk fplg after key cfg is_empty replace_all
                      × (cfg.recipient ≡ sender)
                      × All IsClean cfg.includes
                      × All IsClean cfg.excludes))
  unfolding handle_request config_of_request of_installation
  monitor_handler_lem fplg pcl sender name replace_all t c s step d there =
      let req = fb.as_root pcl.payload in
      let cfg = config_of_request utf sender req in
      let key = utf.from_utf8 name in
      let is_empty = lacks_includes req.includes in
      let next =
        installed config_ops spec_ops node_ops job_ops garbage fplg key cfg is_empty replace_all in
      let after =
        written config_ops spec_ops node_ops job_ops config_laws spec_laws job_laws utf disk fplg
          next in
      let (again, untold, done) =
        install_config_node-branches config_ops spec_ops node_ops job_ops config_laws spec_laws
          job_laws utf disk garbage fplg key cfg is_empty replace_all in
      let by = handle-installs fplg pcl sender name replace_all t c s in
      (
        λ e. handle-plain fplg pcl t c ∙ rw (s, e) refl,
        λ e. (
          λ f. by e ∙ ap of_installation (again f),
          λ f. by e ∙ ap of_installation (untold f),
          λ f g. (
            after,
            by e ∙ ap of_installation (done f g),
            installed_lem config_ops spec_ops node_ops job_ops config_laws spec_laws job_laws utf
                disk garbage fplg key cfg is_empty replace_all step d there,
            refl,
            process_names-IsClean utf req.includes,
            process_names-IsClean utf req.excludes,
          ),
        ),
      )
