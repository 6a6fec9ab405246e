-- ===== src/Agent/Start.antt =====
-- The start of an agent (agent/agent/agent.c: yella_create_agent, maybe_wait_for_router), behind the
-- retrieval of its settings.
use yella.Prelude.{
  ℕ, Bool, true, not, ◌&&◌, List, [], ◌∷◌, Option, none, some, ltb, if◌then◌else◌, Text,
}
use mathlib.Core.Option
use yella.External.{Flatcc}
use yella.Sglib.Tree.{TreeOps}
use yella.Spool.State.{Spool}
use yella.SavedState.{
  Octets, SavedState, FbSavedState, StateFile, load_saved_state, save_saved_state,
}
use yella.Router.{
  RouterState, connected, state_eq, Router, create_router, set_state,
  set_router_message_received_callback,
}
use yella.Agent.{Handler, SharedObject, Agent, load_plugins}

-- A look at the connection: the state that it then has, and the time.
pub record Look : Type 0 where
  pub state : RouterState
  pub now : ℕ

-- What a start meets: whether the directories are there or made, a new UUID, the host's addresses,
-- whether the file of the saved state opens and is written whole, whether the settings name a router,
-- what `create_spool` returns, until when to wait, the looks, and the files of the plugins' directory.
pub record Host : Type 0 where
  pub data_dir_made : Bool
  pub plugin_dir_made : Bool
  pub uuid : Octets
  pub addrs : List Octets
  pub opens : Bool
  pub written : Bool
  pub router_named : Bool
  pub spool : Option Spool
  pub stop : ℕ
  pub looks : List Look
  pub files : List (Option SharedObject)

-- `maybe_wait_for_router`: it ends with the first look at a connection, or at or behind the time to
-- stop, at the latest with the last one.
unfoldable pub maybe_wait_for_router : ℕ → Router → List Look → Router
maybe_wait_for_router stop r [] = r
maybe_wait_for_router stop r (look ∷ looks) =
    let r' = set_state r look.state in
    let rest = maybe_wait_for_router stop r' looks in
    if not (state_eq r'.state connected) && ltb look.now stop then rest else r'

-- `id_text` is the text of a UUID.
module _ {H S : Type 0} (handlers : TreeOps H Handler) (senders : TreeOps S (Option ℕ))
    (id_text : Octets → Text) where
  -- `yella_create_agent` behind the creation of the router
  unfoldable pub start_plugins : SavedState → Host → Spool → Agent H S
  start_plugins ss host sp =
      let ag =
        load_plugins handlers senders
          (record {
            id = id_text ss.id;
            boot_count = ss.boot_count;
            plugins = [];
            in_handlers = handlers.empty;
            rtr = maybe_wait_for_router host.stop (create_router sp) host.looks;
            plugin_senders = senders.empty;
            closed = [];
            handled = [];
            created = 0;
          })
          host.files in
      record ag { rtr = set_router_message_received_callback ag.rtr true }

  -- The agent that is made of a saved state; none without a router's name or without a spool.
  unfoldable pub start_router : SavedState → Host → Option (Agent H S)
  start_router ss host =
      if host.router_named then Option.map (start_plugins ss host) host.spool else none

  module _ {B : Type 0} (fb : Flatcc B FbSavedState) (has_identifier : B → Bool) where
    unfoldable pub start_loaded :
        Host → Option (SavedState × StateFile B) → Option (Option (Agent H S) × StateFile B)
    start_loaded host none = none
    start_loaded host (some (ss, file)) = some (
      start_router ss host,
      (save_saved_state fb has_identifier ss host.opens host.written file).1,
    )

    -- `yella_create_agent`: the agent, NULL as `none`, and the file of the saved state. That there is
    -- no result is that the fuel of the comparison of addresses ran out.
    unfoldable pub create_agent : ℕ → Host → StateFile B → Option (Option (Agent H S) × StateFile B)
    create_agent fuel host file =
        let started =
          start_loaded host (load_saved_state fb has_identifier host.uuid host.addrs fuel file) in
        if host.data_dir_made && host.plugin_dir_made then started else some (none, file)
