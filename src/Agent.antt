-- ===== src/Agent.antt =====
-- The agent: its plugins, the messages that it hands to them and those that they send
-- (agent/agent/agent.c).
use yella.Prelude.{
  ℕ, ◌+◌, Bool, true, false, not, ◌&&◌, List, [], ◌∷◌, ◌++◌, Option, none, some, if◌then◌else◌,
  Text,
}
use yella.External.{Utf8, Flatcc}
use yella.Sglib.Tree.{TreeOps}
use yella.Spool.Event.{Bytes}
use yella.Spool.State.{Stdio}
use yella.Parcel.{Parcel, FbParcel, Unpacked, unpacked, pack_parcel, unpack_parcel}
use yella.Plugin.{InCap, Plugin}
use yella.Router.{Router, Sends, send_router_message}
pub mod Loading
pub mod Dispatch
pub mod Sending
pub mod Start
pub mod Restarts
mod Tests

-- `in_handler` but for its key and the links
pub record Handler : Type 0 where
  pub func : ℕ
  pub udata : ℕ

-- `plugin_api`; the functions are those of the shared object.
pub record PluginApi : Type 0 where
  pub name : Text
  pub shared_object : ℕ
  pub udata : ℕ

-- A file of the plugins' directory that opens as a shared object: what the function `plugin_start`
-- returns, if there is one, and whether the other functions are there.
pub record SharedObject : Type 0 where
  pub handle : ℕ
  pub start : Option (Option Plugin)
  pub has_status : Bool
  pub has_stop : Bool

-- `yella_agent` with the saved state's fields. `closed` are the shared objects that were closed,
-- `handled` the calls of handlers, and `created` counts the senders; a sender is its number.
pub record Agent (H S : Type 0) : Type 0 where
  pub id : Text
  pub boot_count : ℕ
  pub plugins : List PluginApi
  pub in_handlers : H
  pub rtr : Router
  pub plugin_senders : S
  pub closed : List ℕ
  pub handled : List (Handler × Parcel)
  pub created : ℕ

abbrev pub handler_of : InCap → Handler
handler_of cap = record { func = cap.handler; udata = cap.udata }

abbrev pub api_of : SharedObject → Plugin → PluginApi
api_of so plugin = record { name = plugin.name; shared_object = so.handle; udata = plugin.udata }

module _ {H S : Type 0} (handlers : TreeOps H Handler) (senders : TreeOps S (Option ℕ)) where
  -- The loop of `load_plugins` over a plugin's capabilities.
  unfoldable pub set_handler : H → Text → Handler → H
  set_handler h name hndlr = elim (handlers.find h name) [
    | none ↦ handlers.add h name hndlr
    | some found ↦ handlers.set h name hndlr
  ]

  unfoldable pub set_handlers : H → List InCap → H
  set_handlers h [] = h
  set_handlers h (cap ∷ caps) = set_handlers (set_handler h cap.name (handler_of cap)) caps

  unfoldable pub close_shared_object : Agent H S → SharedObject → Agent H S
  close_shared_object ag so = record ag { closed = ag.closed ++ so.handle ∷ [] }

  -- `load_plugins` behind the opening of a file, by what `plugin_start` came to
  unfoldable pub load_started : Agent H S → SharedObject → Option (Option Plugin) → Agent H S
  load_started ag so none = close_shared_object ag so
  load_started ag so (some none) = close_shared_object ag so
  load_started ag so (some (some plugin)) =
      if so.has_status && so.has_stop
      then record ag {
        plugins = ag.plugins ++ api_of so plugin ∷ [];
        in_handlers = set_handlers ag.in_handlers plugin.in_caps;
      }
      else close_shared_object ag so

  -- `load_plugins`, for each file what `open_shared_object` returns
  unfoldable pub load_plugins : Agent H S → List (Option SharedObject) → Agent H S
  load_plugins ag [] = ag
  load_plugins ag (none ∷ files) = load_plugins ag files
  load_plugins ag (some so ∷ files) = load_plugins (load_started ag so so.start) files

  -- The call of a handler; what it returns is only logged.
  unfoldable pub call_handler : Agent H S → Parcel → Option Handler → Agent H S
  call_handler ag pcl none = ag
  call_handler ag pcl (some hndlr) = record ag { handled = ag.handled ++ (hndlr, pcl) ∷ [] }

  -- `message_received` behind the unpacking; `none` is the use of a NULL parcel or text.
  unfoldable pub handle_unpacked : Agent H S → Unpacked → Option (Agent H S)
  handle_unpacked ag (unpacked pcl) =
      some (call_handler ag pcl (handlers.find ag.in_handlers pcl.type))
  handle_unpacked ag _ = none

  -- The sender of a thread, made if it was not there; `made` is whether `create_sender` makes one, and
  -- NULL is kept as `none`.
  unfoldable pub sender_of_thread : Agent H S → Bool → Text → Option ℕ × Agent H S
  sender_of_thread ag made thread = elim (senders.find ag.plugin_senders thread) [
    | some sndr ↦ (sndr, ag)
    | none ↦
        (let sndr = if made then some ag.created else none in
          (
            sndr,
            record ag {
              plugin_senders = senders.add ag.plugin_senders thread sndr;
              created = ag.created + 1;
            },
          ))
  ]

  -- The parcel as it is sent.
  abbrev pub stamped : Agent H S → Parcel → Parcel
  stamped ag pcl = record pcl {
    sender = some ag.id;
    seq = record pcl.seq { major = ag.boot_count };
  }

  module _ (utf : Utf8) where
    unfoldable pub message_received :
        {B : Type 0} → Flatcc B FbParcel → Agent H S → B → Option (Agent H S)
    message_received fb ag msg = handle_unpacked ag (unpack_parcel utf fb msg)

    -- `data_of` are the bytes of a buffer.
    module _ {B : Type 0} (fb : Flatcc B FbParcel) (data_of : B → Bytes) (zmq : Sends)
        (io : Stdio) where
      -- The sending of a parcel by a sender; `none` is the use of a NULL text or sender.
      unfoldable pub send_packed : Option B → Option ℕ × Agent H S → Option (Agent H S)
      send_packed (some part) (some sndr, ag) =
          some (record ag { rtr = (send_router_message zmq io ag.rtr (data_of part ∷ [])).1 })
      send_packed _ _ = none

      -- `send_plugin_message`, called by a thread; whether the message was sent is not looked at.
      unfoldable pub send_plugin_message : Agent H S → Bool → Text → Parcel → Option (Agent H S)
      send_plugin_message ag made thread pcl =
          send_packed (pack_parcel utf fb (stamped ag pcl)) (sender_of_thread ag made thread)
