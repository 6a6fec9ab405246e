-- ===== src/Agent/Tests.antt =====
-- The agent's theorems at concrete inputs: buffers that are tables, texts in ASCII, lists for trees.
use yella.Prelude.{
  ℕ, ◌+◌, ◌≡◌, refl, arith, Bool, true, false, List, [], ◌∷◌, ◌++◌, Option, none, some, Text, codes,
}
use yella.External.{Utf8, Flatcc, fits, yella_to_utf8, is_converted, all_converted}
use yella.Sglib.Samples.{tree_ops, tree_laws}
use yella.Spool.Event.{Bytes, encode_event, encode_parts, encode_part, bytes_of, part_size}
use yella.Spool.State.{crash}
use yella.Spool.Life.{spool_empty_of_messages}
use yella.Spool.Fifo.{quiet}
use yella.Spool.Samples.{sound, sound-IsHealthy, idle, idle-Holds}
use yella.Plugin.{InCap, Plugin}
use yella.Parcel.{uncompressed, Parcel, FbParcel, texts_of, text_or_none, unpack_parcel}
use yella.Parcel.RoundTrip.{arrived}
use yella.Router.{Router, Sends, connected, state_eq, set_state, create_router, spool_round}
use yella.Router.Framing.{framed}
use yella.Agent.{Handler, Agent, SharedObject, load_plugins, sender_of_thread, send_plugin_message}
use yella.Agent.Loading.{Loaded, load_plugins_lem}
use yella.SavedState.{FbSavedState, StateFile, no_file}
use yella.Agent.Start.{Host}
use yella.Agent.Restarts.{CanStart, starts, Numbered, starts_lem}
use yella.Agent.Sending.{from_agent, send_plugin_message_lem, spooled_message_aborts}

abbrev ascii : Utf8
ascii = record { to_utf8 = λ t. t; from_utf8 = λ t. t }

abbrev tables : Flatcc FbParcel FbParcel
tables = record { finalize = λ t. t; as_root = λ t. t }

abbrev taking : Sends
taking c n = some n

-- The payload as the buffer's bytes.
abbrev data_of : FbParcel → Bytes
data_of tbl = 7 ∷ 8 ∷ []

abbrev agent : Router → Agent (List (Text × Handler)) (List (Text × Option ℕ))
agent rtr = record {
  id = codes "id";
  boot_count = 4;
  plugins = [];
  in_handlers = [];
  rtr = rtr;
  plugin_senders = [];
  closed = [];
  handled = [];
  created = 0;
}

abbrev cap : ℕ → InCap
cap func = record {
  name = codes "file.monitor_request";
  version = 1;
  handler = func;
  udata = func + 100;
  configs = [];
}

abbrev plugin : ℕ → Plugin
plugin func = record {
  name = codes "file";
  version = codes "1";
  in_caps = cap func ∷ [];
  out_caps = [];
  udata = 0;
}

-- A plugin, a file that is none, another plugin, and one that has no function plugin_stop.
abbrev files : List (Option SharedObject)
files =
    some
      (record { handle = 1; start = some (some (plugin 11)); has_status = true; has_stop = true })
    ∷ none
    ∷ some
        (record { handle = 2; start = some (some (plugin 12)); has_status = true; has_stop = true })
    ∷ some (record {
      handle = 3;
      start = some (some (plugin 13));
      has_status = true;
      has_stop = false;
    })
    ∷ []

abbrev parcel : Parcel
parcel = record {
  time = 5000;
  sender = some (codes "router");
  recipient = some (codes "id");
  type = codes "file.monitor_request";
  cmp = uncompressed;
  seq = record { major = 3; minor = 7 };
  grp = none;
  payload = 1 ∷ 2 ∷ [];
}

load_plugins_lem_example :
    Loaded tree_ops
      (tree_ops {V = Option ℕ})
      tree_laws
      (agent (create_router idle))
      (load_plugins tree_ops (tree_ops {V = Option ℕ}) (agent (create_router idle)) files)
      files
unfolding tree_ops
load_plugins_lem_example =
    load_plugins_lem tree_ops (tree_ops {V = Option ℕ}) tree_laws files (agent (create_router idle))
      tree_laws.empty-IsTree

send_plugin_message_lem_example :
    let ag = agent (set_state (create_router idle) connected) in
    (part : FbParcel) × (ag' : Agent (List (Text × Handler)) (List (Text × Option ℕ)))
    × (send_plugin_message tree_ops
          (tree_ops {V = Option ℕ})
          ascii
          tables
          data_of
          taking
          sound
          ag
          true
          (codes "t")
          parcel
        ≡ some ag')
    × (unpack_parcel ascii tables part
        ≡ arrived (from_agent ag.id ag.boot_count parcel) (some (codes "id")))
    × (ag'.rtr.outgoing ≡ ag.rtr.outgoing ++ framed (data_of part ∷ []))
unfolding tree_ops create_router set_state state_eq spool_empty_of_messages all_converted
    is_converted yella_to_utf8 fits texts_of text_or_none sender_of_thread
send_plugin_message_lem_example =
    send_plugin_message_lem tree_ops (tree_ops {V = Option ℕ}) ascii tables data_of taking sound
      (λ t h. refl) (λ t. refl) (λ c n. refl) (agent (set_state (create_router idle) connected))
      true (codes "t") parcel 0 (omega arith) refl refl refl

spooled_message_aborts_example :
    (ag' : Agent (List (Text × Handler)) (List (Text × Option ℕ))) × (send_plugin_message tree_ops
        (tree_ops {V = Option ℕ})
        ascii
        tables
        data_of
        taking
        sound
        (agent (create_router idle))
        true
        (codes "t")
        parcel
      ≡ some ag')
    × (let (rc, r) = spool_round taking sound 1 quiet true (set_state ag'.rtr connected) in
        (rc ≡ crash) × (r.outgoing ≡ []))
unfolding tree_ops create_router state_eq encode_event encode_parts encode_part bytes_of part_size
    all_converted is_converted yella_to_utf8 fits texts_of text_or_none sender_of_thread
spooled_message_aborts_example =
    spooled_message_aborts tree_ops (tree_ops {V = Option ℕ}) ascii tables data_of taking sound
      sound-IsHealthy (agent (create_router idle)) true (codes "t") parcel 0 82 refl refl
      (((omega arith, omega arith), omega arith)) idle-Holds (omega arith) refl refl

-- A host that names a router, or does not.
abbrev host : Bool → Host
host named = record {
  data_dir_made = true;
  plugin_dir_made = true;
  uuid = 9 ∷ [];
  addrs = (10 ∷ []) ∷ (20 ∷ []) ∷ [];
  opens = true;
  written = true;
  router_named = named;
  spool = some idle;
  stop = 2;
  looks = record { state = connected; now = 1 } ∷ [];
  files = files;
}

host-CanStart : (named : Bool) → CanStart (10 ∷ []) (host named)
host-CanStart named = record {
  data_dir = refl;
  plugin_dir = refl;
  addresses = ((20 ∷ []) ∷ [], refl);
  opens = refl;
  written = refl;
}

abbrev states : Flatcc FbSavedState FbSavedState
states = record { finalize = λ t. t; as_root = λ t. t }

starts_lem_example :
    (ags : List (Option (Agent (List (Text × Handler)) (List (Text × Option ℕ)))))
    × (last : StateFile FbSavedState) × (starts tree_ops tree_ops
          (λ t. t)
          states
          (λ t. true)
          3
          (host true ∷ host false ∷ host true ∷ [])
          no_file
        ≡ some (ags, last))
    × Numbered {B = FbSavedState} tree_ops tree_ops
        (λ t. t)
        states
        (λ t. true)
        (9 ∷ [])
        1
        (host true ∷ host false ∷ host true ∷ [])
        ags
starts_lem_example =
    starts_lem tree_ops tree_ops (λ t. t) states (λ t. true) tree_laws (λ t. refl) (λ t. refl) 2
      (10 ∷ []) (host true) (host false ∷ host true ∷ [])
      (host-CanStart true, (host-CanStart false, (host-CanStart true, tt))) (omega arith)
