-- ===== src/Heartbeat/Tests.antt =====
-- The heartbeats' theorems at concrete inputs: buffers that are tables, texts in ASCII.
use yella.Prelude.{
  ℕ, ◌≡◌, refl, arith, true, false, none, List, [], ◌∷◌, ◌++◌, map, some, Text, codes,
}
use yella.External.{Utf8, Flatcc, fits, yella_to_utf8, is_converted, all_converted}
use yella.Spool.Event.{Bytes}
use yella.Spool.Samples.{idle}
use yella.Parcel.{FbParcel, unpack_parcel}
use yella.Plugin.{Plugin}
use yella.Router.{Router, Sends, connected, disconnected, state_eq, create_router}
use yella.Heartbeat.{
  FbHeartbeat, texts_of_in, texts_of_out, texts_of_plugins, Tick, Pulse, create_heartbeat,
  heartbeat_thr,
}
use yella.Heartbeat.Capabilities.{
  vector, all_in_caps, all_out_caps, told_in, told_out, create_heartbeat_lem,
}
use yella.Heartbeat.Numbers.{Reads, numbered, frames_of, heartbeat_thr_lem}

abbrev ascii : Utf8
ascii = record { to_utf8 = λ t. t; from_utf8 = λ t. t }

abbrev tables : Flatcc FbParcel FbParcel
tables = record { finalize = λ t. t; as_root = λ t. t }

abbrev taking : Sends
taking c n = some n

abbrev plugin : Plugin
plugin = record {
  name = codes "file";
  version = codes "1";
  in_caps =
      record {
        name = codes "file.monitor_request";
        version = 1;
        handler = 0;
        udata = 0;
        configs = codes "etc" ∷ codes "var" ∷ [];
      }
      ∷ [];
  out_caps = record { name = codes "file.change"; version = 1 } ∷ [];
  udata = 0;
}

abbrev plugins : List Plugin
plugins = plugin ∷ plugin ∷ []

create_heartbeat_lem_example :
    (all_converted ascii (codes "id" ∷ texts_of_plugins ascii plugins) ≡ true
      → (hb : FbHeartbeat Text) × (create_heartbeat ascii (codes "host") 7 (codes "id") plugins
          ≡ some hb)
        × (hb.in_capabilities ≡ vector (map (told_in ascii) (all_in_caps plugins)))
        × (hb.out_capabilities ≡ vector (map (told_out ascii) (all_out_caps plugins))))
    × (all_converted ascii (codes "id" ∷ texts_of_plugins ascii plugins) ≡ false
        → create_heartbeat ascii (codes "host") 7 (codes "id") plugins ≡ none)
create_heartbeat_lem_example = create_heartbeat_lem ascii (codes "host") 7 (codes "id") plugins

abbrev payload : FbHeartbeat Text → List ℕ
payload hb = hb.id

abbrev data_of : FbParcel → Bytes
data_of tbl = 5 ∷ []

abbrev pulse : Pulse
pulse = record { id = codes "id"; boot_count = 4; recipient = codes "yella.stethoscope" }

abbrev tick : Tick Text
tick = record {
  should_stop = false;
  state = connected;
  plugins = plugin ∷ [];
  host = codes "host";
  now = 9;
  now_millis = 9000;
}

-- Two rounds with a connection, one without between them, and the stop.
abbrev ticks : List (Tick Text)
ticks =
    tick
    ∷ record tick { state = disconnected }
    ∷ tick
    ∷ record tick { should_stop = true }
    ∷ tick
    ∷ []

heartbeat_thr_lem_example :
    (r' : Router) × (parts : List FbParcel) × (heartbeat_thr ascii tables payload data_of taking
        pulse
        (create_router idle)
        ticks
      ≡ some r')
    × Reads
        (unpack_parcel ascii tables)
        parts
        (numbered ascii tables payload data_of taking pulse 0 (tick ∷ tick ∷ []))
    × (r'.outgoing ≡ [] ++ frames_of data_of parts)
unfolding state_eq create_router all_converted is_converted yella_to_utf8 fits texts_of_plugins
    texts_of_in texts_of_out
heartbeat_thr_lem_example =
    heartbeat_thr_lem ascii tables payload data_of taking (λ t h. refl) (λ t. refl) (λ c n. refl)
      ticks pulse (create_router idle) (omega arith) refl
      (
        (omega arith, refl),
        (
          (omega arith, refl),
          ((omega arith, refl), ((omega arith, refl), ((omega arith, refl), tt))),
        ),
      )
