-- ===== src/Heartbeat.antt =====
-- Heartbeats: the table of one (agent/agent/heartbeat.c and
-- agent/agent/serialization/public/heartbeat.fbs) and the thread that sends them
-- (agent/agent/agent.c: heartbeat_thr).
use mathlib.Core.Option
use yella.Prelude.{
  ℕ, ◌+◌, ◌%◌, ◌^◌, Bool, true, false, List, [], ◌∷◌, ◌++◌, map, Option, none, some, if◌then◌else◌,
  Text, codes,
}
use yella.External.{Utf8, all_converted, Flatcc}
use yella.Spool.Event.{Bytes}
use yella.Parcel.{Parcel, FbParcel, create_parcel, pack_parcel}
use yella.Plugin.{InCap, OutCap, Plugin}
use yella.Router.{RouterState, connected, state_eq, Router, Sends, send_transient_router_message}
pub mod Capabilities
pub mod Numbers
mod Tests

-- The tables, with texts in UTF-8; a vector that was not added is `none`. `X` is what `set_host` adds.
pub record FbCapability : Type 0 where
  pub name : Text
  pub version : ℕ
  pub configurations : Option (List Text)

pub record FbHeartbeat (X : Type 0) : Type 0 where
  pub seconds_since_epoch : ℕ
  pub id : Text
  pub host : X
  pub in_capabilities : Option (List FbCapability)
  pub out_capabilities : Option (List FbCapability)

-- A push to a vector that is started at its first item.
unfoldable pub push_started : {A : Type 0} → Option (List A) → A → Option (List A)
push_started none a = some (a ∷ [])
push_started (some as') a = some (as' ++ a ∷ [])

module _ (utf : Utf8) where
  unfoldable pub push_configs : Option (List Text) → List Text → Option (List Text)
  push_configs vec [] = vec
  push_configs vec (c ∷ cs) = push_configs (push_started vec (utf.to_utf8 c)) cs

  unfoldable pub in_cap_to_fb : InCap → FbCapability
  in_cap_to_fb cap = record {
    name = utf.to_utf8 cap.name;
    version = cap.version;
    configurations = push_configs none cap.configs;
  }

  unfoldable pub out_cap_to_fb : OutCap → FbCapability
  out_cap_to_fb cap = record {
    name = utf.to_utf8 cap.name;
    version = cap.version;
    configurations = none;
  }

  unfoldable pub push_in_caps : Option (List FbCapability) → List InCap → Option (List FbCapability)
  push_in_caps vec [] = vec
  push_in_caps vec (cap ∷ caps) = push_in_caps (push_started vec (in_cap_to_fb cap)) caps

  unfoldable pub push_out_caps :
      Option (List FbCapability) → List OutCap → Option (List FbCapability)
  push_out_caps vec [] = vec
  push_out_caps vec (cap ∷ caps) = push_out_caps (push_started vec (out_cap_to_fb cap)) caps

  unfoldable pub in_capabilities_of :
      Option (List FbCapability) → List Plugin → Option (List FbCapability)
  in_capabilities_of vec [] = vec
  in_capabilities_of vec (plg ∷ plgs) = in_capabilities_of (push_in_caps vec plg.in_caps) plgs

  unfoldable pub out_capabilities_of :
      Option (List FbCapability) → List Plugin → Option (List FbCapability)
  out_capabilities_of vec [] = vec
  out_capabilities_of vec (plg ∷ plgs) = out_capabilities_of (push_out_caps vec plg.out_caps) plgs

  -- The texts that are converted: the identity and the names.
  unfoldable pub texts_of_in : List InCap → List Text
  texts_of_in [] = []
  texts_of_in (cap ∷ caps) = cap.name ∷ cap.configs ++ texts_of_in caps

  unfoldable pub texts_of_out : List OutCap → List Text
  texts_of_out [] = []
  texts_of_out (cap ∷ caps) = cap.name ∷ texts_of_out caps

  unfoldable pub texts_of_plugins : List Plugin → List Text
  texts_of_plugins [] = []
  texts_of_plugins (plg ∷ plgs) =
      texts_of_in plg.in_caps ++ texts_of_out plg.out_caps ++ texts_of_plugins plgs

  -- The table that `create_heartbeat` builds; `now` is what `time` returns.
  unfoldable pub heartbeat_table : {X : Type 0} → X → ℕ → Text → List Plugin → FbHeartbeat X
  heartbeat_table host now id plugins = record {
    seconds_since_epoch = now;
    id = utf.to_utf8 id;
    host = host;
    in_capabilities = in_capabilities_of none plugins;
    out_capabilities = out_capabilities_of none plugins;
  }

  -- `create_heartbeat`; `none` is the use of a NULL text, one that is not converted.
  unfoldable pub create_heartbeat :
      {X : Type 0} → X → ℕ → Text → List Plugin → Option (FbHeartbeat X)
  create_heartbeat host now id plugins =
      if all_converted utf (id ∷ texts_of_plugins plugins)
      then some (heartbeat_table host now id plugins)
      else none

-- A round of the thread, behind its wait: whether the agent stops, the state of the connection, what
-- the plugins say of themselves, what `set_host` adds and the times that are read.
pub record Tick (X : Type 0) : Type 0 where
  pub should_stop : Bool
  pub state : RouterState
  pub plugins : List Plugin
  pub host : X
  pub now : ℕ
  pub now_millis : ℕ

-- What the thread works with: the agent's identity and boot count and the recipient of heartbeats.
pub record Pulse : Type 0 where
  pub id : Text
  pub boot_count : ℕ
  pub recipient : Text

module _ {X B : Type 0} (utf : Utf8) (fb : Flatcc B FbParcel) (payload : FbHeartbeat X → List ℕ)
    (data_of : B → Bytes) (zmq : Sends) where
  -- The parcel of a heartbeat; `payload` are the bytes of its table.
  unfoldable pub heartbeat_parcel : Pulse → Tick X → FbHeartbeat X → ℕ → Parcel
  heartbeat_parcel p tick hb minor_seq =
      record (create_parcel tick.now_millis p.recipient (codes "yella.agent.heartbeat")) {
        sender = some p.id;
        seq = record { major = p.boot_count; minor = minor_seq };
        payload = payload hb;
      }

  -- `none`, here and below, is the use of a NULL text.
  unfoldable pub send_heartbeat : Router → Option B → Option Router
  send_heartbeat r none = none
  send_heartbeat r (some part) = some (send_transient_router_message zmq r (data_of part ∷ [])).1

  unfoldable pub beat_connected :
      Pulse → ℕ → Router → Tick X → Option (FbHeartbeat X) → Option (ℕ × Router)
  beat_connected p next r tick none = none
  beat_connected p next r tick (some hb) =
      Option.map (λ r'. (next, r'))
        (send_heartbeat r (pack_parcel utf fb (heartbeat_parcel p tick hb next)))

  -- A round with a connection or without one: the number of the last heartbeat and the router.
  unfoldable pub beat : Pulse → ℕ → Router → Tick X → Option (ℕ × Router)
  beat p minor_seq r tick =
      let hb = create_heartbeat utf tick.host tick.now p.id tick.plugins in
      if state_eq tick.state connected
      then beat_connected p ((minor_seq + 1) % 2 ^ 32) r tick hb
      else some (minor_seq, r)

  -- The loop of `heartbeat_thr` over some rounds.
  unfoldable pub heartbeat_loop : Pulse → ℕ → Router → List (Tick X) → Option Router
  heartbeat_loop p minor_seq r [] = some r
  heartbeat_loop p minor_seq r (tick ∷ ticks) =
      if tick.should_stop then some r else (elim (beat p minor_seq r tick) [
        | none ↦ none
        | some (next, r') ↦ heartbeat_loop p next r' ticks
      ])

  unfoldable pub heartbeat_thr : Pulse → Router → List (Tick X) → Option Router
  heartbeat_thr p r ticks = heartbeat_loop p 0 r ticks
