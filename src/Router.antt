-- ===== src/Router.antt =====
-- The connection to the router (agent/agent/router.c).
use yella.Prelude.{
  ℕ, ◌+◌, ◌-◌, ◌^◌, Bool, true, false, not, ◌&&◌, ◌||◌, List, [], ◌∷◌, ◌++◌, Option, none, some,
  ◌==◌, if◌then◌else◌, length, take, drop,
}
use yella.Spool.Event.{Bytes, value_of}
use yella.Spool.State.{Spool, Stdio, Rc, no_error, read_error, write_error, crash, starved}
use yella.Spool.Write.{spool_push}
use yella.Spool.Read.{spool_pop}
use yella.Spool.Life.{spool_empty_of_messages}
pub mod Values
unfoldable pub use Values.*
pub mod Framing
pub mod Sockets
pub mod States
pub mod Worker
mod Tests

-- `create_router` behind the creation of the spool
unfoldable pub create_router : Spool → Router
create_router sp = record {
  state = connection_pending;
  state_callback = false;
  recv_callback = false;
  should_stop = false;
  sp = sp;
  reported = [];
  received = [];
  outgoing = [];
  wire = [];
  sends = 0;
}

unfoldable pub set_router_state_callback : Router → Bool → Router
set_router_state_callback r cb = record r { state_callback = cb }

unfoldable pub set_router_message_received_callback : Router → Bool → Router
set_router_message_received_callback r cb = record r { recv_callback = cb }

unfoldable pub set_state : Router → RouterState → Router
set_state r state = if state_eq r.state state then r else record r {
  state = state;
  reported = (if r.state_callback then r.reported ++ state ∷ [] else r.reported);
}

-- The `switch` of `process_monitor_in_event`: the state that an event sets, if it sets one.
unfoldable pub state_of_event : EventIds → ℕ → Option RouterState
state_of_event ids id =
    if id == ids.connected_id
    then some connected
    else if id == ids.connect_delayed_id
    then some connection_pending
    else if id == ids.connect_retried_id
    then some connection_pending
    else if id == ids.closed_id
    then some socket_closed
    else if id == ids.disconnected_id
    then some disconnected
    else none

unfoldable pub set_state_of : Router → Option RouterState → Router
set_state_of r none = r
set_state_of r (some state) = set_state r state

-- `read_monitor_event`: the event's number, unless a call failed or the first part is not of six
-- bytes, an assertion, and what is left to receive.
unfoldable pub read_monitor_event : Inbox → Rc × ℕ × Inbox
read_monitor_event (some frame1 ∷ some frame2 ∷ rest) =
    if length frame1.bytes == 6
    then (no_error, value_of (take 2 frame1.bytes), rest)
    else (crash, 0, rest)
read_monitor_event (some frame1 ∷ none ∷ rest) =
    if length frame1.bytes == 6 then (read_error, 0, rest) else (crash, 0, rest)
read_monitor_event (some frame1 ∷ []) =
    if length frame1.bytes == 6 then (starved, 0, []) else (crash, 0, [])
read_monitor_event (none ∷ rest) = (read_error, 0, rest)
read_monitor_event [] = (starved, 0, [])

unfoldable pub handle_monitor_event : EventIds → Router → Rc × ℕ × Inbox → Rc × Router × Inbox
handle_monitor_event ids r (no_error, id, rest) =
    (no_error, set_state_of r (state_of_event ids id), rest)
handle_monitor_event ids r (rc, id, rest) = (rc, r, rest)

unfoldable pub process_monitor_in_event : EventIds → Router → Inbox → Rc × Router × Inbox
process_monitor_in_event ids r inbox = handle_monitor_event ids r (read_monitor_event inbox)

-- The parts of a message that are received and thrown away; a call that fails leaves no more parts.
unfoldable pub discard_parts : Inbox → Inbox
discard_parts [] = []
discard_parts (none ∷ rest) = rest
discard_parts (some part ∷ rest) = if part.more then discard_parts rest else rest

-- `process_router_in_event` behind the delimiter
unfoldable pub receive_message : Router → Inbox → Rc × Router × Inbox
receive_message r [] = (starved, r, [])
receive_message r (none ∷ rest) = (read_error, r, rest)
receive_message r (some msg ∷ rest) = if msg.more then (read_error, r, discard_parts rest) else (
  no_error,
  (if r.recv_callback then record r { received = r.received ++ msg.bytes ∷ [] } else r),
  rest,
)

unfoldable pub process_router_in_event : Router → Inbox → Rc × Router × Inbox
process_router_in_event r [] = (starved, r, [])
process_router_in_event r (none ∷ rest) = (read_error, r, rest)
process_router_in_event r (some delim ∷ rest) =
    if delim.more then receive_message r rest else (read_error, r, rest)

-- What `zmq_msg_send` returns at a call for so many bytes; `none` is -1.
abbrev pub Sends : Type 0
Sends = ℕ → ℕ → Option ℕ

unfoldable pub is_sent : Option ℕ → Bool
is_sent none = false
is_sent (some n) = true

-- A result as `rc != msgs[i].size` reads it.
unfoldable pub as_size : Option ℕ → ℕ
as_size none = 2 ^ 64 - 1
as_size (some n) = n

-- Whether a result of the spool is `YELLA_NO_ERROR`.
unfoldable pub is_ok : Rc → Bool
is_ok no_error = true
is_ok _ = false

module _ (zmq : Sends) where
  -- The loop of `process_outgoing_in_event`: a part is sent with the flag with which it came.
  unfoldable pub forward_parts : Router → Inbox → Rc × Router × Inbox
  forward_parts r [] = (starved, r, [])
  forward_parts r (none ∷ rest) = (read_error, r, rest)
  forward_parts r (some part ∷ rest) =
      let sent : Router = record r { wire = r.wire ++ part ∷ []; sends = r.sends + 1 } in
      let next = forward_parts sent rest in
      if not (is_sent (zmq r.sends (length part.bytes)))
      then (write_error, record r { sends = r.sends + 1 }, rest)
      else if part.more
      then next
      else (no_error, sent, rest)

  unfoldable pub process_outgoing_in_event : Router → Inbox → Rc × Router × Inbox
  process_outgoing_in_event r inbox =
      let delim : Frame = record { bytes = []; more = true } in
      let sent : Router = record r { wire = r.wire ++ delim ∷ []; sends = r.sends + 1 } in
      if is_sent (zmq r.sends 0)
      then forward_parts sent inbox
      else (write_error, record r { sends = r.sends + 1 }, inbox)

  -- `send_transient_router_message`: the last part is sent without the flag.
  unfoldable pub send_transient_router_message : Router → List Bytes → Bool × Router
  send_transient_router_message r [] = (true, r)
  send_transient_router_message r (d ∷ ds) =
      let part : Frame = record { bytes = d; more = not (length ds == 0) } in
      let rc = zmq r.sends (length d) in
      let sent : Router = record r {
        outgoing = (if is_sent rc then r.outgoing ++ part ∷ [] else r.outgoing);
        sends = r.sends + 1;
      } in
      let rest = send_transient_router_message sent ds in
      if as_size rc == length d then rest else (false, sent)

  -- `send_router_message`
  unfoldable pub send_router_message : Stdio → Router → List Bytes → Bool × Router
  send_router_message io r msgs =
      let (rc, sp) = spool_push io r.sp msgs in
      if not (state_eq r.state connected) || not (spool_empty_of_messages r.sp)
      then (is_ok rc, record r { sp = sp })
      else send_transient_router_message r msgs

  -- What `spool_main` does with the result of `spool_pop`. With two parts, it sends them, which hands
  -- the first at least to ZeroMQ, and then releases them, which ZeroMQ does too: a double release, a
  -- crash. With another number of parts the assertion fails.
  unfoldable pub send_popped : Router → Rc × List Bytes × Spool → Rc × Router
  send_popped r (no_error, popped, sp) =
      let kept : Router = record r { sp = sp } in
      if length popped == 2
      then (crash, (send_transient_router_message kept popped).1)
      else (crash, kept)
  send_popped r (rc, popped, sp) = (no_error, record r { sp = sp })

  -- A round of `spool_main`: a wait that goes on, or a message taken from the spool and sent. `ready`
  -- is the variable that nothing sets; `fuel` and `wait` are those of `spool_pop`.
  unfoldable pub spool_round : Stdio → ℕ → (Spool → Bool × Spool) → Bool → Router → Rc × Router
  spool_round io fuel wait ready r =
      let popped = spool_pop io fuel wait r.sp in
      if r.should_stop
      then (no_error, r)
      else if state_eq r.state connected && not (spool_empty_of_messages r.sp) && ready
      then send_popped r popped
      else (no_error, r)
