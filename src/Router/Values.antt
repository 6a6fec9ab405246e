-- ===== src/Router/Values.antt =====
-- The state of the router client and what its sockets take and give (agent/agent/router.c,
-- agent/agent/router.h).
use yella.Prelude.{ℕ, Bool, true, false, List, Option}
use yella.Spool.Event.{Bytes}
use yella.Spool.State.{Spool}

-- `router_state`
pub data RouterState : Type 0 where
  connection_pending connected disconnected socket_closed : RouterState

unfoldable pub state_eq : RouterState → RouterState → Bool
state_eq connection_pending connection_pending = true
state_eq connected connected = true
state_eq disconnected disconnected = true
state_eq socket_closed socket_closed = true
state_eq _ _ = false

-- A part of a message on a socket, and whether more parts follow.
pub record Frame : Type 0 where
  pub bytes : Bytes
  pub more : Bool

-- What the calls of `zmq_msg_recv` on a socket return in turn: a part, or a failure. At the end of
-- the list a call waits for ever.
abbrev pub Inbox : Type 0
Inbox = List (Option Frame)

-- The numbers that ZeroMQ gives the events of a monitor.
pub record EventIds : Type 0 where
  pub connected_id : ℕ
  pub connect_delayed_id : ℕ
  pub connect_retried_id : ℕ
  pub closed_id : ℕ
  pub disconnected_id : ℕ

-- `struct router`. The callbacks are set or not; `reported` and `received` are their calls.
-- `outgoing` is what the senders' sockets took and `wire` what the router's socket took, and `sends`
-- numbers the calls of `zmq_msg_send`.
pub record Router : Type 0 where
  pub state : RouterState
  pub state_callback : Bool
  pub recv_callback : Bool
  pub should_stop : Bool
  pub sp : Spool
  pub reported : List RouterState
  pub received : List Bytes
  pub outgoing : List Frame
  pub wire : List Frame
  pub sends : ℕ
