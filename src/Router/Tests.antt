-- ===== src/Router/Tests.antt =====
-- The router's theorems at concrete inputs.
use yella.Prelude.{
  ◌≡◌, refl, true, false, List, [], ◌∷◌, ◌++◌, some, none, arith, map, if◌then◌else◌, ◌==◌, ◌+◌,
}
use yella.Spool.Event.{Bytes}
use yella.Spool.Samples.{pair, idle}
use yella.Router.{
  Router, Frame, EventIds, Sends, connected, create_router, set_router_state_callback,
  set_router_message_received_callback, process_outgoing_in_event, send_transient_router_message,
}
use yella.Router.Framing.{
  framed, arriving, delimiter, IsWhole, put_out, put_wire, message_forwarded,
}
use yella.Router.Worker.{Poll, Sockets, socket_worker, worker_ended}

abbrev taking : Sends
taking c n = some n

abbrev new_router : Router
new_router =
    set_router_message_received_callback (set_router_state_callback (create_router idle) true) true

message_forwarded_example :
    (fs : List Frame) × IsWhole fs
    × (map (λ (f : Frame). f.bytes) fs ≡ pair)
    × (send_transient_router_message taking new_router pair
        ≡ put_out new_router (new_router.outgoing ++ fs) (new_router.sends + 2))
    × (process_outgoing_in_event taking new_router (arriving fs ++ none ∷ [])
        ≡ put_wire new_router
            (none ∷ [])
            (new_router.wire ++ delimiter ∷ fs)
            (new_router.sends + 1 + 2))
message_forwarded_example =
    message_forwarded taking (λ c n. refl) new_router new_router (7 ∷ 8 ∷ []) ((9 ∷ []) ∷ [])
      (none ∷ [])

-- The second send fails.
abbrev failing : Sends
failing c n = if c == 1 then none else some n

abbrev zmq_ids : EventIds
zmq_ids = record {
  connected_id = 1;
  connect_delayed_id = 2;
  connect_retried_id = 4;
  closed_id = 128;
  disconnected_id = 512;
}

-- A message of three parts comes while the connection is up.
abbrev up : Router
up = record new_router { state = connected }

abbrev three : List Bytes
three = [] ∷ [] ∷ [] ∷ []

abbrev sockets : Sockets
sockets = record {
  rtr_sock = arriving (framed three);
  out_sock = [];
  mon_sock = [];
  closed = false;
}

abbrev poll : Poll
poll = record { should_stop = false; router_in = true; outgoing_in = false; monitor_in = true }

worker_ended_example :
    socket_worker zmq_ids taking (poll ∷ poll ∷ []) (up, sockets)
    ≡ (true, (up, record sockets { rtr_sock = []; closed = true }))
unfolding framed create_router set_router_message_received_callback set_router_state_callback
worker_ended_example =
    worker_ended zmq_ids taking poll (poll ∷ []) up sockets [] ([] ∷ [] ∷ []) [] refl refl refl
      (λ e. omega arith)
