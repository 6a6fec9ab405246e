-- ===== src/Router/Sockets.antt =====
-- The worker's handlers on every branch (agent/agent/router.c: process_outgoing_in_event and
-- process_router_in_event).
use yella.Prelude.{
  ◌+◌, ◌≡◌, if◌then◌else◌, refl, ap, Bool, ◌&&◌, true, false, List, [], ◌∷◌, ◌++◌, arith, All,
}
use yella.Spool.Event.{Bytes}
use yella.Spool.Write.{spool_push}
use yella.Spool.Life.{spool_empty_of_messages}
use yella.Spool.State.{Stdio, Rc, no_error, read_error}
use yella.Router.{
  connected, state_eq, send_router_message, send_transient_router_message, Router, Frame, Inbox,
  Sends, is_ok, discard_parts, receive_message, process_router_in_event,
}
use yella.Router.Framing.{framed, arriving, IsWhole}

-- Parts of a message that is not at its end.
abbrev pub IsOpen : List Frame → Type 0
IsOpen fs = All (λ (f : Frame). f.more ≡ true) fs

-- A whole message, or nothing that ends one.
abbrev pub Completes : Bool → List Frame → Type 0
Completes true fs = IsWhole fs
Completes false fs = IsOpen fs

pub Completes-more :
    (ok : Bool) (f : Frame) (fs : List Frame)
    → f.more ≡ true
    → Completes ok fs
    → Completes ok (f ∷ fs)
unfolding IsWhole
Completes-more true f [] m h = elim h [ ]
Completes-more true f (g ∷ fs) m h = (m, h)
Completes-more false f fs m h = (m, h)

-- What a step has put on the wire.
abbrev pub Puts : Router → Rc × Router × Inbox → Type 0
Puts r (rc, r', rest) = (out : List Frame) × (r'.wire ≡ r.wire ++ out) × Completes (is_ok rc) out

module _ (zmq : Sends) where
  module _ (r : Router) (part : Frame) (rest : Inbox) where
    abbrev taken : Router
    taken = record r { wire = r.wire ++ part ∷ []; sends = r.sends + 1 }

-- What the router makes of a message with such parts.
abbrev pub outcome : Router → List Bytes → Rc × Router
outcome r (delim ∷ body ∷ []) =
    (no_error, if r.recv_callback then record r { received = r.received ++ body ∷ [] } else r)
outcome r _ = (read_error, r)

discard-framed :
    (d : Bytes) (ds : List Bytes) (rest : Inbox)
    → discard_parts (arriving (framed (d ∷ ds)) ++ rest) ≡ rest
unfolding discard_parts framed
discard-framed d [] rest = refl
discard-framed d (e ∷ ds) rest = discard-framed e ds rest

-- A message of any number of parts that comes from the router is received whole and nothing behind
-- it is touched; if it has two parts, the second goes to the callback, should one be set, and there
-- is no error, and otherwise the read error is returned and no callback is made.
pub process_router_in_event_lem :
    (r : Router) (d : Bytes) (ds : List Bytes) (rest : Inbox)
    → let (rc, r') = outcome r (d ∷ ds) in
      process_router_in_event r (arriving (framed (d ∷ ds)) ++ rest) ≡ (rc, r', rest)
unfolding process_router_in_event receive_message framed
process_router_in_event_lem r d [] rest = refl
process_router_in_event_lem r d (e ∷ []) rest = refl
process_router_in_event_lem r d (e ∷ f ∷ ds) rest =
    ap (λ t. (read_error, r, t)) (discard-framed f ds rest)

-- The two ways of `send_router_message`.
pub send_router_message-direct :
    (zmq : Sends) (io : Stdio) (r : Router) (ms : List Bytes)
    → state_eq r.state connected && spool_empty_of_messages r.sp ≡ true
    → send_router_message zmq io r ms ≡ send_transient_router_message zmq r ms
unfolding send_router_message
send_router_message-direct zmq io r ms idle = ground arith

pub send_router_message-spooled :
    (zmq : Sends) (io : Stdio) (r : Router) (ms : List Bytes)
    → state_eq r.state connected && spool_empty_of_messages r.sp ≡ false
    → send_router_message zmq io r ms
      ≡ (is_ok (spool_push io r.sp ms).0, record r { sp = (spool_push io r.sp ms).1 })
unfolding send_router_message
send_router_message-spooled zmq io r ms busy = ground arith
