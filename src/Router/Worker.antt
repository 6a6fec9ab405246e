-- ===== src/Router/Worker.antt =====
-- The socket worker's loop (agent/agent/router.c: socket_worker_main).
use yella.Prelude.{
  ◌≡◌, ◌≢◌, refl, ap, ◌∙◌, Bool, true, false, List, [], ◌∷◌, ◌++◌, arith, length, if◌then◌else◌,
}
use yella.Spool.Event.{Bytes}
use yella.Spool.State.{Rc, no_error, read_error}
use yella.Router.{
  Router, Inbox, EventIds, Sends, is_ok, process_router_in_event, process_outgoing_in_event,
  process_monitor_in_event,
}
use yella.Router.Framing.{framed, arriving}
use yella.Router.Sockets.{outcome, process_router_in_event_lem}

-- What comes to the three sockets, and whether the thread has closed them.
pub record Sockets : Type 0 where
  pub rtr_sock : Inbox
  pub out_sock : Inbox
  pub mon_sock : Inbox
  pub closed : Bool

-- What a call of `zmq_poll` finds, and whether the thread is to stop after it.
pub record Poll : Type 0 where
  pub should_stop : Bool
  pub router_in : Bool
  pub outgoing_in : Bool
  pub monitor_in : Bool

abbrev pub Worker : Type 0
Worker = Router × Sockets

unfoldable pub close_sockets : Worker → Worker
close_sockets (r, s) = (r, record s { closed = true })

-- A handler that runs if its socket has something, and no handler before it failed.
unfoldable pub handle_if : Bool → (Worker → Rc × Worker) → Rc × Worker → Rc × Worker
handle_if ready handler (no_error, w) = if ready then handler w else (no_error, w)
handle_if ready handler (rc, w) = (rc, w)

handle_ready :
    (handler : Worker → Rc × Worker) (w : Worker) (ready : Bool)
    → ready ≡ true
    → handle_if ready handler (no_error, w) ≡ handler w
unfolding handle_if
handle_ready handler w ready h = rw h refl

refused :
    (r : Router) (d : Bytes) (ds : List Bytes)
    → length ds ≢ 1
    → outcome r (d ∷ ds) ≡ (read_error, r)
refused r d [] many = refl
refused r d (e ∷ []) many = absurd (many refl)
refused r d (e ∷ f ∷ ds) many = refl

module _ (ids : EventIds) (zmq : Sends) where
  abbrev handle_router : Worker → Rc × Worker
  handle_router (r, s) =
      let (rc, r', rest) = process_router_in_event r s.rtr_sock in
      (rc, (r', record s { rtr_sock = rest }))

  abbrev handle_outgoing : Worker → Rc × Worker
  handle_outgoing (r, s) =
      let (rc, r', rest) = process_outgoing_in_event zmq r s.out_sock in
      (rc, (r', record s { out_sock = rest }))

  abbrev handle_monitor : Worker → Rc × Worker
  handle_monitor (r, s) =
      let (rc, r', rest) = process_monitor_in_event ids r s.mon_sock in
      (rc, (r', record s { mon_sock = rest }))

  unfoldable pub poll_round : Poll → Worker → Rc × Worker
  poll_round p w =
      handle_if p.monitor_in handle_monitor (
        handle_if p.outgoing_in handle_outgoing (handle_if p.router_in handle_router (no_error, w)))

  -- The loop over some rounds, and whether the thread has ended, which closes the sockets.
  unfoldable pub socket_worker : List Poll → Worker → Bool × Worker
  socket_worker [] w = (false, w)
  socket_worker (p ∷ ps) w =
      let (rc, w') = poll_round p w in
      let rest = socket_worker ps w' in
      if p.should_stop
      then (true, close_sockets w)
      else if is_ok rc
      then rest
      else (true, close_sockets w')

  poll_round-refused :
      (p : Poll) (r : Router) (s : Sockets) (d : Bytes) (ds : List Bytes) (rest : Inbox)
      → p.router_in ≡ true
      → s.rtr_sock ≡ arriving (framed (d ∷ ds)) ++ rest
      → length ds ≢ 1
      → poll_round p (r, s) ≡ (read_error, (r, record s { rtr_sock = rest }))
  unfolding poll_round handle_if
  poll_round-refused p r s d ds rest ready there many =
      let received : process_router_in_event r s.rtr_sock ≡ (read_error, r, rest) =
        ap (process_router_in_event r) there
        ∙ process_router_in_event_lem r d ds rest
        ∙ ap (λ t. (t.0, t.1, rest)) (refused r d ds many) in
      ap (λ t. handle_if p.monitor_in handle_monitor (handle_if p.outgoing_in handle_outgoing t))
        (handle_ready handle_router (r, s) p.router_in ready
          ∙ ap (λ t. (t.0, (t.1, record s { rtr_sock = t.2 }))) received)

  socket_worker-failed :
      (p : Poll) (ps : List Poll) (w : Worker)
      → p.should_stop ≡ false
      → is_ok (poll_round p w).0 ≡ false
      → socket_worker (p ∷ ps) w ≡ (true, close_sockets (poll_round p w).1)
  unfolding socket_worker
  socket_worker-failed p ps w going failed = ground arith

  -- A message from the router that is not of two parts ends the socket worker, whatever else is
  -- ready and whatever comes later: its sockets are closed with what they hold, nothing more is
  -- received, forwarded or reported, and the connection goes on to count as it did.
  pub worker_ended :
      (p : Poll) (ps : List Poll) (r : Router) (s : Sockets) (d : Bytes) (ds : List Bytes)
      (rest : Inbox)
      → p.should_stop ≡ false
      → p.router_in ≡ true
      → s.rtr_sock ≡ arriving (framed (d ∷ ds)) ++ rest
      → length ds ≢ 1
      → socket_worker (p ∷ ps) (r, s) ≡ (true, (r, record s { rtr_sock = rest; closed = true }))
  unfolding is_ok close_sockets
  worker_ended p ps r s d ds rest going ready there many =
      let round = poll_round-refused p r s d ds rest ready there many in
      socket_worker-failed p ps (r, s) going (ap (λ t. is_ok t.0) round)
      ∙ ap (λ t. (true, close_sockets t.1)) round
