-- ===== src/Router/Framing.antt =====
-- Messages of several parts on the sockets (agent/agent/router.c: send_transient_router_message,
-- process_outgoing_in_event and process_router_in_event).
use yella.Prelude.{
  ℕ, suc, ◌+◌, ◌≡◌, refl, sym, ap, ap₂, ◌∙◌, Bool, true, false, not, List, [], ◌∷◌, ◌++◌, some,
  arith, map, append-nil, append_assoc, length, ◌==◌, ==_iff,
}
use yella.Spool.Event.{Bytes}
use yella.Spool.State.{Rc, no_error}
use yella.Router.{
  Router, Frame, Inbox, Sends, is_sent, as_size, forward_parts, process_outgoing_in_event,
  send_transient_router_message,
}

-- A message's parts on a socket: more follow each but the last.
unfoldable pub framed : List Bytes → List Frame
framed [] = []
framed (d ∷ []) = record { bytes = d; more = false } ∷ []
framed (d ∷ e ∷ ds) = record { bytes = d; more = true } ∷ framed (e ∷ ds)

abbrev pub delimiter : Frame
delimiter = record { bytes = []; more = true }

abbrev pub arriving : List Frame → Inbox
arriving fs = map (λ f. some f) fs

-- Every part is taken whole.
abbrev pub Delivers : Sends → Type 0
Delivers zmq = (c n : ℕ) → zmq c n ≡ some n

-- The parts end with the only one that no more follow.
unfoldable pub IsWhole : List Frame → Type 0
IsWhole [] = ⊥
IsWhole (f ∷ []) = f.more ≡ false
IsWhole (f ∷ g ∷ fs) = (f.more ≡ true) × IsWhole (g ∷ fs)

flag_last : not (0 == 0) ≡ false
flag_last = ground arith

flag_more : (n : ℕ) → not (suc n == 0) ≡ true
flag_more n = ground arith

abbrev pub put_out : Router → List Frame → ℕ → Bool × Router
put_out r out n = (true, record r { outgoing = out; sends = n })

sent_all :
    (r : Router) (out : List Frame) (n : ℕ) {out' : List Frame} {n' : ℕ}
    → out ≡ out'
    → n ≡ n'
    → put_out r out n ≡ put_out r out' n'
sent_all r out n e f = ap₂ (put_out r) e f

abbrev pub put_wire : Router → Inbox → List Frame → ℕ → Rc × Router × Inbox
put_wire r rest wire n = (no_error, record r { wire = wire; sends = n }, rest)

forwarded_all :
    (r : Router) (rest : Inbox) (wire : List Frame) (n : ℕ) {wire' : List Frame} {n' : ℕ}
    → wire ≡ wire'
    → n ≡ n'
    → put_wire r rest wire n ≡ put_wire r rest wire' n'
forwarded_all r rest wire n e f = ap₂ (put_wire r rest) e f

framed-IsWhole : (d : Bytes) (ds : List Bytes) → IsWhole (framed (d ∷ ds))
unfolding IsWhole framed
framed-IsWhole d [] = refl
framed-IsWhole d (e ∷ []) = (refl, refl)
framed-IsWhole d (e ∷ f ∷ ds) = (refl, framed-IsWhole e (f ∷ ds))

framed_bytes : (ms : List Bytes) → map (λ (f : Frame). f.bytes) (framed ms) ≡ ms
unfolding framed
framed_bytes [] = refl
framed_bytes (d ∷ []) = refl
framed_bytes (d ∷ e ∷ ds) = ap (λ t. d ∷ t) (framed_bytes (e ∷ ds))

module _ (zmq : Sends) (delivers : Delivers zmq) where
  send_transient-part :
      (r : Router) (d : Bytes) (ds : List Bytes)
      → send_transient_router_message zmq r (d ∷ ds)
        ≡ send_transient_router_message zmq
            (record r {
              outgoing = r.outgoing ++ record { bytes = d; more = not (length ds == 0) } ∷ [];
              sends = r.sends + 1;
            })
            ds
  unfolding is_sent as_size send_transient_router_message
  send_transient-part r d ds = rw (
    send_transient_router_message,
    delivers r.sends (length d),
    (==_iff (length d) (length d)).1 refl,
  )

  send_transient-done : (r : Router) → send_transient_router_message zmq r [] ≡ (true, r)
  unfolding send_transient_router_message
  send_transient-done r = refl

  pub send_transient-framed :
      (ms : List Bytes) (r : Router)
      → send_transient_router_message zmq r ms
        ≡ put_out r (r.outgoing ++ framed ms) (r.sends + length ms)
  unfolding framed
  send_transient-framed [] r =
      send_transient-done r
      ∙ sent_all r r.outgoing r.sends (sym (append-nil r.outgoing)) (omega arith)
  send_transient-framed (d ∷ []) r =
      send_transient-part r d []
      ∙ send_transient-done _
      ∙ sent_all r _ _ (rw flag_last refl) (omega arith)
  send_transient-framed (d ∷ e ∷ ds) r =
      let part : Frame = record { bytes = d; more = true } in
      send_transient-part r d (e ∷ ds)
      ∙ send_transient-framed (e ∷ ds) _
      ∙ sent_all r _ _
          (rw (flag_more (length ds)) (append_assoc r.outgoing (part ∷ []) (framed (e ∷ ds))))
          (omega arith)

  forward-framed :
      (d : Bytes) (ds : List Bytes) (r : Router) (rest : Inbox)
      → forward_parts zmq r (arriving (framed (d ∷ ds)) ++ rest)
        ≡ put_wire r rest (r.wire ++ framed (d ∷ ds)) (r.sends + length (d ∷ ds))
  unfolding framed forward_parts is_sent
  forward-framed d [] r rest = rw delivers (forwarded_all r rest _ _ refl (omega arith))
  forward-framed d (e ∷ ds) r rest =
      let part : Frame = record { bytes = d; more = true } in
      rw delivers (
        forward-framed e ds _ rest
        ∙ forwarded_all r rest _ _ (append_assoc r.wire (part ∷ []) (framed (e ∷ ds)))
            (omega arith))

  pub process_outgoing-framed :
      (d : Bytes) (ds : List Bytes) (r : Router) (rest : Inbox)
      → process_outgoing_in_event zmq r (arriving (framed (d ∷ ds)) ++ rest)
        ≡ put_wire r rest (r.wire ++ delimiter ∷ framed (d ∷ ds)) (r.sends + 1 + length (d ∷ ds))
  unfolding process_outgoing_in_event is_sent
  process_outgoing-framed d ds r rest = rw delivers (
      forward-framed d ds _ rest
      ∙ forwarded_all r rest _ _ (append_assoc r.wire (delimiter ∷ []) (framed (d ∷ ds))) refl)

  -- A message of at least one part goes through whole, where every part is taken: what a sender puts
  -- on its socket is received by the worker, whatever comes behind it, and reaches the router's
  -- socket behind an empty delimiter, every part marked as followed by more but the last, and
  -- nothing of what comes behind it is touched.
  pub message_forwarded :
      (r w : Router) (d : Bytes) (ds : List Bytes) (rest : Inbox)
      → (fs : List Frame) × IsWhole fs
        × (map (λ (f : Frame). f.bytes) fs ≡ d ∷ ds)
        × (send_transient_router_message zmq r (d ∷ ds)
            ≡ put_out r (r.outgoing ++ fs) (r.sends + length (d ∷ ds)))
        × (process_outgoing_in_event zmq w (arriving fs ++ rest)
            ≡ put_wire w rest (w.wire ++ delimiter ∷ fs) (w.sends + 1 + length (d ∷ ds)))
  message_forwarded r w d ds rest = (
    framed (d ∷ ds),
    framed-IsWhole d ds,
    framed_bytes (d ∷ ds),
    send_transient-framed (d ∷ ds) r,
    process_outgoing-framed d ds w rest,
  )
