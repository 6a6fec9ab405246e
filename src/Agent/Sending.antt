-- ===== src/Agent/Sending.antt =====
-- What becomes of a message that a plugin sends (agent/agent/agent.c: send_plugin_message, over
-- agent/agent/router.c and agent/agent/spool.c).
use yella.Prelude.{
  ℕ, ◌+◌, ◌^◌, ◌≤◌, ◌<◌, ◌≡◌, refl, sym, ap, subst, ◌∙◌, Bool, true, false, Option, none, length,
  not, ◌&&◌, List, [], ◌∷◌, ◌++◌, some, arith, Text, Bool-cases, inl, inr,
}
use yella.External.{Utf8, RoundTrips, all_converted, Flatcc, ReadsBack}
use yella.Sglib.Tree.{TreeOps}
use yella.Spool.Event.{Bytes, encode_event}
use yella.Spool.State.{Spool, Stdio, Rc, no_error, crash}
use yella.Spool.Write.{spool_push}
use yella.Spool.Read.{spool_pop}
use yella.Spool.Life.{spool_empty_of_messages}
use yella.Spool.Push.{IsHealthy}
use yella.Spool.Advance.{length-encode_event}
use yella.Spool.Fifo.{quiet, Holds, IsMessage, push-Holds, pop-Holds}
use yella.Parcel.{Parcel, FbParcel, texts_of, pack_parcel, unpack_parcel, parcel_to_fb}
use yella.Parcel.RoundTrip.{arrived, unpack-pack_parcel}
use yella.Router.{
  connected, state_eq, Router, Sends, set_state, send_router_message, send_popped, spool_round,
}
use yella.Router.Framing.{framed, Delivers, send_transient-framed}
use yella.Router.Sockets.{send_router_message-direct, send_router_message-spooled}
use yella.Router.States.{state_eq-to}
use yella.Agent.{Handler, Agent, sender_of_thread, stamped, send_packed, send_plugin_message}

abbrev pub event_size : List Bytes → ℕ
event_size ms = length (encode_event (length ms) ms)

-- The parcel of an agent, as the router is to see it.
abbrev pub from_agent : Text → ℕ → Parcel → Parcel
from_agent id boot_count pcl = record pcl {
  sender = some id;
  seq = record { major = boot_count; minor = pcl.seq.minor };
}

module _ {H S : Type 0} (handlers : TreeOps H Handler) (senders : TreeOps S (Option ℕ)) (utf : Utf8)
    {B : Type 0} (fb : Flatcc B FbParcel) (data_of : B → Bytes) (zmq : Sends) (io : Stdio) where
  sender_of_thread-rtr :
      (ag : Agent H S) (made : Bool) (thread : Text)
      → (sender_of_thread handlers senders ag made thread).1.rtr ≡ ag.rtr
  unfolding sender_of_thread
  sender_of_thread-rtr ag made thread = ground arith

  send_packed-rtr :
      (part : B) (sent_by : Option ℕ × Agent H S) (sndr : ℕ) (r : Router)
      → sent_by.0 ≡ some sndr
      → sent_by.1.rtr ≡ r
      → (ag' : Agent H S) × (send_packed handlers senders utf fb data_of zmq io (some part) sent_by
          ≡ some ag')
        × (ag'.rtr ≡ (send_router_message zmq io r (data_of part ∷ [])).1)
  unfolding send_packed
  send_packed-rtr part (none, ag) sndr r e f = cc
  send_packed-rtr part (some n, ag) sndr r e f = (
    record ag { rtr = (send_router_message zmq io ag.rtr (data_of part ∷ [])).1 },
    refl,
    ap (λ r. (send_router_message zmq io r (data_of part ∷ [])).1) f,
  )

  send_plugin_message-rtr :
      (ag : Agent H S) (made : Bool) (thread : Text) (pcl : Parcel) (part : B) (sndr : ℕ)
      → pack_parcel utf fb (stamped handlers senders ag pcl) ≡ some part
      → (sender_of_thread handlers senders ag made thread).0 ≡ some sndr
      → (ag' : Agent H S) × (send_plugin_message handlers senders utf fb data_of zmq io ag made
            thread pcl
          ≡ some ag')
        × (ag'.rtr ≡ (send_router_message zmq io ag.rtr (data_of part ∷ [])).1)
  unfolding send_plugin_message
  send_plugin_message-rtr ag made thread pcl part sndr e f =
      let (ag', sent, same) =
        send_packed-rtr part (sender_of_thread handlers senders ag made thread) sndr ag.rtr f
          (sender_of_thread-rtr ag made thread) in
      (
        ag',
        ap
              (λ o.
                send_packed handlers senders utf fb data_of zmq io o
                  (sender_of_thread handlers senders ag made thread))
              e
            ∙ sent,
        same,
      )

  -- A plugin's message, of any thread that has a sender or for which one can be made, while the
  -- connection is up and the spool has no message: it is sent, as one part, to the senders' socket,
  -- and what is unpacked from it is the plugin's parcel with the agent as the sender, the boot count
  -- as the major number and the time cut to the second, if it has a recipient. Its texts and the
  -- agent's identity are ones that `yella_to_utf8` converts, and its time is below 2^53.
  pub send_plugin_message_lem :
      RoundTrips utf
      → ReadsBack fb
      → Delivers zmq
      → (ag : Agent H S) (made : Bool) (thread : Text) (pcl : Parcel) (sndr : ℕ) → pcl.time < 2 ^ 53
      → all_converted utf (texts_of utf pcl ag.id) ≡ true
      → (sender_of_thread handlers senders ag made thread).0 ≡ some sndr
      → state_eq ag.rtr.state connected && spool_empty_of_messages ag.rtr.sp ≡ true
      → (part : B) × (ag' : Agent H S) × (send_plugin_message handlers senders utf fb data_of zmq io
            ag made thread pcl
          ≡ some ag')
        × (unpack_parcel utf fb part ≡ arrived (from_agent ag.id ag.boot_count pcl) pcl.recipient)
        × (ag'.rtr.outgoing ≡ ag.rtr.outgoing ++ framed (data_of part ∷ []))
  unfolding texts_of
  send_plugin_message_lem round reads delivers ag made thread pcl sndr t c has idle =
      let (part, packed, e) =
        (unpack-pack_parcel utf round fb reads (stamped handlers senders ag pcl) ag.id refl t).0
          c in
      let (ag', sent, same) = send_plugin_message-rtr ag made thread pcl part sndr packed has in
      (
        part,
        ag',
        sent,
        e,
        ap (λ r. r.outgoing)
            (same
              ∙ ap (λ t. t.1)
                  (send_router_message-direct zmq io ag.rtr (data_of part ∷ []) idle
                    ∙ send_transient-framed zmq delivers (data_of part ∷ []) ag.rtr)),
      )

  set_state-up :
      (r : Router)
      → let up = set_state r connected in
        (up.state ≡ connected)
        × (up.sp ≡ r.sp)
        × (up.should_stop ≡ r.should_stop)
        × (up.outgoing ≡ r.outgoing)
  unfolding set_state
  set_state-up r = elim (Bool-cases (state_eq r.state connected)) [
    | inl h ↦ rw h (state_eq-to r.state connected h, refl, refl, refl)
    | inr h ↦ rw h (refl, refl, refl, refl)
  ]

  send_popped-single :
      (d : Bytes) (r : Router) (popped : Rc × List Bytes × Spool)
      → popped.0 ≡ no_error
      → popped.1 ≡ d ∷ []
      → send_popped zmq r popped ≡ (crash, record r { sp = popped.2 })
  unfolding send_popped
  send_popped-single d r (rc, parts, s) e f = rw (e, f) refl

  not_empty : (sp : Spool) → 8 < sp.stats.current_size → spool_empty_of_messages sp ≡ false
  unfolding spool_empty_of_messages
  not_empty sp h = ground arith

  busy_round :
      (r : Router)
      → r.should_stop ≡ false
      → state_eq r.state connected && not (spool_empty_of_messages r.sp) && true ≡ true
      → spool_round zmq io 1 quiet true r ≡ send_popped zmq r (spool_pop io 1 quiet r.sp)
  unfolding spool_round
  busy_round r going h = ground arith

  module _ (healthy : IsHealthy io) where
    popped_single :
        (d : Bytes) (r : Router) (es : List (List Bytes)) (room : ℕ)
        → Holds r.sp ((d ∷ []) ∷ es) room
        → 8 < r.sp.stats.current_size
        → r.should_stop ≡ false
        → r.state ≡ connected
        → (s : Spool) × (spool_round zmq io 1 quiet true r ≡ (crash, record r { sp = s }))
    unfolding state_eq
    popped_single d r es room h big going up =
        let (rc, parts, next, kept) = pop-Holds io healthy r.sp es (d ∷ []) room h in
        let full : spool_empty_of_messages r.sp ≡ false = not_empty r.sp big in
        let busy : state_eq r.state connected && not (spool_empty_of_messages r.sp) && true ≡ true =
          rw (up, full) refl in
        (
          (spool_pop io 1 quiet r.sp).2,
          busy_round r going busy ∙ send_popped-single d r (spool_pop io 1 quiet r.sp) rc parts,
        )

    -- A plugin's message that is sent while there is no connection ends the agent. It goes to the
    -- spool, which had none, as an event of one part, and once the connection is up the first round of
    -- `spool_main` takes it out and fails its assertion that there are two parts, with nothing more on
    -- the senders' socket. No call of the file system fails, the event fits the spool's file, the
    -- thread has a sender or one can be made, the texts are ones that `yella_to_utf8` converts, and the
    -- variable that lets `spool_main` pop holds true.
    pub spooled_message_aborts :
        (ag : Agent H S) (made : Bool) (thread : Text) (pcl : Parcel) (sndr room : ℕ)
        → all_converted utf (texts_of utf pcl ag.id) ≡ true
        → (sender_of_thread handlers senders ag made thread).0 ≡ some sndr
        → let part = fb.finalize (parcel_to_fb utf (stamped handlers senders ag pcl) ag.id) in
          IsMessage (data_of part ∷ [])
          → Holds ag.rtr.sp [] (event_size (data_of part ∷ []) + room)
          → 8 ≤ ag.rtr.sp.stats.current_size
          → ag.rtr.should_stop ≡ false
          → state_eq ag.rtr.state connected ≡ false
          → (ag' : Agent H S) × (send_plugin_message handlers senders utf fb data_of zmq io ag made
                thread pcl
              ≡ some ag')
            × (let (rc, r) = spool_round zmq io 1 quiet true (set_state ag'.rtr connected) in
                (rc ≡ crash) × (r.outgoing ≡ ag.rtr.outgoing))
    unfolding pack_parcel texts_of
    spooled_message_aborts ag made thread pcl sndr room c has m h sized going down =
        let part = fb.finalize (parcel_to_fb utf (stamped handlers senders ag pcl) ag.id) in
        let d = data_of part in
        let (rc, next, grown) = push-Holds io healthy ag.rtr.sp [] (d ∷ []) room h m in
        let sp' = (spool_push io ag.rtr.sp (d ∷ [])).1 in
        let rtr' : Router = record ag.rtr { sp = sp' } in
        let busy : state_eq ag.rtr.state connected && spool_empty_of_messages ag.rtr.sp ≡ false =
          rw down refl in
        let (ag', done, same) =
          send_plugin_message-rtr ag made thread pcl part sndr (rw c refl) has in
        let sent : ag'.rtr ≡ rtr' =
          same ∙ ap (λ t. t.1) (send_router_message-spooled zmq io ag.rtr (d ∷ []) busy) in
        let (up, same_sp, same_stop, same_out) = set_state-up rtr' in
        let (s, e) =
          popped_single d (set_state rtr' connected) [] room
            (subst (λ t. Holds t ((d ∷ []) ∷ []) room) (sym same_sp) next)
            (rw same_sp (omega (arith, grown, length-encode_event 1 (d ∷ [])))) (same_stop ∙ going)
            up in
        (
          ag',
          done,
          subst
              (λ r.
                let (rc, r') = spool_round zmq io 1 quiet true (set_state r connected) in
                (rc ≡ crash) × (r'.outgoing ≡ ag.rtr.outgoing))
              (sym sent) (ap (λ t. t.0) e, ap (λ t. t.1.outgoing) e ∙ same_out),
        )
