-- ===== src/Heartbeat/Numbers.antt =====
-- The heartbeats that are sent (agent/agent/agent.c: heartbeat_thr, over agent/agent/router.c).
use yella.Prelude.{
  Bool, ℕ, ◌+◌, ◌%◌, ◌^◌, ◌<◌, ◌≡◌, refl, sym, ap, subst, ◌∙◌, arith, true, false, Option, List, [],
  ◌∷◌, ◌++◌, some, none, codes, if◌then◌else◌, length, All, append-nil, append_assoc, Bool-cases,
  inl, inr,
}
use mathlib.Core.Option
use yella.External.{Utf8, all_converted, RoundTrips, Flatcc, ReadsBack}
use yella.Spool.Event.{Bytes}
use yella.Parcel.{
  Parcel, uncompressed, FbParcel, Unpacked, unpacked, create_parcel, unpack_parcel, text_or_none,
  texts_of,
}
use yella.Parcel.RoundTrip.{to_second, unpack-pack_parcel}
use yella.Router.{Router, Frame, Sends, connected, state_eq, send_transient_router_message}
use yella.Router.Framing.{framed, Delivers, send_transient-framed}
use yella.Heartbeat.{
  FbHeartbeat, heartbeat_table, create_heartbeat, beat_connected, texts_of_plugins, Tick, Pulse,
  heartbeat_parcel, send_heartbeat, beat, heartbeat_loop, heartbeat_thr,
}

-- The rounds with a connection, before the agent stops.
abbrev pub live : {X : Type 0} → List (Tick X) → List (Tick X)
live [] = []
live (tick ∷ ticks) =
    let rest = live ticks in
    if tick.should_stop then [] else if state_eq tick.state connected then tick ∷ rest else rest

-- The other side reads these parcels from these buffers.
abbrev pub Reads : {B : Type 0} → (B → Unpacked) → List B → List Parcel → Type 0
Reads unpack [] [] = Unit
Reads unpack (b ∷ bs) (p ∷ ps) = (unpack b ≡ unpacked p) × Reads unpack bs ps
Reads unpack _ _ = ⊥

abbrev pub frames_of : {B : Type 0} → (B → Bytes) → List B → List Frame
frames_of data_of [] = []
frames_of data_of (b ∷ bs) = framed (data_of b ∷ []) ++ frames_of data_of bs

module _ {X B : Type 0} (utf : Utf8) (fb : Flatcc B FbParcel) (payload : FbHeartbeat X → List ℕ)
    (data_of : B → Bytes) (zmq : Sends) where
  -- The heartbeat of a round, under this number.
  abbrev pub told : Pulse → Tick X → ℕ → Parcel
  told p tick n = record {
    time = tick.now_millis;
    sender = some p.id;
    recipient = some p.recipient;
    type = codes "yella.agent.heartbeat";
    cmp = uncompressed;
    seq = record { major = p.boot_count; minor = n };
    grp = none;
    payload = payload (heartbeat_table utf tick.host tick.now p.id tick.plugins);
  }

  -- Heartbeats with the numbers from a number on.
  abbrev pub numbered : Pulse → ℕ → List (Tick X) → List Parcel
  numbered p n [] = []
  numbered p n (tick ∷ ticks) = to_second (told p tick (n + 1)) ∷ numbered p (n + 1) ticks

  module _ (round : RoundTrips utf) (reads : ReadsBack fb) (delivers : Delivers zmq) where
    -- What rounds send: these buffers.
    abbrev Sent : Pulse → ℕ → Router → List (Tick X) → Option Router → Type 0
    Sent p n r ticks after =
        (r' : Router) × (parts : List B) × (after ≡ some r')
        × Reads (unpack_parcel utf fb) parts (numbered p n ticks)
        × (r'.outgoing ≡ r.outgoing ++ frames_of data_of parts)

    -- A round whose texts are converted, and whose time a double holds.
    abbrev pub CanTell : Pulse → Tick X → Type 0
    CanTell p tick =
        (tick.now_millis < 2 ^ 53)
        × (all_converted utf (p.id ∷ texts_of_plugins utf tick.plugins) ≡ true)

    abbrev pub CanSend : Pulse → Type 0
    CanSend p = all_converted utf (p.id ∷ p.recipient ∷ codes "yella.agent.heartbeat" ∷ []) ≡ true

    one_sent :
        (p : Pulse) (tick : Tick X) (n : ℕ) (r : Router)
        → CanSend p
        → CanTell p tick
        → let hb = create_heartbeat utf tick.host tick.now p.id tick.plugins in
          (part : B) × (r' : Router) × (unpack_parcel utf fb part
            ≡ unpacked (to_second (told p tick n)))
          × (beat_connected utf fb payload data_of zmq p n r tick hb ≡ some (n, r'))
          × (r'.outgoing ≡ r.outgoing ++ framed (data_of part ∷ []))
    unfolding heartbeat_parcel create_parcel create_heartbeat beat_connected send_heartbeat texts_of
        text_or_none
    one_sent p tick n r c (t, texts) =
        let hb = heartbeat_table utf tick.host tick.now p.id tick.plugins in
        let (part, packed, e) =
          (unpack-pack_parcel utf round fb reads
              (heartbeat_parcel utf fb payload data_of zmq p tick hb n) p.id refl t).0
            c in
        (
          part,
          (send_transient_router_message zmq r (data_of part ∷ [])).1,
          e,
          rw texts (
              ap (λ o. Option.map (λ r'. (n, r')) (send_heartbeat utf fb payload data_of zmq r o))
                packed),
          ap (λ t. t.1.outgoing) (send_transient-framed zmq delivers (data_of part ∷ []) r),
        )

    beat_up :
        (p : Pulse) (n : ℕ) (r : Router) (tick : Tick X)
        → state_eq tick.state connected ≡ true
        → n + 1 < 2 ^ 32
        → beat utf fb payload data_of zmq p n r tick
          ≡ beat_connected utf fb payload data_of zmq p
              (n + 1)
              r
              tick
              (create_heartbeat utf tick.host tick.now p.id tick.plugins)
    unfolding beat
    beat_up p n r tick up few =
        let next : (n + 1) % 2 ^ 32 ≡ n + 1 = omega arith in rw (up, next) refl

    beat_down :
        (p : Pulse) (n : ℕ) (r : Router) (tick : Tick X)
        → state_eq tick.state connected ≡ false
        → beat utf fb payload data_of zmq p n r tick ≡ some (n, r)
    unfolding beat
    beat_down p n r tick down = rw down refl

    past_if : {A : Type 0} (b : Bool) (x y : A) → b ≡ false → (if b then x else y) ≡ y
    past_if b x y h = rw h refl

    loop-going :
        (p : Pulse) (n m : ℕ) (r r' : Router) (tick : Tick X) (ticks : List (Tick X))
        → tick.should_stop ≡ false
        → beat utf fb payload data_of zmq p n r tick ≡ some (m, r')
        → heartbeat_loop utf fb payload data_of zmq p n r (tick ∷ ticks)
          ≡ heartbeat_loop utf fb payload data_of zmq p m r' ticks
    unfolding heartbeat_loop
    loop-going p n m r r' tick ticks going e =
        past_if tick.should_stop (some r) _ going
        ∙ ap
            (λ (o : Option (ℕ × Router)). elim o as (λ x. Option Router) [
              | none ↦ none
              | some (next, after) ↦ heartbeat_loop utf fb payload data_of zmq p next after ticks
            ])
            e

    loop-Sent :
        (ticks : List (Tick X)) (p : Pulse) (n : ℕ) (r : Router)
        → n + length ticks < 2 ^ 32
        → CanSend p
        → All (CanTell p) ticks
        → Sent p n r (live ticks) (heartbeat_loop utf fb payload data_of zmq p n r ticks)
    unfolding heartbeat_loop
    loop-Sent [] p n r few c can = (r, [], refl, tt, sym (append-nil r.outgoing))
    loop-Sent (tick ∷ ticks) p n r few c can = elim (Bool-cases tick.should_stop) [
      | inl h ↦ rw h (r, [], refl, tt, sym (append-nil r.outgoing))
      | inr h ↦ elim (Bool-cases (state_eq tick.state connected)) [
        | inr down ↦
            (let (r', parts, e, read, rest) = loop-Sent ticks p n r (omega arith) c can.1 in
              let first = loop-going p n n r r tick ticks h (beat_down p n r tick down) in
              let same : live (tick ∷ ticks) ≡ live ticks = rw (h, down) refl in
              subst
                (λ ts.
                  Sent p n r ts (heartbeat_loop utf fb payload data_of zmq p n r (tick ∷ ticks)))
                (sym same) (r', parts, first ∙ e, read, rest))
        | inl up ↦
            (let (part, r1, reading, sent, out) = one_sent p tick (n + 1) r c can.0 in
              let first =
                loop-going p n (n + 1) r r1 tick ticks h
                  (beat_up p n r tick up (omega arith) ∙ sent) in
              let (r', parts, e, read, rest) = loop-Sent ticks p (n + 1) r1 (omega arith) c can.1 in
              let same : live (tick ∷ ticks) ≡ tick ∷ live ticks = rw (h, up) refl in
              subst
                (λ ts.
                  Sent p n r ts (heartbeat_loop utf fb payload data_of zmq p n r (tick ∷ ticks)))
                (sym same)
                (
                  r',
                  part ∷ parts,
                  first ∙ e,
                  (reading, read),
                  rest
                      ∙ ap (λ t. t ++ frames_of data_of parts) out
                      ∙ append_assoc r.outgoing (framed (data_of part ∷ []))
                          (frames_of data_of parts),
                ))
      ]
    ]

    -- The heartbeats that the thread sends, over fewer than 2^32 rounds: one in every round with a
    -- connection before the agent stops, and none in another. The other side reads from them the
    -- agent's identity as the sender, the recipient of heartbeats, the boot count as the major
    -- number, as the minor numbers 1, 2, 3 and so on without a gap, and as the payload the table of
    -- what the plugins then said. Every part is taken, the times are below 2^53, the texts are ones
    -- that `yella_to_utf8` converts, and what ICU converted and FlatBuffers wrote is read back.
    pub heartbeat_thr_lem :
        (ticks : List (Tick X)) (p : Pulse) (r : Router)
        → length ticks < 2 ^ 32
        → CanSend p
        → All (CanTell p) ticks
        → (r' : Router) × (parts : List B) × (heartbeat_thr utf fb payload data_of zmq p r ticks
            ≡ some r')
          × Reads (unpack_parcel utf fb) parts (numbered p 0 (live ticks))
          × (r'.outgoing ≡ r.outgoing ++ frames_of data_of parts)
    unfolding heartbeat_thr
    heartbeat_thr_lem ticks p r few c can = loop-Sent ticks p 0 r (omega arith) c can
