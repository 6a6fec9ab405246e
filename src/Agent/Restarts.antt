-- ===== src/Agent/Restarts.antt =====
-- The identity and the numbers of an agent's starts (agent/agent/agent.c: yella_create_agent, over
-- agent/agent/saved_state.c).
use yella.Prelude.{
  ℕ, suc, ◌+◌, ◌%◌, ◌^◌, ◌<◌, ◌≡◌, refl, ap, ◌∙◌, arith, Bool, true, false, List, [], ◌∷◌, Option,
  none, some, length, All, inl, inr, ◌⊎◌, if◌then◌else◌, Text, text_eq_refl,
}
use mathlib.Core.Option
use yella.External.{Flatcc, ReadsBack}
use yella.Sglib.Tree.{TreeOps, TreeLaws}
use yella.Spool.State.{Spool}
use yella.SavedState.{
  Octets, SavedState, FbSavedState, StateFile, no_file, holding, reset_ss, count_start,
  saved_state_to_fb, load_saved_state, save_saved_state,
}
use yella.SavedState.Boots.{next_start, load_written}
use yella.Router.{set_router_message_received_callback}
use yella.Agent.{Handler, Agent}
use yella.Agent.Loading.{caps, of_files, latest, load_plugins_lem}
use yella.Agent.Start.{Host, start_plugins, start_router, start_loaded, create_agent}

-- A host with this first address, where the directories can be made and the state is written whole.
pub record CanStart (n : Octets) (h : Host) : Type 0 where
  pub data_dir : h.data_dir_made ≡ true
  pub plugin_dir : h.plugin_dir_made ≡ true
  pub addresses : (ns : List Octets) × (h.addrs ≡ n ∷ ns)
  pub opens : h.opens ≡ true
  pub written : h.written ≡ true

module _ {H S B : Type 0} (handlers : TreeOps H Handler) (senders : TreeOps S (Option ℕ))
    (id_text : Octets → Text) (fb : Flatcc B FbSavedState) (has_identifier : B → Bool) where
  -- Several starts in turn.
  abbrev pub starts : ℕ → List Host → StateFile B → Option (List (Option (Agent H S)) × StateFile B)
  starts fuel [] file = some ([], file)
  starts fuel (h ∷ hs) file =
      elim (create_agent handlers senders id_text fb has_identifier fuel h file) [
        | none ↦ none
        | some (ag, file') ↦ elim (starts fuel hs file') [
          | none ↦ none
          | some (ags, file'') ↦ some (ag ∷ ags, file'')
        ]
      ]

  -- What a start gives: an agent with this identity and number, or none for want of a router's name
  -- or of a spool.
  abbrev pub Started : Octets → ℕ → Host → Option (Agent H S) → Type 0
  Started id n h none = (h.router_named ≡ false) ⊎ (h.spool ≡ none)
  Started id n h (some ag) =
      (ag.id ≡ id_text id)
      × (ag.boot_count ≡ n)
      × (ag.rtr.recv_callback ≡ true)
      × ((q : Text)
          → handlers.find ag.in_handlers q ≡ latest q (of_files (λ so p. caps p) h.files) none)

  -- Starts that are numbered from a number on.
  abbrev pub Numbered : Octets → ℕ → List Host → List (Option (Agent H S)) → Type 0
  Numbered id n [] [] = Unit
  Numbered id n (h ∷ hs) (ag ∷ ags) = Started id n h ag × Numbered id (n + 1) hs ags
  Numbered id n _ _ = ⊥

  module _ (laws : TreeLaws handlers) where
    start_plugins-Started :
        (ss : SavedState) (h : Host) (named : Bool) (spool : Option Spool)
        → h.router_named ≡ named
        → h.spool ≡ spool
        → Started ss.id ss.boot_count h
            (if named then Option.map (start_plugins handlers senders id_text ss h) spool else none)
    unfolding start_plugins set_router_message_received_callback
    start_plugins-Started ss h false spool unnamed e = inl unnamed
    start_plugins-Started ss h true none named absent = inr absent
    start_plugins-Started ss h true (some sp) named there =
        let l = load_plugins_lem handlers senders laws h.files _ laws.empty-IsTree in
        (
          l.kept.0,
          l.kept.3,
          refl,
          λ q. l.found q ∙ ap (latest q (of_files (λ so p. caps p) h.files)) (laws.find-empty q),
        )

    start_router-Started :
        (ss : SavedState) (h : Host)
        → Started ss.id ss.boot_count h (start_router handlers senders id_text ss h)
    unfolding start_router
    start_router-Started ss h = start_plugins-Started ss h h.router_named h.spool refl refl

  one_start :
      (fuel : ℕ) (h : Host) (n : Octets) (ss : SavedState) (file file' : StateFile B)
      → CanStart n h
      → load_saved_state fb has_identifier h.uuid h.addrs fuel file ≡ some (ss, file')
      → create_agent handlers senders id_text fb has_identifier fuel h file
        ≡ some (
          start_router handlers senders id_text ss h,
          holding (fb.finalize (saved_state_to_fb ss)),
        )
  unfolding create_agent start_loaded save_saved_state
  one_start fuel h n ss file file' can e =
      rw (can.data_dir, can.plugin_dir, e, can.opens, can.written) refl

  starts-cons :
      (fuel : ℕ) (h : Host) (hs : List Host) (file file' last : StateFile B)
      (ag : Option (Agent H S)) (ags : List (Option (Agent H S)))
      → create_agent handlers senders id_text fb has_identifier fuel h file ≡ some (ag, file')
      → starts fuel hs file' ≡ some (ags, last)
      → starts fuel (h ∷ hs) file ≡ some (ag ∷ ags, last)
  starts-cons fuel h hs file file' last ag ags e f = rw (starts, e, f) refl

  module _ (laws : TreeLaws handlers) (reads : ReadsBack fb)
      (identified : (t : FbSavedState) → has_identifier (fb.finalize t) ≡ true) where
    -- The load of a state with the host's first address.
    load_same :
        (fuel : ℕ) (uuid n : Octets) (addrs ns ms : List Octets) (ss : SavedState)
        → ss.mac_addresses ≡ n ∷ ns
        → addrs ≡ n ∷ ms
        → ss.boot_count + 1 < 2 ^ 32
        → let raw = fb.finalize (saved_state_to_fb ss) in
          load_saved_state fb has_identifier uuid addrs (suc fuel) (holding raw)
          ≡ some (record ss { boot_count = ss.boot_count + 1 }, holding raw)
    load_same fuel uuid n addrs ns ms ss e f few =
        let raw = fb.finalize (saved_state_to_fb ss) in
        let counted : (ss.boot_count + 1) % 2 ^ 32 ≡ ss.boot_count + 1 = omega arith in
        load_written fb reads has_identifier identified fuel uuid addrs ss
        ∙ ap (λ as'. next_start uuid as' ss ss.mac_addresses raw) f
        ∙ ap (λ os. next_start uuid (n ∷ ms) ss os raw) e
        ∙ rw (text_eq_refl n) (ap (λ c. some (record ss { boot_count = c }, holding raw)) counted)

    starts_on :
        (hs : List Host) (fuel : ℕ) (n : Octets) (ss : SavedState) (ns : List Octets)
        → ss.mac_addresses ≡ n ∷ ns
        → All (CanStart n) hs
        → ss.boot_count + length hs < 2 ^ 32
        → (ags : List (Option (Agent H S))) × (last : StateFile B) × (starts
              (suc fuel)
              hs
              (holding (fb.finalize (saved_state_to_fb ss)))
            ≡ some (ags, last))
          × Numbered ss.id (ss.boot_count + 1) hs ags
    starts_on [] fuel n ss ns e can few = ([], holding _, refl, tt)
    starts_on (h ∷ hs) fuel n ss ns e can few =
        let next = record ss { boot_count = ss.boot_count + 1 } in
        let (ms, addrs) = can.0.addresses in
        let loaded = load_same fuel h.uuid n h.addrs ns ms ss e addrs (omega arith) in
        let (ags, last, rest, numbered) = starts_on hs fuel n next ns e can.1 (omega arith) in
        (
          start_router handlers senders id_text next h ∷ ags,
          last,
          starts-cons (suc fuel) h hs _ _ last _ ags
              (one_start (suc fuel) h n next _ _ can.0 loaded) rest,
          (start_router-Started laws next h, numbered),
        )

    -- The starts of an agent on a host that keeps its first address, from the first one on, when
    -- there is no file yet, fewer than 2^32. They all end, and are numbered 1, 2, 3 and so on; each
    -- makes an agent with its number as the boot count, the identity of the first start, the handlers
    -- of its plugins' last capabilities of each name, and its messages received, or makes none for
    -- want of a router's name or of a spool, and counts all the same. The directories can be made and
    -- the state is always written whole; what FlatBuffers wrote is read back, with its identifier.
    pub starts_lem :
        (fuel : ℕ) (n : Octets) (h : Host) (hs : List Host)
        → All (CanStart n) (h ∷ hs)
        → length (h ∷ hs) < 2 ^ 32
        → (ags : List (Option (Agent H S))) × (last : StateFile B) × (starts
              (suc fuel)
              (h ∷ hs)
              no_file
            ≡ some (ags, last))
          × Numbered h.uuid 1 (h ∷ hs) ags
    unfolding load_saved_state reset_ss count_start
    starts_lem fuel n h hs can few =
        let first : SavedState = record { id = h.uuid; mac_addresses = h.addrs; boot_count = 1 } in
        let (ns, addrs) = can.0.addresses in
        let (ags, last, rest, numbered) = starts_on hs fuel n first ns addrs can.1 (omega arith) in
        (
          start_router handlers senders id_text first h ∷ ags,
          last,
          starts-cons (suc fuel) h hs no_file _ last _ ags
              (one_start (suc fuel) h n first no_file no_file can.0 refl) rest,
          (start_router-Started laws first h, numbered),
        )
