-- ===== src/SavedState/Boots.antt =====
-- The identity of the agent from one start to the next (agent/agent/saved_state.c).
use yella.Prelude.{
  ℕ, zero, suc, ◌+◌, ◌%◌, ◌^◌, ◌≡◌, refl, ap, ◌∙◌, Bool, true, false, List, [], ◌∷◌, Option, none,
  some, if◌then◌else◌, arith, length, text_eq, Bool-cases, inl, inr,
}
use yella.External.{Flatcc, ReadsBack}
use yella.SavedState.{
  Octets, SavedState, FbSavedState, StateFile, no_file, holding, saved, same_at, scan_addresses,
  changed_from, mac_addresses_changed, reset_ss, count_start, addresses_to_fb, saved_state_to_fb,
  recreated, read_table, load_saved_state, save_saved_state,
}

-- What the comparison of the addresses comes to: only the first ones matter, and where they differ
-- it has no end.
abbrev pub first_only : List Octets → List Octets → Option Bool
first_only [] new_addrs = some true
first_only (o ∷ old_addrs) [] = some true
first_only (o ∷ old_addrs) (n ∷ new_addrs) = if text_eq o n then some false else none

scan_past :
    (fuel i : ℕ) (new_addrs : List Octets) → scan_addresses (suc fuel) [] new_addrs i ≡ some true
unfolding scan_addresses
scan_past fuel i new_addrs = ground arith

changed_past :
    (left fuel i : ℕ) (new_addrs : List Octets)
    → changed_from left (suc fuel) [] new_addrs i ≡ some true
unfolding changed_from
changed_past zero fuel i new_addrs = refl
changed_past (suc left) fuel i new_addrs =
    rw (scan_past fuel i new_addrs, changed_from) (changed_past left fuel (i + 1) new_addrs)

scan_first :
    (fuel : ℕ) (o n : Octets) (old_addrs new_addrs : List Octets)
    → scan_addresses (suc fuel) (o ∷ old_addrs) (n ∷ new_addrs) 0
      ≡ (if text_eq o n then some false else none)
unfolding scan_addresses same_at
scan_first zero o n old_addrs new_addrs = ground arith
scan_first (suc fuel) o n old_addrs new_addrs =
    ground (arith, scan_first fuel o n old_addrs new_addrs)

-- Of the addresses that were saved and those that the host has, only the first ones are compared. If
-- these are the same, the addresses count as unchanged, however the others differ; if they differ,
-- the comparison never ends, as no fuel is enough; and if there are none on one side, they count as
-- changed.
pub mac_addresses_changed_lem :
    (fuel : ℕ) (old_addrs new_addrs : List Octets)
    → mac_addresses_changed (suc fuel) old_addrs new_addrs ≡ first_only old_addrs new_addrs
unfolding mac_addresses_changed changed_from
mac_addresses_changed_lem fuel [] new_addrs = changed_past (length new_addrs) fuel 0 new_addrs
mac_addresses_changed_lem fuel (o ∷ old_addrs) [] = refl
mac_addresses_changed_lem fuel (o ∷ old_addrs) (n ∷ new_addrs) = elim (Bool-cases (text_eq o n)) [
  | inl e ↦ ground (arith, e, scan_first fuel o n old_addrs new_addrs)
  | inr e ↦ ground (arith, e, scan_first fuel o n old_addrs new_addrs)
]

-- The state and the file at the next start, on a host with these addresses, where `uuid` is a new
-- identity: of an agent without addresses, and else by the first ones.
abbrev pub next_start :
    {B : Type 0}
    → Octets
    → List Octets
    → SavedState
    → List Octets
    → B
    → Option (SavedState × StateFile B)
next_start uuid addrs ss [] raw =
    some (record { id = uuid; mac_addresses = addrs; boot_count = 1 }, no_file)
next_start uuid [] ss (o ∷ old_addrs) raw =
    some (record { id = uuid; mac_addresses = []; boot_count = 1 }, holding raw)
next_start uuid (n ∷ addrs) ss (o ∷ old_addrs) raw =
    if text_eq o n
    then some (record ss { boot_count = (ss.boot_count + 1) % 2 ^ 32 }, holding raw)
    else none

module _ {B : Type 0} (fb : Flatcc B FbSavedState) (reads : ReadsBack fb)
    (has_identifier : B → Bool)
    (identified : (t : FbSavedState) → has_identifier (fb.finalize t) ≡ true) where
  read_saved :
      (fuel : ℕ) (uuid : Octets) (addrs old_addrs : List Octets) (ss : SavedState) (raw : B)
      → ss.mac_addresses ≡ old_addrs
      → read_table fb has_identifier uuid addrs
          (suc fuel)
          raw
          (saved_state_to_fb ss)
          (some ss.id)
          (addresses_to_fb old_addrs)
        ≡ next_start uuid addrs ss old_addrs raw
  unfolding read_table addresses_to_fb saved_state_to_fb recreated count_start reset_ss
  read_saved fuel uuid addrs [] ss raw e = refl
  read_saved fuel uuid [] (o ∷ old_addrs) ss raw e =
      rw (mac_addresses_changed_lem fuel (o ∷ old_addrs) [], read_table) refl
  read_saved fuel uuid (n ∷ addrs) (o ∷ old_addrs) ss raw e = elim (Bool-cases (text_eq o n)) [
    | inl same ↦ ground (arith, same, mac_addresses_changed_lem fuel (o ∷ old_addrs) (n ∷ addrs))
    | inr other ↦ ground (arith, other, mac_addresses_changed_lem fuel (o ∷ old_addrs) (n ∷ addrs))
  ]

  -- The load of a state that was saved whole.
  pub load_written :
      (fuel : ℕ) (uuid : Octets) (addrs : List Octets) (ss : SavedState)
      → let raw = fb.finalize (saved_state_to_fb ss) in
        load_saved_state fb has_identifier uuid addrs (suc fuel) (holding raw)
        ≡ next_start uuid addrs ss ss.mac_addresses raw
  unfolding load_saved_state saved_state_to_fb addresses_to_fb
  load_written fuel uuid addrs ss =
      let raw = fb.finalize (saved_state_to_fb ss) in
      rw (identified (saved_state_to_fb ss)) (
        ap
          (λ tbl. read_table fb has_identifier uuid addrs (suc fuel) raw tbl tbl.uuid tbl.mac_addrs)
          (reads (saved_state_to_fb ss))
        ∙ read_saved fuel uuid addrs ss.mac_addresses ss raw refl)

  -- What becomes of the agent's identity at the next start, after the state was saved whole. If its
  -- first address is the host's first one, the agent has the identity and the addresses that it had,
  -- and its count of starts is one more, in 32 bits. If the first addresses differ, the load never
  -- ends. If the host has no address now, the agent gets a new identity, with one start
  -- counted. If it had none when it was saved, the same, and the file counts as corrupt and is
  -- removed. What FlatBuffers wrote is read back, with its identifier.
  pub load-save_saved_state :
      (fuel : ℕ) (uuid : Octets) (addrs : List Octets) (ss : SavedState) (file : StateFile B)
      → (raw : B) × (save_saved_state fb has_identifier ss true true file ≡ (saved, holding raw))
        × (load_saved_state fb has_identifier uuid addrs (suc fuel) (holding raw)
            ≡ next_start uuid addrs ss ss.mac_addresses raw)
  unfolding save_saved_state
  load-save_saved_state fuel uuid addrs ss file =
      (fb.finalize (saved_state_to_fb ss), refl, load_written fuel uuid addrs ss)
