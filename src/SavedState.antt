-- ===== src/SavedState.antt =====
-- The identity of the agent and the count of its starts, which it keeps in a file
-- (agent/agent/saved_state.c, agent/agent/serialization/private/saved_state.fbs).
use yella.Prelude.{
  ℕ, zero, suc, ◌+◌, ◌%◌, ◌^◌, Bool, true, false, List, [], ◌∷◌, map, Option, none, some, ltb,
  if◌then◌else◌, length, get_elem?, Text, text_eq,
}
use yella.External.{Flatcc}
pub mod Boots
mod Tests

-- The bytes of an address or of a UUID; `memcmp() == 0` is `text_eq`.
abbrev pub Octets : Type 0
Octets = Text

-- `yella_saved_state`; the texts of the UUID and of the addresses are made of the bytes.
pub record SavedState : Type 0 where
  pub id : Octets
  pub mac_addresses : List Octets
  pub boot_count : ℕ

-- The table; a vector that was not added is `none`.
pub record FbSavedState : Type 0 where
  pub boot_count : ℕ
  pub uuid : Option Octets
  pub mac_addrs : Option (List Octets)

-- The file: that there is none, that it cannot be read, or its bytes.
pub data StateFile (B : Type 0) : Type 0 where
  no_file : StateFile B
  unreadable : StateFile B
  holding : B → StateFile B

pub data SaveRc : Type 0 where
  saved write_error : SaveRc

unfoldable pub same_at : List Octets → List Octets → ℕ → Bool
same_at old_addrs new_addrs i = elim (get_elem? old_addrs i) [
  | none ↦ false
  | some old ↦ elim (get_elem? new_addrs i) [ none ↦ false | some new ↦ text_eq old new ]
]

-- The inner loop of `mac_addresses_changed` on fuel: its condition, and what it reads, is of `i`.
unfoldable pub scan_addresses : ℕ → List Octets → List Octets → ℕ → Option Bool
scan_addresses zero old_addrs new_addrs i = none
scan_addresses (suc fuel) old_addrs new_addrs i =
    let rest = scan_addresses fuel old_addrs new_addrs i in
    if ltb i (length old_addrs)
    then (if same_at old_addrs new_addrs i then some false else rest)
    else some true

-- The outer loop, with so many addresses left.
unfoldable pub changed_from : ℕ → ℕ → List Octets → List Octets → ℕ → Option Bool
changed_from zero fuel old_addrs new_addrs i = some true
changed_from (suc left) fuel old_addrs new_addrs i =
    elim (scan_addresses fuel old_addrs new_addrs i) [
      | none ↦ none
      | some false ↦ some false
      | some true ↦ changed_from left fuel old_addrs new_addrs (i + 1)
    ]

-- `mac_addresses_changed`; `none` is that the fuel ran out.
unfoldable pub mac_addresses_changed : ℕ → List Octets → List Octets → Option Bool
mac_addresses_changed fuel old_addrs new_addrs =
    changed_from (length new_addrs) fuel old_addrs new_addrs 0

-- `reset_ss`, with what `yella_create_uuid` and `yella_get_mac_addresses` return
unfoldable pub reset_ss : Octets → List Octets → SavedState
reset_ss uuid addrs = record { id = uuid; mac_addresses = addrs; boot_count = 0 }

unfoldable pub count_start : SavedState → SavedState
count_start ss = record ss { boot_count = (ss.boot_count + 1) % 2 ^ 32 }

-- The vector of the addresses, which is there if it is not empty.
unfoldable pub addresses_to_fb : List Octets → Option (List Octets)
addresses_to_fb [] = none
addresses_to_fb (addr ∷ addrs) = some (addr ∷ addrs)

unfoldable pub saved_state_to_fb : SavedState → FbSavedState
saved_state_to_fb ss = record {
  boot_count = ss.boot_count;
  uuid = some ss.id;
  mac_addrs = addresses_to_fb ss.mac_addresses;
}

module _ {B : Type 0} (fb : Flatcc B FbSavedState) (has_identifier : B → Bool) where
  module _ (uuid : Octets) (addrs : List Octets) where
    -- The state of a file that is corrupt, which is removed.
    unfoldable pub recreated : SavedState × StateFile B
    recreated = (count_start (reset_ss uuid addrs), no_file)

    unfoldable pub read_table :
        ℕ
        → B
        → FbSavedState
        → Option Octets
        → Option (List Octets)
        → Option (SavedState × StateFile B)
    read_table fuel raw tbl (some id) (some old_addrs) =
        elim (mac_addresses_changed fuel old_addrs addrs) [
          | none ↦ none
          | some true ↦ some (count_start (reset_ss uuid addrs), holding raw)
          | some false ↦ some (
            count_start
                (record { id = id; mac_addresses = old_addrs; boot_count = tbl.boot_count }),
            holding raw,
          )
        ]
    read_table fuel raw tbl _ _ = some recreated

    -- `yella_load_saved_state`: the state and the file; `none` is that the fuel ran out.
    unfoldable pub load_saved_state : ℕ → StateFile B → Option (SavedState × StateFile B)
    load_saved_state fuel no_file = some (count_start (reset_ss uuid addrs), no_file)
    load_saved_state fuel unreadable = some recreated
    load_saved_state fuel (holding raw) =
        let tbl = fb.as_root raw in
        let read = read_table fuel raw tbl tbl.uuid tbl.mac_addrs in
        if has_identifier raw then read else some recreated

  -- `yella_save_saved_state`: whether the file opens, and whether all is written to it.
  unfoldable pub save_saved_state : SavedState → Bool → Bool → StateFile B → SaveRc × StateFile B
  save_saved_state ss false written file = (write_error, file)
  save_saved_state ss true false file = (write_error, no_file)
  save_saved_state ss true true file = (saved, holding (fb.finalize (saved_state_to_fb ss)))
