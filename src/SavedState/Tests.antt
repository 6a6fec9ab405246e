-- ===== src/SavedState/Tests.antt =====
-- The agent's identity at concrete inputs, with a buffer that is the table.
use yella.Prelude.{◌≡◌, refl, Bool, true, [], ◌∷◌, some}
use yella.External.{Flatcc}
use yella.SavedState.{
  SavedState, FbSavedState, no_file, holding, saved, load_saved_state, save_saved_state,
}
use yella.SavedState.Boots.{load-save_saved_state}

abbrev tables : Flatcc FbSavedState FbSavedState
tables = record { finalize = λ t. t; as_root = λ t. t }

abbrev known : FbSavedState → Bool
known t = true

abbrev state : SavedState
state = record {
  id = 1 ∷ 2 ∷ [];
  mac_addresses = (10 ∷ 11 ∷ []) ∷ (20 ∷ 21 ∷ []) ∷ [];
  boot_count = 6;
}

load-save_saved_state_example :
    (raw : FbSavedState) × (save_saved_state tables known state true true no_file
      ≡ (saved, holding raw))
    × (load_saved_state tables known (9 ∷ []) ((10 ∷ 11 ∷ []) ∷ []) 3 (holding raw)
        ≡ some (record state { boot_count = 7 }, holding raw))
load-save_saved_state_example =
    load-save_saved_state tables (λ t. refl) known (λ t. refl) 2 (9 ∷ []) ((10 ∷ 11 ∷ []) ∷ [])
      state no_file
