-- ===== src/Examples/Charting.antt =====
-- A run of the EDDN worker on the table of systems.
use elitehub_vault.Base.{codes, [], ◌∷◌, none, some, true, ◌≡◌, refl}
use elitehub_vault.Worker.Enums.{FactionGovernment}
use elitehub_vault.Worker.Systems.{System, build_partial_system_data, upsert_row, upsert_system}
use elitehub_vault.Worker.Systems.Upserted.{IsUpsertedSystem, upsert_system-IsUpsertedSystem}
use elitehub_vault.Examples.Storing.{keep_text}
use elitehub_vault.Examples.Syncing.{landing}

abbrev sol : System
sol = record {
  id = codes "s";
  name = codes "Old Sol";
  system_address = 1;
  x = 0;
  y = 0;
  z = 0;
  population = 20;
  government = some FactionGovernment.democracy;
  allegiance = none;
  economy = none;
  second_economy = none;
  security = none;
  powerplay_state = none;
  powerplay_state_control_progress = none;
  powerplay_state_reinforcement = none;
  powerplay_state_undermining = none;
  created_at = 1;
  updated_at = 1;
}

-- A Docked message renames the system and keeps its population and its government.
abbrev new_sol : System
new_sol = record sol { name = codes "Sol"; updated_at = 8 }

renamed :
    upsert_system
      (λ rows. codes "n")
      (λ d. true)
      (build_partial_system_data keep_text landing)
      8
      (sol ∷ [])
    ≡ some (new_sol, new_sol ∷ [])
unfolding build_partial_system_data upsert_system upsert_row
renamed = refl

upsert_system-IsUpsertedSystem_example :
    IsUpsertedSystem
      (λ rows. codes "n")
      (λ d. true)
      (build_partial_system_data keep_text landing)
      8
      (sol ∷ [])
      (new_sol, new_sol ∷ [])
upsert_system-IsUpsertedSystem_example =
    upsert_system-IsUpsertedSystem (λ rows. codes "n") (λ d. true)
      (build_partial_system_data keep_text landing) 8 (sol ∷ []) (new_sol, new_sol ∷ []) renamed
