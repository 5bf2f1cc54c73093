-- ===== src/Worker/Systems.antt =====
-- apps/eddn-worker/src/mq/queues/eddn/helpers/systemHelpers.ts: the upsert of a system and the signals
-- that an event must have for it. The table is the list of its rows.
pub mod Upserted
use elitehub_vault.Base.{
  ℕ, zero, suc, Text, text_eq, nat_eq, List, [], ◌∷◌, Option, none, some, Bool, true, false, not,
  ◌&&◌, ◌||◌, ltb, ◌==◌, if◌then◌else◌, length, or_else,
}
use elitehub_vault.Worker.Enums.{
  SystemSecurity, FactionGovernment, Allegiance, Economy, PowerplayState,
}
use elitehub_vault.Worker.Values.{
  Field, undefined, null, value, map_government, map_allegiance, map_economy, map_security,
  map_powerplay_state,
}
use elitehub_vault.Worker.Messages.{Double, LocationMessage, FsdJumpMessage, DockedMessage}
use elitehub_vault.Worker.Stations.{set_to}
use elitehub_vault.Worker.Stations.Arrivals.{is_excluded_station, is_text}

-- A row of the table, without the position that Postgres computes and the ids that others set.
pub record System : Type 0 where
  pub id : Text
  pub name : Text
  pub system_address : ℕ
  pub x : Double
  pub y : Double
  pub z : Double
  pub population : ℕ
  pub government : Option FactionGovernment
  pub allegiance : Option Allegiance
  pub economy : Option Economy
  pub second_economy : Option Economy
  pub security : Option SystemSecurity
  pub powerplay_state : Option PowerplayState
  pub powerplay_state_control_progress : Option Double
  pub powerplay_state_reinforcement : Option Double
  pub powerplay_state_undermining : Option Double
  pub created_at : ℕ
  pub updated_at : ℕ

-- What `buildFullSystemData` and `buildPartialSystemData` make; the latter leaves the rest undefined.
pub record SystemData : Type 0 where
  pub name : Text
  pub system_address : ℕ
  pub x : Option Double
  pub y : Option Double
  pub z : Option Double
  pub population : Option ℕ
  pub government : Field FactionGovernment
  pub allegiance : Field Allegiance
  pub economy : Field Economy
  pub second_economy : Field Economy
  pub security : Field SystemSecurity
  pub powerplay_state : Field PowerplayState
  pub powerplay_state_control_progress : Option Double
  pub powerplay_state_reinforcement : Option Double
  pub powerplay_state_undermining : Option Double

-- `StarPos[i]`.
abbrev pub star_pos_at : ℕ → List Double → Option Double
star_pos_at i [] = none
star_pos_at zero (x ∷ xs) = some x
star_pos_at (suc i) (x ∷ xs) = star_pos_at i xs

abbrev pub is_value {ℓ} : {A : Type ℓ} → Field A → Bool
is_value undefined = false
is_value null = false
is_value (value a) = true

abbrev pub is_number : Option ℕ → Bool
is_number none = false
is_number (some n) = not (n == 0)

abbrev pub count {ℓ} : {A : Type ℓ} → Option (List A) → ℕ
count none = 0
count (some xs) = length xs

module _ (lower : Text → Text) where
  unfoldable pub build_full_system_data : LocationMessage → SystemData
  build_full_system_data message = record {
    name = message.star_system;
    system_address = message.system_address;
    x = star_pos_at 0 message.star_pos;
    y = star_pos_at 1 message.star_pos;
    z = star_pos_at 2 message.star_pos;
    population = some message.population;
    government = map_government lower (some message.system_government);
    allegiance = map_allegiance lower (some message.system_allegiance);
    economy = map_economy lower (some message.system_economy);
    second_economy = map_economy lower (some message.system_second_economy);
    security = map_security lower (some message.system_security);
    powerplay_state = map_powerplay_state lower message.powerplay_state;
    powerplay_state_control_progress = message.powerplay_state_control_progress;
    powerplay_state_reinforcement = message.powerplay_state_reinforcement;
    powerplay_state_undermining = message.powerplay_state_undermining;
  }

  unfoldable pub build_partial_system_data : DockedMessage → SystemData
  build_partial_system_data message = record {
    name = message.star_system;
    system_address = message.system_address;
    x = star_pos_at 0 message.star_pos;
    y = star_pos_at 1 message.star_pos;
    z = star_pos_at 2 message.star_pos;
    population = none;
    government = undefined;
    allegiance = undefined;
    economy = undefined;
    second_economy = undefined;
    security = undefined;
    powerplay_state = undefined;
    powerplay_state_control_progress = none;
    powerplay_state_reinforcement = none;
    powerplay_state_undermining = none;
  }

  -- `shouldUpsertSystem` of a Location message.
  unfoldable pub should_upsert_system : LocationMessage → SystemData → Bool
  unfolding is_excluded_station
  should_upsert_system message system =
      let has_population = ltb 0 (or_else system.population 0) in
      let has_government = is_value system.government in
      let has_factions = ltb 0 (count message.factions) in
      let has_station =
        not (is_excluded_station lower message.station_government)
        && (message.docked
            || is_text lower message.station_name
            || is_number message.market_id
            || is_text lower message.station_type) in
      has_population || has_government || has_factions || has_station

  -- `shouldUpsertSystem` of an FSDJump message, which has no station.
  unfoldable pub should_upsert_system_from_jump : FsdJumpMessage → SystemData → Bool
  should_upsert_system_from_jump message system =
      ltb 0 (or_else system.population 0)
      || is_value system.government
      || ltb 0 (count message.factions)

  unfoldable pub should_upsert_system_from_docked : DockedMessage → Bool
  unfolding is_excluded_station
  should_upsert_system_from_docked message =
      not (is_excluded_station lower (some message.station_government))

-- `set` of an update: a column that is undefined is left as it is.
abbrev pub set_number : Option ℕ → Option ℕ → Option ℕ
set_number none old = old
set_number (some n) old = some n

abbrev pub set_system : SystemData → ℕ → System → System
set_system values now row = record {
  id = row.id;
  name = values.name;
  system_address = values.system_address;
  x = or_else values.x row.x;
  y = or_else values.y row.y;
  z = or_else values.z row.z;
  population = or_else values.population row.population;
  government = set_to values.government row.government;
  allegiance = set_to values.allegiance row.allegiance;
  economy = set_to values.economy row.economy;
  second_economy = set_to values.second_economy row.second_economy;
  security = set_to values.security row.security;
  powerplay_state = set_to values.powerplay_state row.powerplay_state;
  powerplay_state_control_progress =
      set_number values.powerplay_state_control_progress row.powerplay_state_control_progress;
  powerplay_state_reinforcement =
      set_number values.powerplay_state_reinforcement row.powerplay_state_reinforcement;
  powerplay_state_undermining =
      set_number values.powerplay_state_undermining row.powerplay_state_undermining;
  created_at = row.created_at;
  updated_at = now;
}

-- The defaults; the insert schema lets no data without coordinates through.
abbrev pub blank_system : Text → SystemData → ℕ → System
blank_system id values now = record {
  id = id;
  name = values.name;
  system_address = values.system_address;
  x = 0;
  y = 0;
  z = 0;
  population = 0;
  government = none;
  allegiance = none;
  economy = none;
  second_economy = none;
  security = none;
  powerplay_state = none;
  powerplay_state_control_progress = none;
  powerplay_state_reinforcement = none;
  powerplay_state_undermining = none;
  created_at = now;
  updated_at = now;
}

-- `new_id` is the random id of a new row, `parses` the insert schema, which throws where it is false.
module _ (new_id : List System → Text) (parses : SystemData → Bool) where
  -- `insert … on conflict (systemAddress) do update … returning`.
  unfoldable pub upsert_row : SystemData → ℕ → List System → List System → System × List System
  upsert_row values now all [] = (
    set_system values now (blank_system (new_id all) values now),
    set_system values now (blank_system (new_id all) values now) ∷ [],
  )
  upsert_row values now all (row ∷ rows) =
      let rest = upsert_row values now all rows in
      if row.system_address == values.system_address
      then (set_system values now row, set_system values now row ∷ rows)
      else (rest.0, row ∷ rest.1)

  unfoldable pub upsert_system : SystemData → ℕ → List System → Option (System × List System)
  unfolding upsert_row
  upsert_system values now rows =
      if parses values then some (upsert_row values now rows rows) else none
