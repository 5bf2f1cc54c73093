-- ===== src/Worker/Stations/Upserts.antt =====
-- apps/eddn-worker/src/mq/queues/eddn/helpers/stationHelpers.ts and strongholdCarrierHelpers.ts: the
-- upserts of a station. The messages to the log and to Sentry are left out here.
use elitehub_vault.Base.{
  ℕ, Text, text_eq, nat_eq, codes, List, [], ◌∷◌, Option, none, some, Bool, true, false, not, ◌&&◌,
  ◌||◌, ◌==◌, if◌then◌else◌, keep, contains,
}
use elitehub_vault.Worker.Enums.{StationType, Economy, PowerplayState}
use elitehub_vault.Worker.Services.{prepare_station_write_payload}
use elitehub_vault.Worker.Stations.{
  Station, StationInsert, Postgres, to_option, is_named, find_station_by_market_id,
  find_station_by_system_and_name, update_station_by_id, insert_station, delete_station_by_id,
}

abbrev pub stronghold_carrier_name : Text
stronghold_carrier_name = codes "Stronghold Carrier"

abbrev pub stronghold_carrier_names : List Text
stronghold_carrier_names =
    stronghold_carrier_name
    ∷ codes "Hochburg-Carrier"
    ∷ codes "Portanaves bastión"
    ∷ codes "Porte-vaisseaux de forteresse"
    ∷ codes "Transportadora da potência"
    ∷ codes "Носитель-база"
    ∷ []

abbrev pub is_planetary_outpost : Option StationType → Bool
is_planetary_outpost (some StationType.planetary_outpost) = true
is_planetary_outpost type = false

abbrev pub is_high_tech : Option Economy → Bool
is_high_tech (some Economy.high_tech) = true
is_high_tech economy = false

abbrev pub is_count : ℕ → Option ℕ → Bool
is_count n none = false
is_count n (some m) = m == n

abbrev pub has_stronghold_carrier_characteristics : StationInsert → Bool
has_stronghold_carrier_characteristics station =
    is_planetary_outpost (to_option station.station_type)
    && is_high_tech (to_option station.economy)
    && is_count 4 station.landing_pads_small
    && is_count 4 station.landing_pads_medium
    && is_count 2 station.landing_pads_large

unfoldable pub is_stronghold_carrier : StationInsert → Bool
is_stronghold_carrier station =
    (station.name == stronghold_carrier_name) && has_stronghold_carrier_characteristics station

unfoldable pub normalize_stronghold_carrier_name : StationInsert → StationInsert
normalize_stronghold_carrier_name station =
    if not (contains station.name stronghold_carrier_names)
      || not (has_stronghold_carrier_characteristics station)
      || (station.name == stronghold_carrier_name)
    then station
    else record station { name = stronghold_carrier_name }

-- `isSystemCurrentlyStronghold`, of the row that was found.
abbrev pub is_stronghold : Option (Option PowerplayState) → Bool
is_stronghold (some (some PowerplayState.stronghold)) = true
is_stronghold state = false

-- `{ ...data, ...writePayload }`.
abbrev pub with_payload : (Text → Text) → StationInsert → Option Station → StationInsert
with_payload trim_and_lower values none =
    let payload = (prepare_station_write_payload trim_and_lower values.services none none).0 in
    record values { services = payload.services; services_v2 = payload.services_v2 }
with_payload trim_and_lower values (some row) =
    let payload =
      (prepare_station_write_payload trim_and_lower values.services (some row.services)
        (some row.services_v2)).0 in
    record values { services = payload.services; services_v2 = payload.services_v2 }

module _ (db : Postgres) (trim_and_lower : Text → Text) where
  unfoldable pub is_carrier_row : Text → Station → Bool
  is_carrier_row system_id r =
      is_named db system_id stronghold_carrier_name r
      && is_planetary_outpost r.station_type
      && is_high_tech r.economy
      && (r.landing_pads_small == 4)
      && (r.landing_pads_medium == 4)
      && (r.landing_pads_large == 2)

  unfoldable pub find_stronghold_carriers_in_system : List Station → Text → List Station
  unfolding keep
  find_stronghold_carriers_in_system rows system_id =
      db.order (keep (is_carrier_row system_id) rows)

  abbrev pub update_survivor : List Station → StationInsert → Station → ℕ → Option (List Station)
  update_survivor rows values survivor updated_at =
      update_station_by_id db rows survivor.id (with_payload trim_and_lower values (some survivor))
        updated_at

  abbrev pub upsert_found :
      List Station → StationInsert → ℕ → Option Station → Option Station → Option (List Station)
  upsert_found rows values updated_at none none = insert_station db rows values
  upsert_found rows values updated_at (some by_market) none =
      update_survivor rows values by_market updated_at
  upsert_found rows values updated_at none (some by_name) =
      update_survivor rows values by_name updated_at
  upsert_found rows values updated_at (some by_market) (some by_name) =
      if by_market.id == by_name.id
      then update_survivor rows values by_market updated_at
      else update_survivor (delete_station_by_id db rows by_market.id) values by_name updated_at

  unfoldable pub upsert_regular_station : List Station → StationInsert → ℕ → Option (List Station)
  unfolding find_station_by_market_id find_station_by_system_and_name
  upsert_regular_station rows values updated_at =
      upsert_found rows values updated_at
        (find_station_by_market_id db rows (to_option values.market_id))
        (find_station_by_system_and_name db rows values.system_id values.name)

  -- The deletion of a station whose market id was reused.
  abbrev pub delete_reused : List Station → Option Station → Option Station → List Station
  delete_reused rows none survivor = rows
  delete_reused rows (some by_market) none = delete_station_by_id db rows by_market.id
  delete_reused rows (some by_market) (some survivor) =
      if by_market.id == survivor.id then rows else delete_station_by_id db rows by_market.id

  abbrev pub delete_duplicates : List Station → List Station → List Station
  delete_duplicates rows [] = rows
  delete_duplicates rows (r ∷ duplicates) =
      delete_duplicates (delete_station_by_id db rows r.id) duplicates

  abbrev pub upsert_carrier :
      List Station → StationInsert → ℕ → List Station → Option Station → Option (List Station)
  upsert_carrier rows values updated_at [] market_id_station =
      insert_station db (delete_reused rows market_id_station none) values
  upsert_carrier rows values updated_at (survivor ∷ duplicates) market_id_station =
      update_survivor
        (delete_reused (delete_duplicates rows duplicates) market_id_station (some survivor)) values
        survivor updated_at

  unfoldable pub upsert_stronghold_carrier :
      List Station → StationInsert → ℕ → Option (List Station)
  unfolding find_stronghold_carriers_in_system find_station_by_market_id
  upsert_stronghold_carrier rows values updated_at =
      if is_stronghold (db.system_powerplay_state values.system_id)
      then (upsert_carrier rows values updated_at
          (find_stronghold_carriers_in_system rows values.system_id)
          (find_station_by_market_id db rows (to_option values.market_id)))
      else some rows

  abbrev pub upsert_validated : List Station → ℕ → Option StationInsert → Option (List Station)
  upsert_validated rows now none = none
  upsert_validated rows now (some values) =
      if is_stronghold_carrier (normalize_stronghold_carrier_name values)
      then upsert_stronghold_carrier rows (normalize_stronghold_carrier_name values) now
      else upsert_regular_station rows (normalize_stronghold_carrier_name values) now

  -- `parse` is the insert schema's; it throws where it is `none`.
  unfoldable pub upsert_station :
      (StationInsert → Option StationInsert)
      → List Station
      → StationInsert
      → ℕ
      → Option (List Station)
  unfolding is_stronghold_carrier upsert_stronghold_carrier upsert_regular_station
      normalize_stronghold_carrier_name
  upsert_station parse rows values now =
      upsert_validated rows now (parse (with_payload trim_and_lower values none))
