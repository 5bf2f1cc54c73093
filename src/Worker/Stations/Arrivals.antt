-- ===== src/Worker/Stations/Arrivals.antt =====
-- apps/eddn-worker/src/mq/queues/eddn/helpers/stationHelpers.ts: the stations of Docked and Location
-- messages.
use elitehub_vault.Base.{
  ℕ, Text, text_eq, nat_eq, codes, List, [], ◌∷◌, map, Option, none, some, Bool, true, false, ◌&&◌,
  ◌||◌, ◌==◌, if◌then◌else◌, contains, or_else,
}
use elitehub_vault.Worker.Values.{
  value, excluded_station_governments, map_station_type, map_allegiance, map_government,
  map_economy,
}
use elitehub_vault.Worker.Messages.{LocationMessage, DockedMessage, EconomyShare, ShortFactionInfo}
use elitehub_vault.Worker.Factions.{
  Faction, FactionInsert, ValidFaction, MessageFaction, upsert_factions,
}
use elitehub_vault.Worker.Stations.{Station, StationInsert, StationEconomy, Postgres}
use elitehub_vault.Worker.Stations.Upserts.{upsert_station}

-- What `hasRequiredStationData` tells of a message.
pub record RequiredStationData : Type 0 where
  pub station_name : Text
  pub market_id : ℕ
  pub station_faction : ShortFactionInfo
  pub dist_from_star_ls : ℕ

-- The tables that an arrival writes.
pub record Tables : Type 0 where
  pub factions : List Faction
  pub stations : List Station

abbrev pub has_faction_row : Text → List Faction → Bool
has_faction_row id [] = false
has_faction_row id (row ∷ rows) = (row.id == id) || has_faction_row id rows

abbrev pub with_factions : Postgres → List Faction → Postgres
with_factions db factions = record db { has_faction = λ id. has_faction_row id factions }

module _ (lower : Text → Text) where
  unfoldable pub is_excluded_station : Option Text → Bool
  is_excluded_station none = contains [] excluded_station_governments
  is_excluded_station (some government) = contains (lower government) excluded_station_governments

  abbrev pub to_economy : EconomyShare → StationEconomy
  to_economy share = record {
    name = map_economy lower (some share.name);
    proportion = share.proportion;
  }

  abbrev pub map_option {ℓ κ} :
      {A : Type ℓ} {B : Type κ} → (A → B) → Option (List A) → Option (List B)
  map_option f none = none
  map_option f (some xs) = some (map f xs)

  abbrev pub is_text : Option Text → Bool
  is_text none = false
  is_text (some []) = false
  is_text (some (c ∷ cs)) = true

  unfoldable pub required_station_data : LocationMessage → Option RequiredStationData
  required_station_data message =
      if message.docked && is_text message.station_name && is_text message.station_government
      then (elim message.market_id [
        | none ↦ none
        | some market_id ↦ elim message.station_faction [
          | none ↦ none
          | some faction ↦ elim message.dist_from_star_ls [
            | none ↦ none
            | some distance ↦
                if market_id == 0
                then none
                else some (record {
                  station_name = or_else message.station_name [];
                  market_id = market_id;
                  station_faction = faction;
                  dist_from_star_ls = distance;
                })
          ]
        ]
      ])
      else none

  unfoldable pub build_station_data_from_location :
      LocationMessage → RequiredStationData → Text → Text → StationInsert
  build_station_data_from_location message required system_id controlling_faction_id = record {
    name = required.station_name;
    market_id = value required.market_id;
    station_type = map_station_type lower message.station_type;
    system_id = system_id;
    controlling_faction_id = controlling_faction_id;
    distance_from_star = required.dist_from_star_ls;
    allegiance = map_allegiance lower message.station_allegiance;
    government = map_government lower message.station_government;
    economy = map_economy lower message.station_economy;
    economies = map_option to_economy message.station_economies;
    services = map_option lower message.station_services;
    services_v2 = none;
    landing_pads_small = none;
    landing_pads_medium = none;
    landing_pads_large = none;
  }

  unfoldable pub build_station_data_from_docked : DockedMessage → Text → Text → StationInsert
  build_station_data_from_docked message system_id controlling_faction_id = record {
    name = message.station_name;
    market_id = value message.market_id;
    station_type = map_station_type lower (some message.station_type);
    system_id = system_id;
    controlling_faction_id = controlling_faction_id;
    distance_from_star = message.dist_from_star_ls;
    allegiance = map_allegiance lower message.station_allegiance;
    government = map_government lower (some message.station_government);
    economy = map_economy lower (some message.station_economy);
    economies = some (map to_economy message.station_economies);
    services = some (map lower message.station_services);
    services_v2 = none;
    landing_pads_small = some message.landing_pads.small;
    landing_pads_medium = some message.landing_pads.medium;
    landing_pads_large = some message.landing_pads.large;
  }

  module _ (db : Postgres) (trim_and_lower : Text → Text) (new_faction_id : List Faction → Text)
      (parse_faction : FactionInsert → Option ValidFaction)
      (parse_station : StationInsert → Option StationInsert) where
    -- `upsertFactions` of one faction, then `upsertStation`, whose foreign key sees the factions that are
    -- there by then.
    abbrev pub upsert_with_faction :
        MessageFaction → (Text → StationInsert) → ℕ → Tables → Option Tables
    upsert_with_faction faction build now tables =
        elim (upsert_factions lower db.fold new_faction_id parse_faction (faction ∷ []) now
          tables.factions) [
            | none ↦ none
            | some (rows, factions) ↦ elim rows [
              | [] ↦ none
              | controlling_faction ∷ others ↦
                  elim (upsert_station (with_factions db factions) trim_and_lower parse_station
                    tables.stations (build controlling_faction.id) now) [
                      | none ↦ none
                      | some stations ↦ some (record { factions = factions; stations = stations })
                    ]
            ]
          ]

    unfoldable pub upsert_station_from_location :
        LocationMessage → Text → ℕ → Tables → Option Tables
    unfolding required_station_data is_excluded_station build_station_data_from_location
    upsert_station_from_location message system_id now tables =
        elim (required_station_data message) [
          | none ↦ some tables
          | some required ↦
              if is_excluded_station message.station_government
              then some tables
              else upsert_with_faction
                  (record {
                    name = required.station_faction.name;
                    government = or_else message.station_government (codes "Unknown");
                    allegiance = or_else message.station_allegiance (codes "Independent");
                  })
                  (build_station_data_from_location message required system_id) now tables
        ]

    unfoldable pub upsert_station_from_docked : DockedMessage → Text → ℕ → Tables → Option Tables
    unfolding is_excluded_station build_station_data_from_docked
    upsert_station_from_docked message system_id now tables =
        if is_excluded_station (some message.station_government)
        then some tables
        else upsert_with_faction
            (record {
              name = message.station_faction.name;
              government = message.station_government;
              allegiance = or_else message.station_allegiance (codes "Independent");
            })
            (build_station_data_from_docked message system_id) now tables
