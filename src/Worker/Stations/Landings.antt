-- ===== src/Worker/Stations/Landings.antt =====
-- apps/eddn-worker/src/mq/queues/eddn/helpers/stationHelpers.ts: what a Docked message leaves of the
-- factions and the stations.
use elitehub_vault.Base.{Text, List, [], ◌∷◌, Option, some, ◌≡◌}
use elitehub_vault.Worker.Values.{value}
use elitehub_vault.Worker.Factions.{Faction, FactionInsert, ValidFaction, MessageFaction}
use elitehub_vault.Worker.Factions.Rows.{IsUpsertOf}
use elitehub_vault.Worker.Stations.{StationInsert, Postgres}
use elitehub_vault.Worker.Stations.Outcomes.{Outcome, to_write}
use elitehub_vault.Worker.Stations.Arrivals.{Tables, with_factions}

module _ (lower : Text → Text) (db : Postgres) (trim_and_lower : Text → Text)
    (idempotent : (s : Text) → trim_and_lower (trim_and_lower s) ≡ trim_and_lower s)
    (new_faction_id : List Faction → Text) (parse_faction : FactionInsert → Option ValidFaction)
    (parse_station : StationInsert → Option StationInsert)
    (honest_faction : (d : FactionInsert) (v : ValidFaction)
      → parse_faction d ≡ some v
      → (v.name ≡ d.name)
        × (d.government ≡ value v.government)
        × (d.allegiance ≡ value v.allegiance))
    (honest_station : (d e : StationInsert) → parse_station d ≡ some e → e ≡ d) where
  -- The factions are upserted with the one of the message; its row, the first that is returned, controls
  -- the station, which is upserted into the stations or, as a carrier outside a stronghold, left out.
  pub record IsArrival (faction : MessageFaction) (build : Text → StationInsert)
      (tables result : Tables) : Type 0 where
    pub row : Faction
    pub others : List Faction
    pub factions :
        IsUpsertOf lower db.fold new_faction_id parse_faction
          (faction ∷ [])
          tables.factions
          (row ∷ others, result.factions)
    pub stations :
        Outcome
          (with_factions db result.factions)
          trim_and_lower
          idempotent
          (to_write (with_factions db result.factions) trim_and_lower idempotent (build row.id))
          tables.stations
          (some result.stations)
