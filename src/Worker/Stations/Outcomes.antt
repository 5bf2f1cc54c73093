-- ===== src/Worker/Stations/Outcomes.antt =====
-- apps/eddn-worker/src/mq/queues/eddn/helpers/stationHelpers.ts: what becomes of `upsertStation`.
use elitehub_vault.Base.{Text, text_eq, nat_eq, List, Option, none, some, true, false, ◌≡◌, ◌⊎◌}
use elitehub_vault.Worker.Stations.{Station, StationInsert, Postgres, has_references}
use elitehub_vault.Worker.Stations.Upserts.{
  with_payload, normalize_stronghold_carrier_name, is_stronghold_carrier, is_stronghold,
}
use elitehub_vault.Worker.Stations.Writes.{IsUpserted}
use elitehub_vault.Worker.Stations.Strongholds.{is_blocked}

module _ (db : Postgres) (trim_and_lower : Text → Text)
    (idempotent : (s : Text) → trim_and_lower (trim_and_lower s) ≡ trim_and_lower s) where
  -- The station as it is written.
  abbrev pub to_write : StationInsert → StationInsert
  to_write values = normalize_stronghold_carrier_name (with_payload trim_and_lower values none)

  -- Skipped, refused for its name or for a row that it refers to, or done.
  abbrev pub Outcome : StationInsert → List Station → Option (List Station) → Type 0
  Outcome station rows result =
      let stronghold = is_stronghold (db.system_powerplay_state station.system_id) in
      ((is_stronghold_carrier station ≡ true) × (stronghold ≡ false) × (result ≡ some rows))
      ⊎ ((is_stronghold_carrier station ≡ true)
          × (stronghold ≡ true)
          × (is_blocked db trim_and_lower station rows ≡ true)
          × (result ≡ none))
      ⊎ ((is_stronghold_carrier station ≡ false)
          × (has_references db station ≡ false)
          × (result ≡ none))
      ⊎ ((has_references db station ≡ true)
          × ((written : List Station) × (result ≡ some written)
              × IsUpserted db station rows written))
