-- ===== src/Worker/Powerplay/Synced.antt =====
-- apps/eddn-worker/src/mq/queues/eddn/helpers/powerplayHelpers.ts: what a message leaves of a system's
-- powers, conflicts and stronghold carriers.
use elitehub_vault.Base.{
  Text, text_eq, List, [], Option, Bool, true, false, not, ◌≡◌, ◌==◌, if◌then◌else◌, keep, All,
  contains, Dict, or_else,
}
use elitehub_vault.Worker.Messages.{Double}
use elitehub_vault.Worker.Links.{is_linked}
use elitehub_vault.Worker.Stations.{Postgres}
use elitehub_vault.Worker.Stations.Upserts.{is_carrier_row}
use elitehub_vault.Worker.Powerplay.{
  PowerplayPower, PowerplayMessage, PowerplayTables, ids_of, leaves_stronghold,
}
use elitehub_vault.Worker.Powerplay.Progress.{progress_of, last_progress}

module _ (lower : Text → Text) (db : Postgres) (trim_and_lower : Text → Text)
    (new_id : List PowerplayPower → Text) (parses : Dict Text Double → Bool) where
  -- The links and the conflicts of the system are those of the message, those of other systems are as
  -- they were, and so are the stations but for the carriers of the system; where the message leaves the stronghold state the system has no carrier, else the
  -- stations are as they were.
  pub record IsSynced (message : PowerplayMessage) (system_id : Text) (tables : PowerplayTables)
      (found : List PowerplayPower) (result : PowerplayTables) : Type 0 where
    pub links :
        (s p : Text)
        → is_linked s p result.system_powers ≡ (
            if system_id == s
            then contains p (ids_of lower db.fold new_id found)
            else is_linked s p tables.system_powers)
    pub conflicts :
        (s p : Text)
        → progress_of lower db.fold new_id s p result.conflicts ≡ (
            if system_id == s
            then last_progress p found (or_else message.powerplay_conflict_progress [])
            else progress_of lower db.fold new_id s p tables.conflicts)
    pub left :
        leaves_stronghold lower message.powerplay_state ≡ true
        → All (λ r. is_carrier_row db trim_and_lower system_id r ≡ false) result.stations
    pub elsewhere :
        keep (λ r. not (r.system_id == system_id)) result.stations
        ≡ keep (λ r. not (r.system_id == system_id)) tables.stations
    pub others :
        keep (λ r. not (is_carrier_row db trim_and_lower system_id r)) result.stations
        ≡ keep (λ r. not (is_carrier_row db trim_and_lower system_id r)) tables.stations
    pub stayed :
        leaves_stronghold lower message.powerplay_state ≡ false → result.stations ≡ tables.stations
