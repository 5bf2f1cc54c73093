-- ===== src/Worker/Factions/Present.antt =====
-- apps/eddn-worker/src/mq/queues/eddn/helpers/factionHelpers.ts: the factions that are present in a
-- system, and the rows of their states.
use elitehub_vault.Base.{
  Text, text_eq, List, [], ◌∷◌, Option, none, some, Bool, false, not, ◌&&◌, ◌||◌, ◌==◌, keep,
  contains,
}
use elitehub_vault.Worker.Enums.{FactionHappiness, FactionState}
use elitehub_vault.Worker.Values.{undefined, null, value, map_faction_state}
use elitehub_vault.Worker.Messages.{Double}
use elitehub_vault.Worker.Factions.{Faction}
use elitehub_vault.Worker.Links.{Link, sync_links}

-- A row of the table of states, without the raw texts and the times.
pub record FactionStates : Type 0 where
  pub faction_id : Text
  pub system_id : Text
  pub happiness : Option FactionHappiness
  pub influence : Double
  pub active_states : List FactionState
  pub recovering_states : List FactionState
  pub pending_states : List FactionState

-- `map` and `filter(Boolean)` over the names of the states.
unfoldable pub map_faction_states : (Text → Text) → List Text → List FactionState
unfolding map_faction_state
map_faction_states lower [] = []
map_faction_states lower (name ∷ names) = elim (map_faction_state lower (some name)) [
  | undefined ↦ map_faction_states lower names
  | null ↦ map_faction_states lower names
  | value state ↦ state ∷ map_faction_states lower names
]

abbrev pub ids_of : List Faction → List Text
ids_of [] = []
ids_of (faction ∷ factions) = faction.id ∷ ids_of factions

unfoldable pub upsert_system_factions : Text → List Faction → List Link → List Link
unfolding sync_links
upsert_system_factions system_id factions links = sync_links system_id (ids_of factions) links

unfoldable pub cleanup_faction_states :
    Text → List Faction → List FactionStates → List FactionStates
unfolding keep contains
cleanup_faction_states system_id factions rows =
    keep (λ r. not (r.system_id == system_id) || contains r.faction_id (ids_of factions)) rows

-- The controlling faction of a system after the sync; `current` is what the row has.
unfoldable pub sync_system_controlling_faction : Option Text → Option Text → Option Text
sync_system_controlling_faction none current = current
sync_system_controlling_faction (some faction_id) current = some faction_id

abbrev pub has_states : Text → Text → List FactionStates → Bool
has_states system_id faction_id [] = false
has_states system_id faction_id (row ∷ rows) =
    ((row.system_id == system_id) && (row.faction_id == faction_id))
    || has_states system_id faction_id rows
