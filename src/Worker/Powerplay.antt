-- ===== src/Worker/Powerplay.antt =====
-- apps/eddn-worker/src/mq/queues/eddn/helpers/powerplayHelpers.ts: the powers of a system and their
-- conflicts. Tables are the lists of their rows.
pub mod Progress
pub mod Synced
use elitehub_vault.Base.{
  ℕ, zero, suc, Text, codes, text_eq, nat_eq, List, [], ◌∷◌, ◌++◌, map, Option, none, some, Bool,
  true, false, not, ◌&&◌, ◌||◌, ◌==◌, if◌then◌else◌, keep, contains, Dict, lookup, insert, or_else,
  length,
}
use elitehub_vault.Worker.Enums.{PowerplayState}
use elitehub_vault.Worker.Values.{Field, value, map_powerplay_state}
use elitehub_vault.Worker.Messages.{Double, PowerplayConflictProgress}
use elitehub_vault.Worker.Links.{Link, sync_links}
use elitehub_vault.Worker.Stations.{Station, Postgres}
use elitehub_vault.Worker.Stations.Upserts.{is_carrier_row}

abbrev pub powerplay_powers_from_lowercase_map : Dict Text Text
powerplay_powers_from_lowercase_map =
    (codes "a. lavigny-duval", codes "A. Lavigny-Duval")
    ∷ (codes "aisling duval", codes "Aisling Duval")
    ∷ (codes "archon delaine", codes "Archon Delaine")
    ∷ (codes "denton patreus", codes "Denton Patreus")
    ∷ (codes "edmund mahon", codes "Edmund Mahon")
    ∷ (codes "felicia winters", codes "Felicia Winters")
    ∷ (codes "jerome archer", codes "Jerome Archer")
    ∷ (codes "li yong-rui", codes "Li Yong-Rui")
    ∷ (codes "nakato kaine", codes "Nakato Kaine")
    ∷ (codes "pranav antal", codes "Pranav Antal")
    ∷ (codes "yuri grom", codes "Yuri Grom")
    ∷ (codes "zemina torval", codes "Zemina Torval")
    ∷ []

pub record PowerplayPower : Type 0 where
  pub id : Text
  pub name : Text

pub record PowerplayConflict : Type 0 where
  pub system_id : Text
  pub power_id : Text
  pub conflict_progress : Double
  pub updated_at : ℕ

-- What a Location or FSDJump message says of powerplay.
pub record PowerplayMessage : Type 0 where
  pub powers : Option (List Text)
  pub controlling_power : Option Text
  pub powerplay_state : Option Text
  pub powerplay_conflict_progress : Option (List PowerplayConflictProgress)

pub record PowerplayTables : Type 0 where
  pub powers : List PowerplayPower
  pub system_powers : List Link
  pub conflicts : List PowerplayConflict
  pub stations : List Station

abbrev pub filled : List Text → List Text
filled [] = []
filled ([] ∷ texts) = filled texts
filled ((c ∷ s) ∷ texts) = (c ∷ s) ∷ filled texts

-- The names of the powers of a list that are known.
abbrev pub valid_powers : List Text → List Text
valid_powers [] = []
valid_powers (power ∷ powers) = elim (lookup power powerplay_powers_from_lowercase_map) [
  | none ↦ valid_powers powers
  | some name ↦ name ∷ valid_powers powers
]

abbrev pub one_of : Option Text → List Text
one_of none = []
one_of (some text) = text ∷ []

module _ (lower : Text → Text) (fold : Text → Text) (new_id : List PowerplayPower → Text) where
  unfoldable pub incoming_powers_lowercased : PowerplayMessage → List Text
  incoming_powers_lowercased message =
      filled (map lower (or_else message.powers [] ++ one_of message.controlling_power))

  abbrev pub has_power : Text → List PowerplayPower → Bool
  has_power name [] = false
  has_power name (row ∷ rows) = (fold row.name == fold name) || has_power name rows

  unfoldable pub insert_powers : List Text → List PowerplayPower → List PowerplayPower
  insert_powers [] rows = rows
  insert_powers (name ∷ names) rows =
      insert_powers names
        (if has_power name rows then rows else record { id = new_id rows; name = name } ∷ rows)

  abbrev pub is_one_of : List Text → PowerplayPower → Bool
  is_one_of [] row = false
  is_one_of (name ∷ names) row = (fold row.name == fold name) || is_one_of names row

  -- The rows of the powers of the message and the table; `none` where it throws.
  unfoldable pub upsert_powerplay_powers :
      PowerplayMessage → List PowerplayPower → Option (List PowerplayPower × List PowerplayPower)
  unfolding incoming_powers_lowercased lookup insert_powers keep
  upsert_powerplay_powers message rows =
      let incoming = incoming_powers_lowercased message in
      let names = valid_powers incoming in
      let inserted = insert_powers names rows in
      if length incoming == 0
      then some ([], rows)
      else if length incoming == length names
      then some (keep (is_one_of names) inserted, inserted)
      else none

  abbrev pub ids_of : List PowerplayPower → List Text
  ids_of [] = []
  ids_of (row ∷ rows) = row.id ∷ ids_of rows

  -- With no powers, all links of the system go.
  unfoldable pub upsert_system_powerplay_powers : Text → List PowerplayPower → List Link → List Link
  unfolding sync_links
  upsert_system_powerplay_powers system_id powers links = sync_links system_id (ids_of powers) links

  abbrev pub power_id_of : Text → List PowerplayPower → Option Text
  power_id_of name [] = none
  power_id_of name (row ∷ rows) = if row.name == name then some row.id else power_id_of name rows

  -- The progress by the ids of the powers; a later one of the same power replaces an earlier one.
  unfoldable pub conflicts_by_power_id :
      List PowerplayConflictProgress → List PowerplayPower → Dict Text Double → Dict Text Double
  unfolding insert
  conflicts_by_power_id [] powers acc = acc
  conflicts_by_power_id (conflict ∷ conflicts) powers acc =
      elim (power_id_of conflict.power powers) [
        | none ↦ conflicts_by_power_id conflicts powers acc
        | some id ↦
            conflicts_by_power_id conflicts powers (insert id conflict.conflict_progress acc)
      ]

  abbrev pub is_conflict : Text → Text → PowerplayConflict → Bool
  is_conflict system_id power_id row = (row.system_id == system_id) && (row.power_id == power_id)

  unfoldable pub set_conflict :
      Text → Text → Double → ℕ → List PowerplayConflict → List PowerplayConflict
  set_conflict system_id power_id progress now [] =
      record {
        system_id = system_id;
        power_id = power_id;
        conflict_progress = progress;
        updated_at = now;
      }
      ∷ []
  set_conflict system_id power_id progress now (row ∷ rows) =
      if is_conflict system_id power_id row
      then record row { conflict_progress = progress; updated_at = now } ∷ rows
      else row ∷ set_conflict system_id power_id progress now rows

  unfoldable pub set_conflicts :
      Text → Dict Text Double → ℕ → List PowerplayConflict → List PowerplayConflict
  unfolding set_conflict
  set_conflicts system_id [] now rows = rows
  set_conflicts system_id ((power_id, progress) ∷ progresses) now rows =
      set_conflict system_id power_id progress now (set_conflicts system_id progresses now rows)

  abbrev pub is_listed : Option Double → Bool
  is_listed none = false
  is_listed (some progress) = true

  -- With no conflicts, all rows of the system go.
  unfoldable pub upsert_powerplay_conflicts :
      Text → Dict Text Double → ℕ → List PowerplayConflict → List PowerplayConflict
  unfolding set_conflicts lookup keep
  upsert_powerplay_conflicts system_id progresses now rows =
      keep (λ r. not (r.system_id == system_id) || is_listed (lookup r.power_id progresses))
        (set_conflicts system_id progresses now rows)

abbrev pub is_stronghold_state : Field PowerplayState → Bool
is_stronghold_state (value PowerplayState.stronghold) = true
is_stronghold_state state = false

-- A state that is given and is not the one of a stronghold.
unfoldable pub leaves_stronghold : (Text → Text) → Option Text → Bool
unfolding map_powerplay_state
leaves_stronghold lower none = false
leaves_stronghold lower (some []) = false
leaves_stronghold lower (some (c ∷ s)) =
    not (is_stronghold_state (map_powerplay_state lower (some (c ∷ s))))

-- `trim_and_lower` is not used here; the rows of carriers are those of the upserts of stations. `parses`
-- is the insert schema of the conflicts, which throws where it is false.
module _ (lower : Text → Text) (db : Postgres) (trim_and_lower : Text → Text)
    (new_id : List PowerplayPower → Text) (parses : Dict Text Double → Bool) where
  unfoldable pub delete_stronghold_carriers_in_system : Text → List Station → List Station
  unfolding is_carrier_row keep
  delete_stronghold_carriers_in_system system_id stations =
      keep (λ r. not (is_carrier_row db trim_and_lower system_id r)) stations

  abbrev pub progresses_of : PowerplayMessage → List PowerplayPower → Dict Text Double
  progresses_of message found =
      conflicts_by_power_id lower db.fold new_id (or_else message.powerplay_conflict_progress [])
        found []

  -- The tables after all statements.
  abbrev pub processed :
      PowerplayMessage
      → Text
      → ℕ
      → PowerplayTables
      → List PowerplayPower
      → List PowerplayPower
      → PowerplayTables
  processed message system_id now tables found powers = record {
    powers = powers;
    system_powers =
        upsert_system_powerplay_powers lower db.fold new_id system_id found tables.system_powers;
    conflicts =
        upsert_powerplay_conflicts lower db.fold new_id system_id (progresses_of message found) now
          tables.conflicts;
    stations =
        if leaves_stronghold lower message.powerplay_state
        then delete_stronghold_carriers_in_system system_id tables.stations
        else tables.stations;
  }

  abbrev pub process_powers :
      PowerplayMessage
      → Text
      → ℕ
      → PowerplayTables
      → List PowerplayPower
      → List PowerplayPower
      → Option PowerplayTables
  process_powers message system_id now tables found powers =
      if parses (progresses_of message found)
      then some (processed message system_id now tables found powers)
      else none

  unfoldable pub process_powerplay_data :
      PowerplayMessage → Text → ℕ → PowerplayTables → Option PowerplayTables
  unfolding upsert_powerplay_powers upsert_system_powerplay_powers conflicts_by_power_id
      upsert_powerplay_conflicts leaves_stronghold delete_stronghold_carriers_in_system
  process_powerplay_data message system_id now tables =
      elim (upsert_powerplay_powers lower db.fold new_id message tables.powers) [
        | none ↦ none
        | some (found, powers) ↦ process_powers message system_id now tables found powers
      ]
