-- ===== src/Worker/Stations.antt =====
-- The stations table (packages/db/src/schema.ts) and the statements that the helpers
-- stationHelpers.ts and strongholdCarrierHelpers.ts in apps/eddn-worker/src/mq/queues/eddn/helpers
-- run on it. The table is the list of its rows; a statement whose result breaks a unique constraint,
-- or that writes a system or a faction that has no row, is `none`, which aborts the transaction.
pub mod Upserts
pub mod Rows
pub mod Writes
pub mod Finds
pub mod Survivors
pub mod Regular
pub mod Strongholds
pub mod Outcomes
pub mod Arrivals
pub mod Landings
use elitehub_vault.Base.{
  ℕ, Text, text_eq, nat_eq, codes, List, [], ◌∷◌, ◌++◌, map, Option, none, some, Bool, true, false,
  not, ◌&&◌, ◌||◌, ◌≡◌, ◌==◌, if◌then◌else◌, keep, All, or_else,
}
use elitehub_vault.Worker.Enums.{
  StationType, Allegiance, FactionGovernment, Economy, PowerplayState,
}
use elitehub_vault.Worker.Values.{Field, undefined, null, value}
use elitehub_vault.Worker.Messages.{Double}
use elitehub_vault.Worker.Services.{Json, strings}

pub record StationEconomy : Type 0 where
  pub name : Field Economy
  pub proportion : Double

-- A row of the table.
pub record Station : Type 0 where
  pub id : Text
  pub name : Text
  pub market_id : Option ℕ
  pub station_type : Option StationType
  pub system_id : Text
  pub controlling_faction_id : Text
  pub distance_from_star : Double
  pub allegiance : Option Allegiance
  pub government : Option FactionGovernment
  pub economy : Option Economy
  pub economies : List StationEconomy
  pub services : List Json
  pub services_v2 : List Text
  pub landing_pads_small : ℕ
  pub landing_pads_medium : ℕ
  pub landing_pads_large : ℕ
  pub created_at : ℕ
  pub updated_at : ℕ

-- `typeof Stations.$inferInsert`, without the columns that the code never sets.
pub record StationInsert : Type 0 where
  pub name : Text
  pub market_id : Field ℕ
  pub station_type : Field StationType
  pub system_id : Text
  pub controlling_faction_id : Text
  pub distance_from_star : Double
  pub allegiance : Field Allegiance
  pub government : Field FactionGovernment
  pub economy : Field Economy
  pub economies : Option (List StationEconomy)
  pub services : Option (List Text)
  pub services_v2 : Option (List Text)
  pub landing_pads_small : Option ℕ
  pub landing_pads_medium : Option ℕ
  pub landing_pads_large : Option ℕ

-- `value ?? null`.
abbrev pub to_option {ℓ} : {A : Type ℓ} → Field A → Option A
to_option undefined = none
to_option null = none
to_option (value a) = some a

-- What an update leaves in a column: `undefined` is not set.
abbrev pub set_to {ℓ} : {A : Type ℓ} → Field A → Option A → Option A
set_to undefined old = old
set_to null old = none
set_to (value a) old = some a

-- What Postgres does that the code relies on: `fold` is how `citext` compares, `pick` the row that
-- `limit(1)` leaves of those found, `order` the order by the two times, `new_id` the random id of a
-- new row, `transaction_time` its `now()`; the ids that the tables of the systems and of the factions
-- have, which a statement on the stations does not change; and the state of a system's powerplay.
pub record Postgres : Type 1 where
  pub fold : Text → Text
  pub pick : List Station → Option Station
  pub pick_none : (rows : List Station) → pick rows ≡ none → rows ≡ []
  pub pick_some :
      (P : Station → Type 0) (rows : List Station) (r : Station)
      → All P rows
      → pick rows ≡ some r
      → P r
  pub order : List Station → List Station
  pub order_empty : order [] ≡ []
  pub order_one : (r : Station) → order (r ∷ []) ≡ r ∷ []
  pub new_id : List Station → Text
  pub new_id_fresh : (rows : List Station) → All (λ r. (r.id == new_id rows) ≡ false) rows
  pub transaction_time : ℕ
  pub has_system : Text → Bool
  pub has_faction : Text → Bool
  pub system_powerplay_state : Text → Option (Option PowerplayState)

-- Market ids are compared as SQL does: NULL is like nothing.
abbrev pub same_key : Option ℕ → Option ℕ → Bool
same_key none b = false
same_key (some m) none = false
same_key (some m) (some n) = m == n

abbrev pub is_market : ℕ → Station → Bool
is_market m r = same_key (some m) r.market_id

abbrev pub all_of {ℓ} : {A : Type ℓ} → (A → Bool) → List A → Bool
all_of test [] = true
all_of test (x ∷ xs) = test x && all_of test xs

abbrev pub set_station : StationInsert → ℕ → Station → Station
set_station values updated_at r = record {
  id = r.id;
  name = values.name;
  market_id = set_to values.market_id r.market_id;
  station_type = set_to values.station_type r.station_type;
  system_id = values.system_id;
  controlling_faction_id = values.controlling_faction_id;
  distance_from_star = values.distance_from_star;
  allegiance = set_to values.allegiance r.allegiance;
  government = set_to values.government r.government;
  economy = set_to values.economy r.economy;
  economies = or_else values.economies r.economies;
  services = elim values.services [ none ↦ r.services | some ss ↦ strings ss ];
  services_v2 = or_else values.services_v2 r.services_v2;
  landing_pads_small = or_else values.landing_pads_small r.landing_pads_small;
  landing_pads_medium = or_else values.landing_pads_medium r.landing_pads_medium;
  landing_pads_large = or_else values.landing_pads_large r.landing_pads_large;
  created_at = r.created_at;
  updated_at = updated_at;
}

abbrev pub is_empty {ℓ} : {A : Type ℓ} → List A → Bool
is_empty [] = true
is_empty (x ∷ xs) = false

abbrev pub set_where_id : Text → (Station → Station) → Station → Station
set_where_id id change r = if r.id == id then change r else r

module _ (db : Postgres) where
  abbrev pub is_named : Text → Text → Station → Bool
  is_named system_id name r = (r.system_id == system_id) && (db.fold r.name == db.fold name)

  -- Two rows that the constraints of the table do not allow side by side.
  abbrev pub clashes : Station → Station → Bool
  clashes r s =
      not (s.id == r.id) && (same_key r.market_id s.market_id || is_named r.system_id r.name s)

  abbrev pub is_consistent : List Station → Bool
  is_consistent rows = all_of (λ r. all_of (λ s. not (clashes r s)) rows) rows

  unfoldable pub commit : List Station → Option (List Station)
  commit rows = if is_consistent rows then some rows else none

  -- The foreign keys of a row that is written.
  abbrev pub has_references : StationInsert → Bool
  has_references values =
      db.has_system values.system_id && db.has_faction values.controlling_faction_id

  unfoldable pub find_station_by_market_id : List Station → Option ℕ → Option Station
  unfolding keep
  find_station_by_market_id rows none = none
  find_station_by_market_id rows (some m) = db.pick (keep (is_market m) rows)

  unfoldable pub find_station_by_system_and_name : List Station → Text → Text → Option Station
  unfolding keep
  find_station_by_system_and_name rows system_id name =
      db.pick (keep (is_named system_id name) rows)

  unfoldable pub update_station_by_id :
      List Station → Text → StationInsert → ℕ → Option (List Station)
  unfolding commit keep
  update_station_by_id rows id values updated_at =
      if has_references values || is_empty (keep (λ r. r.id == id) rows)
      then commit (map (set_where_id id (set_station values updated_at)) rows)
      else none

  -- The defaults of the columns that may be left out.
  abbrev pub blank_station : Text → StationInsert → Station
  blank_station id values = record {
    id = id;
    name = values.name;
    market_id = none;
    station_type = none;
    system_id = values.system_id;
    controlling_faction_id = values.controlling_faction_id;
    distance_from_star = values.distance_from_star;
    allegiance = none;
    government = none;
    economy = none;
    economies = [];
    services = [];
    services_v2 = [];
    landing_pads_small = 0;
    landing_pads_medium = 0;
    landing_pads_large = 0;
    created_at = db.transaction_time;
    updated_at = db.transaction_time;
  }

  abbrev pub new_station : Text → StationInsert → Station
  new_station id values = set_station values db.transaction_time (blank_station id values)

  unfoldable pub insert_station : List Station → StationInsert → Option (List Station)
  unfolding commit
  insert_station rows values =
      if has_references values then commit (new_station (db.new_id rows) values ∷ rows) else none

  unfoldable pub delete_station_by_id : List Station → Text → List Station
  unfolding keep
  delete_station_by_id rows id = keep (λ r. not (r.id == id)) rows
