-- ===== src/Worker/Stations/Writes.antt =====
-- apps/eddn-worker: what an upsert leaves in the stations table, and the two statements that end one.
use mathlib.Core.List.{Memᴰ}
use elitehub_vault.Base.{
  ◌⊎◌, ℕ, Text, text_eq, nat_eq, List, [], ◌∷◌, map, Option, none, some, Bool, true, false, not,
  ◌||◌, ◌≡◌, refl, arith, ◌==◌, ==_iff, ==_refl, keep, All, IsDistinct,
}
use elitehub_vault.Worker.Values.{Field, undefined, null, value}
use elitehub_vault.Worker.Services.{strings, partition_station_services}
use elitehub_vault.Worker.Stations.{
  Station, StationInsert, Postgres, is_named, same_key, clashes, set_to, is_consistent,
  set_where_id, set_station, to_option,
}
use elitehub_vault.Worker.Stations.Rows.{
  Leaves, LeavesValue, set_to-Leaves, or_else-LeavesValue, ids, pairs-map,
}

module _ (db : Postgres) where
  -- The primary key and the two unique constraints.
  abbrev pub IsTable : List Station → Type 0
  IsTable rows = (is_consistent db rows ≡ true) × IsDistinct (ids rows)

  abbrev pub is_marketed : Field ℕ → Station → Bool
  is_marketed market_id r = same_key (to_option market_id) r.market_id

  -- The rows that have neither the name nor the market id of the station.
  abbrev pub is_other : StationInsert → Station → Bool
  is_other values r =
      not (is_named db values.system_id values.name r || is_marketed values.market_id r)

  pub same_key_sym : (a b : Option ℕ) → same_key a b ≡ same_key b a
  same_key_sym none none = refl
  same_key_sym none (some n) = refl
  same_key_sym (some m) none = refl
  same_key_sym (some m) (some n) = ground (arith, ==_iff m n, ==_iff n m)

  -- A set market id meets no other row that does not have it.
  pub same_key_set :
      (f : Field ℕ) (o k : Option ℕ)
      → same_key o k ≡ false
      → same_key (to_option f) k ≡ false
      → same_key (set_to f o) k ≡ false
  same_key_set undefined o k h g = h
  same_key_set null o k h g = refl
  same_key_set (value m) o k h g = g

  module _ (values : StationInsert) (now : ℕ) (i : Text) where
    abbrev change : Station → Station
    change = set_where_id i (set_station values now)

    clashes-change :
        (a b : Station)
        → not (clashes db a b) ≡ true
        → (a.id == i) ≡ not (is_other values a)
        → (b.id == i) ≡ not (is_other values b)
        → not (clashes db (change a) (change b)) ≡ true
    clashes-change a b h ha hb = ground (
      arith,
      h,
      ha,
      hb,
      ==_iff a.id i,
      ==_iff b.id i,
      ==_iff b.id a.id,
      ==_iff a.system_id values.system_id,
      ==_iff values.system_id a.system_id,
      ==_iff (db.fold a.name) (db.fold values.name),
      ==_iff (db.fold values.name) (db.fold a.name),
      same_key_set values.market_id a.market_id b.market_id,
      same_key_set values.market_id b.market_id a.market_id,
      same_key_sym a.market_id b.market_id,
      same_key_sym a.market_id (set_to values.market_id b.market_id),
    )

    -- The row of that id is the only one with the name or the market id of the station.
    abbrev pub IsSurvivor : List Station → Type 0
    IsSurvivor rows = All (λ s. (s.id == i) ≡ not (is_other values s)) rows

    ids-change : (rows : List Station) → ids (map change rows) ≡ ids rows
    ids-change [] = refl
    ids-change (r ∷ rows) = ground (arith, ids-change rows)

    pub change-IsTable :
        (rows : List Station) → IsSurvivor rows → IsTable rows → IsTable (map change rows)
    change-IsTable rows s h = (
      pairs-map (λ s. (s.id == i) ≡ not (is_other values s)) (λ a b. not (clashes db a b)) change
          rows clashes-change s h.0,
      rw (ids-change rows) h.1,
    )

    set_station-named : (r : Station) → is_other values (set_station values now r) ≡ false
    set_station-named r = ground (arith, ==_refl values.system_id, ==_refl (db.fold values.name))

    pub others-change :
        (rows : List Station)
        → IsSurvivor rows
        → keep (is_other values) (map change rows) ≡ keep (is_other values) rows
    unfolding keep
    others-change [] s = refl
    others-change (r ∷ rows) s = ground (arith, s.0, set_station-named r, others-change rows s.1)

    pub survivor-change :
        (rows : List Station)
        → IsSurvivor rows
        → keep (λ r. not (is_other values r)) (map change rows)
          ≡ map (set_station values now) (keep (λ s. s.id == i) rows)
    unfolding keep
    survivor-change [] s = refl
    survivor-change (r ∷ rows) s =
        ground (arith, s.0, set_station-named r, survivor-change rows s.1)

  -- Each column but those of the services as the station sets it, or as it was in the old row.
  pub record HasColumns (values : StationInsert) (old row : Station) : Type 0 where
    pub name : row.name ≡ values.name
    pub market_id : Leaves values.market_id old.market_id row.market_id
    pub station_type : Leaves values.station_type old.station_type row.station_type
    pub system_id : row.system_id ≡ values.system_id
    pub controlling_faction_id : row.controlling_faction_id ≡ values.controlling_faction_id
    pub distance_from_star : row.distance_from_star ≡ values.distance_from_star
    pub allegiance : Leaves values.allegiance old.allegiance row.allegiance
    pub government : Leaves values.government old.government row.government
    pub economy : Leaves values.economy old.economy row.economy
    pub economies : LeavesValue values.economies old.economies row.economies
    pub landing_pads_small :
        LeavesValue values.landing_pads_small old.landing_pads_small row.landing_pads_small
    pub landing_pads_medium :
        LeavesValue values.landing_pads_medium old.landing_pads_medium row.landing_pads_medium
    pub landing_pads_large :
        LeavesValue values.landing_pads_large old.landing_pads_large row.landing_pads_large

  -- The services are those that the station sends, and the values of the new column are in step.
  abbrev pub HasServices : StationInsert → Station → Type 0
  HasServices values row =
      (ss : List Text)
      → values.services ≡ some ss
      → (row.services ≡ strings ss) × (row.services_v2 ≡ (partition_station_services ss).0)

  -- The defaults of the columns that a station may leave out.
  abbrev pub IsBlank : Station → Type 0
  IsBlank row =
      (row.market_id ≡ none)
      × (row.station_type ≡ none)
      × (row.allegiance ≡ none)
      × (row.government ≡ none)
      × (row.economy ≡ none)
      × (row.economies ≡ [])
      × (row.landing_pads_small ≡ 0)
      × (row.landing_pads_medium ≡ 0)
      × (row.landing_pads_large ≡ 0)

  -- The upsert of a station: the other rows are as they were, and one row has its name or its market
  -- id and carries what it sets, and where it sets nothing what that row had before, or the defaults.
  pub record IsUpserted (values : StationInsert) (rows written : List Station) : Type 0 where
    pub table : IsTable written
    pub others : keep (is_other values) written ≡ keep (is_other values) rows
    pub row : Station
    pub alone : keep (λ r. not (is_other values r)) written ≡ row ∷ []
    pub old : Station
    pub was : (Memᴰ old rows × (row.id ≡ old.id)) ⊎ IsBlank old
    pub carries : HasColumns values old row
    pub services : HasServices values row

  pub set_station-HasColumns :
      (values : StationInsert) (services services_v2 : Option (List Text)) (now : ℕ) (r : Station)
      → HasColumns values r
          (set_station (record values { services = services; services_v2 = services_v2 }) now r)
  set_station-HasColumns values services services_v2 now r = record {
    name = refl;
    market_id = set_to-Leaves values.market_id r.market_id;
    station_type = set_to-Leaves values.station_type r.station_type;
    system_id = refl;
    controlling_faction_id = refl;
    distance_from_star = refl;
    allegiance = set_to-Leaves values.allegiance r.allegiance;
    government = set_to-Leaves values.government r.government;
    economy = set_to-Leaves values.economy r.economy;
    economies = or_else-LeavesValue values.economies r.economies;
    landing_pads_small = or_else-LeavesValue values.landing_pads_small r.landing_pads_small;
    landing_pads_medium = or_else-LeavesValue values.landing_pads_medium r.landing_pads_medium;
    landing_pads_large = or_else-LeavesValue values.landing_pads_large r.landing_pads_large;
  }
