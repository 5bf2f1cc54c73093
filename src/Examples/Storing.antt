-- ===== src/Examples/Storing.antt =====
-- Runs of the EDDN worker on small tables.
use mathlib.Core.Path.{subst}
use mathlib.Core.Option.{some-injective}
use elitehub_vault.Base.{
  ℕ, suc, ◌≤◌, Text, text_eq, codes, List, [], ◌∷◌, ◌++◌, Option, none, some, true, false, ◌≡◌,
  refl, sym, ap, arith, ◌⊎◌, inl, inr, ◌==◌, ==_iff, length, length-append, All, Bool-cases,
  contains, or_else,
}
use elitehub_vault.Worker.Enums.{StationType, Economy, PowerplayState}
use elitehub_vault.Worker.Values.{undefined, null, value}
use elitehub_vault.Worker.Services.{
  string, strings, prepare_station_write_payload, is_station_service, normalize_service_values,
  partition_station_services,
}
use elitehub_vault.Worker.Services.Steps.{
  IsInStep, written_services, prepare_station_write_payload-IsInStep,
}
use elitehub_vault.Worker.Stations.{Station, StationInsert, Postgres}
use elitehub_vault.Worker.Stations.Upserts.{
  upsert_stronghold_carrier, is_stronghold_carrier, is_carrier_row,
}
use elitehub_vault.Worker.Stations.Writes.{IsTable, IsUpserted}
use elitehub_vault.Worker.Stations.Survivors.{IsPrepared}
use elitehub_vault.Worker.Stations.Strongholds.{is_blocked, upsert_stronghold_carrier_lem}

-- An id that is longer than all others.
abbrev pub long_id : List Station → Text
long_id [] = 1 ∷ []
long_id (r ∷ rows) = 1 ∷ (r.id ++ long_id rows)

pub long_id-All :
    (n : ℕ) (rows : List Station)
    → length (long_id rows) ≤ n
    → All (λ r. suc (length r.id) ≤ n) rows
long_id-All n [] h = tt
long_id-All n (r ∷ rows) h = (
  omega (arith, h, length-append r.id (long_id rows)),
  long_id-All n rows (omega (arith, h, length-append r.id (long_id rows))),
)

pub shorter :
    (i : Text) (rows : List Station)
    → All (λ r. suc (length r.id) ≤ length i) rows
    → All (λ r. (r.id == i) ≡ false) rows
shorter i [] h = tt
shorter i (r ∷ rows) h = (go (Bool-cases (r.id == i)), shorter i rows h.1)
  where
    go : ((r.id == i) ≡ true) ⊎ ((r.id == i) ≡ false) → (r.id == i) ≡ false
    go (inl e) = absurd (omega (arith, h.0, ap length ((==_iff r.id i).0 e)))
    go (inr e) = e

abbrev pub first : List Station → Option Station
first [] = none
first (r ∷ rows) = some r

pub first-some :
    (P : Station → Type 0) (rows : List Station) (r : Station)
    → All P rows
    → first rows ≡ some r
    → P r
first-some P [] r h e = absurd (ground (arith, e))
first-some P (s ∷ rows) r h e = subst P (ground (arith, e)) h.0

pub first-none : (rows : List Station) → first rows ≡ none → rows ≡ []
first-none [] e = refl
first-none (r ∷ rows) e = absurd (ground (arith, e))

-- A Postgres with case-sensitive names, where the system `s` is a stronghold.
abbrev pub small_db : Postgres
small_db = record {
  fold = λ t. t;
  pick = first;
  pick_none = first-none;
  pick_some = first-some;
  order = λ rows. rows;
  order_empty = refl;
  order_one = λ r. refl;
  new_id = long_id;
  new_id_fresh =
      λ rows. shorter (long_id rows) rows (long_id-All (length (long_id rows)) rows (omega arith));
  transaction_time = 7;
  has_system = λ s. true;
  has_faction = λ f. true;
  system_powerplay_state = λ s. some (some PowerplayState.stronghold);
}

-- A carrier in a Docked message.
abbrev carrier : StationInsert
carrier = record {
  name = codes "Stronghold Carrier";
  market_id = value 9;
  station_type = value StationType.planetary_outpost;
  system_id = codes "s";
  controlling_faction_id = codes "f";
  distance_from_star = 0;
  allegiance = null;
  government = undefined;
  economy = value Economy.high_tech;
  economies = some [];
  services = some (codes "dock" ∷ codes "x" ∷ []);
  services_v2 = some (codes "dock" ∷ []);
  landing_pads_small = some 4;
  landing_pads_medium = some 4;
  landing_pads_large = some 2;
}

-- The row that a Location message has left: no landing pads, so no carrier.
abbrev pub padless : ℕ → Station
padless market_id = record {
  id = codes "a";
  name = codes "Stronghold Carrier";
  market_id = some market_id;
  station_type = some StationType.planetary_outpost;
  system_id = codes "s";
  controlling_faction_id = codes "f";
  distance_from_star = 0;
  allegiance = none;
  government = none;
  economy = some Economy.high_tech;
  economies = [];
  services = [];
  services_v2 = [];
  landing_pads_small = 0;
  landing_pads_medium = 0;
  landing_pads_large = 0;
  created_at = 1;
  updated_at = 1;
}

abbrev pub keep_text : Text → Text
keep_text t = t

unfoldable pub accept : StationInsert → Option StationInsert
accept d = some d

pub accept-honest : (d e : StationInsert) → accept d ≡ some e → e ≡ d
unfolding accept
accept-honest d e h = sym (some-injective d e h)

pub same : (s : Text) → keep_text (keep_text s) ≡ keep_text s
same s = refl

pub padless-IsTable : (m : ℕ) → IsTable small_db (padless m ∷ [])
unfolding contains
padless-IsTable m = (refl, (refl, tt))

carrier-IsPrepared : IsPrepared keep_text carrier
unfolding normalize_service_values partition_station_services is_station_service contains
carrier-IsPrepared ss e =
    subst
      (λ t.
        (normalize_service_values keep_text (strings t) ≡ t)
        × (carrier.services_v2 ≡ some (partition_station_services t).0))
      (some-injective _ _ e) (refl, refl)

carrier_is_one : is_stronghold_carrier carrier ≡ true
unfolding is_stronghold_carrier
carrier_is_one = refl

-- A row that is no carrier and has another market id takes the name: the upsert fails.
carrier-is_blocked : is_blocked small_db keep_text carrier (padless 3 ∷ []) ≡ true
unfolding is_carrier_row
carrier-is_blocked = refl

upsert_stronghold_carrier_lem_example :
    let result = upsert_stronghold_carrier small_db keep_text (padless 3 ∷ []) carrier 8 in
    (true ≡ false → result ≡ some (padless 3 ∷ []))
    × (true ≡ true → is_blocked small_db keep_text carrier (padless 3 ∷ []) ≡ true → result ≡ none)
    × (true ≡ true
        → is_blocked small_db keep_text carrier (padless 3 ∷ []) ≡ false
        → (written : List Station) × (result ≡ some written)
          × IsUpserted small_db carrier (padless 3 ∷ []) written)
upsert_stronghold_carrier_lem_example =
    upsert_stronghold_carrier_lem small_db keep_text carrier 8 carrier-IsPrepared (padless 3 ∷ [])
      (padless-IsTable 3) carrier_is_one

prepare_station_write_payload-IsInStep_example :
    let payload =
      (prepare_station_write_payload keep_text none
        (some (string (codes "dock") ∷ []))
        (some [])).0 in
    IsInStep keep_text
      (written_services keep_text same payload (string (codes "dock") ∷ []))
      (or_else payload.services_v2 [])
prepare_station_write_payload-IsInStep_example =
    prepare_station_write_payload-IsInStep keep_text same none (string (codes "dock") ∷ []) []
      (inr refl)
