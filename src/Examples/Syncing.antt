-- ===== src/Examples/Syncing.antt =====
-- Runs of the EDDN worker on factions, a Docked message and powerplay.

use elitehub_vault.Base.{
  arith, Text, or_else, text_eq, codes, [], ◌∷◌, Option, none, some, true, ◌≡◌, refl, ◌==◌, lookup,
  if◌then◌else◌,
}
use elitehub_vault.Worker.Enums.{FactionGovernment, Allegiance}
use elitehub_vault.Worker.Values.{Field, undefined, null, value, map_government, map_allegiance}
use elitehub_vault.Worker.Factions.{
  Faction, ValidFaction, FactionInsert, MessageFaction, upsert_factions, validated, upsert_all,
  upsert_faction,
}
use elitehub_vault.Worker.Factions.Present.{FactionStates}
use elitehub_vault.Worker.Factions.Rows.{IsUpsertOf, upsert_factions_lem}
use elitehub_vault.Worker.Messages.{DockedMessage}
use elitehub_vault.Worker.Stations.Arrivals.{Tables, upsert_station_from_docked}
use elitehub_vault.Worker.Powerplay.{PowerplayMessage, PowerplayTables}
use elitehub_vault.Examples.Storing.{small_db, keep_text, padless, accept}

abbrev faction : Faction
faction = record {
  id = codes "f";
  name = codes "Jade";
  government = FactionGovernment.feudal;
  allegiance = Allegiance.empire;
  created_at = 1;
  updated_at = 1;
}

abbrev sent : MessageFaction
sent = record {
  name = codes "Jade";
  government = codes "$government_anarchy;";
  allegiance = codes "alliance";
}

abbrev parse_faction : FactionInsert → Option ValidFaction
parse_faction f = elim f.government [
  | value g ↦ elim f.allegiance [
    | value a ↦ some (record { name = f.name; government = g; allegiance = a })
    | undefined ↦ none
    | null ↦ none
  ]
  | undefined ↦ none
  | null ↦ none
]

abbrev set : Faction
set = record {
  id = codes "f";
  name = codes "Jade";
  government = FactionGovernment.anarchy;
  allegiance = Allegiance.alliance;
  created_at = 1;
  updated_at = 8;
}

upserted :
    upsert_factions keep_text keep_text
      (λ rows. codes "n")
      parse_faction
      (sent ∷ [])
      8
      (faction ∷ [])
    ≡ some (set ∷ [], set ∷ [])
unfolding upsert_factions validated upsert_all upsert_faction map_government map_allegiance lookup
upserted = refl

parse_faction-honest :
    (d : FactionInsert) (v : ValidFaction)
    → parse_faction d ≡ some v
    → (v.name ≡ d.name) × (d.government ≡ value v.government) × (d.allegiance ≡ value v.allegiance)
parse_faction-honest d v e = go d.government d.allegiance refl refl e
  where
    go :
        (g : Field FactionGovernment) (a : Field Allegiance)
        → d.government ≡ g
        → d.allegiance ≡ a
        → elim g [
          | value g ↦ elim a [
            | value a ↦ some (record { name = d.name; government = g; allegiance = a })
            | undefined ↦ none
            | null ↦ none
          ]
          | undefined ↦ none
          | null ↦ none
        ]
          ≡ some v
        → (v.name ≡ d.name)
          × (d.government ≡ value v.government)
          × (d.allegiance ≡ value v.allegiance)
    go undefined a p q k = absurd (ground (arith, k))
    go null a p q k = absurd (ground (arith, k))
    go (value g) undefined p q k = absurd (ground (arith, k))
    go (value g) null p q k = absurd (ground (arith, k))
    go (value g) (value a) p q k = (ground (arith, k), ground (arith, k, p), ground (arith, k, q))

upsert_factions_lem_example :
    IsUpsertOf keep_text keep_text
      (λ rows. codes "n")
      parse_faction
      (sent ∷ [])
      (faction ∷ [])
      (set ∷ [], set ∷ [])
upsert_factions_lem_example =
    upsert_factions_lem keep_text keep_text (λ rows. codes "n") parse_faction parse_faction-honest
      (sent ∷ []) 8 (faction ∷ []) (set ∷ [], set ∷ []) upserted

-- The message of a station of another system.
abbrev pub landing : DockedMessage
landing = record {
  dist_from_star_ls = 0;
  landing_pads = record { large = 1; medium = 2; small = 3 };
  market_id = 5;
  multicrew = none;
  star_pos = [];
  star_system = codes "Sol";
  station_economies = [];
  station_economy = codes "agri";
  station_faction = record { name = codes "Jade"; faction_state = none };
  station_government = codes "feudal";
  station_name = codes "Li";
  station_services = codes "dock" ∷ [];
  station_type = codes "orbis";
  system_address = 1;
  taxi = none;
  horizons = true;
  odyssey = true;
  timestamp = [];
  body = none;
  body_type = none;
  station_allegiance = none;
}

abbrev tables : Tables
tables = record { factions = faction ∷ []; stations = padless 9 ∷ [] }

-- The same at an anarchy of an alliance.
abbrev docked : DockedMessage
docked = record landing {
  station_government = codes "$government_anarchy;";
  station_allegiance = some (codes "alliance");
}

unfoldable landed : Tables
unfolding upsert_station_from_docked
landed =
    or_else
      (upsert_station_from_docked keep_text small_db keep_text (λ rows. codes "n") parse_faction
        accept docked (codes "t") 8 tables)
      tables

-- A system that leaves the stronghold state, with one power.
abbrev news : PowerplayMessage
news = record {
  powers = some (codes "Yuri Grom" ∷ []);
  controlling_power = none;
  powerplay_state = some (codes "fortified");
  powerplay_conflict_progress =
      some (record { conflict_progress = 3; power = codes "Yuri Grom" } ∷ []);
}

abbrev lower_yuri : Text → Text
lower_yuri t = if t == codes "Yuri Grom" then codes "yuri grom" else t

abbrev powerplay_tables : PowerplayTables
powerplay_tables = record {
  powers = [];
  system_powers = (codes "s", codes "old") ∷ [];
  conflicts = [];
  stations = padless 3 ∷ [];
}

abbrev powerplay_result : PowerplayTables
powerplay_result = record {
  powers = record { id = codes "n"; name = codes "Yuri Grom" } ∷ [];
  system_powers = (codes "s", codes "n") ∷ [];
  conflicts =
      record { system_id = codes "s"; power_id = codes "n"; conflict_progress = 3; updated_at = 8 }
      ∷ [];
  stations = padless 3 ∷ [];
}

-- The states of a faction that has left.
abbrev gone : FactionStates
gone = record {
  faction_id = codes "x";
  system_id = codes "s";
  happiness = none;
  influence = 0;
  active_states = [];
  recovering_states = [];
  pending_states = [];
}
